-- ===== src/Common/Reads.antt =====
-- Reads with a default, `get_or`, after a write, of a repeated value and of a joined list.
use Prim.Native.Nat.{ℕ, zero, suc, ◌<◌, ◌≤◌}
use mathlib.Core.Path.{◌≡◌, refl, sym, ap}
use mathlib.Core.Logic.{◌≢◌}
use mathlib.Core.List.{List, [], ◌∷◌, ◌++◌}
use native.Mathlib.Omega.{arith}
use zenos.Common.Logic.{if◌then◌else◌, ltb}
use zenos.Common.Lists.{length, get_or, set, repeat, All}

module _ {ℓ} {A : Type ℓ} where
  pub get_or-set_self :
      (xs : List A) (i : ℕ) (v d : A) → i < length xs → get_or (set xs i v) i d ≡ v
  get_or-set_self [] i v d h = absurd (omega arith)
  get_or-set_self (x ∷ xs) zero v d h = refl
  get_or-set_self (x ∷ xs) (suc i) v d h = get_or-set_self xs i v d (omega arith)

  pub get_or-set_ne :
      (xs : List A) (i j : ℕ) (v d : A) → i ≢ j → get_or (set xs i v) j d ≡ get_or xs j d
  get_or-set_ne [] i j v d h = refl
  get_or-set_ne (x ∷ xs) zero zero v d h = absurd (h refl)
  get_or-set_ne (x ∷ xs) zero (suc j) v d h = refl
  get_or-set_ne (x ∷ xs) (suc i) zero v d h = refl
  get_or-set_ne (x ∷ xs) (suc i) (suc j) v d h = get_or-set_ne xs i j v d (λ e. h (ap suc e))

  -- A write of the default reads as the default, in range or not.
  pub get_or-set_default : (xs : List A) (i : ℕ) (d : A) → get_or (set xs i d) i d ≡ d
  get_or-set_default [] i d = refl
  get_or-set_default (x ∷ xs) zero d = refl
  get_or-set_default (x ∷ xs) (suc i) d = get_or-set_default xs i d

  -- A change of one element by a function that keeps the default.
  pub get_or-set_update :
      (xs : List A) (i : ℕ) (d : A) (f : A → A)
      → f d ≡ d
      → get_or (set xs i (f (get_or xs i d))) i d ≡ f (get_or xs i d)
  get_or-set_update [] i d f h = sym h
  get_or-set_update (x ∷ xs) zero d f h = refl
  get_or-set_update (x ∷ xs) (suc i) d f h = get_or-set_update xs i d f h

  pub get_or-past : (xs : List A) (i : ℕ) (d : A) → length xs ≤ i → get_or xs i d ≡ d
  get_or-past [] i d h = refl
  get_or-past (x ∷ xs) zero d h = absurd (omega arith)
  get_or-past (x ∷ xs) (suc i) d h = get_or-past xs i d (omega arith)

  pub get_or-repeat : (n i : ℕ) (v d : A) → get_or (repeat n v) i d ≡ (if ltb i n then v else d)
  get_or-repeat zero i v d = ground arith
  get_or-repeat (suc n) zero v d = ground arith
  get_or-repeat (suc n) (suc i) v d = ground (arith, get_or-repeat n i v d)

  pub length-repeat : (n : ℕ) (v : A) → length (repeat n v) ≡ n
  length-repeat zero v = refl
  length-repeat (suc n) v = ap suc (length-repeat n v)

  -- Padding with the default is not seen.
  pub get_or-padded :
      (xs : List A) (n i : ℕ) (d : A) → get_or (xs ++ repeat n d) i d ≡ get_or xs i d
  get_or-padded [] n i d = ground (arith, get_or-repeat n i d d)
  get_or-padded (x ∷ xs) n zero d = refl
  get_or-padded (x ∷ xs) n (suc i) d = get_or-padded xs n i d

  pub All-repeat {κ} : (P : A → Type κ) (n : ℕ) (v : A) → P v → All P (repeat n v)
  All-repeat P zero v p = tt
  All-repeat P (suc n) v p = (p, All-repeat P n v p)

  pub All-get_or {κ} :
      (P : A → Type κ) (xs : List A) (i : ℕ) (d : A) → All P xs → i < length xs → P (get_or xs i d)
  All-get_or P [] i d h l = absurd (omega arith)
  All-get_or P (x ∷ xs) zero d h l = h.0
  All-get_or P (x ∷ xs) (suc i) d h l = All-get_or P xs i d h.1 (omega arith)
