-- ===== src/Common/Bytes.antt =====
-- Texts as lists of bytes, with the tests of `str` that the kernel uses on paths.
use Prim.Native.Nat.{ℕ}
use mathlib.Core.Path.{◌≡◌, refl}
use mathlib.Core.Bool.{Bool, true, false, ◌&&◌}
use mathlib.Core.List.{List, [], ◌∷◌, ◌++◌}
use native.Mathlib.Omega.{arith}
use zenos.Common.Logic.{◌==◌, if◌then◌else◌, ltb}
use zenos.Common.Lists.{length, drop}

-- `a == b` on `str`.
abbrev pub bytes_eq : List ℕ → List ℕ → Bool
bytes_eq [] [] = true
bytes_eq (a ∷ as') (b ∷ bs) = a == b && bytes_eq as' bs
bytes_eq _ _ = false

-- The order of `str`, by which a `BTreeMap` holds its keys.
abbrev pub bytes_lt : List ℕ → List ℕ → Bool
bytes_lt [] [] = false
bytes_lt [] (b ∷ bs) = true
bytes_lt (a ∷ as') [] = false
bytes_lt (a ∷ as') (b ∷ bs) = if a == b then bytes_lt as' bs else ltb a b

unfoldable pub starts_with : List ℕ → List ℕ → Bool
starts_with path [] = true
starts_with [] (b ∷ bs) = false
starts_with (a ∷ as') (b ∷ bs) = a == b && starts_with as' bs

pub bytes_eq_refl : (a : List ℕ) → bytes_eq a a ≡ true
bytes_eq_refl [] = refl
bytes_eq_refl (a ∷ as') = ground (arith, bytes_eq_refl as')

pub bytes_eq→eq : (a b : List ℕ) → bytes_eq a b ≡ true → a ≡ b
bytes_eq→eq [] [] h = refl
bytes_eq→eq [] (b ∷ bs) h = cc
bytes_eq→eq (a ∷ as') [] h = cc
bytes_eq→eq (a ∷ as') (b ∷ bs) h = ground (arith, bytes_eq→eq as' bs)

-- A text starts with its own front.
pub starts_with-append : (m rest : List ℕ) → starts_with (m ++ rest) m ≡ true
unfolding starts_with
starts_with-append [] [] = refl
starts_with-append [] (r ∷ rest) = refl
starts_with-append (a ∷ m) rest = ground (arith, starts_with-append m rest)

pub drop-append : (m rest : List ℕ) → drop (length m) (m ++ rest) ≡ rest
drop-append [] rest = refl
drop-append (a ∷ m) rest = drop-append m rest

-- What a text starts with, and the rest of it.
pub starts_with-split :
    (path m : List ℕ) → starts_with path m ≡ true → path ≡ m ++ drop (length m) path
unfolding starts_with
starts_with-split path [] h = refl
starts_with-split [] (b ∷ bs) h = cc
starts_with-split (a ∷ as') (b ∷ bs) h = ground (arith, starts_with-split as' bs)
