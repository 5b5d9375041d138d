-- ===== src/Disk/Gpt/Bytes.antt =====
-- Fields laid out one behind the other, and the reads that find them.
use zenos.Common.{
  ℕ, zero, suc, ◌+◌, ◌*◌, ◌/◌, ◌%◌, ◌<◌, ◌≤◌, ◌≡◌, refl, ap, ◌∙◌, List, [], ◌∷◌, ◌++◌, none, some,
  arith, length, length-append, drop, get_elem?, if_of_true, le→leb, leb,
}
use zenos.Disk.Gpt.{take, get_range, from_le}

abbrev pub concat : List (List ℕ) → List ℕ
concat [] = []
concat (f ∷ fs) = f ++ concat fs

-- Where field `k` begins.
abbrev pub offset_of : ℕ → List (List ℕ) → ℕ
offset_of zero fs = 0
offset_of (suc k) [] = 0
offset_of (suc k) (f ∷ fs) = length f + offset_of k fs

take-front : (xs ys : List ℕ) → take (length xs) (xs ++ ys) ≡ xs
take-front [] ys = refl
take-front (x ∷ xs) ys = ap (◌∷◌ x) (take-front xs ys)

drop-front : (xs ys : List ℕ) (n : ℕ) → drop (length xs + n) (xs ++ ys) ≡ drop n ys
drop-front [] ys n = ap (λ k. drop k ys) (same n)
  where
    same : (n : ℕ) → 0 + n ≡ n
    same n = omega arith
drop-front (x ∷ xs) ys n =
    ap (λ k. drop k (x ∷ (xs ++ ys))) (next (length xs) n) ∙ drop-front xs ys n
  where
    next : (l n : ℕ) → suc l + n ≡ suc (l + n)
    next l n = omega arith

drop-field :
    (fs : List (List ℕ)) (k : ℕ) (f : List ℕ)
    → get_elem? fs k ≡ some f
    → ((rest : List ℕ) × (drop (offset_of k fs) (concat fs) ≡ f ++ rest))
      × (offset_of k fs + length f ≤ length (concat fs))
drop-field [] k f e = cc
drop-field (g ∷ fs) zero f e = (
  (concat fs, ap (λ x. x ++ concat fs) (unwrap e)),
  omega (arith, length-append g (concat fs), ap length (unwrap e)),
)
  where
    unwrap : {a b : List ℕ} → some a ≡ some b → a ≡ b
    unwrap q = cc
drop-field (g ∷ fs) (suc k) f e = step (drop-field fs k f e)
  where
    step :
        ((rest : List ℕ) × (drop (offset_of k fs) (concat fs) ≡ f ++ rest))
          × (offset_of k fs + length f ≤ length (concat fs))
        → ((rest : List ℕ) × (drop (length g + offset_of k fs) (g ++ concat fs) ≡ f ++ rest))
          × (length g + offset_of k fs + length f ≤ length (g ++ concat fs))
    step ((rest, q), l) = (
      (rest, drop-front g (concat fs) (offset_of k fs) ∙ q),
      omega (arith, length-append g (concat fs), l),
    )

-- The read at a field's offset for its length gives the field.
pub get_range-field :
    (fs : List (List ℕ)) (k : ℕ) (f : List ℕ)
    → get_elem? fs k ≡ some f
    → get_range (concat fs) (offset_of k fs) (length f) ≡ some f
unfolding get_range
get_range-field fs k f e =
    if_of_true {b = leb (offset_of k fs + length f) (length (concat fs))} _ none
      (le→leb (offset_of k fs + length f) (length (concat fs)) (drop-field fs k f e).1)
    ∙ ap some
        (ap (take (length f)) (drop-field fs k f e).0.1 ∙ take-front f (drop-field fs k f e).0.0)

-- The bytes of a number, the lowest first.
abbrev pub to_le : ℕ → ℕ → List ℕ
to_le zero x = []
to_le (suc n) x = x % 256 ∷ to_le n (x / 256)

pub length-to_le : (n x : ℕ) → length (to_le n x) ≡ n
length-to_le zero x = refl
length-to_le (suc n) x = ap suc (length-to_le n (x / 256))

-- 256 to the power of `n`.
abbrev pub byte_limit : ℕ → ℕ
byte_limit zero = 1
byte_limit (suc n) = 256 * byte_limit n

pub from_le-to_le : (n x : ℕ) → x < byte_limit n → from_le (to_le n x) ≡ x
from_le-to_le zero x h = omega arith
from_le-to_le (suc n) x h = omega (arith, from_le-to_le n (x / 256) (omega arith))
