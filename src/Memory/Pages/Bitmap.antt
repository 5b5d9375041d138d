-- ===== src/Memory/Pages/Bitmap.antt =====
-- The bitmap of a region: what a bit is after each operation on the words.
use zenos.Common.{
  ℕ, zero, suc, ◌+◌, ◌-◌, ◌/◌, ◌%◌, ◌≤◌, ◌<◌, ◌≡◌, ◌≢◌, ◌⊎◌, inl, inr, refl, ap, ◌∙◌, Bool, true,
  false, List, [], ◌∷◌, Option, none, some, arith, ltb, ◌==◌, length, get_or, set, All,
  get_or-set_self, get_or-set_update, get_or-set_ne, get_or-set_default, get_or-past, length-set,
  All-get_or, All-set, Bool-cases, if_cases, not_ltb→le,
}
use zenos.Memory.Pages.{Word, bit_at, put_bit, any_set, find_bit, find_page, or_else}

-- Every word has 64 bits.
abbrev pub Words64 : List Word → Type 0
Words64 = All (λ w. length w ≡ 64)

-- The word of page `p` after a write of one bit in it.
word-put :
    (b : Bool) (words : List Word) (p : ℕ)
    → get_or (put_bit b words p) (p / 64) [] ≡ set (get_or words (p / 64) []) (p % 64) b
unfolding put_bit
word-put b words p = get_or-set_update words (p / 64) [] (λ w. set w (p % 64) b) refl

word-other :
    (b : Bool) (words : List Word) (p q : ℕ)
    → p / 64 ≢ q / 64
    → get_or (put_bit b words p) (q / 64) [] ≡ get_or words (q / 64) []
unfolding put_bit
word-other b words p q e = get_or-set_ne words (p / 64) (q / 64) _ [] e

pub bit_at-put_ne :
    (b : Bool) (words : List Word) (p q : ℕ) → p ≢ q → bit_at (put_bit b words p) q ≡ bit_at words q
bit_at-put_ne b words p q h = elim (Bool-cases (p / 64 == q / 64)) [
  | inl e ↦ same_word (ground arith)
  | inr e ↦ other_word (ground arith)
]
  where
    same_word : p / 64 ≡ q / 64 → bit_at (put_bit b words p) q ≡ bit_at words q
    same_word e = rw (← e) (
        rw (word-put b words p)
          (get_or-set_ne (get_or words (p / 64) []) (p % 64) (q % 64) b false (ground arith)))

    other_word : p / 64 ≢ q / 64 → bit_at (put_bit b words p) q ≡ bit_at words q
    other_word e = ap (λ w. get_or w (q % 64) false) (word-other b words p q e)

pub bit_at-put_false : (words : List Word) (p : ℕ) → bit_at (put_bit false words p) p ≡ false
bit_at-put_false words p =
    rw (word-put false words p) (get_or-set_default (get_or words (p / 64) []) (p % 64) false)

pub bit_at-put_true :
    (words : List Word) (p : ℕ)
    → Words64 words
    → p / 64 < length words
    → bit_at (put_bit true words p) p ≡ true
bit_at-put_true words p w h = rw (word-put true words p) (
    get_or-set_self (get_or words (p / 64) []) (p % 64) true false
      (omega (arith, All-get_or (λ v. length v ≡ 64) words (p / 64) [] w h)))

pub put_bit-Words64 :
    (b : Bool) (words : List Word) (p : ℕ)
    → p / 64 < length words
    → Words64 words
    → Words64 (put_bit b words p)
unfolding put_bit
put_bit-Words64 b words p h w =
    All-set (λ v. length v ≡ 64) words (p / 64) _ w
      (length-set (get_or words (p / 64) []) (p % 64) b
        ∙ All-get_or (λ v. length v ≡ 64) words (p / 64) [] w h)

pub length-put_bit :
    (b : Bool) (words : List Word) (p : ℕ) → length (put_bit b words p) ≡ length words
unfolding put_bit
length-put_bit b words p = length-set words (p / 64) _

pub bit_at-past : (words : List Word) (p : ℕ) → length words ≤ p / 64 → bit_at words p ≡ false
bit_at-past words p h = ap (λ w. get_or w (p % 64) false) (get_or-past words (p / 64) [] h)

-- A set bit is a bit of a word.
pub bit_at-lt : (words : List Word) (p : ℕ) → bit_at words p ≡ true → p / 64 < length words
bit_at-lt words p h = ground (arith, bit_at-past words p)

-- Page `p`, counted from page `g` on, is a set bit below the limit.
abbrev pub Hit : ℕ → ℕ → (ℕ → Bool) → ℕ → Type 0
Hit limit g bit p = (i : ℕ) × ((p ≡ g + i) × ((p < limit) × (bit i ≡ true)))

find_bit-Hit :
    (limit g : ℕ) (w : Word) (p : ℕ)
    → find_bit limit g w ≡ some p
    → Hit limit g (λ i. get_or w i false) p
unfolding find_bit
find_bit-Hit limit g [] p = λ h. cc
find_bit-Hit limit g (b ∷ bs) p =
    if_cases (λ r. r ≡ some p → Hit limit g (λ i. get_or (b ∷ bs) i false) p) (ltb g limit)
      (λ low.
        if_cases (λ r. r ≡ some p → Hit limit g (λ i. get_or (b ∷ bs) i false) p) b
          (λ e h. (0, ground (arith, e))) (λ e h. later (find_bit-Hit limit (suc g) bs p h)))
      (λ high h. cc)
  where
    later :
        Hit limit (suc g) (λ i. get_or bs i false) p → Hit limit g (λ i. get_or (b ∷ bs) i false) p
    later (i, (e, (l, bit))) = (suc i, (omega arith, (l, bit)))

find_bit-none :
    (limit g : ℕ) (w : Word)
    → find_bit limit g w ≡ none
    → (i : ℕ) → g + i < limit
    → get_or w i false ≡ false
unfolding find_bit
find_bit-none limit g [] h i l = refl
find_bit-none limit g (b ∷ bs) h zero l = ground arith
find_bit-none limit g (b ∷ bs) h (suc i) l =
    find_bit-none limit (suc g) bs (ground arith) i (omega arith)

-- The word `0` has no bit.
any_set-false : (w : Word) → any_set w ≡ false → (i : ℕ) → get_or w i false ≡ false
any_set-false [] h i = refl
any_set-false (true ∷ bs) h i = cc
any_set-false (false ∷ bs) h zero = refl
any_set-false (false ∷ bs) h (suc i) = any_set-false bs h i

bit_at-head : (w : Word) (ws : List Word) (i : ℕ) → i < 64 → bit_at (w ∷ ws) i ≡ get_or w i false
bit_at-head w ws i h = rw (quotient, remainder) refl
  where
    quotient : i / 64 ≡ 0
    quotient = omega arith

    remainder : i % 64 ≡ i
    remainder = omega arith

bit_at-tail : (w : Word) (ws : List Word) (i : ℕ) → bit_at (w ∷ ws) (i + 64) ≡ bit_at ws i
bit_at-tail w ws i = rw (quotient, remainder) refl
  where
    quotient : (i + 64) / 64 ≡ suc (i / 64)
    quotient = omega arith

    remainder : (i + 64) % 64 ≡ i % 64
    remainder = omega arith

or_else-some : (a b : Option ℕ) (p : ℕ) → or_else a b ≡ some p → (a ≡ some p) ⊎ (b ≡ some p)
or_else-some (some x) b p h = inl h
or_else-some none b p h = inr h

or_else-none : (a b : Option ℕ) → or_else a b ≡ none → (a ≡ none) × (b ≡ none)
or_else-none (some x) b h = cc
or_else-none none b h = (refl, h)

-- A hit in the first word, and one in the later words.
Hit-head :
    (limit g : ℕ) (word : Word) (words : List Word) (p : ℕ)
    → length word ≡ 64
    → Hit limit g (λ i. get_or word i false) p
    → Hit limit g (bit_at (word ∷ words)) p
Hit-head limit g word words p n (i, (e, (l, bit))) =
    (i, (e, (l, bit_at-head word words i short ∙ bit)))
  where
    short : i < 64
    short = ground (arith, get_or-past word i false)

Hit-tail :
    (limit g : ℕ) (word : Word) (words : List Word) (p : ℕ)
    → Hit limit (g + 64) (bit_at words) p
    → Hit limit g (bit_at (word ∷ words)) p
Hit-tail limit g word words p (i, (e, (l, bit))) =
    (i + 64, (omega arith, (l, bit_at-tail word words i ∙ bit)))

-- The page that `find_page` gives is free and in the region.
pub find_page-Hit :
    (limit g : ℕ) (words : List Word) (p : ℕ)
    → Words64 words
    → find_page limit g words ≡ some p
    → Hit limit g (bit_at words) p
unfolding find_page
find_page-Hit limit g [] p w = λ h. cc
find_page-Hit limit g (word ∷ words) p w =
    if_cases (λ r. r ≡ some p → Hit limit g (bit_at (word ∷ words)) p) (any_set word)
      (λ e h. elim (or_else-some (find_bit limit g word) (find_page limit (g + 64) words) p h) [
        | inl here ↦ Hit-head limit g word words p w.0 (find_bit-Hit limit g word p here)
        | inr later ↦ Hit-tail limit g word words p (find_page-Hit limit (g + 64) words p w.1 later)
      ])
      (λ e h. Hit-tail limit g word words p (find_page-Hit limit (g + 64) words p w.1 h))

-- Where `find_page` gives none, no page of the region is free.
pub find_page-none :
    (limit g : ℕ) (words : List Word)
    → find_page limit g words ≡ none
    → (i : ℕ) → g + i < limit
    → bit_at words i ≡ false
unfolding find_page
find_page-none limit g [] h i l = refl
find_page-none limit g (word ∷ words) h i l = elim (Bool-cases (ltb i 64)) [
  | inl low ↦ bit_at-head word words i (ground arith) ∙ head h
  | inr high ↦
      ap (bit_at (word ∷ words)) (omega (arith, not_ltb→le i 64 high))
      ∙ bit_at-tail word words (i - 64)
      ∙ find_page-none limit (g + 64) words (tail h) (i - 64) (omega (arith, not_ltb→le i 64 high))
]
  where
    head : find_page limit g (word ∷ words) ≡ none → get_or word i false ≡ false
    head =
        if_cases (λ r. r ≡ none → get_or word i false ≡ false) (any_set word)
          (λ e k. find_bit-none limit g word (or_else-none (find_bit limit g word) _ k).0 i l)
          (λ e k. any_set-false word e i)

    tail : find_page limit g (word ∷ words) ≡ none → find_page limit (g + 64) words ≡ none
    tail =
        if_cases (λ r. r ≡ none → find_page limit (g + 64) words ≡ none) (any_set word)
          (λ e k. (or_else-none (find_bit limit g word) _ k).1) (λ e k. k)
