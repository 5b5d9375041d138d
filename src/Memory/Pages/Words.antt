-- ===== src/Memory/Pages/Words.antt =====
-- The bitmap of a region, whole words at a time: the bits of a new one, and of the 8 words of 2 MiB.
use zenos.Common.{
  ℕ, zero, suc, ◌+◌, ◌-◌, ◌/◌, ◌%◌, ◌≤◌, ◌<◌, ◌≡◌, inl, inr, refl, sym, ap, ◌∙◌, Bool, true, false,
  ◌&&◌, not, List, [], ◌∷◌, arith, if◌then◌else◌, ltb, leb, ◌==◌, length, get_or, set, repeat,
  get_or-set_self, get_or-set_ne, get_or-past, get_or-repeat, get_or-padded, length-repeat,
  length-set, length-append, All-repeat, All-get_or, All-set, Bool-cases, if_cases, ltb→lt,
  not_ltb→le,
}
use zenos.Memory.Pages.{
  Word, word_max, word_zero, low_mask, bit_at, new_bitmap, all_set, words_full, clear_words,
}
use zenos.Memory.Pages.Bitmap.{Words64}

all_set-bit : (w : Word) (i : ℕ) → all_set w ≡ true → i < length w → get_or w i false ≡ true
all_set-bit [] i h l = absurd (omega arith)
all_set-bit (b ∷ bs) zero h l = ground arith
all_set-bit (b ∷ bs) (suc i) h l = all_set-bit bs i (ground arith) (omega arith)

-- Full words have all their bits.
pub words_full-bit :
    (n idx : ℕ) (words : List Word)
    → Words64 words
    → idx + n ≤ length words
    → words_full n idx words ≡ true
    → (p : ℕ) → idx ≤ p / 64
    → p / 64 < idx + n
    → bit_at words p ≡ true
unfolding words_full
words_full-bit zero idx words w l h p a b = absurd (omega arith)
words_full-bit (suc n) idx words w l h p a b = elim (Bool-cases (idx == p / 64)) [
  | inl e ↦ here (ground arith)
  | inr e ↦
      words_full-bit n (suc idx) words w (omega arith) (ground arith) p (ground arith) (omega arith)
]
  where
    here : idx ≡ p / 64 → bit_at words p ≡ true
    here e =
        all_set-bit (get_or words (p / 64) []) (p % 64) (rw (← e) (ground arith))
          (omega (arith, All-get_or (λ v. length v ≡ 64) words (p / 64) [] w (omega arith)))

-- Whether page `p` stands in one of `n` words from `idx` on.
abbrev pub in_words : ℕ → ℕ → ℕ → Bool
in_words n idx p = leb idx (p / 64) && ltb (p / 64) (idx + n)

bit_at-set_zero :
    (words : List Word) (idx p : ℕ)
    → bit_at (set words idx word_zero) p ≡ (bit_at words p && not (idx == p / 64))
bit_at-set_zero words idx p = elim (Bool-cases (idx == p / 64)) [
  | inl e ↦ inside_word (ground arith) ∙ ground arith
  | inr e ↦
      ap (λ w. get_or w (p % 64) false)
        (get_or-set_ne words idx (p / 64) word_zero [] (ground arith))
      ∙ ground arith
]
  where
    zeros : get_or word_zero (p % 64) false ≡ false
    zeros = get_or-repeat 64 (p % 64) false false ∙ ground arith

    inside_word : idx ≡ p / 64 → bit_at (set words idx word_zero) p ≡ false
    inside_word e = elim (Bool-cases (ltb idx (length words))) [
      | inl low ↦
          ap (λ w. get_or w (p % 64) false)
            (ap (λ j. get_or (set words idx word_zero) j []) (sym e)
              ∙ get_or-set_self words idx word_zero [] (ltb→lt idx (length words) low))
          ∙ zeros
      | inr high ↦
          ap (λ w. get_or w (p % 64) false)
            (get_or-past (set words idx word_zero) (p / 64) [] (
              omega (arith, length-set words idx word_zero, not_ltb→le idx (length words) high, e)))
    ]

pub clear_words-bit :
    (n idx : ℕ) (words : List Word) (p : ℕ)
    → bit_at (clear_words n idx words) p ≡ (bit_at words p && not (in_words n idx p))
unfolding clear_words
clear_words-bit zero idx words p = ground arith
clear_words-bit (suc n) idx words p =
    clear_words-bit n (suc idx) (set words idx word_zero) p
    ∙ (rw (bit_at-set_zero words idx p) (ground arith))

pub clear_words-Words64 :
    (n idx : ℕ) (words : List Word) → Words64 words → Words64 (clear_words n idx words)
unfolding clear_words
clear_words-Words64 zero idx words w = w
clear_words-Words64 (suc n) idx words w =
    clear_words-Words64 n (suc idx) _ (All-set (λ v. length v ≡ 64) words idx word_zero w refl)

pub length-clear_words :
    (n idx : ℕ) (words : List Word) → length (clear_words n idx words) ≡ length words
unfolding clear_words
length-clear_words zero idx words = refl
length-clear_words (suc n) idx words =
    length-clear_words n (suc idx) _ ∙ length-set words idx word_zero

low_mask-bit : (bits i : ℕ) → get_or (low_mask bits) i false ≡ ltb i bits
low_mask-bit bits i =
    get_or-padded (repeat bits true) (64 - bits) i false
    ∙ (get_or-repeat bits i true false ∙ ground arith)

length-low_mask : (bits : ℕ) → bits ≤ 64 → length (low_mask bits) ≡ 64
length-low_mask bits h =
    length-append (repeat bits true) (repeat (64 - bits) false)
    ∙ omega (arith, length-repeat bits true, length-repeat (64 - bits) false)

ones-bit : (n p : ℕ) → bit_at (repeat n word_max) p ≡ ltb (p / 64) n
ones-bit n p = rw (get_or-repeat n (p / 64) word_max []) (
    if_cases (λ w. get_or w (p % 64) false ≡ ltb (p / 64) n) (ltb (p / 64) n)
      (λ e. get_or-repeat 64 (p % 64) true false ∙ ground (arith, e)) (λ e. sym e))

partial-bit :
    (n k p : ℕ)
    → 0 < n
    → bit_at (set (repeat n word_max) (n - 1) (low_mask k)) p
      ≡ (if n - 1 == p / 64 then ltb (p % 64) k else ltb (p / 64) n)
partial-bit n k p h = elim (Bool-cases (n - 1 == p / 64)) [
  | inl e ↦
      ap (λ w. get_or w (p % 64) false)
        (ap (λ j. get_or (set (repeat n word_max) (n - 1) (low_mask k)) j []) (ground arith)
          ∙ get_or-set_self (repeat n word_max) (n - 1) (low_mask k) []
              (omega (arith, length-repeat n word_max)))
      ∙ (low_mask-bit k (p % 64) ∙ ground arith)
  | inr e ↦
      ap (λ w. get_or w (p % 64) false)
        (get_or-set_ne (repeat n word_max) (n - 1) (p / 64) (low_mask k) [] (ground arith))
      ∙ (ones-bit n p ∙ ground arith)
]

-- A new bitmap has the words for its pages, and marks these free and no other.
pub new_bitmap-Words64 : (pages : ℕ) → Words64 (new_bitmap pages)
unfolding new_bitmap
new_bitmap-Words64 pages =
    if_cases Words64 (pages % 64 == 0) (λ e. ones)
      (λ e.
        All-set (λ v. length v ≡ 64) (repeat ((pages + 63) / 64) word_max) _ (low_mask (pages % 64))
          ones (length-low_mask (pages % 64) (omega arith)))
  where
    ones : Words64 (repeat ((pages + 63) / 64) word_max)
    ones = All-repeat (λ v. length v ≡ 64) ((pages + 63) / 64) word_max refl

pub length-new_bitmap : (pages : ℕ) → length (new_bitmap pages) ≡ (pages + 63) / 64
unfolding new_bitmap
length-new_bitmap pages =
    if_cases (λ (ws : List Word). length ws ≡ (pages + 63) / 64) (pages % 64 == 0)
      (λ e. length-repeat ((pages + 63) / 64) word_max)
      (λ e.
        length-set (repeat ((pages + 63) / 64) word_max) _ (low_mask (pages % 64))
        ∙ length-repeat ((pages + 63) / 64) word_max)

pub new_bitmap-bit : (pages p : ℕ) → bit_at (new_bitmap pages) p ≡ ltb p pages
unfolding new_bitmap
new_bitmap-bit pages p =
    if_cases (λ ws. bit_at ws p ≡ ltb p pages) (pages % 64 == 0)
      (λ e. ones-bit ((pages + 63) / 64) p ∙ ground arith)
      (λ e. partial-bit ((pages + 63) / 64) (pages % 64) p (ground arith) ∙ ground arith)
