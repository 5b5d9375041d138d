-- ===== src/Disk/Fat/Names/Laws.antt =====
-- A name that fits 8.3 is kept.
use zenos.Common.{
  ℕ, zero, suc, ◌+◌, ◌-◌, ◌%◌, ◌<◌, ◌≤◌, ◌≡◌, ◌≢◌, ◌⊎◌, refl, sym, ap, ◌∙◌, List, [], ◌∷◌, ◌++◌,
  map, All, none, some, arith, if_of_false, ◌==◌, length, drop, repeat, length-repeat,
  length-append,
}
use zenos.Disk.Gpt.{take}
use zenos.Disk.Fat.{FatDirEntry}
use zenos.Disk.Fat.File.{copy_into}
use zenos.Disk.Fat.Names.{
  is_white, trim_step, trim_end, dot, with_ext, short_name, split_last_dot, base_and_ext, as_u8,
  pad_8_3, name_to_8_3,
}

-- A character that is not white space: a tab, one of the four line breaks behind it, a space, the next
-- line or the no-break space.
abbrev pub Visible : ℕ → Type 0
Visible c = ((c < 9) ⊎ (13 < c)) × (c ≢ 32) × (c ≢ 0x85) × (c ≢ 0xA0)

-- A text that does not end in white space.
abbrev pub EndsVisible : List ℕ → Type 0
EndsVisible [] = Unit
EndsVisible (c ∷ []) = Visible c
EndsVisible (c ∷ x ∷ xs) = EndsVisible (x ∷ xs)

-- The name with the extension `ext`: behind a dot, where there is one.
abbrev pub full_name : List ℕ → List ℕ → List ℕ
full_name base [] = base
full_name base (c ∷ ext) = base ++ (dot ∷ c ∷ ext)

-- The first eight and the last three characters of a name that can be stored.
pub record Fits83 (base ext : List ℕ) : Type 0 where
  pub base_short : length base ≤ 8
  pub ext_short : length ext ≤ 3
  pub base_bytes : All (λ c. c < 256) base
  pub ext_bytes : All (λ c. c < 256) ext
  pub base_no_dot : All (λ c. c ≢ dot) base
  pub ext_no_dot : All (λ c. c ≢ dot) ext
  pub base_end : EndsVisible base
  pub ext_end : EndsVisible ext

trim-visible : (xs : List ℕ) → EndsVisible xs → trim_end xs ≡ xs
unfolding trim_end
trim-visible [] h = refl
trim-visible (c ∷ []) h = if_of_false {b = is_white c} [] (c ∷ []) (ground (arith, h))
trim-visible (c ∷ x ∷ xs) h = ap (trim_step c) (trim-visible (x ∷ xs) h)

full_name-with_ext : (base ext : List ℕ) → with_ext base ext ≡ full_name base ext
full_name-with_ext base [] = refl
full_name-with_ext base (c ∷ ext) = refl

split_no_dot : (xs : List ℕ) → All (λ c. c ≢ dot) xs → split_last_dot xs ≡ none
unfolding split_last_dot
split_no_dot [] h = refl
split_no_dot (c ∷ cs) h =
    rw (split_no_dot cs h.1) (if_of_false {b = c == dot} _ none (ground (arith, h.0)))

split_at_dot :
    (base ext : List ℕ)
    → All (λ c. c ≢ dot) ext
    → split_last_dot (base ++ (dot ∷ ext)) ≡ some (base, ext)
unfolding split_last_dot
split_at_dot [] ext h = rw (split_no_dot ext h) refl
split_at_dot (c ∷ base) ext h = rw (split_at_dot base ext h) refl

take_all : (n : ℕ) (xs : List ℕ) → length xs ≤ n → take n xs ≡ xs
take_all zero [] h = refl
take_all zero (x ∷ xs) h = absurd (omega arith)
take_all (suc n) [] h = refl
take_all (suc n) (x ∷ xs) h = ap (◌∷◌ x) (take_all n xs (omega arith))

map_bytes : (xs : List ℕ) → All (λ c. c < 256) xs → map as_u8 xs ≡ xs
map_bytes [] h = refl
map_bytes (x ∷ xs) h = let e : x % 256 ≡ x = omega (arith, h.0) in rw (e, map_bytes xs h.1) refl

take-copy_into : (n : ℕ) (dst src : List ℕ) → take n (copy_into dst n src) ≡ take n dst
take-copy_into zero dst src = refl
take-copy_into (suc n) [] src = refl
take-copy_into (suc n) (x ∷ dst) src = ap (◌∷◌ x) (take-copy_into n dst src)

drop-copy_into :
    (n : ℕ) (dst src : List ℕ) → drop n (copy_into dst n src) ≡ copy_into (drop n dst) 0 src
drop-copy_into zero dst src = refl
drop-copy_into (suc n) [] src = refl
drop-copy_into (suc n) (x ∷ dst) src = drop-copy_into n dst src

padded :
    (n : ℕ) (xs : List ℕ) (k c : ℕ)
    → length xs + k ≡ n
    → copy_into (repeat n c) 0 xs ≡ xs ++ repeat k c
padded zero [] k c h = let e : 0 ≡ k = omega arith in ap (λ j. repeat j c) e
padded zero (x ∷ xs) k c h = absurd (omega arith)
padded (suc n) [] k c h = let e : suc n ≡ k = omega arith in ap (λ j. repeat j c) e
padded (suc n) (x ∷ xs) k c h = ap (◌∷◌ x) (padded n xs k c (omega arith))

take-repeat : (k j c : ℕ) → take k (repeat (k + j) c) ≡ repeat k c
take-repeat zero j c = refl
take-repeat (suc k) j c =
    let e : suc k + j ≡ suc (k + j) = omega arith in
    ap (λ n. take (suc k) (repeat n c)) e ∙ ap (◌∷◌ c) (take-repeat k j c)

drop-repeat : (k j c : ℕ) → drop k (repeat (k + j) c) ≡ repeat j c
drop-repeat zero j c = let e : 0 + j ≡ j = omega arith in ap (λ n. repeat n c) e
drop-repeat (suc k) j c =
    let e : suc k + j ≡ suc (k + j) = omega arith in
    ap (λ n. drop (suc k) (repeat n c)) e ∙ drop-repeat k j c

take-padded :
    (m : ℕ) (xs : List ℕ) (k j c : ℕ)
    → length xs + k ≡ m
    → take m (xs ++ repeat (k + j) c) ≡ xs ++ repeat k c
take-padded m [] k j c h =
    let e : m ≡ k = omega arith in ap (λ n. take n (repeat (k + j) c)) e ∙ take-repeat k j c
take-padded zero (x ∷ xs) k j c h = absurd (omega arith)
take-padded (suc m) (x ∷ xs) k j c h = ap (◌∷◌ x) (take-padded m xs k j c (omega arith))

drop-padded :
    (m : ℕ) (xs : List ℕ) (k j c : ℕ)
    → length xs + k ≡ m
    → drop m (xs ++ repeat (k + j) c) ≡ repeat j c
drop-padded m [] k j c h =
    let e : m ≡ k = omega arith in ap (λ n. drop n (repeat (k + j) c)) e ∙ drop-repeat k j c
drop-padded zero (x ∷ xs) k j c h = absurd (omega arith)
drop-padded (suc m) (x ∷ xs) k j c h = drop-padded m xs k j c (omega arith)

trim-spaces : (k : ℕ) → trim_end (repeat k 0x20) ≡ []
unfolding trim_end
trim-spaces zero = refl
trim-spaces (suc k) = rw (trim-spaces k) refl

trim-padded : (xs : List ℕ) (k : ℕ) → trim_end (xs ++ repeat k 0x20) ≡ trim_end xs
unfolding trim_end
trim-padded [] k = trim-spaces k
trim-padded (x ∷ xs) k = ap (trim_step x) (trim-padded xs k)

length-padded : (xs : List ℕ) (k c n : ℕ) → length xs + k ≡ n → length (xs ++ repeat k c) ≤ n
length-padded xs k c n h = omega (arith, length-append xs (repeat k c), length-repeat {A = ℕ} k c)

-- The two parts of a stored name.
module _ (base ext : List ℕ) (f : Fits83 base ext) where
  stored_base : trim_end (take 8 (pad_8_3 (base, ext))) ≡ base
  stored_base =
      let k = 8 - length base in
      let e : length base + k ≡ 8 = omega (arith, f.base_short) in
      let d : copy_into (repeat 11 0x20) 0 (map as_u8 (take 8 base)) ≡ base ++ repeat (k + 3) 0x20 =
        ap (copy_into (repeat 11 0x20) 0)
          (ap (map as_u8) (take_all 8 base f.base_short) ∙ map_bytes base f.base_bytes)
        ∙ padded 11 base (k + 3) 0x20 (omega arith) in
      ap trim_end (
        take-copy_into 8 _ (map as_u8 (take 3 ext)) ∙ ap (take 8) d ∙ take-padded 8 base k 3 0x20 e)
      ∙ trim-padded base k
      ∙ trim-visible base f.base_end

  stored_ext : trim_end (take 3 (drop 8 (pad_8_3 (base, ext)))) ≡ ext
  stored_ext =
      let k = 8 - length base in
      let e : length base + k ≡ 8 = omega (arith, f.base_short) in
      let m = 3 - length ext in
      let d : copy_into (repeat 11 0x20) 0 (map as_u8 (take 8 base)) ≡ base ++ repeat (k + 3) 0x20 =
        ap (copy_into (repeat 11 0x20) 0)
          (ap (map as_u8) (take_all 8 base f.base_short) ∙ map_bytes base f.base_bytes)
        ∙ padded 11 base (k + 3) 0x20 (omega arith) in
      let x : drop 8 (pad_8_3 (base, ext)) ≡ ext ++ repeat m 0x20 =
        drop-copy_into 8 _ (map as_u8 (take 3 ext))
        ∙ ap (λ t. copy_into t 0 (map as_u8 (take 3 ext)))
            (ap (drop 8) d ∙ drop-padded 8 base k 3 0x20 e)
        ∙ ap (copy_into (repeat 3 0x20) 0)
            (ap (map as_u8) (take_all 3 ext f.ext_short) ∙ map_bytes ext f.ext_bytes)
        ∙ padded 3 ext m 0x20 (omega (arith, f.ext_short)) in
      ap trim_end
        (ap (take 3) x ∙ take_all 3 _ (length-padded ext m 0x20 3 (omega (arith, f.ext_short))))
      ∙ trim-padded ext m
      ∙ trim-visible ext f.ext_end

  split_name : base_and_ext (with_ext base ext) (split_last_dot (with_ext base ext)) ≡ (base, ext)
  split_name = by_ext ext f.ext_no_dot
    where
      by_ext :
          (x : List ℕ)
          → All (λ c. c ≢ dot) x
          → base_and_ext (with_ext base x) (split_last_dot (with_ext base x)) ≡ (base, x)
      by_ext [] h = rw (split_no_dot base f.base_no_dot) refl
      by_ext (c ∷ x) h = rw (split_at_dot base (c ∷ x) h) refl

  -- A name in upper case of two parts without dots and without white space at their ends, the first of
  -- at most eight bytes and the second, with a dot between them, of at most three, is stored and shown as
  -- it is; so is one of the first part alone, with no dot behind it.
  pub short_name-name_to_8_3 :
      (to_uppercase : List ℕ → List ℕ) (e : FatDirEntry)
      → to_uppercase (full_name base ext) ≡ full_name base ext
      → e.name ≡ name_to_8_3 to_uppercase (full_name base ext)
      → short_name e ≡ full_name base ext
  unfolding short_name name_to_8_3
  short_name-name_to_8_3 to_uppercase e u n =
      let w = full_name-with_ext base ext in
      let q : e.name ≡ pad_8_3 (base, ext) =
        n
        ∙ ap (λ t. pad_8_3 (base_and_ext t (split_last_dot t))) (u ∙ sym w)
        ∙ ap pad_8_3 split_name in
      rw (q, stored_base, stored_ext) w
