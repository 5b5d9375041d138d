-- ===== src/Disk/Fat/Table/Slots.antt =====
-- The entries of the table as a map: what a changed entry holds, and that the others stay, also those
-- of FAT12 that share a byte with it.
use zenos.Common.{
  ℕ, ◌+◌, ◌*◌, ◌/◌, ◌%◌, ◌<◌, ◌≤◌, ◌≡◌, ◌≢◌, ◌⊎◌, inl, inr, refl, ap, ◌∙◌, arith, ◌==◌, Bool-cases,
}
use zenos.Disk.Fat.Bpb.{FatType, fat12, fat16, fat32}
use zenos.Disk.Fat.Table.{with_half}
use zenos.Disk.Fat.Table.Place.{entry_offset, entry_width}
use zenos.Disk.Fat.Table.Reading.{at16, entry_value, twelve_bits}
use zenos.Disk.Fat.Table.Poke.{
  poke16, poke32, put_at, at16-poke16, at16-poke16_apart, poke16-outside,
}

-- The values that an entry can hold.
abbrev pub entry_limit : FatType → ℕ
entry_limit fat12 = 4096
entry_limit fat16 = 65536
entry_limit fat32 = 268435456

abbrev pub AllBytes : (ℕ → ℕ) → Type 0
AllBytes img = (i : ℕ) → img i < 256

twelve_bits-with_half :
    (c x value : ℕ) → x < 65536 → twelve_bits c (with_half c x value % 65536) ≡ value % 4096
twelve_bits-with_half c x value h = ground arith

with_half-lt : (c x value : ℕ) → x < 65536 → with_half c x value < 65536
with_half-lt c x value h = ground arith

at32-poke32 :
    (img : ℕ → ℕ) (i x : ℕ)
    → at16 (poke32 img i x) i + 65536 * at16 (poke32 img i x) (i + 2)
      ≡ x % 65536 + 65536 * (x / 65536 % 65536)
at32-poke32 img i x =
    rw
      (
        at16-poke16_apart (poke16 img i (x % 65536)) (i + 2) i (x / 65536) (inl (omega arith)),
        at16-poke16 img i (x % 65536),
        at16-poke16 (poke16 img i (x % 65536)) (i + 2) (x / 65536),
      )
      (omega arith)

at32-poke32_apart :
    (img : ℕ → ℕ) (i j x : ℕ)
    → (j + 4 ≤ i) ⊎ (i + 4 ≤ j)
    → at16 (poke32 img i x) j + 65536 * at16 (poke32 img i x) (j + 2)
      ≡ at16 img j + 65536 * at16 img (j + 2)
at32-poke32_apart img i j x h =
    rw
      (
        at16-poke16_apart (poke16 img i (x % 65536)) (i + 2) j (x / 65536) (far i j h),
        at16-poke16_apart img i j (x % 65536) (near i j h),
        at16-poke16_apart (poke16 img i (x % 65536)) (i + 2) (j + 2) (x / 65536) (far2 i j h),
        at16-poke16_apart img i (j + 2) (x % 65536) (near2 i j h),
      )
      refl
  where
    near : (i j : ℕ) → (j + 4 ≤ i) ⊎ (i + 4 ≤ j) → (j + 2 ≤ i) ⊎ (i + 2 ≤ j)
    near i j h = ground arith

    near2 : (i j : ℕ) → (j + 4 ≤ i) ⊎ (i + 4 ≤ j) → (j + 2 + 2 ≤ i) ⊎ (i + 2 ≤ j + 2)
    near2 i j h = ground arith

    far : (i j : ℕ) → (j + 4 ≤ i) ⊎ (i + 4 ≤ j) → (j + 2 ≤ i + 2) ⊎ (i + 2 + 2 ≤ j)
    far i j h = ground arith

    far2 : (i j : ℕ) → (j + 4 ≤ i) ⊎ (i + 4 ≤ j) → (j + 2 + 2 ≤ i + 2) ⊎ (i + 2 + 2 ≤ j + 2)
    far2 i j h = ground arith

pub put_at-same :
    (k : FatType) (c value : ℕ) (img : ℕ → ℕ) (i : ℕ)
    → AllBytes img
    → entry_value k c (put_at k c value img i) i ≡ value % entry_limit k
put_at-same fat12 c value img i b =
    rw (at16-poke16 img i (with_half c (at16 img i) value))
      (twelve_bits-with_half c (at16 img i) value (omega (arith, b i, b (i + 1))))
put_at-same fat16 c value img i b = at16-poke16 img i value
put_at-same fat32 c value img i b =
    ap (λ (x : ℕ). x % 268435456) (at32-poke32 img i _)
    ∙ low_bits (at16 img i + 65536 * at16 img (i + 2)) value
  where
    low_bits :
        (e v : ℕ)
        → ((e / 268435456 * 268435456 + v % 268435456) % 65536
              + 65536 * ((e / 268435456 * 268435456 + v % 268435456) / 65536 % 65536))
            % 268435456
          ≡ v % 268435456
    low_bits e v = omega arith

-- A neighbour of FAT12 that shares the second byte, and one that shares the first.
shared_above :
    (c d value : ℕ) (img : ℕ → ℕ) (i : ℕ)
    → AllBytes img
    → c % 2 ≡ 0
    → d ≡ c + 1
    → twelve_bits d (at16 (poke16 img i (with_half c (at16 img i) value)) (i + 1))
      ≡ twelve_bits d (at16 img (i + 1))
shared_above c d value img i b p q =
    rw (front (with_half c (at16 img i) value)) (ground (arith, b i, b (i + 1), b (i + 1 + 1)))
  where
    front : (x : ℕ) → at16 (poke16 img i x) (i + 1) ≡ x / 256 % 256 + 256 * img (i + 1 + 1)
    front x = ground arith

shared_below :
    (c d value : ℕ) (img : ℕ → ℕ) (j : ℕ)
    → AllBytes img
    → d % 2 ≡ 0
    → c ≡ d + 1
    → twelve_bits d (at16 (poke16 img (j + 1) (with_half c (at16 img (j + 1)) value)) j)
      ≡ twelve_bits d (at16 img j)
shared_below c d value img j b p q =
    rw (back (with_half c (at16 img (j + 1)) value)) (ground (arith, b j, b (j + 1), b (j + 1 + 1)))
  where
    back : (x : ℕ) → at16 (poke16 img (j + 1) x) j ≡ img j + 256 * (x % 256)
    back x = ground arith

-- How the places of two entries of FAT12 lie to each other.
data Lie (c d i j : ℕ) : Type 0 where
  clear : (j + 2 ≤ i) ⊎ (i + 2 ≤ j) → Lie c d i j
  above : c % 2 ≡ 0 → d ≡ c + 1 → j ≡ i + 1 → Lie c d i j
  below : d % 2 ≡ 0 → c ≡ d + 1 → i ≡ j + 1 → Lie c d i j

lie : (f c d : ℕ) → c ≢ d → Lie c d (f + (c + c / 2)) (f + (d + d / 2))
lie f c d n = elim (Bool-cases (d == c + 1)) [
  | inl up ↦ elim (Bool-cases (c % 2 == 0)) [
    | inl e ↦ above (ground arith) (ground arith) (ground arith)
    | inr o ↦ clear (inr (ground arith))
  ]
  | inr other ↦ elim (Bool-cases (c == d + 1)) [
    | inl down ↦ elim (Bool-cases (d % 2 == 0)) [
      | inl e ↦ below (ground arith) (ground arith) (ground arith)
      | inr o ↦ clear (inl (ground arith))
    ]
    | inr far ↦ clear (ground arith)
  ]
]

put_at-apart_12 :
    (c d value : ℕ) (img : ℕ → ℕ) (i j : ℕ)
    → AllBytes img
    → Lie c d i j
    → twelve_bits d (at16 (poke16 img i (with_half c (at16 img i) value)) j)
      ≡ twelve_bits d (at16 img j)
put_at-apart_12 c d value img i j b (clear h) =
    ap (twelve_bits d) (at16-poke16_apart img i j (with_half c (at16 img i) value) h)
put_at-apart_12 c d value img i j b (above p q e) = rw e (shared_above c d value img i b p q)
put_at-apart_12 c d value img i j b (below p q e) = rw e (shared_below c d value img j b p q)

pub put_at-apart :
    (k : FatType) (c d value : ℕ) (img : ℕ → ℕ) (f : ℕ)
    → AllBytes img
    → c ≢ d
    → entry_value k d (put_at k c value img (f + entry_offset k c)) (f + entry_offset k d)
      ≡ entry_value k d img (f + entry_offset k d)
put_at-apart fat12 c d value img f b n = put_at-apart_12 c d value img _ _ b (lie f c d n)
put_at-apart fat16 c d value img f b n =
    at16-poke16_apart img (f + c * 2) (f + d * 2) value (apart c d n)
  where
    apart : (c d : ℕ) → c ≢ d → (f + d * 2 + 2 ≤ f + c * 2) ⊎ (f + c * 2 + 2 ≤ f + d * 2)
    apart c d n = ground arith
put_at-apart fat32 c d value img f b n =
    ap (λ (x : ℕ). x % 268435456) (at32-poke32_apart img (f + c * 4) (f + d * 4) _ (apart c d n))
  where
    apart : (c d : ℕ) → c ≢ d → (f + d * 4 + 4 ≤ f + c * 4) ⊎ (f + c * 4 + 4 ≤ f + d * 4)
    apart c d n = ground arith

pub put_at-AllBytes :
    (k : FatType) (c value : ℕ) (img : ℕ → ℕ) (i : ℕ)
    → AllBytes img
    → AllBytes (put_at k c value img i)
put_at-AllBytes fat12 c value img i b j = ground (arith, b j)
put_at-AllBytes fat16 c value img i b j = ground (arith, b j)
put_at-AllBytes fat32 c value img i b j = ground (arith, b j)

pub put_at-outside :
    (k : FatType) (c value : ℕ) (img : ℕ → ℕ) (i j : ℕ)
    → (j + 1 ≤ i) ⊎ (i + entry_width k ≤ j)
    → put_at k c value img i j ≡ img j
put_at-outside fat12 c value img i j h = poke16-outside img i j _ h
put_at-outside fat16 c value img i j h = poke16-outside img i j value h
put_at-outside fat32 c value img i j h = ground arith
