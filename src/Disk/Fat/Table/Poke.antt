-- ===== src/Disk/Fat/Table/Poke.antt =====
-- Single bytes and numbers put into a disk's bytes, and how a changed sector comes down to them.
use mathlib.Core.Path.{fun_ext}
use zenos.Common.{
  ℕ, ◌+◌, ◌-◌, ◌*◌, ◌/◌, ◌%◌, ◌<◌, ◌≤◌, ◌≡◌, ◌⊎◌, inl, inr, true, ◌&&◌, refl, ap, ◌∙◌, List, arith,
  ◌==◌, if◌then◌else◌, ltb, leb, length, length-set, get_or, set, get_or-set_self, get_or-set_ne,
  Bool-cases, ==_iff,
}
use zenos.Disk.Device.Reliable.{range, patch, length-range, get_or-range}
use zenos.Disk.Fat.Bpb.{FatType, fat12, fat16, fat32}
use zenos.Disk.Fat.Table.{with_half, set16, set32, put_entry}
use zenos.Disk.Fat.Table.Place.{entry_width}
use zenos.Disk.Fat.Table.Reading.{at16, le16-range, le32-range}

abbrev pub poke : (ℕ → ℕ) → ℕ → ℕ → ℕ → ℕ
poke img k x i = if i == k then x else img i

abbrev pub poke16 : (ℕ → ℕ) → ℕ → ℕ → ℕ → ℕ
poke16 img k x = poke (poke img k (x % 256)) (k + 1) (x / 256 % 256)

abbrev pub poke32 : (ℕ → ℕ) → ℕ → ℕ → ℕ → ℕ
poke32 img k x = poke16 (poke16 img k (x % 65536)) (k + 2) (x / 65536)

pub patch-range : (img : ℕ → ℕ) (o n : ℕ) → patch img o (range img o n) ≡ img
patch-range img o n = fun_ext λ i.
    elim (Bool-cases (leb o i && ltb i (o + length (range img o n)))) [
      | inl e ↦ rw e (
          get_or-range img o n (i - o) 0
            (inside i (length (range img o n)) (length-range img o n) e)
          ∙ ap img (ground arith))
      | inr e ↦ rw e refl
    ]
  where
    inside : (i l : ℕ) → l ≡ n → (leb o i && ltb i (o + l)) ≡ true → i - o < n
    inside i l q e = ground arith

pub patch-set :
    (img : ℕ → ℕ) (o : ℕ) (buf : List ℕ) (k x : ℕ)
    → k < length buf
    → patch img o (set buf k x) ≡ poke (patch img o buf) (o + k) x
patch-set img o buf k x h = fun_ext λ i. elim (Bool-cases (i == o + k)) [
  | inl e ↦ rw e (at_place i ((==_iff i (o + k)).0 e))
  | inr e ↦ rw e (ground (arith, length-set buf k x, get_or-set_ne buf k (i - o) x 0))
]
  where
    at_place : (i : ℕ) → i ≡ o + k → patch img o (set buf k x) i ≡ x
    at_place i e = ground (
      arith,
      length-set buf k x,
      get_or-set_self buf k x 0,
      ap (λ j. get_or (set buf k x) j 0) (back i e),
    )
      where
        back : (i : ℕ) → i ≡ o + k → i - o ≡ k
        back i e = omega arith

pub patch-set16 :
    (img : ℕ → ℕ) (o : ℕ) (buf : List ℕ) (k x : ℕ)
    → k + 2 ≤ length buf
    → patch img o (set16 buf k x) ≡ poke16 (patch img o buf) (o + k) x
patch-set16 img o buf k x h =
    patch-set img o (set buf k (x % 256)) (k + 1) (x / 256 % 256)
      (omega (arith, length-set buf k (x % 256)))
    ∙ ap (λ f. poke f (o + (k + 1)) (x / 256 % 256)) (patch-set img o buf k (x % 256) (omega arith))
    ∙ ap (λ j. poke (poke (patch img o buf) (o + k) (x % 256)) j (x / 256 % 256)) (omega arith)

length-set16 : (buf : List ℕ) (k x : ℕ) → length (set16 buf k x) ≡ length buf
length-set16 buf k x =
    length-set (set buf k (x % 256)) (k + 1) (x / 256 % 256) ∙ length-set buf k (x % 256)

pub patch-set32 :
    (img : ℕ → ℕ) (o : ℕ) (buf : List ℕ) (k x : ℕ)
    → k + 4 ≤ length buf
    → patch img o (set32 buf k x) ≡ poke32 (patch img o buf) (o + k) x
patch-set32 img o buf k x h =
    patch-set16 img o (set16 buf k (x % 65536)) (k + 2) (x / 65536)
      (omega (arith, length-set16 buf k (x % 65536)))
    ∙ ap (λ f. poke16 f (o + (k + 2)) (x / 65536))
        (patch-set16 img o buf k (x % 65536) (omega arith))
    ∙ ap (λ j. poke16 (poke16 (patch img o buf) (o + k) (x % 65536)) j (x / 65536)) (omega arith)

-- A number that is put is read back, and leaves the numbers that do not touch it.
pub at16-poke16 : (img : ℕ → ℕ) (k x : ℕ) → at16 (poke16 img k x) k ≡ x % 65536
at16-poke16 img k x = ground arith

pub at16-poke16_apart :
    (img : ℕ → ℕ) (k j x : ℕ) → (j + 2 ≤ k) ⊎ (k + 2 ≤ j) → at16 (poke16 img k x) j ≡ at16 img j
at16-poke16_apart img k j x h = ground arith

pub poke16-outside :
    (img : ℕ → ℕ) (k j x : ℕ) → (j + 1 ≤ k) ⊎ (k + 2 ≤ j) → poke16 img k x j ≡ img j
poke16-outside img k j x h = ground arith

-- The disk with an entry whose first byte is given.
abbrev pub put_at : FatType → ℕ → ℕ → (ℕ → ℕ) → ℕ → ℕ → ℕ
put_at fat12 c value img k = poke16 img k (with_half c (at16 img k) value)
put_at fat16 c value img k = poke16 img k value
put_at fat32 c value img k =
    poke32 img k
      ((at16 img k + 65536 * at16 img (k + 2)) / 268435456 * 268435456 + value % 268435456)

pub put_entry-put_at :
    (k : FatType) (c value : ℕ) (img : ℕ → ℕ) (o n x : ℕ)
    → x + entry_width k ≤ n
    → patch img o (put_entry k c x value (range img o n)) ≡ put_at k c value img (o + x)
unfolding put_entry
put_entry-put_at fat12 c value img o n x h =
    patch-set16 img o (range img o n) x _ (omega (arith, length-range img o n))
    ∙ rw (patch-range img o n)
        (ap (λ e. poke16 img (o + x) (with_half c e value)) (le16-range img o n x h))
put_entry-put_at fat16 c value img o n x h =
    patch-set16 img o (range img o n) x value (omega (arith, length-range img o n))
    ∙ rw (patch-range img o n) refl
put_entry-put_at fat32 c value img o n x h =
    patch-set32 img o (range img o n) x _ (omega (arith, length-range img o n))
    ∙ rw (patch-range img o n) (
        ap (λ e. poke32 img (o + x) (e / 268435456 * 268435456 + value % 268435456))
          (le32-range img o n x h))

pub length-put_entry :
    (k : FatType) (c value x : ℕ) (buf : List ℕ) → length (put_entry k c x value buf) ≡ length buf
unfolding put_entry
length-put_entry fat12 c value x buf = length-set16 buf x _
length-put_entry fat16 c value x buf = length-set16 buf x value
length-put_entry fat32 c value x buf = length-set16 (set16 buf x _) (x + 2) _ ∙ length-set16 buf x _
