-- ===== src/Disk/Fat/Table/Reading.antt =====
-- A read of an entry gives the bits of the table that stand for it.
use zenos.Common.{
  ℕ, true, false, if◌then◌else◌, ◌+◌, ◌-◌, ◌*◌, ◌/◌, ◌%◌, ◌<◌, ◌≤◌, ◌≡◌, refl, ap, subst, ◌∙◌, inl,
  inr, arith, ◌==◌, Bool-cases, get_or, repeat, length-repeat,
}
use zenos.Disk.Device.{BlockDevice, done, pure, read_at}
use zenos.Disk.Device.Reliable.{Disk, Does, Does-bind, read_at-Does, range, get_or-range}
use zenos.Disk.Fat.Bpb.{FatType, fat12, fat16, fat32, Volume, le16, le32}
use zenos.Disk.Fat.Table.{
  fat_sector, offset_in_sector, byte_offset, half, sector_buf, read_sector, read_12, decode,
  read_entry,
}
use zenos.Disk.Fat.Table.Place.{
  Geometry, InFat, InFat-Placed, InFat-NextSector, entry_offset, entry_start, sector_start,
  entry_place,
}

-- Numbers in the bytes of a disk.
abbrev pub at16 : (ℕ → ℕ) → ℕ → ℕ
at16 img i = img i + 256 * img (i + 1)

-- Of the 16 bits at an entry of FAT12, the upper twelve are those of an odd cluster and the lower
-- twelve those of an even one.
abbrev pub twelve_bits : ℕ → ℕ → ℕ
twelve_bits c x = if c % 2 == 1 then x / 16 else x % 4096

half-twelve_bits : (c x : ℕ) → half c x ≡ twelve_bits c x
half-twelve_bits c x = ground arith

-- The value of the entry whose first byte is given.
abbrev pub entry_value : FatType → ℕ → (ℕ → ℕ) → ℕ → ℕ
entry_value fat12 c img i = twelve_bits c (at16 img i)
entry_value fat16 c img i = at16 img i
entry_value fat32 c img i = (at16 img i + 65536 * at16 img (i + 2)) % 268435456

abbrev pub entry_at : Volume → (ℕ → ℕ) → ℕ → ℕ
entry_at v img c = entry_value v.kind c img (entry_start v c)

pub le16-range : (img : ℕ → ℕ) (o n k : ℕ) → k + 2 ≤ n → le16 (range img o n) k ≡ at16 img (o + k)
le16-range img o n k h =
    rw (get_or-range img o n k 0 (omega arith), get_or-range img o n (k + 1) 0 (omega arith))
      (ap (λ j. img (o + k) + 256 * img j) (regroup o k))
  where
    regroup : (o k : ℕ) → o + (k + 1) ≡ o + k + 1
    regroup o k = omega arith

pub le32-range :
    (img : ℕ → ℕ) (o n k : ℕ)
    → k + 4 ≤ n
    → le32 (range img o n) k ≡ at16 img (o + k) + 65536 * at16 img (o + k + 2)
le32-range img o n k h =
    rw (le16-range img o n k (omega arith), le16-range img o n (k + 2) (omega arith))
      (ap (λ j. at16 img (o + k) + 65536 * at16 img j) (regroup o k))
  where
    regroup : (o k : ℕ) → o + (k + 2) ≡ o + k + 2
    regroup o k = omega arith

module _ {S : Type 0} {dev : BlockDevice S} (disk : Disk dev) (v : Volume)
    (g : Geometry v disk.size) where
  -- A read into a fresh buffer.
  pub read_fresh :
      (o n : ℕ) (s : S)
      → o + n ≤ disk.size
      → Does disk (read_at dev o (repeat n 0)) s (range (disk.image s) o n) (disk.image s)
  read_fresh o n s h =
      subst
        (λ m. Does disk (read_at dev o (repeat n 0)) s (range (disk.image s) o m) (disk.image s))
        (length-repeat {A = ℕ} n 0)
        (read_at-Does disk o (repeat n 0) s (rw (length-repeat {A = ℕ} n 0) h))

  pub read_sector-Does :
      (c : ℕ) (s : S)
      → InFat v c
      → Does disk
          (read_at dev (byte_offset v (fat_sector v c)) (repeat v.bpb.bytes_per_sector 0))
          s
          (range (disk.image s) (sector_start v c) v.bpb.bytes_per_sector)
          (disk.image s)
  read_sector-Does c s f =
      let p = InFat-Placed v disk.size c g f in
      rw p.sector_at (read_fresh (sector_start v c) v.bpb.bytes_per_sector s p.sector_fits)

  -- An entry within its sector.
  within :
      (c : ℕ) (img : ℕ → ℕ)
      → InFat v c
      → entry_place v c + 2 ≤ v.bpb.bytes_per_sector
      → le16 (range img (sector_start v c) v.bpb.bytes_per_sector) (offset_in_sector v c)
        ≡ at16 img (entry_start v c)
  within c img f h =
      let p = InFat-Placed v disk.size c g f in
      rw p.place_at (
        le16-range img (sector_start v c) v.bpb.bytes_per_sector (entry_place v c) h
        ∙ ap (at16 img) p.place_sum)

  within_32 :
      (c : ℕ) (img : ℕ → ℕ)
      → InFat v c
      → entry_place v c + 4 ≤ v.bpb.bytes_per_sector
      → le32 (range img (sector_start v c) v.bpb.bytes_per_sector) (offset_in_sector v c)
        ≡ at16 img (entry_start v c) + 65536 * at16 img (entry_start v c + 2)
  within_32 c img f h =
      let p = InFat-Placed v disk.size c g f in
      rw p.place_at (
        le32-range img (sector_start v c) v.bpb.bytes_per_sector (entry_place v c) h
        ∙ ap (λ i. at16 img i + 65536 * at16 img (i + 2)) p.place_sum)

  -- The bytes of an entry that spans two sectors.
  spanning :
      (c : ℕ) (img : ℕ → ℕ)
      → InFat v c
      → entry_place v c ≡ v.bpb.bytes_per_sector - 1
      → get_or (range img (sector_start v c) v.bpb.bytes_per_sector) (offset_in_sector v c) 0
          + 256
            * get_or
                (range img (sector_start v c + v.bpb.bytes_per_sector) v.bpb.bytes_per_sector)
                0
                0
        ≡ at16 img (entry_start v c)
  spanning c img f e =
      let p = InFat-Placed v disk.size c g f in
      rw
        (
          p.place_at,
          get_or-range img (sector_start v c) v.bpb.bytes_per_sector (entry_place v c) 0
              p.place_fits,
          get_or-range img (sector_start v c + v.bpb.bytes_per_sector) v.bpb.bytes_per_sector 0 0
              (omega (arith, p.place_fits)),
        )
        (rw p.place_sum (
          ap (λ j. img (entry_start v c) + 256 * img j) (omega (arith, p.place_sum, p.place_fits))))

  -- The 16 bits of an entry of FAT12, from one sector or from two.
  read_12-Does :
      (c : ℕ) (s : S) (img : ℕ → ℕ)
      → disk.image s ≡ img
      → InFat v c
      → Does disk
          (read_12 dev v c (range img (sector_start v c) v.bpb.bytes_per_sector))
          s
          (at16 img (entry_start v c))
          img
  unfolding read_12
  read_12-Does c s img i f =
      let p = InFat-Placed v disk.size c g f in
      elim (Bool-cases (offset_in_sector v c == v.bpb.bytes_per_sector - 1)) [
        | inl e ↦
            let last = last_byte (offset_in_sector v c) (entry_place v c) _ p.place_at e in
            let n = InFat-NextSector v disk.size c g f last in
            let (s', r, i') =
              read_fresh (sector_start v c + v.bpb.bytes_per_sector) v.bpb.bytes_per_sector s
                n.next_fits in
            rw e (
              s',
              rw (n.next_at, r) (ap (λ x. (s', done x)) (rw i (spanning c img f last))),
              i' ∙ i,
            )
        | inr e ↦ rw e (
          s,
          ap (λ x. (s, done x))
              (within c img f
                (not_last (offset_in_sector v c) (entry_place v c) _ p.place_at p.place_fits e)),
          i,
        )
      ]
    where
      last_byte : (o x b : ℕ) → o ≡ x → (o == b - 1) ≡ true → x ≡ b - 1
      last_byte o x b q e = ground arith

      not_last : (o x b : ℕ) → o ≡ x → x < b → (o == b - 1) ≡ false → x + 2 ≤ b
      not_last o x b q l e = ground arith

  decode-Does :
      (k : FatType) (c : ℕ) (s : S) (img : ℕ → ℕ)
      → k ≡ v.kind
      → disk.image s ≡ img
      → InFat v c
      → Does disk
          (decode dev v k c (range img (sector_start v c) v.bpb.bytes_per_sector))
          s
          (entry_value k c img (entry_start v c))
          img
  unfolding decode
  decode-Does fat12 c s img q i f =
      Does-bind disk (read_12 dev v c (range img (sector_start v c) v.bpb.bytes_per_sector))
        (λ val. pure (half c val)) s (read_12-Does c s img i f)
        (λ s' i'.
          (s', ap (λ x. (s', done x)) (half-twelve_bits c (at16 img (entry_start v c))), i'))
  decode-Does fat16 c s img q i f =
      let p = InFat-Placed v disk.size c g f in
      let e : entry_offset v.kind c % 2 ≡ 0 =
        subst (λ k. entry_offset k c % 2 ≡ 0) q (omega arith) in
      (s, ap (λ x. (s, done x)) (within c img f (p.even e)), i)
  decode-Does fat32 c s img q i f =
      let p = InFat-Placed v disk.size c g f in
      let e : entry_offset v.kind c % 4 ≡ 0 =
        subst (λ k. entry_offset k c % 4 ≡ 0) q (omega arith) in
      (s, ap (λ x. (s, done (x % 268435456))) (within_32 c img f (p.fourth e)), i)

  -- Reading the entry of a cluster, of whatever type and also where it spans two sectors, gives the
  -- value that the bytes of the first table hold for it, and changes nothing.
  pub read_entry-Reads :
      (c : ℕ) (s : S)
      → InFat v c
      → Does disk (read_entry dev v c) s (entry_at v (disk.image s) c) (disk.image s)
  unfolding read_entry
  read_entry-Reads c s f =
      Does-bind disk (read_sector dev v (fat_sector v c) (sector_buf dev v))
        (λ buf. decode dev v v.kind c buf) s (read_sector-Does c s f)
        (λ s' i. decode-Does v.kind c s' (disk.image s) refl i f)
