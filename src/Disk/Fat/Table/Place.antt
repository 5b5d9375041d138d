-- ===== src/Disk/Fat/Table/Place.antt =====
-- Where the entries of the file allocation table lie on the disk, with the wrap-around of the code's
-- arithmetic discharged.
use native.Mathlib.Nat.{mul-le-mul_right, le-mul_of_pos_right, mul_comm}
use zenos.Common.{
  ℕ, ◌+◌, ◌-◌, ◌*◌, ◌/◌, ◌%◌, ◌<◌, ◌≤◌, ◌≡◌, inl, inr, refl, sym, subst, ap, ◌∙◌, arith,
}
use zenos.Disk.Device.{w32, w64}
use zenos.Disk.Fat.Bpb.{FatType, fat12, fat16, fat32, Volume, fat_size}
use zenos.Disk.Fat.Bpb.Layout.{SectorSize}
use zenos.Disk.Fat.Table.{fat_offset, fat_sector, offset_in_sector, byte_offset}

-- What holds of each size of a sector.
by_sector_size : (P : ℕ → Type 0) (b : ℕ) → SectorSize b → P 512 → P 1024 → P 2048 → P 4096 → P b
by_sector_size P b (inl e) h1 h2 h3 h4 = subst P (sym e) h1
by_sector_size P b (inr (inl e)) h1 h2 h3 h4 = subst P (sym e) h2
by_sector_size P b (inr (inr (inl e))) h1 h2 h3 h4 = subst P (sym e) h3
by_sector_size P b (inr (inr (inr e))) h1 h2 h3 h4 = subst P (sym e) h4

-- The tables lie on the disk, and the code's arithmetic on them does not wrap around.
pub record Geometry (v : Volume) (size : ℕ) : Type 0 where
  pub sector_size : SectorSize v.bpb.bytes_per_sector
  pub some_fat : 1 ≤ v.bpb.num_fats
  pub narrow : v.bpb.reserved_sector_count + v.bpb.num_fats * fat_size v.bpb < 4294967296
  pub fits :
      (v.bpb.reserved_sector_count + v.bpb.num_fats * fat_size v.bpb) * v.bpb.bytes_per_sector
        + v.partition_offset
      ≤ size
  pub size_fits : size < 18446744073709551616

one_table : (v : Volume) → 1 ≤ v.bpb.num_fats → fat_size v.bpb ≤ v.bpb.num_fats * fat_size v.bpb
one_table v h =
    omega (arith, le-mul_of_pos_right (fat_size v.bpb) h, mul_comm (fat_size v.bpb) v.bpb.num_fats)

-- The bytes of the table in front of an entry, and those that the entry touches.
abbrev pub entry_offset : FatType → ℕ → ℕ
entry_offset fat12 c = c + c / 2
entry_offset fat16 c = c * 2
entry_offset fat32 c = c * 4

abbrev pub entry_width : FatType → ℕ
entry_width fat12 = 2
entry_width fat16 = 2
entry_width fat32 = 4

-- The cluster has an entry in the table.
abbrev pub InFat : Volume → ℕ → Type 0
InFat v c =
    (c < 1073741824)
    × (entry_offset v.kind c + entry_width v.kind ≤ fat_size v.bpb * v.bpb.bytes_per_sector)

-- The first byte of the table, and of an entry of it.
abbrev pub fat_start : Volume → ℕ
fat_start v = v.bpb.reserved_sector_count * v.bpb.bytes_per_sector + v.partition_offset

abbrev pub entry_start : Volume → ℕ → ℕ
entry_start v c = fat_start v + entry_offset v.kind c

pub fat_offset_lem : (k : FatType) (c : ℕ) → c < 1073741824 → fat_offset k c ≡ entry_offset k c
fat_offset_lem fat12 c h = omega arith
fat_offset_lem fat16 c h = omega arith
fat_offset_lem fat32 c h = omega arith

-- A sector of the tables: its place as the code computes it, and that it lies on the disk.
abbrev SectorPlace : ℕ → ℕ → ℕ → ℕ → ℕ → ℕ → Type 0
SectorPlace r p po size q b =
    q < p
    → r + p < 4294967296
    → (r + p) * b + po ≤ size
    → size < 18446744073709551616
    → (w64 (w32 (r + q) * b + po) ≡ r * b + po + q * b) × (r * b + po + q * b + b ≤ size)

sector_place : (r p po size q b : ℕ) → SectorSize b → SectorPlace r p po size q b
sector_place r p po size q b h =
    by_sector_size (SectorPlace r p po size q) b h (λ a c d e. omega arith) (λ a c d e. omega arith)
      (λ a c d e. omega arith) (λ a c d e. omega arith)

-- A byte of the table: its sector is one of the table's, and its place within it.
abbrev BytePlace : ℕ → ℕ → ℕ → Type 0
BytePlace x fs b =
    x < fs * b
    → (x / b < fs)
      × (x / b * b + x % b ≡ x)
      × (x % b < b)
      × (x % 2 ≡ 0 → x % b + 2 ≤ b)
      × (x % 4 ≡ 0 → x % b + 4 ≤ b)

byte_place : (x fs b : ℕ) → SectorSize b → BytePlace x fs b
byte_place x fs b h =
    by_sector_size (BytePlace x fs) b h (λ a. omega arith) (λ a. omega arith) (λ a. omega arith)
      (λ a. omega arith)

-- Where the sector with the first byte of a cluster's entry begins.
abbrev pub sector_start : Volume → ℕ → ℕ
sector_start v c =
    fat_start v + entry_offset v.kind c / v.bpb.bytes_per_sector * v.bpb.bytes_per_sector

abbrev pub entry_place : Volume → ℕ → ℕ
entry_place v c = entry_offset v.kind c % v.bpb.bytes_per_sector

-- The code's computations, for a cluster that has an entry.
pub record Placed (v : Volume) (size c : ℕ) : Type 0 where
  pub sector_at : byte_offset v (fat_sector v c) ≡ sector_start v c
  pub sector_fits : sector_start v c + v.bpb.bytes_per_sector ≤ size
  pub in_first :
      sector_start v c + v.bpb.bytes_per_sector
      ≤ fat_start v + fat_size v.bpb * v.bpb.bytes_per_sector
  pub place_at : offset_in_sector v c ≡ entry_place v c
  pub place_fits : entry_place v c < v.bpb.bytes_per_sector
  pub place_sum : sector_start v c + entry_place v c ≡ entry_start v c
  pub even : entry_offset v.kind c % 2 ≡ 0 → entry_place v c + 2 ≤ v.bpb.bytes_per_sector
  pub fourth : entry_offset v.kind c % 4 ≡ 0 → entry_place v c + 4 ≤ v.bpb.bytes_per_sector

quotient_room : (q fs b : ℕ) → q < fs → q * b + b ≤ fs * b
quotient_room q fs b h = grind arith

some_width : (k : FatType) → 2 ≤ entry_width k
some_width fat12 = omega arith
some_width fat16 = omega arith
some_width fat32 = omega arith

pub InFat-Placed : (v : Volume) (size c : ℕ) → Geometry v size → InFat v c → Placed v size c
InFat-Placed v size c g f =
    let x = entry_offset v.kind c in
    let (q, e, l, h2, h4) =
      byte_place x (fat_size v.bpb) v.bpb.bytes_per_sector g.sector_size
        (omega (arith, some_width v.kind)) in
    let (p, r) =
      sector_place v.bpb.reserved_sector_count (v.bpb.num_fats * fat_size v.bpb) v.partition_offset
        size (x / v.bpb.bytes_per_sector) v.bpb.bytes_per_sector g.sector_size
        (omega (arith, one_table v g.some_fat)) g.narrow g.fits g.size_fits in
    record {
      sector_at = rw (fat_offset_lem v.kind c f.0) p;
      sector_fits = r;
      in_first = omega (
        arith,
        quotient_room (x / v.bpb.bytes_per_sector) (fat_size v.bpb) v.bpb.bytes_per_sector q,
      );
      place_at = rw (fat_offset_lem v.kind c f.0) refl;
      place_fits = l;
      place_sum = omega arith;
      even = h2;
      fourth = h4;
    }

-- An entry that begins with the last byte of a sector goes on in the next one.
abbrev NextPlace : ℕ → ℕ → ℕ → Type 0
NextPlace x fs b = x + 2 ≤ fs * b → x % b ≡ b - 1 → x / b + 1 < fs

next_place : (x fs b : ℕ) → SectorSize b → NextPlace x fs b
next_place x fs b h =
    by_sector_size (NextPlace x fs) b h (λ a c. omega arith) (λ a c. omega arith)
      (λ a c. omega arith) (λ a c. omega arith)

pub record NextSector (v : Volume) (size c : ℕ) : Type 0 where
  pub next_at : byte_offset v (w32 (fat_sector v c + 1)) ≡ sector_start v c + v.bpb.bytes_per_sector
  pub next_fits : sector_start v c + v.bpb.bytes_per_sector + v.bpb.bytes_per_sector ≤ size

pub InFat-NextSector :
    (v : Volume) (size c : ℕ)
    → Geometry v size
    → InFat v c
    → entry_place v c ≡ v.bpb.bytes_per_sector - 1
    → NextSector v size c
InFat-NextSector v size c g f e =
    let x = entry_offset v.kind c in
    let b = v.bpb.bytes_per_sector in
    let r = v.bpb.reserved_sector_count in
    let q = next_place x (fat_size v.bpb) b g.sector_size (omega (arith, some_width v.kind)) e in
    let (p, l) =
      sector_place r (v.bpb.num_fats * fat_size v.bpb) v.partition_offset size (x / b + 1) b
        g.sector_size (omega (arith, one_table v g.some_fat)) g.narrow g.fits g.size_fits in
    record {
      next_at = rw (fat_offset_lem v.kind c f.0) (
          ap (λ y. w64 (y * b + v.partition_offset)) (carry r (x / b))
          ∙ p
          ∙ step (fat_start v) (x / b) b);
      next_fits = subst (λ y. y + b ≤ size) (step (fat_start v) (x / b) b) l;
    }
  where
    carry : (r q : ℕ) → w32 (w32 (r + q) + 1) ≡ w32 (r + (q + 1))
    carry r q = omega arith

    step : (f q b : ℕ) → f + (q + 1) * b ≡ f + q * b + b
    step f q b = grind arith

-- Where the first table and all of them end.
abbrev pub first_end : Volume → ℕ
first_end v = fat_start v + fat_size v.bpb * v.bpb.bytes_per_sector

abbrev pub tables_end : Volume → ℕ
tables_end v = fat_start v + v.bpb.num_fats * fat_size v.bpb * v.bpb.bytes_per_sector

-- Where the copy `i` of a cluster's sector begins.
abbrev pub mirror_start : Volume → ℕ → ℕ → ℕ
mirror_start v c i =
    fat_start v
    + (entry_offset v.kind c / v.bpb.bytes_per_sector + i * fat_size v.bpb) * v.bpb.bytes_per_sector

pub record MirrorPlaced (v : Volume) (size c i : ℕ) : Type 0 where
  pub mirror_at :
      byte_offset v (w32 (fat_sector v c + w32 (i * fat_size v.bpb))) ≡ mirror_start v c i
  pub mirror_fits : mirror_start v c i + v.bpb.bytes_per_sector ≤ size
  pub after_first : first_end v ≤ mirror_start v c i
  pub before_end : mirror_start v c i + v.bpb.bytes_per_sector ≤ tables_end v

copies_room : (i n fs : ℕ) → i < n → i * fs + fs ≤ n * fs
copies_room i n fs h = grind arith

after_one : (i q fs b : ℕ) → 1 ≤ i → fs * b ≤ (q + i * fs) * b
after_one i q fs b h = mul-le-mul_right b (omega (arith, le-mul_of_pos_right fs h, mul_comm fs i))

pub InFat-MirrorPlaced :
    (v : Volume) (size c i : ℕ)
    → Geometry v size
    → InFat v c
    → 1 ≤ i
    → i < v.bpb.num_fats
    → MirrorPlaced v size c i
InFat-MirrorPlaced v size c i g f lo hi =
    let x = entry_offset v.kind c in
    let b = v.bpb.bytes_per_sector in
    let r = v.bpb.reserved_sector_count in
    let fs = fat_size v.bpb in
    let (q, e, l, h2, h4) = byte_place x fs b g.sector_size (omega (arith, some_width v.kind)) in
    let k = x / b + i * fs in
    let room = copies_room i v.bpb.num_fats fs hi in
    let (p, t) =
      sector_place r (v.bpb.num_fats * fs) v.partition_offset size k b g.sector_size (omega arith)
        g.narrow g.fits g.size_fits in
    record {
      mirror_at =
          rw (fat_offset_lem v.kind c f.0)
            (ap (λ y. w64 (y * b + v.partition_offset)) (carry r (x / b) (i * fs)) ∙ p);
      mirror_fits = t;
      after_first = omega (arith, after_one i (x / b) fs b lo);
      before_end = omega (arith, quotient_room k (v.bpb.num_fats * fs) b (omega arith));
    }
  where
    carry : (r q m : ℕ) → w32 (w32 (r + q) + w32 m) ≡ w32 (r + (q + m))
    carry r q m = omega arith

pub first_last : (v : Volume) {size : ℕ} → Geometry v size → first_end v ≤ tables_end v
first_last v g = omega (arith, mul-le-mul_right v.bpb.bytes_per_sector (one_table v g.some_fat))
