-- ===== src/Disk/Fat/Bpb/Layout.antt =====
-- What a volume that is mounted promises of its layout.
use zenos.Common.{
  ℕ, ◌+◌, ◌-◌, ◌*◌, ◌/◌, ◌<◌, ◌≤◌, ◌≡◌, ◌⊎◌, refl, Bool, true, false, ◌||◌, not, arith, ltb, leb,
  ◌==◌,
}
use zenos.Disk.Device.{w32}
use zenos.Disk.Fat.Bpb.{
  BiosParameterBlock, MountResult, mounted, FsMountError, fat_size, total_sectors,
  first_data_sector, cluster_to_sector, fat_type, sector_size_ok, bad_for_type, refuse_if, validate,
}

-- The sizes of a sector.
abbrev pub SectorSize : ℕ → Type 0
SectorSize n = (n ≡ 512) ⊎ (n ≡ 1024) ⊎ (n ≡ 2048) ⊎ (n ≡ 4096)

-- The number of data clusters.
abbrev pub cluster_count : BiosParameterBlock → ℕ
cluster_count b = (total_sectors b - first_data_sector b) / b.sectors_per_cluster

pub record Valid (b : BiosParameterBlock) : Type 0 where
  pub sector_size : SectorSize b.bytes_per_sector
  pub cluster_size : (1 ≤ b.sectors_per_cluster) × (b.sectors_per_cluster ≤ 128)
  pub reserved : 1 ≤ b.reserved_sector_count
  pub fats : 1 ≤ b.num_fats
  pub has_fat : 1 ≤ fat_size b
  pub for_type : bad_for_type b (fat_type b) ≡ false
  pub room : first_data_sector b < total_sectors b

refuse_if-mounted :
    {A : Type 0} (c : Bool) (e : FsMountError) (rest : MountResult A) {a : A}
    → refuse_if c e rest ≡ mounted a
    → (c ≡ false) × (rest ≡ mounted a)
refuse_if-mounted true e rest h = cc
refuse_if-mounted false e rest h = (refl, h)

SectorSize-ok : (n : ℕ) → not (sector_size_ok n) ≡ false → SectorSize n
SectorSize-ok n h = ground arith

pub validate-Valid : (b : BiosParameterBlock) → validate b ≡ mounted tt → Valid b
unfolding validate
validate-Valid b h0 =
    let (c1, h1) = refuse_if-mounted _ _ _ h0 in
    let (c2, h2) = refuse_if-mounted _ _ _ h1 in
    let (c3, h3) = refuse_if-mounted _ _ _ h2 in
    let (c4, h4) = refuse_if-mounted _ _ _ h3 in
    let (c5, h5) = refuse_if-mounted _ _ _ h4 in
    let (c6, h6) = refuse_if-mounted _ _ _ h5 in
    let (c7, h7) = refuse_if-mounted _ _ _ h6 in
    let (c8, h8) = refuse_if-mounted _ _ _ h7 in
    record {
      sector_size = SectorSize-ok b.bytes_per_sector c1;
      cluster_size = (positive b.sectors_per_cluster _ c2, at_most b.sectors_per_cluster _ c2);
      reserved = nonzero b.reserved_sector_count c3;
      fats = nonzero b.num_fats c4;
      has_fat = nonzero (fat_size b) c6;
      for_type = c7;
      room = not_le (total_sectors b) (first_data_sector b) c8;
    }
  where
    nonzero : (n : ℕ) → (n == 0) ≡ false → 1 ≤ n
    nonzero n h = ground arith

    positive : (n : ℕ) (r : Bool) → (n == 0 || ltb 128 n || r) ≡ false → 1 ≤ n
    positive n r h = ground arith

    at_most : (n : ℕ) (r : Bool) → (n == 0 || ltb 128 n || r) ≡ false → n ≤ 128
    at_most n r h = ground arith

    not_le : (m n : ℕ) → leb m n ≡ false → n < m
    not_le m n h = ground arith

-- The computation of a cluster's sector does not wrap around inside the volume.
pub cluster_to_sector_lem :
    (b : BiosParameterBlock) (c : ℕ)
    → (c - 2) * b.sectors_per_cluster + b.sectors_per_cluster
      ≤ total_sectors b - first_data_sector b
    → first_data_sector b < total_sectors b
    → total_sectors b < 4294967296
    → 2 ≤ c
    → 1 ≤ b.sectors_per_cluster
    → cluster_to_sector b c ≡ first_data_sector b + (c - 2) * b.sectors_per_cluster
cluster_to_sector_lem b c q f t lo d =
    let e : w32 (c + 4294967294) ≡ c - 2 = omega (arith, below (c - 2) b.sectors_per_cluster d) in
    rw e (omega arith)
  where
    below : (k d : ℕ) → 1 ≤ d → k ≤ k * d
    below k d h = grind arith

-- The sectors in front of the data: the reserved ones, the tables, and `roots` for the root directory.
abbrev pub sectors_before : BiosParameterBlock → ℕ → ℕ
sectors_before b roots = b.reserved_sector_count + b.num_fats * fat_size b + roots
