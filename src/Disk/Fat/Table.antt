-- ===== src/Disk/Fat/Table.antt =====
-- The file allocation table, `FatTable` of zenos-kernel/src/disk/fs/fat/plumbing.rs, and the reads and
-- writes of clusters.
pub mod Place
pub mod Reading
pub mod Poke
pub mod Slots
pub mod Writing
pub mod Allocation
use zenos.Common.{
  ℕ, zero, suc, ◌+◌, ◌-◌, ◌*◌, ◌/◌, ◌%◌, Bool, List, [], ◌∷◌, if◌then◌else◌, leb, ◌==◌, length,
  get_or, set, repeat,
}
use zenos.Vfs.Error.{FileError, other}
use zenos.Disk.Device.{BlockDevice, M, pure, fail, ◌>>=◌, ◌>>◌, read_at, write_at, w32, w64}
use zenos.Disk.Fat.Bpb.{
  BiosParameterBlock, FatType, fat12, fat16, fat32, Volume, le16, le32, fat_size, total_sectors,
  first_data_sector, first_fat_sector, cluster_to_sector,
}

abbrev pub fat_free : ℕ
fat_free = 0

-- Where the entry of a cluster begins in the table.
abbrev pub fat_offset : FatType → ℕ → ℕ
fat_offset fat12 cluster = w32 (cluster + cluster / 2)
fat_offset fat16 cluster = w32 (cluster * 2)
fat_offset fat32 cluster = w32 (cluster * 4)

abbrev pub fat_sector : Volume → ℕ → ℕ
fat_sector v cluster =
    w32 (first_fat_sector v.bpb + fat_offset v.kind cluster / v.bpb.bytes_per_sector)

abbrev pub offset_in_sector : Volume → ℕ → ℕ
offset_in_sector v cluster = fat_offset v.kind cluster % v.bpb.bytes_per_sector

-- `sector as u64 * bytes_per_sector as u64 + partition_offset`.
abbrev pub byte_offset : Volume → ℕ → ℕ
byte_offset v sector = w64 (sector * v.bpb.bytes_per_sector + v.partition_offset)

-- The entry of a cluster of FAT12 in the 16 bits that hold it: the upper 12 of an odd one, the lower
-- 12 of an even one.
abbrev pub half : ℕ → ℕ → ℕ
half cluster val = if cluster % 2 == 0 then val % 4096 else val / 16

-- Those 16 bits with another entry in its place.
abbrev pub with_half : ℕ → ℕ → ℕ → ℕ
with_half cluster existing value =
    if cluster % 2 == 0
    then existing / 4096 * 4096 + value % 4096
    else existing % 16 + value * 16 % 65536

-- `new_val.to_le_bytes()` into two and into four bytes of the buffer.
abbrev pub set16 : List ℕ → ℕ → ℕ → List ℕ
set16 buf i x = set (set buf i (x % 256)) (i + 1) (x / 256 % 256)

abbrev pub set32 : List ℕ → ℕ → ℕ → List ℕ
set32 buf i x = set16 (set16 buf i (x % 65536)) (i + 2) (x / 65536)

-- The sector with a new entry at the offset. Of an entry of FAT12 that spans two sectors only the
-- first byte is written.
unfoldable pub put_entry : FatType → ℕ → ℕ → ℕ → List ℕ → List ℕ
put_entry fat12 cluster o value buf =
    let new_val = with_half cluster (get_or buf o 0 + 256 * get_or buf (o + 1) 0) value in
    set16 buf o new_val
put_entry fat16 cluster o value buf = set16 buf o value
put_entry fat32 cluster o value buf =
    set32 buf o (le32 buf o / 268435456 * 268435456 + value % 268435456)

abbrev pub end_of_chain : FatType → ℕ
end_of_chain fat12 = 0x0FFF
end_of_chain fat16 = 0xFFFF
end_of_chain fat32 = 0x0FFFFFFF

abbrev pub is_eoc : FatType → ℕ → Bool
is_eoc fat12 entry = leb 0x0FF8 entry
is_eoc fat16 entry = leb 0xFFF8 entry
is_eoc fat32 entry = leb 0x0FFFFFF8 entry

-- "No free clusters".
abbrev pub no_free_clusters : List ℕ
no_free_clusters =
    78 ∷ 111 ∷ 32 ∷ 102 ∷ 114 ∷ 101 ∷ 101 ∷ 32 ∷ 99 ∷ 108 ∷ 117 ∷ 115 ∷ 116 ∷ 101 ∷ 114 ∷ 115 ∷ []

-- The number of data clusters.
abbrev pub total_clusters : Volume → ℕ
total_clusters v =
    w32 (total_sectors v.bpb + 4294967296 - first_data_sector v.bpb) / v.bpb.sectors_per_cluster

module _ {S : Type 0} (dev : BlockDevice S) (v : Volume) where
  open v use {bpb, kind}

  abbrev pub read_sector : ℕ → List ℕ → M S (List ℕ)
  read_sector sector buf = read_at dev (byte_offset v sector) buf

  abbrev pub write_sector : ℕ → List ℕ → M S (Unit {0})
  write_sector sector buf = write_at dev (byte_offset v sector) buf

  -- An empty buffer of a sector.
  abbrev pub sector_buf : List ℕ
  sector_buf = repeat v.bpb.bytes_per_sector 0

  -- The 16 bits of an entry of FAT12, which may span two sectors.
  unfoldable pub read_12 : ℕ → List ℕ → M S ℕ
  read_12 cluster buf =
      if offset_in_sector v cluster == v.bpb.bytes_per_sector - 1
      then (do
        next ← read_sector (w32 (fat_sector v cluster + 1)) sector_buf
        pure (get_or buf (offset_in_sector v cluster) 0 + 256 * get_or next 0 0))
      else pure (le16 buf (offset_in_sector v cluster))

  unfoldable pub decode : FatType → ℕ → List ℕ → M S ℕ
  decode fat12 cluster buf = do val ← read_12 cluster buf; pure (half cluster val)
  decode fat16 cluster buf = pure (le16 buf (offset_in_sector v cluster))
  decode fat32 cluster buf = pure (le32 buf (offset_in_sector v cluster) % 268435456)

  unfoldable pub read_entry : ℕ → M S ℕ
  read_entry cluster = do
    buf ← read_sector (fat_sector v cluster) sector_buf
    decode v.kind cluster buf

  -- The writes of the copies `i`, `i + 1` and so on, as many as are left.
  unfoldable pub write_mirrors : ℕ → ℕ → ℕ → List ℕ → M S (Unit {0})
  write_mirrors zero i sector buf = pure tt
  write_mirrors (suc left) i sector buf = do
    write_sector (w32 (sector + w32 (i * fat_size v.bpb))) buf
    write_mirrors left (i + 1) sector buf

  unfoldable pub write_entry : ℕ → ℕ → M S (Unit {0})
  write_entry cluster value = do
    buf ← read_sector (fat_sector v cluster) sector_buf
    let new_buf = put_entry v.kind cluster (offset_in_sector v cluster) value buf
    write_sector (fat_sector v cluster) new_buf
    write_mirrors (v.bpb.num_fats - 1) 1 (fat_sector v cluster) new_buf

  -- The search from a cluster on, over as many as are left.
  unfoldable pub allocate_from : ℕ → ℕ → M S ℕ
  allocate_from zero cluster = fail (other no_free_clusters)
  allocate_from (suc left) cluster = do
    entry ← read_entry cluster
    if entry == fat_free
        then write_entry cluster (end_of_chain v.kind) >> pure cluster
        else allocate_from left (cluster + 1)

  unfoldable pub allocate_cluster : M S ℕ
  unfolding allocate_from
  allocate_cluster = allocate_from (total_clusters v) 2

  unfoldable pub read_cluster : ℕ → List ℕ → M S (List ℕ)
  read_cluster cluster buf = read_at dev (byte_offset v (cluster_to_sector v.bpb cluster)) buf

  unfoldable pub write_cluster : ℕ → List ℕ → M S (Unit {0})
  write_cluster cluster buf = write_at dev (byte_offset v (cluster_to_sector v.bpb cluster)) buf
