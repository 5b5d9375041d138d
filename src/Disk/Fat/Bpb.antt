-- ===== src/Disk/Fat/Bpb.antt =====
-- The boot sector of a FAT volume, `BiosParameterBlock` of
-- zenos-kernel/src/disk/fs/fat/plumbing.rs, and the mount in zenos-kernel/src/disk/fs/fat/mod.rs.
pub mod Layout
use zenos.Common.{
  ℕ, ◌+◌, ◌-◌, ◌*◌, ◌/◌, Bool, true, false, ◌||◌, not, List, [], ◌∷◌, Option, none, some,
  if◌then◌else◌, ltb, leb, ◌==◌, length, get_or, repeat,
}
use zenos.Disk.Device.{BlockDevice, Outcome, done, failed, out_of_fuel, w32, read_at}

pub data FatType : Type 0 where
  fat12 fat16 fat32 : FatType

-- The constructors that the mount of a FAT volume gives.
pub data FsMountError : Type 0 where
  invalid_superblock corrupted mount_read_error : FsMountError

pub data MountResult (A : Type 0) : Type 0 where
  mounted : A → MountResult A
  refused : FsMountError → MountResult A

pub record BiosParameterBlock : Type 0 where
  pub bytes_per_sector : ℕ
  pub sectors_per_cluster : ℕ
  pub reserved_sector_count : ℕ
  pub num_fats : ℕ
  pub root_entry_count : ℕ
  pub total_sectors_16 : ℕ
  pub media_type : ℕ
  pub fat_size_16 : ℕ
  pub sectors_per_track : ℕ
  pub num_heads : ℕ
  pub hidden_sectors : ℕ
  pub total_sectors_32 : ℕ
  pub fat_size_32 : ℕ
  pub root_cluster : ℕ

-- `from_le_bytes` of two and of four bytes, within the length that the caller has checked.
abbrev pub le16 : List ℕ → ℕ → ℕ
le16 bytes i = get_or bytes i 0 + 256 * get_or bytes (i + 1) 0

abbrev pub le32 : List ℕ → ℕ → ℕ
le32 bytes i = le16 bytes i + 65536 * le16 bytes (i + 2)

unfoldable pub parse : List ℕ → Option BiosParameterBlock
parse boot_sector =
    if ltb (length boot_sector) 512
    then none
    else some (record {
      bytes_per_sector = le16 boot_sector 11;
      sectors_per_cluster = get_or boot_sector 13 0;
      reserved_sector_count = le16 boot_sector 14;
      num_fats = get_or boot_sector 16 0;
      root_entry_count = le16 boot_sector 17;
      total_sectors_16 = le16 boot_sector 19;
      media_type = get_or boot_sector 21 0;
      fat_size_16 = le16 boot_sector 22;
      sectors_per_track = le16 boot_sector 24;
      num_heads = le16 boot_sector 26;
      hidden_sectors = le32 boot_sector 28;
      total_sectors_32 = le32 boot_sector 32;
      fat_size_32 = le32 boot_sector 36;
      root_cluster = le32 boot_sector 44;
    })

abbrev pub fat_size : BiosParameterBlock → ℕ
fat_size b = if b.fat_size_16 == 0 then b.fat_size_32 else b.fat_size_16

abbrev pub total_sectors : BiosParameterBlock → ℕ
total_sectors b = if b.total_sectors_16 == 0 then b.total_sectors_32 else b.total_sectors_16

abbrev pub root_dir_sectors : BiosParameterBlock → ℕ
root_dir_sectors b = (b.root_entry_count * 32 + (b.bytes_per_sector - 1)) / b.bytes_per_sector

-- The products and sums of a `u32`, which wrap around.
abbrev pub first_data_sector : BiosParameterBlock → ℕ
first_data_sector b =
    w32 (b.reserved_sector_count + w32 (b.num_fats * fat_size b) + root_dir_sectors b)

abbrev pub first_fat_sector : BiosParameterBlock → ℕ
first_fat_sector b = b.reserved_sector_count

abbrev pub cluster_to_sector : BiosParameterBlock → ℕ → ℕ
cluster_to_sector b cluster =
    w32 (w32 (w32 (cluster + 4294967294) * b.sectors_per_cluster) + first_data_sector b)

abbrev pub bytes_per_cluster : BiosParameterBlock → ℕ
bytes_per_cluster b = b.bytes_per_sector * b.sectors_per_cluster

-- `total_sectors - first_data_sector` of `u32`.
abbrev pub data_sectors : BiosParameterBlock → ℕ
data_sectors b = w32 (total_sectors b + 4294967296 - first_data_sector b)

unfoldable pub fat_type : BiosParameterBlock → FatType
fat_type b =
    if ltb (data_sectors b / b.sectors_per_cluster) 4085
    then fat12
    else if ltb (data_sectors b / b.sectors_per_cluster) 65525
    then fat16
    else fat32

abbrev pub sector_size_ok : ℕ → Bool
sector_size_ok n = n == 512 || n == 1024 || n == 2048 || n == 4096

-- `is_power_of_two`, up to 128.
abbrev pub is_power_of_two : ℕ → Bool
is_power_of_two n =
    n == 1 || n == 2 || n == 4 || n == 8 || n == 16 || n == 32 || n == 64 || n == 128

-- The checks that depend on the type.
abbrev pub bad_for_type : BiosParameterBlock → FatType → Bool
bad_for_type b fat12 = b.root_entry_count == 0
bad_for_type b fat16 = b.root_entry_count == 0
bad_for_type b fat32 = not (b.root_entry_count == 0) || ltb b.root_cluster 2 || b.fat_size_32 == 0

abbrev pub refuse_if : {A : Type 0} → Bool → FsMountError → MountResult A → MountResult A
refuse_if true e rest = refused e
refuse_if false e rest = rest

unfoldable pub validate : BiosParameterBlock → MountResult (Unit {0})
validate b = refuse_if (not (sector_size_ok b.bytes_per_sector)) invalid_superblock (
    refuse_if
      (b.sectors_per_cluster == 0
        || ltb 128 b.sectors_per_cluster
        || not (is_power_of_two b.sectors_per_cluster))
      invalid_superblock
      (refuse_if (b.reserved_sector_count == 0) invalid_superblock (
        refuse_if (b.num_fats == 0) invalid_superblock (
          refuse_if (total_sectors b == 0) invalid_superblock (
            refuse_if (fat_size b == 0) invalid_superblock (
              refuse_if (bad_for_type b (fat_type b)) corrupted (
                refuse_if (leb (total_sectors b) (first_data_sector b)) corrupted
                  (mounted tt))))))))

-- `FatFileSystemInner` but for the device and the cache of inodes.
pub record Volume : Type 0 where
  pub bpb : BiosParameterBlock
  pub kind : FatType
  pub partition_offset : ℕ

abbrev pub accept : BiosParameterBlock → ℕ → MountResult (Unit {0}) → MountResult Volume
accept b partition_offset (refused e) = refused e
accept b partition_offset (mounted u) =
    mounted (record { bpb = b; kind = fat_type b; partition_offset = partition_offset })

abbrev pub mount_bytes : ℕ → Outcome (List ℕ) → MountResult Volume
mount_bytes partition_offset (done boot_sector) = elim (parse boot_sector) [
  | none ↦ refused mount_read_error
  | some b ↦ accept b partition_offset (validate b)
]
mount_bytes partition_offset (failed e) = refused mount_read_error
mount_bytes partition_offset out_of_fuel = refused mount_read_error

-- The boot sector is read, parsed and checked.
unfoldable pub mount : {S : Type 0} → BlockDevice S → ℕ → S → S × MountResult Volume
unfolding read_at
mount dev partition_offset s =
    let (s', o) = read_at dev partition_offset (repeat 512 0) s in
    (s', mount_bytes partition_offset o)
