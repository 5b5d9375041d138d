-- ===== src/Disk/Fat/Stat.antt =====
-- What `stat` says of files and directories of a FAT volume, and the root's inode: the `stat` of
-- `FatDirectory` and of `FatFile`, and `root_dir`, of zenos-kernel/src/disk/fs/fat/mod.rs.
use zenos.Common.{
  ℕ, ◌+◌, ◌*◌, ◌/◌, ◌<◌, ◌≤◌, ◌≡◌, refl, Bool, true, false, List, [], ◌∷◌, Option, if◌then◌else◌,
  ◌==◌, bit_and, bit_or, arith,
}
use zenos.Vfs.Error.{other}
use zenos.Disk.Device.{M, pure, ◌>>=◌, filled_or}
use zenos.Disk.Fat.Bpb.{Volume, FatType, fat12, fat16, fat32, bytes_per_cluster}
use zenos.Disk.Fat.File.{FatFile}
use zenos.Disk.Fat.Directory.{FatDirectory}
use zenos.Disk.Fat.Inodes.{Inode, directory, attr_read_only}

pub record Stat : Type 0 where
  pub st_dev : ℕ
  pub st_ino : ℕ
  pub st_mode : ℕ
  pub st_nlink : ℕ
  pub st_uid : ℕ
  pub st_gid : ℕ
  pub st_rdev : ℕ
  pub st_size : ℕ
  pub st_blksize : ℕ
  pub st_blocks : ℕ
  pub st_atime : ℕ
  pub st_mtime : ℕ
  pub st_ctime : ℕ

-- "Failed to get device ID".
abbrev pub no_device_id : List ℕ
no_device_id =
    70 ∷ 97 ∷ 105 ∷ 108 ∷ 101 ∷ 100 ∷ 32 ∷ 116 ∷ 111 ∷ 32 ∷ 103 ∷ 101 ∷ 116 ∷ 32 ∷ 100 ∷ 101 ∷ 118
    ∷ 105 ∷ 99 ∷ 101 ∷ 32 ∷ 73 ∷ 68 ∷ []

abbrev pub flag : Bool → ℕ
flag true = 1
flag false = 0

-- Where the root directory begins; 0 stands for the area of FAT12 and FAT16.
abbrev pub root_cluster_of : Volume → FatType → ℕ
root_cluster_of v fat12 = 0
root_cluster_of v fat16 = 0
root_cluster_of v fat32 = v.bpb.root_cluster

-- `-1i64 as u64` is the number of the root's inode.
abbrev pub root_dir : Volume → ℕ → Inode
root_dir v now = record {
  num = 18446744073709551615;
  size = 0;
  perms = 0o7777;
  change_time = now;
  ops = directory (record { cluster = root_cluster_of v v.kind; is_root = true });
}

abbrev pub directory_stat : Volume → FatDirectory → ℕ → ℕ → Stat
directory_stat v d now dev_id = record {
  st_dev = dev_id;
  st_ino = bit_or (d.cluster * 4294967296) (flag d.is_root);
  st_mode = 0o40755;
  st_nlink = 2;
  st_uid = 0;
  st_gid = 0;
  st_rdev = 0;
  st_size = 0;
  st_blksize = bytes_per_cluster v.bpb;
  st_blocks = 0;
  st_atime = now;
  st_mtime = now;
  st_ctime = now;
}

abbrev pub file_mode : ℕ → ℕ
file_mode attr = if bit_and attr attr_read_only == 0 then 0o100666 else 0o100444

abbrev pub file_stat : Volume → FatFile → ℕ → ℕ → Stat
file_stat v f now dev_id = record {
  st_dev = dev_id;
  st_ino = bit_or (f.dir_cluster * 4294967296) f.entry_index;
  st_mode = file_mode f.entry.attr;
  st_nlink = 1;
  st_uid = 0;
  st_gid = 0;
  st_rdev = 0;
  st_size = f.entry.file_size;
  st_blksize = bytes_per_cluster v.bpb;
  st_blocks = (f.entry.file_size + 511) / 512;
  st_atime = now;
  st_mtime = now;
  st_ctime = now;
}

-- `get_dev_id` is the device's; `now` is the time of the call.
module _ {S : Type 0} (get_dev_id : S → S × Option ℕ) (v : Volume) (now : ℕ) where
  abbrev pub stat_directory : FatDirectory → M S Stat
  stat_directory d = do
    dev_id ← (λ s. filled_or (other no_device_id) (get_dev_id s))
    pure (directory_stat v d now dev_id)

  abbrev pub stat_file : FatFile → M S Stat
  stat_file f = do
    dev_id ← (λ s. filled_or (other no_device_id) (get_dev_id s))
    pure (file_stat v f now dev_id)

-- The blocks of 512 bytes that are reported hold the file, and no block is in excess.
file_stat-blocks :
    (v : Volume) (f : FatFile) (now dev_id : ℕ)
    → let s = file_stat v f now dev_id in
      (s.st_size ≤ s.st_blocks * 512) × (s.st_blocks * 512 < s.st_size + 512)
file_stat-blocks v f now dev_id = (omega arith, omega arith)

-- The file in the first slot of a directory other than the root has the directory's own number.
first_slot-st_ino :
    (v : Volume) (d : FatDirectory) (f : FatFile) (now dev_id : ℕ)
    → d.is_root ≡ false
    → f.dir_cluster ≡ d.cluster
    → f.entry_index ≡ 0
    → (file_stat v f now dev_id).st_ino ≡ (directory_stat v d now dev_id).st_ino
first_slot-st_ino v d f now dev_id r c i = rw (r, c, i) refl
