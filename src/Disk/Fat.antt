-- ===== src/Disk/Fat.antt =====
-- The directory entries of a FAT file system, zenos-kernel/src/disk/fs/fat/plumbing.rs: 32 bytes each.
-- The reads of little-endian numbers are those of the partition table.
pub mod Laws
pub mod Bpb
pub mod Table
pub mod File
pub mod Names
pub mod Directory
pub mod Inodes
pub mod Stat
mod Tests
use zenos.Common.{
  ℕ, ◌+◌, ◌*◌, ◌/◌, ◌%◌, Bool, ◌||◌, not, List, [], ◌∷◌, Option, none, some, if◌then◌else◌, ltb,
  ◌==◌, length, get_or, bit_and,
}
use zenos.Disk.Gpt.{get_range, read_le, ◌>>=◌}
use zenos.Disk.Gpt.Bytes.{concat, to_le}

pub record FatDirEntry : Type 0 where
  pub name : List ℕ
  pub attr : ℕ
  pub nt_reserved : ℕ
  pub create_time_tenth : ℕ
  pub create_time : ℕ
  pub create_date : ℕ
  pub last_access_date : ℕ
  pub first_cluster_high : ℕ
  pub write_time : ℕ
  pub write_date : ℕ
  pub first_cluster_low : ℕ
  pub file_size : ℕ

-- The end of a directory, and an entry that was deleted.
abbrev pub end_mark : ℕ
end_mark = 0x00

abbrev pub deleted_mark : ℕ
deleted_mark = 0xE5

unfoldable pub parse : List ℕ → Option FatDirEntry
parse bytes =
    if ltb (length bytes) 32 || get_or bytes 0 0 == end_mark || get_or bytes 0 0 == deleted_mark
    then none
    else (do
      name ← get_range bytes 0 11
      attr ← read_le bytes 11 1
      nt_reserved ← read_le bytes 12 1
      create_time_tenth ← read_le bytes 13 1
      create_time ← read_le bytes 14 2
      create_date ← read_le bytes 16 2
      last_access_date ← read_le bytes 18 2
      first_cluster_high ← read_le bytes 20 2
      write_time ← read_le bytes 22 2
      write_date ← read_le bytes 24 2
      first_cluster_low ← read_le bytes 26 2
      file_size ← read_le bytes 28 4
      some (record {
        name = name;
        attr = attr;
        nt_reserved = nt_reserved;
        create_time_tenth = create_time_tenth;
        create_time = create_time;
        create_date = create_date;
        last_access_date = last_access_date;
        first_cluster_high = first_cluster_high;
        write_time = write_time;
        write_date = write_date;
        first_cluster_low = first_cluster_low;
        file_size = file_size;
      }))

-- The fields in the order of their places, which follow each other.
abbrev pub fields : FatDirEntry → List (List ℕ)
fields e =
    e.name
    ∷ to_le 1 e.attr
    ∷ to_le 1 e.nt_reserved
    ∷ to_le 1 e.create_time_tenth
    ∷ to_le 2 e.create_time
    ∷ to_le 2 e.create_date
    ∷ to_le 2 e.last_access_date
    ∷ to_le 2 e.first_cluster_high
    ∷ to_le 2 e.write_time
    ∷ to_le 2 e.write_date
    ∷ to_le 2 e.first_cluster_low
    ∷ to_le 4 e.file_size
    ∷ []

abbrev pub serialize : FatDirEntry → List ℕ
serialize e = concat (fields e)

-- `(high << 16) | low`, with a `low` of 16 bits.
abbrev pub first_cluster : FatDirEntry → ℕ
first_cluster e = e.first_cluster_high * 65536 + e.first_cluster_low % 65536

abbrev pub set_first_cluster : ℕ → FatDirEntry → FatDirEntry
set_first_cluster cluster e = record e {
  first_cluster_low = cluster % 65536;
  first_cluster_high = cluster / 65536 % 65536;
}

abbrev pub is_directory : FatDirEntry → Bool
is_directory e = not (bit_and e.attr 0x10 == 0)

abbrev pub is_volume_id : FatDirEntry → Bool
is_volume_id e = not (bit_and e.attr 0x08 == 0)

abbrev pub is_long_name : FatDirEntry → Bool
is_long_name e = bit_and e.attr 0x0F == 0x0F
