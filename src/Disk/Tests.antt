-- ===== src/Disk/Tests.antt =====
-- The theorem on partition tables applied to a small header, and the one on directory entries of FAT
-- to a file of a few bytes.
use zenos.Common.{ℕ, ◌≡◌, refl, List, [], ◌∷◌, some, arith}
use zenos.Disk.Gpt.{GptHeader, efi_part, crc32, crc_loop, deserialize_header}
use zenos.Disk.Fat.{FatDirEntry, parse, serialize, first_cluster, set_first_cluster}
use zenos.Disk.Fat.Laws.{Fits, parse-serialize}
use zenos.Disk.Gpt.Bytes.{concat}
use zenos.Disk.Gpt.Laws.{header_fields, HeaderFits, deserialize_header-fields}

abbrev guid : List ℕ
guid = 1 ∷ 2 ∷ 3 ∷ 4 ∷ 5 ∷ 6 ∷ 7 ∷ 8 ∷ 9 ∷ 10 ∷ 11 ∷ 12 ∷ 13 ∷ 14 ∷ 15 ∷ 16 ∷ []

abbrev header : GptHeader
header = record {
  signature = efi_part;
  rev = 0x10000;
  header_size = 92;
  crc = 720248727;
  reserved = 0;
  current_lba = 1;
  backup_lba = 99;
  first_usable_lba = 34;
  last_usable_lba = 66;
  disk_guid = guid;
  partition_entry_lba = 2;
  num_partition_entries = 4;
  size_of_partition_entry = 128;
  partition_entry_array_crc32 = 7;
}

header-Fits : HeaderFits header (0 ∷ 0 ∷ [])
unfolding crc32 crc_loop
header-Fits = record {
  signature_is = refl;
  rev_fits = omega arith;
  size_fits = omega arith;
  crc_fits = omega arith;
  reserved_fits = omega arith;
  current_fits = omega arith;
  backup_fits = omega arith;
  first_fits = omega arith;
  last_fits = omega arith;
  guid_length = refl;
  entries_fit = omega arith;
  count_fits = omega arith;
  entry_fits = omega arith;
  array_fits = omega arith;
  size_low = omega arith;
  size_high = omega arith;
  sum_right = refl;
}

deserialize_header-fields_example :
    deserialize_header (concat (header_fields header (0 ∷ 0 ∷ []))) ≡ some header
deserialize_header-fields_example = deserialize_header-fields header (0 ∷ 0 ∷ []) header-Fits

-- "A", an archive.
abbrev file_entry : FatDirEntry
file_entry = record {
  name = 65 ∷ 32 ∷ 32 ∷ 32 ∷ 32 ∷ 32 ∷ 32 ∷ 32 ∷ 32 ∷ 32 ∷ 32 ∷ [];
  attr = 0x20;
  nt_reserved = 0;
  create_time_tenth = 3;
  create_time = 0x6000;
  create_date = 0x5821;
  last_access_date = 0x5822;
  first_cluster_high = 0;
  write_time = 0x6100;
  write_date = 0x5822;
  first_cluster_low = 0;
  file_size = 12;
}

file_entry-Fits : Fits file_entry
file_entry-Fits = record {
  name_length = refl;
  not_end = λ e. omega (arith, e);
  not_deleted = λ e. omega (arith, e);
  attr_fits = omega arith;
  reserved_fits = omega arith;
  tenth_fits = omega arith;
  create_time_fits = omega arith;
  create_date_fits = omega arith;
  access_fits = omega arith;
  high_fits = omega arith;
  write_time_fits = omega arith;
  write_date_fits = omega arith;
  low_fits = omega arith;
  size_fits = omega arith;
}

-- A cluster of more than 16 bits.
parse-serialize_example :
    (parse (serialize (set_first_cluster 70000 file_entry))
      ≡ some (set_first_cluster 70000 file_entry))
    × (first_cluster (set_first_cluster 70000 file_entry) ≡ 70000)
parse-serialize_example = parse-serialize 70000 file_entry file_entry-Fits (omega arith)
