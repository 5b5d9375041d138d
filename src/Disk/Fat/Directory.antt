-- ===== src/Disk/Fat/Directory.antt =====
-- Directories of a FAT volume, `FatDirectory` of zenos-kernel/src/disk/fs/fat/mod.rs: the listing of
-- entries, their creation and removal.
pub mod Freeing
pub mod Slots
use zenos.Common.{
  ℕ, zero, suc, ◌+◌, ◌-◌, ◌*◌, ◌/◌, ◌%◌, Bool, true, false, ◌&&◌, ◌||◌, not, List, [], ◌∷◌, ◌++◌,
  set, Option, none, some, if◌then◌else◌, ltb, leb, ◌==◌, length, get_or, get_elem?, drop, repeat,
  bytes_eq, bit_and,
}
use zenos.Vfs.Error.{FileError, other, not_found, is_a_directory}
use zenos.Disk.Gpt.{take}
use zenos.Disk.Device.{
  BlockDevice, Outcome, done, failed, out_of_fuel, M, pure, fail, spin, ◌>>=◌, ◌>>◌, read_at,
  write_at, w32, w64,
}
use zenos.Disk.Fat.{
  FatDirEntry, end_mark, deleted_mark, parse, serialize, first_cluster, set_first_cluster,
  is_directory, is_volume_id, is_long_name,
}
use zenos.Disk.Fat.Bpb.{Volume}
use zenos.Disk.Fat.Table.{
  is_eoc, read_entry, write_entry, allocate_cluster, read_cluster, write_cluster,
}
use zenos.Disk.Fat.File.{
  FatFile, copy_into, slice, is_fat32, root_dir_offset, cluster_size, entries_per_cluster, navigate,
}
use zenos.Disk.Fat.Names.{short_name, name_to_8_3}

pub record FatDirectory : Type 0 where
  pub cluster : ℕ
  pub is_root : Bool

-- `buf.chunks(32)`, so many of them.
abbrev pub chunks : ℕ → List ℕ → List (List ℕ)
chunks zero buf = []
chunks (suc n) buf = take 32 buf ∷ chunks n (drop 32 buf)

-- What the loops over the chunks of a directory give: the entries, and whether its end was met.
pub record Listing : Type 0 where
  pub entries : List (FatDirEntry × ℕ)
  pub ended : Bool

abbrev pub hidden : FatDirEntry → Bool
hidden e = is_long_name e || is_volume_id e

abbrev pub listed : Option FatDirEntry → ℕ → Listing → Listing
listed none i l = l
listed (some e) i l = if hidden e then l else record l { entries = (e, i) ∷ l.entries }

unfoldable pub scan : ℕ → List (List ℕ) → Listing
scan i [] = record { entries = []; ended = false }
scan i (chunk ∷ rest) =
    let more = listed (parse chunk) i (scan (i + 1) rest) in
    if get_or chunk 0 0 == end_mark then record { entries = []; ended = true } else more

abbrev pub is_free : List ℕ → Bool
is_free chunk = get_or chunk 0 0 == end_mark || get_or chunk 0 0 == deleted_mark

-- The place of the first free slot.
unfoldable pub free_slot : List (List ℕ) → Option ℕ
free_slot [] = none
free_slot (chunk ∷ rest) =
    if is_free chunk then some 0 else elim (free_slot rest) [ none ↦ none | some i ↦ some (suc i) ]

abbrev pub root_dir_size : Volume → ℕ
root_dir_size v = v.bpb.root_entry_count * 32

-- "Root directory full".
abbrev pub root_directory_full : List ℕ
root_directory_full =
    82 ∷ 111 ∷ 111 ∷ 116 ∷ 32 ∷ 100 ∷ 105 ∷ 114 ∷ 101 ∷ 99 ∷ 116 ∷ 111 ∷ 114 ∷ 121 ∷ 32 ∷ 102 ∷ 117
    ∷ 108 ∷ 108 ∷ []

abbrev pub attr_archive : ℕ
attr_archive = 0x20

abbrev pub attr_directory : ℕ
attr_directory = 0x10

-- The entry of a new file or directory.
abbrev pub new_entry : List ℕ → Bool → ℕ → FatDirEntry
new_entry name is_dir new_cluster = set_first_cluster new_cluster (record {
  name = name;
  attr = if is_dir then attr_directory else attr_archive;
  nt_reserved = 0;
  create_time_tenth = 0;
  create_time = 0;
  create_date = 0;
  last_access_date = 0;
  first_cluster_high = 0;
  write_time = 0;
  write_date = 0;
  first_cluster_low = 0;
  file_size = 0;
})

module _ {S : Type 0} (dev : BlockDevice S) (v : Volume) where
  -- The directory is the fixed root of FAT12 and FAT16.
  abbrev pub is_fixed_root : FatDirectory → Bool
  is_fixed_root d = d.is_root && not (is_fat32 v.kind)

  abbrev pub root_offset : ℕ
  root_offset = w64 (root_dir_offset v + v.partition_offset)

  unfoldable pub read_root : M S (List ℕ)
  read_root = read_at dev root_offset (repeat (root_dir_size v) 0)

  -- The entries along a chain of clusters, from an index on. A chain that runs in a circle without an
  -- end mark keeps the loop going.
  unfoldable pub list_chain : ℕ → ℕ → ℕ → List ℕ → M S (List (FatDirEntry × ℕ))
  unfolding scan
  list_chain zero cluster index buf = spin
  list_chain (suc fuel) cluster index buf = do
    bytes ← read_cluster dev v cluster buf
    let l = scan index (chunks (entries_per_cluster v) bytes)
    if l.ended then pure l.entries else (do
      next ← read_entry dev v cluster
      if is_eoc v.kind next then pure l.entries else (do
        rest ← list_chain fuel next (index + entries_per_cluster v) bytes
        pure (l.entries ++ rest)))

  unfoldable pub read_entries : ℕ → FatDirectory → M S (List (FatDirEntry × ℕ))
  unfolding scan list_chain read_root
  read_entries fuel d =
      if is_fixed_root d
      then (do buf ← read_root; pure (scan 0 (chunks v.bpb.root_entry_count buf)).entries)
      else list_chain fuel d.cluster 0 (repeat (cluster_size v) 0)

  -- The first slot of a cluster of a directory, or one in a new cluster behind the last.
  unfoldable pub place_in_chain : ℕ → List ℕ → ℕ → List ℕ → M S (Unit {0})
  unfolding free_slot
  place_in_chain zero entry_data cluster buf = spin
  place_in_chain (suc fuel) entry_data cluster buf = do
    bytes ← read_cluster dev v cluster buf
    elim (free_slot (chunks (entries_per_cluster v) bytes)) [
      | some i ↦ write_cluster dev v cluster (copy_into bytes (i * 32) entry_data)
      | none ↦ do
        next ← read_entry dev v cluster
        if is_eoc v.kind next
            then (do
              new_dir_cluster ← allocate_cluster dev v
              write_entry dev v cluster new_dir_cluster
              write_cluster dev v new_dir_cluster
                  (copy_into (repeat (cluster_size v) 0) 0 entry_data))
            else place_in_chain fuel entry_data next bytes
    ]

  unfoldable pub place_in_root : List ℕ → M S (Unit {0})
  unfolding free_slot read_root
  place_in_root entry_data = do
    buf ← read_root
    elim (free_slot (chunks v.bpb.root_entry_count buf)) [
      | some i ↦ write_at dev root_offset (copy_into buf (i * 32) entry_data)
      | none ↦ fail (other root_directory_full)
    ]

  -- A new directory has a cluster of zeros, a new file none.
  unfoldable pub cluster_for : Bool → M S ℕ
  cluster_for false = pure 0
  cluster_for true = do
    cluster ← allocate_cluster dev v
    write_cluster dev v cluster (repeat (cluster_size v) 0)
    pure cluster

  -- The chain from a cluster on is marked free.
  unfoldable pub free_chain : ℕ → ℕ → M S (Unit {0})
  free_chain zero cluster = spin
  free_chain (suc fuel) cluster = do
    next ← read_entry dev v cluster
    write_entry dev v cluster 0
    if is_eoc v.kind next then pure tt else free_chain fuel next

  -- The first byte of the entry is overwritten.
  unfoldable pub mark_deleted : FatDirectory → ℕ → M S (Unit {0})
  unfolding navigate
  mark_deleted d entry_index =
      if is_fixed_root d
      then (do
        let offset = w64 (root_dir_offset v + entry_index * 32 + v.partition_offset)
        entry_data ← read_at dev offset (repeat 32 0)
        write_at dev offset (set entry_data 0 deleted_mark))
      else (do
        cluster ← navigate dev v (entry_index / entries_per_cluster v) d.cluster
        buf ← read_cluster dev v cluster (repeat (cluster_size v) 0)
        write_cluster dev v cluster
            (set buf (entry_index % entries_per_cluster v * 32) deleted_mark))

  module _ (to_uppercase : List ℕ → List ℕ) where
    -- The first entry whose name is the same in upper case.
    unfoldable pub match_entry : List ℕ → List (FatDirEntry × ℕ) → Option (FatDirEntry × ℕ)
    match_entry target [] = none
    match_entry target ((e, i) ∷ rest) =
        if bytes_eq (to_uppercase (short_name e)) target
        then some (e, i)
        else match_entry target rest

    unfoldable pub find_entry : ℕ → FatDirectory → List ℕ → M S (Option (FatDirEntry × ℕ))
    unfolding match_entry read_entries
    find_entry fuel d name = do
      entries ← read_entries fuel d
      pure (match_entry (to_uppercase name) entries)

    unfoldable pub create_entry : ℕ → FatDirectory → List ℕ → Bool → M S FatDirEntry
    unfolding place_in_chain place_in_root cluster_for name_to_8_3
    create_entry fuel d name is_dir = do
      new_cluster ← cluster_for is_dir
      let entry = new_entry (name_to_8_3 to_uppercase name) is_dir new_cluster
      (if is_fixed_root d
          then place_in_root (serialize entry)
          else place_in_chain fuel (serialize entry) d.cluster (repeat (cluster_size v) 0))
      pure entry

    -- `unlink` up to the cache: the place of the entry that was removed.
    unfoldable pub unlink_entry : ℕ → FatDirectory → List ℕ → M S ℕ
    unfolding find_entry free_chain mark_deleted
    unlink_entry fuel d name = do
      found ← find_entry fuel d name
      elim found [
        | none ↦ fail not_found
        | some (entry, entry_index) ↦ if is_directory entry then fail is_a_directory else (do
          (if ltb (first_cluster entry) 2 then pure tt else free_chain fuel (first_cluster entry))
          mark_deleted d entry_index
          pure entry_index)
      ]
