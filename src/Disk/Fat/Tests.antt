-- ===== src/Disk/Fat/Tests.antt =====
-- The theorems on the FAT file system applied to a disk of 40 sectors in memory, on which a file of 600
-- bytes lies in the clusters 2 and 3.
use zenos.Common.{
  ℕ, zero, suc, ◌+◌, ◌*◌, ◌%◌, ◌<◌, ◌≤◌, ◌≡◌, ◌≢◌, refl, sym, subst, inl, inr, true, false, List,
  [], ◌∷◌, none, some, arith, if◌then◌else◌, leb, ltb, ◌==◌, length, repeat, le→leb,
}
use zenos.Disk.Device.{BlockDevice, done, out_of_fuel}
use zenos.Disk.Device.Reliable.{Disk, Does, range, patch}
use zenos.Disk.Gpt.{get_range}
use zenos.Disk.Fat.{FatDirEntry, parse, serialize}
use zenos.Disk.Fat.Bpb.{BiosParameterBlock, Volume, fat12}
use zenos.Disk.Fat.Table.{is_eoc, read_entry, write_entry, allocate_cluster, total_clusters}
use zenos.Disk.Fat.Table.Place.{Geometry, InFat}
use zenos.Disk.Fat.Table.Reading.{entry_at, read_entry-Reads}
use zenos.Disk.Fat.Table.Slots.{AllBytes}
use zenos.Disk.Fat.Table.Writing.{Written, write_entry-Writes}
use zenos.Disk.Fat.Table.Allocation.{Whole, Allocates, allocate_cluster-Allocates}
use zenos.Disk.Fat.File.{Held, read, write, truncate}
use zenos.Disk.Fat.File.Chain.{Stored, nth, cluster_start}
use zenos.Disk.Fat.File.Handle.{Returns, read-Returns}
use zenos.Disk.Fat.File.Calls.{calls_return}
use zenos.Disk.Fat.Names.{short_name, name_to_8_3}
use zenos.Disk.Fat.Names.Laws.{Visible, full_name, Fits83, short_name-name_to_8_3}
use zenos.Disk.Fat.Directory.{FatDirectory, free_chain, free_slot}
use zenos.Disk.Fat.Directory.Freeing.{Freed, free_chain-Frees}
use zenos.Disk.Fat.Directory.Slots.{Inserted, free_slot-Inserted}
use zenos.Disk.Fat.Inodes.{Mounted, inode_for, create_and_cache_inode}
use zenos.Disk.Fat.Inodes.Distinct.{no_inodes, inode_for-differs}
use zenos.Disk.Fat.Inodes.Sharing.{nothing, request, inode_for-shares}

record Ram : Type 0 where
  cells : ℕ → ℕ
  pos : ℕ

abbrev capacity : ℕ
capacity = 20480

abbrev ram_device : BlockDevice Ram
ram_device = record {
  seek = λ o r. (record r { pos = o }, true);
  read = λ buf r.
      if leb (r.pos + length buf) capacity
      then (r, some (range r.cells r.pos (length buf)))
      else (r, none);
  write = λ buf r.
      if leb (r.pos + length buf) capacity
      then (record r { cells = patch r.cells r.pos buf }, true)
      else (r, false);
}

abbrev ram_disk : Disk ram_device
ram_disk = record {
  size = capacity;
  image = λ r. r.cells;
  cursor = λ r. r.pos;
  seeks = λ o s h. (record s { pos = o }, refl, refl, refl);
  reads = λ buf s h. (s, rw (le→leb _ _ h) refl, refl);
  writes = λ buf s h. (record s { cells = patch s.cells s.pos buf }, rw (le→leb _ _ h) refl, refl);
}

abbrev bpb : BiosParameterBlock
bpb = record {
  bytes_per_sector = 512;
  sectors_per_cluster = 1;
  reserved_sector_count = 1;
  num_fats = 2;
  root_entry_count = 16;
  total_sectors_16 = 40;
  media_type = 0xF8;
  fat_size_16 = 1;
  sectors_per_track = 0;
  num_heads = 0;
  hidden_sectors = 0;
  total_sectors_32 = 0;
  fat_size_32 = 0;
  root_cluster = 0;
}

abbrev volume : Volume
volume = record { bpb = bpb; kind = fat12; partition_offset = 0 }

volume-Geometry : Geometry volume capacity
volume-Geometry = record {
  sector_size = inl refl;
  some_fat = omega arith;
  narrow = omega arith;
  fits = omega arith;
  size_fits = omega arith;
}

-- Cluster 2 leads to cluster 3, which ends the chain.
abbrev cells : ℕ → ℕ
cells i =
    if i == 515
    then 3
    else if i == 516
    then 240
    else if i == 517
    then 255
    else if ltb i 2048
    then 0
    else i % 256

abbrev ram : Ram
ram = record { cells = cells; pos = 0 }

cells-AllBytes : AllBytes cells
cells-AllBytes i = ground arith

cluster_Whole : (d : ℕ) → 2 ≤ d → d < 2 + total_clusters volume → Whole volume d
cluster_Whole d lo hi = ((omega arith, omega arith), omega arith)

read_entry-Reads_example :
    Does ram_disk (read_entry ram_device volume 2) ram (entry_at volume cells 2) cells
read_entry-Reads_example =
    read_entry-Reads ram_disk volume volume-Geometry 2 ram
      (cluster_Whole 2 (omega arith) (omega arith)).0

write_entry-Writes_example :
    (img' : ℕ → ℕ) × Does ram_disk (write_entry ram_device volume 3 4) ram tt img'
    × Written ram_disk volume volume-Geometry 3 4 cells img'
write_entry-Writes_example =
    write_entry-Writes ram_disk volume volume-Geometry 3 4 ram
      (cluster_Whole 3 (omega arith) (omega arith)).0
      (cluster_Whole 3 (omega arith) (omega arith)).1 cells-AllBytes

allocate_cluster-Allocates_example :
    Allocates ram_disk volume volume-Geometry
      (allocate_cluster ram_device volume)
      ram
      2
      (2 + total_clusters volume)
allocate_cluster-Allocates_example =
    allocate_cluster-Allocates ram_disk volume volume-Geometry ram cluster_Whole cells-AllBytes

abbrev entry : FatDirEntry
entry = record {
  name = 65 ∷ 32 ∷ 32 ∷ 32 ∷ 32 ∷ 32 ∷ 32 ∷ 32 ∷ 84 ∷ 88 ∷ 32 ∷ [];
  attr = 0x20;
  nt_reserved = 0;
  create_time_tenth = 0;
  create_time = 0;
  create_date = 0;
  last_access_date = 0;
  first_cluster_high = 0;
  write_time = 0;
  write_date = 0;
  first_cluster_low = 2;
  file_size = 600;
}

abbrev held : Held Ram
held = record {
  device = ram;
  file = record { entry = entry; cursor = 0; dir_cluster = 0; entry_index = 0; in_root = true };
}

-- A data cluster that is on the disk.
abbrev OnDisk : ℕ → Type 0
OnDisk c = (2 ≤ c) × InFat volume c × (cluster_start volume c + 512 ≤ capacity)

second_cluster : nth volume cells 1 2 ≡ 3
second_cluster = refl

on_disk : (k : ℕ) → k * 512 < 600 → OnDisk (nth volume cells k 2)
on_disk zero h = (omega arith, (omega arith, omega arith), omega arith)
on_disk (suc zero) h =
    subst OnDisk (sym second_cluster) (omega arith, (omega arith, omega arith), omega arith)
on_disk (suc (suc k)) h = absurd (omega arith)

goes_on : (k : ℕ) → (k + 1) * 512 < 600 → is_eoc fat12 (nth volume cells (k + 1) 2) ≡ false
goes_on zero h = refl
goes_on (suc k) h = absurd (omega arith)

entry-Stored : Stored volume capacity cells 2 600
entry-Stored = record { some_bytes = omega arith; on_disk = on_disk; goes_on = goes_on }

-- Across the border of the two clusters, into a buffer that is larger than what is left.
read-Returns_example :
    (h' : Held Ram) × (count : ℕ) × (filled : List ℕ) × (read ram_device volume 500
        (repeat 200 7)
        held
      ≡ (h', done (count, filled)))
    × Returns ram_disk volume volume-Geometry 500 (repeat 200 7) held h' count filled
read-Returns_example =
    read-Returns ram_disk volume volume-Geometry 500 (repeat 200 7) held entry-Stored

calls_return_example :
    ((read ram_device volume 3 (1 ∷ []) held).1 ≢ out_of_fuel)
    × ((write ram_device volume 3 (1 ∷ []) held).1 ≢ out_of_fuel)
    × ((truncate ram_device volume 5 held).1 ≢ out_of_fuel)
calls_return_example = calls_return ram_device volume (omega arith) held 3 5 (1 ∷ [])

free_chain-Frees_example :
    (s' : Ram) × (free_chain ram_device volume 2 2 ram ≡ (s', done tt))
    × Freed volume (2 ∷ 3 ∷ []) cells s'.cells
free_chain-Frees_example =
    free_chain-Frees ram_disk volume volume-Geometry 2 2 (3 ∷ []) ram (refl, refl, refl)
      ((λ e. omega (arith, e), tt), (tt, tt))
      (
        cluster_Whole 2 (omega arith) (omega arith),
        (cluster_Whole 3 (omega arith) (omega arith), tt),
      )
      cells-AllBytes (omega arith)

not_white : (c : ℕ) → 64 < c → c < 91 → Visible c
not_white c l h =
    (inr (omega arith), (λ e. omega (arith, e)), (λ e. omega (arith, e)), (λ e. omega (arith, e)))

name-Fits83 : Fits83 (65 ∷ []) (84 ∷ 88 ∷ [])
name-Fits83 = record {
  base_short = omega arith;
  ext_short = omega arith;
  base_bytes = omega arith;
  ext_bytes = omega arith;
  base_no_dot = (λ e. omega (arith, e), tt);
  ext_no_dot = (λ e. omega (arith, e), (λ e. omega (arith, e), tt));
  base_end = not_white 65 (omega arith) (omega arith);
  ext_end = not_white 88 (omega arith) (omega arith);
}

stored_name : entry.name ≡ name_to_8_3 (λ x. x) (full_name (65 ∷ []) (84 ∷ 88 ∷ []))
unfolding name_to_8_3
stored_name = refl

-- "A.TX".
short_name-name_to_8_3_example : short_name entry ≡ full_name (65 ∷ []) (84 ∷ 88 ∷ [])
short_name-name_to_8_3_example =
    short_name-name_to_8_3 (65 ∷ []) (84 ∷ 88 ∷ []) name-Fits83 (λ x. x) entry refl stored_name

-- A directory with a file, a deleted entry and the end.
abbrev slots : List (List ℕ)
slots = serialize entry ∷ (0xE5 ∷ []) ∷ (0 ∷ []) ∷ []

entry_parsed : parse (serialize entry) ≡ some entry
unfolding parse get_range
entry_parsed = refl

first_free : free_slot slots ≡ some 1
unfolding free_slot
first_free = refl

free_slot-Inserted_example : Inserted 0 1 entry slots (serialize entry)
free_slot-Inserted_example =
    free_slot-Inserted entry (serialize entry) entry_parsed refl (λ e. omega (arith, e)) 0 1 slots
      first_free

abbrev root : FatDirectory
root = record { cluster = 0; is_root = true }

abbrev empty_volume : Mounted Ram
empty_volume = record { device = ram; inodes = []; ino_cache = [] }

abbrev one_inode : Mounted Ram
one_inode = (create_and_cache_inode 7 root entry 5 empty_volume).0

first_request : inode_for (λ i. true) 7 root entry 5 empty_volume ≡ (one_inode, done 0)
unfolding inode_for create_and_cache_inode
first_request = refl

abbrev two_inodes : Mounted Ram
two_inodes = (create_and_cache_inode 8 root entry 6 one_inode).0

second_request : inode_for (λ i. true) 8 root entry 6 one_inode ≡ (two_inodes, done 1)
unfolding inode_for create_and_cache_inode
second_request = refl

-- Between two requests for slot 5 one for slot 6.
inode_for-shares_example :
    inode_for (λ i. true) 9 root entry 5 (inode_for (λ i. true) 8 root entry 6 one_inode).0
    ≡ ((inode_for (λ i. true) 8 root entry 6 one_inode).0, done 0)
inode_for-shares_example =
    inode_for-shares (λ i. true) (λ i. true) 7 9 root entry entry 5 0 empty_volume one_inode _
      first_request (request (λ i. true) 8 root entry 6 refl nothing) refl

inode_for-differs_example : ◌≢◌ {A = ℕ} 0 1
inode_for-differs_example =
    inode_for-differs (λ i. true) (λ i. true) 7 8 root root entry entry 5 6 0 1 empty_volume
      one_inode two_inodes (no_inodes ram) (inr (inl (λ e. omega (arith, e)))) first_request
      second_request
