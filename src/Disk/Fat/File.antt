-- ===== src/Disk/Fat/File.antt =====
-- Files of a FAT volume, `FatFile` of zenos-kernel/src/disk/fs/fat/mod.rs: read, write, truncate and
-- the update of the directory entry.
pub mod Copy
pub mod Chain
pub mod Turn
pub mod Reading
pub mod Handle
pub mod Ending
pub mod Loops
pub mod Calls
use zenos.Common.{
  ℕ, zero, suc, ◌+◌, ◌-◌, ◌*◌, ◌/◌, ◌%◌, min, Bool, true, false, ◌&&◌, ◌||◌, not, List, [], ◌∷◌,
  Option, none, some, if◌then◌else◌, ltb, leb, ◌==◌, length, drop, repeat, is_empty,
}
use zenos.Disk.Device.{
  BlockDevice, Outcome, done, M, pure, spin, ◌>>=◌, ◌>>◌, read_at, write_at, w32, w64,
}
use zenos.Disk.Gpt.{take}
use zenos.Disk.Fat.{FatDirEntry, serialize, first_cluster, set_first_cluster}
use zenos.Disk.Fat.Bpb.{FatType, fat12, fat16, fat32, Volume, fat_size, bytes_per_cluster}
use zenos.Disk.Fat.Table.{
  is_eoc, read_entry, write_entry, allocate_cluster, read_cluster, write_cluster,
}

pub record FatFile : Type 0 where
  pub entry : FatDirEntry
  pub cursor : ℕ
  pub dir_cluster : ℕ
  pub entry_index : ℕ
  pub in_root : Bool

-- `dst[o..o + src.len()].copy_from_slice(src)`.
abbrev pub copy_into : List ℕ → ℕ → List ℕ → List ℕ
copy_into [] o src = []
copy_into (b ∷ dst) zero [] = b ∷ dst
copy_into (b ∷ dst) zero (x ∷ src) = x ∷ copy_into dst zero src
copy_into (b ∷ dst) (suc o) src = b ∷ copy_into dst o src

abbrev pub slice : List ℕ → ℕ → ℕ → List ℕ
slice xs o n = take n (drop o xs)

-- The device with the file whose handle is used.
pub record Held (S : Type 0) : Type 0 where
  pub device : S
  pub file : FatFile

abbrev pub is_fat32 : FatType → Bool
is_fat32 fat32 = true
is_fat32 _ = false

-- Where the fixed root directory of FAT12 and FAT16 begins.
abbrev pub root_dir_offset : Volume → ℕ
root_dir_offset v =
    w32 (v.bpb.reserved_sector_count + w32 (v.bpb.num_fats * fat_size v.bpb))
    * v.bpb.bytes_per_sector

-- What the loop of a read carries.
pub record ReadState : Type 0 where
  pub bytes_read : ℕ
  pub cluster : ℕ
  pub offset_in_cluster : ℕ
  pub cluster_buf : List ℕ
  pub buf : List ℕ

-- What the loop of a write carries.
pub record WriteState : Type 0 where
  pub bytes_written : ℕ
  pub at_cluster : ℕ
  pub offset_there : ℕ
  pub cluster_data : List ℕ

abbrev pub cluster_size : Volume → ℕ
cluster_size v = bytes_per_cluster v.bpb

abbrev pub entries_per_cluster : Volume → ℕ
entries_per_cluster v = cluster_size v / 32

abbrev pub to_copy : Volume → ℕ → ℕ → ReadState → ℕ
to_copy v cursor file_size r =
    min (min (cluster_size v - r.offset_in_cluster) (file_size - cursor - r.bytes_read))
      (length r.buf - r.bytes_read)

-- The bytes of a cluster that was read are copied to the caller.
abbrev pub copied : Volume → ℕ → ℕ → List ℕ → ReadState → ReadState
copied v cursor file_size cluster_bytes r = record r {
  bytes_read = r.bytes_read + to_copy v cursor file_size r;
  offset_in_cluster = 0;
  cluster_buf = cluster_bytes;
  buf =
      copy_into r.buf r.bytes_read
        (slice cluster_bytes r.offset_in_cluster (to_copy v cursor file_size r));
}

abbrev pub more_to_read : ℕ → ℕ → ReadState → Bool
more_to_read cursor file_size r =
    ltb r.bytes_read (length r.buf) && ltb (cursor + r.bytes_read) file_size

abbrev pub set_cursor : ℕ → FatFile → FatFile
set_cursor cursor f = record f { cursor = cursor }

abbrev pub set_size : ℕ → FatFile → FatFile
set_size size f = record f { entry = record f.entry { file_size = w32 size } }

module _ {S : Type 0} where
  -- A program over the device alone, and a change of the file's handle.
  abbrev pub keeping : {A : Type 0} → FatFile → S × Outcome A → Held S × Outcome A
  keeping f (s, o) = (record { device = s; file = f }, o)

  abbrev pub on_device : {A : Type 0} → M S A → M (Held S) A
  on_device m h = keeping h.file (m h.device)

  abbrev pub update : (FatFile → FatFile) → M (Held S) (Unit {0})
  update f h = (record h { file = f h.file }, done tt)

  abbrev pub held_file : M (Held S) FatFile
  held_file h = (h, done h.file)

abbrev pub to_write : Volume → List ℕ → WriteState → ℕ
to_write v buf w = min (cluster_size v - w.offset_there) (length buf - w.bytes_written)

-- A cluster's bytes with those to be written in their place.
abbrev pub with_bytes : Volume → List ℕ → WriteState → List ℕ → List ℕ
with_bytes v buf w old = copy_into old w.offset_there (slice buf w.bytes_written (to_write v buf w))

module _ {S : Type 0} (dev : BlockDevice S) (v : Volume) where
  -- The cluster so many links along the chain; `none` where the chain ends before.
  unfoldable pub skip : ℕ → ℕ → M S (Option ℕ)
  skip zero cluster = pure (some cluster)
  skip (suc n) cluster = if ltb cluster 2 then pure none else (do
    next ← read_entry dev v cluster
    if is_eoc v.kind next then pure none else skip n next)

  unfoldable pub read_loop : ℕ → ℕ → ℕ → ReadState → M S ReadState
  read_loop zero cursor file_size r = spin
  read_loop (suc fuel) cursor file_size r =
      if not (more_to_read cursor file_size r) || ltb r.cluster 2 then pure r else (do
        cluster_bytes ← read_cluster dev v r.cluster r.cluster_buf
        next ← read_entry dev v r.cluster
        if is_eoc v.kind next
            then pure (copied v cursor file_size cluster_bytes r)
            else read_loop fuel cursor file_size
                (record (copied v cursor file_size cluster_bytes r) { cluster = next }))

  -- The read from the cluster that the skipping found. Each turn of the loop reads a byte or more, so
  -- that the fuel is enough.
  unfoldable pub read_from : ℕ → ℕ → List ℕ → Option ℕ → M S (ℕ × List ℕ)
  unfolding read_loop
  read_from cursor file_size buf none = pure (0, buf)
  read_from cursor file_size buf (some cluster) = do
    r ← read_loop (suc (length buf)) cursor file_size (record {
      bytes_read = 0;
      cluster = cluster;
      offset_in_cluster = cursor % cluster_size v;
      cluster_buf = repeat (cluster_size v) 0;
      buf = buf;
    })
    pure (r.bytes_read, r.buf)

  -- The file's bytes from an offset on, into the buffer: how many, and the buffer.
  unfoldable pub read_chain : ℕ → ℕ → ℕ → List ℕ → M S (ℕ × List ℕ)
  unfolding skip read_from
  read_chain cursor file_size first buf = do
    skipped ← skip (cursor / cluster_size v) first
    read_from cursor file_size buf skipped

  -- The cluster behind another, which is allocated and linked where the chain ends.
  unfoldable pub next_or_new : ℕ → M S ℕ
  next_or_new cluster = do
    next ← read_entry dev v cluster
    if is_eoc v.kind next
        then (do
          new_cluster ← allocate_cluster dev v
          write_entry dev v cluster new_cluster
          pure new_cluster)
        else pure next

  unfoldable pub skip_or_extend : ℕ → ℕ → M S ℕ
  skip_or_extend zero cluster = pure cluster
  skip_or_extend (suc n) cluster = do next ← next_or_new cluster; skip_or_extend n next

  -- The cluster's old bytes, which a write of only a part of it keeps.
  unfoldable pub old_bytes : List ℕ → WriteState → M S (List ℕ)
  old_bytes buf w =
      if not (w.offset_there == 0) || ltb (length buf - w.bytes_written) (cluster_size v)
      then read_cluster dev v w.at_cluster w.cluster_data
      else pure w.cluster_data

  unfoldable pub put_bytes : List ℕ → WriteState → List ℕ → M S WriteState
  put_bytes buf w old = do
    write_cluster dev v w.at_cluster (with_bytes v buf w old)
    pure (record w {
      bytes_written = w.bytes_written + to_write v buf w;
      offset_there = 0;
      cluster_data = with_bytes v buf w old;
    })

  -- A turn of the loop of a write, up to the write of the cluster.
  unfoldable pub write_turn : List ℕ → WriteState → M S WriteState
  unfolding old_bytes put_bytes
  write_turn buf w = do old ← old_bytes buf w; put_bytes buf w old

  unfoldable pub write_loop : ℕ → List ℕ → WriteState → M S (Unit {0})
  write_loop zero buf w = spin
  write_loop (suc fuel) buf w = do
    w' ← write_turn buf w
    if ltb w'.bytes_written (length buf)
        then (do
          next ← next_or_new w'.at_cluster
          write_loop fuel buf (record w' { at_cluster = next }))
        else pure tt

  unfoldable pub write_chain : ℕ → ℕ → List ℕ → M S (Unit {0})
  unfolding skip_or_extend write_loop
  write_chain cursor first buf = do
    cluster ← skip_or_extend (cursor / cluster_size v) first
    write_loop (suc (length buf)) buf (record {
      bytes_written = 0;
      at_cluster = cluster;
      offset_there = cursor % cluster_size v;
      cluster_data = repeat (cluster_size v) 0;
    })

  -- The cluster so many links along, without a look for the end.
  unfoldable pub navigate : ℕ → ℕ → M S ℕ
  navigate zero cluster = pure cluster
  navigate (suc n) cluster = do next ← read_entry dev v cluster; navigate n next

  -- The entry is written to its place in the directory.
  unfoldable pub sync_entry : FatFile → M S (Unit {0})
  unfolding navigate
  sync_entry f =
      if f.in_root && not (is_fat32 v.kind)
      then write_at dev (w64 (root_dir_offset v + f.entry_index * 32 + v.partition_offset))
          (serialize f.entry)
      else (do
        cluster ← navigate (f.entry_index / entries_per_cluster v) f.dir_cluster
        buf ← read_cluster dev v cluster (repeat (cluster_size v) 0)
        write_cluster dev v cluster
            (copy_into buf (f.entry_index % entries_per_cluster v * 32) (serialize f.entry)))

  unfoldable pub read : ℕ → List ℕ → M (Held S) (ℕ × List ℕ)
  unfolding read_chain
  read offset buf = do
    update (set_cursor offset)
    f ← held_file
    if leb f.entry.file_size offset then pure (0, buf) else (do
      (count, filled) ← on_device (read_chain offset f.entry.file_size (first_cluster f.entry) buf)
      update (set_cursor (offset + count))
      pure (count, filled))

  -- The first cluster of a file that has none.
  unfoldable pub first_or_new : M (Held S) (Unit {0})
  first_or_new = do
    f ← held_file
    if ltb (first_cluster f.entry) 2
        then (do
          new_cluster ← on_device (allocate_cluster dev v)
          update (λ g. record g { entry = set_first_cluster new_cluster g.entry }))
        else pure tt

  unfoldable pub write : ℕ → List ℕ → M (Held S) ℕ
  unfolding first_or_new write_chain sync_entry
  write offset buf = do
    update (set_cursor offset)
    if is_empty buf then pure 0 else (do
      first_or_new
      f ← held_file
      on_device (write_chain offset (first_cluster f.entry) buf)
      update (set_cursor (offset + length buf))
      if ltb f.entry.file_size (offset + length buf)
          then (do
            update (set_size (offset + length buf))
            g ← held_file
            on_device (sync_entry g)
            pure (length buf))
          else pure (length buf))

  unfoldable pub truncate : ℕ → M (Held S) (Unit {0})
  unfolding read write sync_entry
  truncate size = do
    (count, buf) ← read 0 (repeat size 0)
    update (set_cursor 0)
    written ← write 0 buf
    update (set_size size)
    g ← held_file
    on_device (sync_entry g)
