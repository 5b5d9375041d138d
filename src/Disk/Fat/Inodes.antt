-- ===== src/Disk/Fat/Inodes.antt =====
-- The inodes of a FAT volume and their cache, the `InodeOps` of `FatDirectory` in
-- zenos-kernel/src/disk/fs/fat/mod.rs.
pub mod Sharing
pub mod Distinct
use zenos.Common.{
  ℕ, zero, suc, ◌+◌, ◌-◌, ◌*◌, Bool, true, false, ◌&&◌, not, List, [], ◌∷◌, ◌++◌, Option, none,
  some, if◌then◌else◌, ◌==◌, length, bit_and,
}
use zenos.Vfs.Error.{not_found}
use zenos.Disk.Device.{BlockDevice, Outcome, done, failed, out_of_fuel, M, pure, fail, ◌>>=◌, ◌>>◌}
use zenos.Disk.Fat.{FatDirEntry, first_cluster, is_directory}
use zenos.Disk.Fat.Bpb.{Volume}
use zenos.Disk.Fat.File.{FatFile}
use zenos.Disk.Fat.Directory.{FatDirectory, read_entries, find_entry, create_entry, unlink_entry}
use zenos.Disk.Fat.Names.{short_name}

pub record InodeKey : Type 0 where
  pub dir_cluster : ℕ
  pub entry_index : ℕ
  pub in_root : Bool

abbrev pub bool_eq : Bool → Bool → Bool
bool_eq true b = b
bool_eq false b = not b

abbrev pub key_eq : InodeKey → InodeKey → Bool
key_eq a b =
    a.dir_cluster == b.dir_cluster && a.entry_index == b.entry_index && bool_eq a.in_root b.in_root

pub data InodeOps : Type 0 where
  directory : FatDirectory → InodeOps
  regular : FatFile → InodeOps

pub record Inode : Type 0 where
  pub num : ℕ
  pub size : ℕ
  pub perms : ℕ
  pub change_time : ℕ
  pub ops : InodeOps

-- A volume that is mounted: the device, the inodes made so far, in the order in which they were made,
-- and the cache, which leads from the place of an entry to the number of its inode.
pub record Mounted (S : Type 0) : Type 0 where
  pub device : S
  pub inodes : List Inode
  pub ino_cache : List (InodeKey × ℕ)

abbrev pub get : InodeKey → List (InodeKey × ℕ) → Option ℕ
get k [] = none
get k ((j, i) ∷ m) = if key_eq j k then some i else get k m

abbrev pub remove : InodeKey → List (InodeKey × ℕ) → List (InodeKey × ℕ)
remove k [] = []
remove k ((j, i) ∷ m) = if key_eq j k then remove k m else (j, i) ∷ remove k m

abbrev pub attr_read_only : ℕ
attr_read_only = 0x01

-- `Permissions::all()`, and that without the three bits for writing.
abbrev pub perms_of : FatDirEntry → ℕ
perms_of e = if bit_and e.attr attr_read_only == 0 then 0o7777 else 0o7555

abbrev pub ops_of : FatDirectory → FatDirEntry → ℕ → InodeOps
ops_of d e idx =
    if is_directory e
    then directory (record { cluster = first_cluster e; is_root = false })
    else regular (record {
      entry = e;
      cursor = 0;
      dir_cluster = d.cluster;
      entry_index = idx;
      in_root = d.is_root;
    })

-- A directory's entry as `read_dir` gives it, with the number of its inode.
pub record DirEntry : Type 0 where
  pub name : List ℕ
  pub inode : ℕ
  pub offset : ℕ
  pub is_dir : Bool

abbrev pub key_of : FatDirectory → ℕ → InodeKey
key_of d idx = record { dir_cluster = d.cluster; entry_index = idx; in_root = d.is_root }

module _ {S : Type 0} where
  abbrev pub with_device : {A : Type 0} → Mounted S → S × Outcome A → Mounted S × Outcome A
  with_device m (s, o) = (record m { device = s }, o)

  abbrev pub on_volume : {A : Type 0} → M S A → M (Mounted S) A
  on_volume p m = with_device m (p m.device)

  -- `now` is the time of the call.
  unfoldable pub create_and_cache_inode : ℕ → FatDirectory → FatDirEntry → ℕ → M (Mounted S) ℕ
  create_and_cache_inode now d e idx m = (
    record m {
      inodes =
          m.inodes
          ++ (record {
            num = d.cluster * 4294967296 + idx;
            size = e.file_size;
            perms = perms_of e;
            change_time = now;
            ops = ops_of d e idx;
          }
              ∷ []);
      ino_cache = (key_of d idx, length m.inodes) ∷ remove (key_of d idx) m.ino_cache;
    },
    done (length m.inodes),
  )

  abbrev pub forget : InodeKey → M (Mounted S) (Unit {0})
  forget k m = (record m { ino_cache = remove k m.ino_cache }, done tt)

  -- `alive` says which inodes someone still holds, so that their `Weak` can be upgraded.
  module _ (alive : ℕ → Bool) (now : ℕ) where
    abbrev pub cached_or_new : FatDirectory → FatDirEntry → ℕ → Option ℕ → M (Mounted S) ℕ
    cached_or_new d e idx none = create_and_cache_inode now d e idx
    cached_or_new d e idx (some i) =
        if alive i then pure i else forget (key_of d idx) >> create_and_cache_inode now d e idx

    unfoldable pub inode_for : FatDirectory → FatDirEntry → ℕ → M (Mounted S) ℕ
    unfolding create_and_cache_inode
    inode_for d e idx m = cached_or_new d e idx (get (key_of d idx) m.ino_cache) m

    unfoldable pub inodes_for :
        FatDirectory → List (FatDirEntry × ℕ) → M (Mounted S) (List DirEntry)
    unfolding inode_for
    inodes_for d [] = pure []
    inodes_for d ((e, idx) ∷ rest) = do
      i ← inode_for d e idx
      found ← inodes_for d rest
      pure
          (record { name = short_name e; inode = i; offset = idx; is_dir = is_directory e } ∷ found)

    module _ (dev : BlockDevice S) (v : Volume) (to_uppercase : List ℕ → List ℕ) (fuel : ℕ) where
      unfoldable pub lookup : FatDirectory → List ℕ → M (Mounted S) ℕ
      unfolding find_entry inode_for
      lookup d name = do
        found ← on_volume (find_entry dev v to_uppercase fuel d name)
        elim found [ none ↦ fail not_found | some (e, idx) ↦ inode_for d e idx ]

      unfoldable pub create : FatDirectory → List ℕ → Bool → M (Mounted S) ℕ
      unfolding create_entry lookup
      create d name is_dir = do
        e ← on_volume (create_entry dev v to_uppercase fuel d name is_dir)
        lookup d name

      unfoldable pub read_dir : FatDirectory → M (Mounted S) (List DirEntry)
      unfolding read_entries inodes_for
      read_dir d = do entries ← on_volume (read_entries dev v fuel d); inodes_for d entries

      unfoldable pub unlink : FatDirectory → List ℕ → M (Mounted S) (Unit {0})
      unfolding unlink_entry
      unlink d name = do
        idx ← on_volume (unlink_entry dev v to_uppercase fuel d name)
        forget (key_of d idx)
