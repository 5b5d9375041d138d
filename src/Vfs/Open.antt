-- ===== src/Vfs/Open.antt =====
-- `open_file` and `create_file` of zenos-kernel/src/disk/vfs.rs: the walk from a mount's root to the
-- file that a path names, through the `InodeOps` of whatever file system is mounted there.
pub mod Walk
pub mod Create
use zenos.Common.{
  ℕ, ◌+◌, Bool, true, false, List, [], ◌∷◌, Option, none, some, if◌then◌else◌, ◌==◌, bit_and,
  bit_or, drop, length, is_empty,
}
use zenos.Vfs.Error.{Result, ok, err, FileError, not_found, permission_denied}
use zenos.Vfs.Path.{slash, split, normalize_path}
use zenos.Vfs.Mounts.{FsMap, path_to_fs}

-- `bits.contains(flag)` of a `bitflags` type.
abbrev pub contains : ℕ → ℕ → Bool
contains bits flag = bit_and bits flag == flag

-- `Permissions`.
abbrev pub owner_read : ℕ
owner_read = 0o400

abbrev pub owner_write : ℕ
owner_write = 0o200

abbrev pub owner_exec : ℕ
owner_exec = 0o100

-- A mounted file system as `dyn FileSystem` and `dyn InodeOps` show it: an operation may change the
-- world (caches, the disk) and may fail. `Inode` is an `Arc<Mutex<Inode>>`.
pub record Backend : Type 1 where
  pub World : Type 0
  pub Fs : Type 0
  pub Inode : Type 0
  pub root_dir : Fs → World → Result Inode × World
  pub lookup : Inode → List ℕ → World → Result Inode × World
  pub create : Inode → List ℕ → ℕ → World → Result Inode × World
  pub perms : Inode → World → ℕ

-- `str::trim_start_matches('/')`.
trim_slashes : List ℕ → List ℕ
trim_slashes [] = []
trim_slashes (c ∷ cs) = let rest = trim_slashes cs in if c == slash then rest else c ∷ cs

-- `filter(|p| !p.is_empty())`.
nonempty : List (List ℕ) → List (List ℕ)
nonempty [] = []
nonempty (p ∷ ps) = let rest = nonempty ps in if is_empty p then rest else p ∷ rest

-- The `parts` of a normalized path below a mount point.
unfoldable pub parts : List ℕ → List ℕ → List (List ℕ)
unfolding trim_slashes nonempty split
parts mount_point path = nonempty (split (trim_slashes (drop (length mount_point) path)))

module _ (B : Backend) where
  open B use {World, Fs, Inode, root_dir, lookup, create, perms}

  abbrev pub M : Type 0 → Type 0
  M A = World → Result A × World

  infixl 5 ◌>>=◌
  abbrev ◌>>=◌ : {A C : Type 0} → M A → (A → M C) → M C
  ◌>>=◌ m f w = let (r, w') = m w in elim r [ ok a ↦ f a w' | err e ↦ (err e, w') ]

  abbrev pure : {A : Type 0} → A → M A
  pure a w = (ok a, w)

  abbrev throw : {A : Type 0} → FileError → M A
  throw e w = (err e, w)

  -- Fails unless the inode's permissions contain all bits of `mask`.
  require : ℕ → Inode → M Inode
  require mask i w = if contains (perms i w) mask then (ok i, w) else (err permission_denied, w)

  -- The loop over all parts but the last: each directory needs the bits of `mask`.
  pub descend : ℕ → Inode → List (List ℕ) → M Inode
  descend mask dir [] = pure dir
  descend mask dir (part ∷ ps) = do di ← lookup dir part; d ← require mask di; descend mask d ps

  -- `&parts[..parts.len() - 1]` and `parts.last()`, for `part ∷ ps`.
  abbrev pub butlast : List ℕ → List (List ℕ) → List (List ℕ)
  butlast p [] = []
  butlast p (q ∷ ps) = p ∷ butlast q ps

  abbrev pub last : List ℕ → List (List ℕ) → List ℕ
  last p [] = p
  last p (q ∷ ps) = last q ps

  open_parts : Inode → List (List ℕ) → M Inode
  unfolding descend require
  open_parts root [] = pure root
  open_parts root (p ∷ ps) = do
    dir ← descend owner_exec root (butlast p ps)
    file ← lookup dir (last p ps)
    require owner_read file

  open_below : List ℕ → Option (List ℕ × Fs) → M Inode
  unfolding open_parts parts
  open_below normalized none = throw not_found
  open_below normalized (some (mount_point, fs)) = do
    root ← root_dir fs
    open_parts root (parts mount_point normalized)

  unfoldable pub open_file : FsMap Fs → List ℕ → M Inode
  unfolding open_below path_to_fs normalize_path
  open_file m path = open_below (normalize_path path) (path_to_fs (normalize_path path) m)

  create_parts : ℕ → Inode → List (List ℕ) → M Inode
  unfolding descend require
  create_parts mode root [] = pure root
  create_parts mode root (p ∷ ps) = do
    dir ← descend (bit_or owner_exec owner_write) root (butlast p ps)
    create dir (last p ps) mode

  create_below : ℕ → List ℕ → Option (List ℕ × Fs) → M Inode
  unfolding create_parts parts
  create_below mode normalized none = throw not_found
  create_below mode normalized (some (mount_point, fs)) = do
    root ← root_dir fs
    create_parts mode root (parts mount_point normalized)

  unfoldable pub create_file : FsMap Fs → List ℕ → ℕ → M Inode
  unfolding create_below path_to_fs normalize_path
  create_file m path mode =
      create_below mode (normalize_path path) (path_to_fs (normalize_path path) m)
