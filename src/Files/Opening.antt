-- ===== src/Files/Opening.antt =====
-- `open_inner` (zenos-kernel/src/syscall/open.rs) and `access_inner` (syscall/access.rs): paths opened
-- by the virtual file system, and entered in the descriptor table of the current process.
pub mod Laws
use zenos.Common.{
  ℕ, ◌+◌, Bool, true, false, ◌&&◌, ◌||◌, not, List, [], ◌∷◌, Option, none, some, if◌then◌else◌,
  ◌==◌, bit_and, bit_or, errno,
}
use zenos.Vfs.Error.{Result, ok, err, FileError}
use zenos.Vfs.Mounts.{FsMap}
use zenos.Vfs.Open.{Backend, contains, open_file, create_file}
use zenos.Files.OpenFile.{OpenFile, write_only, read_write}
use zenos.Files.Table.{Table, add_file_handle}
use zenos.Files.Syscalls.{Kernel, esrch, einval, file_error_to_errno}

abbrev pub create_flag : ℕ
create_flag = 0o100

abbrev pub truncate_flag : ℕ
truncate_flag = 0o1000

abbrev pub eacces : ℕ
eacces = 13

abbrev pub eisdir : ℕ
eisdir = 21

-- `bits.intersects(flags)` of a `bitflags` type.
abbrev pub intersects : ℕ → ℕ → Bool
intersects bits flags = not (bit_and bits flags == 0)

-- `OWNER_READ | OWNER_WRITE | OWNER_EXEC | GROUP_READ | OTHER_READ`.
abbrev pub new_file_mode : ℕ
new_file_mode = 0o744

-- What the calls use of an inode besides its `InodeOps` in `Backend`; `number` tells inodes apart.
pub record Inodes (B : Backend) : Type 1 where
  pub number : B.Inode → ℕ
  pub is_directory : B.Inode → B.World → Bool
  pub store_size : B.Inode → ℕ → B.World → B.World
  pub truncate : B.Inode → ℕ → B.World → Result (Unit {0}) × B.World

-- A file that was found, a negated errno, or the panic of an `unwrap`.
pub data Found (I : Type 0) : Type 0 where
  found : I → Found I
  no_file : ℕ → Found I
  panics : Found I

-- What `open` gives: a descriptor, a negated errno, or a panic.
pub data Opened : Type 0 where
  opened : ℕ → Opened
  failed : ℕ → Opened
  panicked : Opened

module _ (B : Backend) (I : Inodes B) (fs : FsMap B.Fs) where
  -- After a file was created it is opened again, with `unwrap`.
  abbrev pub reopened : Result B.Inode × B.World → Found B.Inode × B.World
  reopened (ok i, w) = (found i, w)
  reopened (err e, w) = (panics, w)

  abbrev pub created : List ℕ → Result B.Inode × B.World → Found B.Inode × B.World
  created name (ok i, w) = reopened (open_file B fs name w)
  created name (err e, w) = (no_file (file_error_to_errno e), w)

  abbrev pub truncated : B.Inode → Result (Unit {0}) × B.World → Found B.Inode × B.World
  truncated i (ok _, w) = (found i, w)
  truncated i (err e, w) = (no_file (file_error_to_errno e), w)

  abbrev pub after_open : List ℕ → ℕ → Result B.Inode × B.World → Found B.Inode × B.World
  after_open name flags (ok i, w) =
      if contains flags truncate_flag
      then truncated i (I.truncate i 0 (I.store_size i 0 w))
      else (found i, w)
  after_open name flags (err e, w) =
      if contains flags create_flag
      then created name (create_file B fs name new_file_mode w)
      else (no_file (file_error_to_errno e), w)

  -- The part of `open_inner` that runs without interrupts.
  unfoldable pub find_file : List ℕ → ℕ → B.World → Found B.Inode × B.World
  find_file name flags w =
      if contains flags truncate_flag && not (intersects flags (bit_or write_only read_write))
      then (no_file (errno einval), w)
      else after_open name flags (open_file B fs name w)

  abbrev pub wants_write : ℕ → Bool
  wants_write flags =
      contains flags write_only || contains flags read_write || contains flags truncate_flag

  abbrev pub enter : ℕ → B.Inode → Kernel → Option Table → Opened × Kernel
  enter flags i k none = (failed (errno esrch), k)
  enter flags i k (some t) =
      let r = add_file_handle (I.number i) flags k.files t in
      (opened r.2, record k { files = r.0; current = some r.1 })

  abbrev pub open_found : ℕ → Kernel → Found B.Inode × B.World → Opened × (Kernel × B.World)
  open_found flags k (no_file e, w) = (failed e, (k, w))
  open_found flags k (panics, w) = (panicked, (k, w))
  open_found flags k (found i, w) =
      if I.is_directory i w && wants_write flags
      then (failed (errno eisdir), (k, w))
      else (let r = enter flags i k k.current in (r.0, (r.1, w)))

  unfoldable pub open_inner : List ℕ → ℕ → Kernel → B.World → Opened × (Kernel × B.World)
  open_inner name flags k w = open_found flags k (find_file name flags w)

  -- `access_inner`: 0 or a negated errno. `mode` has the bits `R_OK` 4, `W_OK` 2 and `X_OK` 1.
  abbrev pub allowed : ℕ → ℕ → ℕ
  allowed mode perms =
      if contains mode 4 && not (intersects perms 0o444)
      then errno eacces
      else (if contains mode 2 && not (intersects perms 0o222)
          then errno eacces
          else (if contains mode 1 && not (intersects perms 0o111) then errno eacces else 0))

  abbrev pub access_found : ℕ → Result B.Inode × B.World → ℕ × B.World
  access_found mode (ok i, w) = (allowed mode (B.perms i w), w)
  access_found mode (err e, w) = (file_error_to_errno e, w)

  unfoldable pub access_inner : List ℕ → ℕ → B.World → ℕ × B.World
  access_inner name mode w = access_found mode (open_file B fs name w)
