-- ===== src/Files/Syscalls.antt =====
-- `dup`, `dup2`, `close` and `lseek` (zenos-kernel/src/syscall) over the descriptor table. A result is
-- the `u64` that the caller gets, an error its negated number. `none` is a missing current process.
pub mod Laws
use zenos.Common.{
  ℕ, suc, Bool, true, false, List, [], ◌∷◌, Option, none, some, if◌then◌else◌, ◌==◌, get_elem?, set,
  errno, as_i64, as_u64, ℤ,
}
use zenos.Vfs.Error.{Result, ok, err, FileError}
use zenos.Vfs.Error
use zenos.Files.OpenFile.{OpenFile, SeekFrom, start, end, current, seek}
use zenos.Files.Table.{Table, get_file_handle, dup_file_handle, close_file_handle}

abbrev pub esrch : ℕ
esrch = 3

abbrev pub ebadf : ℕ
ebadf = 9

abbrev pub einval : ℕ
einval = 22

-- `file_error_to_errno`.
unfoldable pub file_error_to_errno : FileError → ℕ
file_error_to_errno Error.unsupported_operation = errno 38
file_error_to_errno Error.read_error = errno 5
file_error_to_errno Error.write_error = errno 5
file_error_to_errno Error.seek_error = errno 29
file_error_to_errno Error.invalid_file_descriptor = errno 9
file_error_to_errno Error.not_found = errno 2
file_error_to_errno Error.already_exists = errno 17
file_error_to_errno Error.not_a_directory = errno 20
file_error_to_errno Error.is_a_directory = errno 21
file_error_to_errno Error.permission_denied = errno 13
file_error_to_errno Error.read_only_filesystem = errno 30
file_error_to_errno (Error.other message) = errno 5

-- The open files of all processes, the sizes of their inodes, and the current process's table.
pub record Kernel : Type 0 where
  pub files : List OpenFile
  pub size : ℕ → ℕ
  pub current : Option Table

dup_result : Kernel → Option (Table × ℕ) → Kernel × ℕ
dup_result k none = (k, errno ebadf)
dup_result k (some (t, fd)) = (record k { current = some t }, fd)

pub dup : ℕ → Kernel → Kernel × ℕ
unfolding dup_file_handle dup_result
dup old_fd k = elim k.current [
  | none ↦ (k, errno esrch)
  | some t ↦ dup_result k (dup_file_handle old_fd none t)
]

-- A descriptor onto itself is only checked.
dup_self : ℕ → Kernel → Option ℕ → Kernel × ℕ
dup_self fd k none = (k, errno ebadf)
dup_self fd k (some handle) = (k, fd)

dup2_in : ℕ → ℕ → Kernel → Table → Kernel × ℕ
unfolding dup_file_handle dup_result dup_self get_file_handle
dup2_in old_fd new_fd k t =
    if old_fd == new_fd
    then dup_self new_fd k (get_file_handle old_fd t)
    else dup_result k (dup_file_handle old_fd (some new_fd) t)

pub dup2 : ℕ → ℕ → Kernel → Kernel × ℕ
unfolding dup2_in
dup2 old_fd new_fd k = elim k.current [
  | none ↦ (k, errno esrch)
  | some t ↦ dup2_in old_fd new_fd k t
]

pub close : ℕ → Kernel → Kernel × ℕ
unfolding close_file_handle
close fd k = elim k.current [
  | none ↦ (k, errno esrch)
  | some t ↦ elim (close_file_handle fd t) [
    | ok t' ↦ (record k { current = some t' }, 0)
    | err e ↦ (k, errno ebadf)
  ]
]

-- `offset` is the argument as an `i64`; `whence` 0, 1 and 2 are the start, the cursor and the end.
seek_from : ℤ → ℕ → Option SeekFrom
seek_from offset whence =
    if whence == 0
    then some (start (as_u64 offset))
    else if whence == 1
    then some (current offset)
    else if whence == 2
    then some (end offset)
    else none

-- `file_handle.lock().seek(…)`: the handle that all its descriptors share gets the new cursor.
seek_handle : Kernel → ℕ → SeekFrom → Kernel × ℕ
unfolding seek
seek_handle k handle from = elim (get_elem? k.files handle) [
  | none ↦ (k, errno ebadf)
  | some f ↦
      let (f', p) = seek (k.size f.inode) from f in (record k { files = set k.files handle f' }, p)
]

seek_fd : Option ℕ → Option SeekFrom → Kernel → Kernel × ℕ
unfolding seek_handle
seek_fd none from k = (k, errno ebadf)
seek_fd (some handle) none k = (k, errno einval)
seek_fd (some handle) (some from) k = seek_handle k handle from

pub seek_inner : ℕ → ℤ → ℕ → Kernel → Kernel × ℕ
unfolding get_file_handle seek_from seek_fd
seek_inner fd offset whence k = elim k.current [
  | none ↦ (k, errno esrch)
  | some t ↦ seek_fd (get_file_handle fd t) (seek_from offset whence) k
]

pub lseek : ℕ → ℕ → ℕ → Kernel → Kernel × ℕ
unfolding seek_inner
lseek fd offset whence k = seek_inner fd (as_i64 offset) whence k
