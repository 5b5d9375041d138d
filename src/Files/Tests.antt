-- ===== src/Files/Tests.antt =====
-- The theorems on open files and descriptors, applied to a table with two descriptors.
use zenos.Common.{
  ℕ, suc, ◌≡◌, ◌↔◌, ◌+◌, refl, Bool, true, List, [], ◌∷◌, some, arith, ◌==◌, length, set, errno,
  pos,
}
use zenos.Vfs.Error.{ok}
use zenos.Vfs.Open.{Backend}
use zenos.Files.OpenFile.{OpenFile, Device, read_write, close_on_exec}
use zenos.Files.Table.{Table, lookup}
use zenos.Files.Syscalls.{Kernel, ebadf, dup, seek_inner, lseek}
use zenos.Files.Syscalls.Laws.{dup-shares_cursor, lseek-looks_like_error}
use zenos.Files.UserMemory.{user_range_is_mapped, copy_to_user, copy_from_user, put_bytes}
use zenos.Files.UserMemory.Laws.{Backed, user_range_is_mapped-Backed, copy_from_user-copy_to_user}
use zenos.Files.Opening.{Inodes, Opened, open_inner}
use zenos.Files.Opening.Laws.{Enters, open_inner-Enters}
use zenos.Files.Getdents.{DirEntry, file, directory}

abbrev log_file : OpenFile
log_file = record { inode = 4; cursor = 10; options = 0 }

abbrev secret_file : OpenFile
secret_file = record { inode = 5; cursor = 0; options = close_on_exec }

abbrev open_files : List OpenFile
open_files = log_file ∷ secret_file ∷ []

abbrev two_fds : Table
two_fds = (3, 0) ∷ (4, 1) ∷ []

abbrev kernel : Kernel
kernel = record { files = open_files; size = λ i. 100; current = some two_fds }

-- A device that writes everything and always reads two bytes; its world counts the writes.
abbrev Disk : Device
Disk = record {
  World = ℕ;
  perms = λ i w. 0o600;
  read_data = λ i offset len w. (ok (1 ∷ 2 ∷ []), w);
  write_data = λ i offset bytes w. (ok (length bytes), suc w);
  sync = λ i w. (ok tt, w);
  set_access_time = λ i w. w;
  set_modified_time = λ i w. w;
}

dup-shares_cursor_example :
    seek_inner (dup 3 kernel).1 (pos 7) 0 (dup 3 kernel).0 ≡ seek_inner 3 (pos 7) 0 (dup 3 kernel).0
unfolding lookup
dup-shares_cursor_example = dup-shares_cursor 3 0 (pos 7) kernel two_fds 0 refl refl

lseek-looks_like_error_example : lseek 3 (errno ebadf) 0 kernel ≡ (
  record kernel { files = set open_files 0 (record log_file { cursor = errno ebadf }) },
  errno ebadf,
)
unfolding lookup
lseek-looks_like_error_example =
    lseek-looks_like_error 3 ebadf kernel two_fds 0 log_file refl refl refl (omega arith)
      (omega arith)

-- A directory with the entries "a" and "bc", read into a buffer for one entry.
abbrev entries : List DirEntry
entries =
    record { name = 97 ∷ []; ino = 7; file_type = file }
    ∷ record { name = 98 ∷ 99 ∷ []; ino = 8; file_type = directory }
    ∷ []

-- A file system with the file "/a" in its root.
abbrev Tiny : Backend
Tiny = record {
  World = ℕ;
  Fs = ℕ;
  Inode = ℕ;
  root_dir = λ fs w. (ok 0, w);
  lookup = λ dir name w. (ok 6, w);
  create = λ dir name mode w. (ok 6, suc w);
  perms = λ i w. 0o700;
}

abbrev tiny_inodes : Inodes Tiny
tiny_inodes = record {
  number = λ i. i;
  is_directory = λ i w. i == 0;
  store_size = λ i size w. w;
  truncate = λ i size w. (ok tt, w);
}

abbrev opened_a : Opened × (Kernel × ℕ)
opened_a = open_inner Tiny tiny_inodes ((47 ∷ [], 1) ∷ []) (47 ∷ 97 ∷ []) read_write kernel 0

open_inner-Enters_example : Enters read_write kernel (opened_a.0, opened_a.1.0)
open_inner-Enters_example =
    open_inner-Enters Tiny tiny_inodes ((47 ∷ [], 1) ∷ []) (47 ∷ 97 ∷ []) read_write kernel 0

-- A process of which one page is mapped.
abbrev one_page : ℕ → Bool
one_page addr = addr == 4096

user_range_is_mapped-Backed_example :
    (user_range_is_mapped one_page 4100 10 ≡ true) ↔ Backed one_page 4100 (4100 + 10)
user_range_is_mapped-Backed_example =
    user_range_is_mapped-Backed one_page 4100 10 (omega arith) (omega arith) (omega arith)

copied_out :
    copy_to_user one_page (λ x. 0) 4100 (7 ∷ 8 ∷ []) ≡ some (put_bytes (λ x. 0) 4100 (7 ∷ 8 ∷ []))
unfolding copy_to_user
copied_out = refl

copy_from_user-copy_to_user_example :
    copy_from_user one_page (put_bytes (λ x. 0) 4100 (7 ∷ 8 ∷ [])) 4100 2 ≡ some (7 ∷ 8 ∷ [])
copy_from_user-copy_to_user_example =
    copy_from_user-copy_to_user one_page (λ x. 0) (put_bytes (λ x. 0) 4100 (7 ∷ 8 ∷ [])) 4100
      (7 ∷ 8 ∷ []) copied_out
