-- ===== src/Files/Getdents.antt =====
-- `getdents64` (zenos-kernel/src/syscall/getdents.rs): the entries of a directory packed into a buffer
-- of the caller. What the directory holds and which of the caller's memory is mapped are parameters.
pub mod Packing
pub mod Records
pub mod Laws
use zenos.Common.{
  ℕ, zero, suc, ◌+◌, ◌-◌, ◌*◌, ◌/◌, ◌%◌, min, Bool, true, false, List, [], ◌∷◌, ◌++◌, Option, none,
  some, if◌then◌else◌, ltb, length, drop, repeat, get_elem?, set, errno, ◌==◌,
}
use zenos.Vfs.Error.{Result, ok, err, FileError}
use zenos.Files.OpenFile.{OpenFile}
use zenos.Files.Table.{get_file_handle}
use zenos.Files.Syscalls.{Kernel, esrch, ebadf, file_error_to_errno}

pub data FileType : Type 0 where
  file directory symlink socket char_device block_device fifo : FileType

pub record DirEntry : Type 0 where
  pub name : List ℕ
  pub ino : ℕ
  pub file_type : FileType

-- `LinuxDirent64`, which takes 280 bytes: 275 and the padding to its alignment of 8.
pub record LinuxDirent64 : Type 0 where
  pub d_ino : ℕ
  pub d_off : ℕ
  pub d_reclen : ℕ
  pub d_type : ℕ
  pub d_name : List ℕ

abbrev pub dirent_size : ℕ
dirent_size = 280

abbrev pub filetype_to_dtype : FileType → ℕ
filetype_to_dtype fifo = 1
filetype_to_dtype char_device = 2
filetype_to_dtype directory = 4
filetype_to_dtype block_device = 6
filetype_to_dtype file = 8
filetype_to_dtype symlink = 10
filetype_to_dtype socket = 12

-- `(len + 7) & !7`.
abbrev pub align_up : ℕ → ℕ
align_up len = (len + 7) / 8 * 8

abbrev pub name_len : DirEntry → ℕ
name_len d = min (length d.name) 255

abbrev pub reclen : DirEntry → ℕ
reclen d = align_up (8 + 8 + 2 + 1 + name_len d + 1)

-- The first bytes of a name, filled up with zeros to 256.
abbrev pub name_field : ℕ → List ℕ → List ℕ
name_field zero name = []
name_field (suc room) [] = 0 ∷ name_field room []
name_field (suc room) (b ∷ name) = b ∷ name_field room name

abbrev pub linux_dent : DirEntry → ℕ → LinuxDirent64
linux_dent d offset = record {
  d_ino = d.ino;
  d_off = offset + 1;
  d_reclen = reclen d % 65536;
  d_type = filetype_to_dtype d.file_type;
  d_name = name_field 255 d.name ++ (0 ∷ []);
}

-- The variables of the loop, and what was copied to which address.
pub record Progress : Type 0 where
  pub bytes_written : ℕ
  pub offset : ℕ
  pub user_buf : ℕ
  pub copied : List (ℕ × LinuxDirent64)

abbrev pub advance : DirEntry → Progress → Progress
advance d p = record {
  bytes_written = p.bytes_written + reclen d;
  offset = p.offset + 1;
  user_buf = p.user_buf + reclen d;
  copied = p.copied ++ ((p.user_buf, linux_dent d p.offset) ∷ []);
}

-- The loop; true where no copy failed. `mapped` tells whether the 280 bytes at an address are mapped.
unfoldable pub dents_loop : (ℕ → Bool) → ℕ → List DirEntry → Progress → Bool × Progress
dents_loop mapped buf_size [] p = (true, p)
dents_loop mapped buf_size (d ∷ dentries) p =
    let rest = dents_loop mapped buf_size dentries (advance d p) in
    if ltb buf_size (p.bytes_written + reclen d)
    then (true, p)
    else (if mapped p.user_buf then rest else (false, p))

abbrev pub begin : ℕ → ℕ → Progress
begin user_buf offset = record {
  bytes_written = 0;
  offset = offset;
  user_buf = user_buf;
  copied = [];
}

-- The result, the cursors of the open files, and what was copied. A failed copy leaves the cursor.
abbrev pub finish :
    ℕ → OpenFile → Kernel → Bool × Progress → ℕ × (Kernel × List (ℕ × LinuxDirent64))
finish handle f k (false, p) = (errno 14, (k, p.copied))
finish handle f k (true, p) = (
  p.bytes_written,
  (record k { files = set k.files handle (record f { cursor = p.offset }) }, p.copied),
)

module _ (read_dir : ℕ → Result (List DirEntry)) (mapped : ℕ → Bool) where
  abbrev pub list_dir :
      ℕ
      → ℕ
      → ℕ
      → OpenFile
      → Kernel
      → Result (List DirEntry)
      → ℕ × (Kernel × List (ℕ × LinuxDirent64))
  list_dir user_buf buf_size handle f k (err e) = (file_error_to_errno e, (k, []))
  list_dir user_buf buf_size handle f k (ok dentries) =
      finish handle f k
        (dents_loop mapped buf_size (drop f.cursor dentries) (begin user_buf f.cursor))

  abbrev pub read_handle :
      ℕ → ℕ → Kernel → ℕ → Option OpenFile → ℕ × (Kernel × List (ℕ × LinuxDirent64))
  read_handle user_buf buf_size k handle none = (errno ebadf, (k, []))
  read_handle user_buf buf_size k handle (some f) =
      list_dir user_buf buf_size handle f k (read_dir f.inode)

  abbrev pub with_handle : ℕ → ℕ → Kernel → Option ℕ → ℕ × (Kernel × List (ℕ × LinuxDirent64))
  with_handle user_buf buf_size k none = (errno ebadf, (k, []))
  with_handle user_buf buf_size k (some handle) =
      read_handle user_buf buf_size k handle (get_elem? k.files handle)

  unfoldable pub getdents64 : ℕ → ℕ → ℕ → Kernel → ℕ × (Kernel × List (ℕ × LinuxDirent64))
  getdents64 fd_idx user_buf buf_size k = elim k.current [
    | none ↦ (errno esrch, (k, []))
    | some t ↦ with_handle user_buf buf_size k (get_file_handle fd_idx t)
  ]
