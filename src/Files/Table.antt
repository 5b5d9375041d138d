-- ===== src/Files/Table.antt =====
-- The `file_handles` of a process in zenos-kernel/src/process/mod.rs. A handle
-- (`Rc<Mutex<OpenFile>>`) is a place in the list of all open files, so that descriptors share it.
pub mod Laws
use zenos.Common.{
  ℕ, ◌+◌, ◌%◌, ◌^◌, max, Bool, true, false, List, [], ◌∷◌, ◌++◌, Option, none, some, if◌then◌else◌,
  ◌==◌, not, length, get_elem?,
}
use zenos.Vfs.Error.{Result, ok, err, invalid_file_descriptor}
use zenos.Vfs.Open.{contains}
use zenos.Files.OpenFile.{OpenFile, close_on_exec}

abbrev pub u32_size : ℕ
u32_size = 2 ^ 32

-- `HashMap<u32, Rc<Mutex<OpenFile>>>`.
abbrev pub Table : Type 0
Table = List (ℕ × ℕ)

unfoldable pub lookup : ℕ → Table → Option ℕ
lookup k [] = none
lookup k ((j, h) ∷ t) = if j == k then some h else lookup k t

insert : ℕ → ℕ → Table → Table
insert k h [] = (k, h) ∷ []
insert k h ((j, g) ∷ t) = if j == k then (k, h) ∷ t else (j, g) ∷ insert k h t

remove : ℕ → Table → Table
remove k [] = []
remove k ((j, g) ∷ t) = let rest = remove k t in if j == k then rest else (j, g) ∷ rest

max_key_from : ℕ → Table → ℕ
max_key_from m [] = m
max_key_from m ((j, g) ∷ t) = max_key_from (max m j) t

-- `keys().max().unwrap_or(2)`.
unfoldable pub max_fd : Table → ℕ
unfolding max_key_from
max_fd [] = 2
max_fd ((j, g) ∷ t) = max_key_from j t

-- `max + 1` on `u32`.
pub next_fd : Table → ℕ
unfolding max_fd
next_fd t = (max_fd t + 1) % u32_size

-- `fd as u32`.
abbrev pub fd_key : ℕ → ℕ
fd_key fd = fd % u32_size

unfoldable pub get_file_handle : ℕ → Table → Option ℕ
unfolding lookup
get_file_handle fd t = lookup (fd_key fd) t

-- The new handle, the table with it and the descriptor.
unfoldable pub add_file_handle : ℕ → ℕ → List OpenFile → Table → List OpenFile × Table × ℕ
unfolding next_fd insert
add_file_handle inode options files t =
    let fd = next_fd t in
    (
      files ++ (record { inode = inode; cursor = 0; options = options } ∷ []),
      insert fd (length files) t,
      fd,
    )

target_fd : Option ℕ → Table → ℕ
unfolding next_fd
target_fd none t = next_fd t
target_fd (some fd) t = fd

unfoldable pub dup_file_handle : ℕ → Option ℕ → Table → Option (Table × ℕ)
unfolding lookup insert remove target_fd
dup_file_handle old_fd new_fd t = elim (lookup (fd_key old_fd) t) [
  | none ↦ none
  | some handle ↦
      let fd = target_fd new_fd t in some (insert (fd_key fd) handle (remove (fd_key fd) t), fd)
]

unfoldable pub close_file_handle : ℕ → Table → Result Table
unfolding lookup remove
close_file_handle fd t = elim (lookup (fd_key fd) t) [
  | none ↦ err invalid_file_descriptor
  | some _ ↦ ok (remove (fd_key fd) t)
]

-- Whether `exec` keeps a handle.
kept_on_exec : List OpenFile → ℕ → Bool
kept_on_exec files h = elim (get_elem? files h) [
  | none ↦ true
  | some f ↦ not (contains f.options close_on_exec)
]

-- `self.file_handles.retain(…)` of `exec_replace`.
pub retain_on_exec : List OpenFile → Table → Table
unfolding kept_on_exec
retain_on_exec files [] = []
retain_on_exec files ((j, h) ∷ t) =
    let rest = retain_on_exec files t in if kept_on_exec files h then (j, h) ∷ rest else rest
