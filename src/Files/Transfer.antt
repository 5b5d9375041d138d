-- ===== src/Files/Transfer.antt =====
-- The calls `read` and `write` (zenos-kernel/src/syscall/read.rs and write.rs): between a process's
-- memory and its open files. `none` as a result is a panic of the kernel.
use zenos.Common.{
  ℕ, Bool, List, Option, none, some, if◌then◌else◌, leb, length, get_elem?, set, min, errno,
  u64_size, ◌-◌,
}
use zenos.Vfs.Error.{Result, ok, err}
use zenos.Files.OpenFile
use zenos.Files.OpenFile.{Device}
use zenos.Files.Table.{get_file_handle}
use zenos.Files.Syscalls.{Kernel, esrch, ebadf, file_error_to_errno}
use zenos.Files.UserMemory.{copy_from_user, copy_to_user}

abbrev pub efault : ℕ
efault = 14

abbrev pub max_read : ℕ
max_read = 0x10000

-- Either the value of a call or the number that it returns for its error.
pub data Answer (A : Type 0) : Type 0 where
  value : A → Answer A
  refused : ℕ → Answer A

module _ (D : Device) where
  open D use {World}

  -- What the calls change: the kernel's open files, the memory of the process, and the disks.
  pub record Machine : Type 0 where
    pub kernel : Kernel
    pub memory : ℕ → ℕ
    pub world : World

  abbrev pub with_handle :
      {A : Type 0} → ℕ → Machine → Result A × OpenFile.OpenFile × World → Answer A × Machine
  with_handle handle m (ok a, f, w) = (
    value a,
    record m { kernel = record m.kernel { files = set m.kernel.files handle f }; world = w },
  )
  with_handle handle m (err e, f, w) = (
    refused (file_error_to_errno e),
    record m { kernel = record m.kernel { files = set m.kernel.files handle f }; world = w },
  )

  -- `current_proc_mut`, `get_file_handle` and the lock of the handle.
  abbrev pub on_handle :
      {A : Type 0}
      → (OpenFile.OpenFile → World → Result A × OpenFile.OpenFile × World)
      → ℕ
      → Machine
      → Answer A × Machine
  on_handle op fd m = elim m.kernel.current [
    | none ↦ (refused (errno esrch), m)
    | some t ↦ elim (get_file_handle fd t) [
      | none ↦ (refused (errno ebadf), m)
      | some handle ↦ elim (get_elem? m.kernel.files handle) [
        | none ↦ (refused (errno ebadf), m)
        | some f ↦ with_handle handle m (op f m.world)
      ]
    ]
  ]

  unfoldable pub read_inner : ℕ → ℕ → Machine → Answer (List ℕ) × Machine
  unfolding OpenFile.read
  read_inner fd len m = on_handle (OpenFile.read D len) fd m

  unfoldable pub write_inner : List ℕ → ℕ → Machine → Answer ℕ × Machine
  unfolding OpenFile.write
  write_inner buf fd m = on_handle (OpenFile.write D buf) fd m

  module _ (mapped : ℕ → Bool) where
    -- An error's number that is not negative is negated.
    abbrev pub read_answer : ℕ → Answer (List ℕ) × Machine → Option (ℕ × Machine)
    read_answer buf_ptr (value bytes, m) = elim (copy_to_user mapped m.memory buf_ptr bytes) [
      | none ↦ none
      | some memory ↦ some (length bytes, record m { memory = memory })
    ]
    read_answer buf_ptr (refused e, m) =
        some ((if leb 0x8000000000000000 e then e else u64_size - e), m)

    unfoldable pub read : ℕ → ℕ → ℕ → Machine → Option (ℕ × Machine)
    unfolding read_inner copy_to_user
    read fd buf_ptr len m = read_answer buf_ptr (read_inner fd (min len max_read) m)

    abbrev pub write_answer : Answer ℕ × Machine → ℕ × Machine
    write_answer (value n, m) = (n, m)
    write_answer (refused e, m) = (e, m)

    unfoldable pub write : ℕ → ℕ → ℕ → Machine → ℕ × Machine
    unfolding write_inner copy_from_user
    write fd buf_ptr len m = elim (copy_from_user mapped m.memory buf_ptr len) [
      | none ↦ (errno efault, m)
      | some buf ↦ write_answer (write_inner buf fd m)
    ]
