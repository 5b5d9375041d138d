-- ===== src/Files/Getdents/Laws.antt =====
-- What `getdents64` hands to the caller.
use zenos.Common.{
  ℕ, ◌+◌, ◌≤◌, ◌<◌, ◌≡◌, ◌⊎◌, Bool, false, List, some, length, get_elem?, set, errno,
}
use zenos.Files.OpenFile.{OpenFile}
use zenos.Files.Table.{Table}
use zenos.Files.Syscalls.{Kernel}
use zenos.Files.Getdents.{DirEntry, LinuxDirent64}
use zenos.Files.Getdents.Records.{record_size, laid_out, laid_size}

-- Why a call that succeeds handed over `n` entries of `ds` and no more: they are all, or the next one
-- does not fit behind them.
abbrev pub Full : ℕ → ℕ → List DirEntry → Type 0
Full buf_size n ds =
    (length ds ≤ n)
    ⊎ ((d : DirEntry) × ((get_elem? ds n ≡ some d) × (buf_size < laid_size n ds + record_size d)))

-- What a call hands over of the entries `ds` from the cursor of `f` on: the first `count`, packed one
-- behind the other into the buffer. It returns their size and the cursor moves on by their number, or it
-- fails with `EFAULT` at an entry behind them whose place is not mapped, and all open files stay.
pub record Lists (mapped : ℕ → Bool) (user_buf buf_size handle : ℕ) (f : OpenFile) (k : Kernel)
    (ds : List DirEntry) (out : ℕ × (Kernel × List (ℕ × LinuxDirent64))) : Type 0 where
  pub count : ℕ
  pub few : count ≤ length ds
  pub fits : laid_size count ds ≤ buf_size
  pub copies : out.1.1 ≡ laid_out count user_buf f.cursor ds
  pub outcome :
      ((out.0 ≡ laid_size count ds)
        × (out.1.0
            ≡ record k { files = set k.files handle (record f { cursor = f.cursor + count }) })
        × Full buf_size count ds)
      ⊎ ((out.0 ≡ errno 14)
          × (out.1.0 ≡ k)
          × ((count < length ds) × (mapped (user_buf + laid_size count ds) ≡ false)))
