-- ===== src/Files/Opening/Laws.antt =====
-- What `open_inner` does to the descriptors of the process.
use zenos.Common.{
  ℕ, ◌+◌, ◌<◌, ◌≡◌, ◌≢◌, refl, ◌&&◌, List, Option, none, some, length, get_elem?, if_cases,
}
use zenos.Vfs.Mounts.{FsMap}
use zenos.Vfs.Open.{Backend}
use zenos.Files.Table.{Table, lookup, max_fd, u32_size, add_file_handle}
use zenos.Files.Table.Laws.{add_file_handle-fresh}
use zenos.Files.Syscalls.{Kernel}
use zenos.Files.Opening.{
  Inodes, Found, found, no_file, panics, Opened, opened, failed, panicked, find_file, enter,
  open_found, wants_write, open_inner,
}

-- A new descriptor of the table `t`, the first of its number, for a new handle at offset 0.
abbrev pub NewHandle : ℕ → Kernel → Table → ℕ → Kernel → Type 0
NewHandle flags k t fd k' =
    (u : Table) × ((k'.current ≡ some u)
      × ((lookup fd t ≡ none)
          × ((lookup fd u ≡ some (length k.files))
              × (((i : ℕ) × (get_elem? k'.files (length k.files)
                      ≡ some (record { inode = i; cursor = 0; options = flags })))
                  × (((j : ℕ) → j ≢ fd → lookup j u ≡ lookup j t)
                      × ((h : ℕ)
                          → h < length k.files
                          → get_elem? k'.files h ≡ get_elem? k.files h))))))

abbrev pub Enters : ℕ → Kernel → Opened × Kernel → Type 0
Enters flags k (failed e, k') = k' ≡ k
Enters flags k (panicked, k') = k' ≡ k
Enters flags k (opened fd, k') =
    (t : Table) × ((k.current ≡ some t) × (max_fd t + 1 < u32_size → NewHandle flags k t fd k'))

module _ (B : Backend) (I : Inodes B) (fs : FsMap B.Fs) where
  enter-Enters :
      (flags : ℕ) (i : B.Inode) (k : Kernel) (o : Option Table)
      → k.current ≡ o
      → Enters flags k (enter B I fs flags i k o)
  enter-Enters flags i k none e = refl
  enter-Enters flags i k (some t) e = (t, (e, new_handle))
    where
      new_handle :
          max_fd t + 1 < u32_size
          → NewHandle flags k t
              ((add_file_handle (I.number i) flags k.files t).2)
              (enter B I fs flags i k (some t)).1
      new_handle h =
          let f = add_file_handle-fresh (I.number i) flags k.files t h in
          (_, (refl, (f.0, (f.1, ((I.number i, f.2), (f.3, f.4))))))

  open_found-Enters :
      (flags : ℕ) (k : Kernel) (r : Found B.Inode × B.World)
      → Enters flags k ((open_found B I fs flags k r).0, (open_found B I fs flags k r).1.0)
  open_found-Enters flags k (no_file e, w) = refl
  open_found-Enters flags k (panics, w) = refl
  open_found-Enters flags k (found i, w) =
      if_cases (λ (r : Opened × (Kernel × B.World)). Enters flags k (r.0, r.1.0))
        (I.is_directory i w && wants_write B I fs flags) (λ e. refl)
        (λ e. enter-Enters flags i k k.current refl)

  -- An open that fails, for whatever reason, leaves the descriptors and handles as they were; one that
  -- succeeds has a current process, and, where its largest descriptor lies below the last `u32`, gives
  -- it a descriptor that was free, for a new handle at offset 0 with the flags, and changes no other.
  pub open_inner-Enters :
      (name : List ℕ) (flags : ℕ) (k : Kernel) (w : B.World)
      → Enters flags k
          ((open_inner B I fs name flags k w).0, (open_inner B I fs name flags k w).1.0)
  unfolding open_inner
  open_inner-Enters name flags k w = open_found-Enters flags k (find_file B I fs name flags w)
