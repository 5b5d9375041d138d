-- ===== src/Files/Table/Laws.antt =====
-- The descriptor table of zenos-kernel/src/process/mod.rs as a map from descriptors to handles.
use zenos.Common.{
  ℕ, ◌+◌, ◌≤◌, ◌<◌, ◌≡◌, ◌≢◌, refl, ◌∙◌, max, List, [], ◌∷◌, Option, none, some, arith,
  if◌then◌else◌, ◌==◌, not, length, get_elem?, get_elem?-append_left, get_elem?-append_length,
  Option-cases, inl, inr, ◌⊎◌, ==_refl,
}
use zenos.Vfs.Error.{ok, err, invalid_file_descriptor}
use zenos.Vfs.Open.{contains}
use zenos.Files.OpenFile.{OpenFile, close_on_exec}
use zenos.Files.Table.{
  Table, u32_size, lookup, insert, remove, max_key_from, max_fd, next_fd, fd_key, add_file_handle,
  target_fd, dup_file_handle, close_file_handle, kept_on_exec, retain_on_exec,
}

lookup-insert :
    (k j h : ℕ) (t : Table) → lookup j (insert k h t) ≡ (if k == j then some h else lookup j t)
unfolding lookup insert
lookup-insert k j h [] = refl
lookup-insert k j h ((i, g) ∷ t) = ground (arith, lookup-insert k j h t)

lookup-remove :
    (k j : ℕ) (t : Table) → lookup j (remove k t) ≡ (if k == j then none else lookup j t)
unfolding lookup remove
lookup-remove k j [] = ground arith
lookup-remove k j ((i, g) ∷ t) = ground (arith, lookup-remove k j t)

-- The largest key bounds all of them.
max_key_from-bound : (m : ℕ) (t : Table) → m ≤ max_key_from m t
unfolding max_key_from
max_key_from-bound m [] = omega arith
max_key_from-bound m ((j, g) ∷ t) = omega (arith, max_key_from-bound (max m j) t)

lookup_above_max : (m k : ℕ) (t : Table) → max_key_from m t < k → lookup k t ≡ none
unfolding lookup max_key_from
lookup_above_max m k [] h = refl
lookup_above_max m k ((j, g) ∷ t) h =
    ground (arith, lookup_above_max (max m j) k t, max_key_from-bound (max m j) t)

lookup-next_fd : (t : Table) → max_fd t + 1 < u32_size → lookup (next_fd t) t ≡ none
unfolding next_fd max_fd lookup
lookup-next_fd [] h = refl
lookup-next_fd ((j, g) ∷ t) h =
    ground (arith, lookup_above_max j (max_key_from j t + 1) t, max_key_from-bound j t)

key-next_fd : (t : Table) → fd_key (next_fd t) ≡ next_fd t
unfolding next_fd
key-next_fd t = omega arith

-- A new file gets a descriptor that was free, and leads to a new handle at offset 0; the other
-- descriptors and handles stay as they were. This needs a largest descriptor below the last `u32`.
pub add_file_handle-fresh :
    (inode options : ℕ) (files : List OpenFile) (t : Table)
    → max_fd t + 1 < u32_size
    → let r = add_file_handle inode options files t in
      (lookup r.2 t ≡ none)
      × (lookup r.2 r.1 ≡ some (length files))
      × (get_elem? r.0 (length files)
          ≡ some (record { inode = inode; cursor = 0; options = options }))
      × ((fd : ℕ) → fd ≢ r.2 → lookup fd r.1 ≡ lookup fd t)
      × ((h : ℕ) → h < length files → get_elem? r.0 h ≡ get_elem? files h)
unfolding add_file_handle
add_file_handle-fresh inode options files t h = (
  lookup-next_fd t h,
  lookup-insert (next_fd t) (next_fd t) (length files) t ∙ rw (==_refl (next_fd t)),
  get_elem?-append_length files _,
  (λ fd ne. ground (arith, lookup-insert (next_fd t) fd (length files) t)),
  λ i lt. get_elem?-append_left files _ i lt,
)

-- Where the old descriptor is open, the copy is another name of the same handle, and all other
-- descriptors stay; else there is no copy. Without a requested number the copy takes one that was
-- free, if the largest descriptor lies below the last `u32`.
pub dup_file_handle-shares :
    (old : ℕ) (requested : Option ℕ) (t : Table)
    → ((lookup (fd_key old) t ≡ none) × (dup_file_handle old requested t ≡ none))
      ⊎ ((handle : ℕ) × (t' : Table) × (fd : ℕ) × (lookup (fd_key old) t ≡ some handle)
          × (dup_file_handle old requested t ≡ some (t', fd))
          × ((j : ℕ) → lookup j t' ≡ (if fd_key fd == j then some handle else lookup j t))
          × ((new : ℕ) → requested ≡ some new → fd ≡ new)
          × (requested ≡ none → max_fd t + 1 < u32_size → lookup (fd_key fd) t ≡ none))
unfolding dup_file_handle target_fd
dup_file_handle-shares old requested t = elim (Option-cases (lookup (fd_key old) t)) [
  | inl e ↦ inl (e, rw (e, dup_file_handle))
  | inr (handle, e) ↦ inr (
    handle,
    insert (fd_key (target_fd requested t)) handle (remove (fd_key (target_fd requested t)) t),
    target_fd requested t,
    e,
    rw (e, dup_file_handle),
    (λ j.
        lookup-insert (fd_key (target_fd requested t)) j handle _
        ∙ ground (arith, lookup-remove (fd_key (target_fd requested t)) j t)),
    (λ new r. rw r),
    λ r lt. rw r (rw (key-next_fd t) (lookup-next_fd t lt)),
  )
]

-- Closing an open descriptor closes that one alone; closing any other fails.
pub close_file_handle-closes :
    (fd : ℕ) (t : Table)
    → ((lookup (fd_key fd) t ≡ none) × (close_file_handle fd t ≡ err invalid_file_descriptor))
      ⊎ ((t' : Table) × (close_file_handle fd t ≡ ok t')
          × (lookup (fd_key fd) t ≢ none)
          × ((j : ℕ) → lookup j t' ≡ (if fd_key fd == j then none else lookup j t)))
unfolding close_file_handle
close_file_handle-closes fd t = elim (Option-cases (lookup (fd_key fd) t)) [
  | inl e ↦ inl (e, rw (e, close_file_handle))
  | inr (handle, e) ↦ inr (
    remove (fd_key fd) t,
    rw (e, close_file_handle),
    (λ n. cc),
    λ j. lookup-remove (fd_key fd) j t,
  )
]

-- Distinct descriptors, as in a hash map.
abbrev pub Keyed : Table → Type 0
Keyed [] = Unit
Keyed ((j, h) ∷ t) = (lookup j t ≡ none) × Keyed t

lookup-retain_none :
    (files : List OpenFile) (k : ℕ) (t : Table)
    → lookup k t ≡ none
    → lookup k (retain_on_exec files t) ≡ none
unfolding lookup retain_on_exec
lookup-retain_none files k [] e = refl
lookup-retain_none files k ((j, g) ∷ t) e = ground (arith, lookup-retain_none files k t)

kept_on_exec-some :
    (files : List OpenFile) (h : ℕ) (f : OpenFile)
    → get_elem? files h ≡ some f
    → kept_on_exec files h ≡ not (contains f.options close_on_exec)
unfolding kept_on_exec
kept_on_exec-some files h f g = rw (g, kept_on_exec)

-- `exec` keeps a descriptor, with its handle, exactly where the open file behind it is not marked
-- `CLOSE_ON_EXEC`. The table holds every descriptor once.
pub retain_on_exec-keeps :
    (files : List OpenFile) (t : Table)
    → Keyed t
    → (fd handle : ℕ) (f : OpenFile) → lookup fd t ≡ some handle
    → get_elem? files handle ≡ some f
    → lookup fd (retain_on_exec files t)
      ≡ (if contains f.options close_on_exec then none else some handle)
unfolding retain_on_exec lookup
retain_on_exec-keeps files [] k fd handle f e g = cc
retain_on_exec-keeps files ((j, h) ∷ t) k fd handle f e g = ground (
  arith,
  kept_on_exec-some files handle f g,
  k.0,
  lookup-retain_none files j t,
  retain_on_exec-keeps files t k.1 fd handle f,
)
