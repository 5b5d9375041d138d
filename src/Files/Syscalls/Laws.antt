-- ===== src/Files/Syscalls/Laws.antt =====
-- What the calls of zenos-kernel/src/syscall/{dup,close,lseek}.rs do, errors included.
use zenos.Common.{
  ℕ, suc, ◌^◌, ◌≤◌, ◌<◌, ◌≡◌, ◌≢◌, refl, sym, ap, ◌∙◌, none, some, if◌then◌else◌, ◌==◌, get_elem?,
  get_elem?-set_self, get_elem?-lt, set, set-set_self, zero, errno, as_i64, as_u64, ℤ, pos, negsuc,
  arith, inl, inr, ◌⊎◌, u64_max,
}
use zenos.Files.OpenFile.{OpenFile, SeekFrom, start, end, current, seek}
use zenos.Files.Table.{Table, lookup, fd_key, get_file_handle, dup_file_handle}
use zenos.Files.Table.Laws.{dup_file_handle-shares}
use zenos.Files.Syscalls.{
  Kernel, ebadf, dup, dup2, dup2_in, dup_result, seek_from, seek_handle, seek_fd, seek_inner, lseek,
}

-- `dup2` between different descriptors of a process: it fails with `EBADF` and changes nothing where
-- the old one is not open; else the new one, as a `u32`, leads to the old one's handle and no other
-- descriptor changes. On one and the same open descriptor it changes nothing.
pub dup2-branches :
    (old new : ℕ) (k : Kernel) (t : Table)
    → k.current ≡ some t
    → ((lookup (fd_key old) t ≡ none) × (dup2 old new k ≡ (k, errno ebadf)))
      ⊎ ((handle : ℕ) × (lookup (fd_key old) t ≡ some handle)
          × (old ≡ new → dup2 old new k ≡ (k, new))
          × (old ≢ new
              → (t' : Table) × (dup2 old new k ≡ (record k { current = some t' }, new))
                × ((j : ℕ) → lookup j t' ≡ (if fd_key new == j then some handle else lookup j t))))
unfolding dup2 dup2_in get_file_handle
dup2-branches old new k t c = elim (dup_file_handle-shares old (some new) t) [
  | inl (e, d) ↦ inl (e, ground arith)
  | inr (handle, t', fd, e, d, l, r, fresh) ↦ inr (
    handle,
    e,
    (λ same. ground arith),
    λ ne. (t', ground (arith, r new refl), λ j. ground (arith, r new refl, l j)),
  )
]

seek_inner_in :
    (fd whence : ℕ) (offset : ℤ) (k : Kernel) (t : Table)
    → k.current ≡ some t
    → seek_inner fd offset whence k ≡ seek_fd (lookup (fd_key fd) t) (seek_from offset whence) k
unfolding seek_inner get_file_handle
seek_inner_in fd whence offset k t c = ground arith

dup_in :
    (old fd : ℕ) (k : Kernel) (t t' : Table)
    → k.current ≡ some t
    → dup_file_handle old none t ≡ some (t', fd)
    → dup old k ≡ (record k { current = some t' }, fd)
unfolding dup dup_result
dup_in old fd k t t' c d = ground arith

-- A descriptor and its `dup` are interchangeable: every seek through the one does what it does
-- through the other, to the cursor that they share.
pub dup-shares_cursor :
    (old whence : ℕ) (offset : ℤ) (k : Kernel) (t : Table) (handle : ℕ)
    → k.current ≡ some t
    → lookup (fd_key old) t ≡ some handle
    → seek_inner (dup old k).1 offset whence (dup old k).0
      ≡ seek_inner old offset whence (dup old k).0
dup-shares_cursor old whence offset k t handle c e = elim (dup_file_handle-shares old none t) [
  | inl (e', d) ↦ cc
  | inr (handle', t', fd, e', d, l, r, fresh) ↦
      let k' : Kernel = record k { current = some t' } in
      let same : lookup (fd_key fd) t' ≡ lookup (fd_key old) t' =
        ground (arith, l (fd_key fd), l (fd_key old)) in
      rw (dup_in old fd k t t' c d) (
        seek_inner_in fd whence offset k' t' refl
        ∙ ap (λ h. seek_fd h (seek_from offset whence) k') same
        ∙ sym (seek_inner_in old whence offset k' t' refl))
]

seek_inner_at :
    (fd whence : ℕ) (offset : ℤ) (k : Kernel) (t : Table) (handle : ℕ) (f : OpenFile)
    (from : SeekFrom)
    → k.current ≡ some t
    → lookup (fd_key fd) t ≡ some handle
    → seek_from offset whence ≡ some from
    → get_elem? k.files handle ≡ some f
    → seek_inner fd offset whence k ≡ (
      record k { files = set k.files handle (seek (k.size f.inode) from f).0 },
      (seek (k.size f.inode) from f).1,
    )
unfolding seek_inner get_file_handle seek_fd seek_handle
seek_inner_at fd whence offset k t handle f from c e s g = ground arith

-- A `whence` below 3 names a position that fits the machine.
seek_from-fits :
    (size whence : ℕ) (offset : ℤ) (f : OpenFile)
    → whence < 3
    → f.cursor ≤ u64_max
    → size ≤ u64_max
    → as_u64 offset ≤ u64_max
    → (from : SeekFrom) × (seek_from offset whence ≡ some from)
      × ((seek size from f).1 ≤ u64_max)
      × ((seek size from f).0 ≡ record f { cursor = (seek size from f).1 })
unfolding seek_from seek
seek_from-fits size zero offset f w h1 h2 h3 = (start (as_u64 offset), refl, h3, refl)
seek_from-fits size (suc zero) (pos n) f w h1 h2 h3 = (current (pos n), refl, omega arith, refl)
seek_from-fits size (suc zero) (negsuc n) f w h1 h2 h3 =
    (current (negsuc n), refl, omega arith, refl)
seek_from-fits size (suc (suc zero)) (pos n) f w h1 h2 h3 = (end (pos n), refl, omega arith, refl)
seek_from-fits size (suc (suc zero)) (negsuc n) f w h1 h2 h3 =
    (end (negsuc n), refl, omega arith, refl)
seek_from-fits size (suc (suc (suc n))) offset f w h1 h2 h3 = absurd (omega arith)

tell :
    (size : ℕ) (f : OpenFile) → f.cursor ≤ u64_max → seek size (current (pos 0)) f ≡ (f, f.cursor)
unfolding seek
tell size f h = ground arith

whence_1 : seek_from (pos 0) 1 ≡ some (current (pos 0))
unfolding seek_from
whence_1 = refl

-- On an open descriptor a seek returns the new position, and asking for the position afterwards
-- returns it again and changes nothing, if the size and the offset stay in their machine types.
pub seek-then_tell :
    (fd whence : ℕ) (offset : ℤ) (k : Kernel) (t : Table) (handle : ℕ) (f : OpenFile)
    → k.current ≡ some t
    → lookup (fd_key fd) t ≡ some handle
    → get_elem? k.files handle ≡ some f
    → whence < 3
    → f.cursor ≤ u64_max
    → k.size f.inode ≤ u64_max
    → as_u64 offset ≤ u64_max
    → let r = seek_inner fd offset whence k in
      (get_elem? r.0.files handle ≡ some (record f { cursor = r.1 }))
      × (seek_inner fd (pos 0) 1 r.0 ≡ r)
seek-then_tell fd whence offset k t handle f c e g w h1 h2 h3 =
    let (from, s, fits, moved) = seek_from-fits (k.size f.inode) whence offset f w h1 h2 h3 in
    let p : ℕ = (seek (k.size f.inode) from f).1 in
    let f' : OpenFile = record f { cursor = p } in
    let k' : Kernel = record k { files = set k.files handle f' } in
    let sought : seek_inner fd offset whence k ≡ (k', p) =
      seek_inner_at fd whence offset k t handle f from c e s g
      ∙ ap (λ x. (record k { files = set k.files handle x }, p)) moved in
    let here : get_elem? k'.files handle ≡ some f' =
      get_elem?-set_self k.files handle f' (get_elem?-lt k.files handle g) in
    rw sought (
      here,
      seek_inner_at fd 1 (pos 0) k' t handle f' (current (pos 0)) c e whence_1 here
          ∙ rw (tell (k.size f.inode) f' fits, set-set_self k.files handle f' f'),
    )

-- Seeking from the start to a "negative" offset -n succeeds on any open descriptor, and returns the
-- bits of -n: the caller reads the error number n.
pub lseek-looks_like_error :
    (fd n : ℕ) (k : Kernel) (t : Table) (handle : ℕ) (f : OpenFile)
    → k.current ≡ some t
    → lookup (fd_key fd) t ≡ some handle
    → get_elem? k.files handle ≡ some f
    → 0 < n
    → n ≤ 2 ^ 63
    → lseek fd (errno n) 0 k
      ≡ (record k { files = set k.files handle (record f { cursor = errno n }) }, errno n)
unfolding lseek seek_from seek
lseek-looks_like_error fd n k t handle f c e g p q =
    ground (arith, seek_inner_at fd 0 (as_i64 (errno n)) k t handle f (start (errno n)))
