-- ===== src/Files/OpenFile/Laws.antt =====
-- What `seek`, `read` and `write` of zenos-kernel/src/disk/vfs.rs do to the cursor, and whom they let in.
use zenos.Common.{
  ℕ, suc, ◌+◌, ◌%◌, ◌≤◌, ◌<◌, ◌≡◌, refl, arith, pos, negsuc, u64_max, u64_size, length, Bool-cases,
  inl, inr, true, false, List, bit_or, ◌⊎◌,
}
use zenos.Vfs.Error.{Result, ok, err, permission_denied}
use zenos.Vfs.Open.{contains, owner_read, owner_write}
use zenos.Files.OpenFile.{
  OpenFile, current, offset_from, seek, Device, read, write, advance, synced, read_done, write_done,
  may_read, may_write, write_only, read_write,
}

-- Seeking forward by `d` and back by `d` from the current position ends where it began, unless the
-- position would pass `u64::MAX`; seeking back never passes the start.
pub seek_there_and_back :
    (size d : ℕ) (f : OpenFile)
    → f.cursor + suc d ≤ u64_max
    → (seek size (current (negsuc d)) (seek size (current (pos (suc d))) f).0 ≡ (f, f.cursor))
      × ((seek size (current (negsuc d)) f).1 ≤ f.cursor)
unfolding seek offset_from
seek_there_and_back size d f h = ground arith

module _ (D : Device) where
  open D use {World, perms, read_data, write_data, sync}

  synced-file :
      {A : Type 0} (a : A) (f : OpenFile) (r : Result (Unit {0}) × World) → (synced D a f r).1 ≡ f
  unfolding synced
  synced-file a f (ok _, w) = refl
  synced-file a f (err e, w) = refl

  -- The bytes that a call moved, by what the device said of them.
  abbrev pub bytes_read : Result (List ℕ) × World → ℕ
  bytes_read (ok bytes, w) = length bytes
  bytes_read (err e, w) = 0

  abbrev pub bytes_written : Result ℕ × World → ℕ
  bytes_written (ok n, w) = n
  bytes_written (err e, w) = 0

  read_done-cursor :
      (f : OpenFile) (r : Result (List ℕ) × World)
      → f.cursor < u64_size
      → (read_done D f r).1 ≡ record f { cursor = (f.cursor + bytes_read r) % u64_size }
  unfolding read_done advance
  read_done-cursor f (ok bytes, w) h = synced-file bytes _ _
  read_done-cursor f (err e, w) h = ground arith

  write_done-cursor :
      (f : OpenFile) (r : Result ℕ × World)
      → f.cursor < u64_size
      → (write_done D f r).1 ≡ record f { cursor = (f.cursor + bytes_written r) % u64_size }
  unfolding write_done advance
  write_done-cursor f (ok n, w) h = synced-file n _ _
  write_done-cursor f (err e, w) h = ground arith

  -- A read is refused, with nothing done, only to a handle not opened `READ_WRITE` on a file whose
  -- owner may not read it. Else it moves the cursor by the bytes that the device read (modulo
  -- 2 ^ 64), also where the closing `sync` fails, and changes nothing else of the handle.
  pub read-cursor :
      (len : ℕ) (f : OpenFile) (w : World)
      → f.cursor < u64_size
      → ((contains f.options read_write ≡ false)
          × (contains (perms f.inode w) owner_read ≡ false)
          × (read D len f w ≡ (err permission_denied, f, w)))
        ⊎ ((read D len f w).1 ≡ record f {
          cursor = (f.cursor + bytes_read (read_data f.inode f.cursor len w)) % u64_size;
        })
  unfolding read may_read
  read-cursor len f w h = elim (Bool-cases (may_read D f w)) [
    | inl e ↦ inr (rw (e, read) (read_done-cursor f (read_data f.inode f.cursor len w) h))
    | inr e ↦ inl (ground arith, ground arith, rw (e, read))
  ]

  -- A write is refused, with nothing done, only to a handle not opened with both `WRITE_ONLY` and
  -- `READ_WRITE` on a file whose owner may not write it. Else it moves the cursor by the bytes that
  -- the device wrote (modulo 2 ^ 64), also where the closing `sync` fails, and changes nothing else
  -- of the handle.
  pub write-cursor :
      (bytes : List ℕ) (f : OpenFile) (w : World)
      → f.cursor < u64_size
      → ((contains f.options (bit_or write_only read_write) ≡ false)
          × (contains (perms f.inode w) owner_write ≡ false)
          × (write D bytes f w ≡ (err permission_denied, f, w)))
        ⊎ ((write D bytes f w).1 ≡ record f {
          cursor = (f.cursor + bytes_written (write_data f.inode f.cursor bytes w)) % u64_size;
        })
  unfolding write may_write
  write-cursor bytes f w h = elim (Bool-cases (may_write D f w)) [
    | inl e ↦ inr (rw (e, write) (write_done-cursor f (write_data f.inode f.cursor bytes w) h))
    | inr e ↦ inl (ground arith, ground arith, rw (e, write))
  ]

  -- The same outcome on a handle opened with another mode.
  abbrev pub with_mode : ℕ → Result ℕ × OpenFile × World → Result ℕ × OpenFile × World
  with_mode mode (r, f, w) = (r, record f { options = mode }, w)

  synced-with_mode :
      (n mode : ℕ) (f : OpenFile) (r : Result (Unit {0}) × World)
      → synced D n (record f { options = mode }) r ≡ with_mode mode (synced D n f r)
  unfolding synced
  synced-with_mode n mode f (ok _, w) = refl
  synced-with_mode n mode f (err e, w) = refl

  write_done-with_mode :
      (mode : ℕ) (f : OpenFile) (r : Result ℕ × World)
      → write_done D (record f { options = mode }) r ≡ with_mode mode (write_done D f r)
  unfolding write_done advance
  write_done-with_mode mode f (ok n, w) = synced-with_mode n mode _ _
  write_done-with_mode mode f (err e, w) = refl

  -- On a file that its owner may write, a write does the same whatever the handle was opened as,
  -- `READ_ONLY` included.
  pub write-ignores_mode :
      (bytes : List ℕ) (f : OpenFile) (mode : ℕ) (w : World)
      → contains (perms f.inode w) owner_write ≡ true
      → write D bytes (record f { options = mode }) w ≡ with_mode mode (write D bytes f w)
  unfolding write may_write
  write-ignores_mode bytes f mode w h =
      rw (may_write_owner f w h, may_write_owner (record f { options = mode }) w h, write)
        (write_done-with_mode mode f (write_data f.inode f.cursor bytes w))
    where
      may_write_owner :
          (g : OpenFile) (v : World)
          → contains (perms g.inode v) owner_write ≡ true
          → may_write D g v ≡ true
      may_write_owner g v e = ground arith
