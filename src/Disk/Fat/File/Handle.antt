-- ===== src/Disk/Fat/File/Handle.antt =====
-- What `read` of a file's handle returns.
use zenos.Common.{
  ℕ, ◌+◌, ◌-◌, ◌<◌, ◌≤◌, ◌≡◌, refl, ap, ◌∙◌, min, false, List, arith, leb, if_of_true, if_of_false,
  Bool-cases, length, get_or, leb→le, inl, inr,
}
use zenos.Disk.Device.{BlockDevice, M, done, pure, ◌>>◌, then_run}
use zenos.Disk.Device.Reliable.{Disk}
use zenos.Disk.Fat.{first_cluster}
use zenos.Disk.Fat.Bpb.{Volume}
use zenos.Disk.Fat.Table.Place.{Geometry}
use zenos.Disk.Fat.File.{Held, read, keeping, set_cursor, update}
use zenos.Disk.Fat.File.Chain.{content, Stored}
use zenos.Disk.Fat.File.Reading.{read_chain-Gives}

not_leb→lt : (a b : ℕ) → leb a b ≡ false → b < a
not_leb→lt a b h = ground arith

module _ {S : Type 0} {dev : BlockDevice S} (disk : Disk dev) (v : Volume)
    (g : Geometry v disk.size) where
  -- A read returned these bytes.
  pub record Returns (offset : ℕ) (buf : List ℕ) (h h' : Held S) (count : ℕ) (filled : List ℕ)
      : Type 0 where
    pub counted : count ≡ min (length buf) (h.file.entry.file_size - offset)
    pub same_length : length filled ≡ length buf
    pub given :
        (i : ℕ)
        → i < count
        → get_or filled i 0
          ≡ content v (disk.image h.device) (first_cluster h.file.entry) (offset + i)
    pub untouched : (i : ℕ) → count ≤ i → get_or filled i 0 ≡ get_or buf i 0
    pub disk_kept : disk.image h'.device ≡ disk.image h.device
    pub entry_kept : h'.file.entry ≡ h.file.entry
    pub cursor_moved : h'.file.cursor ≡ offset + count

  abbrev finish : ℕ → ℕ × List ℕ → M (Held S) (ℕ × List ℕ)
  finish offset p = do update (set_cursor (offset + p.0)); pure (p.0, p.1)

  -- On a device that works, a read of a file whose clusters are on the disk returns, from any offset and
  -- into any buffer: it reads the bytes up to the end of the buffer or of the file, whichever comes
  -- first (none past the end of the file), they are the bytes of the file's chain of clusters at these
  -- places, the rest of the buffer, the disk and the file's entry stay, and the cursor stands behind the
  -- bytes read.
  pub read-Returns :
      (offset : ℕ) (buf : List ℕ) (h : Held S)
      → Stored v disk.size (disk.image h.device) (first_cluster h.file.entry) h.file.entry.file_size
      → (h' : Held S) × (count : ℕ) × (filled : List ℕ) × (read dev v offset buf h
          ≡ (h', done (count, filled)))
        × Returns offset buf h h' count filled
  unfolding read
  read-Returns offset buf h st = elim (Bool-cases (leb h.file.entry.file_size offset)) [
    | inl e ↦ (
      record { device = h.device; file = set_cursor offset h.file },
      0,
      buf,
      ap
          (λ (m : M (Held S) (ℕ × List ℕ)).
            m (record { device = h.device; file = set_cursor offset h.file }))
          (if_of_true _ _ e),
      record {
        counted = omega (arith, leb→le _ _ e);
        same_length = refl;
        given = λ i h. absurd (omega arith);
        untouched = λ i h. refl;
        disk_kept = refl;
        entry_kept = refl;
        cursor_moved = omega arith;
      },
    )
    | inr e ↦
        let h1 : Held S = record { device = h.device; file = set_cursor offset h.file } in
        let (count, filled, (s', e', i'), r) =
          read_chain-Gives disk v g (disk.image h.device) (first_cluster h.file.entry)
            h.file.entry.file_size st offset buf h.device refl (not_leb→lt _ _ e) in
        (
          record { device = s'; file = set_cursor (offset + count) h.file },
          count,
          filled,
          ap (λ (m : M (Held S) (ℕ × List ℕ)). m h1) (if_of_false _ _ e)
              ∙ ap (λ o. then_run (finish offset) (keeping (set_cursor offset h.file) o)) e',
          record {
            counted = r.counted;
            same_length = r.same_length;
            given = r.given;
            untouched = r.untouched;
            disk_kept = i';
            entry_kept = refl;
            cursor_moved = refl;
          },
        )
  ]
