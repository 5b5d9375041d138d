-- ===== src/Files/Getdents/Packing.antt =====
-- What the loop of `getdents64` (zenos-kernel/src/syscall/getdents.rs) copies, and why it ends.
use zenos.Common.{
  ℕ, zero, suc, ◌+◌, ◌≤◌, ◌<◌, ◌≡◌, ◌⊎◌, inl, inr, refl, sym, ap, ◌∙◌, max, Bool, true, false, List,
  [], ◌∷◌, ◌++◌, some, ltb, length, get_elem?, arith, if_cases, append_assoc, ltb→lt, not_ltb→le,
  if_of_true, if_of_false,
}
use mathlib.Core.List.{append-nil}
use zenos.Files.Getdents.{
  DirEntry, LinuxDirent64, dirent_size, reclen, linux_dent, Progress, advance, dents_loop, begin,
}

-- The first `n` entries of a directory, packed one behind the other.
abbrev pub pack : ℕ → ℕ → ℕ → List DirEntry → List (ℕ × LinuxDirent64)
pack zero addr offset ds = []
pack (suc n) addr offset [] = []
pack (suc n) addr offset (d ∷ ds) =
    (addr, linux_dent d offset) ∷ pack n (addr + reclen d) (offset + 1) ds

-- The bytes they take.
abbrev pub packed_size : ℕ → List DirEntry → ℕ
packed_size zero ds = 0
packed_size (suc n) [] = 0
packed_size (suc n) (d ∷ ds) = reclen d + packed_size n ds

-- Why the loop ended before entry `n`: there is none, it does not fit, or its copy failed.
abbrev pub Ends : (ℕ → Bool) → ℕ → ℕ → List DirEntry → Bool × Progress → Type 0
Ends mapped buf_size n ds r =
    ((r.0 ≡ true) × (length ds ≤ n))
    ⊎ ((d : DirEntry) × ((get_elem? ds n ≡ some d)
          × (((r.0 ≡ true) × (buf_size < r.1.bytes_written + reclen d))
              ⊎ ((r.0 ≡ false) × (mapped r.1.user_buf ≡ false)))))

-- From `p` on the loop copies the first `n` entries behind each other.
pub record Packs (mapped : ℕ → Bool) (buf_size : ℕ) (ds : List DirEntry) (p : Progress)
    (r : Bool × Progress) : Type 0 where
  pub count : ℕ
  pub few : count ≤ length ds
  pub copies : r.1.copied ≡ p.copied ++ pack count p.user_buf p.offset ds
  pub place : r.1.user_buf ≡ p.user_buf + packed_size count ds
  pub resumes : r.1.offset ≡ p.offset + count
  pub bytes : r.1.bytes_written ≡ p.bytes_written + packed_size count ds
  pub fits : r.1.bytes_written ≤ max p.bytes_written buf_size
  pub ends : Ends mapped buf_size count ds r

-- The loop ends before entry `d`.
stopped :
    (mapped : ℕ → Bool) (buf_size : ℕ) (d : DirEntry) (ds : List DirEntry) (p : Progress) (b : Bool)
    → ((b ≡ true) × (buf_size < p.bytes_written + reclen d))
      ⊎ ((b ≡ false) × (mapped p.user_buf ≡ false))
    → Packs mapped buf_size (d ∷ ds) p (b, p)
stopped mapped buf_size d ds p b h = record {
  count = 0;
  few = omega arith;
  copies = sym (append-nil p.copied);
  place = omega arith;
  resumes = omega arith;
  bytes = omega arith;
  fits = omega arith;
  ends = inr (d, (refl, h));
}

-- Entry `d` is copied and the loop goes on.
copied_one :
    (mapped : ℕ → Bool) (buf_size : ℕ) (d : DirEntry) (ds : List DirEntry) (p : Progress)
    (r : Bool × Progress)
    → p.bytes_written + reclen d ≤ buf_size
    → Packs mapped buf_size ds (advance d p) r
    → Packs mapped buf_size (d ∷ ds) p r
copied_one mapped buf_size d ds p r room t = record {
  count = suc t.count;
  few = omega (arith, t.few);
  copies =
      t.copies
      ∙ append_assoc p.copied ((p.user_buf, linux_dent d p.offset) ∷ [])
          (pack t.count (p.user_buf + reclen d) (p.offset + 1) ds);
  place = omega (arith, t.place);
  resumes = omega (arith, t.resumes);
  bytes = omega (arith, t.bytes);
  fits = omega (arith, t.fits, room);
  ends = lift t.ends;
}
  where
    lift : Ends mapped buf_size t.count ds r → Ends mapped buf_size (suc t.count) (d ∷ ds) r
    lift (inl h) = inl (h.0, omega (arith, h.1))
    lift (inr h) = inr h

-- The loop packs entries behind each other, and ends with the last one, at one that does not fit, or
-- where the caller's memory is not mapped.
pub dents_loop-Packs :
    (mapped : ℕ → Bool) (buf_size : ℕ) (ds : List DirEntry) (p : Progress)
    → Packs mapped buf_size ds p (dents_loop mapped buf_size ds p)
unfolding dents_loop
dents_loop-Packs mapped buf_size [] p = record {
  count = 0;
  few = omega arith;
  copies = sym (append-nil p.copied);
  place = omega arith;
  resumes = omega arith;
  bytes = omega arith;
  fits = omega arith;
  ends = inl (refl, omega arith);
}
dents_loop-Packs mapped buf_size (d ∷ ds) p =
    if_cases (Packs mapped buf_size (d ∷ ds) p) (ltb buf_size (p.bytes_written + reclen d))
      (λ e.
        stopped mapped buf_size d ds p true
          (inl (refl, ltb→lt buf_size (p.bytes_written + reclen d) e)))
      (λ e.
        if_cases (Packs mapped buf_size (d ∷ ds) p) (mapped p.user_buf)
          (λ m.
            copied_one mapped buf_size d ds p _ (not_ltb→le buf_size (p.bytes_written + reclen d) e)
              (dents_loop-Packs mapped buf_size ds (advance d p)))
          (λ m. stopped mapped buf_size d ds p false (inr (refl, m))))

-- Each copy writes a whole `LinuxDirent64`: where an entry fits into a buffer of less than 280 bytes by
-- its own length, the first copy goes past the end of the caller's buffer.
dents_loop-overruns :
    (mapped : ℕ → Bool) (buf_size user_buf offset : ℕ) (d : DirEntry) (ds : List DirEntry)
    → reclen d ≤ buf_size
    → buf_size < dirent_size
    → mapped user_buf ≡ true
    → (dent : LinuxDirent64) × ((get_elem?
            (dents_loop mapped buf_size (d ∷ ds) (begin user_buf offset)).1.copied
            0
          ≡ some (user_buf, dent))
        × (user_buf + buf_size < user_buf + dirent_size))
unfolding dents_loop
dents_loop-overruns mapped buf_size user_buf offset d ds fits small m = (
  linux_dent d offset,
  (
    ap (λ (r : Bool × Progress). get_elem? r.1.copied 0)
          (if_of_false {b = ltb buf_size (0 + reclen d)} _ _ (ground arith)
            ∙ if_of_true {b = mapped user_buf} _ _ m)
        ∙ ap (λ l. get_elem? l 0)
            (dents_loop-Packs mapped buf_size ds (advance d (begin user_buf offset))).copies,
    omega arith,
  ),
)
