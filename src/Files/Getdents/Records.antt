-- ===== src/Files/Getdents/Records.antt =====
-- The records that `getdents64` (zenos-kernel/src/syscall/getdents.rs) makes of entries, by what they say.
use zenos.Common.{
  ℕ, zero, suc, ◌+◌, ◌-◌, ◌*◌, ◌/◌, ◌%◌, min, repeat, ◌≡◌, refl, ap, ◌∙◌, List, [], ◌∷◌, ◌++◌,
  length, arith,
}
use zenos.Files.Getdents.{
  DirEntry, LinuxDirent64, reclen, name_field, filetype_to_dtype, linux_dent,
}
use zenos.Files.Getdents.Packing.{pack, packed_size}

-- The bytes of an entry's record: 19 for its fields, its name of at most 255 bytes with a zero behind
-- it, filled up to a multiple of 8.
abbrev pub record_size : DirEntry → ℕ
record_size d = (min (length d.name) 255 + 27) / 8 * 8

abbrev pub take : ℕ → List ℕ → List ℕ
take zero bs = []
take (suc n) [] = []
take (suc n) (b ∷ bs) = b ∷ take n bs

-- The record of an entry, by what it says: where the next entry is in the directory, its own size, and
-- the first 255 bytes of the name with zeros behind them.
abbrev pub record_of : DirEntry → ℕ → LinuxDirent64
record_of d offset = record {
  d_ino = d.ino;
  d_off = offset + 1;
  d_reclen = record_size d;
  d_type = filetype_to_dtype d.file_type;
  d_name = (take 255 d.name ++ repeat (255 - length d.name) 0) ++ (0 ∷ []);
}

-- The records of the first `n` entries, each where the one before ends, and the bytes they take.
abbrev pub laid_out : ℕ → ℕ → ℕ → List DirEntry → List (ℕ × LinuxDirent64)
laid_out zero addr offset ds = []
laid_out (suc n) addr offset [] = []
laid_out (suc n) addr offset (d ∷ ds) =
    (addr, record_of d offset) ∷ laid_out n (addr + record_size d) (offset + 1) ds

abbrev pub laid_size : ℕ → List DirEntry → ℕ
laid_size zero ds = 0
laid_size (suc n) [] = 0
laid_size (suc n) (d ∷ ds) = record_size d + laid_size n ds

pub reclen-record_size : (d : DirEntry) → reclen d ≡ record_size d
reclen-record_size d = omega arith

name_field-take :
    (room : ℕ) (name : List ℕ)
    → name_field room name ≡ take room name ++ repeat (room - length name) 0
name_field-take zero [] = refl
name_field-take zero (b ∷ name) =
    ap (λ n. repeat n 0) (let e : 0 ≡ 0 - suc (length name) = omega arith in e)
name_field-take (suc room) [] =
    ap (◌∷◌ 0) (name_field-take room [] ∙ nothing room)
    ∙ ap (λ n. repeat n 0) (let e : suc room ≡ suc room - 0 = omega arith in e)
  where
    nothing : (n : ℕ) → take n [] ++ repeat (n - 0) 0 ≡ repeat n 0
    nothing zero = refl
    nothing (suc n) = ap (λ m. repeat m 0) (let e : suc n - 0 ≡ suc n = omega arith in e)
name_field-take (suc room) (b ∷ name) = ap (◌∷◌ b) (
    name_field-take room name
    ∙ ap (λ n. take room name ++ repeat n 0)
        (let e : room - length name ≡ suc room - suc (length name) = omega arith in e))

linux_dent-record_of : (d : DirEntry) (offset : ℕ) → linux_dent d offset ≡ record_of d offset
linux_dent-record_of d offset =
    let r : reclen d % 65536 ≡ record_size d = omega arith in
    let n = name_field-take 255 d.name in
    λ i. record {
      d_ino = d.ino;
      d_off = offset + 1;
      d_reclen = r i;
      d_type = filetype_to_dtype d.file_type;
      d_name = n i ++ (0 ∷ []);
    }

pub pack-laid_out :
    (n addr offset : ℕ) (ds : List DirEntry) → pack n addr offset ds ≡ laid_out n addr offset ds
pack-laid_out zero addr offset ds = refl
pack-laid_out (suc n) addr offset [] = refl
pack-laid_out (suc n) addr offset (d ∷ ds) =
    ap (λ l. (addr, l) ∷ pack n (addr + reclen d) (offset + 1) ds) (linux_dent-record_of d offset)
    ∙ ap (λ a. (addr, record_of d offset) ∷ pack n (addr + a) (offset + 1) ds)
        (reclen-record_size d)
    ∙ ap (λ l. (addr, record_of d offset) ∷ l)
        (pack-laid_out n (addr + record_size d) (offset + 1) ds)

pub packed_size-laid_size : (n : ℕ) (ds : List DirEntry) → packed_size n ds ≡ laid_size n ds
packed_size-laid_size zero ds = refl
packed_size-laid_size (suc n) [] = refl
packed_size-laid_size (suc n) (d ∷ ds) =
    omega (arith, reclen-record_size d, packed_size-laid_size n ds)
