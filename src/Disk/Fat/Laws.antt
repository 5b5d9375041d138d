-- ===== src/Disk/Fat/Laws.antt =====
-- A directory entry that is written is read back.
use zenos.Common.{
  ℕ, ◌<◌, ◌≤◌, ◌≡◌, ◌≢◌, refl, ◌∙◌, ◌||◌, List, [], ◌∷◌, ◌++◌, none, some, arith, ltb, ◌==◌, length,
  get_or, get_elem?, if_of_false,
}
use zenos.Disk.Gpt.{read_le}
use zenos.Disk.Gpt.Bytes.{concat, offset_of, to_le, byte_limit}
use zenos.Disk.Gpt.Laws.{field_read, number_read, get_range-fits}
use zenos.Disk.Fat.{
  FatDirEntry, end_mark, deleted_mark, parse, fields, serialize, first_cluster, set_first_cluster,
}

-- An entry that fits into its fields and is neither the end mark nor deleted.
pub record Fits (e : FatDirEntry) : Type 0 where
  pub name_length : length e.name ≡ 11
  pub not_end : get_or e.name 0 0 ≢ end_mark
  pub not_deleted : get_or e.name 0 0 ≢ deleted_mark
  pub attr_fits : e.attr < byte_limit 1
  pub reserved_fits : e.nt_reserved < byte_limit 1
  pub tenth_fits : e.create_time_tenth < byte_limit 1
  pub create_time_fits : e.create_time < byte_limit 2
  pub create_date_fits : e.create_date < byte_limit 2
  pub access_fits : e.last_access_date < byte_limit 2
  pub high_fits : e.first_cluster_high < byte_limit 2
  pub write_time_fits : e.write_time < byte_limit 2
  pub write_date_fits : e.write_date < byte_limit 2
  pub low_fits : e.first_cluster_low < byte_limit 2
  pub size_fits : e.file_size < byte_limit 4

get_or-front : (xs ys : List ℕ) → 0 < length xs → get_or (xs ++ ys) 0 0 ≡ get_or xs 0 0
get_or-front [] ys h = absurd (omega arith)
get_or-front (x ∷ xs) ys h = refl

-- The bytes behind the name.
abbrev tail_bytes : FatDirEntry → List ℕ
tail_bytes e = elim (fields e) [ [] ↦ [] | f ∷ fs ↦ concat fs ]

module _ (e : FatDirEntry) (f : Fits e) where
  number :
      (k offset n x : ℕ)
      → get_elem? (fields e) k ≡ some (to_le n x)
      → offset_of k (fields e) ≡ offset
      → x < byte_limit n
      → read_le (serialize e) offset n ≡ some x
  number = number_read (fields e)

  size_read : read_le (serialize e) 28 4 ≡ some e.file_size
  size_read = number 11 28 4 e.file_size refl (omega (arith, f.name_length)) f.size_fits

  long : 32 ≤ length (serialize e)
  long =
      get_range-fits (serialize e) 28 4 (
        field_read (fields e) 11 28 4 (to_le 4 e.file_size) refl (omega (arith, f.name_length))
          refl)

  parse-serialize_entry : parse (serialize e) ≡ some e
  unfolding parse
  parse-serialize_entry =
      if_of_false
        {b = ltb (length (serialize e)) 32
          || get_or (serialize e) 0 0 == end_mark
          || get_or (serialize e) 0 0 == deleted_mark}
        none _
        (ground (
          arith,
          long,
          f.not_end,
          f.not_deleted,
          get_or-front e.name (tail_bytes e) (omega (arith, f.name_length)),
        ))
      ∙ rw
          (
            field_read (fields e) 0 0 11 e.name refl refl f.name_length,
            number 1 11 1 e.attr refl (omega (arith, f.name_length)) f.attr_fits,
            number 2 12 1 e.nt_reserved refl (omega (arith, f.name_length)) f.reserved_fits,
            number 3 13 1 e.create_time_tenth refl (omega (arith, f.name_length)) f.tenth_fits,
            number 4 14 2 e.create_time refl (omega (arith, f.name_length)) f.create_time_fits,
            number 5 16 2 e.create_date refl (omega (arith, f.name_length)) f.create_date_fits,
            number 6 18 2 e.last_access_date refl (omega (arith, f.name_length)) f.access_fits,
            number 7 20 2 e.first_cluster_high refl (omega (arith, f.name_length)) f.high_fits,
            number 8 22 2 e.write_time refl (omega (arith, f.name_length)) f.write_time_fits,
            number 9 24 2 e.write_date refl (omega (arith, f.name_length)) f.write_date_fits,
            number 10 26 2 e.first_cluster_low refl (omega (arith, f.name_length)) f.low_fits,
            size_read,
          )
          refl

-- A directory entry whose fields fit their places and whose name begins neither with the mark of
-- the end nor with that of a deleted entry, given a first cluster of 32 bits and written, is read back
-- as it was, and its first cluster is the one given.
pub parse-serialize :
    (cluster : ℕ) (e : FatDirEntry)
    → Fits e
    → cluster < 4294967296
    → (parse (serialize (set_first_cluster cluster e)) ≡ some (set_first_cluster cluster e))
      × (first_cluster (set_first_cluster cluster e) ≡ cluster)
parse-serialize cluster e f h = (
  parse-serialize_entry (set_first_cluster cluster e) (record {
    name_length = f.name_length;
    not_end = f.not_end;
    not_deleted = f.not_deleted;
    attr_fits = f.attr_fits;
    reserved_fits = f.reserved_fits;
    tenth_fits = f.tenth_fits;
    create_time_fits = f.create_time_fits;
    create_date_fits = f.create_date_fits;
    access_fits = f.access_fits;
    high_fits = omega arith;
    write_time_fits = f.write_time_fits;
    write_date_fits = f.write_date_fits;
    low_fits = omega arith;
    size_fits = f.size_fits;
  }),
  omega arith,
)
