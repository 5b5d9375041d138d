-- ===== src/Disk/Gpt/Laws.antt =====
-- A header written as the UEFI specification lays it out is read back.
use zenos.Common.{
  ℕ, ◌+◌, ◌<◌, ◌≤◌, ◌≡◌, refl, sym, ap, subst, ◌∙◌, true, ◌||◌, not, List, [], ◌∷◌, Option, none,
  some, arith, length, get_elem?, if_of_true, if_of_false, if_cases, ==_refl, leb→le, le→leb,
  le→not_ltb, if◌then◌else◌, ltb, leb, ◌==◌, bytes_eq,
}
use zenos.Disk.Gpt.{
  GptHeader, GptPartitionEntry, take, get_range, read_le, from_le, efi_part, zero_crc, crc32,
  checked, deserialize_header, deserialize_entry, name_units, ◌>>=◌,
}
use zenos.Disk.Gpt.Bytes.{
  concat, offset_of, get_range-field, to_le, length-to_le, byte_limit, from_le-to_le,
}

-- The fields of an entry as they lie on the disk, the name as it stands there, and what follows.
abbrev pub entry_fields : GptPartitionEntry → List ℕ → List ℕ → List (List ℕ)
entry_fields e name_bytes rest =
    e.partition_type_guid
    ∷ e.unique_partition_guid
    ∷ to_le 8 e.starting_lba
    ∷ to_le 8 e.ending_lba
    ∷ to_le 8 e.attributes
    ∷ name_bytes
    ∷ rest
    ∷ []

pub get_range-fits :
    (buf : List ℕ) (offset n : ℕ) {f : List ℕ}
    → get_range buf offset n ≡ some f
    → offset + n ≤ length buf
unfolding get_range
get_range-fits buf offset n {f = f} =
    if_cases (λ r. r ≡ some f → offset + n ≤ length buf) (leb (offset + n) (length buf))
      (λ e h. leb→le (offset + n) (length buf) e) (λ e h. cc)

-- An entry that fits into its fields, with the 72 bytes of its name.
pub record EntryFits (e : GptPartitionEntry) (name_bytes : List ℕ) : Type 0 where
  pub type_length : length e.partition_type_guid ≡ 16
  pub unique_length : length e.unique_partition_guid ≡ 16
  pub starting_fits : e.starting_lba < byte_limit 8
  pub ending_fits : e.ending_lba < byte_limit 8
  pub attributes_fit : e.attributes < byte_limit 8
  pub name_length : length name_bytes ≡ 72
  pub name_is : name_units name_bytes ≡ e.partition_name

pub field_read :
    (fs : List (List ℕ)) (k offset n : ℕ) (f : List ℕ)
    → get_elem? fs k ≡ some f
    → offset_of k fs ≡ offset
    → length f ≡ n
    → get_range (concat fs) offset n ≡ some f
field_read fs k offset n f e o l =
    subst (λ m. get_range (concat fs) offset m ≡ some f) l
      (subst (λ m. get_range (concat fs) m (length f) ≡ some f) o (get_range-field fs k f e))

pub number_read :
    (fs : List (List ℕ)) (k offset n x : ℕ)
    → get_elem? fs k ≡ some (to_le n x)
    → offset_of k fs ≡ offset
    → x < byte_limit n
    → read_le (concat fs) offset n ≡ some x
number_read fs k offset n x e o h =
    ap (λ o. o >>= (λ bytes. some (from_le bytes)))
      (field_read fs k offset n (to_le n x) e o (length-to_le n x))
    ∙ ap some (from_le-to_le n x h)

module _ (e : GptPartitionEntry) (name_bytes rest : List ℕ) (fits : EntryFits e name_bytes) where
  abbrev fields : List (List ℕ)
  fields = entry_fields e name_bytes rest

  type_read : get_range (concat fields) 0 16 ≡ some e.partition_type_guid
  type_read = field_read fields 0 0 16 e.partition_type_guid refl refl fits.type_length

  unique_read : get_range (concat fields) 16 16 ≡ some e.unique_partition_guid
  unique_read =
      field_read fields 1 16 16 e.unique_partition_guid refl (omega (arith, fits.type_length))
        fits.unique_length

  starting_read : read_le (concat fields) 32 8 ≡ some e.starting_lba
  starting_read =
      number_read fields 2 32 8 e.starting_lba refl
        (omega (arith, fits.type_length, fits.unique_length)) fits.starting_fits

  ending_read : read_le (concat fields) 40 8 ≡ some e.ending_lba
  ending_read =
      number_read fields 3 40 8 e.ending_lba refl
        (omega (arith, fits.type_length, fits.unique_length)) fits.ending_fits

  attributes_read : read_le (concat fields) 48 8 ≡ some e.attributes
  attributes_read =
      number_read fields 4 48 8 e.attributes refl
        (omega (arith, fits.type_length, fits.unique_length)) fits.attributes_fit

  name_read : get_range (concat fields) 56 72 ≡ some name_bytes
  name_read =
      field_read fields 5 56 72 name_bytes refl
        (omega (arith, fits.type_length, fits.unique_length)) fits.name_length

  long : 128 ≤ length (concat fields)
  long = get_range-fits (concat fields) 56 72 name_read

  -- An entry of the partition table, written field by field as the specification lays it out, is read
  -- back whole, whatever follows it.
  pub deserialize_entry-fields : deserialize_entry (concat fields) ≡ some e
  unfolding deserialize_entry
  deserialize_entry-fields =
      if_of_false {b = ltb (length (concat fields)) 128} none _
        (le→not_ltb (length (concat fields)) 128 long)
      ∙ rw (type_read, unique_read, starting_read, ending_read, attributes_read, name_read)
          (ap some (ap (λ n. record e { partition_name = n }) fits.name_is))

-- A header as it lies on the disk, and what follows it.
abbrev pub header_fields : GptHeader → List ℕ → List (List ℕ)
header_fields h rest =
    efi_part
    ∷ to_le 4 h.rev
    ∷ to_le 4 h.header_size
    ∷ to_le 4 h.crc
    ∷ to_le 4 h.reserved
    ∷ to_le 8 h.current_lba
    ∷ to_le 8 h.backup_lba
    ∷ to_le 8 h.first_usable_lba
    ∷ to_le 8 h.last_usable_lba
    ∷ h.disk_guid
    ∷ to_le 8 h.partition_entry_lba
    ∷ to_le 4 h.num_partition_entries
    ∷ to_le 4 h.size_of_partition_entry
    ∷ to_le 4 h.partition_entry_array_crc32
    ∷ rest
    ∷ []

-- A header that fits into its fields, whose size is that of its bytes or less, and whose sum is right.
pub record HeaderFits (h : GptHeader) (rest : List ℕ) : Type 0 where
  pub signature_is : h.signature ≡ efi_part
  pub rev_fits : h.rev < byte_limit 4
  pub size_fits : h.header_size < byte_limit 4
  pub crc_fits : h.crc < byte_limit 4
  pub reserved_fits : h.reserved < byte_limit 4
  pub current_fits : h.current_lba < byte_limit 8
  pub backup_fits : h.backup_lba < byte_limit 8
  pub first_fits : h.first_usable_lba < byte_limit 8
  pub last_fits : h.last_usable_lba < byte_limit 8
  pub guid_length : length h.disk_guid ≡ 16
  pub entries_fit : h.partition_entry_lba < byte_limit 8
  pub count_fits : h.num_partition_entries < byte_limit 4
  pub entry_fits : h.size_of_partition_entry < byte_limit 4
  pub array_fits : h.partition_entry_array_crc32 < byte_limit 4
  pub size_low : 92 ≤ h.header_size
  pub size_high : h.header_size ≤ length (concat (header_fields h rest))
  pub sum_right : crc32 (zero_crc (take h.header_size (concat (header_fields h rest)))) ≡ h.crc

module _ (h : GptHeader) (rest : List ℕ) (fits : HeaderFits h rest) where
  abbrev bytes : List ℕ
  bytes = concat (header_fields h rest)

  signature_read : get_range bytes 0 8 ≡ some h.signature
  signature_read =
      field_read (header_fields h rest) 0 0 8 efi_part refl refl refl
      ∙ ap some (sym fits.signature_is)

  guid_read : get_range bytes 56 16 ≡ some h.disk_guid
  guid_read = field_read (header_fields h rest) 9 56 16 h.disk_guid refl refl fits.guid_length

  number :
      (k offset n x : ℕ)
      → get_elem? (header_fields h rest) k ≡ some (to_le n x)
      → offset_of k (header_fields h rest) ≡ offset
      → x < byte_limit n
      → read_le bytes offset n ≡ some x
  number = number_read (header_fields h rest)

  checked-some : checked bytes h ≡ some h
  unfolding checked get_range
  checked-some =
      ap
        (λ (o : Option (List ℕ)). o >>= (λ b. if crc32 (zero_crc b) == h.crc then some h else none))
        (if_of_true {b = leb (0 + h.header_size) (length bytes)} (some (take h.header_size bytes))
          none (le→leb (0 + h.header_size) (length bytes) (omega (arith, fits.size_high))))
      ∙ if_of_true {b = crc32 (zero_crc (take h.header_size bytes)) == h.crc} (some h) none (
          subst (λ c. (crc32 (zero_crc (take h.header_size bytes)) == c) ≡ true) fits.sum_right
            (==_refl (crc32 (zero_crc (take h.header_size bytes)))))

  -- The header of a partition table, written field by field as the specification lays it out and with
  -- the right sum, is read back whole, whatever follows it.
  pub deserialize_header-fields : deserialize_header bytes ≡ some h
  unfolding deserialize_header
  deserialize_header-fields =
      if_of_false {b = ltb (length bytes) 92 || not (bytes_eq (take 8 bytes) efi_part)} none _
        (ground (arith, fits.size_low, fits.size_high))
      ∙ rw
          (
            signature_read,
            number 1 8 4 h.rev refl refl fits.rev_fits,
            number 2 12 4 h.header_size refl refl fits.size_fits,
            if_of_false {b = ltb h.header_size 92 || ltb (length bytes) h.header_size} none
                (some h.header_size) (ground (arith, fits.size_low, fits.size_high)),
            number 3 16 4 h.crc refl refl fits.crc_fits,
            number 4 20 4 h.reserved refl refl fits.reserved_fits,
            number 5 24 8 h.current_lba refl refl fits.current_fits,
            number 6 32 8 h.backup_lba refl refl fits.backup_fits,
            number 7 40 8 h.first_usable_lba refl refl fits.first_fits,
            number 8 48 8 h.last_usable_lba refl refl fits.last_fits,
            guid_read,
            number 10 72 8 h.partition_entry_lba refl (omega (arith, fits.guid_length))
                fits.entries_fit,
            number 11 80 4 h.num_partition_entries refl (omega (arith, fits.guid_length))
                fits.count_fits,
            number 12 84 4 h.size_of_partition_entry refl (omega (arith, fits.guid_length))
                fits.entry_fits,
            number 13 88 4 h.partition_entry_array_crc32 refl (omega (arith, fits.guid_length))
                fits.array_fits,
          )
          checked-some
