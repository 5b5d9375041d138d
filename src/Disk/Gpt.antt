-- ===== src/Disk/Gpt.antt =====
-- The GUID partition table of zenos-kernel/src/disk/block/mod.rs: the header and its entries out of
-- the bytes of a disk.
pub mod Bytes
pub mod Laws
pub mod Reading
use Prim.Native.Nat.{bit_xor}
use zenos.Common.{
  ℕ, zero, suc, ◌+◌, ◌-◌, ◌*◌, ◌/◌, ◌%◌, Bool, true, false, ◌||◌, not, List, [], ◌∷◌, ◌++◌, Option,
  none, some, if◌then◌else◌, ltb, leb, ◌==◌, length, drop, bytes_eq,
}

pub record GptHeader : Type 0 where
  pub signature : List ℕ
  pub rev : ℕ
  pub header_size : ℕ
  pub crc : ℕ
  pub reserved : ℕ
  pub current_lba : ℕ
  pub backup_lba : ℕ
  pub first_usable_lba : ℕ
  pub last_usable_lba : ℕ
  pub disk_guid : List ℕ
  pub partition_entry_lba : ℕ
  pub num_partition_entries : ℕ
  pub size_of_partition_entry : ℕ
  pub partition_entry_array_crc32 : ℕ

pub record GptPartitionEntry : Type 0 where
  pub partition_type_guid : List ℕ
  pub unique_partition_guid : List ℕ
  pub starting_lba : ℕ
  pub ending_lba : ℕ
  pub attributes : ℕ
  pub partition_name : List ℕ

abbrev pub take : ℕ → List ℕ → List ℕ
take zero xs = []
take (suc n) [] = []
take (suc n) (x ∷ xs) = x ∷ take n xs

-- `buf.get(offset..offset + n)`.
unfoldable pub get_range : List ℕ → ℕ → ℕ → Option (List ℕ)
get_range buf offset n =
    if leb (offset + n) (length buf) then some (take n (drop offset buf)) else none

-- `from_le_bytes`.
abbrev pub from_le : List ℕ → ℕ
from_le [] = 0
from_le (b ∷ bs) = b + 256 * from_le bs

infixl 5 ◌>>=◌
abbrev pub ◌>>=◌ : {A C : Type 0} → Option A → (A → Option C) → Option C
◌>>=◌ none f = none
◌>>=◌ (some a) f = f a

abbrev pub read_le : List ℕ → ℕ → ℕ → Option ℕ
read_le buf offset n = do bytes ← get_range buf offset n; some (from_le bytes)

-- One turn of the inner loop of `crc32`, and the eight of them.
abbrev pub crc_bit : ℕ → ℕ
crc_bit crc = if crc % 2 == 0 then crc / 2 else bit_xor (crc / 2) 0xEDB88320

abbrev pub crc_bits : ℕ → ℕ → ℕ
crc_bits zero crc = crc
crc_bits (suc n) crc = crc_bits n (crc_bit crc)

unfoldable pub crc_loop : ℕ → List ℕ → ℕ
crc_loop crc [] = crc
crc_loop crc (byte ∷ bytes) = crc_loop (crc_bits 8 (bit_xor crc byte)) bytes

unfoldable pub crc32 : List ℕ → ℕ
crc32 bytes = 0xFFFFFFFF - crc_loop 0xFFFFFFFF bytes

-- "EFI PART".
abbrev pub efi_part : List ℕ
efi_part = 69 ∷ 70 ∷ 73 ∷ 32 ∷ 80 ∷ 65 ∷ 82 ∷ 84 ∷ []

-- `header_bytes[16..20].fill(0)`.
abbrev pub zero_crc : List ℕ → List ℕ
zero_crc bytes = take 16 bytes ++ (0 ∷ 0 ∷ 0 ∷ 0 ∷ drop 20 bytes)

-- The check of the sum, over the first `header_size` bytes with the field of the sum set to 0.
unfoldable pub checked : List ℕ → GptHeader → Option GptHeader
checked buf h = do
  header_bytes ← get_range buf 0 h.header_size
  if crc32 (zero_crc header_bytes) == h.crc then some h else none

unfoldable pub deserialize_header : List ℕ → Option GptHeader
deserialize_header buf =
    if ltb (length buf) 92 || not (bytes_eq (take 8 buf) efi_part) then none else (do
      signature ← get_range buf 0 8
      rev ← read_le buf 8 4
      header_size ← read_le buf 12 4
      size ← (if ltb header_size 92 || ltb (length buf) header_size then none else some header_size)
      stored_crc32 ← read_le buf 16 4
      reserved ← read_le buf 20 4
      current_lba ← read_le buf 24 8
      backup_lba ← read_le buf 32 8
      first_usable_lba ← read_le buf 40 8
      last_usable_lba ← read_le buf 48 8
      disk_guid ← get_range buf 56 16
      partition_entry_lba ← read_le buf 72 8
      num_partition_entries ← read_le buf 80 4
      size_of_partition_entry ← read_le buf 84 4
      partition_entry_array_crc32 ← read_le buf 88 4
      checked buf (record {
        signature = signature;
        rev = rev;
        header_size = size;
        crc = stored_crc32;
        reserved = reserved;
        current_lba = current_lba;
        backup_lba = backup_lba;
        first_usable_lba = first_usable_lba;
        last_usable_lba = last_usable_lba;
        disk_guid = disk_guid;
        partition_entry_lba = partition_entry_lba;
        num_partition_entries = num_partition_entries;
        size_of_partition_entry = size_of_partition_entry;
        partition_entry_array_crc32 = partition_entry_array_crc32;
      }))

-- The 36 characters of a name, two bytes each.
abbrev pub name_units : List ℕ → List ℕ
name_units [] = []
name_units (a ∷ []) = []
name_units (a ∷ b ∷ bytes) = (a + 256 * b) ∷ name_units bytes

unfoldable pub deserialize_entry : List ℕ → Option GptPartitionEntry
deserialize_entry buf = if ltb (length buf) 128 then none else (do
  partition_type_guid ← get_range buf 0 16
  unique_partition_guid ← get_range buf 16 16
  starting_lba ← read_le buf 32 8
  ending_lba ← read_le buf 40 8
  attributes ← read_le buf 48 8
  name_bytes ← get_range buf 56 72
  some (record {
    partition_type_guid = partition_type_guid;
    unique_partition_guid = unique_partition_guid;
    starting_lba = starting_lba;
    ending_lba = ending_lba;
    attributes = attributes;
    partition_name = name_units name_bytes;
  }))

-- The loop of `get_partition_entries` over the entries in the buffer that was read from the disk.
unfoldable pub entries_loop : ℕ → ℕ → List ℕ → List GptPartitionEntry
entries_loop entry_size zero buf = []
entries_loop entry_size (suc left) buf =
    let rest = entries_loop entry_size left (drop entry_size buf) in
    elim (deserialize_entry (take entry_size buf)) [ none ↦ rest | some e ↦ e ∷ rest ]
