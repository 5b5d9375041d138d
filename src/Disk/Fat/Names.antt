-- ===== src/Disk/Fat/Names.antt =====
-- The 8.3 names of zenos-kernel/src/disk/fs/fat/plumbing.rs: `short_name` and `name_to_8_3`. A text is
-- the list of its characters. The upper case of a text is the standard library's, a parameter.
pub mod Laws
use zenos.Common.{
  ℕ, ◌+◌, ◌%◌, Bool, true, false, ◌&&◌, ◌||◌, List, [], ◌∷◌, ◌++◌, map, Option, none, some, ltb,
  leb, if◌then◌else◌, ◌==◌, drop, repeat, is_empty,
}
use zenos.Disk.Gpt.{take}
use zenos.Disk.Fat.{FatDirEntry}
use zenos.Disk.Fat.File.{copy_into}

-- The characters up to 255 that are white space.
abbrev pub is_white : ℕ → Bool
is_white c = (leb 9 c && leb c 13) || c == 32 || c == 0x85 || c == 0xA0

abbrev pub trim_step : ℕ → List ℕ → List ℕ
trim_step c [] = if is_white c then [] else c ∷ []
trim_step c (x ∷ xs) = c ∷ x ∷ xs

unfoldable pub trim_end : List ℕ → List ℕ
trim_end [] = []
trim_end (c ∷ cs) = trim_step c (trim_end cs)

abbrev pub dot : ℕ
dot = 46

abbrev pub with_ext : List ℕ → List ℕ → List ℕ
with_ext name_part ext_part = if is_empty ext_part then name_part else name_part ++ (dot ∷ ext_part)

-- A byte as a character is itself.
unfoldable pub short_name : FatDirEntry → List ℕ
unfolding trim_end
short_name e = with_ext (trim_end (take 8 e.name)) (trim_end (take 3 (drop 8 e.name)))

abbrev pub put_front : ℕ → List ℕ → Option (List ℕ × List ℕ) → Option (List ℕ × List ℕ)
put_front c cs (some (base, ext)) = some (c ∷ base, ext)
put_front c cs none = if c == dot then some ([], cs) else none

-- What stands before the last dot and after it.
unfoldable pub split_last_dot : List ℕ → Option (List ℕ × List ℕ)
split_last_dot [] = none
split_last_dot (c ∷ cs) = put_front c cs (split_last_dot cs)

abbrev pub base_and_ext : List ℕ → Option (List ℕ × List ℕ) → List ℕ × List ℕ
base_and_ext upper (some p) = p
base_and_ext upper none = (upper, [])

-- `c as u8`.
abbrev pub as_u8 : ℕ → ℕ
as_u8 c = c % 256

abbrev pub pad_8_3 : List ℕ × List ℕ → List ℕ
pad_8_3 (base, ext) =
    copy_into (copy_into (repeat 11 0x20) 0 (map as_u8 (take 8 base))) 8 (map as_u8 (take 3 ext))

module _ (to_uppercase : List ℕ → List ℕ) where
  unfoldable pub name_to_8_3 : List ℕ → List ℕ
  unfolding split_last_dot
  name_to_8_3 name = pad_8_3 (base_and_ext (to_uppercase name) (split_last_dot (to_uppercase name)))
