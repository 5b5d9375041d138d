-- ===== src/Vfs/Mounts.antt =====
-- The mount table of zenos-kernel/src/disk/vfs.rs: `VFS`, `mount`, `unmount`, `get_fs`, `path_to_fs`.
-- A file system is a value of any type `F`; the `BTreeMap` is the list of its entries in key order.
pub mod Laws
use zenos.Common.{
  ℕ, Bool, true, false, List, [], ◌∷◌, Option, none, some, if◌then◌else◌, ltb, bytes_eq, bytes_lt,
  starts_with, length,
}
use zenos.Vfs.Error.{Result, ok, err, FileError, already_exists, not_found}
use zenos.Vfs.Path.{normalize_path}

abbrev pub FsMap : Type 0 → Type 0
FsMap F = List (List ℕ × F)

module _ {F : Type 0} where
  -- `BTreeMap::get`, `contains_key`, `insert` and `remove`.
  pub get_fs : List ℕ → FsMap F → Option F
  get_fs k [] = none
  get_fs k ((j, f) ∷ m) = if bytes_eq j k then some f else get_fs k m

  pub contains_key : List ℕ → FsMap F → Bool
  contains_key k [] = false
  contains_key k ((j, f) ∷ m) = if bytes_eq j k then true else contains_key k m

  insert : List ℕ → F → FsMap F → FsMap F
  insert k f [] = (k, f) ∷ []
  insert k f ((j, g) ∷ m) =
      if bytes_eq j k
      then (k, f) ∷ m
      else if bytes_lt k j
      then (k, f) ∷ (j, g) ∷ m
      else (j, g) ∷ insert k f m

  remove : List ℕ → FsMap F → FsMap F
  remove k [] = []
  remove k ((j, g) ∷ m) = let rest = remove k m in if bytes_eq j k then rest else (j, g) ∷ rest

  pub mount : List ℕ → F → FsMap F → Result (FsMap F)
  unfolding contains_key insert
  mount path fs m = if contains_key path m then err already_exists else ok (insert path fs m)

  -- The table after a failed removal is the table before it.
  pub unmount : List ℕ → FsMap F → Result (FsMap F)
  unfolding get_fs remove
  unmount path m = elim (get_fs path m) [ none ↦ err not_found | some f ↦ ok (remove path m) ]

  longer : List ℕ × F → List ℕ × F → List ℕ × F
  longer best entry = if ltb (length best.0) (length entry.0) then entry else best

  -- One turn of the loop over the mounts.
  match_step : List ℕ → Option (List ℕ × F) → List ℕ × F → Option (List ℕ × F)
  unfolding longer starts_with
  match_step path best entry =
      if starts_with path entry.0
      then elim best [ none ↦ some entry | some b ↦ some (longer b entry) ]
      else best

  match_loop : List ℕ → Option (List ℕ × F) → FsMap F → Option (List ℕ × F)
  match_loop path best [] = best
  match_loop path best (entry ∷ m) = match_loop path (match_step path best entry) m

  unfoldable pub path_to_fs : List ℕ → FsMap F → Option (List ℕ × F)
  unfolding match_loop match_step normalize_path
  path_to_fs path m = match_loop (normalize_path path) none m
