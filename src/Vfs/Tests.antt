-- ===== src/Vfs/Tests.antt =====
-- A small disk with a file behind a directory, and the theorems on paths and mounts applied to it.
use zenos.Common.{ℕ, suc, ◌≡◌, ◌↔◌, refl, List, [], ◌∷◌, ◌++◌, if◌then◌else◌, ◌==◌, ◌&&◌, bytes_eq}
use zenos.Vfs.Error.{Result, ok, err, not_found}
use zenos.Vfs.Path.{slash, dot, IsPlain, normalize_path}
use zenos.Vfs.Path.Normal.{DropsOut, normalize_path-lexical}
use zenos.Vfs.Mounts.{FsMap, path_to_fs}
use zenos.Vfs.Mounts.Laws.{Longest, path_to_fs-Longest}
use zenos.Vfs.Open.{Backend, open_file, create_file}
use zenos.Vfs.Open.Create.{Creates, create_file-Creates}
use zenos.Vfs.Open.Walk.{Opens, open_file-Opens}

-- "a", "b", "/a", "/dev" and "/".
abbrev a : List ℕ
a = 97 ∷ []

abbrev b : List ℕ
b = 98 ∷ []

abbrev slash_a : List ℕ
slash_a = slash ∷ a

abbrev dev : List ℕ
dev = slash ∷ 100 ∷ 101 ∷ 118 ∷ []

abbrev root_path : List ℕ
root_path = slash ∷ []

-- Inode 0 is the root, 1 the directory "a", 2 the file "b" in it; the world counts the lookups.
abbrev find : ℕ → List ℕ → Result ℕ
find dir name =
    if dir == 0 && bytes_eq name a
    then ok 1
    else if dir == 1 && bytes_eq name b
    then ok 2
    else err not_found

abbrev Disk : Backend
Disk = record {
  World = ℕ;
  Fs = ℕ;
  Inode = ℕ;
  root_dir = λ fs w. (ok fs, w);
  lookup = λ dir name w. (find dir name, suc w);
  create = λ dir name mode w. (ok 7, w);
  perms = λ i w. 0o755;
}

abbrev mounts : FsMap ℕ
mounts = (root_path, 0) ∷ (dev, 1) ∷ []

-- "/a/../a//b".
abbrev winding : List ℕ
winding = slash_a ++ (slash ∷ dot ∷ dot ∷ slash ∷ 97 ∷ slash ∷ slash ∷ b)

a-IsPlain : IsPlain a
a-IsPlain = record { nonempty = refl; not_dot = refl; not_dotdot = refl; no_slash = (refl, tt) }

winding-opens : open_file Disk mounts winding 0 ≡ (ok 2, 2)
unfolding open_file
winding-opens = refl

normalize_path-lexical_example :
    DropsOut (a ++ (slash ∷ dot ∷ dot ∷ [])) × DropsOut (dot ∷ []) × DropsOut []
normalize_path-lexical_example = normalize_path-lexical a a-IsPlain

path_to_fs-Longest_example :
    Longest (normalize_path (dev ++ (slash ∷ b))) mounts (path_to_fs (dev ++ (slash ∷ b)) mounts)
path_to_fs-Longest_example = path_to_fs-Longest (dev ++ (slash ∷ b)) mounts

open_file-Opens_example :
    (open_file Disk mounts winding 0 ≡ (ok 2, 2)) ↔ Opens Disk mounts winding 0 2 2
open_file-Opens_example = open_file-Opens Disk mounts winding 0 2 2

create_file-Creates_example :
    (create_file Disk mounts winding 0o644 0 ≡ (ok 7, 1)) ↔ Creates Disk mounts winding 0o644 0 7 1
create_file-Creates_example = create_file-Creates Disk mounts winding 0o644 0 7 1

winding-creates : create_file Disk mounts winding 0o644 0 ≡ (ok 7, 1)
unfolding create_file
winding-creates = refl
