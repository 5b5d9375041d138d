-- ===== src/Vfs/Open/Create.antt =====
-- What `create_file` of zenos-kernel/src/disk/vfs.rs creates, as a relation.
use zenos.Common.{ℕ, ◌≡◌, refl, sym, ap, ◌∙◌, ◌↔◌, List, [], ◌∷◌, Option, none, some, bit_or}
use zenos.Vfs.Error.{ok, err, FileError}
use zenos.Vfs.Path.{normalize_path}
use zenos.Vfs.Mounts.{FsMap, path_to_fs}
use zenos.Vfs.Mounts.Laws.{path_to_fs-normalize_path}
use zenos.Vfs.Open.{
  Backend, owner_write, owner_exec, descend, butlast, last, parts, create_parts, create_below,
  create_file,
}
use zenos.Vfs.Open.Walk.{Walks, bind-ok, bind_of_ok, pure-ok, descend-Walks, Walks-descend}

module _ (B : Backend) where
  open B use {World, Fs, Inode, root_dir, lookup, create}

  -- The permissions that each directory on the way needs.
  abbrev mask : ℕ
  mask = bit_or owner_exec owner_write

  -- Making the file at the end of the parts. Without parts nothing is made, and the root returned.
  abbrev pub Makes : ℕ → Inode → List (List ℕ) → World → Inode → World → Type 0
  Makes mode root [] w f w' = (root ≡ f) × (w ≡ w')
  Makes mode root (p ∷ ps) w f w' =
      (dir : Inode) × (w1 : World) × Walks B (bit_or owner_exec owner_write) root (butlast B p ps) w
        dir w1
      × (create dir (last B p ps) mode w1 ≡ (ok f, w'))

  create_parts-Makes :
      (mode : ℕ) (root f : Inode) (ps : List (List ℕ)) (w w' : World)
      → create_parts B mode root ps w ≡ (ok f, w')
      → Makes mode root ps w f w'
  unfolding create_parts
  create_parts-Makes mode root f [] w w' h = pure-ok B root f w w' h
  create_parts-Makes mode root f (p ∷ ps) w w' h =
      let (dir, w1, de, q) =
        bind-ok B (descend B mask root (butlast B p ps)) (λ x. create x (last B p ps) mode) w f w'
          h in
      (dir, w1, descend-Walks B mask root dir (butlast B p ps) w w1 de, q)

  Makes-create_parts :
      (mode : ℕ) (root f : Inode) (ps : List (List ℕ)) (w w' : World)
      → Makes mode root ps w f w'
      → create_parts B mode root ps w ≡ (ok f, w')
  unfolding create_parts
  Makes-create_parts mode root f [] w w' (e, e') = rw (e, e')
  Makes-create_parts mode root f (p ∷ ps) w w' (dir, w1, walk, made) =
      bind_of_ok B (descend B mask root (butlast B p ps)) (λ x. create x (last B p ps) mode)
        (Walks-descend B mask walk)
      ∙ made

  -- What `create_file` does for a path.
  abbrev pub Creates : FsMap Fs → List ℕ → ℕ → World → Inode → World → Type 0
  Creates m path mode w f w' =
      (mount_point : List ℕ) × (fs : Fs) × (root : Inode) × (w1 : World) × (path_to_fs path m
        ≡ some (mount_point, fs))
      × (root_dir fs w ≡ (ok root, w1))
      × Makes mode root (parts mount_point (normalize_path path)) w1 f w'

  create_below-Makes :
      (mode : ℕ) (normalized : List ℕ) (r : Option (List ℕ × Fs)) (w : World) (f : Inode)
      (w' : World)
      → create_below B mode normalized r w ≡ (ok f, w')
      → (mount_point : List ℕ) × (fs : Fs) × (root : Inode) × (w1 : World) × (r
          ≡ some (mount_point, fs))
        × (root_dir fs w ≡ (ok root, w1))
        × Makes mode root (parts mount_point normalized) w1 f w'
  unfolding create_below
  create_below-Makes mode normalized none w f w' h = absurd (err-ne-ok (ap (λ t. t.0) h))
    where
      err-ne-ok : {x : FileError} {a : Inode} → err x ≡ ok a → ⊥
      err-ne-ok p = cc
  create_below-Makes mode normalized (some (mp, fs)) w f w' h =
      let (root, w1, e, q) =
        bind-ok B (root_dir fs) (λ root. create_parts B mode root (parts mp normalized)) w f w' h in
      (mp, fs, root, w1, refl, e, create_parts-Makes mode root f (parts mp normalized) w1 w' q)

  -- `create_file` succeeds with an inode exactly where the file system at the longest mount point
  -- makes it in the directory that the path leads to, through directories that their owner may both
  -- write and execute; the root is returned where the path names a mount point.
  pub create_file-Creates :
      (m : FsMap Fs) (path : List ℕ) (mode : ℕ) (w : World) (f : Inode) (w' : World)
      → (create_file B m path mode w ≡ (ok f, w')) ↔ Creates m path mode w f w'
  unfolding create_file create_below
  create_file-Creates m path mode w f w' = (
    (λ h.
        let (mp, fs, root, w1, e, e', r) =
          create_below-Makes mode (normalize_path path) (path_to_fs (normalize_path path) m) w f w'
            h in
        (mp, fs, root, w1, sym (path_to_fs-normalize_path path m) ∙ e, e', r)),
    λ (mp, fs, root, w1, e, e', r).
        ap (λ s. create_below B mode (normalize_path path) s w)
          (path_to_fs-normalize_path path m ∙ e)
        ∙ bind_of_ok B (root_dir fs)
            (λ root. create_parts B mode root (parts mp (normalize_path path))) e'
        ∙ Makes-create_parts mode root f (parts mp (normalize_path path)) w1 w' r,
  )
