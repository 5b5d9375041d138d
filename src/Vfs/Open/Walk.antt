-- ===== src/Vfs/Open/Walk.antt =====
-- Which inode `open_file` of zenos-kernel/src/disk/vfs.rs returns, as a relation.
use zenos.Common.{
  ℕ, ◌≡◌, refl, sym, ap, ◌∙◌, ◌↔◌, true, List, [], ◌∷◌, ◌++◌, Option, none, some, Bool-cases, inl,
  inr, drop-append, subst,
}
use zenos.Vfs.Error.{Result, ok, err, FileError, permission_denied}
use zenos.Vfs.Path.{slash, normalize_path}
use zenos.Vfs.Mounts.{FsMap, path_to_fs}
use zenos.Vfs.Mounts.Laws.{path_to_fs-normalize_path}
use zenos.Vfs.Open.{
  Backend, contains, owner_read, owner_exec, require, descend, butlast, last, open_parts, parts,
  open_below, open_file, M, ◌>>=◌,
}

parts-slash : (mp name : List ℕ) → parts mp (mp ++ name) ≡ parts mp (mp ++ (slash ∷ name))
unfolding parts
parts-slash mp name = rw (drop-append mp name, drop-append mp (slash ∷ name))

module _ (B : Backend) where
  open B use {World, Fs, Inode, root_dir, lookup, perms}

  -- From a directory through the named ones, each of which has the bits of `mask`.
  pub data Walks (mask : ℕ) : Inode → List (List ℕ) → World → Inode → World → Type 0 where
    here : {d : Inode} {w : World} → Walks mask d [] w d w
    into :
        {d e f : Inode} {p : List ℕ} {ps : List (List ℕ)} {w w1 w2 : World}
        → lookup d p w ≡ (ok e, w1)
        → contains (perms e w1) mask ≡ true
        → Walks mask e ps w1 f w2
        → Walks mask d (p ∷ ps) w f w2

  -- A successful bind has a successful first part.
  pub bind-ok :
      {A C : Type 0} (m : M B A) (k : A → M B C) (w : World) (b : C) (w' : World)
      → ◌>>=◌ B m k w ≡ (ok b, w')
      → (a : A) × (w1 : World) × (m w ≡ (ok a, w1)) × (k a w1 ≡ (ok b, w'))
  bind-ok {A} {C} m k w b w' h = go (m w) refl h
    where
      go :
          (r : Result A × World)
          → m w ≡ r
          → elim r.0 [ ok a ↦ k a r.1 | err e ↦ (err e, r.1) ] ≡ (ok b, w')
          → (a : A) × (w1 : World) × (m w ≡ (ok a, w1)) × (k a w1 ≡ (ok b, w'))
      go (ok a, w1) e q = (a, w1, e, q)
      go (err x, w1) e q = absurd (err_ok (ap (λ t. t.0) q))
        where
          err_ok : {x : FileError} {c : C} → err x ≡ ok c → ⊥
          err_ok p = cc

  -- A bind goes on with the value of its first part.
  pub bind_of_ok :
      {A C : Type 0} (m : M B A) (k : A → M B C) {w w1 : World} {a : A}
      → m w ≡ (ok a, w1)
      → ◌>>=◌ B m k w ≡ k a w1
  bind_of_ok {A} {C} m k e =
      ap
        (λ (r : Result A × World).
          let out : Result C × World = elim r.0 [ ok a ↦ k a r.1 | err x ↦ (err x, r.1) ] in out)
        e

  require_allowed :
      (mask : ℕ) (i : Inode) (w : World)
      → contains (perms i w) mask ≡ true
      → require B mask i w ≡ (ok i, w)
  unfolding require
  require_allowed mask i w h = rw h

  -- What a successful `require` says.
  require-ok :
      (mask : ℕ) (i f : Inode) (w w' : World)
      → require B mask i w ≡ (ok f, w')
      → (i ≡ f) × (w ≡ w') × (contains (perms i w) mask ≡ true)
  unfolding require
  require-ok mask i f w w' h = elim (Bool-cases (contains (perms i w) mask)) [
    | inl e ↦
        let q : ◌≡◌ {A = Result Inode × World} (ok i, w) (ok f, w') = rw e at h in
        (ok-injective (ap (λ t. t.0) q), ap (λ t. t.1) q, e)
    | inr e ↦
        let q : ◌≡◌ {A = Result Inode × World} (err permission_denied, w) (ok f, w') = rw e at h in
        absurd (err-ne-ok (ap (λ t. t.0) q))
  ]
    where
      ok-injective : {a b : Inode} → ok a ≡ ok b → a ≡ b
      ok-injective p = cc

      err-ne-ok : {x : FileError} {a : Inode} → err x ≡ ok a → ⊥
      err-ne-ok p = cc

  pub pure-ok :
      (d f : Inode) (w w' : World)
      → ◌≡◌ {A = Result Inode × World} (ok d, w) (ok f, w')
      → (d ≡ f) × (w ≡ w')
  pure-ok d f w w' q = (ok-injective (ap (λ t. t.0) q), ap (λ t. t.1) q)
    where
      ok-injective : {a b : Inode} → ok a ≡ ok b → a ≡ b
      ok-injective p = cc

  pub descend-Walks :
      (mask : ℕ) (d f : Inode) (ps : List (List ℕ)) (w w' : World)
      → descend B mask d ps w ≡ (ok f, w')
      → Walks mask d ps w f w'
  unfolding descend
  descend-Walks mask d f [] w w' h =
      let (e, e') = pure-ok d f w w' h in
      subst (λ x. Walks mask d [] w x w') e (subst (λ x. Walks mask d [] w d x) e' here)
  descend-Walks mask d f (p ∷ ps) w w' h =
      let (e, w1, le, q) =
        bind-ok (lookup d p) (λ x. ◌>>=◌ B (require B mask x) (λ y. descend B mask y ps)) w f w'
          h in
      let (e', w2, re, q') = bind-ok (require B mask e) (λ y. descend B mask y ps) w1 f w' q in
      let (same, same_world, allowed) = require-ok mask e e' w1 w2 re in
      into le allowed (
        descend-Walks mask e f ps w1 w' (
          subst (λ x. descend B mask x ps w1 ≡ (ok f, w')) (sym same)
            (subst (λ x. descend B mask e' ps x ≡ (ok f, w')) (sym same_world) q')))

  pub Walks-descend :
      (mask : ℕ) {d f : Inode} {ps : List (List ℕ)} {w w' : World}
      → Walks mask d ps w f w'
      → descend B mask d ps w ≡ (ok f, w')
  unfolding descend
  Walks-descend mask here = refl
  Walks-descend mask (into {d = d} {e = x} {f = f} {p = p} {ps = ps} {w = w} {w1 = w1} e a r) =
      bind_of_ok (lookup d p) (λ x. ◌>>=◌ B (require B mask x) (λ y. descend B mask y ps)) e
      ∙ bind_of_ok (require B mask x) (λ y. descend B mask y ps) (require_allowed mask x w1 a)
      ∙ Walks-descend mask r

  -- Reading the file at the end of the parts: the directories are executable and the file readable
  -- for the owner. Without parts it is the root itself.
  abbrev pub Reads : Inode → List (List ℕ) → World → Inode → World → Type 0
  Reads root [] w f w' = (root ≡ f) × (w ≡ w')
  Reads root (p ∷ ps) w f w' =
      (dir : Inode) × (w1 : World) × Walks owner_exec root (butlast B p ps) w dir w1
      × (lookup dir (last B p ps) w1 ≡ (ok f, w'))
      × (contains (perms f w') owner_read ≡ true)

  open_parts-Reads :
      (root f : Inode) (ps : List (List ℕ)) (w w' : World)
      → open_parts B root ps w ≡ (ok f, w')
      → Reads root ps w f w'
  unfolding open_parts
  open_parts-Reads root f [] w w' h = pure-ok root f w w' h
  open_parts-Reads root f (p ∷ ps) w w' h =
      let (dir, w1, de, q) =
        bind-ok (descend B owner_exec root (butlast B p ps))
          (λ x. ◌>>=◌ B (lookup x (last B p ps)) (require B owner_read)) w f w' h in
      let (file, w2, le, q') =
        bind-ok (lookup dir (last B p ps)) (require B owner_read) w1 f w' q in
      let (same, same_world, allowed) = require-ok owner_read file f w2 w' q' in
      (
        dir,
        w1,
        descend-Walks owner_exec root dir (butlast B p ps) w w1 de,
        subst (λ x. lookup dir (last B p ps) w1 ≡ (ok x, w')) same
            (subst (λ x. lookup dir (last B p ps) w1 ≡ (ok file, x)) same_world le),
        subst (λ x. contains (perms x w') owner_read ≡ true) same
            (subst (λ x. contains (perms file x) owner_read ≡ true) same_world allowed),
      )

  Reads-open_parts :
      (root f : Inode) (ps : List (List ℕ)) (w w' : World)
      → Reads root ps w f w'
      → open_parts B root ps w ≡ (ok f, w')
  unfolding open_parts
  Reads-open_parts root f [] w w' (e, e') = rw (e, e')
  Reads-open_parts root f (p ∷ ps) w w' (dir, w1, walk, le, allowed) =
      bind_of_ok (descend B owner_exec root (butlast B p ps))
        (λ x. ◌>>=◌ B (lookup x (last B p ps)) (require B owner_read))
        (Walks-descend owner_exec walk)
      ∙ bind_of_ok (lookup dir (last B p ps)) (require B owner_read) le
      ∙ require_allowed owner_read f w' allowed

  -- What `open_file` returns for a path: the mount point is the longest prefix, and the rest of the
  -- path is read from the root of the file system there.
  abbrev pub Opens : FsMap Fs → List ℕ → World → Inode → World → Type 0
  Opens m path w f w' =
      (mount_point : List ℕ) × (fs : Fs) × (root : Inode) × (w1 : World) × (path_to_fs path m
        ≡ some (mount_point, fs))
      × (root_dir fs w ≡ (ok root, w1))
      × Reads root (parts mount_point (normalize_path path)) w1 f w'

  open_below-Opens :
      (normalized : List ℕ) (r : Option (List ℕ × Fs)) (w : World) (f : Inode) (w' : World)
      → open_below B normalized r w ≡ (ok f, w')
      → (mount_point : List ℕ) × (fs : Fs) × (root : Inode) × (w1 : World) × (r
          ≡ some (mount_point, fs))
        × (root_dir fs w ≡ (ok root, w1))
        × Reads root (parts mount_point normalized) w1 f w'
  unfolding open_below
  open_below-Opens normalized none w f w' h = absurd (err-ne-ok (ap (λ t. t.0) h))
    where
      err-ne-ok : {x : FileError} {a : Inode} → err x ≡ ok a → ⊥
      err-ne-ok p = cc
  open_below-Opens normalized (some (mp, fs)) w f w' h =
      let (root, w1, e, q) =
        bind-ok (root_dir fs) (λ root. open_parts B root (parts mp normalized)) w f w' h in
      (mp, fs, root, w1, refl, e, open_parts-Reads root f (parts mp normalized) w1 w' q)

  -- `open_file` succeeds with an inode exactly where the path leads to it, from the root of the file
  -- system at the longest mount point. A path with components below the mount point leads by a lookup
  -- for each of them, through directories executable by the owner, to a file readable by the owner; a
  -- path without, to the mount point itself, leads to that root, whatever its permissions are.
  pub open_file-Opens :
      (m : FsMap Fs) (path : List ℕ) (w : World) (f : Inode) (w' : World)
      → (open_file B m path w ≡ (ok f, w')) ↔ Opens m path w f w'
  unfolding open_file open_below
  open_file-Opens m path w f w' = (
    (λ h.
        let (mp, fs, root, w1, e, e', r) =
          open_below-Opens (normalize_path path) (path_to_fs (normalize_path path) m) w f w' h in
        (mp, fs, root, w1, sym (path_to_fs-normalize_path path m) ∙ e, e', r)),
    λ (mp, fs, root, w1, e, e', r).
        ap (λ s. open_below B (normalize_path path) s w) (path_to_fs-normalize_path path m ∙ e)
        ∙ bind_of_ok (root_dir fs) (λ root. open_parts B root (parts mp (normalize_path path))) e'
        ∙ Reads-open_parts root f (parts mp (normalize_path path)) w1 w' r,
  )

  open_file_at :
      (m : FsMap Fs) (path : List ℕ) {normalized mount_point : List ℕ} {fs : Fs} (w : World)
      → normalize_path path ≡ normalized
      → path_to_fs path m ≡ some (mount_point, fs)
      → open_file B m path w ≡ open_below B normalized (some (mount_point, fs)) w
  unfolding open_file
  open_file_at m path w e p = λ i. open_below B (e i) ((path_to_fs-normalize_path path m ∙ p) i) w

  open_below-parts :
      (mount_point : List ℕ) (fs : Fs) (w : World) (a b : List ℕ)
      → parts mount_point a ≡ parts mount_point b
      → open_below B a (some (mount_point, fs)) w ≡ open_below B b (some (mount_point, fs)) w
  unfolding open_below
  open_below-parts mp fs w a b e =
      ap (λ ps. ◌>>=◌ B (root_dir fs) (λ root. open_parts B root ps) w) e

  -- Two paths that differ by the slash after the mount point, which both lead there, open the same file.
  open_file-crosses_mount :
      (m : FsMap Fs) (mount_point name : List ℕ) (fs : Fs) (w : World)
      → normalize_path (mount_point ++ name) ≡ mount_point ++ name
      → normalize_path (mount_point ++ (slash ∷ name)) ≡ mount_point ++ (slash ∷ name)
      → path_to_fs (mount_point ++ name) m ≡ some (mount_point, fs)
      → path_to_fs (mount_point ++ (slash ∷ name)) m ≡ some (mount_point, fs)
      → open_file B m (mount_point ++ name) w ≡ open_file B m (mount_point ++ (slash ∷ name)) w
  open_file-crosses_mount m mp name fs w e e' p p' =
      open_file_at m (mp ++ name) w e p
      ∙ open_below-parts mp fs w _ _ (parts-slash mp name)
      ∙ sym (open_file_at m (mp ++ (slash ∷ name)) w e' p')
