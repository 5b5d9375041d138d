-- ===== src/Vfs/Mounts/Laws.antt =====
-- What the mount table of zenos-kernel/src/disk/vfs.rs promises: a map by path, and the longest match.
use mathlib.Core.List.{Memᴰ, append-nil}
use zenos.Common.{
  ℕ, ◌≤◌, ◌≡◌, refl, sym, ap, true, false, List, [], ◌∷◌, ◌++◌, Option, none, some, arith,
  if◌then◌else◌, ltb, bytes_eq, bytes_eq_refl, bytes_eq→eq, starts_with, length, All, ◌⊎◌, inl, inr,
  Bool-cases, Option-cases, append_assoc, All-append, ltb→lt, not_ltb→le,
}
use zenos.Vfs.Error.{Result, ok, err, already_exists, not_found}
use zenos.Vfs.Path.{normalize_path}
use zenos.Vfs.Path.Normal.{normalize_path_idempotent}
use zenos.Vfs.Mounts.{
  FsMap, get_fs, contains_key, insert, remove, mount, unmount, longer, match_step, match_loop,
  path_to_fs,
}

module _ {F : Type 0} where
  get_fs-insert :
      (k j : List ℕ) (f : F) (m : FsMap F)
      → get_fs j (insert k f m) ≡ (if bytes_eq k j then some f else get_fs j m)
  unfolding get_fs insert
  get_fs-insert k j f [] = refl
  get_fs-insert k j f ((i, g) ∷ m) = ground (
    arith,
    get_fs-insert k j f m,
    bytes_eq→eq i k,
    bytes_eq→eq i j,
    bytes_eq→eq k j,
    bytes_eq_refl i,
  )

  get_fs-remove :
      (k j : List ℕ) (m : FsMap F)
      → get_fs j (remove k m) ≡ (if bytes_eq k j then none else get_fs j m)
  unfolding get_fs remove
  get_fs-remove k j [] = ground arith
  get_fs-remove k j ((i, g) ∷ m) = ground (
    arith,
    get_fs-remove k j m,
    bytes_eq→eq i k,
    bytes_eq→eq i j,
    bytes_eq→eq k j,
    bytes_eq_refl i,
  )

  contains_key-get_fs :
      (k : List ℕ) (m : FsMap F)
      → ((contains_key k m ≡ true) × ((f : F) × (get_fs k m ≡ some f)))
        ⊎ ((contains_key k m ≡ false) × (get_fs k m ≡ none))
  unfolding get_fs contains_key
  contains_key-get_fs k [] = inr (refl, refl)
  contains_key-get_fs k ((j, g) ∷ m) = elim (Bool-cases (bytes_eq j k)) [
    | inl e ↦ rw e (inl (refl, (g, refl)))
    | inr e ↦ rw e (contains_key-get_fs k m)
  ]

  -- What a mount at `path` may do: it fails where the path is taken, and else adds the one entry.
  abbrev pub Mounted : List ℕ → F → FsMap F → Result (FsMap F) → Type 0
  Mounted path fs m (err e) = (e ≡ already_exists) × ((g : F) × (get_fs path m ≡ some g))
  Mounted path fs m (ok n) =
      (get_fs path m ≡ none)
      × ((j : List ℕ) → get_fs j n ≡ (if bytes_eq path j then some fs else get_fs j m))

  -- `mount` fails with `already_exists` exactly where the path is taken; else the path leads to the
  -- new file system, and every other path to what it led to before.
  pub mount-Mounted : (path : List ℕ) (fs : F) (m : FsMap F) → Mounted path fs m (mount path fs m)
  unfolding mount
  mount-Mounted path fs m = elim (contains_key-get_fs path m) [
    | inl (e, h) ↦ rw e (refl, h)
    | inr (e, h) ↦ rw e (h, λ j. get_fs-insert path j fs m)
  ]

  abbrev pub Unmounted : List ℕ → FsMap F → Result (FsMap F) → Type 0
  Unmounted path m (err e) = (e ≡ not_found) × (get_fs path m ≡ none)
  Unmounted path m (ok n) =
      ((g : F) × (get_fs path m ≡ some g))
      × ((j : List ℕ) → get_fs j n ≡ (if bytes_eq path j then none else get_fs j m))

  -- `unmount` fails with `not_found` exactly where nothing is mounted; else nothing is mounted at
  -- the path any more, and every other path leads to what it led to before.
  pub unmount-Unmounted : (path : List ℕ) (m : FsMap F) → Unmounted path m (unmount path m)
  unfolding unmount
  unmount-Unmounted path m = elim (Option-cases (get_fs path m)) [
    | inl e ↦ rw (e, unmount, Unmounted) (refl, e)
    | inr (g, e) ↦ rw (e, unmount, Unmounted) ((g, e), λ j. get_fs-remove path j m)
  ]

  -- The longest mount point that the path starts with, or that there is none.
  abbrev pub Longest : List ℕ → FsMap F → Option (List ℕ × F) → Type 0
  Longest path m none = All (λ e. starts_with path e.0 ≡ false) m
  Longest path m (some b) =
      Memᴰ b m
      × (starts_with path b.0 ≡ true)
      × All (λ e. starts_with path e.0 ≡ true → length e.0 ≤ length b.0) m

  All-weaken :
      {P Q : List ℕ × F → Type 0} (m : FsMap F) → ((e : List ℕ × F) → P e → Q e) → All P m → All Q m
  All-weaken [] f h = tt
  All-weaken (e ∷ m) f h = (f e h.0, All-weaken m f h.1)

  Memᴰ-left : (b : List ℕ × F) (m n : FsMap F) → Memᴰ b m → Memᴰ b (m ++ n)
  Memᴰ-left b [] n h = elim h [ ]
  Memᴰ-left b (e ∷ m) n (Memᴰ.head p) = Memᴰ.head p
  Memᴰ-left b (e ∷ m) n (Memᴰ.tail h) = Memᴰ.tail (Memᴰ-left b m n h)

  Memᴰ-last : (b : List ℕ × F) (m : FsMap F) → Memᴰ b (m ++ (b ∷ []))
  Memᴰ-last b [] = Memᴰ.head refl
  Memᴰ-last b (e ∷ m) = Memᴰ.tail (Memᴰ-last b m)

  append_cons : (m : FsMap F) (e : List ℕ × F) (n : FsMap F) → m ++ (e ∷ n) ≡ (m ++ (e ∷ [])) ++ n
  append_cons m e n = sym (append_assoc m (e ∷ []) n)

  -- A turn of the loop keeps the candidate the longest of the mounts seen so far.
  match_step-Longest :
      (path : List ℕ) (seen : FsMap F) (best : Option (List ℕ × F)) (e : List ℕ × F)
      → Longest path seen best
      → Longest path (seen ++ (e ∷ [])) (match_step path best e)
  unfolding match_step longer
  match_step-Longest path seen none e h = elim (Bool-cases (starts_with path e.0)) [
    | inl s ↦ rw s (
      Memᴰ-last e seen,
      s,
      All-append _ seen (e ∷ [])
          (All-weaken seen
            (λ x (n : starts_with path x.0 ≡ false) (y : starts_with path x.0 ≡ true). cc) h)
          ((λ _. omega arith), tt),
    )
    | inr s ↦ rw s (All-append _ seen (e ∷ []) h (s, tt))
  ]
  match_step-Longest path seen (some b) e h = elim (Bool-cases (starts_with path e.0)) [
    | inl s ↦ rw s (elim (Bool-cases (ltb (length b.0) (length e.0))) [
      | inl lt ↦ rw lt (
        Memᴰ-last e seen,
        s,
        All-append _ seen (e ∷ [])
            (All-weaken seen
              (λ x (n : starts_with path x.0 ≡ true → length x.0 ≤ length b.0)
                  (y : starts_with path x.0 ≡ true).
                omega (arith, n y, ltb→lt (length b.0) (length e.0) lt))
              h.2)
            ((λ _. omega arith), tt),
      )
      | inr ge ↦ rw ge (
        Memᴰ-left b seen (e ∷ []) h.0,
        h.1,
        All-append _ seen (e ∷ []) h.2 ((λ _. not_ltb→le (length b.0) (length e.0) ge), tt),
      )
    ])
    | inr s ↦ rw s (
      Memᴰ-left b seen (e ∷ []) h.0,
      h.1,
      All-append _ seen (e ∷ []) h.2 ((λ (y : starts_with path e.0 ≡ true). cc), tt),
    )
  ]

  -- Every earlier candidate that `best` replaced is at most as long.
  match_loop-Longest :
      (path : List ℕ) (seen : FsMap F) (best : Option (List ℕ × F)) (rest : FsMap F)
      → Longest path seen best
      → Longest path (seen ++ rest) (match_loop path best rest)
  unfolding match_loop
  match_loop-Longest path seen best [] h = rw (append-nil seen) h
  match_loop-Longest path seen best (e ∷ rest) h = rw (append_cons seen e rest) (
      match_loop-Longest path (seen ++ (e ∷ [])) (match_step path best e) rest
        (match_step-Longest path seen best e h))

  -- `path_to_fs` returns a mounted file system whose mount point is a prefix, byte by byte, of the
  -- normalized path, and the longest such; it returns `none` only where there is no such mount.
  pub path_to_fs-Longest :
      (path : List ℕ) (m : FsMap F) → Longest (normalize_path path) m (path_to_fs path m)
  unfolding path_to_fs
  path_to_fs-Longest path m = match_loop-Longest (normalize_path path) [] none m tt

  -- The mount of a path is that of its normalized form.
  pub path_to_fs-normalize_path :
      (path : List ℕ) (m : FsMap F) → path_to_fs (normalize_path path) m ≡ path_to_fs path m
  unfolding path_to_fs
  path_to_fs-normalize_path path m = ap (λ n. match_loop n none m) (normalize_path_idempotent path)
