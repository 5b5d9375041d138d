-- ===== src/Disk/Fat/Inodes/Sharing.antt =====
-- One inode for each entry: who opens a file that is open gets the same inode.
use zenos.Common.{
  ℕ, ◌≡◌, refl, sym, ap, ◌∙◌, Bool, true, false, Option, none, some, if◌then◌else◌, arith,
  Bool-cases, ◌≢◌, ◌⊎◌, inl, inr, List, [], ◌∷◌,
}
use zenos.Disk.Device.{Outcome, done, pure, ◌>>◌}
use zenos.Disk.Fat.{FatDirEntry}
use zenos.Disk.Fat.Inodes.{
  InodeKey, Mounted, bool_eq, key_eq, get, remove, key_of, create_and_cache_inode, cached_or_new,
  inode_for, forget,
}
use zenos.Disk.Fat.Directory.{FatDirectory}

key_eq_refl : (k : InodeKey) → key_eq k k ≡ true
key_eq_refl k = ground arith

module _ {S : Type 0} (alive : ℕ → Bool) (now : ℕ) (d : FatDirectory) (idx : ℕ) where
  -- A place that has a living inode gives it.
  found :
      (e : FatDirEntry) (i : ℕ) (m : Mounted S)
      → get (key_of d idx) m.ino_cache ≡ some i
      → alive i ≡ true
      → inode_for alive now d e idx m ≡ (m, done i)
  unfolding inode_for
  found e i m g a = rw (g, a) refl

  made :
      (e : FatDirEntry) (i : ℕ) (m m' : Mounted S)
      → create_and_cache_inode now d e idx m ≡ (m', done i)
      → get (key_of d idx) m'.ino_cache ≡ some i
  unfolding create_and_cache_inode
  made e i m m' h =
      sym (ap (λ (x : Mounted S × Outcome ℕ). get (key_of d idx) x.0.ino_cache) h)
      ∙ rw (key_eq_refl (key_of d idx))
          (ap some (unwrap (ap (λ (x : Mounted S × Outcome ℕ). x.1) h)))
    where
      unwrap : {a b : ℕ} → ◌≡◌ {A = Outcome ℕ} (done a) (done b) → a ≡ b
      unwrap q = cc

  -- After a request the place has the inode that was returned.
  pub cached_from :
      (e : FatDirEntry) (i : ℕ) (m m' : Mounted S) (o : Option ℕ)
      → get (key_of d idx) m.ino_cache ≡ o
      → cached_or_new alive now d e idx o m ≡ (m', done i)
      → get (key_of d idx) m'.ino_cache ≡ some i
  cached_from e i m m' none g h = made e i m m' h
  cached_from e i m m' (some j) g h = kept (alive j) h
    where
      same :
          ◌≡◌ {A = Mounted S × Outcome ℕ} (m, done j) (m', done i)
          → get (key_of d idx) m'.ino_cache ≡ some i
      same q =
          sym (ap (λ (x : Mounted S × Outcome ℕ). get (key_of d idx) x.0.ino_cache) q)
          ∙ g
          ∙ ap some (unwrap (ap (λ (x : Mounted S × Outcome ℕ). x.1) q))
        where
          unwrap : {a b : ℕ} → ◌≡◌ {A = Outcome ℕ} (done a) (done b) → a ≡ b
          unwrap q = cc

      kept :
          (b : Bool)
          → (if b then pure j else forget (key_of d idx) >> create_and_cache_inode now d e idx) m
            ≡ (m', done i)
          → get (key_of d idx) m'.ino_cache ≡ some i
      kept true q = same q
      kept false q = made e i (record m { ino_cache = remove (key_of d idx) m.ino_cache }) m' q

-- Two places of entries that differ: by the directory's cluster, by the slot, or because one directory
-- is the root.
abbrev pub Elsewhere : FatDirectory → ℕ → FatDirectory → ℕ → Type 0
Elsewhere d idx d' idx' = (d.cluster ≢ d'.cluster) ⊎ ((idx ≢ idx') ⊎ (d.is_root ≢ d'.is_root))

bool_eq-ne : (a b : Bool) → a ≢ b → bool_eq b a ≡ false
bool_eq-ne true true h = absurd (h refl)
bool_eq-ne true false h = refl
bool_eq-ne false true h = refl
bool_eq-ne false false h = absurd (h refl)

pub Elsewhere-key :
    (d : FatDirectory) (idx : ℕ) (d' : FatDirectory) (idx' : ℕ)
    → Elsewhere d idx d' idx'
    → key_eq (key_of d' idx') (key_of d idx) ≡ false
Elsewhere-key d idx d' idx' (inl c) = ground (arith, c)
Elsewhere-key d idx d' idx' (inr (inl x)) = ground (arith, x)
Elsewhere-key d idx d' idx' (inr (inr r)) = rw (bool_eq-ne d.is_root d'.is_root r) (ground arith)

bool_eq→≡ : (a b : Bool) → bool_eq a b ≡ true → a ≡ b
bool_eq→≡ true true h = refl
bool_eq→≡ true false h = sym h
bool_eq→≡ false true h = cc
bool_eq→≡ false false h = refl

pub key_eq→≡ : (j k : InodeKey) → key_eq j k ≡ true → j ≡ k
key_eq→≡ j k h =
    let c : j.dir_cluster ≡ k.dir_cluster = ground arith in
    let x : j.entry_index ≡ k.entry_index = ground arith in
    let r : j.in_root ≡ k.in_root = bool_eq→≡ j.in_root k.in_root (ground arith) in
    λ i. record { dir_cluster = c i; entry_index = x i; in_root = r i }

-- A place keeps its inode where another is removed or entered.
pub get-remove :
    (j k : InodeKey) (c : List (InodeKey × ℕ)) → key_eq j k ≡ false → get k (remove j c) ≡ get k c
get-remove j k [] h = refl
get-remove j k ((l, n) ∷ c) h = elim (Bool-cases (key_eq l j)) [
  | inl e ↦
      let f : key_eq l k ≡ false = ap (λ t. key_eq t k) (key_eq→≡ l j e) ∙ h in
      rw (e, f) (get-remove j k c h)
  | inr e ↦ rw e (ap (λ o. if key_eq l k then some n else o) (get-remove j k c h))
]

-- What may happen to a volume while inode `i` of a place is held and its entry is not removed: requests
-- for the inodes of any entries, the removal of entries in other places, and any change of the disk.
pub data Meanwhile {S : Type 0} (d : FatDirectory) (idx i : ℕ) (m : Mounted S)
    : Mounted S → Type 0 where
  nothing : Meanwhile d idx i m m
  request :
      {n : Mounted S} (alive : ℕ → Bool) (now : ℕ) (d' : FatDirectory) (e : FatDirEntry) (idx' : ℕ)
      → alive i ≡ true
      → Meanwhile d idx i m n
      → Meanwhile d idx i m (inode_for alive now d' e idx' n).0
  removal :
      {n : Mounted S} (d' : FatDirectory) (idx' : ℕ)
      → Elsewhere d idx d' idx'
      → Meanwhile d idx i m n
      → Meanwhile d idx i m (forget (key_of d' idx') n).0
  disk_change :
      {n : Mounted S} (device : S)
      → Meanwhile d idx i m n
      → Meanwhile d idx i m (record n { device = device })

module _ {S : Type 0} (k : InodeKey) (i : ℕ) where
  -- A new inode in another place leaves this one's.
  keeps_created :
      (now : ℕ) (d : FatDirectory) (e : FatDirEntry) (idx : ℕ) (n : Mounted S)
      → key_eq (key_of d idx) k ≡ false
      → get k n.ino_cache ≡ some i
      → get k (create_and_cache_inode now d e idx n).0.ino_cache ≡ some i
  unfolding create_and_cache_inode
  keeps_created now d e idx n h g = rw h (get-remove (key_of d idx) k n.ino_cache h ∙ g)

  pub keeps_other :
      (alive : ℕ → Bool) (now : ℕ) (d : FatDirectory) (e : FatDirEntry) (idx : ℕ) (n : Mounted S)
      (o : Option ℕ)
      → key_eq (key_of d idx) k ≡ false
      → get k n.ino_cache ≡ some i
      → get k (cached_or_new alive now d e idx o n).0.ino_cache ≡ some i
  keeps_other alive now d e idx n none h g = keeps_created now d e idx n h g
  keeps_other alive now d e idx n (some j) h g = elim (Bool-cases (alive j)) [
    | inl a ↦ rw a g
    | inr a ↦ rw a (
        keeps_created now d e idx (record n { ino_cache = remove (key_of d idx) n.ino_cache }) h
          (get-remove (key_of d idx) k n.ino_cache h ∙ g))
  ]

  keeps_request :
      (alive : ℕ → Bool) (now : ℕ) (d : FatDirectory) (e : FatDirEntry) (idx : ℕ) (n : Mounted S)
      → alive i ≡ true
      → get k n.ino_cache ≡ some i
      → get k (inode_for alive now d e idx n).0.ino_cache ≡ some i
  unfolding inode_for
  keeps_request alive now d e idx n a g = elim (Bool-cases (key_eq (key_of d idx) k)) [
    | inr other ↦ keeps_other alive now d e idx n (get (key_of d idx) n.ino_cache) other g
    | inl same ↦
        let s = key_eq→≡ (key_of d idx) k same in rw (ap (λ t. get t n.ino_cache) s ∙ g, a) g
  ]

Meanwhile-cached :
    {S : Type 0} (d : FatDirectory) (idx i : ℕ) (m n : Mounted S)
    → Meanwhile d idx i m n
    → get (key_of d idx) m.ino_cache ≡ some i
    → get (key_of d idx) n.ino_cache ≡ some i
Meanwhile-cached d idx i m n nothing g = g
Meanwhile-cached d idx i m n (request {n = o} alive now d' e idx' a w) g =
    keeps_request (key_of d idx) i alive now d' e idx' o a (Meanwhile-cached d idx i m o w g)
Meanwhile-cached d idx i m n (removal {n = o} d' idx' x w) g =
    get-remove (key_of d' idx') (key_of d idx) o.ino_cache (Elsewhere-key d idx d' idx' x)
    ∙ Meanwhile-cached d idx i m o w g
Meanwhile-cached d idx i m n (disk_change {n = o} device w) g = Meanwhile-cached d idx i m o w g

-- An entry's place has one inode while someone holds it and the entry is not removed. Whatever other
-- requests for inodes, removals of other entries and changes of the disk come between two requests for
-- the same place, the second gives the inode of the first and changes nothing, whatever the entry's
-- bytes are by then.
pub inode_for-shares :
    {S : Type 0} (alive alive' : ℕ → Bool) (now later : ℕ) (d : FatDirectory) (e e' : FatDirEntry)
    (idx i : ℕ) (m m' n : Mounted S)
    → inode_for alive now d e idx m ≡ (m', done i)
    → Meanwhile d idx i m' n
    → alive' i ≡ true
    → inode_for alive' later d e' idx n ≡ (n, done i)
unfolding inode_for
inode_for-shares alive alive' now later d e e' idx i m m' n h w a =
    found alive' later d idx e' i n
      (Meanwhile-cached d idx i m' n w
        (cached_from alive now d idx e i m m' (get (key_of d idx) m.ino_cache) refl h))
      a
