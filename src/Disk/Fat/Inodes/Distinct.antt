-- ===== src/Disk/Fat/Inodes/Distinct.antt =====
-- The inodes of different entries are different.
use zenos.Common.{
  ℕ, ◌<◌, ◌≡◌, ◌≢◌, refl, sym, ap, ◌∙◌, Bool, true, List, [], ◌∷◌, Option, none, some, arith,
  Bool-cases, ◌⊎◌, inl, inr, subst, length, length-append,
}
use zenos.Disk.Device.{Outcome, done}
use zenos.Disk.Fat.{FatDirEntry}
use zenos.Disk.Fat.Inodes.{
  InodeKey, Mounted, key_eq, get, remove, key_of, create_and_cache_inode, cached_or_new, inode_for,
  forget,
}
use zenos.Disk.Fat.Inodes.Sharing.{
  Elsewhere, Elsewhere-key, key_eq→≡, get-remove, cached_from, keeps_other,
}
use zenos.Disk.Fat.Directory.{FatDirectory}

-- The cache names inodes that there are, and no inode for two places.
record CacheOk {S : Type 0} (m : Mounted S) : Type 0 where
  below : (k : InodeKey) (i : ℕ) → get k m.ino_cache ≡ some i → i < length m.inodes
  apart :
      (j k : InodeKey) (i : ℕ)
      → get j m.ino_cache ≡ some i
      → get k m.ino_cache ≡ some i
      → key_eq j k ≡ true

get-removed : (k : InodeKey) (c : List (InodeKey × ℕ)) → get k (remove k c) ≡ none
get-removed k [] = refl
get-removed k ((l, n) ∷ c) = elim (Bool-cases (key_eq l k)) [
  | inl e ↦ rw e (get-removed k c)
  | inr e ↦ rw (e, e) (get-removed k c)
]

-- What a removal leaves was there.
was_there :
    (j k : InodeKey) (c : List (InodeKey × ℕ)) (i : ℕ)
    → get k (remove j c) ≡ some i
    → get k c ≡ some i
was_there j k c i h = elim (Bool-cases (key_eq j k)) [
  | inr e ↦ sym (get-remove j k c e) ∙ h
  | inl e ↦
      absurd (nothing (sym (ap (λ t. get t (remove j c)) (key_eq→≡ j k e)) ∙ get-removed j c) h)
]
  where
    nothing : {o : Option ℕ} → o ≡ none → o ≡ some i → ⊥
    nothing p q = cc

forgotten :
    {S : Type 0} (k : InodeKey) (m : Mounted S)
    → CacheOk m
    → CacheOk (record m { ino_cache = remove k m.ino_cache })
forgotten k m ok = record {
  below = λ j i h. ok.below j i (was_there k j m.ino_cache i h);
  apart =
      λ j l i g h. ok.apart j l i (was_there k j m.ino_cache i g) (was_there k l m.ino_cache i h);
}

-- Where a place is looked up after an inode was made for place `k`.
entered :
    (k j : InodeKey) (n i : ℕ) (c : List (InodeKey × ℕ))
    → get j ((k, n) ∷ remove k c) ≡ some i
    → ((key_eq k j ≡ true) × (n ≡ i)) ⊎ (get j c ≡ some i)
entered k j n i c h = elim (Bool-cases (key_eq k j)) [
  | inl e ↦ inl (e, unwrap (rw e at h))
  | inr e ↦ inr (was_there k j c i (rw e at h))
]
  where
    unwrap : some n ≡ some i → n ≡ i
    unwrap q = cc

module _ {S : Type 0} (now : ℕ) (d : FatDirectory) (e : FatDirEntry) (idx : ℕ) where
  created : (m : Mounted S) → CacheOk m → CacheOk (create_and_cache_inode now d e idx m).0
  unfolding create_and_cache_inode
  created m ok = record {
    below = λ j i h. bound j i (entered (key_of d idx) j (length m.inodes) i m.ino_cache h);
    apart = λ j l i g h.
        one_place j l i (entered (key_of d idx) j (length m.inodes) i m.ino_cache g)
          (entered (key_of d idx) l (length m.inodes) i m.ino_cache h);
  }
    where
      bound :
          (j : InodeKey) (i : ℕ)
          → ((key_eq (key_of d idx) j ≡ true) × (length m.inodes ≡ i))
            ⊎ (get j m.ino_cache ≡ some i)
          → i < length (create_and_cache_inode now d e idx m).0.inodes
      bound j i (inl h) = omega (arith, h.1, length-append m.inodes (_ ∷ []))
      bound j i (inr h) = omega (arith, ok.below j i h, length-append m.inodes (_ ∷ []))

      one_place :
          (j l : InodeKey) (i : ℕ)
          → ((key_eq (key_of d idx) j ≡ true) × (length m.inodes ≡ i))
            ⊎ (get j m.ino_cache ≡ some i)
          → ((key_eq (key_of d idx) l ≡ true) × (length m.inodes ≡ i))
            ⊎ (get l m.ino_cache ≡ some i)
          → key_eq j l ≡ true
      one_place j l i (inl g) (inl h) =
          ap (λ t. key_eq t l) (sym (key_eq→≡ (key_of d idx) j g.0)) ∙ h.0
      one_place j l i (inl g) (inr h) = absurd (omega (arith, g.1, ok.below l i h))
      one_place j l i (inr g) (inl h) = absurd (omega (arith, h.1, ok.below j i g))
      one_place j l i (inr g) (inr h) = ok.apart j l i g h

  requested_from :
      (alive : ℕ → Bool) (m : Mounted S) (o : Option ℕ)
      → CacheOk m
      → CacheOk (cached_or_new alive now d e idx o m).0
  requested_from alive m none ok = created m ok
  requested_from alive m (some i) ok = elim (Bool-cases (alive i)) [
    | inl a ↦ rw a ok
    | inr a ↦ rw a (
        created (record m { ino_cache = remove (key_of d idx) m.ino_cache })
          (forgotten (key_of d idx) m ok))
  ]

  requested :
      (alive : ℕ → Bool) (m : Mounted S) → CacheOk m → CacheOk (inode_for alive now d e idx m).0
  unfolding inode_for
  requested alive m ok = requested_from alive m (get (key_of d idx) m.ino_cache) ok

-- The states of a volume: mounted with no inodes, and changed by requests for inodes, by removals of
-- entries and by changes of the disk.
pub data Reaches {S : Type 0} : Mounted S → Type 0 where
  no_inodes : (device : S) → Reaches (record { device = device; inodes = []; ino_cache = [] })
  request :
      {m : Mounted S} (alive : ℕ → Bool) (now : ℕ) (d : FatDirectory) (e : FatDirEntry) (idx : ℕ)
      → Reaches m
      → Reaches (inode_for alive now d e idx m).0
  removal :
      {m : Mounted S} (d : FatDirectory) (idx : ℕ) → Reaches m → Reaches (forget (key_of d idx) m).0
  disk_change : {m : Mounted S} (device : S) → Reaches m → Reaches (record m { device = device })

Reaches-CacheOk : {S : Type 0} (m : Mounted S) → Reaches m → CacheOk m
Reaches-CacheOk m (no_inodes device) = record { below = λ k i h. cc; apart = λ j k i g h. cc }
Reaches-CacheOk m (request {m = n} alive now d e idx r) =
    requested now d e idx alive n (Reaches-CacheOk n r)
Reaches-CacheOk m (removal {m = n} d idx r) = forgotten (key_of d idx) n (Reaches-CacheOk n r)
Reaches-CacheOk m (disk_change {m = n} device r) =
    let ok = Reaches-CacheOk n r in record { below = ok.below; apart = ok.apart }

-- In every state that a volume reaches, requests for the entries in two different places give two
-- different inodes, whoever holds which inodes.
pub inode_for-differs :
    {S : Type 0} (alive alive' : ℕ → Bool) (now later : ℕ) (d d' : FatDirectory)
    (e e' : FatDirEntry) (idx idx' i j : ℕ) (m m1 m2 : Mounted S)
    → Reaches m
    → Elsewhere d idx d' idx'
    → inode_for alive now d e idx m ≡ (m1, done i)
    → inode_for alive' later d' e' idx' m1 ≡ (m2, done j)
    → i ≢ j
unfolding inode_for
inode_for-differs {S} alive alive' now later d d' e e' idx idx' i j m m1 m2 r x h h' same =
    let k = key_of d idx in
    let l = key_of d' idx' in
    let other = Elsewhere-key d idx d' idx' x in
    let first = cached_from alive now d idx e i m m1 (get k m.ino_cache) refl h in
    let second = cached_from alive' later d' idx' e' j m1 m2 (get l m1.ino_cache) refl h' in
    let still =
      subst (λ (t : Mounted S). get k t.ino_cache ≡ some i)
        (ap (λ (t : Mounted S × Outcome ℕ). t.0) h')
        (keeps_other k i alive' later d' e' idx' m1 (get l m1.ino_cache) other first) in
    let ok1 : CacheOk m1 =
      subst (λ (t : Mounted S × Outcome ℕ). CacheOk t.0) h
        (requested now d e idx alive m (Reaches-CacheOk m r)) in
    let ok2 : CacheOk m2 =
      subst (λ (t : Mounted S × Outcome ℕ). CacheOk t.0) h'
        (requested later d' e' idx' alive' m1 ok1) in
    let one = ok2.apart l k i (second ∙ ap some (sym same)) still in cc
