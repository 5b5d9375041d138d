-- ===== src/Disk/Fat/Table/Allocation.antt =====
-- `allocate_cluster` takes the first free cluster and ends a chain with it.
use zenos.Common.{
  ℕ, zero, suc, ◌+◌, ◌<◌, ◌≤◌, ◌≡◌, ◌≢◌, inl, inr, refl, sym, ap, subst, ◌∙◌, arith, ◌==◌,
  if◌then◌else◌, Bool-cases, ==_iff, if_of_true, if_of_false,
}
use zenos.Vfs.Error.{other}
use zenos.Disk.Device.{BlockDevice, failed, pure, M, ◌>>◌, then_run}
use zenos.Disk.Device.Reliable.{Disk, Does}
use zenos.Disk.Fat.Bpb.{Volume}
use zenos.Disk.Fat.Table.{
  fat_free, end_of_chain, no_free_clusters, write_entry, allocate_from, allocate_cluster,
  total_clusters,
}
use zenos.Disk.Fat.Table.Place.{Geometry, InFat, entry_place, entry_width}
use zenos.Disk.Fat.Table.Reading.{entry_at, read_entry-Reads}
use zenos.Disk.Fat.Table.Slots.{AllBytes}
use zenos.Disk.Fat.Table.Writing.{Written, write_entry-Writes}

-- The cluster has an entry, and it lies in one sector.
abbrev pub Whole : Volume → ℕ → Type 0
Whole v c = InFat v c × (entry_place v c + entry_width v.kind ≤ v.bpb.bytes_per_sector)

module _ {S : Type 0} {dev : BlockDevice S} (disk : Disk dev) (v : Volume)
    (g : Geometry v disk.size) where
  -- What an allocation over a range of clusters does.
  pub data Allocates (m : M S ℕ) (s : S) (lo hi : ℕ) : Type 0 where
    takes :
        (c : ℕ) (img' : ℕ → ℕ)
        → lo ≤ c
        → c < hi
        → entry_at v (disk.image s) c ≡ fat_free
        → ((d : ℕ) → lo ≤ d → d < c → entry_at v (disk.image s) d ≢ fat_free)
        → Does disk m s c img'
        → Written disk v g c (end_of_chain v.kind) (disk.image s) img'
        → Allocates m s lo hi
    full :
        (s' : S)
        → ((d : ℕ) → lo ≤ d → d < hi → entry_at v (disk.image s) d ≢ fat_free)
        → m s ≡ (s', failed (other no_free_clusters))
        → disk.image s' ≡ disk.image s
        → Allocates m s lo hi

  -- A step over a cluster that is taken.
  passes :
      (m m' : M S ℕ) (s s1 : S) (c left : ℕ)
      → m s ≡ m' s1
      → disk.image s1 ≡ disk.image s
      → entry_at v (disk.image s) c ≢ fat_free
      → Allocates m' s1 (c + 1) (c + 1 + left)
      → Allocates m s c (c + suc left)
  passes m m' s s1 c left e i n (takes f img' lo hi z first (s2, e2, q2) w) =
      takes f img' (omega arith) (omega arith) (subst (λ t. entry_at v t f ≡ fat_free) i z)
        (λ d l h. elim (Bool-cases (d == c)) [
          | inl at_c ↦ rw ((==_iff d c).0 at_c) n
          | inr other_d ↦ subst (λ t. entry_at v t d ≢ fat_free) i (first d (ground arith) h)
        ])
        (s2, e ∙ e2, q2) (subst (λ t. Written disk v g f (end_of_chain v.kind) t img') i w)
  passes m m' s s1 c left e i n (full s2 none_free e2 q2) =
      full s2
        (λ d l h. elim (Bool-cases (d == c)) [
          | inl at_c ↦ rw ((==_iff d c).0 at_c) n
          | inr other_d ↦
              subst (λ t. entry_at v t d ≢ fat_free) i (none_free d (ground arith) (omega arith))
        ])
        (e ∙ e2) (q2 ∙ i)

  abbrev branch : ℕ → ℕ → ℕ → M S ℕ
  branch left c entry =
      if entry == fat_free
      then write_entry dev v c (end_of_chain v.kind) >> pure c
      else allocate_from dev v left (c + 1)

  allocate_from-Allocates :
      (left c : ℕ) (s : S)
      → ((d : ℕ) → c ≤ d → d < c + left → Whole v d)
      → AllBytes (disk.image s)
      → Allocates (allocate_from dev v left c) s c (c + left)
  unfolding allocate_from
  allocate_from-Allocates zero c s w b = full s (λ d lo hi. absurd (omega arith)) refl refl
  allocate_from-Allocates (suc left) c s w b =
      let (s1, e1, i1) = read_entry-Reads disk v g c s (w c (omega arith) (omega arith)).0 in
      let x = entry_at v (disk.image s) c in
      let b1 : AllBytes (disk.image s1) = subst AllBytes (sym i1) b in
      elim (Bool-cases (x == fat_free)) [
        | inl e ↦
            let (img', d, k) =
              write_entry-Writes disk v g c (end_of_chain v.kind) s1
                (w c (omega arith) (omega arith)).0 (w c (omega arith) (omega arith)).1 b1 in
            let step : allocate_from dev v (suc left) c s
                ≡ (write_entry dev v c (end_of_chain v.kind) >> pure c) s1 =
              ap (then_run (branch left c)) e1 ∙ ap (λ (t : M S ℕ). t s1) (if_of_true _ _ e) in
            takes c img' (omega arith) (omega arith) ((==_iff x fat_free).0 e)
              (λ d' l h. absurd (omega arith)) (d.0, step ∙ ap (then_run (λ u. pure c)) d.1, d.2)
              (subst (λ t. Written disk v g c (end_of_chain v.kind) t img') i1 k)
        | inr e ↦
            let step : allocate_from dev v (suc left) c s ≡ allocate_from dev v left (c + 1) s1 =
              ap (then_run (branch left c)) e1 ∙ ap (λ (t : M S ℕ). t s1) (if_of_false _ _ e) in
            passes (allocate_from dev v (suc left) c) (allocate_from dev v left (c + 1)) s s1 c left
              step i1 (λ z. absurd (ground arith))
              (allocate_from-Allocates left (c + 1) s1 (λ d lo hi. w d (omega arith) (omega arith))
                b1)
      ]

  -- On a device that works, whose tables hold an entry in one sector for each data cluster: a cluster
  -- is allocated when one is free, and it is the first free one; its entry then marks the end of a
  -- chain, and no other entry and nothing behind the tables has changed. When none is free the call
  -- fails with "No free clusters" and changes nothing.
  pub allocate_cluster-Allocates :
      (s : S)
      → ((d : ℕ) → 2 ≤ d → d < 2 + total_clusters v → Whole v d)
      → AllBytes (disk.image s)
      → Allocates (allocate_cluster dev v) s 2 (2 + total_clusters v)
  unfolding allocate_cluster
  allocate_cluster-Allocates s w b = allocate_from-Allocates (total_clusters v) 2 s w b
