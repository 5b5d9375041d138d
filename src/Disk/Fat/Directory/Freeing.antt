-- ===== src/Disk/Fat/Directory/Freeing.antt =====
-- The removal of a file gives back the clusters of its chain, and no others.
use zenos.Common.{
  ℕ, zero, suc, ◌%◌, ◌<◌, ◌≤◌, ◌≡◌, ◌≢◌, sym, ap, subst, ◌∙◌, true, false, List, [], ◌∷◌, All,
  arith, if◌then◌else◌, if_of_true, if_of_false, length,
}
use zenos.Disk.Device.{BlockDevice, M, done, pure, ◌>>◌, then_run}
use zenos.Disk.Device.Reliable.{Disk}
use zenos.Disk.Fat.Bpb.{Volume, FatType, fat12, fat16, fat32}
use zenos.Disk.Fat.Table.{fat_free, is_eoc, write_entry}
use zenos.Disk.Fat.Table.Place.{Geometry, InFat, tables_end}
use zenos.Disk.Fat.Table.Reading.{entry_at, read_entry-Reads}
use zenos.Disk.Fat.Table.Slots.{AllBytes, entry_limit}
use zenos.Disk.Fat.Table.Writing.{Written, write_entry-Writes}
use zenos.Disk.Fat.Table.Allocation.{Whole}
use zenos.Disk.Fat.Directory.{free_chain}

-- The chain of clusters from the first on, up to an entry that ends it.
abbrev pub Chain : Volume → (ℕ → ℕ) → ℕ → List ℕ → Type 0
Chain v img c [] = is_eoc v.kind (entry_at v img c) ≡ true
Chain v img c (d ∷ ds) =
    (is_eoc v.kind (entry_at v img c) ≡ false) × (entry_at v img c ≡ d) × Chain v img d ds

abbrev pub Distinct : List ℕ → Type 0
Distinct [] = Unit
Distinct (x ∷ xs) = All (λ y. x ≢ y) xs × Distinct xs

-- What the freeing of these clusters leaves.
pub record Freed (v : Volume) (cs : List ℕ) (img img' : ℕ → ℕ) : Type 0 where
  pub free : All (λ c. entry_at v img' c ≡ fat_free) cs
  pub others : (d : ℕ) → InFat v d → All (λ c. c ≢ d) cs → entry_at v img' d ≡ entry_at v img d
  pub data_kept : (j : ℕ) → tables_end v ≤ j → img' j ≡ img j

Chain-same :
    (v : Volume) (img img' : ℕ → ℕ) (c : ℕ) (ds : List ℕ)
    → All (λ x. entry_at v img' x ≡ entry_at v img x) (c ∷ ds)
    → Chain v img c ds
    → Chain v img' c ds
Chain-same v img img' c [] s h = rw s.0 h
Chain-same v img img' c (d ∷ ds) s h = (rw s.0 h.0, s.0 ∙ h.1, Chain-same v img img' d ds s.1 h.2)

All-map2 :
    {P Q R : ℕ → Type 0} (xs : List ℕ)
    → ((x : ℕ) → P x → Q x → R x)
    → All P xs
    → All Q xs
    → All R xs
All-map2 [] f p q = tt
All-map2 (x ∷ xs) f p q = (f x p.0 q.0, All-map2 xs f p.1 q.1)

zero_mod : (t : FatType) → 0 % entry_limit t ≡ 0
zero_mod fat12 = omega arith
zero_mod fat16 = omega arith
zero_mod fat32 = omega arith

module _ {S : Type 0} {dev : BlockDevice S} (disk : Disk dev) (v : Volume)
    (g : Geometry v disk.size) where
  after_entry : ℕ → ℕ → ℕ → M S (Unit {0})
  after_entry fuel c next = do
    write_entry dev v c 0
    if is_eoc v.kind next then pure tt else free_chain dev v fuel next

  abbrev after_write : ℕ → ℕ → Unit {0} → M S (Unit {0})
  after_write fuel next u = if is_eoc v.kind next then pure tt else free_chain dev v fuel next

  -- One turn of the loop.
  turn :
      (fuel c : ℕ) (s : S)
      → Whole v c
      → AllBytes (disk.image s)
      → (s' : S) × (free_chain dev v (suc fuel) c s
          ≡ after_write fuel (entry_at v (disk.image s) c) tt s')
        × Written disk v g c 0 (disk.image s) (disk.image s')
  unfolding free_chain after_entry
  turn fuel c s w b =
      let (s1, e1, i1) = read_entry-Reads disk v g c s w.0 in
      let (img', (s2, e2, i2), k) =
        write_entry-Writes disk v g c 0 s1 w.0 w.1 (subst AllBytes (sym i1) b) in
      (
        s2,
        ap (then_run (after_entry fuel c)) e1
            ∙ ap (then_run (after_write fuel (entry_at v (disk.image s) c))) e2,
        subst (Written disk v g c 0 (disk.image s)) (sym i2)
            (subst (λ t. Written disk v g c 0 t img') i1 k),
      )

  -- A chain of distinct clusters is given back by the loop that frees it, with fuel for each of them:
  -- their entries are free, and the other entries and the bytes behind the tables stay.
  pub free_chain-Frees :
      (fuel c : ℕ) (ds : List ℕ) (s : S)
      → Chain v (disk.image s) c ds
      → Distinct (c ∷ ds)
      → All (Whole v) (c ∷ ds)
      → AllBytes (disk.image s)
      → length ds < fuel
      → (s' : S) × (free_chain dev v fuel c s ≡ (s', done tt))
        × Freed v (c ∷ ds) (disk.image s) (disk.image s')
  free_chain-Frees zero c ds s h n w b l = absurd (omega arith)
  free_chain-Frees (suc fuel) c [] s h n w b l =
      let (s1, e1, k) = turn fuel c s w.0 b in
      (
        s1,
        e1 ∙ ap (λ (t : M S (Unit {0})). t s1) (if_of_true _ _ h),
        record {
          free = (k.same ∙ zero_mod v.kind, tt);
          others = λ d f o. k.others d f o.0;
          data_kept = k.data_kept;
        },
      )
  free_chain-Frees (suc fuel) c (d ∷ ds) s h n w b l =
      let (s1, e1, k) = turn fuel c s w.0 b in
      let kept : All (λ x. entry_at v (disk.image s1) x ≡ entry_at v (disk.image s) x) (d ∷ ds) =
        All-map2 (d ∷ ds) (λ x ne wx. k.others x wx.0 ne) n.0 w.1 in
      let (s2, e2, f) =
        free_chain-Frees fuel d ds s1 (Chain-same v (disk.image s) (disk.image s1) d ds kept h.2)
          n.1 w.1 k.still_bytes (omega arith) in
      (
        s2,
        e1
            ∙ ap (λ (t : M S (Unit {0})). t s1) (if_of_false _ _ h.0)
            ∙ ap (λ x. free_chain dev v fuel x s1) h.1
            ∙ e2,
        record {
          free = (
            f.others c w.0.0 (All-map2 (d ∷ ds) (λ x ne wx q. ne (sym q)) n.0 n.0)
                ∙ k.same
                ∙ zero_mod v.kind,
            f.free,
          );
          others = λ y fy o. f.others y fy o.1 ∙ k.others y fy o.0;
          data_kept = λ j q. f.data_kept j q ∙ k.data_kept j q;
        },
      )
