-- ===== src/Disk/Fat/File/Chain.antt =====
-- The chain of clusters that holds a file, and the way along it.
use native.Mathlib.Nat.{
  mul-le-mul_right, le-add_right, mul-add-div_right, mul-add-mod_self_right, div-eq_of_lt,
  mod-eq_of_lt,
}
use zenos.Common.{
  ℕ, zero, suc, ◌+◌, ◌*◌, ◌/◌, ◌%◌, ◌<◌, ◌≤◌, ◌≡◌, refl, ap, subst, ◌∙◌, false, Option, none, some,
  arith, if◌then◌else◌, le→not_ltb, if_of_false,
}
use zenos.Disk.Device.{BlockDevice, M, done, pure, then_run}
use zenos.Disk.Device.Reliable.{Disk, Does}
use zenos.Disk.Fat.Bpb.{Volume, cluster_to_sector, bytes_per_cluster}
use zenos.Disk.Fat.Table.{byte_offset, is_eoc, read_entry}
use zenos.Disk.Fat.Table.Place.{Geometry, InFat}
use zenos.Disk.Fat.Table.Reading.{entry_at, read_entry-Reads}
use zenos.Disk.Fat.File.{skip}

-- Where the bytes of a cluster begin.
abbrev pub cluster_start : Volume → ℕ → ℕ
cluster_start v c = byte_offset v (cluster_to_sector v.bpb c)

-- The cluster so many links along the chain.
abbrev pub nth : Volume → (ℕ → ℕ) → ℕ → ℕ → ℕ
nth v img zero first = first
nth v img (suc k) first = entry_at v img (nth v img k first)

-- Byte `i` of the chain.
abbrev pub content : Volume → (ℕ → ℕ) → ℕ → ℕ → ℕ
content v img first i =
    img (
      cluster_start v (nth v img (i / bytes_per_cluster v.bpb) first) + i % bytes_per_cluster v.bpb)

-- The clusters that hold the bytes of a file are data clusters on the disk, and the chain does not end
-- before them.
pub record Stored (v : Volume) (size : ℕ) (img : ℕ → ℕ) (first file_size : ℕ) : Type 0 where
  pub some_bytes : 0 < bytes_per_cluster v.bpb
  pub on_disk :
      (k : ℕ)
      → k * bytes_per_cluster v.bpb < file_size
      → (2 ≤ nth v img k first)
        × InFat v (nth v img k first)
        × (cluster_start v (nth v img k first) + bytes_per_cluster v.bpb ≤ size)
  pub goes_on :
      (k : ℕ)
      → (k + 1) * bytes_per_cluster v.bpb < file_size
      → is_eoc v.kind (nth v img (k + 1) first) ≡ false

pub content-at :
    (v : Volume) (img : ℕ → ℕ) (first k o : ℕ)
    → o < bytes_per_cluster v.bpb
    → content v img first (k * bytes_per_cluster v.bpb + o)
      ≡ img (cluster_start v (nth v img k first) + o)
content-at v img first k o h =
    let cs = bytes_per_cluster v.bpb in
    let q : (k * cs + o) / cs ≡ k =
      mul-add-div_right (omega arith) k o ∙ omega (arith, div-eq_of_lt h) in
    let m : (k * cs + o) % cs ≡ o = mul-add-mod_self_right k cs o ∙ mod-eq_of_lt h in rw (q, m) refl

module _ {S : Type 0} {dev : BlockDevice S} (disk : Disk dev) (v : Volume)
    (g : Geometry v disk.size) (img : ℕ → ℕ) (first file_size : ℕ)
    (st : Stored v disk.size img first file_size) where
  pub skip-Does :
      (n k : ℕ) (s : S)
      → disk.image s ≡ img
      → (k + n) * bytes_per_cluster v.bpb < file_size
      → Does disk (skip dev v n (nth v img k first)) s (some (nth v img (k + n) first)) img
  unfolding skip
  skip-Does zero k s i h = (s, ap (λ j. (s, done (some (nth v img j first)))) (omega arith), i)
  skip-Does (suc n) k s i h =
      let (two, f, room) = st.on_disk k (before k (suc n) h) in
      let (s1, e1, i1) = read_entry-Reads disk v g (nth v img k first) s f in
      let e2 : read_entry dev v (nth v img k first) s ≡ (s1, done (nth v img (suc k) first)) =
        e1 ∙ ap (λ t. (s1, done (entry_at v t (nth v img k first)))) i in
      let go =
        subst (λ j. is_eoc v.kind (nth v img j first) ≡ false) (add_one k)
          (st.goes_on k (next_before k n h)) in
      let (s2, e3, i2) = skip-Does n (suc k) s1 (i1 ∙ i) (moved k n h) in
      (
        s2,
        ap (λ (m : M S (Option ℕ)). m s) (if_of_false _ _ (le→not_ltb _ 2 two))
            ∙ ap (then_run skip_next) e2
            ∙ ap (λ (m : M S (Option ℕ)). m s1) (if_of_false _ _ go)
            ∙ e3
            ∙ ap (λ j. (s2, done (some (nth v img j first)))) (shift k n),
        i2,
      )
    where
      skip_next : ℕ → M S (Option ℕ)
      skip_next next = if is_eoc v.kind next then pure none else skip dev v n next

      add_one : (k : ℕ) → k + 1 ≡ suc k
      add_one k = omega arith

      shift : (k n : ℕ) → suc k + n ≡ k + suc n
      shift k n = omega arith

      before :
          (k n : ℕ)
          → (k + n) * bytes_per_cluster v.bpb < file_size
          → k * bytes_per_cluster v.bpb < file_size
      before k n h = omega (arith, mul-le-mul_right (bytes_per_cluster v.bpb) (le-add_right k n))

      next_before :
          (k n : ℕ)
          → (k + suc n) * bytes_per_cluster v.bpb < file_size
          → (k + 1) * bytes_per_cluster v.bpb < file_size
      next_before k n h =
          before (k + 1) n (subst (λ j. j * bytes_per_cluster v.bpb < file_size) (omega arith) h)

      moved :
          (k n : ℕ)
          → (k + suc n) * bytes_per_cluster v.bpb < file_size
          → (suc k + n) * bytes_per_cluster v.bpb < file_size
      moved k n h = subst (λ j. j * bytes_per_cluster v.bpb < file_size) (omega arith) h
