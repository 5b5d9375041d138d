-- ===== src/Disk/Device/Reliable.antt =====
-- Devices that do what the trait's documentation says, and the rules for programs over them.
use zenos.Common.{
  ℕ, zero, suc, ◌+◌, ◌-◌, ◌<◌, ◌≤◌, ◌≡◌, ◌⊎◌, refl, ap, ◌∙◌, true, ◌&&◌, List, [], ◌∷◌, some, arith,
  if◌then◌else◌, ltb, leb, length, get_or,
}
use zenos.Disk.Device.{BlockDevice, done, M, ◌>>=◌, then_run, read_at, write_at}

-- The bytes of a disk from a place on.
abbrev pub range : (ℕ → ℕ) → ℕ → ℕ → List ℕ
range img o zero = []
range img o (suc n) = img o ∷ range img (suc o) n

-- The disk after a write of the bytes at a place.
abbrev pub patch : (ℕ → ℕ) → ℕ → List ℕ → ℕ → ℕ
patch img o bytes i = if leb o i && ltb i (o + length bytes) then get_or bytes (i - o) 0 else img i

-- A disk of `size` bytes and a cursor: a seek moves it, a read fills the whole buffer from there, a
-- write puts the whole buffer there.
pub record Disk {S : Type 0} (dev : BlockDevice S) : Type 0 where
  pub size : ℕ
  pub image : S → ℕ → ℕ
  pub cursor : S → ℕ
  pub seeks :
      (o : ℕ) (s : S)
      → o ≤ size
      → (s' : S) × (dev.seek o s ≡ (s', true)) × (cursor s' ≡ o) × (image s' ≡ image s)
  pub reads :
      (buf : List ℕ) (s : S)
      → cursor s + length buf ≤ size
      → (s' : S) × (dev.read buf s ≡ (s', some (range (image s) (cursor s) (length buf))))
        × (image s' ≡ image s)
  pub writes :
      (buf : List ℕ) (s : S)
      → cursor s + length buf ≤ size
      → (s' : S) × (dev.write buf s ≡ (s', true)) × (image s' ≡ patch (image s) (cursor s) buf)

module _ {S : Type 0} {dev : BlockDevice S} (disk : Disk dev) where
  open disk use {size, image, cursor, seeks, reads, writes}

  -- The program returns this value, and leaves the disk with these bytes.
  abbrev pub Does : {A : Type 0} → M S A → S → A → (ℕ → ℕ) → Type 0
  Does m s a img = (s' : S) × (m s ≡ (s', done a)) × (image s' ≡ img)

  pub Does-bind :
      {A B : Type 0} (m : M S A) (f : A → M S B) (s : S) {a : A} {b : B} {img img' : ℕ → ℕ}
      → Does m s a img
      → ((s' : S) → image s' ≡ img → Does (f a) s' b img')
      → Does (m >>= f) s b img'
  Does-bind m f s (s', e, q) k = let (s2, e2, q2) = k s' q in (s2, ap (then_run f) e ∙ e2, q2)

  pub Does-next :
      {A B : Type 0} (m : M S A) (f : A → M S B) (s s1 : S) {a : A} {b : B} {img : ℕ → ℕ}
      → m s ≡ (s1, done a)
      → Does (f a) s1 b img
      → Does (m >>= f) s b img
  Does-next m f s s1 e (s2, e2, q2) = (s2, ap (then_run f) e ∙ e2, q2)

  pub read_at-Does :
      (o : ℕ) (buf : List ℕ) (s : S)
      → o + length buf ≤ size
      → Does (read_at dev o buf) s (range (image s) o (length buf)) (image s)
  unfolding read_at
  read_at-Does o buf s h =
      let (s1, e1, c1, i1) = seeks o s (omega arith) in
      let (s2, e2, i2) = reads buf s1 (rw c1 h) in (s2, rw e1 (rw e2 (rw (c1, i1) refl)), i2 ∙ i1)

  pub write_at-Does :
      (o : ℕ) (buf : List ℕ) (s : S)
      → o + length buf ≤ size
      → Does (write_at dev o buf) s tt (patch (image s) o buf)
  unfolding write_at
  write_at-Does o buf s h =
      let (s1, e1, c1, i1) = seeks o s (omega arith) in
      let (s2, e2, i2) = writes buf s1 (rw c1 h) in (s2, rw e1 (rw e2 refl), i2 ∙ rw (c1, i1) refl)

pub length-range : (img : ℕ → ℕ) (o n : ℕ) → length (range img o n) ≡ n
length-range img o zero = refl
length-range img o (suc n) = ap suc (length-range img (suc o) n)

pub get_or-range : (img : ℕ → ℕ) (o n k d : ℕ) → k < n → get_or (range img o n) k d ≡ img (o + k)
get_or-range img o zero k d h = absurd (omega arith)
get_or-range img o (suc n) zero d h = ap img (omega arith)
get_or-range img o (suc n) (suc k) d h =
    get_or-range img (suc o) n k d (omega arith) ∙ ap img (omega arith)

-- A write leaves the bytes outside of it.
pub patch-outside :
    (img : ℕ → ℕ) (o : ℕ) (bytes : List ℕ) (i : ℕ)
    → (i < o) ⊎ (o + length bytes ≤ i)
    → patch img o bytes i ≡ img i
patch-outside img o bytes i h = ground arith

pub patch-inside :
    (img : ℕ → ℕ) (o : ℕ) (bytes : List ℕ) (k : ℕ)
    → k < length bytes
    → patch img o bytes (o + k) ≡ get_or bytes k 0
patch-inside img o bytes k h = ground (arith, ap (λ j. get_or bytes j 0) (back k))
  where
    back : (k : ℕ) → o + k - o ≡ k
    back k = omega arith
