-- ===== src/Disk/Fat/File/Copy.antt =====
-- Copies between buffers, byte by byte.
use zenos.Common.{
  ℕ, zero, suc, ◌+◌, ◌-◌, ◌<◌, ◌≤◌, ◌≡◌, ◌⊎◌, inl, inr, refl, ap, ◌∙◌, List, [], ◌∷◌, arith, length,
  get_or, drop,
}
use zenos.Disk.Gpt.{take}
use zenos.Disk.Device.Reliable.{range}
use zenos.Disk.Fat.File.{copy_into, slice}

pub length-copy_into :
    (dst : List ℕ) (o : ℕ) (src : List ℕ) → length (copy_into dst o src) ≡ length dst
length-copy_into [] o src = refl
length-copy_into (b ∷ dst) zero [] = refl
length-copy_into (b ∷ dst) zero (x ∷ src) = ap suc (length-copy_into dst zero src)
length-copy_into (b ∷ dst) (suc o) src = ap suc (length-copy_into dst o src)

pub copy_into-outside :
    (dst : List ℕ) (o : ℕ) (src : List ℕ) (i : ℕ)
    → (i < o) ⊎ (o + length src ≤ i)
    → get_or (copy_into dst o src) i 0 ≡ get_or dst i 0
copy_into-outside [] o src i h = refl
copy_into-outside (b ∷ dst) zero [] i h = refl
copy_into-outside (b ∷ dst) zero (x ∷ src) zero (inl h) = absurd (omega arith)
copy_into-outside (b ∷ dst) zero (x ∷ src) zero (inr h) = absurd (omega arith)
copy_into-outside (b ∷ dst) zero (x ∷ src) (suc i) h =
    copy_into-outside dst zero src i (ground arith)
copy_into-outside (b ∷ dst) (suc o) src zero h = refl
copy_into-outside (b ∷ dst) (suc o) src (suc i) h = copy_into-outside dst o src i (ground arith)

pub copy_into-inside :
    (dst : List ℕ) (o : ℕ) (src : List ℕ) (i : ℕ)
    → i < length src
    → o + i < length dst
    → get_or (copy_into dst o src) (o + i) 0 ≡ get_or src i 0
copy_into-inside [] o src i h l = absurd (omega arith)
copy_into-inside (b ∷ dst) zero [] i h l = absurd (omega arith)
copy_into-inside (b ∷ dst) zero (x ∷ src) zero h l = refl
copy_into-inside (b ∷ dst) zero (x ∷ src) (suc i) h l =
    let e : 0 + suc i ≡ suc (0 + i) = omega arith in
    ap (λ j. get_or (copy_into (b ∷ dst) zero (x ∷ src)) j 0) e
    ∙ copy_into-inside dst zero src i (omega arith) (omega arith)
copy_into-inside (b ∷ dst) (suc o) src i h l =
    let e : suc o + i ≡ suc (o + i) = omega arith in
    ap (λ j. get_or (copy_into (b ∷ dst) (suc o) src) j 0) e
    ∙ copy_into-inside dst o src i h (omega arith)

take-range : (img : ℕ → ℕ) (o n m : ℕ) → m ≤ n → take m (range img o n) ≡ range img o m
take-range img o n zero h = refl
take-range img o zero (suc m) h = absurd (omega arith)
take-range img o (suc n) (suc m) h = ap (◌∷◌ (img o)) (take-range img (suc o) n m (omega arith))

drop-range : (img : ℕ → ℕ) (o n a : ℕ) → a ≤ n → drop a (range img o n) ≡ range img (o + a) (n - a)
drop-range img o n zero h =
    let e : o ≡ o + 0 = omega arith in
    let q : n ≡ n - 0 = omega arith in ap (range img o) q ∙ ap (λ j. range img j (n - 0)) e
drop-range img o zero (suc a) h = absurd (omega arith)
drop-range img o (suc n) (suc a) h =
    drop-range img (suc o) n a (omega arith)
    ∙ ap (λ j. range img j (n - a)) (up o a)
    ∙ ap (range img (o + suc a)) (less n a)
  where
    up : (o a : ℕ) → suc o + a ≡ o + suc a
    up o a = omega arith

    less : (n a : ℕ) → n - a ≡ suc n - suc a
    less n a = omega arith

pub slice-range :
    (img : ℕ → ℕ) (o n a m : ℕ) → a + m ≤ n → slice (range img o n) a m ≡ range img (o + a) m
slice-range img o n a m h =
    ap (take m) (drop-range img o n a (omega arith))
    ∙ take-range img (o + a) (n - a) m (omega arith)
