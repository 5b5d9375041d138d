-- ===== src/Memory/Slab/Chain.antt =====
-- The list of free blocks in the heap.
use zenos.Common.{
  ℕ, zero, suc, ◌≡◌, ◌≢◌, refl, sym, ap, ◌∙◌, List, [], ◌∷◌, Option, none, some, arith, ◌==◌,
  length, All, All-get, All-remove_at, get_elem?, remove_at, if_of_true, if_of_false, ==_refl,
  Bool-cases, inl, inr,
}
use zenos.Memory.Slab.{BlockMeta, Blocks, store_block, unlink_prev, link_prev}

-- From `head` on the blocks `free` follow each other by `next`.
abbrev pub Chain : Blocks → Option ℕ → List ℕ → Type 0
Chain h head [] = head ≡ none
Chain h head (a ∷ free) = (head ≡ some a) × Chain h (h a).next free

abbrev pub Distinct : List ℕ → Type 0
Distinct [] = Unit
Distinct (a ∷ rest) = All (λ b. a ≢ b) rest × Distinct rest

pub store_block_self : (h : Blocks) (a : ℕ) (m : BlockMeta) → store_block h a m a ≡ m
store_block_self h a m = if_of_true {b = a == a} m (h a) (==_refl a)

pub store_block_ne : (h : Blocks) (a b : ℕ) (m : BlockMeta) → a ≢ b → store_block h a m b ≡ h b
store_block_ne h a b m n = if_of_false {b = a == b} m (h b) (ground arith)

-- Heaps that agree on `next` along a chain, and on `used` for a list of blocks.
pub Chain-agree :
    (h k : Blocks) (head : Option ℕ) (free : List ℕ)
    → All (λ a. (k a).next ≡ (h a).next) free
    → Chain h head free
    → Chain k head free
Chain-agree h k head [] e c = c
Chain-agree h k head (a ∷ free) e c = (c.0, Chain-agree h k (k a).next free e.1 (rw e.0 c.1))

pub All-zip :
    {P Q R : ℕ → Type 0} (xs : List ℕ)
    → ((a : ℕ) → P a → Q a → R a)
    → All P xs
    → All Q xs
    → All R xs
All-zip [] f p q = tt
All-zip (x ∷ xs) f p q = (f x p.0 q.0, All-zip xs f p.1 q.1)

pub All-map : {P Q : ℕ → Type 0} (xs : List ℕ) → ((a : ℕ) → P a → Q a) → All P xs → All Q xs
All-map [] f p = tt
All-map (x ∷ xs) f p = (f x p.0, All-map xs f p.1)

-- A write that keeps a part of the block keeps it everywhere.
pub store_block-keeps :
    {A : Type 0} (part : BlockMeta → A) (h : Blocks) (n : ℕ) (m : BlockMeta) (a : ℕ)
    → part m ≡ part (h n)
    → part (store_block h n m a) ≡ part (h a)
store_block-keeps part h n m a e = elim (Bool-cases (n == a)) [
  | inl s ↦ ap part (if_of_true {b = n == a} m (h a) s) ∙ (e ∙ ap (λ b. part (h b)) (ground arith))
  | inr s ↦ ap part (if_of_false {b = n == a} m (h a) s)
]

-- A change of `prev` alone.
pub unlink_prev-next : (o : Option ℕ) (h : Blocks) (a : ℕ) → (unlink_prev o h a).next ≡ (h a).next
unlink_prev-next none h a = refl
unlink_prev-next (some n) h a = store_block-keeps (λ m. m.next) h n _ a refl

pub unlink_prev-used : (o : Option ℕ) (h : Blocks) (a : ℕ) → (unlink_prev o h a).used ≡ (h a).used
unlink_prev-used none h a = refl
unlink_prev-used (some n) h a = store_block-keeps (λ m. m.used) h n _ a refl

pub link_prev-next :
    (o : Option ℕ) (bm : ℕ) (h : Blocks) (a : ℕ) → (link_prev o bm h a).next ≡ (h a).next
link_prev-next none bm h a = refl
link_prev-next (some n) bm h a = store_block-keeps (λ m. m.next) h n _ a refl

pub link_prev-used :
    (o : Option ℕ) (bm : ℕ) (h : Blocks) (a : ℕ) → (link_prev o bm h a).used ≡ (h a).used
link_prev-used none bm h a = refl
link_prev-used (some n) bm h a = store_block-keeps (λ m. m.used) h n _ a refl

-- A list of blocks that are all different, less the one at a place.
pub Distinct-remove_at : (xs : List ℕ) (i : ℕ) → Distinct xs → Distinct (remove_at xs i)
Distinct-remove_at [] i d = tt
Distinct-remove_at (x ∷ xs) zero d = d.1
Distinct-remove_at (x ∷ xs) (suc i) d =
    (All-remove_at (λ b. x ≢ b) xs i d.0, Distinct-remove_at xs i d.1)

pub some_injective : {a b : ℕ} → some a ≡ some b → a ≡ b
some_injective q = cc

pub Distinct-others :
    (xs : List ℕ) (i a : ℕ)
    → Distinct xs
    → get_elem? xs i ≡ some a
    → All (λ b. a ≢ b) (remove_at xs i)
Distinct-others [] i a d e = tt
Distinct-others (x ∷ xs) zero a d e = rw (← some_injective e) d.0
Distinct-others (x ∷ xs) (suc i) a d e =
    ((λ s. All-get (λ b. x ≢ b) xs i d.0 e (sym s)), Distinct-others xs i a d.1 e)

pub length-remove_at :
    (xs : List ℕ) (i a : ℕ) → get_elem? xs i ≡ some a → length xs ≡ suc (length (remove_at xs i))
length-remove_at [] i a e = cc
length-remove_at (x ∷ xs) zero a e = refl
length-remove_at (x ∷ xs) (suc i) a e = ap suc (length-remove_at xs i a e)
