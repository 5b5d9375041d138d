-- ===== src/Memory/Slab/Link.antt =====
-- The linking of the blocks of a new slab, and where they lie.
use zenos.Common.{
  ℕ, zero, suc, ◌+◌, ◌-◌, ◌*◌, ◌<◌, ◌≤◌, ◌≡◌, ◌≢◌, refl, sym, ap, subst, ◌∙◌, false, List, [], ◌∷◌,
  Option, none, some, arith, length, All,
}
use native.Mathlib.Nat.{mul-le-mul_right, suc-mul, mul_comm, div-add-mod}
use zenos.Memory.Slab.{
  BlockMeta, Blocks, new_block, block_meta_size, slab_meta_size, slab_page, max_slab_pages,
  store_block, block_addr, blocks_for, set_next, set_prev, link_block, link_loop,
}
use zenos.Memory.Slab.Chain.{
  Chain, Distinct, store_block_self, store_block_ne, store_block-keeps, some_injective,
}

-- The addresses of `left` blocks from block `i` on.
abbrev pub block_list : ℕ → ℕ → ℕ → ℕ → List ℕ
block_list base size zero i = []
block_list base size (suc left) i = block_addr base size i ∷ block_list base size left (suc i)

-- The first of them.
abbrev pub first_block : ℕ → ℕ → ℕ → ℕ → Option ℕ
first_block base size zero i = none
first_block base size (suc left) i = some (block_addr base size i)

-- A later block lies behind the whole of an earlier one.
pub block_addr-apart :
    (base size i j : ℕ)
    → i < j
    → block_addr base size i + block_meta_size + size ≤ block_addr base size j
block_addr-apart base size i j h = omega (
  arith,
  mul-le-mul_right {m = suc i} (block_meta_size + size) h,
  suc-mul i (block_meta_size + size),
)

-- A block lies in the pages of the slab.
pub block_addr-inside :
    (base size i : ℕ)
    → i < blocks_for size
    → block_addr base size i + block_meta_size + size ≤ base + max_slab_pages * slab_page
block_addr-inside base size i h = omega (
  arith,
  mul-le-mul_right {m = suc i} (block_meta_size + size) h,
  suc-mul i (block_meta_size + size),
  div-add-mod (max_slab_pages * slab_page - slab_meta_size) (block_meta_size + size),
  mul_comm (blocks_for size) (block_meta_size + size),
)

pub block_addr-lt : (base size i j : ℕ) → i < j → block_addr base size i < block_addr base size j
block_addr-lt base size i j h = omega (arith, block_addr-apart base size i j h)

-- What the linking of one block does.
abbrev pub Behind : Option ℕ → ℕ → Type 0
Behind none bm = Unit
Behind (some p) bm = p < bm

link_block-other :
    (bm : ℕ) (prev : Option ℕ) (h : Blocks) (b : ℕ)
    → b < bm
    → prev ≢ some b
    → link_block bm prev h b ≡ h b
link_block-other bm none h b l n = store_block_ne h bm b new_block (λ e. absurd (omega arith))
link_block-other bm (some p) h b l n =
    store_block_ne (set_next (store_block h bm new_block) p bm) bm b
      (record (set_next (store_block h bm new_block) p bm bm) { prev = some p })
      (λ e. absurd (omega (arith, e)))
    ∙ (store_block_ne (store_block h bm new_block) p b
          (record ((store_block h bm new_block) p) { next = some bm }) (λ e. n (ap some e))
        ∙ store_block_ne h bm b new_block (λ e. absurd (omega (arith, e))))

link_block_self :
    (bm : ℕ) (prev : Option ℕ) (h : Blocks)
    → Behind prev bm
    → ((link_block bm prev h bm).next ≡ none) × ((link_block bm prev h bm).used ≡ false)
link_block_self bm none h l = (
  ap (λ m. m.next) (store_block_self h bm new_block),
  ap (λ m. m.used) (store_block_self h bm new_block),
)
link_block_self bm (some p) h l = (
  set_prev-part (λ m. m.next) refl ∙ ap (λ m. m.next) second,
  set_prev-part (λ m. m.used) refl ∙ ap (λ m. m.used) second,
)
  where
    set_prev-part :
        {A : Type 0} (part : BlockMeta → A)
        → part (record (set_next (store_block h bm new_block) p bm bm) { prev = some p })
          ≡ part (set_next (store_block h bm new_block) p bm bm)
        → part (set_prev (set_next (store_block h bm new_block) p bm) bm p bm)
          ≡ part (set_next (store_block h bm new_block) p bm bm)
    set_prev-part part e =
        store_block-keeps part (set_next (store_block h bm new_block) p bm) bm _ bm e

    second : set_next (store_block h bm new_block) p bm bm ≡ new_block
    second =
        store_block_ne (store_block h bm new_block) p bm
          (record ((store_block h bm new_block) p) { next = some bm })
          (λ e. absurd (omega (arith, l, e)))
        ∙ store_block_self h bm new_block

link_block-prev :
    (bm p : ℕ) (h : Blocks)
    → p < bm
    → ((link_block bm (some p) h p).next ≡ some bm)
      × ((link_block bm (some p) h p).used ≡ (h p).used)
link_block-prev bm p h l = (
  store_block-keeps (λ m. m.next) (set_next (store_block h bm new_block) p bm) bm
        (record ((set_next (store_block h bm new_block) p bm) bm) { prev = some p }) p refl
      ∙ ap (λ m. m.next)
          (store_block_self (store_block h bm new_block) p
            (record ((store_block h bm new_block) p) { next = some bm })),
  store_block-keeps (λ m. m.used) (set_next (store_block h bm new_block) p bm) bm
        (record ((set_next (store_block h bm new_block) p bm) bm) { prev = some p }) p refl
      ∙ (store_block-keeps (λ m. m.used) (store_block h bm new_block) p
            (record ((store_block h bm new_block) p) { next = some bm }) p refl
          ∙ ap (λ m. m.used) (store_block_ne h bm p new_block (λ e. absurd (omega (arith, e))))),
)

module _ (base size : ℕ) where
  link_loop-other :
      (left i : ℕ) (prev : Option ℕ) (h : Blocks) (b : ℕ)
      → b < block_addr base size i
      → prev ≢ some b
      → link_loop base size left i prev h b ≡ h b
  unfolding link_loop
  link_loop-other zero i prev h b l n = refl
  link_loop-other (suc left) i prev h b l n =
      link_loop-other left (suc i) (some (block_addr base size i))
        (link_block (block_addr base size i) prev h) b
        (omega (arith, l, block_addr-lt base size i (suc i) (omega arith))) (λ e. absurd (differ e))
      ∙ link_block-other (block_addr base size i) prev h b l n
    where
      differ : some (block_addr base size i) ≡ some b → ⊥
      differ e = omega (arith, l, some_injective e)

  link_loop-prev :
      (left i p : ℕ) (h : Blocks)
      → p < block_addr base size i
      → (h p).next ≡ none
      → ((link_loop base size left i (some p) h p).next ≡ first_block base size left i)
        × ((link_loop base size left i (some p) h p).used ≡ (h p).used)
  unfolding link_loop
  link_loop-prev zero i p h l n = (n, refl)
  link_loop-prev (suc left) i p h l n = (
    ap (λ m. m.next) kept ∙ (link_block-prev (block_addr base size i) p h l).0,
    ap (λ m. m.used) kept ∙ (link_block-prev (block_addr base size i) p h l).1,
  )
    where
      differ : some (block_addr base size i) ≡ some p → ⊥
      differ e = omega (arith, l, some_injective e)

      kept :
          link_loop base size left
            (suc i)
            (some (block_addr base size i))
            (link_block (block_addr base size i) (some p) h)
            p
          ≡ link_block (block_addr base size i) (some p) h p
      kept =
          link_loop-other left (suc i) (some (block_addr base size i))
            (link_block (block_addr base size i) (some p) h) p
            (omega (arith, l, block_addr-lt base size i (suc i) (omega arith))) differ

  -- The blocks form a chain from the first one on, and none is in use.
  pub link_loop-Chain :
      (left i : ℕ) (prev : Option ℕ) (h : Blocks)
      → Behind prev (block_addr base size i)
      → Chain
          (link_loop base size left i prev h)
          (first_block base size left i)
          (block_list base size left i)
  unfolding link_loop
  link_loop-Chain zero i prev h l = refl
  link_loop-Chain (suc left) i prev h l = (
    refl,
    subst
        (λ o.
          Chain (link_loop base size left (suc i) (some bm) (link_block bm prev h)) o
            (block_list base size left (suc i)))
        (sym
          (link_loop-prev left (suc i) bm (link_block bm prev h)
            (block_addr-lt base size i (suc i) (omega arith)) (link_block_self bm prev h l).0).0)
        (link_loop-Chain left (suc i) (some bm) (link_block bm prev h)
          (block_addr-lt base size i (suc i) (omega arith))),
  )
    where
      bm : ℕ
      bm = block_addr base size i

  pub link_loop-unused :
      (left i : ℕ) (prev : Option ℕ) (h : Blocks)
      → Behind prev (block_addr base size i)
      → All (λ a. (link_loop base size left i prev h a).used ≡ false) (block_list base size left i)
  unfolding link_loop
  link_loop-unused zero i prev h l = tt
  link_loop-unused (suc left) i prev h l = (
    (link_loop-prev left (suc i) bm (link_block bm prev h)
          (block_addr-lt base size i (suc i) (omega arith)) (link_block_self bm prev h l).0).1
        ∙ (link_block_self bm prev h l).1,
    link_loop-unused left (suc i) (some bm) (link_block bm prev h)
        (block_addr-lt base size i (suc i) (omega arith)),
  )
    where
      bm : ℕ
      bm = block_addr base size i

  block_list-after :
      (left i j : ℕ) → i < j → All (λ b. block_addr base size i ≢ b) (block_list base size left j)
  block_list-after zero i j h = tt
  block_list-after (suc left) i j h = (
    (λ e. omega (arith, e, block_addr-lt base size i j h)),
    block_list-after left i (suc j) (omega arith),
  )

  pub block_list-Distinct : (left i : ℕ) → Distinct (block_list base size left i)
  block_list-Distinct zero i = tt
  block_list-Distinct (suc left) i =
      (block_list-after left i (suc i) (omega arith), block_list-Distinct left (suc i))

  pub length-block_list : (left i : ℕ) → length (block_list base size left i) ≡ left
  length-block_list zero i = refl
  length-block_list (suc left) i = ap suc (length-block_list left (suc i))

  pub block_list-places :
      (total left i : ℕ)
      → i + left ≤ total
      → All
          (λ a. (k : ℕ) × ((k < total) × (a ≡ block_addr base size k)))
          (block_list base size left i)
  block_list-places total zero i h = tt
  block_list-places total (suc left) i h =
      ((i, (omega arith, refl)), block_list-places total left (suc i) (omega arith))
