-- ===== src/Memory/Slab/Start.antt =====
-- A new slab, the states reached from it, and what its blocks are apart from each other.
use zenos.Common.{
  ℕ, zero, suc, ◌+◌, ◌≡◌, refl, sym, subst, Bool, List, [], ◌∷◌, Option, none, some, arith, ltb,
  if◌then◌else◌, ◌==◌, get_elem?, remove_at, if_of_false, if_cases,
}
use zenos.Memory.Slab.{
  Blocks, Slab, SlabMeta, new_meta, block_meta_size, max_slab_pages, block_addr, blocks_for,
  link_loop, map_pages, new_slab, slab_alloc, slab_dealloc,
}
use zenos.Memory.Slab.Ok.{SlabOk}
use zenos.Memory.Slab.Link.{
  block_list, first_block, link_loop-Chain, link_loop-unused, block_list-Distinct,
  length-block_list, block_list-places,
}

module _ (base size : ℕ) (h : Blocks) where
  abbrev Made : Option ℕ → SlabMeta → Type 0
  Made head meta =
      SlabOk (record { base_addr = base; slab_size = size; head = head; meta = meta })
        (link_loop base size (blocks_for size) 0 none h) (block_list base size (blocks_for size) 0)
        []

  made : Made (first_block base size (blocks_for size) 0) (new_meta size (blocks_for size))
  made = record {
    marked = refl;
    chain = link_loop-Chain base size (blocks_for size) 0 none h tt;
    free_distinct = block_list-Distinct base size (blocks_for size) 0;
    live_distinct = tt;
    free_unused = link_loop-unused base size (blocks_for size) 0 none h tt;
    live_used = tt;
    free_blocks = block_list-places base size (blocks_for size) (blocks_for size) 0 (omega arith);
    live_blocks = tt;
    in_use_live = refl;
    total_free = omega (arith, length-block_list base size (blocks_for size) 0);
    total_fits = refl;
  }

  first_block-if :
      (n : ℕ) → first_block base size n 0 ≡ (if n == 0 then none else some (block_addr base size 0))
  first_block-if zero = refl
  first_block-if (suc n) = sym (if_of_false {b = suc n == 0} none _ (ground arith))

  meta-if :
      (n : ℕ)
      → new_meta size n
        ≡ (if ltb n n then record (new_meta size n) { total = n } else new_meta size n)
  meta-if n = if_cases (λ m. new_meta size n ≡ m) (ltb n n) (λ e. refl) (λ e. refl)

  abbrev fitted : SlabMeta
  fitted =
      if ltb (blocks_for size) (blocks_for size)
      then record (new_meta size (blocks_for size)) { total = blocks_for size }
      else new_meta size (blocks_for size)

  Made-if : Made (if blocks_for size == 0 then none else some (block_addr base size 0)) fitted
  Made-if =
      subst (λ o. Made o fitted) (first_block-if (blocks_for size))
        (subst (Made (first_block base size (blocks_for size) 0)) (meta-if (blocks_for size)) made)

-- `SlabAllocator::alloc` makes a slab for as many blocks as there is room for: all are free.
pub new_slab-Ok :
    (kalloc_page : ℕ → Bool) (base size : ℕ) (h k : Blocks) (s : Slab)
    → new_slab kalloc_page base size (new_meta size (blocks_for size)) h ≡ some (s, k)
    → SlabOk s k (block_list base size (blocks_for size) 0) []
unfolding new_slab
new_slab-Ok kalloc_page base size h k s =
    if_cases (λ r. r ≡ some (s, k) → SlabOk s k (block_list base size (blocks_for size) 0) [])
      (map_pages kalloc_page max_slab_pages base)
      (λ e q.
        subst (λ (r : Slab × Blocks). SlabOk r.0 r.1 (block_list base size (blocks_for size) 0) [])
          (unwrap q) (Made-if base size h))
      (λ e q. cc)
  where
    unwrap : {a b : Slab × Blocks} → some a ≡ some b → a ≡ b
    unwrap q = cc

-- The states of a slab with the blocks that are handed out: made by `new_slab`, and changed by its
-- own `alloc` and by `dealloc` of a pointer that it handed out and that was not given back since.
pub data SlabReaches : Slab → Blocks → List ℕ → Type 0 where
  created :
      (kalloc_page : ℕ → Bool) (base size : ℕ) (h k : Blocks) (s : Slab)
      → new_slab kalloc_page base size (new_meta size (blocks_for size)) h ≡ some (s, k)
      → SlabReaches s k []
  handed_out :
      (s t : Slab) (h k : Blocks) (live : List ℕ) (a : ℕ)
      → SlabReaches s h live
      → slab_alloc s h ≡ (some (a + block_meta_size), (t, k))
      → SlabReaches t k (a ∷ live)
  given_back :
      (s : Slab) (h : Blocks) (live : List ℕ) (i a : ℕ)
      → SlabReaches s h live
      → get_elem? live i ≡ some a
      → SlabReaches
          (slab_dealloc s (a + block_meta_size) h).0
          (slab_dealloc s (a + block_meta_size) h).1
          (remove_at live i)
