-- ===== src/Memory/Heap/Laws.antt =====
-- Which class a block is taken from, and which slab it is given back to.
use zenos.Common.{
  ℕ, ◌-◌, ◌<◌, ◌≡◌, ap, ◌∙◌, false, ◌||◌, not, List, ◌∷◌, some, arith, ltb, ◌==◌, if_of_true,
  if_of_false, if_cases, ==_refl, set, get_elem?,
}
use zenos.Memory.Slab.{Slab, SlabMeta, Blocks, magic, block_meta_size, slab_dealloc, deallocate}
use zenos.Memory.Heap.{
  SlabAllocator, dealloc_class, slab_position, put_back, free_in, dealloc_at, dealloc_in_class,
  heap_dealloc,
}

-- A block put back into a slab that has another one handed out.
put_back-first :
    (a : SlabAllocator) (s : Slab) (rest : List Slab) (ptr : ℕ)
    → a.slabs ≡ s ∷ rest
    → s.meta.magic_number ≡ magic
    → 1 < s.meta.in_use
    → 0 < ptr
    → (put_back a 0 (slab_dealloc s ptr a.blocks)).slabs
      ≡ record s { head = some (ptr - block_meta_size); meta = deallocate s.meta } ∷ rest
unfolding slab_dealloc
put_back-first a s rest ptr e m u p =
    if_cases (λ (r : Slab × Blocks). (put_back a 0 r).slabs ≡ t ∷ rest)
      (not (s.meta.magic_number == magic) || s.meta.in_use == 0 || ptr == 0)
      (λ q. absurd (ground (arith, q, m)))
      (λ q.
        ap (λ (b : SlabAllocator). b.slabs) (if_of_false {b = t.meta.in_use == 0} _ _ more)
        ∙ ap (λ l. set l 0 t) e)
  where
    t : Slab
    t = record s { head = some (ptr - block_meta_size); meta = deallocate s.meta }

    more : (t.meta.in_use == 0) ≡ false
    more =
        if_cases (λ (d : SlabMeta). (d.in_use == 0) ≡ false) (ltb 0 s.meta.in_use)
          (λ q. ground arith) (λ q. ground arith)

-- With two slabs in front, the first of the block's class, sound and with another block handed out: the
-- block becomes the head of the first one's list, whichever it came from, and the others stay.
heap_dealloc-first_slab :
    (a : SlabAllocator) (s t : Slab) (rest : List Slab) (ptr size : ℕ)
    → a.slabs ≡ s ∷ t ∷ rest
    → dealloc_class size ≡ some s.slab_size
    → s.meta.magic_number ≡ magic
    → 1 < s.meta.in_use
    → 0 < ptr
    → (heap_dealloc ptr size a).slabs
      ≡ record s { head = some (ptr - block_meta_size); meta = deallocate s.meta } ∷ t ∷ rest
unfolding heap_dealloc slab_position
heap_dealloc-first_slab a s t rest ptr size e c m u p =
    ap (λ (b : SlabAllocator). b.slabs)
      (if_of_false {b = ptr == 0} a (dealloc_in_class a ptr (dealloc_class size)) (ground arith)
        ∙ (ap (dealloc_in_class a ptr) c
            ∙ (ap (dealloc_at a ptr) (
                  ap (slab_position s.slab_size) e
                  ∙ if_of_true {b = s.slab_size == s.slab_size} _ _ (==_refl s.slab_size))
                ∙ ap (free_in a ptr 0) (ap (λ l. get_elem? l 0) e))))
    ∙ put_back-first a s (t ∷ rest) ptr e m u p
