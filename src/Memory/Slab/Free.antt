-- ===== src/Memory/Slab/Free.antt =====
-- What `Slab::dealloc` takes back.
use zenos.Common.{
  ℕ, ◌+◌, ◌-◌, ◌<◌, ◌≡◌, ◌≢◌, refl, sym, ap, subst, ◌∙◌, true, false, not, ◌||◌, List, ◌∷◌, none,
  some, arith, ltb, ◌==◌, All, All-get, All-remove_at, get_elem?, remove_at, if_of_true, if_cases,
}
use zenos.Memory.Slab.{
  Blocks, Slab, SlabMeta, magic, block_meta_size, store_block, link_prev, deallocate, slab_dealloc,
}
use zenos.Memory.Slab.Chain.{
  Chain, store_block_self, store_block_ne, Chain-agree, All-zip, All-map, link_prev-next,
  link_prev-used, Distinct-remove_at, Distinct-others, length-remove_at,
}
use zenos.Memory.Slab.Ok.{IsBlock, SlabOk}

-- The state after the live block `a`, at place `i`, was given back.
module _ (s : Slab) (h : Blocks) (free live : List ℕ) (i a : ℕ) (ok : SlabOk s h free live)
    (here : get_elem? live i ≡ some a) where
  abbrev h1 : Blocks
  h1 = store_block h a (record { next = s.head; prev = none; used = false })

  abbrev h2 : Blocks
  h2 = link_prev s.head a h1

  self : h1 a ≡ record { next = s.head; prev = none; used = false }
  self = store_block_self h a (record { next = s.head; prev = none; used = false })

  other : (b : ℕ) → a ≢ b → h1 b ≡ h b
  other b = store_block_ne h a b (record { next = s.head; prev = none; used = false })

  next_other : (b : ℕ) → a ≢ b → (h2 b).next ≡ (h b).next
  next_other b n = link_prev-next s.head a h1 b ∙ ap (λ m. m.next) (other b n)

  used_other : (b : ℕ) → a ≢ b → (h2 b).used ≡ (h b).used
  used_other b n = link_prev-used s.head a h1 b ∙ ap (λ m. m.used) (other b n)

  not_free : All (λ b. a ≢ b) free
  not_free =
      All-map free
        (λ b u e.
          cc (u, All-get (λ c. (h c).used ≡ true) live i ok.live_used here, ap (λ c. (h c).used) e))
        ok.free_unused

  others : All (λ b. a ≢ b) (remove_at live i)
  others = Distinct-others live i a ok.live_distinct here

  next_self : (h2 a).next ≡ s.head
  next_self = link_prev-next s.head a h1 a ∙ ap (λ m. m.next) self

  freed_Ok :
      SlabOk
        (record s { head = some a; meta = record s.meta { in_use = s.meta.in_use - 1 } })
        h2
        (a ∷ free)
        (remove_at live i)
  freed_Ok = record {
    marked = ok.marked;
    chain = (
      refl,
      subst (λ o. Chain h2 o free) (sym next_self)
          (Chain-agree h h2 s.head free (All-map free next_other not_free) ok.chain),
    );
    free_distinct = (not_free, ok.free_distinct);
    live_distinct = Distinct-remove_at live i ok.live_distinct;
    free_unused = (
      link_prev-used s.head a h1 a ∙ ap (λ m. m.used) self,
      All-zip free (λ b n u. used_other b n ∙ u) not_free ok.free_unused,
    );
    live_used =
        All-zip (remove_at live i) (λ b n u. used_other b n ∙ u) others
          (All-remove_at (λ b. (h b).used ≡ true) live i ok.live_used);
    free_blocks = (All-get (IsBlock s) live i ok.live_blocks here, ok.free_blocks);
    live_blocks = All-remove_at (IsBlock s) live i ok.live_blocks;
    in_use_live = omega (arith, ok.in_use_live, length-remove_at live i a here);
    total_free = omega (arith, ok.total_free, length-remove_at live i a here);
    total_fits = ok.total_fits;
  }

counted : (m : SlabMeta) → 0 < m.in_use → deallocate m ≡ record m { in_use = m.in_use - 1 }
counted m h = if_of_true {b = ltb 0 m.in_use} _ m (ground arith)

back : (a : ℕ) → a ≡ a + block_meta_size - block_meta_size
back a = omega arith

-- A live block given back, by the pointer that was handed out for it, is the first free one, and the
-- invariant holds again.
pub slab_dealloc-Ok :
    (s : Slab) (h : Blocks) (free live : List ℕ) (i a : ℕ)
    → SlabOk s h free live
    → get_elem? live i ≡ some a
    → SlabOk
        (slab_dealloc s (a + block_meta_size) h).0
        (slab_dealloc s (a + block_meta_size) h).1
        (a ∷ free)
        (remove_at live i)
unfolding slab_dealloc
slab_dealloc-Ok s h free live i a ok here =
    if_cases (λ (r : Slab × Blocks). SlabOk r.0 r.1 (a ∷ free) (remove_at live i))
      (not (s.meta.magic_number == magic) || s.meta.in_use == 0 || a + block_meta_size == 0)
      (λ e. absurd (ground (arith, e, ok.marked, ok.in_use_live, length-remove_at live i a here)))
      (λ e.
        subst
          (λ b.
            SlabOk (record s { head = some b; meta = deallocate s.meta })
              (link_prev s.head b
                (store_block h b (record { next = s.head; prev = none; used = false })))
              (a ∷ free) (remove_at live i))
          (back a)
          (subst
            (λ m.
              SlabOk (record s { head = some a; meta = m }) (h2 s h free live i a ok here)
                (a ∷ free) (remove_at live i))
            (sym (counted s.meta (omega (arith, ok.in_use_live, length-remove_at live i a here))))
            (freed_Ok s h free live i a ok here)))
