-- ===== src/Memory/Slab/Alloc.antt =====
-- What `Slab::alloc` hands out.
use zenos.Common.{
  ℕ, ◌+◌, ◌<◌, ◌≡◌, ◌≢◌, refl, sym, ap, subst, ◌∙◌, true, not, ◌||◌, List, [], ◌∷◌, Option, none,
  some, arith, ◌==◌, All, if_of_true, if_of_false, if_cases,
}
use zenos.Memory.Slab.{
  Blocks, Slab, SlabMeta, magic, is_full, block_meta_size, store_block, unlink_prev, allocate,
  take_head, slab_alloc,
}
use zenos.Memory.Slab.Chain.{
  store_block_self, store_block_ne, store_block-keeps, Chain-agree, All-zip, All-map,
  unlink_prev-next, unlink_prev-used,
}
use zenos.Memory.Slab.Ok.{SlabOk}

-- An allocation gives null in a slab with no free block, which it leaves as it is, and else the first
-- free block, which from then on is handed out.
abbrev pub Hands : List ℕ → List ℕ → Slab → Blocks → Option ℕ × (Slab × Blocks) → Type 0
Hands [] live s h r = r ≡ (none, (s, h))
Hands (a ∷ free) live s h r =
    (r.0 ≡ some (a + block_meta_size)) × SlabOk r.1.0 r.1.1 free (a ∷ live)

-- The state after the head block `a` was taken.
module _ (s : Slab) (h : Blocks) (a : ℕ) (free live : List ℕ)
    (ok : SlabOk s h (a ∷ free) live) where
  abbrev h1 : Blocks
  h1 = unlink_prev (h a).next h

  abbrev h2 : Blocks
  h2 = store_block h1 a (record (h1 a) { used = true })

  next_same : (b : ℕ) → (h2 b).next ≡ (h b).next
  next_same b =
      store_block-keeps (λ m. m.next) h1 a (record (h1 a) { used = true }) b refl
      ∙ unlink_prev-next (h a).next h b

  used_other : (b : ℕ) → a ≢ b → (h2 b).used ≡ (h b).used
  used_other b n =
      ap (λ m. m.used) (store_block_ne h1 a b (record (h1 a) { used = true }) n)
      ∙ unlink_prev-used (h a).next h b

  not_live : All (λ b. a ≢ b) live
  not_live = All-map live (λ b u e. cc (ok.free_unused.0, u, ap (λ c. (h c).used) e)) ok.live_used

  taken_Ok :
      SlabOk
        (record s { head = (h a).next; meta = record s.meta { in_use = s.meta.in_use + 1 } })
        h2
        free
        (a ∷ live)
  taken_Ok = record {
    marked = ok.marked;
    chain =
        Chain-agree h h2 (h a).next free (All-map free (λ b u. next_same b) ok.free_unused.1)
          ok.chain.1;
    free_distinct = ok.free_distinct.1;
    live_distinct = (not_live, ok.live_distinct);
    free_unused = All-zip free (λ b n u. used_other b n ∙ u) ok.free_distinct.0 ok.free_unused.1;
    live_used = (
      ap (λ m. m.used) (store_block_self h1 a (record (h1 a) { used = true })),
      All-zip live (λ b n u. used_other b n ∙ u) not_live ok.live_used,
    );
    free_blocks = ok.free_blocks.1;
    live_blocks = (ok.free_blocks.0, ok.live_blocks);
    in_use_live = omega (arith, ok.in_use_live);
    total_free = omega (arith, ok.total_free);
    total_fits = ok.total_fits;
  }

not_full : (m : SlabMeta) → m.in_use < m.total → (allocate m).1 ≡ record m { in_use = m.in_use + 1 }
unfolding allocate
not_full m h =
    ap (λ (r : Option ℕ × SlabMeta). r.1) (if_of_false {b = is_full m} (none, m) _ (ground arith))

-- What an allocation gives: null with no block free, and else a block that was not handed out, which
-- joins the live ones, the others as they were.
pub slab_alloc-Hands :
    (s : Slab) (h : Blocks) (free live : List ℕ)
    → SlabOk s h free live
    → Hands free live s h (slab_alloc s h)
unfolding slab_alloc
slab_alloc-Hands s h [] live ok =
    if_of_true {b = not (s.meta.magic_number == magic) || is_full s.meta} _ _
      (ground (arith, ok.total_free, ok.in_use_live))
slab_alloc-Hands s h (a ∷ free) live ok =
    if_cases (Hands (a ∷ free) live s h) (not (s.meta.magic_number == magic) || is_full s.meta)
      (λ e. absurd (ground (arith, e, ok.marked, ok.total_free, ok.in_use_live)))
      (λ e.
        subst (λ o. Hands (a ∷ free) live s h (take_head o s h)) (sym ok.chain.0)
          (
            refl,
            subst
                (λ m.
                  SlabOk (record s { head = (h a).next; meta = m }) (h2 s h a free live ok) free
                    (a ∷ live))
                (sym (not_full s.meta (omega (arith, ok.total_free, ok.in_use_live))))
                (taken_Ok s h a free live ok),
          ))
