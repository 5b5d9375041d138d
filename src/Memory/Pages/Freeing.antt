-- ===== src/Memory/Pages/Freeing.antt =====
-- Pages given back to the page allocator.
use zenos.Common.{
  or_true, or_false, ℕ, ◌*◌, ◌/◌, ◌≡◌, inl, inr, refl, sym, ap, ◌∙◌, true, false, ◌||◌, [], ◌∷◌,
  arith, ltb, ◌==◌, length, if_cases, Bool-cases, if_of_true, if_of_false, not_ltb→le, ltb→lt,
}
use zenos.Memory.Pages.{
  PageSize, size_4kib, size_2mib, not_mapped, Freed, freed, failed, BitmapNode, PageAllocator,
  bit_at, put_bit, inside, visit, page_of, free_pages_at, dealloc,
}
use zenos.Memory.Pages.Bitmap.{bit_at-put_ne, bit_at-put_true}
use zenos.Memory.Pages.Spec.{
  is_free, is_managed, NodeOk, WellFormed, in_pages, Frees, Releases, page_base,
}
use zenos.Memory.Pages.Takes.{inside-page}

-- The nodes cover whole pages, so that what is not in a region shares no page with it.
same_page :
    (node : BitmapNode) (p q : ℕ)
    → NodeOk node
    → in_pages 1 (page_base p) q ≡ true
    → inside node p ≡ inside node q
unfolding inside
same_page node p q ok h = ground (arith, ok.base_aligned, ok.size_aligned)

free_4k-Frees :
    (p : ℕ) (node : BitmapNode) (nodes : PageAllocator)
    → NodeOk node
    → inside node p ≡ true
    → Frees p
        (node ∷ nodes)
        ((free_pages_at size_4kib p node).0, (free_pages_at size_4kib p node).1 ∷ nodes)
unfolding free_pages_at is_free is_managed inside
free_4k-Frees p node nodes ok here =
    if_cases (λ (r : Freed × BitmapNode). Frees p (node ∷ nodes) (r.0, r.1 ∷ nodes))
      (ltb (page_of node p / 64) (length node.bitmap))
      (λ e. (
        ap (λ b. b || is_managed nodes p) here,
        λ q. elim (Bool-cases (inside node q)) [
          | inl i ↦
              if_of_true _ _ i
              ∙ (bits e q i ∙ ap (λ b. b || in_pages 1 (page_base p) q) (sym (if_of_true _ _ i)))
          | inr i ↦
              if_of_false _ _ i
              ∙ (out q i ∙ ap (λ b. b || in_pages 1 (page_base p) q) (sym (if_of_false _ _ i)))
        ],
      ))
      (λ e.
        absurd (omega (arith, not_ltb→le _ _ e, ok.long, inside-page node p here, ok.size_aligned)))
  where
    bits :
        ltb (page_of node p / 64) (length node.bitmap) ≡ true
        → (q : ℕ) → inside node q ≡ true
        → bit_at (put_bit true node.bitmap (page_of node p)) (page_of node q)
          ≡ (bit_at node.bitmap (page_of node q) || in_pages 1 (page_base p) q)
    bits e q i = elim (Bool-cases (page_of node p == page_of node q)) [
      | inl s ↦
          ap (bit_at (put_bit true node.bitmap (page_of node p))) (ground arith)
          ∙ (bit_at-put_true node.bitmap (page_of node p) ok.words (ltb→lt _ _ e)
              ∙ sym (
                  ap (◌||◌ (bit_at node.bitmap (page_of node q))) (within s)
                  ∙ or_true (bit_at node.bitmap (page_of node q))))
      | inr s ↦
          bit_at-put_ne true node.bitmap (page_of node p) (page_of node q) (ground arith)
          ∙ sym (
              ap (◌||◌ (bit_at node.bitmap (page_of node q))) (without s)
              ∙ or_false (bit_at node.bitmap (page_of node q)))
    ]
      where
        within : (page_of node p == page_of node q) ≡ true → in_pages 1 (page_base p) q ≡ true
        within s = ground (arith, ok.base_aligned, inside-page node p here, inside-page node q i)

        without : (page_of node p == page_of node q) ≡ false → in_pages 1 (page_base p) q ≡ false
        without s = ground (arith, ok.base_aligned, inside-page node p here, inside-page node q i)

    out :
        (q : ℕ)
        → inside node q ≡ false
        → is_free nodes q ≡ (is_free nodes q || in_pages 1 (page_base p) q)
    out q i = elim (Bool-cases (in_pages 1 (page_base p) q)) [
      | inl h ↦ absurd (cc (same_page node p q ok h, here, i))
      | inr h ↦ rw h (sym (or_false (is_free nodes q)))
    ]

pub dealloc-Frees : (p : ℕ) (a : PageAllocator) → WellFormed a → Frees p a (dealloc p size_4kib a)
unfolding dealloc visit is_free is_managed WellFormed
dealloc-Frees p [] w = (refl, (refl, refl))
dealloc-Frees p (node ∷ nodes) w =
    if_cases (Frees p (node ∷ nodes)) (inside node p) (λ e. free_4k-Frees p node nodes w.0 e)
      (λ e. there e (dealloc p size_4kib nodes) (dealloc-Frees p nodes w.1.1))
  where
    later :
        inside node p ≡ false
        → (b : PageAllocator) (q : ℕ)
        → is_free b q ≡ (is_free nodes q || in_pages 1 (page_base p) q)
        → is_free (node ∷ b) q ≡ (is_free (node ∷ nodes) q || in_pages 1 (page_base p) q)
    later e b q f = elim (Bool-cases (inside node q)) [
      | inl i ↦
          if_of_true _ _ i
          ∙ (out q i ∙ ap (λ c. c || in_pages 1 (page_base p) q) (sym (if_of_true _ _ i)))
      | inr i ↦
          if_of_false _ _ i
          ∙ (f ∙ ap (λ c. c || in_pages 1 (page_base p) q) (sym (if_of_false _ _ i)))
    ]
      where
        out :
            (q : ℕ)
            → inside node q ≡ true
            → bit_at node.bitmap (page_of node q)
              ≡ (bit_at node.bitmap (page_of node q) || in_pages 1 (page_base p) q)
        out q i = elim (Bool-cases (in_pages 1 (page_base p) q)) [
          | inl h ↦ absurd (cc (same_page node p q w.0 h, e, i))
          | inr h ↦ rw h (sym (or_false (bit_at node.bitmap (page_of node q))))
        ]

    there :
        inside node p ≡ false
        → (r : Freed × PageAllocator) → Frees p nodes r
        → Frees p (node ∷ nodes) (r.0, node ∷ r.1)
    there e (freed, b) (m, f) = (ap (λ c. c || is_managed nodes p) e ∙ m, λ q. later e b q (f q))
    there e (failed x, b) (n, (m, s)) =
        (n, (ap (λ c. c || is_managed nodes p) e ∙ m, ap (◌∷◌ node) s))

visit-unchanged :
    {A : Type 0} (op : BitmapNode → A × BitmapNode) (missing : A) (phys : ℕ) (a : PageAllocator)
    → ((n : BitmapNode) → (op n).1 ≡ n)
    → (visit op missing phys a).1 ≡ a
unfolding visit
visit-unchanged op missing phys [] h = refl
visit-unchanged op missing phys (n ∷ a) h =
    if_cases (λ (r : _ × PageAllocator). r.1 ≡ n ∷ a) (inside n phys) (λ e. ap (λ m. m ∷ a) (h n))
      (λ e. ap (◌∷◌ n) (visit-unchanged op missing phys a h))

dealloc-loses_2m : (p : ℕ) (a : PageAllocator) → (dealloc p size_2mib a).1 ≡ a
unfolding dealloc free_pages_at
dealloc-loses_2m p a = visit-unchanged (free_pages_at size_2mib p) (failed not_mapped) p a same
  where
    same : (n : BitmapNode) → (free_pages_at size_2mib p n).1 ≡ n
    same n =
        if_cases (λ (r : Freed × BitmapNode). r.1 ≡ n)
          (ltb (page_of n p / 512 * 512 / 64) (length n.bitmap)) (λ e. refl) (λ e. refl)

-- A release of a 4 KiB page makes it free again and changes nothing else, and is refused for an address
-- of no region; a release of 2 MiB frees no page at all, also where it reports success.
pub dealloc-Releases :
    (size : PageSize) (p : ℕ) (a : PageAllocator)
    → WellFormed a
    → Releases size p a (dealloc p size a)
dealloc-Releases size_4kib p a w = dealloc-Frees p a w
dealloc-Releases size_2mib p a w = dealloc-loses_2m p a
