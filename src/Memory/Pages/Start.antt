-- ===== src/Memory/Pages/Start.antt =====
-- The page allocator's first state, and the states reached from it.
use zenos.Common.{
  and_true, or_true, or_false, or_assoc, ℕ, ◌+◌, ◌-◌, ◌*◌, ◌/◌, ◌≤◌, ◌<◌, ◌≡◌, ◌⊎◌, inl, inr, refl,
  sym, ap, subst, ◌∙◌, Bool, true, false, ◌&&◌, ◌||◌, not, List, [], ◌∷◌, Option, none, some, arith,
  ltb, leb, All, if_cases, Bool-cases, lt→ltb, u64_size, if_of_true, if_of_false,
}
use zenos.Memory.Pages.{
  PageSize, size_4kib, Freed, freed, failed, PageAllocator, page_4k, inside, page_of, alloc,
  dealloc, initialize, initialize_loop, new_node, aligned_start, aligned_size,
}
use zenos.Memory.Pages.Words.{new_bitmap-bit, new_bitmap-Words64, length-new_bitmap}
use zenos.Memory.Pages.Spec.{
  is_free, NodeOk, Apart, WellFormed, Asked, Allocates, Frees, in_pages, page_base,
}
use zenos.Memory.Pages.Takes.{inside-page, is_free-is_managed}
use zenos.Memory.Pages.Laws.{alloc-Allocates}
use zenos.Memory.Pages.Freeing.{dealloc-Frees}
use zenos.Memory.Pages.Invariant.{alloc-WellFormed, dealloc-WellFormed}

-- A memory region that reaches to its first whole page and ends within 64 bits.
abbrev pub Usable : ℕ × ℕ → Type 0
Usable r = (aligned_start r.0 ≤ r.0 + r.1) × (r.0 + r.1 < u64_size)

abbrev pub Disjoint : ℕ × ℕ → ℕ × ℕ → Type 0
Disjoint r s = (r.0 + r.1 ≤ s.0) ⊎ (s.0 + s.1 ≤ r.0)

abbrev pub RegionsOk : List (ℕ × ℕ) → Type 0
RegionsOk [] = Unit
RegionsOk (r ∷ rs) = Usable r × (All (Disjoint r) rs × RegionsOk rs)

-- The whole pages of a region.
aligned_size-Usable :
    (start size : ℕ)
    → Usable (start, size)
    → aligned_size start size ≡ (start + size - aligned_start start) / page_4k * page_4k
aligned_size-Usable start size u = omega arith

new_node-NodeOk : (start size : ℕ) → NodeOk (new_node start size)
new_node-NodeOk start size = record {
  base_aligned = omega arith;
  size_aligned = omega arith;
  words = new_bitmap-Words64 (aligned_size start size / page_4k);
  long = omega (arith, length-new_bitmap (aligned_size start size / page_4k));
  tail = λ page h. new_bitmap-bit (aligned_size start size / page_4k) page ∙ ground arith;
}

Disjoint-Apart :
    (r s : ℕ × ℕ) → Usable r → Usable s → Disjoint r s → Apart (new_node r.0 r.1) (new_node s.0 s.1)
Disjoint-Apart (a, b) (c, d) u v (inl h) = inl (omega (arith, aligned_size-Usable a b u))
Disjoint-Apart (a, b) (c, d) u v (inr h) = inr (omega (arith, aligned_size-Usable c d v))

-- The nodes of the regions to come are apart from those there are.
Fresh : List (ℕ × ℕ) → PageAllocator → Type 0
Fresh rs head = All (λ r. All (Apart (new_node r.0 r.1)) head) rs

Fresh-add :
    (r : ℕ × ℕ) (rs : List (ℕ × ℕ)) (head : PageAllocator)
    → Usable r
    → All (Disjoint r) rs
    → RegionsOk rs
    → Fresh rs head
    → Fresh rs (new_node r.0 r.1 ∷ head)
unfolding Fresh
Fresh-add r [] head u d ok f = tt
Fresh-add r (s ∷ rs) head u d ok f =
    ((Disjoint-Apart s r ok.0 u (turned d.0), f.0), Fresh-add r rs head u d.1 ok.1.1 f.1)
  where
    turned : Disjoint r s → Disjoint s r
    turned (inl h) = inr h
    turned (inr h) = inl h

initialize_loop-WellFormed :
    (rs : List (ℕ × ℕ)) (head : PageAllocator)
    → RegionsOk rs
    → Fresh rs head
    → WellFormed head
    → WellFormed (initialize_loop head rs)
unfolding initialize_loop Fresh WellFormed
initialize_loop-WellFormed [] head ok f w = w
initialize_loop-WellFormed ((start, size) ∷ rs) head ok f w =
    if_cases (λ (next : PageAllocator). WellFormed (initialize_loop next rs))
      (ltb (aligned_size start size) page_4k) (λ e. initialize_loop-WellFormed rs head ok.1.1 f.1 w)
      (λ e.
        initialize_loop-WellFormed rs (new_node start size ∷ head) ok.1.1
          (Fresh-add (start, size) rs head ok.0 ok.1.0 ok.1.1 f.1)
          (new_node-NodeOk start size, (f.0, w)))

-- The states of the allocator: made from the regions of the memory map, and changed by its calls.
pub data Reaches : PageAllocator → Type 0 where
  started : (rs : List (ℕ × ℕ)) → RegionsOk rs → Reaches (initialize rs)
  allocated :
      (size : PageSize) (req : Option ℕ) (a : PageAllocator)
      → Reaches a
      → Reaches (alloc size req a).1
  released :
      (p : ℕ) (size : PageSize) (a : PageAllocator) → Reaches a → Reaches (dealloc p size a).1

Fresh-nil : (rs : List (ℕ × ℕ)) → Fresh rs []
unfolding Fresh
Fresh-nil [] = tt
Fresh-nil (r ∷ rs) = (tt, Fresh-nil rs)

-- Where the regions of the memory map do not overlap, and each reaches to its first whole page and ends
-- below 2^64: in every state from there on, whatever was allocated or given back, also what was never
-- allocated, the allocator's regions are apart and aligned, and no bit beyond a region's last page is
-- set.
pub Reaches-WellFormed : {a : PageAllocator} → Reaches a → WellFormed a
unfolding WellFormed
Reaches-WellFormed (started rs ok) = initialize_loop-WellFormed rs [] ok (Fresh-nil rs) tt
Reaches-WellFormed (allocated size req a r) = alloc-WellFormed size req a (Reaches-WellFormed r)
Reaches-WellFormed (released p size a r) = dealloc-WellFormed p size a (Reaches-WellFormed r)

-- Whether the page of an address lies in one of the regions of the memory map.
abbrev pub in_map : List (ℕ × ℕ) → ℕ → Bool
in_map [] q = false
in_map (r ∷ rs) q =
    (leb r.0 (page_base q) && leb (page_base q + page_4k) (r.0 + r.1)) || in_map rs q

-- The node of a region covers its whole pages.
whole_pages :
    (start size q : ℕ)
    → Usable (start, size)
    → (leb start (page_base q) && leb (page_base q + page_4k) (start + size))
      ≡ inside (new_node start size) q
unfolding inside
whole_pages start size q u = ground (arith, aligned_size-Usable start size u)

new_node-is_free :
    (start size : ℕ) (nodes : PageAllocator) (q : ℕ)
    → Usable (start, size)
    → is_free (new_node start size ∷ nodes) q
      ≡ (is_free nodes q || (leb start (page_base q) && leb (page_base q + page_4k) (start + size)))
unfolding is_free inside
new_node-is_free start size nodes q u = elim (Bool-cases (inside (new_node start size) q)) [
  | inl e ↦
      if_of_true _ _ e
      ∙ (new_bitmap-bit (aligned_size start size / page_4k) (page_of (new_node start size) q)
          ∙ (held e ∙ sym (ap (◌||◌ (is_free nodes q)) (whole e) ∙ or_true (is_free nodes q))))
  | inr e ↦
      if_of_false _ _ e ∙ sym (ap (◌||◌ (is_free nodes q)) (whole e) ∙ or_false (is_free nodes q))
]
  where
    held :
        inside (new_node start size) q ≡ true
        → ltb (page_of (new_node start size) q) (aligned_size start size / page_4k) ≡ true
    held e = lt→ltb _ _ (omega (arith, inside-page (new_node start size) q e))

    whole :
        {b : Bool}
        → inside (new_node start size) q ≡ b
        → (leb start (page_base q) && leb (page_base q + page_4k) (start + size)) ≡ b
    whole e = whole_pages start size q u ∙ e

initialize_loop-is_free :
    (rs : List (ℕ × ℕ)) (head : PageAllocator) (q : ℕ)
    → RegionsOk rs
    → is_free (initialize_loop head rs) q ≡ (is_free head q || in_map rs q)
unfolding initialize_loop
initialize_loop-is_free [] head q ok = ground arith
initialize_loop-is_free ((start, size) ∷ rs) head q ok =
    if_cases
      (λ (next : PageAllocator).
        is_free (initialize_loop next rs) q ≡ (is_free head q || (here || in_map rs q)))
      (ltb (aligned_size start size) page_4k)
      (λ e.
        initialize_loop-is_free rs head q ok.1.1
        ∙ ap (λ c. is_free head q || (c || in_map rs q)) (sym (none_whole e)))
      (λ e.
        initialize_loop-is_free rs (new_node start size ∷ head) q ok.1.1
        ∙ (ap (λ c. c || in_map rs q) (new_node-is_free start size head q ok.0)
            ∙ or_assoc (is_free head q) here (in_map rs q)))
  where
    here : Bool
    here = leb start (page_base q) && leb (page_base q + page_4k) (start + size)

    none_whole : ltb (aligned_size start size) page_4k ≡ true → here ≡ false
    none_whole e = ground (arith, aligned_size-Usable start size ok.0)

-- At the start exactly the whole pages of the memory map's regions are free.
pub initialize-is_free :
    (rs : List (ℕ × ℕ)) (q : ℕ) → RegionsOk rs → is_free (initialize rs) q ≡ in_map rs q
unfolding is_free
initialize-is_free rs q ok = initialize_loop-is_free rs [] q ok

-- A page that was allocated and is given back leaves the set of free pages as it was.
pub dealloc-alloc :
    (req : Option ℕ) (a b : PageAllocator) (p : ℕ)
    → WellFormed a
    → alloc size_4kib req a ≡ (some p, b)
    → (q : ℕ) → is_free (dealloc p size_4kib b).1 q ≡ is_free a q
dealloc-alloc req a b p w e q =
    go (dealloc p size_4kib b)
      (dealloc-Frees p b (subst (λ r. WellFormed r.1) e (alloc-WellFormed size_4kib req a w)))
      (subst (Allocates size_4kib req a) e (alloc-Allocates size_4kib req a w))
  where
    aligned : (req : Option ℕ) → Asked size_4kib req p → page_base p ≡ p
    aligned none h = omega arith
    aligned (some wanted) h = omega arith

    back :
        (in_pages 1 p q ≡ true → is_free a q ≡ true)
        → ((is_free a q && not (in_pages 1 p q)) || in_pages 1 p q) ≡ is_free a q
    back h = elim (Bool-cases (in_pages 1 p q)) [
      | inl e ↦ rw (e, h e) refl
      | inr e ↦ rw e (or_false (is_free a q && true) ∙ and_true (is_free a q))
    ]

    go :
        (r : Freed × PageAllocator)
        → Frees p b r
        → Allocates size_4kib req a (some p, b)
        → is_free r.1 q ≡ is_free a q
    go (freed, c) (m, f) (asked, t) =
        f q ∙ (rw (aligned req asked, t.removed q) (back (t.was_free q)))
    go (failed x, c) (n, (m, s)) (asked, t) =
        absurd (cc (m, t.same_regions p, is_free-is_managed a p (t.was_free p (ground arith))))
