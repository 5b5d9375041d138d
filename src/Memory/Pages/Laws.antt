-- ===== src/Memory/Pages/Laws.antt =====
-- The page allocator implements a set of free pages.
use zenos.Common.{
  ℕ, suc, ◌+◌, ◌*◌, ◌/◌, ◌%◌, ◌≤◌, ◌<◌, ◌≡◌, inl, inr, refl, ap, subst, ◌∙◌, true, false, ◌&&◌, not,
  List, [], ◌∷◌, Option, none, some, arith, ltb, leb, ◌==◌, length, All, if_cases, Bool-cases,
  Option-cases, if_of_true, if_of_false, not_ltb→le,
}
use zenos.Memory.Pages.{
  PageSize, size_4kib, size_2mib, Word, BitmapNode, PageAllocator, page_4k, page_2m, pages_in,
  bit_at, put_bit, inside, visit, page_of, with_bitmap, claim_4k, claim_2m, words_full, clear_words,
  find_page, find_2m, find_2m_in, hunt_4k, hunt_2m, alloc, any_set,
}
use zenos.Memory.Pages.Bitmap.{
  Hit, find_page-Hit, find_page-none, bit_at-put_ne, bit_at-put_false, bit_at-lt,
}
use zenos.Memory.Pages.Words.{words_full-bit, clear_words-bit}
use zenos.Memory.Pages.Spec.{
  is_free, NodeOk, Apart, WellFormed, Takes, Missing, Allocates, pages_of,
}
use zenos.Memory.Pages.Takes.{Takes-here, Takes-there, inside-page}

-- A free page of the first node taken by its number.
take_bit :
    (node : BitmapNode) (nodes : PageAllocator) (page : ℕ)
    → NodeOk node
    → page < pages_in node
    → bit_at node.bitmap page ≡ true
    → Takes 1
        (node.base_phys + page * page_4k)
        (node ∷ nodes)
        (with_bitmap node (put_bit false node.bitmap page) ∷ nodes)
take_bit node nodes page ok low free =
    Takes-here node nodes (put_bit false node.bitmap page) page 1 ok (omega arith) bits
      (λ i a b. ap (bit_at node.bitmap) (omega arith) ∙ free)
  where
    bits :
        (i : ℕ)
        → bit_at (put_bit false node.bitmap page) i
          ≡ (bit_at node.bitmap i && not (leb page i && ltb i (page + 1)))
    bits i = elim (Bool-cases (page == i)) [
      | inl e ↦
          ap (bit_at (put_bit false node.bitmap page)) (ground arith)
          ∙ (bit_at-put_false node.bitmap page ∙ ground arith)
      | inr e ↦ bit_at-put_ne false node.bitmap page i (ground arith) ∙ ground arith
    ]

-- What the later nodes did, seen from the node before them.
Allocates-there :
    (size : PageSize) (req : Option ℕ) (node : BitmapNode) (nodes : PageAllocator)
    (r : Option ℕ × PageAllocator)
    → All (Apart node) nodes
    → (Missing size req nodes → Missing size req (node ∷ nodes))
    → Allocates size req nodes r
    → Allocates size req (node ∷ nodes) (r.0, node ∷ r.1)
Allocates-there size req node nodes (none, b) apart m (e, missing) = (ap (◌∷◌ node) e, m missing)
Allocates-there size req node nodes (some p, b) apart m (asked, t) =
    (asked, Takes-there node nodes b (pages_of size) p apart t)

hunt_4k-Allocates : (a : PageAllocator) → WellFormed a → Allocates size_4kib none a (hunt_4k a)
unfolding hunt_4k is_free WellFormed
hunt_4k-Allocates [] w = (refl, λ q. refl)
hunt_4k-Allocates (node ∷ nodes) w = elim (Option-cases (find_page (pages_in node) 0 node.bitmap)) [
  | inr (page, e) ↦
      rw (hunt_4k, e) (found page (find_page-Hit (pages_in node) 0 node.bitmap page w.0.words e))
  | inl e ↦
      rw (hunt_4k, e)
        (Allocates-there size_4kib none node nodes (hunt_4k nodes) w.1.0 (missing e)
          (hunt_4k-Allocates nodes w.1.1))
]
  where
    counted :
        (page i : ℕ) → page ≡ 0 + i → bit_at node.bitmap i ≡ true → bit_at node.bitmap page ≡ true
    counted page i e bit = ap (bit_at node.bitmap) (omega (arith, e)) ∙ bit

    found :
        (page : ℕ)
        → Hit (pages_in node) 0 (bit_at node.bitmap) page
        → Allocates size_4kib none (node ∷ nodes) (
          some (node.base_phys + page * page_4k),
          with_bitmap node (put_bit false node.bitmap page) ∷ nodes,
        )
    found page (i, (e, (l, bit))) =
        (omega (arith, w.0.base_aligned), take_bit node nodes page w.0 l (counted page i e bit))

    missing :
        find_page (pages_in node) 0 node.bitmap ≡ none
        → Missing size_4kib none nodes
        → Missing size_4kib none (node ∷ nodes)
    missing e m q = elim (Bool-cases (inside node q)) [
      | inl h ↦
          if_of_true _ _ h
          ∙ find_page-none (pages_in node) 0 node.bitmap e (page_of node q)
              (omega (arith, inside-page node q h, w.0.size_aligned))
      | inr h ↦ if_of_false _ _ h ∙ m q
    ]

-- The page at an address, in the node whose region it is of.
claim_4k-Allocates :
    (phys : ℕ) (node : BitmapNode) (nodes : PageAllocator)
    → NodeOk node
    → phys % page_4k ≡ 0
    → inside node phys ≡ true
    → Allocates size_4kib
        (some phys)
        (node ∷ nodes)
        ((claim_4k phys node).0, (claim_4k phys node).1 ∷ nodes)
unfolding claim_4k is_free
claim_4k-Allocates phys node nodes ok aligned here =
    if_cases
      (λ (r : Option ℕ × BitmapNode).
        Allocates size_4kib (some phys) (node ∷ nodes) (r.0, r.1 ∷ nodes))
      (ltb (page_of node phys / 64) (length node.bitmap) && bit_at node.bitmap (page_of node phys))
      (λ e. (
        (refl, aligned),
        subst
            (λ p.
              Takes 1 p (node ∷ nodes)
                (with_bitmap node (put_bit false node.bitmap (page_of node phys)) ∷ nodes))
            (omega (arith, aligned, ok.base_aligned, inside-page node phys here))
            (take_bit node nodes (page_of node phys) ok
              (omega (arith, inside-page node phys here, ok.size_aligned)) (ground arith)),
      ))
      (λ e. (
        refl,
        λ h. if_of_true _ _ here ∙ ground (arith, bit_at-lt node.bitmap (page_of node phys)),
      ))

visit_4k-Allocates :
    (phys : ℕ) (a : PageAllocator)
    → WellFormed a
    → phys % page_4k ≡ 0
    → Allocates size_4kib (some phys) a (visit (claim_4k phys) none phys a)
unfolding visit WellFormed is_free
visit_4k-Allocates phys [] w aligned = (refl, λ h. refl)
visit_4k-Allocates phys (node ∷ nodes) w aligned =
    if_cases (Allocates size_4kib (some phys) (node ∷ nodes)) (inside node phys)
      (λ e. claim_4k-Allocates phys node nodes w.0 aligned e)
      (λ e.
        Allocates-there size_4kib (some phys) node nodes (visit (claim_4k phys) none phys nodes)
          w.1.0 (λ m h. if_of_false _ _ e ∙ m h) (visit_4k-Allocates phys nodes w.1.1 aligned))

-- 512 pages in 8 full words.
claim_2m-Allocates :
    (phys : ℕ) (node : BitmapNode) (nodes : PageAllocator)
    → NodeOk node
    → phys % page_2m ≡ 0
    → inside node phys ≡ true
    → Allocates size_2mib
        (some phys)
        (node ∷ nodes)
        ((claim_2m phys node).0, (claim_2m phys node).1 ∷ nodes)
unfolding claim_2m
claim_2m-Allocates phys node nodes ok aligned here =
    if_cases P (page_of node phys % 512 == 0)
      (λ a.
        if_cases P (leb (page_of node phys / 64 + 8) (length node.bitmap))
          (λ b.
            if_cases P (words_full 8 (page_of node phys / 64) node.bitmap)
              (λ c. ((refl, aligned), taken (ground arith) (ground arith) c)) (λ c. (refl, tt)))
          (λ b. (refl, tt)))
      (λ a. (refl, tt))
  where
    P : Option ℕ × BitmapNode → Type 0
    P r = Allocates size_2mib (some phys) (node ∷ nodes) (r.0, r.1 ∷ nodes)

    full :
        page_of node phys / 64 + 8 ≤ length node.bitmap
        → words_full 8 (page_of node phys / 64) node.bitmap ≡ true
        → (i : ℕ) → page_of node phys / 64 ≤ i / 64
        → i / 64 < page_of node phys / 64 + 8
        → bit_at node.bitmap i ≡ true
    full b c = words_full-bit 8 (page_of node phys / 64) node.bitmap ok.words b c

    fits :
        page_of node phys % 512 ≡ 0
        → page_of node phys / 64 + 8 ≤ length node.bitmap
        → words_full 8 (page_of node phys / 64) node.bitmap ≡ true
        → page_of node phys + 512 ≤ pages_in node
    fits a b c = elim (Bool-cases (ltb (page_of node phys + 511) (pages_in node))) [
      | inl e ↦ ground arith
      | inr e ↦ absurd (
          cc (
            full b c (page_of node phys + 511) (omega arith) (omega arith),
            ok.tail (page_of node phys + 511) (not_ltb→le _ _ e),
          ))
    ]

    taken :
        page_of node phys % 512 ≡ 0
        → page_of node phys / 64 + 8 ≤ length node.bitmap
        → words_full 8 (page_of node phys / 64) node.bitmap ≡ true
        → Takes 512 phys
            (node ∷ nodes)
            (with_bitmap node (clear_words 8 (page_of node phys / 64) node.bitmap) ∷ nodes)
    taken a b c =
        subst
          (λ p.
            Takes 512 p (node ∷ nodes)
              (with_bitmap node (clear_words 8 (page_of node phys / 64) node.bitmap) ∷ nodes))
          (omega (arith, ok.base_aligned, inside-page node phys here))
          (Takes-here node nodes _ (page_of node phys) 512 ok (fits a b c)
            (λ i.
              clear_words-bit 8 (page_of node phys / 64) node.bitmap i
              ∙ ap (λ r. bit_at node.bitmap i && not r) (ground arith))
            (λ i l h. full b c i (omega arith) (omega arith)))

visit_2m-Allocates :
    (phys : ℕ) (a : PageAllocator)
    → WellFormed a
    → phys % page_2m ≡ 0
    → Allocates size_2mib (some phys) a (visit (claim_2m phys) none phys a)
unfolding visit WellFormed is_free
visit_2m-Allocates phys [] w aligned = (refl, tt)
visit_2m-Allocates phys (node ∷ nodes) w aligned =
    if_cases (Allocates size_2mib (some phys) (node ∷ nodes)) (inside node phys)
      (λ e. claim_2m-Allocates phys node nodes w.0 aligned e)
      (λ e.
        Allocates-there size_2mib (some phys) node nodes (visit (claim_2m phys) none phys nodes)
          w.1.0 (λ m. tt) (visit_2m-Allocates phys nodes w.1.1 aligned))

-- A hunt for 2 MiB finds nothing, whatever is free.
find_2m-none : (limit word_idx : ℕ) → find_2m limit word_idx ≡ none
unfolding find_2m
find_2m-none limit word_idx = ground arith

find_2m_in-none : (limit word_idx : ℕ) (words : List Word) → find_2m_in limit word_idx words ≡ none
unfolding find_2m_in
find_2m_in-none limit word_idx [] = refl
find_2m_in-none limit word_idx (word ∷ words) =
    rw (find_2m-none limit word_idx, find_2m_in-none limit (suc word_idx) words)
      (if_cases (λ r. r ≡ none) (any_set word) (λ e. refl) (λ e. refl))

hunt_2m-none : (a : PageAllocator) → hunt_2m a ≡ none
unfolding hunt_2m
hunt_2m-none [] = refl
hunt_2m-none (node ∷ nodes) =
    rw (hunt_2m, find_2m_in-none (pages_in node) 0 node.bitmap) (hunt_2m-none nodes)

-- The allocator implements the set of free pages: a result is a free page, aligned and, where an
-- address was asked for, at it; exactly its pages stop being free; and a 4 KiB request fails only
-- where no page, or not the page asked for, is free. A request for any 2 MiB never succeeds.
pub alloc-Allocates :
    (size : PageSize) (req : Option ℕ) (a : PageAllocator)
    → WellFormed a
    → Allocates size req a (alloc size req a)
unfolding alloc
alloc-Allocates size_4kib none a w = hunt_4k-Allocates a w
alloc-Allocates size_2mib none a w = rw (hunt_2m-none a) (refl, tt)
alloc-Allocates size_4kib (some phys) a w =
    if_cases (Allocates size_4kib (some phys) a) (phys % page_4k == 0)
      (λ e. visit_4k-Allocates phys a w (ground arith)) (λ e. (refl, λ h. ground arith))
alloc-Allocates size_2mib (some phys) a w =
    if_cases (Allocates size_2mib (some phys) a) (phys % page_2m == 0)
      (λ e. visit_2m-Allocates phys a w (ground arith)) (λ e. (refl, tt))
