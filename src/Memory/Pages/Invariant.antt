-- ===== src/Memory/Pages/Invariant.antt =====
-- The invariant of the page allocator's nodes in every state that it reaches.
use zenos.Common.{
  ℕ, ◌+◌, ◌*◌, ◌/◌, ◌%◌, ◌<◌, ◌≡◌, inl, inr, refl, ap, ◌∙◌, true, false, ◌&&◌, not, List, [], ◌∷◌,
  Option, none, some, arith, ltb, leb, ◌==◌, length, All, if_cases, Bool-cases, Option-cases,
}
use zenos.Memory.Pages.{
  PageSize, size_4kib, size_2mib, Freed, failed, not_mapped, Word, BitmapNode, PageAllocator,
  page_4k, page_2m, pages_in, bit_at, put_bit, inside, visit, page_of, with_bitmap, claim_4k,
  claim_2m, words_full, find_page, hunt_4k, alloc, free_pages_at, dealloc,
}
use zenos.Memory.Pages.Bitmap.{
  Words64, find_page-Hit, bit_at-put_ne, bit_at-put_false, put_bit-Words64, length-put_bit,
}
use zenos.Memory.Pages.Words.{in_words, clear_words-bit, clear_words-Words64, length-clear_words}
use zenos.Memory.Pages.Spec.{NodeOk, Apart, WellFormed}
use zenos.Memory.Pages.Takes.{inside-page}

-- A node keeps its region and stays in order.
Keeps : BitmapNode → BitmapNode → Type 0
Keeps n m = (m.base_phys ≡ n.base_phys) × ((m.region_size ≡ n.region_size) × (NodeOk n → NodeOk m))

Keeps-refl : (n : BitmapNode) → Keeps n n
unfolding Keeps
Keeps-refl n = (refl, (refl, λ ok. ok))

-- A bitmap of the same length with no bit where there was none.
Keeps-fewer :
    (node : BitmapNode) (words : List Word)
    → (Words64 node.bitmap → Words64 words)
    → length words ≡ length node.bitmap
    → ((i : ℕ) → bit_at node.bitmap i ≡ false → bit_at words i ≡ false)
    → Keeps node (with_bitmap node words)
unfolding Keeps
Keeps-fewer node words w l bits = (
  refl,
  (
    refl,
    λ ok. record {
      base_aligned = ok.base_aligned;
      size_aligned = ok.size_aligned;
      words = w ok.words;
      long = omega (arith, ok.long, l);
      tail = λ page h. bits page (ok.tail page h);
    },
  ),
)

Keeps-clear :
    (node : BitmapNode) (page : ℕ)
    → page / 64 < length node.bitmap
    → Keeps node (with_bitmap node (put_bit false node.bitmap page))
Keeps-clear node page h =
    Keeps-fewer node (put_bit false node.bitmap page) (put_bit-Words64 false node.bitmap page h)
      (length-put_bit false node.bitmap page)
      (λ i e. elim (Bool-cases (page == i)) [
        | inl s ↦
            ap (bit_at (put_bit false node.bitmap page)) (ground arith)
            ∙ bit_at-put_false node.bitmap page
        | inr s ↦ bit_at-put_ne false node.bitmap page i (ground arith) ∙ e
      ])

-- A page given back is of the region.
Keeps-set :
    (node : BitmapNode) (p : ℕ)
    → inside node p ≡ true
    → page_of node p / 64 < length node.bitmap
    → Keeps node (with_bitmap node (put_bit true node.bitmap (page_of node p)))
unfolding Keeps
Keeps-set node p here h = (
  refl,
  (
    refl,
    λ ok. record {
      base_aligned = ok.base_aligned;
      size_aligned = ok.size_aligned;
      words = put_bit-Words64 true node.bitmap (page_of node p) h ok.words;
      long = omega (arith, ok.long, length-put_bit true node.bitmap (page_of node p));
      tail = λ page l.
          bit_at-put_ne true node.bitmap (page_of node p) page
            (omega (arith, inside-page node p here, ok.size_aligned, l))
          ∙ ok.tail page l;
    },
  ),
)

claim_4k-Keeps : (phys : ℕ) (node : BitmapNode) → Keeps node (claim_4k phys node).1
unfolding claim_4k
claim_4k-Keeps phys node =
    if_cases (λ (r : Option ℕ × BitmapNode). Keeps node r.1)
      (ltb (page_of node phys / 64) (length node.bitmap) && bit_at node.bitmap (page_of node phys))
      (λ e. Keeps-clear node (page_of node phys) (ground arith)) (λ e. Keeps-refl node)

claim_2m-Keeps : (phys : ℕ) (node : BitmapNode) → Keeps node (claim_2m phys node).1
unfolding claim_2m
claim_2m-Keeps phys node =
    if_cases P (page_of node phys % 512 == 0)
      (λ a.
        if_cases P (leb (page_of node phys / 64 + 8) (length node.bitmap))
          (λ b.
            if_cases P (words_full 8 (page_of node phys / 64) node.bitmap)
              (λ c.
                Keeps-fewer node _ (clear_words-Words64 8 (page_of node phys / 64) node.bitmap)
                  (length-clear_words 8 (page_of node phys / 64) node.bitmap)
                  (λ i e.
                    clear_words-bit 8 (page_of node phys / 64) node.bitmap i
                    ∙ ap (λ b. b && not (in_words 8 (page_of node phys / 64) i)) e))
              (λ c. Keeps-refl node))
          (λ b. Keeps-refl node))
      (λ a. Keeps-refl node)
  where
    P : Option ℕ × BitmapNode → Type 0
    P r = Keeps node r.1

free_pages_at-Keeps :
    (size : PageSize) (phys : ℕ) (node : BitmapNode)
    → inside node phys ≡ true
    → Keeps node (free_pages_at size phys node).1
unfolding free_pages_at
free_pages_at-Keeps size_4kib phys node here =
    if_cases (λ (r : Freed × BitmapNode). Keeps node r.1)
      (ltb (page_of node phys / 64) (length node.bitmap))
      (λ e. Keeps-set node phys here (ground arith)) (λ e. Keeps-refl node)
free_pages_at-Keeps size_2mib phys node here =
    if_cases (λ (r : Freed × BitmapNode). Keeps node r.1)
      (ltb (page_of node phys / 512 * 512 / 64) (length node.bitmap)) (λ e. Keeps-refl node)
      (λ e. Keeps-refl node)

Keeps-Apart : (x n m : BitmapNode) → Keeps n m → Apart x n → Apart x m
unfolding Keeps
Keeps-Apart x n m k (inl h) = inl (omega (arith, k.0, k.1.0))
Keeps-Apart x n m k (inr h) = inr (omega (arith, k.0, k.1.0))

Keeps-Apart_left :
    (n m : BitmapNode) (xs : PageAllocator) → Keeps n m → All (Apart n) xs → All (Apart m) xs
unfolding Keeps
Keeps-Apart_left n m [] k h = tt
Keeps-Apart_left n m (x ∷ xs) k h = (left h.0, Keeps-Apart_left n m xs k h.1)
  where
    left : Apart n x → Apart m x
    left (inl a) = inl (omega (arith, k.0, k.1.0))
    left (inr a) = inr (omega (arith, k.0, k.1.0))

-- The change of the first node, and of a later one.
Keeps-head :
    (n m : BitmapNode) (nodes : PageAllocator)
    → Keeps n m
    → WellFormed (n ∷ nodes)
    → WellFormed (m ∷ nodes)
unfolding WellFormed Keeps
Keeps-head n m nodes k w = (k.1.1 w.0, (Keeps-Apart_left n m nodes k w.1.0, w.1.1))

module _ {A : Type 0} where
  visit-Apart :
      (op : BitmapNode → A × BitmapNode) (missing : A) (phys : ℕ) (x : BitmapNode)
      (a : PageAllocator)
      → ((n : BitmapNode) → inside n phys ≡ true → Keeps n (op n).1)
      → All (Apart x) a
      → All (Apart x) (visit op missing phys a).1
  unfolding visit
  visit-Apart op missing phys x [] k h = tt
  visit-Apart op missing phys x (n ∷ a) k h =
      if_cases (λ (r : A × PageAllocator). All (Apart x) r.1) (inside n phys)
        (λ e. (Keeps-Apart x n (op n).1 (k n e) h.0, h.1))
        (λ e. (h.0, visit-Apart op missing phys x a k h.1))

  visit-WellFormed :
      (op : BitmapNode → A × BitmapNode) (missing : A) (phys : ℕ) (a : PageAllocator)
      → ((n : BitmapNode) → inside n phys ≡ true → Keeps n (op n).1)
      → WellFormed a
      → WellFormed (visit op missing phys a).1
  unfolding visit WellFormed
  visit-WellFormed op missing phys [] k w = tt
  visit-WellFormed op missing phys (n ∷ a) k w =
      if_cases (λ (r : A × PageAllocator). WellFormed r.1) (inside n phys)
        (λ e. Keeps-head n (op n).1 a (k n e) w)
        (λ e. (
          w.0,
          (visit-Apart op missing phys n a k w.1.0, visit-WellFormed op missing phys a k w.1.1),
        ))

in_bitmap :
    (n : BitmapNode) (page : ℕ)
    → NodeOk n
    → find_page (pages_in n) 0 n.bitmap ≡ some page
    → page / 64 < length n.bitmap
in_bitmap n page ok e =
    omega (arith, ok.long, (find_page-Hit (pages_in n) 0 n.bitmap page ok.words e).1.1.0)

hunt_4k-Apart :
    (x : BitmapNode) (a : PageAllocator)
    → WellFormed a
    → All (Apart x) a
    → All (Apart x) (hunt_4k a).1
unfolding hunt_4k WellFormed
hunt_4k-Apart x [] w h = tt
hunt_4k-Apart x (n ∷ a) w h = elim (Option-cases (find_page (pages_in n) 0 n.bitmap)) [
  | inr (page, e) ↦
      rw (hunt_4k, e) (Keeps-Apart x n _ (Keeps-clear n page (in_bitmap n page w.0 e)) h.0, h.1)
  | inl e ↦ rw (hunt_4k, e) (h.0, hunt_4k-Apart x a w.1.1 h.1)
]

hunt_4k-WellFormed : (a : PageAllocator) → WellFormed a → WellFormed (hunt_4k a).1
unfolding hunt_4k WellFormed
hunt_4k-WellFormed [] w = tt
hunt_4k-WellFormed (n ∷ a) w = elim (Option-cases (find_page (pages_in n) 0 n.bitmap)) [
  | inr (page, e) ↦
      rw (hunt_4k, e) (Keeps-head n _ a (Keeps-clear n page (in_bitmap n page w.0 e)) w)
  | inl e ↦ rw (hunt_4k, e) (w.0, (hunt_4k-Apart n a w.1.1 w.1.0, hunt_4k-WellFormed a w.1.1))
]

-- Every allocation and every release keeps the nodes in order.
pub alloc-WellFormed :
    (size : PageSize) (req : Option ℕ) (a : PageAllocator)
    → WellFormed a
    → WellFormed (alloc size req a).1
unfolding alloc
alloc-WellFormed size_4kib none a w = hunt_4k-WellFormed a w
alloc-WellFormed size_2mib none a w = w
alloc-WellFormed size_4kib (some phys) a w =
    if_cases (λ (r : Option ℕ × PageAllocator). WellFormed r.1) (phys % page_4k == 0)
      (λ e. visit-WellFormed (claim_4k phys) none phys a (λ n i. claim_4k-Keeps phys n) w) (λ e. w)
alloc-WellFormed size_2mib (some phys) a w =
    if_cases (λ (r : Option ℕ × PageAllocator). WellFormed r.1) (phys % page_2m == 0)
      (λ e. visit-WellFormed (claim_2m phys) none phys a (λ n i. claim_2m-Keeps phys n) w) (λ e. w)

pub dealloc-WellFormed :
    (p : ℕ) (size : PageSize) (a : PageAllocator) → WellFormed a → WellFormed (dealloc p size a).1
unfolding dealloc
dealloc-WellFormed p size a =
    visit-WellFormed (free_pages_at size p) (failed not_mapped) p a (free_pages_at-Keeps size p)
