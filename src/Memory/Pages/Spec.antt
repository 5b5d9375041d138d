-- ===== src/Memory/Pages/Spec.antt =====
-- What the page allocator is taken for: a set of free addresses, and the invariant of its nodes.
use zenos.Common.{
  ℕ, ◌+◌, ◌*◌, ◌/◌, ◌%◌, ◌≤◌, ◌≡◌, ◌⊎◌, Bool, true, false, ◌&&◌, ◌||◌, not, [], ◌∷◌, Option, none,
  some, if◌then◌else◌, ltb, leb, length, All,
}
use zenos.Memory.Pages.{
  PageSize, size_4kib, size_2mib, BitmapNode, PageAllocator, Freed, freed, failed, not_mapped,
  page_4k, page_2m, pages_in, bit_at, inside, page_of,
}
use zenos.Memory.Pages.Bitmap.{Words64}

-- Whether the page at an address is free.
unfoldable pub is_free : PageAllocator → ℕ → Bool
is_free [] q = false
is_free (node ∷ nodes) q =
    if inside node q then bit_at node.bitmap (page_of node q) else is_free nodes q

-- Whether an address is of a region.
unfoldable pub is_managed : PageAllocator → ℕ → Bool
is_managed [] q = false
is_managed (node ∷ nodes) q = inside node q || is_managed nodes q

-- A node stands for whole aligned pages and has the words for these, with no bit beyond them.
pub record NodeOk (node : BitmapNode) : Type 0 where
  pub base_aligned : node.base_phys % page_4k ≡ 0
  pub size_aligned : node.region_size % page_4k ≡ 0
  pub words : Words64 node.bitmap
  pub long : pages_in node ≤ 64 * length node.bitmap
  pub tail : (page : ℕ) → pages_in node ≤ page → bit_at node.bitmap page ≡ false

abbrev pub Apart : BitmapNode → BitmapNode → Type 0
Apart n m =
    (n.base_phys + n.region_size ≤ m.base_phys) ⊎ (m.base_phys + m.region_size ≤ n.base_phys)

unfoldable pub WellFormed : PageAllocator → Type 0
WellFormed [] = Unit
WellFormed (node ∷ nodes) = NodeOk node × (All (Apart node) nodes × WellFormed nodes)

abbrev pub pages_of : PageSize → ℕ
pages_of size_4kib = 1
pages_of size_2mib = 512

-- `q` lies in the `count` pages from `p` on.
abbrev pub in_pages : ℕ → ℕ → ℕ → Bool
in_pages count p q = leb p q && ltb q (p + count * page_4k)

-- From `a` to `b`, `count` pages from `p` on were free and are so no longer; nothing else changes,
-- nor do the regions.
pub record Takes (count p : ℕ) (a b : PageAllocator) : Type 0 where
  pub was_free : (q : ℕ) → in_pages count p q ≡ true → is_free a q ≡ true
  pub removed : (q : ℕ) → is_free b q ≡ (is_free a q && not (in_pages count p q))
  pub same_regions : (q : ℕ) → is_managed b q ≡ is_managed a q

-- What a result without a page says: no page is free, or the one that was asked for is not. Of 2 MiB
-- at an address nothing is said, since the pages may be free and not aligned within their region.
abbrev pub Missing : PageSize → Option ℕ → PageAllocator → Type 0
Missing size_4kib none a = (q : ℕ) → is_free a q ≡ false
Missing size_4kib (some p) a = p % page_4k ≡ 0 → is_free a p ≡ false
Missing size_2mib req a = Unit

abbrev pub Asked : PageSize → Option ℕ → ℕ → Type 0
Asked size_4kib none p = p % page_4k ≡ 0
Asked size_4kib (some wanted) p = (p ≡ wanted) × (p % page_4k ≡ 0)
Asked size_2mib none p = ⊥
Asked size_2mib (some wanted) p = (p ≡ wanted) × (p % page_2m ≡ 0)

-- The allocation of one page as the set of free pages sees it.
abbrev pub Allocates : PageSize → Option ℕ → PageAllocator → Option ℕ × PageAllocator → Type 0
Allocates size req a (none, b) = (b ≡ a) × Missing size req a
Allocates size req a (some p, b) = Asked size req p × Takes (pages_of size) p a b

-- The page that holds `p`.
abbrev pub page_base : ℕ → ℕ
page_base p = p / page_4k * page_4k

-- A 4 KiB page given back.
abbrev pub Frees : ℕ → PageAllocator → Freed × PageAllocator → Type 0
Frees p a (freed, b) =
    (is_managed a p ≡ true) × ((q : ℕ) → is_free b q ≡ (is_free a q || in_pages 1 (page_base p) q))
Frees p a (failed e, b) = (e ≡ not_mapped) × ((is_managed a p ≡ false) × (b ≡ a))

-- A release of either size: 2 MiB given back free no page at all.
abbrev pub Releases : PageSize → ℕ → PageAllocator → Freed × PageAllocator → Type 0
Releases size_4kib p a r = Frees p a r
Releases size_2mib p a r = r.1 ≡ a
