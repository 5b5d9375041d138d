-- ===== src/Memory/Tests.antt =====
-- The theorems on the kernel's memory applied to two small regions.
use zenos.Common.{ℕ, ◌*◌, ◌≡◌, true, refl, inl, List, [], ◌∷◌, Option, none, some, arith}
use zenos.Memory.Pages.{
  size_4kib, PageAllocator, alloc, dealloc, initialize, initialize_loop, new_bitmap, hunt_4k,
  find_page, find_bit,
}
use zenos.Memory.Slab.{
  Slab, Blocks, new_block, new_meta, blocks_for, block_addr, new_slab, map_pages, link_loop,
  slab_alloc,
}
use zenos.Memory.Slab.Ok.{SlabOk}
use zenos.Memory.Slab.Link.{block_list}
use zenos.Memory.Slab.Start.{new_slab-Ok}
use zenos.Memory.Pages.Spec.{WellFormed, Allocates, Releases}
use zenos.Memory.Pages.Laws.{alloc-Allocates}
use zenos.Memory.Pages.Freeing.{dealloc-Releases}
use zenos.Memory.Pages.Start.{RegionsOk, started, allocated, released, Reaches-WellFormed}

-- A slab for the class 4096 at 0x1000, with 14 blocks.
abbrev slab : Slab
slab = record {
  base_addr = 0x1000;
  slab_size = 4096;
  head = some (block_addr 0x1000 4096 0);
  meta = new_meta 4096 (blocks_for 4096);
}

abbrev fresh : Blocks
fresh a = new_block

abbrev linked : Blocks
linked = link_loop 0x1000 4096 (blocks_for 4096) 0 none fresh

slab_new :
    new_slab (λ page. true) 0x1000 4096 (new_meta 4096 (blocks_for 4096)) fresh
    ≡ some (slab, linked)
unfolding new_slab map_pages
slab_new = refl

abbrev all_blocks : List ℕ
all_blocks = block_list 0x1000 4096 (blocks_for 4096) 0

slab-Ok : SlabOk slab linked all_blocks []
slab-Ok = new_slab-Ok (λ page. true) 0x1000 4096 fresh linked slab slab_new

-- After one allocation, and after two.
abbrev one : Option ℕ × (Slab × Blocks)
one = slab_alloc slab linked

abbrev two : Option ℕ × (Slab × Blocks)
two = slab_alloc one.1.0 one.1.1

-- 16 KiB at 0x1000 and 8 KiB at 0x20000.
abbrev regions : List (ℕ × ℕ)
regions = (0x1000, 16 * 1024) ∷ (0x20000, 8 * 1024) ∷ []

regions-Ok : RegionsOk regions
regions-Ok =
    ((omega arith, omega arith), ((inl (omega arith), tt), ((omega arith, omega arith), (tt, tt))))

abbrev two_regions : PageAllocator
two_regions = initialize regions

two_regions-WellFormed : WellFormed two_regions
two_regions-WellFormed = Reaches-WellFormed (started regions regions-Ok)

first_page : (alloc size_4kib none two_regions).0 ≡ some 0x20000
unfolding alloc hunt_4k initialize_loop new_bitmap find_page find_bit
first_page = refl

first_alloc :
    alloc size_4kib none two_regions ≡ (some 0x20000, (alloc size_4kib none two_regions).1)
unfolding alloc hunt_4k initialize_loop new_bitmap find_page find_bit
first_alloc = refl

dealloc-Releases_example :
    Releases size_4kib 0x1010 two_regions (dealloc 0x1010 size_4kib two_regions)
dealloc-Releases_example = dealloc-Releases size_4kib 0x1010 two_regions two_regions-WellFormed

alloc-Allocates_example :
    Allocates size_4kib (some 0x2000) two_regions (alloc size_4kib (some 0x2000) two_regions)
alloc-Allocates_example = alloc-Allocates size_4kib (some 0x2000) two_regions two_regions-WellFormed

Reaches-WellFormed_example :
    WellFormed (dealloc 0x3000 size_4kib (alloc size_4kib none two_regions).1).1
Reaches-WellFormed_example = Reaches-WellFormed (
    released 0x3000 size_4kib _ (allocated size_4kib none two_regions (started regions regions-Ok)))
