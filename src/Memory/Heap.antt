-- ===== src/Memory/Heap.antt =====
-- The kernel's heap, zenos-kernel/src/memory/alloc.rs: `SlabAllocator` over slabs of ten sizes, and
-- `LockedAllocator`, which turns to the large allocator where a slab cannot serve.
pub mod Laws
use zenos.Common.{
  ℕ, zero, suc, ◌+◌, ◌-◌, ◌*◌, ◌%◌, Bool, true, false, ◌&&◌, not, List, [], ◌∷◌, ◌++◌, Option, none,
  some, if◌then◌else◌, ltb, leb, ◌==◌, length, get_elem?, set, u64_size,
}
use zenos.Memory.Slab.{
  Slab, Blocks, new_meta, blocks_for, new_slab, slab_alloc, slab_dealloc, slab_page, max_slab_pages,
}

abbrev pub slab_size_classes : List ℕ
slab_size_classes = 8 ∷ 16 ∷ 32 ∷ 64 ∷ 128 ∷ 256 ∷ 512 ∷ 1024 ∷ 2048 ∷ 4096 ∷ []

abbrev pub max_slabs : ℕ
max_slabs = 32

-- The slabs, the address for the next new one, the addresses to use again (the last pushed first),
-- and what the memory holds.
pub record SlabAllocator : Type 0 where
  pub slabs : List Slab
  pub base_addr : ℕ
  pub freed_slots : List ℕ
  pub blocks : Blocks

-- What an allocation gives: null, a pointer, or a panic.
pub data Allocation : Type 0 where
  null : Allocation
  pointer : ℕ → Allocation
  panicked : Allocation

-- `SLAB_SIZE_CLASSES.iter().find(..)`.
unfoldable pub find_class : (ℕ → Bool) → List ℕ → Option ℕ
find_class fits [] = none
find_class fits (c ∷ classes) = if fits c then some c else find_class fits classes

abbrev pub alloc_class : ℕ → ℕ → Option ℕ
alloc_class size align = find_class (λ s. leb size s && leb align s) slab_size_classes

abbrev pub dealloc_class : ℕ → Option ℕ
dealloc_class size = find_class (λ s. leb size s) slab_size_classes

-- The place of the first slab of a class.
unfoldable pub slab_position : ℕ → List Slab → Option ℕ
slab_position c [] = none
slab_position c (s ∷ slabs) =
    let rest = slab_position c slabs in
    if s.slab_size == c then some 0 else (elim rest [ none ↦ none | some i ↦ some (suc i) ])

-- A freed address, or the next new one.
abbrev pub next_slot : SlabAllocator → ℕ × SlabAllocator
next_slot a = elim a.freed_slots [
  | [] ↦
      (a.base_addr, record a { base_addr = (a.base_addr + max_slab_pages * slab_page) % u64_size })
  | slot ∷ slots ↦ (slot, record a { freed_slots = slots })
]

-- The new slab with its first block taken goes to the end of the list, which holds 32.
abbrev pub add_slab : SlabAllocator → Option ℕ × (Slab × Blocks) → Allocation × SlabAllocator
add_slab a (none, (s, h)) = (null, record a { blocks = h })
add_slab a (some ptr, (s, h)) =
    if ltb (length a.slabs) max_slabs
    then (pointer ptr, record a { slabs = a.slabs ++ (s ∷ []); blocks = h })
    else (panicked, a)

abbrev pub fill_slab : SlabAllocator → Option (Slab × Blocks) → Allocation × SlabAllocator
fill_slab a none = (panicked, a)
fill_slab a (some (s, h)) = add_slab a (slab_alloc s h)

unfoldable pub grow : (ℕ → Bool) → ℕ → SlabAllocator → Allocation × SlabAllocator
grow kalloc_page c a =
    let slot = next_slot a in
    fill_slab slot.1 (new_slab kalloc_page slot.0 c (new_meta c (blocks_for c)) slot.1.blocks)

-- The result of the first slab of the class at place `i`, or a new slab where that gives null.
abbrev pub use_slab :
    (ℕ → Bool) → ℕ → ℕ → SlabAllocator → Option ℕ × (Slab × Blocks) → Allocation × SlabAllocator
use_slab kalloc_page c i a (none, _) = grow kalloc_page c a
use_slab kalloc_page c i a (some ptr, (s, h)) =
    (pointer ptr, record a { slabs = set a.slabs i s; blocks = h })

abbrev pub try_slab : (ℕ → Bool) → ℕ → ℕ → SlabAllocator → Option Slab → Allocation × SlabAllocator
try_slab kalloc_page c i a none = grow kalloc_page c a
try_slab kalloc_page c i a (some s) = use_slab kalloc_page c i a (slab_alloc s a.blocks)

abbrev pub alloc_from : (ℕ → Bool) → ℕ → SlabAllocator → Option ℕ → Allocation × SlabAllocator
alloc_from kalloc_page c a none = grow kalloc_page c a
alloc_from kalloc_page c a (some i) = try_slab kalloc_page c i a (get_elem? a.slabs i)

abbrev pub alloc_in_class : (ℕ → Bool) → SlabAllocator → Option ℕ → Allocation × SlabAllocator
alloc_in_class kalloc_page a none = (null, a)
alloc_in_class kalloc_page a (some c) = alloc_from kalloc_page c a (slab_position c a.slabs)

-- `SlabAllocator::alloc` of a layout.
unfoldable pub heap_alloc : (ℕ → Bool) → ℕ → ℕ → SlabAllocator → Allocation × SlabAllocator
heap_alloc kalloc_page size align a =
    if size == 0
    then (null, a)
    else (if ltb 4096 size
        then (null, a)
        else alloc_in_class kalloc_page a (alloc_class size align))

-- `swap_remove`: the last slab takes the place of the one removed.
unfoldable pub drop_last : List Slab → List Slab
drop_last [] = []
drop_last (s ∷ []) = []
drop_last (s ∷ t ∷ slabs) = s ∷ drop_last (t ∷ slabs)

abbrev pub swap_remove_slab : List Slab → ℕ → List Slab
swap_remove_slab slabs i = elim (get_elem? slabs (length slabs - 1)) [
  | none ↦ slabs
  | some last ↦ drop_last (set slabs i last)
]

-- Where the slab is empty after the block was put back, it is removed and its address kept.
abbrev pub put_back : SlabAllocator → ℕ → Slab × Blocks → SlabAllocator
put_back a i (s, h) =
    if s.meta.in_use == 0
    then record a {
      slabs = swap_remove_slab a.slabs i;
      freed_slots =
          if ltb (length a.freed_slots) max_slabs
          then s.base_addr ∷ a.freed_slots
          else a.freed_slots;
      blocks = h;
    }
    else record a { slabs = set a.slabs i s; blocks = h }

abbrev pub free_in : SlabAllocator → ℕ → ℕ → Option Slab → SlabAllocator
free_in a ptr i none = a
free_in a ptr i (some s) = put_back a i (slab_dealloc s ptr a.blocks)

abbrev pub dealloc_at : SlabAllocator → ℕ → Option ℕ → SlabAllocator
dealloc_at a ptr none = a
dealloc_at a ptr (some i) = free_in a ptr i (get_elem? a.slabs i)

abbrev pub dealloc_in_class : SlabAllocator → ℕ → Option ℕ → SlabAllocator
dealloc_in_class a ptr none = a
dealloc_in_class a ptr (some c) = dealloc_at a ptr (slab_position c a.slabs)

-- `SlabAllocator::dealloc`, with 0 for null. The pages of an empty slab are taken to be mapped.
unfoldable pub heap_dealloc : ℕ → ℕ → SlabAllocator → SlabAllocator
heap_dealloc ptr size a = if ptr == 0 then a else dealloc_in_class a ptr (dealloc_class size)

-- The allocator for large blocks, a library's, with the kernel's use of it.
pub record LargeAllocator (L : Type 0) : Type 1 where
  pub allocate_first_fit : ℕ → ℕ → L → Option ℕ × L
  pub large_deallocate : ℕ → ℕ → L → L

module _ {L : Type 0} (large : LargeAllocator L) where
  abbrev pub from_large : Option ℕ × L → SlabAllocator → Allocation × (SlabAllocator × L)
  from_large (none, l) a = (null, (a, l))
  from_large (some ptr, l) a = (pointer ptr, (a, l))

  abbrev pub or_large : ℕ → ℕ → L → Allocation × SlabAllocator → Allocation × (SlabAllocator × L)
  or_large size align l (null, a) = from_large (large.allocate_first_fit size align l) a
  or_large size align l (pointer ptr, a) = (pointer ptr, (a, l))
  or_large size align l (panicked, a) = (panicked, (a, l))

  -- `GlobalAlloc::alloc` and `dealloc` of `LockedAllocator`.
  unfoldable pub global_alloc :
      (ℕ → Bool) → ℕ → ℕ → SlabAllocator × L → Allocation × (SlabAllocator × L)
  global_alloc kalloc_page size align (a, l) =
      if ltb 4096 size
      then from_large (large.allocate_first_fit size align l) a
      else or_large size align l (heap_alloc kalloc_page size align a)

  unfoldable pub global_dealloc : ℕ → ℕ → SlabAllocator × L → SlabAllocator × L
  global_dealloc ptr size (a, l) =
      if ltb 4096 size
      then (if ptr == 0 then (a, l) else (a, large.large_deallocate ptr size l))
      else (heap_dealloc ptr size a, l)
