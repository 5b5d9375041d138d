-- ===== src/Memory/Slab/Ok.antt =====
-- The invariant of a slab: which of its blocks are free and which are handed out.
use zenos.Common.{ℕ, ◌+◌, ◌<◌, ◌≡◌, true, false, List, length, All}
use zenos.Memory.Slab.{Blocks, Slab, magic, block_addr, blocks_for}
use zenos.Memory.Slab.Chain.{Chain, Distinct}

-- `a` is the address of a block of the slab.
abbrev pub IsBlock : Slab → ℕ → Type 0
IsBlock s a = (i : ℕ) × ((i < s.meta.total) × (a ≡ block_addr s.base_addr s.slab_size i))

-- The slab's list is the blocks `free`, and the blocks `live` are handed out: no block is in both or
-- twice in one, the `used` flags tell them apart, and the counts are those of the lists.
pub record SlabOk (s : Slab) (h : Blocks) (free live : List ℕ) : Type 0 where
  pub marked : s.meta.magic_number ≡ magic
  pub chain : Chain h s.head free
  pub free_distinct : Distinct free
  pub live_distinct : Distinct live
  pub free_unused : All (λ a. (h a).used ≡ false) free
  pub live_used : All (λ a. (h a).used ≡ true) live
  pub free_blocks : All (IsBlock s) free
  pub live_blocks : All (IsBlock s) live
  pub in_use_live : s.meta.in_use ≡ length live
  pub total_free : length free + length live ≡ s.meta.total
  pub total_fits : s.meta.total ≡ blocks_for s.slab_size
