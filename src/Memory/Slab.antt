-- ===== src/Memory/Slab.antt =====
-- One slab of zenos-kernel/src/memory/alloc.rs: its blocks of one size and the list of the free ones.
mod Chain
pub mod Link
pub mod Ok
pub mod Alloc
pub mod Free
pub mod Start
use zenos.Common.{
  ℕ, zero, suc, ◌+◌, ◌-◌, ◌*◌, ◌/◌, Bool, true, false, ◌||◌, not, List, [], ◌∷◌, Option, none, some,
  if◌then◌else◌, ltb, leb, ◌==◌, length,
}

abbrev pub slab_page : ℕ
slab_page = 4096

abbrev pub max_slab_pages : ℕ
max_slab_pages = 15

-- `size_of::<BlockMeta>()` and `size_of::<SlabMeta>()`, with their alignment to 16.
abbrev pub block_meta_size : ℕ
block_meta_size = 32

abbrev pub slab_meta_size : ℕ
slab_meta_size = 32

pub record BlockMeta : Type 0 where
  pub next : Option ℕ
  pub prev : Option ℕ
  pub used : Bool

-- `BlockMeta::new()`.
abbrev pub new_block : BlockMeta
new_block = record { next = none; prev = none; used = false }

pub record SlabMeta : Type 0 where
  pub size : ℕ
  pub in_use : ℕ
  pub total : ℕ
  pub magic_number : ℕ

-- `0x1604_2010 << 1 | 1`.
abbrev pub magic : ℕ
magic = 0x16042010 * 2 + 1

abbrev pub new_meta : ℕ → ℕ → SlabMeta
new_meta size total = record { size = size; in_use = 0; total = total; magic_number = magic }

-- What the addresses of the heap hold as `BlockMeta`.
abbrev pub Blocks : Type 0
Blocks = ℕ → BlockMeta

abbrev pub store_block : Blocks → ℕ → BlockMeta → Blocks
store_block h a m b = if a == b then m else h b

-- A slab with the `SlabMeta` at its base address.
pub record Slab : Type 0 where
  pub base_addr : ℕ
  pub slab_size : ℕ
  pub head : Option ℕ
  pub meta : SlabMeta

abbrev pub is_full : SlabMeta → Bool
is_full m = leb m.total m.in_use

-- `SlabMeta::allocate`, whose index the slab does not use.
unfoldable pub allocate : SlabMeta → Option ℕ × SlabMeta
allocate m = if is_full m then (none, m) else (some m.in_use, record m { in_use = m.in_use + 1 })

abbrev pub deallocate : SlabMeta → SlabMeta
deallocate m = if ltb 0 m.in_use then record m { in_use = m.in_use - 1 } else m

abbrev pub blocks_for : ℕ → ℕ
blocks_for slab_size = (max_slab_pages * slab_page - slab_meta_size) / (block_meta_size + slab_size)

abbrev pub block_addr : ℕ → ℕ → ℕ → ℕ
block_addr base_addr slab_size i = base_addr + slab_meta_size + i * (block_meta_size + slab_size)

-- `p.as_mut().next = Some(nn)` and `nn.as_mut().prev = Some(p)`, where there is a block before.
abbrev pub set_next : Blocks → ℕ → ℕ → Blocks
set_next h p bm = store_block h p (record (h p) { next = some bm })

abbrev pub set_prev : Blocks → ℕ → ℕ → Blocks
set_prev h bm p = store_block h bm (record (h bm) { prev = some p })

abbrev pub link_block : ℕ → Option ℕ → Blocks → Blocks
link_block bm none h = store_block h bm new_block
link_block bm (some p) h = set_prev (set_next (store_block h bm new_block) p bm) bm p

-- The loop over the blocks from block `i` on, `left` of them.
unfoldable pub link_loop : ℕ → ℕ → ℕ → ℕ → Option ℕ → Blocks → Blocks
link_loop base_addr slab_size zero i prev h = h
link_loop base_addr slab_size (suc left) i prev h =
    let bm = block_addr base_addr slab_size i in
    link_loop base_addr slab_size left (suc i) (some bm) (link_block bm prev h)

-- Whether `kalloc_page` maps each page of the slab; where it does not, the code panics.
unfoldable pub map_pages : (ℕ → Bool) → ℕ → ℕ → Bool
map_pages kalloc_page zero base_addr = true
map_pages kalloc_page (suc pages) base_addr =
    if kalloc_page base_addr then map_pages kalloc_page pages (base_addr + slab_page) else false

-- `Slab::new`, with `none` for the panic.
unfoldable pub new_slab : (ℕ → Bool) → ℕ → ℕ → SlabMeta → Blocks → Option (Slab × Blocks)
new_slab kalloc_page base_addr slab_size meta h =
    let actual_blocks = blocks_for slab_size in
    if map_pages kalloc_page max_slab_pages base_addr
    then some (
      record {
        base_addr = base_addr;
        slab_size = slab_size;
        head = if actual_blocks == 0 then none else some (block_addr base_addr slab_size 0);
        meta = if ltb actual_blocks meta.total then record meta { total = actual_blocks } else meta;
      },
      link_loop base_addr slab_size actual_blocks 0 none h,
    )
    else none

-- `nxt.as_mut().prev = None`, where there is a block.
abbrev pub unlink_prev : Option ℕ → Blocks → Blocks
unlink_prev none h = h
unlink_prev (some nxt) h = store_block h nxt (record (h nxt) { prev = none })

abbrev pub take_head : Option ℕ → Slab → Blocks → Option ℕ × (Slab × Blocks)
take_head none s h = (none, (s, h))
take_head (some bm) s h =
    let next = (h bm).next in
    let h1 = unlink_prev next h in
    (
      some (bm + block_meta_size),
      (
        record s { head = next; meta = (allocate s.meta).1 },
        store_block h1 bm (record (h1 bm) { used = true }),
      ),
    )

-- `Slab::alloc`: the pointer behind the block's `BlockMeta`, or null.
unfoldable pub slab_alloc : Slab → Blocks → Option ℕ × (Slab × Blocks)
slab_alloc s h =
    if not (s.meta.magic_number == magic) || is_full s.meta
    then (none, (s, h))
    else take_head s.head s h

abbrev pub link_prev : Option ℕ → ℕ → Blocks → Blocks
link_prev none bm h = h
link_prev (some old_head) bm h = store_block h old_head (record (h old_head) { prev = some bm })

-- `Slab::dealloc`, with 0 for null.
unfoldable pub slab_dealloc : Slab → ℕ → Blocks → Slab × Blocks
slab_dealloc s ptr h =
    if not (s.meta.magic_number == magic) || s.meta.in_use == 0 || ptr == 0
    then (s, h)
    else (let bm = ptr - block_meta_size in
        (
          record s { head = some bm; meta = deallocate s.meta },
          link_prev s.head bm
              (store_block h bm (record { next = s.head; prev = none; used = false })),
        ))
