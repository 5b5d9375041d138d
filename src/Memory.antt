-- ===== src/Memory.antt =====
-- The kernel's memory: the allocator of page frames and the slab allocator of its heap.
pub mod Pages
pub mod Slab
pub mod Heap
mod Tests
