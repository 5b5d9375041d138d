-- ===== src/Vfs.antt =====
-- Paths, mounts and the opening of files (zenos-kernel/src/disk/vfs.rs).
pub mod Error
pub mod Path
pub mod Mounts
pub mod Open
mod Tests
