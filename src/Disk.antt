-- ===== src/Disk.antt =====
-- Disks: block devices, the partition table of zenos-kernel/src/disk/block/mod.rs and the FAT file
-- system.
pub mod Device
pub mod Gpt
pub mod Fat
mod Tests
