-- ===== src/Files.antt =====
-- Open files and the descriptor table of a process (zenos-kernel/src/disk/vfs.rs,
-- zenos-kernel/src/process/mod.rs and the file system calls of zenos-kernel/src/syscall).
pub mod OpenFile
pub mod Table
pub mod Syscalls
pub mod Getdents
pub mod Opening
pub mod UserMemory
pub mod Transfer
mod Tests
