-- ===== src/Lib.antt =====
-- Zenos, an experimental x86_64 operating system: a model of the parts of its kernel that carry state
-- between calls, and proofs of what they do.
--
-- The files, by the part of zenos-kernel/src that they model:
--   Vfs/Path       disk/vfs.rs        `normalize_path`
--   Vfs/Mounts     disk/vfs.rs        `VFS`: `mount`, `unmount`, `get_fs`, `path_to_fs`
--   Vfs/Open       disk/vfs.rs        `open_file` and `create_file`
--   Vfs/Error      disk/mod.rs        `FileError`
--   Files/OpenFile disk/vfs.rs        `OpenFile`: `seek`, `read`, `write`
--   Files/Table    process/mod.rs     `get_file_handle`, `add_file_handle`, `dup_file_handle`,
--                                     `close_file_handle`, and the descriptors that `exec` keeps
--   Files/Syscalls syscall/           `dup`, `dup2`, `close`, `lseek`, `file_error_to_errno`
--   Process/State  process/mod.rs     `Process`, `ProcessStatus`, `ProcessState`
--   Process/Scheduler process/scheduler/mod.rs   `Scheduler::schedule`
--   Process/Calls  syscall/, process/mod.rs      `fork`, `exit`, `waitpid`, `block_current_process`
--   Process/UserStack process/mod.rs  `prepare_run`
--   Files/Opening  syscall/           `open_inner` and `access_inner`
--   Files/Getdents syscall/getdents.rs `getdents64`
--   Memory/Pages   memory/mod.rs      `PageAllocator`: `initialize`, `alloc`, `dealloc`
--   Memory/Slab    memory/alloc.rs    `Slab`: `new`, `alloc`, `dealloc`
--   Memory/Heap    memory/alloc.rs    `SlabAllocator` and `LockedAllocator`
--   Time           time.rs            `current_time`, `read_rtc`, `as_unix_epoch`
--   Input          hardware/keyboard/mod.rs, process/file_handles.rs   the queue of keys, `Stdin::read`
--   Files/UserMemory, Files/Transfer  syscall/mod.rs, read.rs, write.rs  user ranges, copies, `read`, `write`
--   Disk/Gpt       disk/block/mod.rs  `GPTHeader`, `GPTPartitionEntry`, `crc32`
--   Disk/Gpt/Reading disk/block/mod.rs  `read_exact`, `get_header`, `get_partition_entries`
--   Disk/Device    disk/block/mod.rs  the trait `BlockDevice`
--   Disk/Fat       disk/fs/fat/plumbing.rs   `FatDirEntry`
--   Disk/Fat/Bpb   disk/fs/fat/       `BiosParameterBlock`, `FatFileSystem::mount`
--   Disk/Fat/Table disk/fs/fat/plumbing.rs   `FatTable`, `read_cluster`, `write_cluster`
--   Disk/Fat/File  disk/fs/fat/mod.rs `FatFile`: `read`, `write`, `truncate`, `sync_entry`
--   Disk/Fat/Names disk/fs/fat/plumbing.rs   `short_name`, `name_to_8_3`
--   Disk/Fat/Directory disk/fs/fat/mod.rs    `FatDirectory`: `read_entries`, `create_entry`, `unlink`
--   Disk/Fat/Inodes disk/fs/fat/mod.rs       the cache of inodes, `lookup`, `create`, `read_dir`
--   Disk/Fat/Stat  disk/fs/fat/mod.rs        `stat`, `root_dir`
--   Tty            tty/mod.rs         `TTYDevice`
-- Common holds the helpers that they share.
--
-- How they interact: a path leads through the mount table to an inode (Vfs), which an open file holds
-- with a cursor (Files/OpenFile). A process has a table of descriptors (Files/Table), each the place
-- of an open file in the list of all, so that `dup` and `fork` share cursors. The processes
-- (Process/State) stand in one list, `PROCESSES`, which the scheduler and the process calls change;
-- a `Machine` is that list with the scheduler, the lock and the per-CPU pointer, whose target is a
-- place in the list. The terminal is the device behind the standard streams; its display is the list
-- of the calls made to it. The keyboard's interrupt adds bytes to a queue, which a read of standard
-- input takes them from. The heap makes slabs out of pages and keeps each slab's free blocks in a list
-- within the blocks; the pages are those of a bitmap for each region of the memory map.
--
-- State is passed and returned; a failure is a value: `Result` in the kernel, a negated errno as a
-- `u64` in the system calls. What the kernel gets from mounted file systems and inodes are parameters,
-- the records `Backend` and `Device`. A number is a natural number; where the source computes with
-- wrap-around or saturation it is written out (2 ^ 64, 2 ^ 32, 65535). All functions are total. The
-- loop that aligns the user stack runs on 15 turns of fuel, enough for an alignment to 16 bytes; the
-- loop of `waitpid` is modelled turn by turn. A word of a bitmap is the list of its 64 bits, the
-- lowest first. Where the code computes with a shift or a subtraction out of range, the model is that
-- of a build without overflow checks (the date of `as_unix_epoch` is `none` there). A blocking read is
-- modelled on the bytes that are there; it returns or waits, and a read that waits goes on with the
-- bytes that come.
--
-- A block device is a record of operations over a state of its own, which may fail at any call. The
-- theorems on what is on a disk are for a device that does what the trait's documentation says: a seek
-- moves the cursor, a read fills the buffer from there, a write puts its bytes there. Those on the end
-- of calls are for any device. The loops over a file take one turn more than the buffer has bytes, and
-- each turn handles a byte or more; the loops over the chain of a directory or of a file that is removed
-- take fuel from the caller, since a chain may run in a circle, and `out_of_fuel` says that it ran out.
--
-- Not modelled: page tables, the statistics of the page allocator and where it keeps its bitmaps,
-- ext2 and procfs, the drivers of disks, interrupts, the bootloader, the loading of programs, and the
-- programs of user space. The upper case of a name is the standard library's, a parameter; so is, for
-- the copies to and from a process, which pages are mapped. The memory of a slab's
-- blocks is taken to be written by the allocator alone. Locks are modelled only where the code tests
-- one, in `schedule`; logging is left out. The display's size is taken as fixed. `block_current_process` is modelled in the version that uses
-- `current_proc_mut`.
pub mod Common
pub mod Vfs
pub mod Files
pub mod Process
pub mod Memory
pub mod Time
pub mod Input
pub mod Disk
pub mod Tty
