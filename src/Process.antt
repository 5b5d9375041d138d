-- ===== src/Process.antt =====
-- Processes and the scheduler (zenos-kernel/src/process and the process calls of
-- zenos-kernel/src/syscall).
pub mod State
pub mod Scheduler
pub mod Calls
pub mod UserStack
mod Tests
