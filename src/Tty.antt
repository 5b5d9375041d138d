-- ===== src/Tty.antt =====
-- The text terminal, zenos-kernel/src/tty/mod.rs.
pub mod Color
pub mod Device
pub mod Sgr
pub mod Ansi
mod Tests
