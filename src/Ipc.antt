-- ===== src/Ipc.antt =====
-- The Buran Worker Protocol: crates/buran-ipc/src.
pub mod Error
pub mod Frame
pub mod Hello
pub mod Request
mod Tests
