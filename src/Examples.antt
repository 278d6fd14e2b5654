-- ===== src/Examples.antt =====
-- The filesystems of the examples folder.
pub mod Hello
pub mod Serve
mod Tests
