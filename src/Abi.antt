-- ===== src/Abi.antt =====
-- The kernel interface (fuse-abi/src/lib.rs): struct layouts, structs and operation codes.
pub mod Consts
pub mod Macos
pub mod MacosRequests
pub mod Layout
pub mod Features
pub mod Requests
pub mod FileRequests
pub mod Replies
pub mod Opcode
