-- ===== src/Reply.antt =====
-- Replies (src/reply.rs). A reply object is created for one request and is consumed by exactly one of
-- its methods, or dropped. A method returns what it sends, and whether it panics.
pub mod Raw
pub mod Attr
pub mod Outs
pub mod Typed
pub mod Kinds
pub mod Macos
pub mod Directory
mod Tests
