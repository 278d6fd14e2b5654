-- ===== src/Ll.antt =====
-- Low-level kernel communication (src/ll/mod.rs): the iterator over arguments, operations, requests,
-- and the description of the packets that the kernel sends.
pub mod Argument
pub mod Operation
pub mod Wire
pub mod RoundTrip
pub mod Request
pub mod Validity
pub mod Display
pub mod MacosOperation
pub mod MacosRequest
mod Tests
