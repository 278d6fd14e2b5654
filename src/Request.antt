-- ===== src/Request.antt =====
-- Requests and their dispatch (src/request.rs), on Linux. `dispatch` is an async function that waits at
-- most once, for a method of the filesystem: it is modelled by its two halves, `begin` up to that
-- call and `resume` behind it, so that other tasks may run in between.
pub mod Task
pub mod Begin
pub mod Resume
pub mod Once
pub mod Guards
pub mod Macos
mod Tests
