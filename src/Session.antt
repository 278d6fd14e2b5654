-- ===== src/Session.antt =====
-- Sessions (src/session.rs): what the dispatches share, the loop that receives requests, and the loop
-- and its tasks together.
pub mod Loop
pub mod Server
pub mod Life
pub mod Buffer
pub mod Start
mod Tests
use async_fuse_rs.Prelude.{ℕ, ◌+◌, ◌*◌, Bool, false}

-- What `dispatch` shares through the session (`Session` of src/session.rs): the four atomics. The
-- filesystem and the channel do not change.
pub record Session : Type 0 where
  pub proto_major : ℕ
  pub proto_minor : ℕ
  pub initialized : Bool
  pub destroyed : Bool

-- The atomics of `Session::new`.
abbrev pub new : Session
new = record { proto_major = 0; proto_minor = 0; initialized = false; destroyed = false }

abbrev pub max_write_size : ℕ
max_write_size = 16 * 1024 * 1024

abbrev pub buffer_size : ℕ
buffer_size = max_write_size + 4096
