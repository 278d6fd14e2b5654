-- ===== src/Session/Loop.antt =====
-- The loop of `Session::run` (src/session.rs), over what the calls of `receive` return in turn.
pub mod Runs
use async_fuse_rs.Prelude.{ℕ, ◌==◌, if◌then◌else◌, Option, none, some, List, [], ◌∷◌}
use async_fuse_rs.Bytes.{Bytes}
use async_fuse_rs.Libc.{Libc}
use async_fuse_rs.Channel.{ChannelSender}
use async_fuse_rs.Request.Task
use async_fuse_rs.Request.Task.{Request}

-- What `receive` returns: the bytes now in the buffer, or an error with its number, if it has one.
pub data Received : Type 0 where
  got : Bytes → Received
  failed : Option ℕ → Received

-- What the loop does next: it spawns a dispatch, goes on, breaks, or returns the error.
pub data Turn : Type 0 where
  spawn : Request → Turn
  again : Turn
  quit : Turn
  give_up : Option ℕ → Turn

-- `match err.raw_os_error()`, its arms in their order.
unfoldable pub turn_on_error : Libc → ℕ → Turn
turn_on_error libc e =
    if e == libc.enoent
    then again
    else if e == libc.eintr
    then again
    else if e == libc.eagain
    then again
    else if e == libc.enodev
    then quit
    else give_up (some e)

unfoldable pub turn : Libc → ChannelSender → Received → Turn
unfolding Task.new turn_on_error
turn libc ch (got bytes) = elim (Task.new ch bytes) [ none ↦ quit | some req ↦ spawn req ]
turn libc ch (failed (some e)) = turn_on_error libc e
turn libc ch (failed none) = give_up none

-- How the loop stands: it waits for `receive`, has returned `Ok(())`, or has returned an error.
pub data Verdict : Type 0 where
  waits : Verdict
  returned_ok : Verdict
  returned_err : Option ℕ → Verdict

-- What a turn comes to, if the loop that goes on comes to `rest`.
abbrev pub follow : Turn → List Request × Verdict → List Request × Verdict
follow (spawn req) rest = (req ∷ rest.0, rest.1)
follow again rest = rest
follow quit rest = ([], returned_ok)
follow (give_up e) rest = ([], returned_err e)

-- The requests that are dispatched, in order, and how the loop stands.
unfoldable pub run : Libc → ChannelSender → List Received → List Request × Verdict
unfolding turn
run libc ch [] = ([], waits)
run libc ch (r ∷ rs) = follow (turn libc ch r) (run libc ch rs)
