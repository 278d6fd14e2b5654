-- ===== src/Session/Buffer.antt =====
-- The buffer that `Session::run` receives every request into (src/session.rs, `receive` of
-- src/channel.rs). It is never cleared.
use async_fuse_rs.Prelude.{
  ℕ, ◌≡◌, refl, ap, Option, none, some, List, [], ◌∷◌, ◌++◌, map, length, take, drop, take-append,
}
use async_fuse_rs.Bytes.{Bytes}
use async_fuse_rs.Libc.{Libc}
use async_fuse_rs.Channel.{ChannelSender}
use async_fuse_rs.Request.Task.{Request}
use async_fuse_rs.Session.Loop.{Received, got, failed, turn, follow, Verdict, waits, run}

-- The bytes of a vector's allocation, and how many of them it counts as its elements.
pub record Buffer : Type 0 where
  pub memory : Bytes
  pub len : ℕ

abbrev pub contents : Buffer → Bytes
contents b = take b.len b.memory

-- What the kernel does in a call of `read`: it fails with an error number, or writes a packet to the front
-- of the memory, never more than that holds, and returns its length.
pub data Read : Type 0 where
  fails : ℕ → Read
  writes : Bytes → Read

-- `Channel::receive`: the buffer behind the call, and the error if there is one.
unfoldable pub receive : Buffer → Read → Buffer × Option ℕ
receive b (fails e) = (b, some e)
receive b (writes packet) =
    (record { memory = packet ++ drop (length packet) b.memory; len = length packet }, none)

-- What the loop then looks at.
abbrev pub received : Buffer × Option ℕ → Received
received (b, none) = got (contents b)
received (b, some e) = failed (some e)

-- The loop of `run` with its buffer.
unfoldable pub run_buffer : Libc → ChannelSender → Buffer → List Read → List Request × Verdict
unfolding receive turn
run_buffer libc ch b [] = ([], waits)
run_buffer libc ch b (r ∷ rs) =
    let next = receive b r in follow (turn libc ch (received next)) (run_buffer libc ch next.0 rs)

-- What the kernel's part comes to, with no buffer.
abbrev pub packet_of : Read → Received
packet_of (fails e) = failed (some e)
packet_of (writes packet) = got packet

received-receive : (b : Buffer) (r : Read) → received (receive b r) ≡ packet_of r
unfolding receive
received-receive b (fails e) = refl
received-receive b (writes packet) =
    ap got (take-append (length packet) packet (drop (length packet) b.memory) refl)

-- The loop dispatches and stands as it would if each packet came in a buffer of its own, whatever earlier
-- packets, longer or shorter, left in the memory.
pub run_buffer-run :
    (libc : Libc) (ch : ChannelSender) (b : Buffer) (rs : List Read)
    → run_buffer libc ch b rs ≡ run libc ch (map packet_of rs)
unfolding run_buffer run
run_buffer-run libc ch b [] = refl
run_buffer-run libc ch b (r ∷ rs) =
    rw (received-receive b r, run_buffer-run libc ch (receive b r).0 rs, run_buffer) refl
