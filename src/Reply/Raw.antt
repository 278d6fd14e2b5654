-- ===== src/Reply/Raw.antt =====
-- The raw reply (`ReplyRaw` of src/reply.rs), which all other replies wrap.
pub mod Once
use mathlib.Core.List.{foldl}
use async_fuse_rs.Prelude.{
  ℕ, ◌+◌, ◌%◌, Bool, true, false, ◌==◌, if◌then◌else◌, List, [], ◌∷◌, ◌++◌, Option, none, some,
  length,
}
use async_fuse_rs.Bytes.{Bytes, u32_mod, neg_i32}
use async_fuse_rs.Abi.Layout.{Repr, size_of, encode}
use async_fuse_rs.Abi.Replies.{FuseOutHeader, out_header_repr}
use async_fuse_rs.Libc.{Libc}
use async_fuse_rs.Channel.{ChannelSender, Message}

pub record ReplyRaw : Type 0 where
  pub unique : ℕ
  pub sender : Option ChannelSender

-- What becomes of a reply object: the messages that went out, in order, and whether the call panicked.
pub record Outcome : Type 0 where
  pub sent : List Message
  pub panicked : Bool

unfoldable pub new : ℕ → ChannelSender → ReplyRaw
new unique sender = record { unique = unique; sender = some sender }

-- The bytes of a value as slices; a type of no size has none.
unfoldable pub as_bytes : {T : Type 0} → Repr T → T → List Bytes
as_bytes r t = if size_of r == 0 then [] else encode r t ∷ []

-- `bytes.iter().fold(0, |l, b| l + b.len())`.
unfoldable pub total_len : List Bytes → ℕ
total_len bytes = foldl (λ l b. l + length b) 0 bytes

unfoldable pub header_for : ℕ → ℕ → List Bytes → FuseOutHeader
unfolding total_len
header_for unique err bytes = record {
  len = (size_of out_header_repr + total_len bytes) % u32_mod;
  error = neg_i32 err;
  unique = unique;
}

-- `send`: the sender is taken out. `none` is the failed assertion that there is one.
unfoldable pub send : ReplyRaw → ℕ → List Bytes → Option (Message × ReplyRaw)
unfolding header_for as_bytes
send r err bytes = elim r.sender [
  | none ↦ none
  | some s ↦ some (
    record {
      fd = s.fd;
      slices = as_bytes out_header_repr (header_for r.unique err bytes) ++ bytes;
    },
    record r { sender = none },
  )
]

-- `drop`: a reply that still has its sender sends an I/O error.
unfoldable pub drop : Libc → ReplyRaw → List Message
unfolding send
drop libc r = elim r.sender [
  | none ↦ []
  | some s ↦ elim (send r libc.eio []) [ none ↦ [] | some (m, r') ↦ m ∷ [] ]
]

-- A method that takes the object by value: the call of `send`, then the end of the object's life.
unfoldable pub consume : Libc → ReplyRaw → ℕ → List Bytes → Outcome
unfolding send drop
consume libc r err bytes = elim (send r err bytes) [
  | none ↦ record { sent = drop libc r; panicked = true }
  | some (m, r') ↦ record { sent = m ∷ drop libc r'; panicked = false }
]

unfoldable pub ok : {T : Type 0} → Libc → Repr T → ReplyRaw → T → Outcome
unfolding consume as_bytes
ok libc repr r value = consume libc r 0 (as_bytes repr value)

unfoldable pub error : Libc → ReplyRaw → ℕ → Outcome
unfolding consume
error libc r err = consume libc r err []

-- The object is dropped while a panic unwinds, or by a holder that never used it.
unfoldable pub unwind : Libc → ReplyRaw → Outcome
unfolding drop
unwind libc r = record { sent = drop libc r; panicked = true }

unfoldable pub forsake : Libc → ReplyRaw → Outcome
unfolding drop
forsake libc r = record { sent = drop libc r; panicked = false }
