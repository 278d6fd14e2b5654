-- ===== src/Examples/Serve.antt =====
-- A filesystem that is served its packets one after the other: each is received, parsed, dispatched and
-- answered before the next comes (src/session.rs, src/request.rs).
pub mod Null
pub mod Conversation
use async_fuse_rs.Prelude.{
  ℕ, ◌≤◌, ◌≡◌, refl, Option, none, some, List, [], ◌∷◌, ◌++◌, length, ◌>>=◌,
}
use async_fuse_rs.Bytes.{Bytes}
use async_fuse_rs.Libc.{Libc}
use async_fuse_rs.Channel.{ChannelSender, Message}
use async_fuse_rs.Session.{Session}
use async_fuse_rs.Ll
use async_fuse_rs.Ll.Request.RoundTrip.{packet, IsWireRequest, try_from-packet}
use async_fuse_rs.Reply.Raw.{Outcome}
use async_fuse_rs.Reply.Kinds.{Kind, Use}
use async_fuse_rs.Reply.Directory.{Listing}
use async_fuse_rs.Filesystem.{Call}
use async_fuse_rs.Filesystem.Defaults.{default_use, default_listing, default_init}
use async_fuse_rs.Examples.Hello.{hello_use, hello_listing}
use async_fuse_rs.Request.Task
use async_fuse_rs.Request.Task.{
  Request, Task, ResultOf, in_init, in_destroy, in_call, in_readdir, in_forget, finished,
}
use async_fuse_rs.Request.Begin.{begin}
use async_fuse_rs.Request.Resume.{resume}

-- A filesystem whose methods depend on nothing but their arguments; `readdir` has the inode, the handle
-- and the offset.
pub record Filesystem : Type 0 where
  pub use_of : {k : Kind} → Libc → Call k → Use k
  pub listing : Libc → ℕ → ℕ → ℕ → Listing
  pub init : Option ℕ

-- `NullFS` of examples/null.rs.
abbrev pub null_fs : Filesystem
null_fs = record {
  use_of = default_use;
  listing = λ libc ino fh offset. default_listing libc;
  init = default_init;
}

-- `HelloFS` of examples/hello.rs.
abbrev pub hello_fs : Filesystem
hello_fs = record {
  use_of = hello_use;
  listing = λ libc ino fh offset. hello_listing libc ino offset;
  init = default_init;
}

-- What the method comes to that a dispatch waits for.
abbrev pub result_of : Filesystem → Libc → (t : Task) → ResultOf t
result_of fs libc (in_init _ _) = fs.init
result_of fs libc (in_destroy _) = tt
result_of fs libc (in_call _ c) = fs.use_of libc c
result_of fs libc (in_readdir ino fh offset _) = fs.listing libc ino fh offset
result_of fs libc (in_forget _ _) = tt
result_of fs libc (finished _) = tt

-- A dispatch with no other between its halves.
unfoldable pub dispatch : Filesystem → Libc → Session → Request → Session × Outcome
unfolding begin resume
dispatch fs libc se req =
    resume libc (begin libc se req).0 (begin libc se req).1
      (result_of fs libc (begin libc se req).1)

-- The messages of the dispatches of some packets; `none` if one cannot be parsed.
unfoldable pub converse :
    Filesystem → Libc → ChannelSender → Session → List Bytes → Option (Session × List Message)
unfolding Task.new dispatch
converse fs libc ch se [] = some (se, [])
converse fs libc ch se (bytes ∷ rest) = do
  req ← Task.new ch bytes
  let (se', o) = dispatch fs libc se req
  (last, sent) ← converse fs libc ch se' rest
  some (last, o.sent ++ sent)

-- A packet that the kernel sends.
pub record Sent (r : Ll.Request.Request) : Type 0 where
  pub wire : IsWireRequest r
  pub whole : r.header.len ≤ length (packet r [])

abbrev pub request_on : ChannelSender → Ll.Request.Request → Request
request_on ch r = record { ch = ch; request = r }

new-packet :
    (ch : ChannelSender) (r : Ll.Request.Request)
    → Sent r
    → Task.new ch (packet r []) ≡ some (request_on ch r)
unfolding Task.new
new-packet ch r s = rw (try_from-packet r [] s.wire s.whole, Task.new) refl

-- One packet, and the rest of a conversation.
pub converse-packet :
    (fs : Filesystem) (libc : Libc) (ch : ChannelSender) (se se' last : Session) (o : Outcome)
    (r : Ll.Request.Request) (rest : List Bytes) (sent : List Message)
    → Sent r
    → dispatch fs libc se (request_on ch r) ≡ (se', o)
    → converse fs libc ch se' rest ≡ some (last, sent)
    → converse fs libc ch se (packet r [] ∷ rest) ≡ some (last, o.sent ++ sent)
unfolding converse
converse-packet fs libc ch se se' last o r rest sent s h tail =
    rw (new-packet ch r s, converse, h, tail) refl
