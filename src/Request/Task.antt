-- ===== src/Request/Task.antt =====
-- A request with its channel, and where its dispatch stands (src/request.rs).
use async_fuse_rs.Prelude.{ℕ, Option, none, some}
use async_fuse_rs.Bytes.{Bytes}
use async_fuse_rs.Channel.{ChannelSender}
use async_fuse_rs.Abi.FileRequests.{FuseInitIn}
use async_fuse_rs.Ll
use async_fuse_rs.Reply.Raw
use async_fuse_rs.Reply.Raw.{ReplyRaw, Outcome}
use async_fuse_rs.Reply.Kinds.{Kind, Use}
use async_fuse_rs.Reply.Directory.{ReplyDirectory, Listing}
use async_fuse_rs.Filesystem.{Call}

pub record Request : Type 0 where
  pub ch : ChannelSender
  pub request : Ll.Request.Request

-- `Request::new`: the error of a packet that cannot be parsed is only logged.
unfoldable pub new : ChannelSender → Bytes → Option Request
new ch bytes = elim (Ll.Request.try_from bytes) [
  | Ll.Request.ok request ↦ some (record { ch = ch; request = request })
  | Ll.Request.err _ ↦ none
]

-- `reply`: a reply object for the request.
unfoldable pub reply : Request → ReplyRaw
unfolding Raw.new Ll.Request.unique
reply req = Raw.new (Ll.Request.unique req.request) req.ch

-- The accessors that filesystems use.
unfoldable unique : Request → ℕ
unfolding Ll.Request.unique
unique req = Ll.Request.unique req.request

unfoldable uid : Request → ℕ
unfolding Ll.Request.uid
uid req = Ll.Request.uid req.request

unfoldable gid : Request → ℕ
unfolding Ll.Request.gid
gid req = Ll.Request.gid req.request

unfoldable pid : Request → ℕ
unfolding Ll.Request.pid
pid req = Ll.Request.pid req.request

-- A dispatch that waits for a method of the filesystem, with the reply object that it or the method
-- holds, if there is one yet; or one that is over without having called any.
pub data Task : Type 0 where
  in_init : FuseInitIn → ReplyRaw → Task
  in_destroy : Request → Task
  in_call : {k : Kind} → ReplyRaw → Call k → Task
  in_readdir : ℕ → ℕ → ℕ → ReplyDirectory → Task
  in_forget : ℕ → ℕ → Task
  finished : Outcome → Task

-- What the method that is waited for comes to: `init` returns an error or none, destroy and forget
-- return, the others use their reply object.
abbrev pub ResultOf : Task → Type 0
ResultOf (in_init _ _) = Option ℕ
ResultOf (in_destroy _) = Unit
ResultOf (in_call {k} _ _) = Use k
ResultOf (in_readdir _ _ _ _) = Listing
ResultOf (in_forget _ _) = Unit
ResultOf (finished _) = Unit
