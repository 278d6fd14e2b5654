-- ===== src/Reply/Typed.antt =====
-- The types of replies (src/reply.rs), each around a raw reply: `new`, the methods that answer, and
-- `error`.
use async_fuse_rs.Prelude.{ℕ, [], ◌∷◌}
use async_fuse_rs.Bytes.{Bytes}
use async_fuse_rs.Libc.{Libc}
use async_fuse_rs.Channel.{ChannelSender}
use async_fuse_rs.FileAttr.{FileAttr, Duration}
use async_fuse_rs.Abi.Replies.{
  entry_out_repr, attr_out_repr, open_out_repr, write_out_repr, statfs_out_repr, lk_out_repr,
  bmap_out_repr, getxattr_out_repr,
}
use async_fuse_rs.Reply.Raw
use async_fuse_rs.Reply.Raw.{ReplyRaw, Outcome, consume, unwind}
unfoldable pub use async_fuse_rs.Reply.Outs.{
  entry_out, attr_out, open_out, write_out, statfs_out, create_out, lk_out, bmap_out, xattr_out,
  created_repr, with_attr,
}

-- `ReplyEmpty`.
pub record ReplyEmpty : Type 0 where
  pub reply : ReplyRaw

abbrev pub empty_new : ℕ → ChannelSender → ReplyEmpty
empty_new unique sender = record { reply = Raw.new unique sender }

abbrev pub empty_ok : Libc → ReplyEmpty → Outcome
empty_ok libc r = consume libc r.reply 0 []

abbrev pub empty_error : Libc → ReplyEmpty → ℕ → Outcome
empty_error libc r err = Raw.error libc r.reply err

-- `ReplyData`.
pub record ReplyData : Type 0 where
  pub reply : ReplyRaw

abbrev pub data_new : ℕ → ChannelSender → ReplyData
data_new unique sender = record { reply = Raw.new unique sender }

abbrev pub data_data : Libc → ReplyData → Bytes → Outcome
data_data libc r bytes = consume libc r.reply 0 (bytes ∷ [])

abbrev pub data_error : Libc → ReplyData → ℕ → Outcome
data_error libc r err = Raw.error libc r.reply err

-- `ReplyEntry`.
pub record ReplyEntry : Type 0 where
  pub reply : ReplyRaw

abbrev pub entry_new : ℕ → ChannelSender → ReplyEntry
entry_new unique sender = record { reply = Raw.new unique sender }

abbrev pub entry_entry : Libc → ReplyEntry → Duration → FileAttr → ℕ → Outcome
entry_entry libc r ttl a generation =
    with_attr libc r.reply entry_out_repr a (entry_out ttl a generation)

abbrev pub entry_error : Libc → ReplyEntry → ℕ → Outcome
entry_error libc r err = Raw.error libc r.reply err

-- `ReplyAttr`.
pub record ReplyAttr : Type 0 where
  pub reply : ReplyRaw

abbrev pub attr_new : ℕ → ChannelSender → ReplyAttr
attr_new unique sender = record { reply = Raw.new unique sender }

abbrev pub attr_attr : Libc → ReplyAttr → Duration → FileAttr → Outcome
attr_attr libc r ttl a = with_attr libc r.reply attr_out_repr a (attr_out ttl)

abbrev pub attr_error : Libc → ReplyAttr → ℕ → Outcome
attr_error libc r err = Raw.error libc r.reply err

-- `ReplyOpen`.
pub record ReplyOpen : Type 0 where
  pub reply : ReplyRaw

abbrev pub open_new : ℕ → ChannelSender → ReplyOpen
open_new unique sender = record { reply = Raw.new unique sender }

abbrev pub open_opened : Libc → ReplyOpen → ℕ → ℕ → Outcome
open_opened libc r fh flags = Raw.ok libc open_out_repr r.reply (open_out fh flags)

abbrev pub open_error : Libc → ReplyOpen → ℕ → Outcome
open_error libc r err = Raw.error libc r.reply err

-- `ReplyWrite`.
pub record ReplyWrite : Type 0 where
  pub reply : ReplyRaw

abbrev pub write_new : ℕ → ChannelSender → ReplyWrite
write_new unique sender = record { reply = Raw.new unique sender }

abbrev pub write_written : Libc → ReplyWrite → ℕ → Outcome
write_written libc r size = Raw.ok libc write_out_repr r.reply (write_out size)

abbrev pub write_error : Libc → ReplyWrite → ℕ → Outcome
write_error libc r err = Raw.error libc r.reply err

-- `ReplyStatfs`.
pub record ReplyStatfs : Type 0 where
  pub reply : ReplyRaw

abbrev pub statfs_new : ℕ → ChannelSender → ReplyStatfs
statfs_new unique sender = record { reply = Raw.new unique sender }

abbrev pub statfs_statfs : Libc → ReplyStatfs → ℕ → ℕ → ℕ → ℕ → ℕ → ℕ → ℕ → ℕ → Outcome
statfs_statfs libc r blocks bfree bavail files ffree bsize namelen frsize =
    Raw.ok libc statfs_out_repr r.reply
      (statfs_out blocks bfree bavail files ffree bsize namelen frsize)

abbrev pub statfs_error : Libc → ReplyStatfs → ℕ → Outcome
statfs_error libc r err = Raw.error libc r.reply err

-- `ReplyCreate`.
pub record ReplyCreate : Type 0 where
  pub reply : ReplyRaw

abbrev pub create_new : ℕ → ChannelSender → ReplyCreate
create_new unique sender = record { reply = Raw.new unique sender }

abbrev pub create_created : Libc → ReplyCreate → Duration → FileAttr → ℕ → ℕ → ℕ → Outcome
create_created libc r ttl a generation fh flags =
    with_attr libc r.reply created_repr a (create_out ttl a generation fh flags)

abbrev pub create_error : Libc → ReplyCreate → ℕ → Outcome
create_error libc r err = Raw.error libc r.reply err

-- `ReplyLock`.
pub record ReplyLock : Type 0 where
  pub reply : ReplyRaw

abbrev pub lock_new : ℕ → ChannelSender → ReplyLock
lock_new unique sender = record { reply = Raw.new unique sender }

abbrev pub lock_locked : Libc → ReplyLock → ℕ → ℕ → ℕ → ℕ → Outcome
lock_locked libc r start end typ pid = Raw.ok libc lk_out_repr r.reply (lk_out start end typ pid)

abbrev pub lock_error : Libc → ReplyLock → ℕ → Outcome
lock_error libc r err = Raw.error libc r.reply err

-- `ReplyBmap`.
pub record ReplyBmap : Type 0 where
  pub reply : ReplyRaw

abbrev pub bmap_new : ℕ → ChannelSender → ReplyBmap
bmap_new unique sender = record { reply = Raw.new unique sender }

abbrev pub bmap_bmap : Libc → ReplyBmap → ℕ → Outcome
bmap_bmap libc r block = Raw.ok libc bmap_out_repr r.reply (bmap_out block)

abbrev pub bmap_error : Libc → ReplyBmap → ℕ → Outcome
bmap_error libc r err = Raw.error libc r.reply err

-- `ReplyXattr`.
pub record ReplyXattr : Type 0 where
  pub reply : ReplyRaw

abbrev pub xattr_new : ℕ → ChannelSender → ReplyXattr
xattr_new unique sender = record { reply = Raw.new unique sender }

abbrev pub xattr_size : Libc → ReplyXattr → ℕ → Outcome
xattr_size libc r size = Raw.ok libc getxattr_out_repr r.reply (xattr_out size)

abbrev pub xattr_data : Libc → ReplyXattr → Bytes → Outcome
xattr_data libc r bytes = consume libc r.reply 0 (bytes ∷ [])

abbrev pub xattr_error : Libc → ReplyXattr → ℕ → Outcome
xattr_error libc r err = Raw.error libc r.reply err
