-- ===== src/Reply/Macos.antt =====
-- Replies on macOS (src/reply.rs): the attributes have a time of creation and flags there, and a
-- filesystem can be asked for the times of creation and of the last backup. The methods of the other
-- reply types are those of Reply.Typed on both systems.
pub mod Reading
use async_fuse_rs.Prelude.{ℕ, Option, none, some, ◌>>=◌}
use async_fuse_rs.Libc.{Libc}
use async_fuse_rs.Channel.{ChannelSender}
use async_fuse_rs.FileAttr.{FileAttr, Duration, SystemTime}
use async_fuse_rs.Abi.Layout.{Repr}
use async_fuse_rs.Abi.Replies.{FuseOpenOut}
use async_fuse_rs.Abi.Macos.{
  MacosAttr, MacosEntryOut, MacosAttrOut, FuseGetxtimesOut, macos_entry_out_repr,
  macos_attr_out_repr, macos_created_repr, getxtimes_out_repr,
}
use async_fuse_rs.Reply.Raw
use async_fuse_rs.Reply.Raw.{ReplyRaw, Outcome, unwind}
use async_fuse_rs.Reply.Attr.{time_from_system_time, mode_from_kind_and_perm}
use async_fuse_rs.Reply.Typed.{ReplyEntry, ReplyAttr, ReplyCreate, open_out}

-- The struct, from the attributes and the four converted times.
unfoldable pub macos_attr_with : Libc → FileAttr → ℕ × ℕ → ℕ × ℕ → ℕ × ℕ → ℕ × ℕ → MacosAttr
unfolding mode_from_kind_and_perm
macos_attr_with libc a (atime_secs, atime_nanos) (mtime_secs, mtime_nanos) (ctime_secs, ctime_nanos)
      (crtime_secs, crtime_nanos) =
    record {
      ino = a.ino;
      size = a.size;
      blocks = a.blocks;
      atime = atime_secs;
      mtime = mtime_secs;
      ctime = ctime_secs;
      crtime = crtime_secs;
      atimensec = atime_nanos;
      mtimensec = mtime_nanos;
      ctimensec = ctime_nanos;
      crtimensec = crtime_nanos;
      mode = mode_from_kind_and_perm libc a.kind a.perm;
      nlink = a.nlink;
      uid = a.uid;
      gid = a.gid;
      rdev = a.rdev;
      flags = a.flags;
    }

-- `none` is the panic of `unwrap` on a time before the epoch.
unfoldable pub macos_attr_from_attr : Libc → FileAttr → Option MacosAttr
unfolding time_from_system_time macos_attr_with
macos_attr_from_attr libc a = do
  atime ← time_from_system_time a.atime
  mtime ← time_from_system_time a.mtime
  ctime ← time_from_system_time a.ctime
  crtime ← time_from_system_time a.crtime
  some (macos_attr_with libc a atime mtime ctime crtime)

-- The structs that the methods fill in.
unfoldable pub macos_entry_out : Duration → FileAttr → ℕ → MacosAttr → MacosEntryOut
macos_entry_out ttl a generation fuse_attr = record {
  nodeid = a.ino;
  generation = generation;
  entry_valid = ttl.secs;
  attr_valid = ttl.secs;
  entry_valid_nsec = ttl.nanos;
  attr_valid_nsec = ttl.nanos;
  attr = fuse_attr;
}

unfoldable pub macos_attr_out : Duration → MacosAttr → MacosAttrOut
macos_attr_out ttl fuse_attr = record {
  attr_valid = ttl.secs;
  attr_valid_nsec = ttl.nanos;
  dummy = 0;
  attr = fuse_attr;
}

unfoldable pub macos_create_out :
    Duration → FileAttr → ℕ → ℕ → ℕ → MacosAttr → MacosEntryOut × FuseOpenOut
unfolding macos_entry_out open_out
macos_create_out ttl a generation fh flags fuse_attr =
    (macos_entry_out ttl a generation fuse_attr, open_out fh flags)

unfoldable pub xtimes_out : ℕ × ℕ → ℕ × ℕ → FuseGetxtimesOut
xtimes_out (bkuptime_secs, bkuptime_nanos) (crtime_secs, crtime_nanos) = record {
  bkuptime = bkuptime_secs;
  crtime = crtime_secs;
  bkuptimensec = bkuptime_nanos;
  crtimensec = crtime_nanos;
}

-- A reply with a struct that may fail to come about, where the call panics: the object is then dropped
-- while unwinding.
unfoldable pub ok_or_unwind : {T : Type 0} → Libc → ReplyRaw → Repr T → Option T → Outcome
unfolding Raw.ok unwind
ok_or_unwind libc r repr none = unwind libc r
ok_or_unwind libc r repr (some value) = Raw.ok libc repr r value

unfoldable pub macos_entry_entry : Libc → ReplyEntry → Duration → FileAttr → ℕ → Outcome
unfolding ok_or_unwind macos_attr_from_attr macos_entry_out
macos_entry_entry libc r ttl a generation =
    ok_or_unwind libc r.reply macos_entry_out_repr (do
      fuse_attr ← macos_attr_from_attr libc a
      some (macos_entry_out ttl a generation fuse_attr))

unfoldable pub macos_attr_attr : Libc → ReplyAttr → Duration → FileAttr → Outcome
unfolding ok_or_unwind macos_attr_from_attr macos_attr_out
macos_attr_attr libc r ttl a =
    ok_or_unwind libc r.reply macos_attr_out_repr
      (do fuse_attr ← macos_attr_from_attr libc a; some (macos_attr_out ttl fuse_attr))

unfoldable pub macos_create_created : Libc → ReplyCreate → Duration → FileAttr → ℕ → ℕ → ℕ → Outcome
unfolding ok_or_unwind macos_attr_from_attr macos_create_out
macos_create_created libc r ttl a generation fh flags =
    ok_or_unwind libc r.reply macos_created_repr (do
      fuse_attr ← macos_attr_from_attr libc a
      some (macos_create_out ttl a generation fh flags fuse_attr))

-- `ReplyXTimes`.
pub record ReplyXTimes : Type 0 where
  pub reply : ReplyRaw

abbrev pub xtimes_new : ℕ → ChannelSender → ReplyXTimes
xtimes_new unique sender = record { reply = Raw.new unique sender }

unfoldable pub xtimes_xtimes : Libc → ReplyXTimes → SystemTime → SystemTime → Outcome
unfolding ok_or_unwind time_from_system_time xtimes_out
xtimes_xtimes libc r bkuptime crtime =
    ok_or_unwind libc r.reply getxtimes_out_repr (do
      b ← time_from_system_time bkuptime
      c ← time_from_system_time crtime
      some (xtimes_out b c))

abbrev pub xtimes_error : Libc → ReplyXTimes → ℕ → Outcome
xtimes_error libc r err = Raw.error libc r.reply err
