-- ===== src/Reply/Kinds.antt =====
-- Any use of a typed reply (src/reply.rs). The use that a filesystem makes of a reply object is data: one of
-- its methods with the arguments, or dropping it unused.
pub mod Exactly
pub mod Reading
pub mod Plain
use async_fuse_rs.Prelude.{ℕ}
use async_fuse_rs.Bytes.{Bytes}
use async_fuse_rs.Libc.{Libc}
use async_fuse_rs.FileAttr.{FileAttr, Duration}
use async_fuse_rs.Reply.Raw
use async_fuse_rs.Reply.Raw.{ReplyRaw, Outcome, consume, forsake, unwind}
unfoldable pub use async_fuse_rs.Reply.Outs.{
  entry_out, attr_out, open_out, write_out, statfs_out, create_out, lk_out, bmap_out, xattr_out,
  created_repr, with_attr,
}
use async_fuse_rs.Reply.Typed.{
  attr_attr, attr_error, bmap_bmap, bmap_error, create_created, create_error, data_data, data_error,
  empty_error, empty_ok, entry_entry, entry_error, lock_error, lock_locked, open_error, open_opened,
  statfs_error, statfs_statfs, write_error, write_written, xattr_data, xattr_error, xattr_size,
}

-- A reply object, by its type.
pub data Kind : Type 0 where
  empty_kind data_kind entry_kind attr_kind open_kind write_kind statfs_kind create_kind lock_kind
        bmap_kind xattr_kind :
      Kind

-- A use of a reply object that sends its own answer.
pub data Answer : Kind → Type 0 where
  ok : Answer empty_kind
  bytes : Bytes → Answer data_kind
  entry : Duration → FileAttr → ℕ → Answer entry_kind
  attr : Duration → FileAttr → Answer attr_kind
  opened : ℕ → ℕ → Answer open_kind
  written : ℕ → Answer write_kind
  statfs : ℕ → ℕ → ℕ → ℕ → ℕ → ℕ → ℕ → ℕ → Answer statfs_kind
  created : Duration → FileAttr → ℕ → ℕ → ℕ → Answer create_kind
  locked : ℕ → ℕ → ℕ → ℕ → Answer lock_kind
  bmap : ℕ → Answer bmap_kind
  size : ℕ → Answer xattr_kind
  xattr : Bytes → Answer xattr_kind

-- Any use: an answer, an error, none at all, or a panic of the method while it holds the object.
pub data Use (k : Kind) : Type 0 where
  answer : Answer k → Use k
  error : ℕ → Use k
  dropped : Use k
  panics : Use k

-- A method of each reply type.
unfoldable pub run_answer : {k : Kind} → Libc → ReplyRaw → Answer k → Outcome
unfolding with_attr consume Raw.ok
run_answer libc r ok = empty_ok libc (record { reply = r })
run_answer libc r (bytes b) = data_data libc (record { reply = r }) b
run_answer libc r (entry ttl a generation) =
    entry_entry libc (record { reply = r }) ttl a generation
run_answer libc r (attr ttl a) = attr_attr libc (record { reply = r }) ttl a
run_answer libc r (opened fh flags) = open_opened libc (record { reply = r }) fh flags
run_answer libc r (written n) = write_written libc (record { reply = r }) n
run_answer libc r (statfs blocks bfree bavail files ffree bsize namelen frsize) =
    statfs_statfs libc (record { reply = r }) blocks bfree bavail files ffree bsize namelen frsize
run_answer libc r (created ttl a generation fh flags) =
    create_created libc (record { reply = r }) ttl a generation fh flags
run_answer libc r (locked start end typ pid) =
    lock_locked libc (record { reply = r }) start end typ pid
run_answer libc r (bmap block) = bmap_bmap libc (record { reply = r }) block
run_answer libc r (size n) = xattr_size libc (record { reply = r }) n
run_answer libc r (xattr b) = xattr_data libc (record { reply = r }) b

-- `error` of each reply type.
unfoldable pub run_error : (k : Kind) → Libc → ReplyRaw → ℕ → Outcome
unfolding Raw.error
run_error empty_kind libc r err = empty_error libc (record { reply = r }) err
run_error data_kind libc r err = data_error libc (record { reply = r }) err
run_error entry_kind libc r err = entry_error libc (record { reply = r }) err
run_error attr_kind libc r err = attr_error libc (record { reply = r }) err
run_error open_kind libc r err = open_error libc (record { reply = r }) err
run_error write_kind libc r err = write_error libc (record { reply = r }) err
run_error statfs_kind libc r err = statfs_error libc (record { reply = r }) err
run_error create_kind libc r err = create_error libc (record { reply = r }) err
run_error lock_kind libc r err = lock_error libc (record { reply = r }) err
run_error bmap_kind libc r err = bmap_error libc (record { reply = r }) err
run_error xattr_kind libc r err = xattr_error libc (record { reply = r }) err

unfoldable pub run_use : {k : Kind} → Libc → ReplyRaw → Use k → Outcome
unfolding run_answer run_error forsake unwind
run_use libc r (answer a) = run_answer libc r a
run_use {k} libc r (error err) = run_error k libc r err
run_use libc r dropped = forsake libc r
run_use libc r panics = unwind libc r
