-- ===== src/Request/Resume.antt =====
-- `dispatch` of src/request.rs behind the call of a method, when that method has come to an end.
use async_fuse_rs.Prelude.{ℕ, ◌%◌, true, false, Option, none, some, [], bit_and}
use async_fuse_rs.Bytes.{u32_mod}
use async_fuse_rs.Libc.{Libc}
use async_fuse_rs.Session.{Session, max_write_size}
use async_fuse_rs.Abi.Consts.{fuse_async_read}
use async_fuse_rs.Abi.FileRequests.{FuseInitIn}
use async_fuse_rs.Abi.Replies.{FuseInitOut, init_out_repr}
use async_fuse_rs.Reply.Raw
use async_fuse_rs.Reply.Raw.{ReplyRaw, Outcome, consume}
use async_fuse_rs.Reply.Kinds.{run_use}
use async_fuse_rs.Reply.Directory.{run_listing}
use async_fuse_rs.Request.Task.{
  Task, in_init, in_destroy, in_call, in_readdir, in_forget, finished, ResultOf, reply,
}

-- `FUSE_KERNEL_VERSION` and `FUSE_KERNEL_MINOR_VERSION`, with no feature of the crate.
abbrev pub fuse_kernel_version : ℕ
fuse_kernel_version = 7

abbrev pub fuse_kernel_minor_version : ℕ
fuse_kernel_minor_version = 8

-- `INIT_FLAGS`.
abbrev pub init_flags : ℕ
init_flags = fuse_async_read

-- The reply to init.
unfoldable pub init_out : FuseInitIn → FuseInitOut
init_out arg = record {
  major = fuse_kernel_version;
  minor = fuse_kernel_minor_version;
  max_readahead = arg.max_readahead;
  flags = bit_and arg.flags init_flags;
  unused = 0;
  max_write = max_write_size % u32_mod;
}

unfoldable pub resume_init : Libc → Session → FuseInitIn → ReplyRaw → Option ℕ → Session × Outcome
unfolding Raw.error Raw.ok init_out
resume_init libc se arg r (some err) = (se, Raw.error libc r err)
resume_init libc se arg r none =
    (record se { initialized = true }, Raw.ok libc init_out_repr r (init_out arg))

unfoldable pub resume : Libc → Session → (t : Task) → ResultOf t → Session × Outcome
unfolding resume_init consume reply run_use run_listing
resume libc se (in_init arg r) result = resume_init libc se arg r result
resume libc se (in_destroy req) result =
    (record se { destroyed = true }, consume libc (reply req) 0 [])
resume libc se (in_call r c) use_ = (se, run_use libc r use_)
resume libc se (in_readdir ino fh offset d) listing = (se, run_listing libc d listing)
resume libc se (in_forget ino nlookup) result = (se, record { sent = []; panicked = false })
resume libc se (finished o) result = (se, o)
