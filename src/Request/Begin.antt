-- ===== src/Request/Begin.antt =====
-- `dispatch` of src/request.rs up to the call of a method.
pub mod Arguments
pub mod Chosen
use async_fuse_rs.Prelude.{
  ℕ, ◌==◌, ltb, if◌then◌else◌, Bool, true, false, ◌&&◌, ◌||◌, not, Option, none, some, List, [],
  length, bit_and,
}
use async_fuse_rs.Libc.{Libc}
use async_fuse_rs.Session.{Session}
use async_fuse_rs.Ll
use async_fuse_rs.Ll.Operation.{Operation}
use async_fuse_rs.Bytes.{Bytes}
use async_fuse_rs.Abi.Requests.{FuseSetattrIn}
use async_fuse_rs.Abi.FileRequests.{FuseInitIn, FuseReadIn, FuseWriteIn, FuseSetxattrIn, FuseLkIn}
use async_fuse_rs.Reply.Raw
use async_fuse_rs.Reply.Raw.{Outcome}
use async_fuse_rs.Reply.Directory
use async_fuse_rs.Filesystem
use async_fuse_rs.Filesystem.{Call}
use async_fuse_rs.Request.Task.{
  Request, Task, in_init, in_destroy, in_call, in_readdir, in_forget, finished, reply,
}
use async_fuse_rs.Request.Begin.Arguments.{attr_change, release_flush, datasync}

-- A panic before any reply object was made: no message goes out.
abbrev pub panic : Task
panic = finished (record { sent = []; panicked = true })

-- `req.reply::<…>().error(err)`.
unfoldable pub refuse : Libc → Request → ℕ → Task
unfolding Raw.error reply
refuse libc req err = finished (Raw.error libc (reply req) err)

-- The arms that check or compute arguments, or that two operations share.
abbrev pub call_setattr : Libc → Request → ℕ → FuseSetattrIn → Task
call_setattr libc req ino arg = elim (attr_change libc arg) [
  | none ↦ panic
  | some change ↦ in_call (reply req) (Call.setattr ino change)
]

abbrev pub call_write : Request → ℕ → FuseWriteIn → Bytes → Task
call_write req ino arg bytes =
    if length bytes == arg.size
    then in_call (reply req) (Call.write ino arg.fh arg.offset bytes arg.write_flags)
    else panic

abbrev pub call_readdir : Request → ℕ → FuseReadIn → Task
call_readdir req ino arg =
    in_readdir ino arg.fh arg.offset (Directory.new (Ll.Request.unique req.request) req.ch arg.size)

abbrev pub call_setxattr : Request → ℕ → FuseSetxattrIn → Bytes → Bytes → Task
call_setxattr req ino arg name value =
    if length value == arg.size
    then in_call (reply req) (Call.setxattr ino name value arg.flags 0)
    else panic

abbrev pub call_getlk : Request → ℕ → FuseLkIn → Task
call_getlk req ino arg =
    in_call (reply req)
      (Call.getlk ino arg.fh arg.owner arg.lk.start arg.lk.end arg.lk.typ arg.lk.pid)

abbrev pub call_setlk : Request → ℕ → FuseLkIn → Bool → Task
call_setlk req ino arg sleep =
    in_call (reply req)
      (Call.setlk ino arg.fh arg.owner arg.lk.start arg.lk.end arg.lk.typ arg.lk.pid sleep)

-- The arms behind the guards: the method that an operation calls, with the request's inode `ino`.
-- The arms of init and destroy do not come here.
unfoldable pub call : Libc → Request → ℕ → Operation → Task
call libc req ino (Operation.interrupt _) = refuse libc req libc.enosys
call libc req ino (Operation.lookup name) = in_call (reply req) (Call.lookup ino name)
call libc req ino (Operation.forget arg) = in_forget ino arg.nlookup
call libc req ino Operation.get_attr = in_call (reply req) (Call.getattr ino)
call libc req ino (Operation.set_attr arg) = call_setattr libc req ino arg
call libc req ino Operation.read_link = in_call (reply req) (Call.readlink ino)
call libc req ino (Operation.mk_nod arg name) =
    in_call (reply req) (Call.mknod ino name arg.mode arg.rdev)
call libc req ino (Operation.mk_dir arg name) = in_call (reply req) (Call.mkdir ino name arg.mode)
call libc req ino (Operation.unlink name) = in_call (reply req) (Call.unlink ino name)
call libc req ino (Operation.rm_dir name) = in_call (reply req) (Call.rmdir ino name)
call libc req ino (Operation.sym_link name target) =
    in_call (reply req) (Call.symlink ino name target)
call libc req ino (Operation.rename arg name newname) =
    in_call (reply req) (Call.rename ino name arg.newdir newname)
call libc req ino (Operation.link arg name) = in_call (reply req) (Call.link arg.oldnodeid ino name)
call libc req ino (Operation.open_file arg) = in_call (reply req) (Call.open_file ino arg.flags)
call libc req ino (Operation.read arg) =
    in_call (reply req) (Call.read ino arg.fh arg.offset arg.size)
call libc req ino (Operation.write arg bytes) = call_write req ino arg bytes
call libc req ino (Operation.flush arg) = in_call (reply req) (Call.flush ino arg.fh arg.lock_owner)
call libc req ino (Operation.release arg) =
    in_call (reply req) (Call.release ino arg.fh arg.flags arg.lock_owner (release_flush arg))
call libc req ino (Operation.f_sync arg) =
    in_call (reply req) (Call.fsync ino arg.fh (datasync arg))
call libc req ino (Operation.open_dir arg) = in_call (reply req) (Call.opendir ino arg.flags)
call libc req ino (Operation.read_dir arg) = call_readdir req ino arg
call libc req ino (Operation.release_dir arg) =
    in_call (reply req) (Call.releasedir ino arg.fh arg.flags)
call libc req ino (Operation.f_sync_dir arg) =
    in_call (reply req) (Call.fsyncdir ino arg.fh (datasync arg))
call libc req ino Operation.stat_fs = in_call (reply req) (Call.statfs ino)
call libc req ino (Operation.set_x_attr arg name value) = call_setxattr req ino arg name value
call libc req ino (Operation.get_x_attr arg name) =
    in_call (reply req) (Call.getxattr ino name arg.size)
call libc req ino (Operation.list_x_attr arg) = in_call (reply req) (Call.listxattr ino arg.size)
call libc req ino (Operation.remove_x_attr name) = in_call (reply req) (Call.removexattr ino name)
call libc req ino (Operation.access arg) = in_call (reply req) (Call.access ino arg.mask)
call libc req ino (Operation.create arg name) =
    in_call (reply req) (Call.create ino name arg.mode arg.flags)
call libc req ino (Operation.get_lk arg) = call_getlk req ino arg
call libc req ino (Operation.set_lk arg) = call_setlk req ino arg false
call libc req ino (Operation.set_lk_w arg) = call_setlk req ino arg true
call libc req ino (Operation.b_map arg) =
    in_call (reply req) (Call.bmap ino arg.blocksize arg.block)
call libc req ino (Operation.init arg) = panic
call libc req ino Operation.destroy = panic

-- `arg.major < 7 || (arg.major == 7 && arg.minor < 6)`.
abbrev pub is_unsupported : FuseInitIn → Bool
is_unsupported arg = ltb arg.major 7 || (arg.major == 7 && ltb arg.minor 6)

abbrev pub is_destroy : Operation → Bool
is_destroy Operation.destroy = true
is_destroy _ = false

abbrev pub is_init : Operation → Bool
is_init (Operation.init _) = true
is_init _ = false

-- The arms of `match req.request.operation()`, in their order.
unfoldable pub begin_init : Libc → Session → Request → FuseInitIn → Session × Task
unfolding refuse reply
begin_init libc se req arg =
    if is_unsupported arg
    then (se, refuse libc req libc.eproto)
    else (record se { proto_major = arg.major; proto_minor = arg.minor }, in_init arg (reply req))

unfoldable pub begin_guarded : Libc → Session → Request → Operation → Session × Task
unfolding refuse reply
begin_guarded libc se req op =
    if not se.initialized
    then (se, refuse libc req libc.eio)
    else if is_destroy op
    then (se, in_destroy req)
    else if se.destroyed
    then (se, refuse libc req libc.eio)
    else (se, call libc req (Ll.Request.nodeid req.request) op)

unfoldable pub begin_operation : Libc → Session → Request → Operation → Session × Task
unfolding begin_init begin_guarded
begin_operation libc se req (Operation.init arg) = begin_init libc se req arg
begin_operation libc se req op = begin_guarded libc se req op

unfoldable pub begin : Libc → Session → Request → Session × Task
unfolding begin_operation
begin libc se req = begin_operation libc se req req.request.operation
