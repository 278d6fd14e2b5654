-- ===== src/Request/Macos.antt =====
-- `dispatch` of src/request.rs on macOS: a setattr may change four attributes more, a setxattr has a position,
-- and there are three methods more.
pub mod Once
pub mod Chosen
mod Tests
use async_fuse_rs.Prelude.{
  ℕ, ◌==◌, ◌^◌, if◌then◌else◌, not, true, Option, none, some, ◌>>=◌, length, bit_or, bit_and,
}
use async_fuse_rs.Bytes.{Bytes}
use async_fuse_rs.Libc.{Libc}
use async_fuse_rs.FileAttr.{SystemTime}
use async_fuse_rs.Channel.{ChannelSender}
use async_fuse_rs.Session.{Session}
use async_fuse_rs.Abi.Consts.{
  fattr_mode, fattr_uid, fattr_gid, fattr_size, fattr_atime, fattr_mtime, fattr_fh, fuse_async_read,
}
use async_fuse_rs.Abi.MacosRequests.{MacosSetattrIn, MacosSetxattrIn}
use async_fuse_rs.Abi.FileRequests.{FuseInitIn}
use async_fuse_rs.Abi.Replies.{FuseInitOut, init_out_repr}
use async_fuse_rs.Ll
use async_fuse_rs.Ll.Operation.{Operation}
use async_fuse_rs.Ll.MacosOperation.{
  MacosOperation, shared, set_attr, set_x_attr, get_x_attr, list_x_attr, set_vol_name, get_x_times,
  exchange_files,
}
use async_fuse_rs.Ll.MacosRequest.{MacosRequest}
use async_fuse_rs.Reply.Raw
use async_fuse_rs.Reply.Raw.{ReplyRaw, Outcome, forsake, unwind}
use async_fuse_rs.Reply.Kinds.{
  Kind, Answer, entry, attr, created, Use, answer, dropped, panics, run_answer, run_error,
  empty_kind, error,
}
use async_fuse_rs.Reply.Macos.{
  ReplyXTimes, xtimes_xtimes, xtimes_error, macos_entry_entry, macos_attr_attr,
  macos_create_created,
}
use async_fuse_rs.Filesystem.{Call, AttrChange}
use async_fuse_rs.Request.Task.{Request, Task, in_init, in_call, finished, ResultOf}
use async_fuse_rs.Request.Begin.{begin_operation, panic}
use async_fuse_rs.Request.Begin.Arguments.{if_valid, time_if_valid}
use async_fuse_rs.Request.Resume.{init_out, resume}

abbrev pub fattr_crtime : ℕ
fattr_crtime = 2 ^ 28

abbrev pub fattr_chgtime : ℕ
fattr_chgtime = 2 ^ 29

abbrev pub fattr_bkuptime : ℕ
fattr_bkuptime = 2 ^ 30

abbrev pub fattr_flags : ℕ
fattr_flags = 2 ^ 31

-- `get_macos_setattr`; `none` is a panic.
unfoldable pub get_macos_setattr :
    Libc
    → MacosSetattrIn
    → Option (Option SystemTime × Option SystemTime × Option SystemTime × Option ℕ)
unfolding if_valid time_if_valid
get_macos_setattr libc arg = do
  crtime ← time_if_valid libc arg.valid fattr_crtime arg.crtime arg.crtimensec
  chgtime ← time_if_valid libc arg.valid fattr_chgtime arg.chgtime arg.chgtimensec
  bkuptime ← time_if_valid libc arg.valid fattr_bkuptime arg.bkuptime arg.bkuptimensec
  some (crtime, chgtime, bkuptime, if_valid arg.valid fattr_flags arg.flags)

-- The arguments of `setattr`.
unfoldable pub macos_attr_change : Libc → MacosSetattrIn → Option AttrChange
unfolding if_valid time_if_valid get_macos_setattr
macos_attr_change libc arg = do
  atime ← time_if_valid libc arg.valid fattr_atime arg.atime arg.atimensec
  mtime ← time_if_valid libc arg.valid fattr_mtime arg.mtime arg.mtimensec
  (crtime, chgtime, bkuptime, flags) ← get_macos_setattr libc arg
  some (record {
    mode = if_valid arg.valid fattr_mode arg.mode;
    uid = if_valid arg.valid fattr_uid arg.uid;
    gid = if_valid arg.valid fattr_gid arg.gid;
    size = if_valid arg.valid fattr_size arg.size;
    atime = atime;
    mtime = mtime;
    fh = if_valid arg.valid fattr_fh arg.fh;
    crtime = crtime;
    chgtime = chgtime;
    bkuptime = bkuptime;
    flags = flags;
  })

pub record MacosPacket : Type 0 where
  pub ch : ChannelSender
  pub request : MacosRequest

-- The packet with an operation of all systems.
abbrev pub with_operation : MacosPacket → Operation → Request
with_operation p op = record {
  ch = p.ch;
  request = record { header = p.request.header; operation = op };
}

unfoldable pub macos_reply : MacosPacket → ReplyRaw
unfolding Raw.new
macos_reply p = Raw.new p.request.header.unique p.ch

-- The methods of macOS with an empty reply.
pub data MacosCall : Type 0 where
  setvolname : Bytes → MacosCall
  exchange : ℕ → Bytes → ℕ → Bytes → ℕ → MacosCall

-- What `getxtimes` does with its reply object.
pub data XtimesUse : Type 0 where
  times : SystemTime → SystemTime → XtimesUse
  xtimes_failed : ℕ → XtimesUse
  xtimes_dropped : XtimesUse

-- A dispatch that waits for a method, of all systems or of macOS.
pub data MacosTask : Type 0 where
  ordinary : Task → MacosTask
  in_empty : ReplyRaw → MacosCall → MacosTask
  in_getxtimes : ReplyXTimes → ℕ → MacosTask

abbrev pub MacosResultOf : MacosTask → Type 0
MacosResultOf (ordinary t) = ResultOf t
MacosResultOf (in_empty _ _) = Use empty_kind
MacosResultOf (in_getxtimes _ _) = XtimesUse

abbrev pub macos_setattr : Libc → MacosPacket → MacosSetattrIn → Task
macos_setattr libc p arg = elim (macos_attr_change libc arg) [
  | none ↦ panic
  | some change ↦ in_call (macos_reply p) (Call.setattr p.request.header.nodeid change)
]

abbrev pub macos_setxattr : MacosPacket → MacosSetxattrIn → Bytes → Bytes → Task
macos_setxattr p arg name value =
    if length value == arg.size
    then in_call (macos_reply p)
        (Call.setxattr p.request.header.nodeid name value arg.flags arg.position)
    else panic

-- The arms behind the guards for the operations that are not those of all systems.
unfoldable pub macos_call : Libc → MacosPacket → MacosOperation → MacosTask
macos_call libc p (set_attr arg) = ordinary (macos_setattr libc p arg)
macos_call libc p (set_x_attr arg name value) = ordinary (macos_setxattr p arg name value)
macos_call libc p (get_x_attr arg name) =
    ordinary (in_call (macos_reply p) (Call.getxattr p.request.header.nodeid name arg.size))
macos_call libc p (list_x_attr arg) =
    ordinary (in_call (macos_reply p) (Call.listxattr p.request.header.nodeid arg.size))
macos_call libc p (set_vol_name name) = in_empty (macos_reply p) (setvolname name)
macos_call libc p get_x_times =
    in_getxtimes (record { reply = macos_reply p }) p.request.header.nodeid
macos_call libc p (exchange_files arg oldname newname) =
    in_empty (macos_reply p) (exchange arg.olddir oldname arg.newdir newname arg.options)
macos_call libc p (shared op) = ordinary panic

-- The same guards: none of these operations is init or destroy.
unfoldable pub macos_begin_guarded : Libc → Session → MacosPacket → MacosOperation → MacosTask
unfolding macos_call Raw.error
macos_begin_guarded libc se p op =
    if not se.initialized
    then ordinary (finished (Raw.error libc (macos_reply p) libc.eio))
    else if se.destroyed
    then ordinary (finished (Raw.error libc (macos_reply p) libc.eio))
    else macos_call libc p op

unfoldable pub macos_begin_operation :
    Libc → Session → MacosPacket → MacosOperation → Session × MacosTask
unfolding begin_operation macos_begin_guarded
macos_begin_operation libc se p (shared op) =
    let (se', t) = begin_operation libc se (with_operation p op) op in (se', ordinary t)
macos_begin_operation libc se p op = (se, macos_begin_guarded libc se p op)

unfoldable pub macos_begin : Libc → Session → MacosPacket → Session × MacosTask
unfolding macos_begin_operation
macos_begin libc se p = macos_begin_operation libc se p p.request.operation

-- `INIT_FLAGS`: asynchronous reads, and three flags of macOS.
abbrev pub macos_init_flags : ℕ
macos_init_flags = bit_or (bit_or (bit_or fuse_async_read (2 ^ 29)) (2 ^ 30)) (2 ^ 31)

unfoldable pub macos_init_out : FuseInitIn → FuseInitOut
unfolding init_out
macos_init_out arg = record (init_out arg) { flags = bit_and arg.flags macos_init_flags }

unfoldable pub macos_resume_init :
    Libc → Session → FuseInitIn → ReplyRaw → Option ℕ → Session × Outcome
unfolding Raw.error Raw.ok macos_init_out
macos_resume_init libc se arg r (some err) = (se, Raw.error libc r err)
macos_resume_init libc se arg r none =
    (record se { initialized = true }, Raw.ok libc init_out_repr r (macos_init_out arg))

-- A method of each reply type, where the attributes are those of macOS.
unfoldable pub macos_run_answer : {k : Kind} → Libc → ReplyRaw → Answer k → Outcome
unfolding run_answer macos_entry_entry macos_attr_attr macos_create_created
macos_run_answer libc r (entry ttl a generation) =
    macos_entry_entry libc (record { reply = r }) ttl a generation
macos_run_answer libc r (attr ttl a) = macos_attr_attr libc (record { reply = r }) ttl a
macos_run_answer libc r (created ttl a generation fh flags) =
    macos_create_created libc (record { reply = r }) ttl a generation fh flags
macos_run_answer libc r a = run_answer libc r a

unfoldable pub macos_run_use : {k : Kind} → Libc → ReplyRaw → Use k → Outcome
unfolding macos_run_answer run_error forsake unwind
macos_run_use libc r (answer a) = macos_run_answer libc r a
macos_run_use {k} libc r (error err) = run_error k libc r err
macos_run_use libc r dropped = forsake libc r
macos_run_use libc r panics = unwind libc r

unfoldable pub resume_ordinary : Libc → Session → (t : Task) → ResultOf t → Session × Outcome
unfolding macos_resume_init macos_run_use resume
resume_ordinary libc se (in_init arg r) result = macos_resume_init libc se arg r result
resume_ordinary libc se (in_call r c) use_ = (se, macos_run_use libc r use_)
resume_ordinary libc se t result = resume libc se t result

unfoldable pub run_xtimes : Libc → ReplyXTimes → XtimesUse → Outcome
unfolding xtimes_xtimes Raw.error forsake
run_xtimes libc r (times bkuptime crtime) = xtimes_xtimes libc r bkuptime crtime
run_xtimes libc r (xtimes_failed err) = xtimes_error libc r err
run_xtimes libc r xtimes_dropped = forsake libc r.reply

unfoldable pub macos_resume : Libc → Session → (t : MacosTask) → MacosResultOf t → Session × Outcome
unfolding resume_ordinary macos_run_use run_xtimes
macos_resume libc se (ordinary t) result = resume_ordinary libc se t result
macos_resume libc se (in_empty r c) use_ = (se, macos_run_use libc r use_)
macos_resume libc se (in_getxtimes r ino) use_ = (se, run_xtimes libc r use_)

-- The default methods.
unfoldable pub default_macos_use : Libc → MacosCall → Use empty_kind
default_macos_use libc (setvolname name) = error libc.enosys
default_macos_use libc (exchange parent name newparent newname options) = error libc.enosys

unfoldable pub default_getxtimes : Libc → ℕ → XtimesUse
default_getxtimes libc ino = xtimes_failed libc.enosys
