-- ===== src/Request/Tests.antt =====
-- Requests dispatched at concrete data.
use async_fuse_rs.Prelude.{◌≡◌, ◌↔◌, ◌⊎◌, refl, true, false, none, some, [], ◌∷◌}
use async_fuse_rs.Libc.{linux}
use async_fuse_rs.Session.{Session}
use async_fuse_rs.Ll.Operation.{Operation}
use async_fuse_rs.Reply.Kinds.{error}
use async_fuse_rs.Request.Task.{Request, ResultOf}
use async_fuse_rs.Request.Begin.{begin, begin_operation, begin_guarded, call}
use async_fuse_rs.FileAttr.{after_epoch}
use async_fuse_rs.Abi.Requests.{FuseSetattrIn}
use async_fuse_rs.Filesystem.{AttrChange}
use async_fuse_rs.Request.Begin.Arguments.{attr_change, if_valid, time_if_valid, time_of}
use async_fuse_rs.Request.Begin.Chosen.{
  HasBit, Overflows, IsChosen, attr_change-none_iff, attr_change-IsChosen,
}
use async_fuse_rs.Request.Resume.{resume}
use async_fuse_rs.Request.Guards.{Allowed, begin-Allowed}
use async_fuse_rs.Request.Once.{Ended, dispatch_once}

abbrev request : Operation → Request
request op = record {
  ch = record { fd = 5 };
  request = record {
    header = record {
      len = 56;
      opcode = 15;
      unique = 7;
      nodeid = 1;
      uid = 0;
      gid = 0;
      pid = 1;
      padding = 0;
    };
    operation = op;
  };
}

-- A session that is initialized.
abbrev serving : Session
serving = record { proto_major = 7; proto_minor = 8; initialized = true; destroyed = false }

abbrev lookup_request : Request
lookup_request = request (Operation.lookup (0x68 ∷ 0x69 ∷ []))

not_found : ResultOf (begin linux serving lookup_request).1
unfolding begin begin_operation begin_guarded call
not_found = error 2

-- The lookup fails with ENOENT while another task destroys the session.
dispatch_once_example :
    Ended lookup_request ⊥
      (resume linux
        (record serving { destroyed = true })
        (begin linux serving lookup_request).1
        not_found).1
dispatch_once_example =
    dispatch_once linux serving (record serving { destroyed = true }) lookup_request not_found

begin-Allowed_example : Allowed true false (begin linux serving lookup_request).1
begin-Allowed_example = begin-Allowed linux serving lookup_request

-- A setattr of the mode and of a modification time.
abbrev chmod : FuseSetattrIn
chmod = record {
  valid = 33;
  padding = 0;
  fh = 0;
  size = 0;
  unused1 = 0;
  atime = 0;
  mtime = 86_400;
  unused2 = 0;
  atimensec = 0;
  mtimensec = 2_000_000_001;
  unused3 = 0;
  mode = 0o600;
  unused4 = 0;
  uid = 0;
  gid = 0;
  unused5 = 0;
}

abbrev chmod_change : AttrChange
chmod_change = record {
  mode = some 0o600;
  uid = none;
  gid = none;
  size = none;
  atime = none;
  mtime = some (after_epoch (record { secs = 86_402; nanos = 1 }));
  fh = none;
  crtime = none;
  chgtime = none;
  bkuptime = none;
  flags = none;
}

chmod_run : attr_change linux chmod ≡ some chmod_change
unfolding attr_change if_valid time_if_valid time_of
chmod_run = refl

attr_change-IsChosen_example : IsChosen chmod chmod_change
attr_change-IsChosen_example = attr_change-IsChosen linux chmod chmod_change chmod_run

attr_change-none_iff_example : (attr_change linux chmod ≡ none) ↔ (
    (HasBit chmod.valid 4 × Overflows linux chmod.atime chmod.atimensec)
    ⊎ (HasBit chmod.valid 5 × Overflows linux chmod.mtime chmod.mtimensec))
attr_change-none_iff_example = attr_change-none_iff linux chmod
