-- ===== src/Request/Macos/Tests.antt =====
-- Packets of macOS at concrete data: a getxtimes whose method answers with a time before the epoch, and a
-- setattr of the flags.
use async_fuse_rs.Prelude.{true, false, ◌≡◌, refl, none, some}
use async_fuse_rs.Libc.{linux}
use async_fuse_rs.FileAttr.{after_epoch, before_epoch}
use async_fuse_rs.Session.{Session}
use async_fuse_rs.Abi.MacosRequests.{MacosSetattrIn}
use async_fuse_rs.Ll.MacosOperation.{MacosOperation, get_x_times}
use async_fuse_rs.Request.Begin.Arguments.{if_valid, time_if_valid, time_of}
use async_fuse_rs.Request.Macos.{
  MacosPacket, MacosResultOf, times, get_macos_setattr, macos_attr_change, macos_call,
  macos_begin_guarded, macos_begin_operation, macos_begin, macos_resume,
}
use async_fuse_rs.Filesystem.{AttrChange}
use async_fuse_rs.Request.Macos.Chosen.{macos_chosen, macos_attr_change-macos_chosen}
use async_fuse_rs.Request.Macos.Once.{IsEnded, macos_dispatch_once}

abbrev packet : MacosOperation → MacosPacket
packet op = record {
  ch = record { fd = 5 };
  request = record {
    header = record {
      len = 40;
      opcode = 62;
      unique = 7;
      nodeid = 1;
      uid = 0;
      gid = 0;
      pid = 1;
      padding = 0;
    };
    operation = op;
  };
}

abbrev serving : Session
serving = record { proto_major = 7; proto_minor = 8; initialized = true; destroyed = false }

old_backup : MacosResultOf (macos_begin linux serving (packet get_x_times)).1
unfolding macos_begin macos_begin_operation macos_begin_guarded macos_call
old_backup =
    times (before_epoch (record { secs = 3; nanos = 0 }))
      (after_epoch (record { secs = 0; nanos = 0 }))

macos_dispatch_once_example :
    IsEnded
      (packet get_x_times)
      ⊥
      (macos_resume linux serving (macos_begin linux serving (packet get_x_times)).1 old_backup).1
macos_dispatch_once_example =
    macos_dispatch_once linux serving serving (packet get_x_times) old_backup

abbrev set_flags : MacosSetattrIn
set_flags = record {
  valid = 0x80000000;
  padding = 0;
  fh = 0;
  size = 0;
  unused1 = 0;
  atime = 0;
  mtime = 0;
  unused2 = 0;
  atimensec = 0;
  mtimensec = 0;
  unused3 = 0;
  mode = 0;
  unused4 = 0;
  uid = 0;
  gid = 0;
  unused5 = 0;
  bkuptime = 9;
  chgtime = 9;
  crtime = 9;
  bkuptimensec = 0;
  chgtimensec = 0;
  crtimensec = 0;
  flags = 32;
}

-- Only the flags are to be changed.
abbrev flags_change : AttrChange
flags_change = record {
  mode = none;
  uid = none;
  gid = none;
  size = none;
  atime = none;
  mtime = none;
  fh = none;
  crtime = none;
  chgtime = none;
  bkuptime = none;
  flags = some 32;
}

only_flags : macos_attr_change linux set_flags ≡ some flags_change
unfolding macos_attr_change get_macos_setattr if_valid time_if_valid time_of
only_flags = refl

macos_attr_change-macos_chosen_example : flags_change ≡ macos_chosen set_flags
macos_attr_change-macos_chosen_example =
    macos_attr_change-macos_chosen linux set_flags flags_change only_flags
