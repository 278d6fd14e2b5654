-- ===== src/Session/Tests/Mounting.antt =====
-- A session from its mount to its end, at concrete data.
use async_fuse_rs.Prelude.{◌⊎◌, ℕ, ◌==◌, ◌≡◌, refl, true, false, none, some, [], ◌∷◌, replicate}
use async_fuse_rs.Libc.{linux}
use async_fuse_rs.Ll.Operation.{Operation}
use async_fuse_rs.Session.Loop.{returned_ok}
use async_fuse_rs.Bytes.{Bytes}
use async_fuse_rs.Abi.Opcode
use async_fuse_rs.Ll.Argument
use async_fuse_rs.Channel.Mount
use async_fuse_rs.Channel.Mount.{System, Channel, io_ok, sys_umount, sys_fuse_unmount}
use async_fuse_rs.Request.Task
use async_fuse_rs.Session.Start.{
  BackgroundSession, session_new, spawn_mount, background_drop, background_drop_lem,
}
use async_fuse_rs.Session.Life.{
  World, mounted, after_spawn, after_return, after_start, after_end, Life, mount,
}
use async_fuse_rs.Request.Task.{Request, ResultOf}
use async_fuse_rs.Request.Begin.{begin, begin_operation, begin_guarded, refuse}
use async_fuse_rs.Session.Tests.{sender, first}

-- A system with a mount at "/mnt" that root may end.
abbrev mnt : Bytes
mnt = 0x2f ∷ 0x6d ∷ 0x6e ∷ 0x74 ∷ []

abbrev privileged : System
privileged = record {
  canonicalize = λ path. io_ok path;
  fuse_mount = λ path args. 5;
  mount_error = λ path args. 0;
  umount = λ path. none;
  is_denied = λ e. e == 1;
}

abbrev handle : BackgroundSession
handle = record { mountpoint = mnt }

handle_made : spawn_mount privileged mnt [] ≡ some (io_ok handle)
unfolding spawn_mount session_new Mount.new Mount.mount Mount.fuse_args
handle_made = refl

background_drop_lem_example :
    (privileged.canonicalize mnt ≡ io_ok mnt)
    × (((background_drop privileged handle ≡ sys_umount mnt ∷ [])
          × ((e : ℕ) → privileged.umount mnt ≡ some e → privileged.is_denied e ≡ false))
        ⊎ ((background_drop privileged handle ≡ sys_umount mnt ∷ sys_fuse_unmount mnt ∷ [])
            × ((e : ℕ) × ((privileged.umount mnt ≡ some e) × (privileged.is_denied e ≡ true)))))
background_drop_lem_example = background_drop_lem privileged mnt [] handle handle_made

-- The packet of a getattr, its request, and a session that receives it, finds itself unmounted, and only
-- then serves it.
abbrev getattr_packet : Bytes
getattr_packet = 40 ∷ 0 ∷ 0 ∷ 0 ∷ 3 ∷ 0 ∷ 0 ∷ 0 ∷ 7 ∷ 0 ∷ 0 ∷ 0 ∷ 0 ∷ 0 ∷ 0 ∷ 0 ∷ 1 ∷ replicate 23 0

abbrev getattr_request : Request
getattr_request = record {
  ch = sender;
  request = record {
    header = record {
      len = 40;
      opcode = 3;
      unique = 7;
      nodeid = 1;
      uid = 0;
      gid = 0;
      pid = 0;
      padding = 0;
    };
    operation = Operation.get_attr;
  };
}

abbrev channel : Channel
channel = record { mountpoint = mnt; fd = 5 }

refused_result : ResultOf (begin linux first getattr_request).1
unfolding begin begin_operation begin_guarded refuse
refused_result = tt

abbrev stopped : World
stopped = after_return privileged channel returned_ok (after_spawn getattr_request mounted)

abbrev over : World
over =
    after_end linux privileged channel [] [] [] [] (begin linux first getattr_request).1
      refused_result
      (after_start linux [] [] getattr_request
        (record (after_spawn getattr_request mounted) { looping = returned_ok; refs = 1 }))
