-- ===== src/Session/Tests.antt =====
-- The session loop, and a server that has answered one request, at concrete data.
mod Mounting
use async_fuse_rs.Prelude.{
  ℕ, ◌+◌, ◌<◌, ◌==◌, ◌≡◌, ◌≢◌, ◌↔◌, ◌⊎◌, refl, subst, true, false, none, some, List, [], ◌∷◌, ◌++◌,
  map, replicate,
}
use async_fuse_rs.Libc.{linux}
use async_fuse_rs.Ll.Operation.{Operation}
use async_fuse_rs.Channel.{ChannelSender}
use async_fuse_rs.Session.{Session}
use async_fuse_rs.Session
use async_fuse_rs.Session.Loop.{
  got, failed, spawn, quit, turn, turn_on_error, run, returned_ok, waits,
}
use async_fuse_rs.Session.Loop.Runs.{Runs, run_iff}
use mathlib.Core.List.{Perm}
use async_fuse_rs.Bytes.{Bytes, from_le_bytes}
use async_fuse_rs.Abi.Layout.{decode}
use async_fuse_rs.Abi.Opcode
use async_fuse_rs.Ll.Argument
use async_fuse_rs.Ll.Argument.{fetch, fetch_bytes}
use async_fuse_rs.Ll.Operation.{parse}
use async_fuse_rs.Ll.Request.{try_from}
use async_fuse_rs.Channel.{Message}
use async_fuse_rs.Channel.Mount
use async_fuse_rs.Channel.Mount.{System, Channel, io_ok, sys_umount, sys_fuse_unmount}
use async_fuse_rs.Request.Task
use async_fuse_rs.Session.Server.{
  Server, Reach, boot, accept, work, start, end, Accounted, spawned, boot_server,
}
use async_fuse_rs.Session.Server.Progress.{
  Steps, rest, more, steps_left, Steps-steps_left, AllServed, Reach-AllServed,
}
use async_fuse_rs.Session.Server.Protocol.{Conforms, view, Reach-Conforms}
use async_fuse_rs.Session.Buffer.{writes, run_buffer, run_buffer-run}
use async_fuse_rs.Session.Start.{
  BackgroundSession, session_new, spawn_mount, background_drop, background_drop_lem,
}
use async_fuse_rs.Session.Server.Account.{Reach-Accounted}
use async_fuse_rs.Session.Server.Flags.{AllStarted, Reach-flags}
use async_fuse_rs.Request.Task.{Request, ResultOf}
use async_fuse_rs.Request.Begin.{begin, begin_operation, begin_init, begin_guarded, refuse}
use async_fuse_rs.Request.Resume.{resume}

abbrev sender : ChannelSender
sender = record { fd = 5 }

-- An interrupted call, then the end of the mount.
run_iff_example :
    (run linux sender (failed (some 4) ∷ failed (some 19) ∷ got [] ∷ []) ≡ ([], returned_ok))
    ↔ Runs linux sender (failed (some 4) ∷ failed (some 19) ∷ got [] ∷ []) [] returned_ok
run_iff_example =
    run_iff linux sender (failed (some 4) ∷ failed (some 19) ∷ got [] ∷ []) [] returned_ok

abbrev init_request : Request
init_request = record {
  ch = sender;
  request = record {
    header = record {
      len = 56;
      opcode = 26;
      unique = 1;
      nodeid = 0;
      uid = 0;
      gid = 0;
      pid = 0;
      padding = 0;
    };
    operation = Operation.init (record { major = 7; minor = 31; max_readahead = 4096; flags = 1 });
  };
}

abbrev first : Session
first = Session.new

init_result : ResultOf (begin linux first init_request).1
unfolding begin begin_operation begin_init
init_result = none

-- The server after the dispatch of an init, whose method reports no error.
abbrev greeted : Server
greeted = record {
  session =
      (resume linux (begin linux first init_request).0 (begin linux first init_request).1
        init_result).0;
  waiting = [];
  running = [];
  sent =
      (resume linux (begin linux first init_request).0 (begin linux first init_request).1
        init_result).1.sent
      ++ [];
}

greeted-Reach : Reach linux (init_request ∷ []) greeted
greeted-Reach =
    work (end [] [] init_request (begin linux first init_request).1 init_result refl)
      (work (start [] [] init_request refl) (accept init_request boot))

Reach-Accounted_example : Accounted linux (init_request ∷ []) greeted
Reach-Accounted_example = Reach-Accounted linux (init_request ∷ []) greeted greeted-Reach

Reach-flags_example :
    (greeted.session.destroyed ≡ true → greeted.session.initialized ≡ true)
    × AllStarted greeted.session.initialized []
Reach-flags_example = Reach-flags linux (init_request ∷ []) greeted greeted-Reach

-- The server that has spawned the dispatch of the init.
abbrev begun : Server
begun = spawned init_request boot_server

begun-greeted : Steps linux 2 begun greeted
begun-greeted =
    more (start [] [] init_request refl)
      (more (end [] [] init_request (begin linux first init_request).1 init_result refl) rest)

Reach-AllServed_example :
    ((st' : Server) × Steps linux (steps_left begun) begun st')
    × ((st' : Server)
        → Steps linux (steps_left begun) begun st'
        → AllServed linux (init_request ∷ []) st')
Reach-AllServed_example = Reach-AllServed linux (init_request ∷ []) begun (accept init_request boot)

Reach-Conforms_example : Conforms linux (view greeted)
Reach-Conforms_example = Reach-Conforms linux (init_request ∷ []) greeted greeted-Reach

-- A long packet, then a short one, in a buffer of eight bytes.
run_buffer-run_example :
    run_buffer linux sender
      (record { memory = replicate 8 0; len = 0 })
      (writes (1 ∷ 2 ∷ 3 ∷ []) ∷ writes (4 ∷ []) ∷ [])
    ≡ run linux sender (got (1 ∷ 2 ∷ 3 ∷ []) ∷ got (4 ∷ []) ∷ [])
run_buffer-run_example =
    run_buffer-run linux sender (record { memory = replicate 8 0; len = 0 })
      (writes (1 ∷ 2 ∷ 3 ∷ []) ∷ writes (4 ∷ []) ∷ [])
