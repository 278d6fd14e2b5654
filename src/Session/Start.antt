-- ===== src/Session/Start.antt =====
-- Mounting a session, in the foreground or in the background (`mount`, `spawn_mount` of src/lib.rs,
-- `BackgroundSession` of src/session.rs).
use async_fuse_rs.Prelude.{ℕ, ◌≡◌, arith, ◌⊎◌, true, false, Option, none, some, List, [], ◌∷◌}
use async_fuse_rs.Bytes.{Bytes}
use async_fuse_rs.Libc.{Libc}
use async_fuse_rs.Channel.Mount
use async_fuse_rs.Channel.Mount.{
  System, SysCall, sys_umount, sys_fuse_unmount, IoError, os_error, nul, IoResult, io_ok, io_err,
  Channel, unmount, libc_umount, has_nul,
}
use async_fuse_rs.Channel.Mount.Laws.{new_lem}
use async_fuse_rs.Request.Task.{Request}
use async_fuse_rs.Session
use async_fuse_rs.Session.{Session}
use async_fuse_rs.Session.Loop.{Received, Verdict, run}

-- A session with its channel; the filesystem is a parameter of the tasks.
abbrev pub Mounted : Type 0
Mounted = Channel × Session

-- The two methods `mountpoint`.
abbrev channel_mountpoint : Channel → Bytes
channel_mountpoint ch = ch.mountpoint

abbrev session_mountpoint : Mounted → Bytes
session_mountpoint (ch, se) = channel_mountpoint ch

-- `Session::new`; `none` is a panic, as below.
unfoldable pub session_new : System → Bytes → List Bytes → Option (IoResult Mounted)
unfolding Mount.new
session_new sys mountpoint options = elim (Mount.new sys mountpoint options) [
  | none ↦ none
  | some (io_err e) ↦ some (io_err e)
  | some (io_ok ch) ↦ some (io_ok (ch, Session.new))
]

-- `mount`, while the results of `receive` come in.
unfoldable pub mount :
    System → Libc → Bytes → List Bytes → List Received → Option (IoResult (List Request × Verdict))
unfolding session_new run
mount sys libc mountpoint options reads = elim (session_new sys mountpoint options) [
  | none ↦ none
  | some (io_err e) ↦ some (io_err e)
  | some (io_ok (ch, se)) ↦ some (io_ok (run libc (record { fd = ch.fd }) reads))
]

-- The handle of a session whose loop runs in a task of its own.
pub record BackgroundSession : Type 0 where
  pub mountpoint : Bytes

-- `BackgroundSession::new`.
abbrev pub background : Mounted → BackgroundSession
background se = record { mountpoint = session_mountpoint se }

-- `spawn_mount`.
unfoldable pub spawn_mount : System → Bytes → List Bytes → Option (IoResult BackgroundSession)
unfolding session_new
spawn_mount sys mountpoint options = elim (session_new sys mountpoint options) [
  | none ↦ none
  | some (io_err e) ↦ some (io_err e)
  | some (io_ok se) ↦ some (io_ok (background se))
]

-- `drop` of the handle: a failure is only logged.
unfoldable pub background_drop : System → BackgroundSession → List SysCall
unfolding unmount
background_drop sys bg = (unmount sys bg.mountpoint).0

spawned_channel :
    (sys : System) (mountpoint : Bytes) (options : List Bytes) (bg : BackgroundSession)
    → spawn_mount sys mountpoint options ≡ some (io_ok bg)
    → (ch : Channel) × ((Mount.new sys mountpoint options ≡ some (io_ok ch))
        × (bg.mountpoint ≡ ch.mountpoint))
unfolding spawn_mount session_new
spawned_channel sys mountpoint options bg e = ground arith

-- A handle that was made is for the path that its session is mounted on, and dropping it unmounts that
-- path, with the help of libfuse exactly if the system denies it.
pub background_drop_lem :
    (sys : System) (mountpoint : Bytes) (options : List Bytes) (bg : BackgroundSession)
    → spawn_mount sys mountpoint options ≡ some (io_ok bg)
    → (sys.canonicalize mountpoint ≡ io_ok bg.mountpoint)
      × (((background_drop sys bg ≡ sys_umount bg.mountpoint ∷ [])
            × ((e : ℕ) → sys.umount bg.mountpoint ≡ some e → sys.is_denied e ≡ false))
          ⊎ ((background_drop sys bg
                ≡ sys_umount bg.mountpoint ∷ sys_fuse_unmount bg.mountpoint ∷ [])
              × ((e : ℕ) × ((sys.umount bg.mountpoint ≡ some e) × (sys.is_denied e ≡ true)))))
unfolding background_drop unmount libc_umount
background_drop_lem sys mountpoint options bg e =
    let (ch, (made, same)) = spawned_channel sys mountpoint options bg e in
    let (path, clean, _, _, _) = new_lem sys mountpoint options ch made in
    ground (arith, path, clean, same)
