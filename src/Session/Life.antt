-- ===== src/Session/Life.antt =====
-- The life of a mounted session (src/session.rs, src/channel.rs, src/reply.rs): `run` and each of its tasks
-- hold one reference to the session, and the last that is dropped ends the channel. A method may give its
-- reply object away, for use after the dispatch is over, since the object has only the number of the file
-- descriptor; and a background session may unmount while the loop runs.
pub mod Order
pub mod Ending
use async_fuse_rs.Prelude.{
  ℕ, suc, ◌-◌, ◌==◌, ◌≡◌, if◌then◌else◌, Bool, true, false, Option, List, [], ◌∷◌, ◌++◌, map,
  length,
}
use async_fuse_rs.Libc.{Libc}
use async_fuse_rs.Channel.{ChannelSender, Message}
use async_fuse_rs.Channel.Mount
use async_fuse_rs.Channel.Mount.{System, SysCall, Channel}
use async_fuse_rs.Request.Task.{Request, Task, in_call, in_readdir, ResultOf}
use async_fuse_rs.Session.Loop.{
  Received, turn, spawn, again, quit, give_up, Verdict, waits, returned_ok, returned_err,
}
use async_fuse_rs.Session.Server.{Server, boot_server, spawned, started, ended, outcome}
use async_fuse_rs.Session.Start.{BackgroundSession, background_drop}

-- What the process does to the system: a call of writev with a message, which fails once the channel is
-- closed; a call that ends the channel; or one that a background session makes.
pub data Event : Type 0 where
  wrote : Message → Event
  called : SysCall → Event
  let_go : SysCall → Event

-- `Channel::sender`.
abbrev pub sender : Channel → ChannelSender
sender ch = record { fd = ch.fd }

-- How the loop stands, the references to the session, the requests with the replies that are missing, for each
-- of those under way whether its dispatch is over, and what has happened, in order.
pub record World : Type 0 where
  pub looping : Verdict
  pub refs : ℕ
  pub server : Server
  pub over : List Bool
  pub events : List Event

-- One `Arc` is dropped; with the last the session goes, and its channel.
unfoldable pub release : System → Channel → World → World
release sys ch w =
    if w.refs == 1
    then record w { refs = 0; events = w.events ++ map called (Mount.drop sys ch) }
    else record w { refs = w.refs - 1 }

-- `Session::run` when it begins.
abbrev pub mounted : World
mounted = record { looping = waits; refs = 1; server = boot_server; over = []; events = [] }

abbrev pub after_spawn : Request → World → World
after_spawn req w = record w { refs = suc w.refs; server = spawned req w.server }

abbrev pub after_return : System → Channel → Verdict → World → World
after_return sys ch v w = release sys ch (record w { looping = v })

abbrev pub after_start : Libc → List Request → List Request → Request → World → World
after_start libc xs ys req w = record w {
  server = started libc w.server xs ys req;
  over = false ∷ w.over;
}

-- The reply of a request under way is used.
abbrev pub after_answer :
    Libc
    → List (Request × Task)
    → List (Request × Task)
    → List Bool
    → List Bool
    → (t : Task) → ResultOf t
    → World
    → World
after_answer libc xs ys ds bs t result w = record w {
  server = ended libc w.server xs ys t result;
  over = ds ++ bs;
  events = w.events ++ map wrote (outcome libc w.server t result).sent;
}

-- The same at the end of its dispatch, which drops its reference.
abbrev pub after_end :
    Libc
    → System
    → Channel
    → List (Request × Task)
    → List (Request × Task)
    → List Bool
    → List Bool
    → (t : Task) → ResultOf t
    → World
    → World
after_end libc sys ch xs ys ds bs t result w =
    release sys ch (after_answer libc xs ys ds bs t result w)

-- A dispatch is over, but its reply object lives on.
abbrev pub after_leave : System → Channel → List Bool → List Bool → World → World
after_leave sys ch ds bs w = release sys ch (record w { over = ds ++ true ∷ bs })

abbrev pub after_let_go : System → BackgroundSession → World → World
after_let_go sys bg w = record w { events = w.events ++ map let_go (background_drop sys bg) }

-- The methods that are given a reply object.
abbrev pub HasReply : Task → Type 0
HasReply (in_call _ _) = Unit
HasReply (in_readdir _ _ _ _) = Unit
HasReply _ = ⊥

-- A request under way at some place, and at the same place whether its dispatch is over.
pub record IsAt (w : World) (xs ys : List (Request × Task)) (ds bs : List Bool) (req : Request)
    (t : Task) (b : Bool) : Type 0 where
  pub task : w.server.running ≡ xs ++ (req, t) ∷ ys
  pub mark : w.over ≡ ds ++ b ∷ bs
  pub same_place : length ds ≡ length xs

-- What can happen next but a new request.
pub data Tick (libc : Libc) (sys : System) (ch : Channel) (w : World) : World → Type 0 where
  retries :
      (r : Received) → w.looping ≡ waits → turn libc (sender ch) r ≡ again → Tick libc sys ch w w
  quits :
      (r : Received)
      → w.looping ≡ waits
      → turn libc (sender ch) r ≡ quit
      → Tick libc sys ch w (after_return sys ch returned_ok w)
  gives_up :
      (r : Received) (e : Option ℕ)
      → w.looping ≡ waits
      → turn libc (sender ch) r ≡ give_up e
      → Tick libc sys ch w (after_return sys ch (returned_err e) w)
  starts :
      (xs ys : List Request) (req : Request)
      → w.server.waiting ≡ xs ++ req ∷ ys
      → Tick libc sys ch w (after_start libc xs ys req w)
  ends :
      (xs ys : List (Request × Task)) (ds bs : List Bool) (req : Request) (t : Task)
      → (result : ResultOf t) → IsAt w xs ys ds bs req t false
      → Tick libc sys ch w (after_end libc sys ch xs ys ds bs t result w)
  leaves :
      (xs ys : List (Request × Task)) (ds bs : List Bool) (req : Request) (t : Task)
      → HasReply t
      → IsAt w xs ys ds bs req t false
      → Tick libc sys ch w (after_leave sys ch ds bs w)
  answers :
      (xs ys : List (Request × Task)) (ds bs : List Bool) (req : Request) (t : Task)
      → (result : ResultOf t) → IsAt w xs ys ds bs req t true
      → Tick libc sys ch w (after_answer libc xs ys ds bs t result w)
  lets_go : (bg : BackgroundSession) → Tick libc sys ch w (after_let_go sys bg w)

-- The worlds that can come about when these requests were spawned, the latest first.
pub data Life (libc : Libc) (sys : System) (ch : Channel) : List Request → World → Type 0 where
  mount : Life libc sys ch [] mounted
  spawns :
      {reqs : List Request} {w : World} (r : Received) (req : Request)
      → w.looping ≡ waits
      → turn libc (sender ch) r ≡ spawn req
      → Life libc sys ch reqs w
      → Life libc sys ch (req ∷ reqs) (after_spawn req w)
  goes :
      {reqs : List Request} {w w' : World}
      → Tick libc sys ch w w'
      → Life libc sys ch reqs w
      → Life libc sys ch reqs w'
