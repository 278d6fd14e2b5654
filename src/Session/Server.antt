-- ===== src/Session/Server.antt =====
-- The session loop and its tasks together (src/session.rs, src/request.rs): each step is one turn of the
-- loop that spawns a dispatch, or one half of a dispatch, in any order.
pub mod Account
pub mod Progress
pub mod Protocol
pub mod Flags
use mathlib.Core.List.{Perm}
use async_fuse_rs.Prelude.{ℕ, ◌≡◌, refl, sym, ap, ◌∙◌, List, [], ◌∷◌, ◌++◌, map, All, append_assoc}
use async_fuse_rs.Libc.{Libc}
use async_fuse_rs.Channel.{Message}
use async_fuse_rs.Session
use async_fuse_rs.Session.{Session}
use async_fuse_rs.Reply.Raw.{Outcome}
use async_fuse_rs.Request.Task.{Request, Task, ResultOf}
use async_fuse_rs.Request.Begin.{begin}
use async_fuse_rs.Request.Resume.{resume}
use async_fuse_rs.Request.Once.{IsSilent, Owes, Ended, operation-Owes, resume-Ended}

-- The flags, the dispatches that have not begun, those under way, and the messages that went out, the
-- latest first.
pub record Server : Type 0 where
  pub session : Session
  pub waiting : List Request
  pub running : List (Request × Task)
  pub sent : List Message

-- The first half of the dispatch of a request that waits.
abbrev pub started : Libc → Server → List Request → List Request → Request → Server
started libc st xs ys req = record st {
  session = (begin libc st.session req).0;
  waiting = xs ++ ys;
  running = (req, (begin libc st.session req).1) ∷ st.running;
}

-- What the second half comes to, when the method that a dispatch waits for has this result.
abbrev pub outcome : Libc → Server → (t : Task) → ResultOf t → Outcome
outcome libc st t result = (resume libc st.session t result).1

abbrev pub ended :
    Libc → Server → List (Request × Task) → List (Request × Task) → (t : Task) → ResultOf t → Server
ended libc st xs ys t result = record st {
  session = (resume libc st.session t result).0;
  running = xs ++ ys;
  sent = (outcome libc st t result).sent ++ st.sent;
}

pub data Step (libc : Libc) (st : Server) : Server → Type 0 where
  start :
      (xs ys : List Request) (req : Request)
      → st.waiting ≡ xs ++ req ∷ ys
      → Step libc st (started libc st xs ys req)
  end :
      (xs ys : List (Request × Task)) (req : Request) (t : Task)
      → (result : ResultOf t) → st.running ≡ xs ++ (req, t) ∷ ys
      → Step libc st (ended libc st xs ys t result)

abbrev pub boot_server : Server
boot_server = record { session = Session.new; waiting = []; running = []; sent = [] }

abbrev pub spawned : Request → Server → Server
spawned req st = record st { waiting = req ∷ st.waiting }

-- The states that a server can be in when the loop has spawned dispatches for these requests, the latest
-- first.
pub data Reach (libc : Libc) : List Request → Server → Type 0 where
  boot : Reach libc [] boot_server
  accept :
      {reqs : List Request} {st : Server} (req : Request)
      → Reach libc reqs st
      → Reach libc (req ∷ reqs) (spawned req st)
  work :
      {reqs : List Request} {st st' : Server}
      → Step libc st st'
      → Reach libc reqs st
      → Reach libc reqs st'

-- The messages of some outcomes, in order.
abbrev pub all_sent : List (Request × Outcome) → List Message
all_sent [] = []
all_sent ((req, o) ∷ ds) = o.sent ++ all_sent ds

abbrev pub requests : {A : Type 0} → List (Request × A) → List Request
requests [] = []
requests ((req, _) ∷ rs) = req ∷ requests rs

abbrev pub IsOver : Libc → Request × Outcome → Type 0
IsOver libc (req, o) = Ended req (IsSilent libc req.request.operation) o

abbrev pub IsRunning : Libc → Request × Task → Type 0
IsRunning libc (req, t) = Owes req (IsSilent libc req.request.operation) t

-- Each request that was spawned waits, is under way or is over; what is over has ended with one message
-- or was silent, what is under way still owes its message; and nothing else was sent.
pub record Accounted (libc : Libc) (reqs : List Request) (st : Server) : Type 0 where
  pub done : List (Request × Outcome)
  pub parts : Perm reqs (st.waiting ++ (requests st.running ++ requests done))
  pub over : All (IsOver libc) done
  pub owing : All (IsRunning libc) st.running
  pub log : st.sent ≡ all_sent done
