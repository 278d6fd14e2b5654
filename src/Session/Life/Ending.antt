-- ===== src/Session/Life/Ending.antt =====
-- How a session comes to its end (src/session.rs, src/channel.rs).
use mathlib.Core.List.{Perm}
use async_fuse_rs.Prelude.{◌≡◌, List, []}
use async_fuse_rs.Libc.{Libc}
use async_fuse_rs.Channel.Mount
use async_fuse_rs.Channel.Mount.{System, Channel}
use async_fuse_rs.Request.Task.{Request, Task}
use async_fuse_rs.Session.Server.Progress.{AllServed}
use async_fuse_rs.Session.Life.{World, Tick, Life}
use async_fuse_rs.Session.Life.Order.{messages, closing}

module _ (libc : Libc) (sys : System) (ch : Channel) where
  -- The second world comes about from the first with no further request.
  pub data Later : World → World → Type 0 where
    stays : {w : World} → Later w w
    goes_on : {w mid w' : World} → Tick libc sys ch w mid → Later mid w' → Later w w'

  -- All requests are served, no reply is missing, what was sent are the messages that serve the requests,
  -- and the channel has been ended.
  abbrev pub IsFinished : List Request → World → Type 0
  IsFinished reqs w =
      AllServed libc reqs w.server
      × (w.server.running ≡ [])
      × Perm (messages w.events) w.server.sent
      × (closing w.events ≡ Mount.drop sys ch)
