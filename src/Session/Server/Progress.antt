-- ===== src/Session/Server/Progress.antt =====
-- How many steps a server has before it (src/session.rs, src/request.rs).
use mathlib.Core.List.{Perm}
use async_fuse_rs.Prelude.{
  ℕ, zero, suc, ◌+◌, ◌*◌, ◌≡◌, refl, subst, ap, arith, none, List, [], ◌∷◌, ◌++◌, All, length,
  length-append,
}
use async_fuse_rs.Libc.{Libc}
use async_fuse_rs.Reply.Raw.{Outcome}
use async_fuse_rs.Reply.Kinds.{dropped}
use async_fuse_rs.Reply.Directory.{abandon}
use async_fuse_rs.Request.Task.{
  Request, Task, ResultOf, in_init, in_destroy, in_call, in_readdir, in_forget, finished,
}
use async_fuse_rs.Session.Server.{Server, Step, start, end, Reach, work, all_sent, requests, IsOver}
use async_fuse_rs.Session.Server.Account.{Reach-Accounted}

-- A request that waits has two steps before it, one whose method is under way has one.
unfoldable pub steps_left : Server → ℕ
steps_left st = 2 * length st.waiting + length st.running

pub Step-steps_left :
    (libc : Libc) (st st' : Server) → Step libc st st' → steps_left st ≡ suc (steps_left st')
unfolding steps_left
Step-steps_left libc st _ (start xs ys req e) =
    omega (arith, ap length e, length-append xs (req ∷ ys), length-append xs ys)
Step-steps_left libc st _ (end xs ys req t result e) =
    omega (arith, ap length e, length-append xs ((req, t) ∷ ys), length-append xs ys)

-- Runs in which the loop spawns nothing.
pub data Steps (libc : Libc) : ℕ → Server → Server → Type 0 where
  rest : {st : Server} → Steps libc 0 st st
  more :
      {n : ℕ} {st mid st' : Server}
      → Step libc st mid
      → Steps libc n mid st'
      → Steps libc (suc n) st st'

-- Some end of a method: it can return without a use of its reply object.
abbrev pub any_result : (t : Task) → ResultOf t
any_result (in_init _ _) = none
any_result (in_destroy _) = tt
any_result (in_call _ _) = dropped
any_result (in_readdir _ _ _ _) = abandon
any_result (in_forget _ _) = tt
any_result (finished _) = tt

-- Every run without new requests is as long as the steps that it uses up: none goes on for ever.
pub Steps-steps_left :
    (libc : Libc) (n : ℕ) (st st' : Server)
    → Steps libc n st st'
    → steps_left st ≡ n + steps_left st'
Steps-steps_left libc _ st _ rest = omega arith
Steps-steps_left libc _ st st' (more {n = n} {mid = mid} s ss) =
    omega (arith, Step-steps_left libc st mid s, Steps-steps_left libc n mid st' ss)

pub next-Step :
    (libc : Libc) (st : Server) (n : ℕ) → steps_left st ≡ suc n → (st' : Server) × Step libc st st'
unfolding steps_left
next-Step libc st n h = go st.waiting st.running refl refl
  where
    go :
        (ws : List Request) (rs : List (Request × Task))
        → st.waiting ≡ ws
        → st.running ≡ rs
        → (st' : Server) × Step libc st st'
    go (req ∷ ws) rs hw hr = (_, start [] ws req hw)
    go [] ((req, t) ∷ rs) hw hr = (_, end [] rs req t (any_result t) hr)
    go [] [] hw hr = absurd (omega (arith, h, ap length hw, ap length hr))

-- A server never gets stuck: from any state there is a run that uses up all its steps.
pub drain :
    (libc : Libc) (n : ℕ) (st : Server) → steps_left st ≡ n → (st' : Server) × Steps libc n st st'
drain libc zero st h = (st, rest)
drain libc (suc n) st h =
    let (mid, s) = next-Step libc st n h in
    let (st', ss) = drain libc n mid (omega (arith, h, Step-steps_left libc st mid s)) in
    (st', more s ss)

Reach-Steps :
    (libc : Libc) (reqs : List Request) (n : ℕ) (st st' : Server)
    → Reach libc reqs st
    → Steps libc n st st'
    → Reach libc reqs st'
Reach-Steps libc reqs _ st _ r rest = r
Reach-Steps libc reqs _ st st' r (more {n = n} {mid = mid} s ss) =
    Reach-Steps libc reqs n mid st' (work s r) ss

-- All requests are over, each with its messages, which are all that was sent.
pub record AllServed (libc : Libc) (reqs : List Request) (st : Server) : Type 0 where
  pub done : List (Request × Outcome)
  pub all : Perm reqs (requests done)
  pub over : All (IsOver libc) done
  pub log : st.sent ≡ all_sent done

idle : (st : Server) → steps_left st ≡ 0 → (st.waiting ≡ []) × (st.running ≡ [])
unfolding steps_left
idle st h = (empty st.waiting (omega (arith, h)), empty st.running (omega (arith, h)))
  where
    empty : {A : Type 0} (xs : List A) → length xs ≡ 0 → xs ≡ []
    empty [] h = refl
    empty (x ∷ xs) h = absurd (omega (arith, h))

pub idle-AllServed :
    (libc : Libc) (reqs : List Request) (st : Server)
    → Reach libc reqs st
    → steps_left st ≡ 0
    → AllServed libc reqs st
idle-AllServed libc reqs st r h =
    let (w, t) = idle st h in
    let a = Reach-Accounted libc reqs st r in
    record {
      done = a.done;
      all =
          subst (λ rs. Perm reqs (requests rs ++ requests a.done)) t
            (subst (λ ws. Perm reqs (ws ++ (requests st.running ++ requests a.done))) w a.parts);
      over = a.over;
      log = a.log;
    }

-- From any state that a server can reach, a run of as many steps as are left exists, and every such run,
-- in whatever order and with whatever results, ends with all requests served.
pub Reach-AllServed :
    (libc : Libc) (reqs : List Request) (st : Server)
    → Reach libc reqs st
    → ((st' : Server) × Steps libc (steps_left st) st st')
      × ((st' : Server) → Steps libc (steps_left st) st st' → AllServed libc reqs st')
Reach-AllServed libc reqs st r = (
  drain libc (steps_left st) st refl,
  λ st' ss.
      idle-AllServed libc reqs st' (Reach-Steps libc reqs (steps_left st) st st' r ss)
        (omega (arith, Steps-steps_left libc (steps_left st) st st' ss)),
)
