-- ===== src/Session/Server/Account.antt =====
-- What became of each request, in the states that a server can reach (src/session.rs, src/request.rs).
use mathlib.Core.List.{Perm, perm_middle}
use mathlib.Core.List.Perm
use async_fuse_rs.Prelude.{◌≡◌, refl, ap, subst, List, [], ◌∷◌, ◌++◌, All}
use async_fuse_rs.Libc.{Libc}
use async_fuse_rs.Reply.Raw.{Outcome}
use async_fuse_rs.Request.Task.{Request, Task, ResultOf}
use async_fuse_rs.Request.Begin.{begin}
use async_fuse_rs.Request.Resume.{resume}
use async_fuse_rs.Request.Once.{IsSilent, operation-Owes, resume-Ended}
use async_fuse_rs.Session.Server.{
  Server, Reach, boot, accept, work, spawned, start, end, requests, IsRunning, Accounted,
}

pub requests-append :
    {A : Type 0} (xs ys : List (Request × A)) → requests (xs ++ ys) ≡ requests xs ++ requests ys
requests-append [] ys = refl
requests-append ((req, a) ∷ xs) ys = ap (λ t. req ∷ t) (requests-append xs ys)

-- An element of the front may go to the head of the rest.
perm-move :
    (xs ys zs : List Request) (req : Request)
    → Perm ((xs ++ req ∷ ys) ++ zs) ((xs ++ ys) ++ req ∷ zs)
perm-move xs ys zs req =
    Perm.trans (Perm.append (perm_middle xs ys) (Perm.refl zs))
      (Perm.symm (perm_middle (xs ++ ys) zs))

pub All-split :
    {A : Type 0} (P : A → Type 0) (xs ys : List A) (a : A)
    → All P (xs ++ a ∷ ys)
    → P a × All P (xs ++ ys)
All-split P [] ys a h = h
All-split P (x ∷ xs) ys a (hx, h) = let (ha, rest) = All-split P xs ys a h in (ha, (hx, rest))

module _ (libc : Libc) where
  accept-Accounted :
      (reqs : List Request) (st : Server) (req : Request)
      → Accounted libc reqs st
      → Accounted libc (req ∷ reqs) (spawned req st)
  accept-Accounted reqs st req a = record {
    done = a.done;
    parts = Perm.cons req a.parts;
    over = a.over;
    owing = a.owing;
    log = a.log;
  }

  start-Accounted :
      (reqs : List Request) (st : Server) (xs ys : List Request) (req : Request)
      → st.waiting ≡ xs ++ req ∷ ys
      → Accounted libc reqs st
      → Accounted libc reqs (record st {
        session = (begin libc st.session req).0;
        waiting = xs ++ ys;
        running = (req, (begin libc st.session req).1) ∷ st.running;
      })
  unfolding begin
  start-Accounted reqs st xs ys req e a = record {
    done = a.done;
    parts =
        Perm.trans
          (subst (λ w. Perm reqs (w ++ (requests st.running ++ requests a.done))) e a.parts)
          (perm-move xs ys (requests st.running ++ requests a.done) req);
    over = a.over;
    owing = (operation-Owes libc st.session req req.request.operation, a.owing);
    log = a.log;
  }

  end-Accounted :
      (reqs : List Request) (st : Server) (xs ys : List (Request × Task)) (req : Request) (t : Task)
      → (result : ResultOf t) → st.running ≡ xs ++ (req, t) ∷ ys
      → Accounted libc reqs st
      → Accounted libc reqs (record st {
        session = (resume libc st.session t result).0;
        running = xs ++ ys;
        sent = (resume libc st.session t result).1.sent ++ st.sent;
      })
  end-Accounted reqs st xs ys req t result e a =
      let (owed, others) =
        All-split (IsRunning libc) xs ys (req, t) (subst (All (IsRunning libc)) e a.owing) in
      let o : Outcome = (resume libc st.session t result).1 in
      record {
        done = (req, o) ∷ a.done;
        parts =
            Perm.trans
              (subst (λ r. Perm reqs (st.waiting ++ (requests r ++ requests a.done))) e a.parts)
              (Perm.append_left st.waiting (
                rw (requests-append xs ((req, t) ∷ ys), requests-append xs ys)
                  (perm-move (requests xs) (requests ys) (requests a.done) req)));
        over = (
          resume-Ended libc st.session req (IsSilent libc req.request.operation) t result owed,
          a.over,
        );
        owing = others;
        log = ap (λ s. o.sent ++ s) a.log;
      }

-- In every state that a server can reach, whatever the order of the steps: each spawned request waits, is
-- under way or is over; each that is over has ended with one message that answers it, or was silent; each
-- under way still owes its message; and nothing was sent but the messages of those that are over.
pub Reach-Accounted :
    (libc : Libc) (reqs : List Request) (st : Server) → Reach libc reqs st → Accounted libc reqs st
Reach-Accounted libc _ _ boot = record {
  done = [];
  parts = Perm.refl [];
  over = tt;
  owing = tt;
  log = refl;
}
Reach-Accounted libc _ _ (accept {reqs} {st} req r) =
    accept-Accounted libc reqs st req (Reach-Accounted libc reqs st r)
Reach-Accounted libc _ _ (work {reqs} {st} (start xs ys req e) r) =
    start-Accounted libc reqs st xs ys req e (Reach-Accounted libc reqs st r)
Reach-Accounted libc _ _ (work {reqs} {st} (end xs ys req t result e) r) =
    end-Accounted libc reqs st xs ys req t result e (Reach-Accounted libc reqs st r)
