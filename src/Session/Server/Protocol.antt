-- ===== src/Session/Server/Protocol.antt =====
-- What the server promises the kernel (src/session.rs, src/request.rs): a set of open requests, each of
-- which is closed once. Which task serves a request, and how far it is, is forgotten.
use mathlib.Core.List.{perm_middle}
use mathlib.Core.List.Perm
use mathlib.Core.Quot.{sound}
use mathlib.Mathlib.Data.Multiset.Defs.{Multiset, of_list}
use mathlib.Mathlib.Data.Multiset.ZeroCons.{cons}
use async_fuse_rs.Prelude.{◌≡◌, refl, sym, ap, subst, ◌∙◌, List, [], ◌∷◌, ◌++◌, All}
use async_fuse_rs.Libc.{Libc}
use async_fuse_rs.Channel.{Message}
use async_fuse_rs.Reply.Raw.{Outcome}
use async_fuse_rs.Request.Task.{Request}
use async_fuse_rs.Request.Once.{IsSilent, resume-Ended}
use async_fuse_rs.Request.Resume.{resume}
use async_fuse_rs.Session.Server.{
  Server, start, end, Reach, boot, accept, work, requests, IsOver, IsRunning,
}
use async_fuse_rs.Session.Server.Account.{Reach-Accounted, All-split, requests-append}

pub record Protocol : Type 0 where
  pub opened : Multiset Request
  pub log : List Message

-- What the kernel may see: a request is opened, or one that is open is closed, with one message that
-- answers it or, if it is silent, with none.
pub data Conforms (libc : Libc) : Protocol → Type 0 where
  fresh : Conforms libc (record { opened = of_list []; log = [] })
  opens :
      {v : Protocol} (req : Request)
      → Conforms libc v
      → Conforms libc (record v { opened = cons req v.opened })
  closes :
      {v w : Protocol} (req : Request) (o : Outcome)
      → v.opened ≡ cons req w.opened
      → IsOver libc (req, o)
      → w.log ≡ o.sent ++ v.log
      → Conforms libc v
      → Conforms libc w

abbrev pub view : Server → Protocol
view st = record { opened = of_list (st.waiting ++ requests st.running); log = st.sent }

start-opened :
    (xs ys rs : List Request) (req : Request)
    → of_list ((xs ++ ys) ++ req ∷ rs) ≡ of_list ((xs ++ req ∷ ys) ++ rs)
start-opened xs ys rs req = sound (
    Perm.trans (perm_middle (xs ++ ys) rs)
      (Perm.append (Perm.symm (perm_middle xs ys)) (Perm.refl rs)))

end-opened :
    (ws xs ys : List Request) (req : Request)
    → of_list (ws ++ (xs ++ req ∷ ys)) ≡ cons req (of_list (ws ++ (xs ++ ys)))
end-opened ws xs ys req =
    sound (Perm.trans (Perm.append_left ws (perm_middle xs ys)) (perm_middle ws (xs ++ ys)))

-- Every state that a server can reach is seen by the kernel as a state of the protocol: the tasks, their
-- order and their state are invisible, and no request is closed twice or without having been opened.
pub Reach-Conforms :
    (libc : Libc) (reqs : List Request) (st : Server) → Reach libc reqs st → Conforms libc (view st)
Reach-Conforms libc _ _ boot = fresh
Reach-Conforms libc _ _ (accept {reqs} {st} req r) = opens req (Reach-Conforms libc reqs st r)
Reach-Conforms libc reqs _ (work {st = st} (start xs ys req e) r) =
    subst (λ (b : Multiset Request). Conforms libc (record { opened = b; log = st.sent }))
      (ap (λ ws. of_list (ws ++ requests st.running)) e
        ∙ sym (start-opened xs ys (requests st.running) req))
      (Reach-Conforms libc reqs st r)
Reach-Conforms libc reqs _ (work {st = st} (end xs ys req t result e) r) =
    let a = Reach-Accounted libc reqs st r in
    let (owed, _) =
      All-split (IsRunning libc) xs ys (req, t) (subst (All (IsRunning libc)) e a.owing) in
    closes req (resume libc st.session t result).1
      (ap (λ rs. of_list (st.waiting ++ requests rs)) e
        ∙ ap (λ rs. of_list (st.waiting ++ rs)) (requests-append xs ((req, t) ∷ ys))
        ∙ end-opened st.waiting (requests xs) (requests ys) req
        ∙ sym (ap (λ rs. cons req (of_list (st.waiting ++ rs))) (requests-append xs ys)))
      (resume-Ended libc st.session req (IsSilent libc req.request.operation) t result owed) refl
      (Reach-Conforms libc reqs st r)
