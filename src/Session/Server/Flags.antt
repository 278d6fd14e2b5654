-- ===== src/Session/Server/Flags.antt =====
-- The flags of the session in every state that a server can reach (src/session.rs, src/request.rs).
use async_fuse_rs.Prelude.{
  ◌≡◌, refl, sym, subst, ap, not, if◌then◌else◌, ◌∙◌, Bool, true, false, Bool-cases, none, some,
  inl, inr, List, [], ◌∷◌, ◌++◌, All,
}
use async_fuse_rs.Libc.{Libc}
use async_fuse_rs.Ll.Operation.{Operation}
use async_fuse_rs.Session.{Session}
use async_fuse_rs.Abi.FileRequests.{FuseInitIn}
use async_fuse_rs.Request.Task.{
  Request, Task, in_init, in_destroy, in_call, in_readdir, in_forget, finished, ResultOf,
}
use async_fuse_rs.Request.Begin.{
  begin, begin_operation, begin_init, begin_guarded, is_unsupported, is_destroy,
}
use async_fuse_rs.Request.Resume.{resume, resume_init}
use async_fuse_rs.Request.Guards.{Allowed, begin-Allowed}
use async_fuse_rs.Session.Server.{Server, Reach, boot, accept, work, start, end}
use async_fuse_rs.Session.Server.Account.{All-split}

-- `initialized` holds while any method but `init` is under way.
abbrev pub Started : Bool → Task → Type 0
Started i (in_init _ _) = Unit
Started i (finished _) = Unit
Started i _ = i ≡ true

Allowed-Started : (i d : Bool) (t : Task) → Allowed i d t → Started i t
Allowed-Started i d (in_init _ _) h = tt
Allowed-Started i d (in_destroy _) h = h
Allowed-Started i d (in_call _ _) h = h.0
Allowed-Started i d (in_readdir _ _ _ _) h = h.0
Allowed-Started i d (in_forget _ _) h = h.0
Allowed-Started i d (finished _) h = tt

-- The first half of a dispatch leaves the flags alone.
abbrev SameFlags : Session → Session → Type 0
SameFlags se se' = (se'.initialized ≡ se.initialized) × (se'.destroyed ≡ se.destroyed)

if-session :
    (b : Bool) (x y : Session × Task) (se : Session)
    → x.0 ≡ se
    → y.0 ≡ se
    → (if b then x else y).0 ≡ se
if-session true x y se hx hy = hx
if-session false x y se hx hy = hy

guarded-SameFlags :
    (libc : Libc) (se : Session) (req : Request) (op : Operation)
    → (begin_guarded libc se req op).0 ≡ se
unfolding begin_guarded
guarded-SameFlags libc se req op =
    if-session (not se.initialized) _ _ se refl
      (if-session (is_destroy op) _ _ se refl (if-session se.destroyed _ _ se refl refl))

init-SameFlags :
    (libc : Libc) (se : Session) (req : Request) (arg : FuseInitIn)
    → SameFlags se (begin_init libc se req arg).0
unfolding begin_init
init-SameFlags libc se req arg = elim (Bool-cases (is_unsupported arg)) [
  | inl old ↦ rw old (refl, refl)
  | inr supported ↦ rw supported (refl, refl)
]

operation-SameFlags :
    (libc : Libc) (se : Session) (req : Request) (op : Operation)
    → SameFlags se (begin_operation libc se req op).0
unfolding begin_operation
operation-SameFlags libc se req (Operation.init arg) = init-SameFlags libc se req arg
operation-SameFlags libc se req op =
    let same = guarded-SameFlags libc se req op in
    (ap (λ (s : Session). s.initialized) same, ap (λ (s : Session). s.destroyed) same)

begin-SameFlags : (libc : Libc) (se : Session) (req : Request) → SameFlags se (begin libc se req).0
unfolding begin
begin-SameFlags libc se req = operation-SameFlags libc se req req.request.operation

-- The second half never clears `initialized`.
resume-initialized :
    (libc : Libc) (se : Session) (t : Task) (result : ResultOf t)
    → se.initialized ≡ true
    → (resume libc se t result).0.initialized ≡ true
unfolding resume resume_init
resume-initialized libc se (in_init arg r) none h = refl
resume-initialized libc se (in_init arg r) (some err) h = h
resume-initialized libc se (in_destroy r) result h = h
resume-initialized libc se (in_call r c) result h = h
resume-initialized libc se (in_readdir ino fh offset d) result h = h
resume-initialized libc se (in_forget ino nlookup) result h = h
resume-initialized libc se (finished o) result h = h

-- It sets `destroyed` only in the dispatch of a destroy.
resume-destroyed :
    (libc : Libc) (se : Session) (t : Task) (result : ResultOf t)
    → Started se.initialized t
    → (se.destroyed ≡ true → se.initialized ≡ true)
    → (resume libc se t result).0.destroyed ≡ true
    → (resume libc se t result).0.initialized ≡ true
unfolding resume resume_init
resume-destroyed libc se (in_init arg r) none s h d = refl
resume-destroyed libc se (in_init arg r) (some err) s h d = h d
resume-destroyed libc se (in_destroy r) result s h d = s
resume-destroyed libc se (in_call r c) result s h d = h d
resume-destroyed libc se (in_readdir ino fh offset d') result s h d = h d
resume-destroyed libc se (in_forget ino nlookup) result s h d = h d
resume-destroyed libc se (finished o) result s h d = h d

Started-mono : (i j : Bool) (t : Task) → (i ≡ true → j ≡ true) → Started i t → Started j t
Started-mono i j (in_init _ _) m h = tt
Started-mono i j (in_destroy _) m h = m h
Started-mono i j (in_call _ _) m h = m h
Started-mono i j (in_readdir _ _ _ _) m h = m h
Started-mono i j (in_forget _ _) m h = m h
Started-mono i j (finished _) m h = tt

abbrev pub AllStarted : Bool → List (Request × Task) → Type 0
AllStarted i rs = All (λ (r : Request × Task). Started i r.1) rs

AllStarted-mono :
    (i j : Bool) (rs : List (Request × Task))
    → (i ≡ true → j ≡ true)
    → AllStarted i rs
    → AllStarted j rs
AllStarted-mono i j [] m h = tt
AllStarted-mono i j (r ∷ rs) m (h, hs) = (Started-mono i j r.1 m h, AllStarted-mono i j rs m hs)

-- In every state that a server can reach, a session that is destroyed was initialized before, and so was
-- one that has a call of any method but `init` under way.
pub Reach-flags :
    (libc : Libc) (reqs : List Request) (st : Server)
    → Reach libc reqs st
    → (st.session.destroyed ≡ true → st.session.initialized ≡ true)
      × AllStarted st.session.initialized st.running
Reach-flags libc _ _ boot = (λ d. d, tt)
Reach-flags libc _ _ (accept {reqs} {st} req r) = Reach-flags libc reqs st r
Reach-flags libc _ _ (work {reqs} {st} (start xs ys req e) r) =
    let (order, started) = Reach-flags libc reqs st r in
    let (same_i, same_d) = begin-SameFlags libc st.session req in
    (
      λ d. same_i ∙ order (sym same_d ∙ d),
      (
        subst (λ i. Started i (begin libc st.session req).1) (sym same_i)
            (Allowed-Started _ _ _ (begin-Allowed libc st.session req)),
        subst (λ i. AllStarted i st.running) (sym same_i) started,
      ),
    )
Reach-flags libc _ _ (work {reqs} {st} (end xs ys req t result e) r) =
    let (order, started) = Reach-flags libc reqs st r in
    let (ended, others) =
      All-split (λ (q : Request × Task). Started st.session.initialized q.1) xs ys (req, t)
        (subst (AllStarted st.session.initialized) e started) in
    (
      resume-destroyed libc st.session t result ended order,
      AllStarted-mono _ _ (xs ++ ys) (resume-initialized libc st.session t result) others,
    )
