-- ===== src/Request/Once.antt =====
-- The messages of a whole dispatch (src/request.rs), with other tasks between its halves.
use async_fuse_rs.Prelude.{
  ℕ, ◌≡◌, ◌≢◌, refl, ap, arith, ◌==◌, false, Bool-cases, Option, none, some, [], ◌⊎◌, inl, inr,
  length, if◌then◌else◌,
}
use mathlib.Core.Bool.{true≢false}
use async_fuse_rs.Libc.{Libc}
use async_fuse_rs.Session.{Session}
use async_fuse_rs.Ll
use async_fuse_rs.Ll.Operation.{Operation}
use async_fuse_rs.Reply.Raw
use async_fuse_rs.Reply.Raw.{Outcome, new, consume}
use async_fuse_rs.Reply.Kinds.Exactly.{IsAnswered, error_of, run_use_once, ok_once, consume_once}
use async_fuse_rs.Reply.Directory
use async_fuse_rs.Reply.Directory.Filling.{Ends, failed, listed, run_listing-Ends}
use async_fuse_rs.Filesystem.{AttrChange}
use async_fuse_rs.Abi.FileRequests.{FuseInitIn}
use async_fuse_rs.Abi.Replies.{init_out_repr}
use async_fuse_rs.Request.Task.{
  Request, Task, in_init, in_destroy, in_call, in_readdir, in_forget, finished, ResultOf, reply,
}
use async_fuse_rs.Request.Begin.{
  refuse, panic, is_init, call, begin_init, begin_guarded, begin_operation, begin, is_unsupported,
  is_destroy,
}
use async_fuse_rs.Request.Begin.Arguments.{attr_change}
use async_fuse_rs.Request.Resume.{init_out, resume_init, resume}

-- The operations whose dispatch may end with no message: forget, which has no reply, and those with an
-- argument that makes it panic before there is a reply object.
abbrev pub IsSilent : Libc → Operation → Type 0
IsSilent libc (Operation.forget _) = Unit
IsSilent libc (Operation.set_attr arg) = attr_change libc arg ≡ none
IsSilent libc (Operation.write arg bytes) = length bytes ≢ arg.size
IsSilent libc (Operation.set_x_attr arg _ value) = length value ≢ arg.size
IsSilent libc _ = ⊥

-- The operations behind the guards of `dispatch`.
abbrev IsGuarded : Operation → Type 0
IsGuarded (Operation.init _) = ⊥
IsGuarded Operation.destroy = ⊥
IsGuarded _ = Unit

-- One message for the request, or none for a silent operation.
abbrev pub Ended : Request → Type 0 → Outcome → Type 0
Ended req silent o =
    ((err : ℕ) × IsAnswered req.ch (Ll.Request.unique req.request) err o.sent)
    ⊎ ((o.sent ≡ []) × silent)

-- A dispatch under way holds a fresh reply object for its request, or the operation is silent.
abbrev pub Owes : Request → Type 0 → Task → Type 0
Owes req silent (in_init _ r) = r ≡ reply req
Owes req silent (in_destroy r) = r ≡ req
Owes req silent (in_call r _) = r ≡ reply req
Owes req silent (in_readdir _ _ _ d) =
    (size : ℕ) × (d ≡ Directory.new (Ll.Request.unique req.request) req.ch size)
Owes req silent (in_forget _ _) = silent
Owes req silent (finished o) = Ended req silent o

refuse-Owes :
    (libc : Libc) (req : Request) (silent : Type 0) (err : ℕ)
    → Owes req silent (refuse libc req err)
unfolding refuse Raw.error reply
refuse-Owes libc req silent err =
    inl (err, (consume_once libc (Ll.Request.unique req.request) req.ch err []).0)

attr-Owes :
    (req : Request) (change : Option AttrChange) (t : AttrChange → Task)
    → ((c : AttrChange) → Owes req (change ≡ none) (t c))
    → Owes req (change ≡ none) (elim change [ none ↦ panic | some c ↦ t c ])
attr-Owes req none t h = inr (refl, refl)
attr-Owes req (some c) t h = h c

size-Owes :
    (req : Request) (n m : ℕ) (t : Task)
    → Owes req (n ≢ m) t
    → Owes req (n ≢ m) (if n == m then t else panic)
size-Owes req n m t h = elim (Bool-cases (n == m)) [
  | inl same ↦ rw same h
  | inr other ↦ rw other (inr (refl, λ e. ground (arith, other, e)))
]

call-Owes :
    (libc : Libc) (req : Request) (ino : ℕ) (op : Operation)
    → IsGuarded op
    → Owes req (IsSilent libc op) (call libc req ino op)
unfolding call
call-Owes libc req ino (Operation.interrupt arg) h = refuse-Owes libc req ⊥ libc.enosys
call-Owes libc req ino (Operation.forget arg) h = _
call-Owes libc req ino (Operation.set_attr arg) h =
    attr-Owes req (attr_change libc arg) _ (λ c. refl)
call-Owes libc req ino (Operation.write arg bytes) h = size-Owes req (length bytes) arg.size _ refl
call-Owes libc req ino (Operation.set_x_attr arg name value) h =
    size-Owes req (length value) arg.size _ refl
call-Owes libc req ino (Operation.read_dir arg) h = (arg.size, refl)
call-Owes libc req ino (Operation.init arg) h = elim h [ ]
call-Owes libc req ino Operation.destroy h = elim h [ ]
call-Owes libc req ino _ h = refl

-- An operation other than the two of the session is guarded.
IsGuarded-intro : (op : Operation) → is_init op ≡ false → is_destroy op ≡ false → IsGuarded op
IsGuarded-intro (Operation.init arg) i d = true≢false i
IsGuarded-intro Operation.destroy i d = true≢false d
IsGuarded-intro _ i d = tt

guarded-Owes :
    (libc : Libc) (se : Session) (req : Request) (op : Operation)
    → is_init op ≡ false
    → Owes req (IsSilent libc op) (begin_guarded libc se req op).1
unfolding begin_guarded
guarded-Owes libc se req op i = elim (Bool-cases se.initialized) [
  | inr early ↦ rw early (refuse-Owes libc req _ libc.eio)
  | inl ready ↦ elim (Bool-cases (is_destroy op)) [
    | inl last ↦ rw (ready, last) refl
    | inr other ↦ elim (Bool-cases se.destroyed) [
      | inl late ↦ rw (ready, other, late) (refuse-Owes libc req _ libc.eio)
      | inr serving ↦
          rw (ready, other, serving)
            (call-Owes libc req (Ll.Request.nodeid req.request) op (IsGuarded-intro op i other))
    ]
  ]
]

init-Owes :
    (libc : Libc) (se : Session) (req : Request) (arg : FuseInitIn)
    → Owes req ⊥ (begin_init libc se req arg).1
unfolding begin_init
init-Owes libc se req arg = elim (Bool-cases (is_unsupported arg)) [
  | inl old ↦ rw old (refuse-Owes libc req ⊥ libc.eproto)
  | inr supported ↦ rw supported refl
]

pub operation-Owes :
    (libc : Libc) (se : Session) (req : Request) (op : Operation)
    → Owes req (IsSilent libc op) (begin_operation libc se req op).1
unfolding begin_operation
operation-Owes libc se req (Operation.init arg) = init-Owes libc se req arg
operation-Owes libc se req op = guarded-Owes libc se req op refl

Ends-Ended :
    (libc : Libc) (req : Request) (silent : Type 0) (capacity : ℕ) (o : Outcome)
    → Ends libc (Ll.Request.unique req.request) req.ch capacity o
    → Ended req silent o
Ends-Ended libc req silent capacity o (failed err e) =
    inl (err, ([], ap (λ (x : Outcome). x.sent) e))
Ends-Ended libc req silent capacity o (listed es e within) =
    inl (0, (_, ap (λ (x : Outcome). x.sent) e))

-- The end of a method that was given what is owed.
pub resume-Ended :
    (libc : Libc) (se : Session) (req : Request) (silent : Type 0) (t : Task) (result : ResultOf t)
    → Owes req silent t
    → Ended req silent (resume libc se t result).1
unfolding resume resume_init reply
resume-Ended libc se req silent (in_init arg r) none h =
    inl
      (0, rw h (ok_once libc (Ll.Request.unique req.request) req.ch init_out_repr (init_out arg)).0)
resume-Ended libc se req silent (in_init arg r) (some err) h =
    inl (err, rw h (consume_once libc (Ll.Request.unique req.request) req.ch err []).0)
resume-Ended libc se req silent (in_destroy r) result h =
    inl (0, rw h (consume_once libc (Ll.Request.unique req.request) req.ch 0 []).0)
resume-Ended libc se req silent (in_call r c) u h =
    inl (error_of libc u, rw h (run_use_once libc (Ll.Request.unique req.request) req.ch u).0)
resume-Ended libc se req silent (in_readdir ino fh offset d) l (size, h) = rw h (
    Ends-Ended libc req silent size _
      (run_listing-Ends libc (Ll.Request.unique req.request) req.ch l size))
resume-Ended libc se req silent (in_forget ino nlookup) result h = inr (refl, h)
resume-Ended libc se req silent (finished o) result h = h

-- Whatever the session's state is when a dispatch begins and when its method has come to an end, and
-- whatever the method does with its reply object, the dispatch sends exactly one message, which answers
-- this request, or it sends none and the operation is a forget, a setattr with a time that cannot be
-- represented, or a write or setxattr whose body has not the length it states.
pub dispatch_once :
    (libc : Libc) (se se' : Session) (req : Request)
    → (result : ResultOf (begin libc se req).1)
    → Ended req
        (IsSilent libc req.request.operation)
        (resume libc se' (begin libc se req).1 result).1
unfolding begin
dispatch_once libc se se' req result =
    resume-Ended libc se' req (IsSilent libc req.request.operation) (begin libc se req).1 result
      (operation-Owes libc se req req.request.operation)
