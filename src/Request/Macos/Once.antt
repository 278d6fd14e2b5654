-- ===== src/Request/Macos/Once.antt =====
-- The messages of a whole dispatch on macOS (src/request.rs), with other tasks between its halves.
use async_fuse_rs.Prelude.{
  ℕ, ◌≡◌, ◌≢◌, refl, arith, ◌==◌, Bool-cases, Option, none, some, [], inl, inr, length,
  if◌then◌else◌,
}
use async_fuse_rs.Libc.{Libc}
use async_fuse_rs.Channel.{ChannelSender}
use async_fuse_rs.Abi.Layout.{Repr}
use async_fuse_rs.FileAttr.{after_epoch, before_epoch}
use async_fuse_rs.Session.{Session}
use async_fuse_rs.Ll
use async_fuse_rs.Ll.Operation.{Operation}
use async_fuse_rs.Ll.MacosOperation.{MacosOperation, shared, set_attr, set_x_attr}
use async_fuse_rs.Abi.Replies.{init_out_repr}
use async_fuse_rs.Abi.Macos.{
  getxtimes_out_repr, macos_entry_out_repr, macos_attr_out_repr, macos_created_repr,
}
use async_fuse_rs.Filesystem.{AttrChange}
use async_fuse_rs.Reply.Raw
use async_fuse_rs.Reply.Raw.{Outcome, new, unwind, forsake}
use async_fuse_rs.Reply.Raw.Once.{drop_raw}
use async_fuse_rs.Reply.Attr.{time_from_system_time}
use async_fuse_rs.Reply.Kinds.{
  Kind, Answer, entry, attr, created, Use, answer, error, dropped, panics, run_answer, run_use,
}
use async_fuse_rs.Reply.Kinds.Exactly.{IsAnswered, run_use_once, ok_once, consume_once}
use async_fuse_rs.Reply.Macos.{
  ok_or_unwind, xtimes_xtimes, xtimes_out, macos_entry_entry, macos_attr_attr, macos_create_created,
}
use async_fuse_rs.Request.Task.{Task, in_init, in_call, finished, ResultOf, reply}
use async_fuse_rs.Request.Begin.{panic}
use async_fuse_rs.Request.Once.{IsSilent, Ended, Owes, operation-Owes, resume-Ended}
use async_fuse_rs.Request.Macos.{
  MacosPacket, with_operation, macos_reply, MacosTask, ordinary, in_empty, in_getxtimes,
  MacosResultOf, macos_attr_change, macos_call, macos_begin_guarded, macos_begin_operation,
  macos_begin, macos_init_out, macos_resume_init, resume_ordinary, macos_run_answer, macos_run_use,
  XtimesUse, times, xtimes_failed, xtimes_dropped, run_xtimes, macos_resume,
}

-- The operations whose dispatch may end with no message.
abbrev pub IsMacosSilent : Libc → MacosOperation → Type 0
IsMacosSilent libc (shared op) = IsSilent libc op
IsMacosSilent libc (set_attr arg) = macos_attr_change libc arg ≡ none
IsMacosSilent libc (set_x_attr arg name value) = length value ≢ arg.size
IsMacosSilent libc _ = ⊥

-- One message for the packet, or none for a silent operation.
abbrev pub IsEnded : MacosPacket → Type 0 → Outcome → Type 0
IsEnded p silent o = Ended (with_operation p Operation.get_attr) silent o

-- What a dispatch under way holds; `o` is the operation, if it is one of all systems.
abbrev HasDue : MacosPacket → Operation → Type 0 → MacosTask → Type 0
HasDue p o silent (ordinary t) = Owes (with_operation p o) silent t
HasDue p o silent (in_empty r c) = r ≡ macos_reply p
HasDue p o silent (in_getxtimes r ino) = r.reply ≡ macos_reply p

-- An operation with a struct of macOS, or one of macOS only.
abbrev IsOwn : MacosOperation → Type 0
IsOwn (shared _) = ⊥
IsOwn _ = Unit

refuse-HasDue :
    (libc : Libc) (p : MacosPacket) (o : Operation) (silent : Type 0) (err : ℕ)
    → HasDue p o silent (ordinary (finished (Raw.error libc (macos_reply p) err)))
unfolding Raw.error macos_reply Ll.Request.unique
refuse-HasDue libc p o silent err =
    inl (err, (consume_once libc p.request.header.unique p.ch err []).0)

setattr-HasDue :
    (p : MacosPacket) (o : Operation) (change : Option AttrChange) (t : AttrChange → Task)
    → ((c : AttrChange) → HasDue p o (change ≡ none) (ordinary (t c)))
    → HasDue p o (change ≡ none) (ordinary (elim change [ none ↦ panic | some c ↦ t c ]))
setattr-HasDue p o none t h = inr (refl, refl)
setattr-HasDue p o (some c) t h = h c

setxattr-HasDue :
    (p : MacosPacket) (o : Operation) (n m : ℕ) (t : Task)
    → HasDue p o (n ≢ m) (ordinary t)
    → HasDue p o (n ≢ m) (ordinary (if n == m then t else panic))
setxattr-HasDue p o n m t h = elim (Bool-cases (n == m)) [
  | inl same ↦ rw same h
  | inr other ↦ rw other (inr (refl, λ e. ground (arith, other, e)))
]

call-HasDue :
    (libc : Libc) (p : MacosPacket) (o : Operation) (op : MacosOperation)
    → IsOwn op
    → HasDue p o (IsMacosSilent libc op) (macos_call libc p op)
unfolding macos_call macos_reply reply
call-HasDue libc p o (set_attr arg) h =
    setattr-HasDue p o (macos_attr_change libc arg) _ (λ c. refl)
call-HasDue libc p o (set_x_attr arg name value) h =
    setxattr-HasDue p o (length value) arg.size _ refl
call-HasDue libc p o (shared op) h = elim h [ ]
call-HasDue libc p o _ h = refl

guarded-HasDue :
    (libc : Libc) (se : Session) (p : MacosPacket) (o : Operation) (op : MacosOperation)
    → IsOwn op
    → HasDue p o (IsMacosSilent libc op) (macos_begin_guarded libc se p op)
unfolding macos_begin_guarded
guarded-HasDue libc se p o op h = elim (Bool-cases se.initialized) [
  | inr early ↦ rw early (refuse-HasDue libc p o _ libc.eio)
  | inl ready ↦ elim (Bool-cases se.destroyed) [
    | inl late ↦ rw (ready, late) (refuse-HasDue libc p o _ libc.eio)
    | inr serving ↦ rw (ready, serving) (call-HasDue libc p o op h)
  ]
]

abbrev operation_of : MacosOperation → Operation
operation_of (shared op) = op
operation_of _ = Operation.get_attr

operation-HasDue :
    (libc : Libc) (se : Session) (p : MacosPacket) (op : MacosOperation)
    → HasDue p (operation_of op) (IsMacosSilent libc op) (macos_begin_operation libc se p op).1
unfolding macos_begin_operation
operation-HasDue libc se p (shared op) = operation-Owes libc se (with_operation p op) op
operation-HasDue libc se p (set_attr arg) = guarded-HasDue libc se p _ (set_attr arg) tt
operation-HasDue libc se p op = guarded-HasDue libc se p _ op tt

run_xtimes-Ended :
    (libc : Libc) (p : MacosPacket) (silent : Type 0) (u : XtimesUse)
    → IsEnded p silent (run_xtimes libc (record { reply = macos_reply p }) u)
unfolding run_xtimes xtimes_xtimes ok_or_unwind time_from_system_time macos_reply Ll.Request.unique
    unwind forsake Raw.error
run_xtimes-Ended libc p silent (times (after_epoch b) (after_epoch c)) = inl (
  0,
  (ok_once libc p.request.header.unique p.ch getxtimes_out_repr
      (xtimes_out (b.secs, b.nanos) (c.secs, c.nanos))).0,
)
run_xtimes-Ended libc p silent (times (after_epoch b) (before_epoch c)) =
    inl (libc.eio, ([], drop_raw libc p.request.header.unique p.ch))
run_xtimes-Ended libc p silent (times (before_epoch b) c) =
    inl (libc.eio, ([], drop_raw libc p.request.header.unique p.ch))
run_xtimes-Ended libc p silent (xtimes_failed err) =
    inl (err, (consume_once libc p.request.header.unique p.ch err []).0)
run_xtimes-Ended libc p silent xtimes_dropped =
    inl (libc.eio, ([], drop_raw libc p.request.header.unique p.ch))

-- A struct that may fail to come about is sent, or else an I/O error.
module _ (libc : Libc) (unique : ℕ) (s : ChannelSender) where
  ok_or_unwind_once :
      {T : Type 0} (repr : Repr T) (value : Option T)
      → (err : ℕ) × IsAnswered s unique err (ok_or_unwind libc (new unique s) repr value).sent
  unfolding ok_or_unwind unwind
  ok_or_unwind_once repr none = (libc.eio, ([], drop_raw libc unique s))
  ok_or_unwind_once repr (some value) = (0, (ok_once libc unique s repr value).0)

  run_answer_once :
      {k : Kind} (a : Answer k)
      → (err : ℕ) × IsAnswered s unique err (run_answer libc (new unique s) a).sent
  unfolding run_use
  run_answer_once a = (_, (run_use_once libc unique s (answer a)).0)

  macos_run_answer_once :
      {k : Kind} (a : Answer k)
      → (err : ℕ) × IsAnswered s unique err (macos_run_answer libc (new unique s) a).sent
  unfolding macos_run_answer macos_entry_entry macos_attr_attr macos_create_created
  macos_run_answer_once (entry ttl a generation) = ok_or_unwind_once macos_entry_out_repr _
  macos_run_answer_once (attr ttl a) = ok_or_unwind_once macos_attr_out_repr _
  macos_run_answer_once (created ttl a generation fh flags) = ok_or_unwind_once macos_created_repr _
  macos_run_answer_once a = run_answer_once a

  macos_run_use_once :
      {k : Kind} (u : Use k)
      → (err : ℕ) × IsAnswered s unique err (macos_run_use libc (new unique s) u).sent
  unfolding macos_run_use run_use
  macos_run_use_once (answer a) = macos_run_answer_once a
  macos_run_use_once {k} (error err) = (_, (run_use_once libc unique s {k = k} (error err)).0)
  macos_run_use_once {k} dropped = (_, (run_use_once libc unique s {k = k} dropped).0)
  macos_run_use_once {k} panics = (_, (run_use_once libc unique s {k = k} panics).0)

resume_ordinary-Ended :
    (libc : Libc) (se : Session) (p : MacosPacket) (o : Operation) (silent : Type 0) (t : Task)
    (result : ResultOf t)
    → Owes (with_operation p o) silent t
    → Ended (with_operation p o) silent (resume_ordinary libc se t result).1
unfolding resume_ordinary macos_resume_init reply
resume_ordinary-Ended libc se p o silent (in_init arg r) none h = inl (
  0,
  rw h
      (ok_once libc (Ll.Request.unique (with_operation p o).request) p.ch init_out_repr
        (macos_init_out arg)).0,
)
resume_ordinary-Ended libc se p o silent (in_init arg r) (some err) h =
    inl
      (err, rw h (consume_once libc (Ll.Request.unique (with_operation p o).request) p.ch err []).0)
resume_ordinary-Ended libc se p o silent (in_call r c) u h =
    inl (rw h (macos_run_use_once libc (Ll.Request.unique (with_operation p o).request) p.ch u))
resume_ordinary-Ended libc se p o silent (finished out) result h =
    resume-Ended libc se (with_operation p o) silent (finished out) result h
resume_ordinary-Ended libc se p o silent t result h =
    resume-Ended libc se (with_operation p o) silent t result h

macos_resume-Ended :
    (libc : Libc) (se : Session) (p : MacosPacket) (o : Operation) (silent : Type 0) (t : MacosTask)
    (result : MacosResultOf t)
    → HasDue p o silent t
    → IsEnded p silent (macos_resume libc se t result).1
unfolding macos_resume macos_reply Ll.Request.unique
macos_resume-Ended libc se p o silent (ordinary t) result h =
    resume_ordinary-Ended libc se p o silent t result h
macos_resume-Ended libc se p o silent (in_empty r c) u h =
    inl (rw h (macos_run_use_once libc p.request.header.unique p.ch u))
macos_resume-Ended libc se p o silent (in_getxtimes r ino) u h =
    rw h (run_xtimes-Ended libc p silent u)

-- On macOS too, whatever the session's state is when a dispatch begins and when its method has come to an
-- end, and whatever the method does with its reply object, the dispatch sends exactly one message, which
-- answers this request, or it sends none and the operation is a forget, a setattr with a time that cannot
-- be represented, or a write or setxattr whose body has not the length it states.
pub macos_dispatch_once :
    (libc : Libc) (se se' : Session) (p : MacosPacket)
    → (result : MacosResultOf (macos_begin libc se p).1)
    → IsEnded p
        (IsMacosSilent libc p.request.operation)
        (macos_resume libc se' (macos_begin libc se p).1 result).1
unfolding macos_begin
macos_dispatch_once libc se se' p result =
    macos_resume-Ended libc se' p (operation_of p.request.operation)
      (IsMacosSilent libc p.request.operation) (macos_begin libc se p).1 result
      (operation-HasDue libc se p p.request.operation)
