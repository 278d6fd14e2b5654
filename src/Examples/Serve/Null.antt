-- ===== src/Examples/Serve/Null.antt =====
-- The null filesystem behind the dispatch (examples/null.rs, src/request.rs).
use async_fuse_rs.Prelude.{
  ℕ, ◌≡◌, refl, ap, ◌∙◌, ◌&&◌, not, List, ◌∷◌, append-nil, ◌==◌, Bool-cases, inl, inr, arith, false,
  Option, none, some, length, [], ◌≢◌, if◌then◌else◌,
}
use async_fuse_rs.Libc.{Libc}
use async_fuse_rs.Session.{Session}
use async_fuse_rs.Ll
use async_fuse_rs.Ll.Operation.{Operation}
use async_fuse_rs.Reply.Raw
use async_fuse_rs.Reply.Raw.{Outcome}
use async_fuse_rs.Reply.Kinds.{Kind}
use async_fuse_rs.Reply.Kinds.Exactly.{IsAnswered, error_of, ok_once, run_use_once, consume_once}
use async_fuse_rs.Reply.Directory
use async_fuse_rs.Reply.Directory.{run_listing}
use async_fuse_rs.Filesystem.{Call, AttrChange}
use async_fuse_rs.Filesystem.Defaults.{default_use, default_listing, default_init}
use async_fuse_rs.Request.Task.{Request, Task, in_call, in_readdir, reply}
use async_fuse_rs.Request.Begin.{
  begin, begin_operation, begin_guarded, begin_init, is_unsupported, is_destroy, call, refuse,
  panic,
}
use async_fuse_rs.Request.Begin.Arguments.{attr_change}
use async_fuse_rs.Request.Resume.{resume}
use async_fuse_rs.Request.Once.{IsSilent}
use async_fuse_rs.Examples.Serve.{
  null_fs, result_of, dispatch, converse, Sent, request_on, converse-packet,
}
use async_fuse_rs.Channel.{ChannelSender, Message}
use async_fuse_rs.Ll.Request.RoundTrip.{packet}
use async_fuse_rs.Abi.FileRequests.{FuseInitIn}
use async_fuse_rs.Abi.Replies.{init_out_repr}
use async_fuse_rs.Request.Resume.{resume_init, init_out}

-- The operations that the defaults answer with success.
abbrev pub null_error : Libc → Operation → ℕ
null_error libc (Operation.open_file _) = 0
null_error libc (Operation.open_dir _) = 0
null_error libc (Operation.release _) = 0
null_error libc (Operation.release_dir _) = 0
null_error libc Operation.stat_fs = 0
null_error libc _ = libc.enosys

abbrev pub IsPlain : Operation → Type 0
IsPlain (Operation.init _) = ⊥
IsPlain Operation.destroy = ⊥
IsPlain _ = Unit

-- The second half answers a task with this error, when the null filesystem is asked.
record NullAnswers (libc : Libc) (se : Session) (req : Request) (err : ℕ) (t : Task) : Type 0 where
  pub answered :
      IsAnswered req.ch
        (Ll.Request.unique req.request)
        err
        (resume libc se t (result_of null_fs libc t)).1.sent

module _ (libc : Libc) (se : Session) (req : Request) where
  refuse-NullAnswers : (err : ℕ) → NullAnswers libc se req err (refuse libc req err)
  unfolding resume refuse Raw.error reply
  refuse-NullAnswers err = record {
    answered = (consume_once libc (Ll.Request.unique req.request) req.ch err []).0;
  }

  asked-NullAnswers :
      {k : Kind} (c : Call k)
      → NullAnswers libc se req (error_of libc (default_use libc c)) (in_call (reply req) c)
  unfolding resume reply
  asked-NullAnswers c = record {
    answered = (run_use_once libc (Ll.Request.unique req.request) req.ch (default_use libc c)).0;
  }

  listed-NullAnswers :
      (ino fh offset size : ℕ)
      → NullAnswers libc se req libc.enosys
          (in_readdir ino fh offset (Directory.new (Ll.Request.unique req.request) req.ch size))
  unfolding resume default_listing run_listing Directory.error Directory.new Raw.error
  listed-NullAnswers ino fh offset size = record {
    answered = (consume_once libc (Ll.Request.unique req.request) req.ch libc.enosys []).0;
  }

  -- Where the arguments do not make the dispatch panic.
  attr-NullAnswers :
      (err : ℕ) (change : Option AttrChange) (t : AttrChange → Task)
      → ((change ≡ none) → ⊥)
      → ((c : AttrChange) → NullAnswers libc se req err (t c))
      → NullAnswers libc se req err (elim change [ none ↦ panic | some c ↦ t c ])
  attr-NullAnswers err none t h k = absurd (h refl)
  attr-NullAnswers err (some c) t h k = k c

  size-NullAnswers :
      (err n m : ℕ) (t : Task)
      → ((n ≢ m) → ⊥)
      → NullAnswers libc se req err t
      → NullAnswers libc se req err (if n == m then t else panic)
  size-NullAnswers err n m t h k = elim (Bool-cases (n == m)) [
    | inl same ↦ rw same k
    | inr other ↦ absurd (h (λ e. ground (arith, other, e)))
  ]

  call-NullAnswers :
      (ino : ℕ) (op : Operation)
      → IsPlain op
      → (IsSilent libc op → ⊥)
      → NullAnswers libc se req (null_error libc op) (call libc req ino op)
  unfolding call default_use
  call-NullAnswers ino (Operation.interrupt arg) p h = refuse-NullAnswers libc.enosys
  call-NullAnswers ino (Operation.forget arg) p h = absurd (h tt)
  call-NullAnswers ino (Operation.set_attr arg) p h =
      attr-NullAnswers libc.enosys (attr_change libc arg) _ h (λ c. asked-NullAnswers _)
  call-NullAnswers ino (Operation.write arg bytes) p h =
      size-NullAnswers libc.enosys (length bytes) arg.size _ h (asked-NullAnswers _)
  call-NullAnswers ino (Operation.set_x_attr arg name value) p h =
      size-NullAnswers libc.enosys (length value) arg.size _ h (asked-NullAnswers _)
  call-NullAnswers ino (Operation.read_dir arg) p h =
      listed-NullAnswers ino arg.fh arg.offset arg.size
  call-NullAnswers ino (Operation.init arg) p h = elim p [ ]
  call-NullAnswers ino Operation.destroy p h = elim p [ ]
  call-NullAnswers ino _ p h = asked-NullAnswers _

-- The status that the null filesystem sends: the checks of the session come first.
abbrev pub null_status : Libc → Session → Operation → ℕ
null_status libc se (Operation.init arg) = if is_unsupported arg then libc.eproto else 0
null_status libc se Operation.destroy = if se.initialized then 0 else libc.eio
null_status libc se op = if se.initialized && not se.destroyed then null_error libc op else libc.eio

module _ (libc : Libc) (se : Session) (req : Request) where
  abbrev Begins : Operation → Type 0
  Begins op =
      NullAnswers libc (begin_operation libc se req op).0 req (null_status libc se op)
        (begin_operation libc se req op).1

  init-Begins : (arg : FuseInitIn) → Begins (Operation.init arg)
  unfolding begin_operation begin_init resume resume_init reply default_init
  init-Begins arg = elim (Bool-cases (is_unsupported arg)) [
    | inl old ↦ rw old (refuse-NullAnswers libc _ req libc.eproto)
    | inr supported ↦ rw supported (record {
      answered =
          (ok_once libc (Ll.Request.unique req.request) req.ch init_out_repr (init_out arg)).0;
    })
  ]

  destroy-Begins : Begins Operation.destroy
  unfolding begin_operation begin_guarded resume reply
  destroy-Begins = elim (Bool-cases se.initialized) [
    | inl ready ↦
        rw ready
          (record { answered = (consume_once libc (Ll.Request.unique req.request) req.ch 0 []).0 })
    | inr early ↦ rw early (refuse-NullAnswers libc _ req libc.eio)
  ]

  plain-Begins :
      (op : Operation)
      → IsPlain op
      → (IsSilent libc op → ⊥)
      → is_destroy op ≡ false
      → NullAnswers libc
          (begin_guarded libc se req op).0
          req
          (if se.initialized && not se.destroyed then null_error libc op else libc.eio)
          (begin_guarded libc se req op).1
  unfolding begin_guarded
  plain-Begins op p h d = elim (Bool-cases se.initialized) [
    | inr early ↦ rw early (refuse-NullAnswers libc _ req libc.eio)
    | inl ready ↦ elim (Bool-cases se.destroyed) [
      | inl late ↦ rw (ready, d, late) (refuse-NullAnswers libc _ req libc.eio)
      | inr serving ↦
          rw (ready, d, serving)
            (call-NullAnswers libc _ req (Ll.Request.nodeid req.request) op p h)
    ]
  ]

  operation-Begins : (op : Operation) → (IsSilent libc op → ⊥) → Begins op
  unfolding begin_operation
  operation-Begins (Operation.init arg) h = init-Begins arg
  operation-Begins Operation.destroy h = destroy-Begins
  operation-Begins op h = plain-Begins op tt h refl

-- Whatever the session's state, the null filesystem answers the packet of any well-formed request that is
-- not a forget, and whose arguments do not make the dispatch panic, with one message. An init
-- succeeds if its version is supported, and gets a protocol error if not. A destroy succeeds if the session
-- is initialized, also if it is destroyed already, and gets an I/O error if not. Any other request gets an
-- I/O error if the session is not initialized or is destroyed; if not, open, opendir, release, releasedir
-- and statfs succeed, and all else is not implemented.
pub null_answers :
    (libc : Libc) (ch : ChannelSender) (se : Session) (r : Ll.Request.Request)
    → Sent r
    → (IsSilent libc r.operation → ⊥)
    → (last : Session) × (sent : List Message) × (converse null_fs libc ch se (packet r [] ∷ [])
        ≡ some (last, sent))
      × IsAnswered ch r.header.unique (null_status libc se r.operation) sent
unfolding converse dispatch begin Ll.Request.unique
null_answers libc ch se r s h =
    let req : Request = request_on ch r in
    let (last, o) = dispatch null_fs libc se req in
    (
      last,
      o.sent,
      converse-packet null_fs libc ch se last last o r [] [] s refl refl
          ∙ ap (λ ms. some (last, ms)) (append-nil o.sent),
      (operation-Begins libc se req r.operation h).answered,
    )
