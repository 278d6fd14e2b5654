-- ===== src/Request/Guards.antt =====
-- When a method of the filesystem is called, by the flags of the session (src/request.rs).
use async_fuse_rs.Prelude.{
  ℕ, ◌≡◌, refl, Bool, true, false, Bool-cases, Option, none, some, inl, inr, length, ◌==◌,
  if◌then◌else◌,
}
use async_fuse_rs.Libc.{Libc}
use async_fuse_rs.Session.{Session}
use async_fuse_rs.Ll
use async_fuse_rs.Ll.Operation.{Operation}
use async_fuse_rs.Abi.FileRequests.{FuseInitIn}
use async_fuse_rs.Filesystem.{AttrChange}
use async_fuse_rs.Request.Task.{
  Request, Task, in_init, in_destroy, in_call, in_readdir, in_forget, finished,
}
use async_fuse_rs.Request.Begin.{
  refuse, panic, call, begin_init, begin_guarded, begin_operation, begin, is_unsupported,
  is_destroy,
}
use async_fuse_rs.Request.Begin.Arguments.{attr_change}

abbrev pub IsServing : Bool → Bool → Type 0
IsServing initialized destroyed = (initialized ≡ true) × (destroyed ≡ false)

-- The flags, `initialized` and `destroyed`, under which a dispatch may come to call this method.
abbrev pub Allowed : Bool → Bool → Task → Type 0
Allowed i d (in_init _ _) = Unit
Allowed i d (in_destroy _) = i ≡ true
Allowed i d (in_call _ _) = IsServing i d
Allowed i d (in_readdir _ _ _ _) = IsServing i d
Allowed i d (in_forget _ _) = IsServing i d
Allowed i d (finished _) = Unit

attr-Allowed :
    (i d : Bool) (change : Option AttrChange) (t : AttrChange → Task)
    → ((c : AttrChange) → Allowed i d (t c))
    → Allowed i d (elim change [ none ↦ panic | some c ↦ t c ])
attr-Allowed i d none t h = tt
attr-Allowed i d (some c) t h = h c

size-Allowed :
    (i d : Bool) (b : Bool) (t : Task) → Allowed i d t → Allowed i d (if b then t else panic)
size-Allowed i d true t h = h
size-Allowed i d false t h = tt

call-Allowed :
    (libc : Libc) (i d : Bool) (req : Request) (ino : ℕ) (op : Operation)
    → IsServing i d
    → Allowed i d (call libc req ino op)
unfolding call refuse
call-Allowed libc i d req ino (Operation.interrupt arg) h = tt
call-Allowed libc i d req ino (Operation.set_attr arg) h =
    attr-Allowed i d (attr_change libc arg) _ (λ c. h)
call-Allowed libc i d req ino (Operation.write arg bytes) h =
    size-Allowed i d (length bytes == arg.size) _ h
call-Allowed libc i d req ino (Operation.set_x_attr arg name value) h =
    size-Allowed i d (length value == arg.size) _ h
call-Allowed libc i d req ino (Operation.init arg) h = tt
call-Allowed libc i d req ino Operation.destroy h = tt
call-Allowed libc i d req ino _ h = h

guarded-Allowed :
    (libc : Libc) (se : Session) (req : Request) (op : Operation)
    → Allowed se.initialized se.destroyed (begin_guarded libc se req op).1
unfolding begin_guarded refuse
guarded-Allowed libc se req op = elim (Bool-cases se.initialized) [
  | inr early ↦ rw early tt
  | inl ready ↦ elim (Bool-cases (is_destroy op)) [
    | inl last ↦ rw (ready, last) refl
    | inr other ↦ elim (Bool-cases se.destroyed) [
      | inl late ↦ rw (ready, other, late) tt
      | inr serving ↦
          rw (ready, other, serving)
            (call-Allowed libc true false req (Ll.Request.nodeid req.request) op (refl, refl))
    ]
  ]
]

init-Allowed :
    (libc : Libc) (se : Session) (req : Request) (arg : FuseInitIn)
    → Allowed se.initialized se.destroyed (begin_init libc se req arg).1
unfolding begin_init refuse
init-Allowed libc se req arg = elim (Bool-cases (is_unsupported arg)) [
  | inl old ↦ rw old tt
  | inr supported ↦ rw supported tt
]

operation-Allowed :
    (libc : Libc) (se : Session) (req : Request) (op : Operation)
    → Allowed se.initialized se.destroyed (begin_operation libc se req op).1
unfolding begin_operation
operation-Allowed libc se req (Operation.init arg) = init-Allowed libc se req arg
operation-Allowed libc se req op = guarded-Allowed libc se req op

-- A dispatch calls `destroy` only if the session is initialized, and any other method but `init` only if
-- the session is initialized and not destroyed.
pub begin-Allowed :
    (libc : Libc) (se : Session) (req : Request)
    → Allowed se.initialized se.destroyed (begin libc se req).1
unfolding begin
begin-Allowed libc se req = operation-Allowed libc se req req.request.operation
