-- ===== src/Reply/Kinds/Exactly.antt =====
-- The messages of each use of a typed reply object (src/reply.rs).
use async_fuse_rs.Prelude.{
  ℕ, ◌≡◌, refl, ap, Bool, true, false, ◌||◌, ◌⊎◌, inl, inr, if◌then◌else◌, none, some, List, [],
  ◌∷◌,
}
use async_fuse_rs.Bytes.{Bytes}
use async_fuse_rs.Abi.Layout.{Repr}
use async_fuse_rs.Abi.Replies.{
  FuseAttr, entry_out_repr, attr_out_repr, open_out_repr, write_out_repr, statfs_out_repr,
  lk_out_repr, bmap_out_repr, getxattr_out_repr,
}
use async_fuse_rs.Libc.{Libc}
use async_fuse_rs.FileAttr.{FileAttr, SystemTime, after_epoch, before_epoch}
use async_fuse_rs.Channel.{ChannelSender, Message}
use async_fuse_rs.Reply.Raw
use async_fuse_rs.Reply.Raw.{ReplyRaw, Outcome, new, as_bytes, consume, unwind, forsake}
use async_fuse_rs.Reply.Raw.Once.{raw_message, consume_raw, drop_raw}
use async_fuse_rs.Reply.Attr.{attr_with, fuse_attr_from_attr, time_from_system_time}
use async_fuse_rs.Reply.Kinds.{
  Kind, Use, ok, bytes, entry, attr, opened, written, statfs, created, locked, bmap, size, xattr,
  entry_out, attr_out, open_out, write_out, statfs_out, create_out, lk_out, bmap_out, xattr_out,
  created_repr, answer, error, dropped, panics, with_attr, run_answer, run_error, run_use,
}

abbrev is_before : SystemTime → Bool
is_before (after_epoch _) = false
is_before (before_epoch _) = true

-- A time of the attributes lies before the epoch.
abbrev pub is_old : FileAttr → Bool
is_old a = is_before a.atime || is_before a.mtime || is_before a.ctime

-- The answer cannot be written down, since it holds such a time, or the method panics itself.
abbrev pub is_unsendable : {k : Kind} → Use k → Bool
is_unsendable (answer (entry _ a _)) = is_old a
is_unsendable (answer (attr _ a)) = is_old a
is_unsendable (answer (created _ a _ _ _)) = is_old a
is_unsendable panics = true
is_unsendable _ = false

-- The error that goes to the kernel.
abbrev pub error_of : {k : Kind} → Libc → Use k → ℕ
error_of libc (answer a) = if is_unsendable (answer a) then libc.eio else 0
error_of libc (error err) = err
error_of libc dropped = libc.eio
error_of libc panics = libc.eio

-- One message went out, to answer `unique` with error `err`.
abbrev pub IsAnswered : ChannelSender → ℕ → ℕ → List Message → Type 0
IsAnswered s unique err sent =
    (payload : List Bytes) × (sent ≡ raw_message s.fd unique err payload ∷ [])

Time-cases :
    (t : SystemTime)
    → ((is_before t ≡ true) × (time_from_system_time t ≡ none))
      ⊎ ((is_before t ≡ false) × ((p : ℕ × ℕ) × (time_from_system_time t ≡ some p)))
unfolding time_from_system_time
Time-cases (after_epoch d) = inr (refl, ((d.secs, d.nanos), refl))
Time-cases (before_epoch d) = inl (refl, refl)

fuse_attr_from_attr-cases :
    (libc : Libc) (a : FileAttr)
    → ((is_old a ≡ true) × (fuse_attr_from_attr libc a ≡ none))
      ⊎ ((is_old a ≡ false) × ((f : FuseAttr) × (fuse_attr_from_attr libc a ≡ some f)))
unfolding fuse_attr_from_attr
fuse_attr_from_attr-cases libc a = elim (Time-cases a.atime) [
  | inl (old, failed) ↦ inl (rw old refl, rw (failed, fuse_attr_from_attr) refl)
  | inr (fresh, (p, converted)) ↦ elim (Time-cases a.mtime) [
    | inl (old, failed) ↦
        inl (rw (fresh, old) refl, rw (converted, failed, fuse_attr_from_attr) refl)
    | inr (fresh', (p', converted')) ↦ elim (Time-cases a.ctime) [
      | inl (old, failed) ↦ inl (
        rw (fresh, fresh', old) refl,
        rw (converted, converted', failed, fuse_attr_from_attr) refl,
      )
      | inr (fresh'', (p'', converted'')) ↦ inr (
        rw (fresh, fresh', fresh'') refl,
        (
          attr_with libc a p p' p'',
          rw (converted, converted', converted'', fuse_attr_from_attr) refl,
        ),
      )
    ]
  ]
]

-- The method `error` is the same for all types.
pub run_error_lem :
    (k : Kind) (libc : Libc) (r : ReplyRaw) (err : ℕ)
    → run_error k libc r err ≡ Raw.error libc r err
unfolding run_error
run_error_lem Kind.empty_kind libc r err = refl
run_error_lem _ libc r err = refl

module _ (libc : Libc) (unique : ℕ) (s : ChannelSender) where
  with_attr_once :
      {T : Type 0} (repr : Repr T) (a : FileAttr) (make : FuseAttr → T)
      → IsAnswered s unique
          (if is_old a then libc.eio else 0)
          (with_attr libc (new unique s) repr a make).sent
        × ((with_attr libc (new unique s) repr a make).panicked ≡ is_old a)
  unfolding with_attr new
  with_attr_once repr a make = elim (fuse_attr_from_attr-cases libc a) [
    | inl (old, failed) ↦ rw (old, failed, with_attr) ((_, drop_raw libc unique s), refl)
    | inr (fresh, (f, converted)) ↦
        rw (fresh, converted, with_attr)
          (
            (
              _,
              ap (λ (o : Outcome). o.sent) (consume_raw libc unique s 0 (as_bytes repr (make f))),
            ),
            refl,
          )
  ]

  pub ok_once :
      {T : Type 0} (repr : Repr T) (value : T)
      → IsAnswered s unique 0 (Raw.ok libc repr (new unique s) value).sent
        × ((Raw.ok libc repr (new unique s) value).panicked ≡ false)
  unfolding Raw.ok new consume
  ok_once repr value =
      ((_, ap (λ (o : Outcome). o.sent) (consume_raw libc unique s 0 (as_bytes repr value))), refl)

  pub consume_once :
      (err : ℕ) (payload : List Bytes)
      → IsAnswered s unique err (consume libc (new unique s) err payload).sent
        × ((consume libc (new unique s) err payload).panicked ≡ false)
  unfolding new consume
  consume_once err payload =
      ((payload, ap (λ (o : Outcome). o.sent) (consume_raw libc unique s err payload)), refl)

  -- Whatever is done with a fresh reply object, exactly one message goes out: it answers the request of
  -- the object, with the error that the use stands for, an I/O error where the object is dropped,
  -- where the method panics, or where its attributes hold a time before the epoch. Only the last two panic.
  pub run_use_once :
      {k : Kind} (u : Use k)
      → IsAnswered s unique (error_of libc u) (run_use libc (new unique s) u).sent
        × ((run_use libc (new unique s) u).panicked ≡ is_unsendable u)
  unfolding run_use run_answer unwind
  run_use_once (answer ok) = consume_once 0 []
  run_use_once (answer (bytes b)) = consume_once 0 (b ∷ [])
  run_use_once (answer (entry ttl a generation)) =
      with_attr_once entry_out_repr a (entry_out ttl a generation)
  run_use_once (answer (attr ttl a)) = with_attr_once attr_out_repr a (attr_out ttl)
  run_use_once (answer (opened fh flags)) = ok_once open_out_repr (open_out fh flags)
  run_use_once (answer (written n)) = ok_once write_out_repr (write_out n)
  run_use_once (answer (statfs b bf ba f ff bs n fr)) =
      ok_once statfs_out_repr (statfs_out b bf ba f ff bs n fr)
  run_use_once (answer (created ttl a generation fh flags)) =
      with_attr_once created_repr a (create_out ttl a generation fh flags)
  run_use_once (answer (locked start end typ pid)) = ok_once lk_out_repr (lk_out start end typ pid)
  run_use_once (answer (bmap block)) = ok_once bmap_out_repr (bmap_out block)
  run_use_once (answer (size n)) = ok_once getxattr_out_repr (xattr_out n)
  run_use_once (answer (xattr b)) = consume_once 0 (b ∷ [])
  run_use_once {k} (error err) =
      rw (run_error_lem k libc (new unique s) err, Raw.error) (consume_once err [])
  run_use_once dropped = (([], drop_raw libc unique s), refl)
  run_use_once panics = (([], drop_raw libc unique s), refl)
