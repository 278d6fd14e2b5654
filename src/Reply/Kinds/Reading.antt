-- ===== src/Reply/Kinds/Reading.antt =====
-- What the kernel reads from a reply with attributes (src/reply.rs).
use async_fuse_rs.Prelude.{
  ℕ, ◌+◌, ◌<◌, ◌≡◌, refl, ap, ◌∙◌, arith, false, ◌==◌, some, List, [], ◌∷◌, append-nil, length,
}
use async_fuse_rs.Bytes.{Bytes, u32_mod, u64_mod}
use async_fuse_rs.Abi.Layout.{Repr, size_of, Fits, encode, decode}
use async_fuse_rs.Abi.Layout.Laws.{length-encode, decode-encode}
use async_fuse_rs.Abi.Replies.{FuseAttr, FuseOutHeader, FuseEntryOut, entry_out_repr, attr_out_repr}
use async_fuse_rs.Libc.{Libc}
use async_fuse_rs.FileAttr.{FileAttr, Duration, after_epoch}
use async_fuse_rs.Channel.{ChannelSender, Message}
use async_fuse_rs.Reply.Raw
use async_fuse_rs.Reply.Raw.{Outcome, new, as_bytes, consume}
use async_fuse_rs.Reply.Raw.Once.{
  flat, read_reply, reply_message, consume-new, read_reply-reply_message,
}
use async_fuse_rs.Reply.Attr.{
  attr_with, fuse_attr_from_attr, mode_from_kind_and_perm, time_from_system_time,
}
use async_fuse_rs.Reply.Kinds.{
  entry, attr, created, answer, with_attr, run_answer, run_use, entry_out, attr_out, open_out,
  create_out, created_repr,
}

-- One message goes out, with no error, and behind its header the kernel reads this value.
abbrev pub Reads : {T : Type 0} → ℕ → ChannelSender → Repr T → T → List Message → Type 0
Reads unique s repr value sent =
    (m : Message) × (sent ≡ m ∷ [])
    × (m.fd ≡ s.fd)
    × ((read_reply (flat m.slices)).0
        ≡ record { len = length (flat m.slices); error = 0; unique = unique })
    × (decode repr (read_reply (flat m.slices)).1 ≡ value)

-- One message goes out, with no error, and these bytes stand behind its header.
abbrev pub ReadsBytes : ℕ → ChannelSender → Bytes → List Message → Type 0
ReadsBytes unique s body sent =
    (m : Message) × (sent ≡ m ∷ [])
    × (m.fd ≡ s.fd)
    × (read_reply (flat m.slices)
        ≡ (record { len = length (flat m.slices); error = 0; unique = unique }, body))

-- The times of the attributes, from the epoch on.
pub record Times (a : FileAttr) : Type 0 where
  pub atime : Duration
  pub mtime : Duration
  pub ctime : Duration
  pub atime_same : a.atime ≡ after_epoch atime
  pub mtime_same : a.mtime ≡ after_epoch mtime
  pub ctime_same : a.ctime ≡ after_epoch ctime

abbrev pub IsDuration : Duration → Type 0
IsDuration d = (d.secs < u64_mod) × (d.nanos < u32_mod)

-- The numbers are those of Rust's types.
pub record IsFileAttr (libc : Libc) (a : FileAttr) (t : Times a) : Type 0 where
  pub wide : (a.ino < u64_mod) × (a.size < u64_mod) × (a.blocks < u64_mod)
  pub times : IsDuration t.atime × IsDuration t.mtime × IsDuration t.ctime
  pub mode : mode_from_kind_and_perm libc a.kind a.perm < u32_mod
  pub narrow : (a.nlink < u32_mod) × (a.uid < u32_mod) × (a.gid < u32_mod) × (a.rdev < u32_mod)

-- The kernel's struct says what the attributes say.
pub record Tells (libc : Libc) (a : FileAttr) (f : FuseAttr) : Type 0 where
  pub numbers : (f.ino ≡ a.ino) × (f.size ≡ a.size) × (f.blocks ≡ a.blocks)
  pub owners : (f.nlink ≡ a.nlink) × (f.uid ≡ a.uid) × (f.gid ≡ a.gid) × (f.rdev ≡ a.rdev)
  pub mode : f.mode ≡ mode_from_kind_and_perm libc a.kind a.perm
  pub atime : a.atime ≡ after_epoch (record { secs = f.atime; nanos = f.atimensec })
  pub mtime : a.mtime ≡ after_epoch (record { secs = f.mtime; nanos = f.mtimensec })
  pub ctime : a.ctime ≡ after_epoch (record { secs = f.ctime; nanos = f.ctimensec })

module _ (libc : Libc) (a : FileAttr) (t : Times a) where
  abbrev told : FuseAttr
  told =
      attr_with libc a (t.atime.secs, t.atime.nanos) (t.mtime.secs, t.mtime.nanos)
        (t.ctime.secs, t.ctime.nanos)

  told-Tells : Tells libc a told
  unfolding attr_with
  told-Tells = record {
    numbers = (refl, refl, refl);
    owners = (refl, refl, refl, refl);
    mode = refl;
    atime = t.atime_same;
    mtime = t.mtime_same;
    ctime = t.ctime_same;
  }

  told_lem : fuse_attr_from_attr libc a ≡ some told
  unfolding fuse_attr_from_attr time_from_system_time
  told_lem = rw (t.atime_same, t.mtime_same, t.ctime_same) refl

-- What a reply with an entry should tell.
abbrev pub entry_read : Duration → FileAttr → FuseAttr → ℕ → FuseEntryOut
entry_read ttl a f generation = record {
  nodeid = a.ino;
  generation = generation;
  entry_valid = ttl.secs;
  attr_valid = ttl.secs;
  entry_valid_nsec = ttl.nanos;
  attr_valid_nsec = ttl.nanos;
  attr = f;
}

module _ (libc : Libc) (unique : ℕ) (s : ChannelSender) where
  pub consume-Reads :
      {T : Type 0} (repr : Repr T) (value : T)
      → unique < u64_mod
      → 16 + size_of repr < u32_mod
      → Fits repr value
      → Reads unique s repr value (consume libc (new unique s) 0 (encode repr value ∷ [])).sent
  unfolding reply_message
  consume-Reads repr value hu hs hf =
      let body : List Bytes = encode repr value ∷ [] in
      let short : 16 + length (flat body) < u32_mod =
        omega (arith, hs, ap length (append-nil (encode repr value)), length-encode repr value) in
      let read = read_reply-reply_message s.fd unique 0 body hu short in
      (
        reply_message s.fd unique 0 body,
        ap (λ (o : Outcome). o.sent) (consume-new libc unique s 0 body short),
        refl,
        ap (λ x. x.0) read,
        ap (decode repr) (ap (λ x. x.1) read ∙ append-nil (encode repr value))
            ∙ decode-encode repr value hf,
      )

  pub consume-ReadsBytes :
      (bytes : Bytes)
      → unique < u64_mod
      → 16 + length bytes < u32_mod
      → ReadsBytes unique s bytes (consume libc (new unique s) 0 (bytes ∷ [])).sent
  unfolding reply_message
  consume-ReadsBytes bytes hu hb =
      let body : List Bytes = bytes ∷ [] in
      let short : 16 + length (flat body) < u32_mod =
        omega (arith, hb, ap length (append-nil bytes)) in
      let header : FuseOutHeader = record {
        len = length (flat (reply_message s.fd unique 0 body).slices);
        error = 0;
        unique = unique;
      } in
      (
        reply_message s.fd unique 0 body,
        ap (λ (o : Outcome). o.sent) (consume-new libc unique s 0 body short),
        refl,
        read_reply-reply_message s.fd unique 0 body hu short
            ∙ ap (λ (b : Bytes). (header, b)) (append-nil bytes),
      )

  -- A reply whose attributes have no time before the epoch.
  with_attr-Reads :
      {T : Type 0} (repr : Repr T) (a : FileAttr) (t : Times a) (make : FuseAttr → T)
      → unique < u64_mod
      → (size_of repr == 0) ≡ false
      → 16 + size_of repr < u32_mod
      → Fits repr (make (told libc a t))
      → Reads unique s repr (make (told libc a t)) (with_attr libc (new unique s) repr a make).sent
  unfolding with_attr Raw.ok as_bytes
  with_attr-Reads repr a t make hu hz hs hf =
      rw (told_lem libc a t, with_attr, hz) (consume-Reads repr (make (told libc a t)) hu hs hf)

  -- If the attributes hold no time before the epoch and all numbers are those of Rust's types, the replies
  -- entry, attr and created each send one message with no error, from which the kernel reads the times to
  -- live, the inode, the generation, the handle and the flags that the filesystem passed, and a struct that
  -- tells its attributes.
  pub attributes-Reads :
      (ttl : Duration) (a : FileAttr) (t : Times a) (generation fh flags : ℕ)
      → unique < u64_mod
      → IsDuration ttl
      → IsFileAttr libc a t
      → (generation < u64_mod) × (fh < u64_mod) × (flags < u32_mod)
      → (f : FuseAttr) × Tells libc a f
        × Reads unique s attr_out_repr
            (record { attr_valid = ttl.secs; attr_valid_nsec = ttl.nanos; dummy = 0; attr = f })
            (run_use libc (new unique s) (answer (attr ttl a))).sent
        × Reads unique s entry_out_repr
            (entry_read ttl a f generation)
            (run_use libc (new unique s) (answer (entry ttl a generation))).sent
        × Reads unique s created_repr
            (entry_read ttl a f generation, record { fh = fh; open_flags = flags; padding = 0 })
            (run_use libc (new unique s) (answer (created ttl a generation fh flags))).sent
  unfolding run_use run_answer attr_out entry_out create_out open_out attr_with
  attributes-Reads ttl a t generation fh flags hu hd ha hn = (
    told libc a t,
    told-Tells libc a t,
    with_attr-Reads attr_out_repr a t (attr_out ttl) hu refl (omega arith) (omega arith),
    with_attr-Reads entry_out_repr a t (entry_out ttl a generation) hu refl (omega arith)
        (omega arith),
    with_attr-Reads created_repr a t (create_out ttl a generation fh flags) hu refl (omega arith)
        (omega arith),
  )
