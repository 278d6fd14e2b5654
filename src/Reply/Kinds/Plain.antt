-- ===== src/Reply/Kinds/Plain.antt =====
-- What the kernel reads from a reply without attributes (src/reply.rs).
use async_fuse_rs.Prelude.{ℕ, ◌+◌, ◌<◌, ◌≡◌, arith, refl, List, [], ◌∷◌, length}
use async_fuse_rs.Bytes.{u32_mod, u64_mod, neg_i32}
use async_fuse_rs.Abi.Replies.{
  open_out_repr, write_out_repr, statfs_out_repr, lk_out_repr, bmap_out_repr, getxattr_out_repr,
}
use async_fuse_rs.Libc.{Libc}
use async_fuse_rs.Channel.{ChannelSender, Message}
use async_fuse_rs.Reply.Raw
use async_fuse_rs.Reply.Raw.{Outcome, new, as_bytes, consume}
use async_fuse_rs.Reply.Raw.Once.{
  flat, read_reply, reply_message, consume-new, drop-new, read_reply-reply_message,
}
use async_fuse_rs.Reply.Kinds.{
  Kind, Answer, ok, bytes, entry, attr, opened, written, statfs, created, locked, bmap, size, xattr,
  Use, answer, error, dropped, panics, run_answer, run_use, open_out, write_out, statfs_out, lk_out,
  bmap_out, xattr_out,
}
use async_fuse_rs.Reply.Kinds.Exactly.{run_error_lem}
use async_fuse_rs.Reply.Kinds.Reading.{Reads, ReadsBytes, consume-Reads, consume-ReadsBytes}

-- An answer without attributes, whose numbers are those of Rust's types, and whose bytes fit a message.
abbrev pub IsPlainAnswer : {k : Kind} → Answer k → Type 0
IsPlainAnswer ok = Unit
IsPlainAnswer (bytes b) = 16 + length b < u32_mod
IsPlainAnswer (entry _ _ _) = ⊥
IsPlainAnswer (attr _ _) = ⊥
IsPlainAnswer (opened fh flags) = (fh < u64_mod) × (flags < u32_mod)
IsPlainAnswer (written n) = n < u32_mod
IsPlainAnswer (statfs blocks bfree bavail files ffree bsize namelen frsize) =
    (blocks < u64_mod)
    × (bfree < u64_mod)
    × (bavail < u64_mod)
    × (files < u64_mod)
    × (ffree < u64_mod)
    × (bsize < u32_mod)
    × (namelen < u32_mod)
    × (frsize < u32_mod)
IsPlainAnswer (created _ _ _ _ _) = ⊥
IsPlainAnswer (locked start end typ pid) =
    (start < u64_mod) × (end < u64_mod) × (typ < u32_mod) × (pid < u32_mod)
IsPlainAnswer (bmap block) = block < u64_mod
IsPlainAnswer (size n) = n < u32_mod
IsPlainAnswer (xattr b) = 16 + length b < u32_mod

-- What the kernel should read.
abbrev pub Tells : {k : Kind} → ℕ → ChannelSender → Answer k → List Message → Type 0
Tells unique s ok sent = ReadsBytes unique s [] sent
Tells unique s (bytes b) sent = ReadsBytes unique s b sent
Tells unique s (opened fh flags) sent =
    Reads unique s open_out_repr (record { fh = fh; open_flags = flags; padding = 0 }) sent
Tells unique s (written n) sent =
    Reads unique s write_out_repr (record { size = n; padding = 0 }) sent
Tells unique s (statfs blocks bfree bavail files ffree bsize namelen frsize) sent =
    Reads unique s statfs_out_repr
      (record {
        st = record {
          blocks = blocks;
          bfree = bfree;
          bavail = bavail;
          files = files;
          ffree = ffree;
          bsize = bsize;
          namelen = namelen;
          frsize = frsize;
          padding = 0;
          spare = (0, 0, 0, 0, 0, 0);
        };
      })
      sent
Tells unique s (locked start end typ pid) sent =
    Reads unique s lk_out_repr
      (record { lk = record { start = start; end = end; typ = typ; pid = pid } }) sent
Tells unique s (bmap block) sent = Reads unique s bmap_out_repr (record { block = block }) sent
Tells unique s (size n) sent =
    Reads unique s getxattr_out_repr (record { size = n; padding = 0 }) sent
Tells unique s (xattr b) sent = ReadsBytes unique s b sent
Tells unique s (entry _ _ _) sent = ⊥
Tells unique s (attr _ _) sent = ⊥
Tells unique s (created _ _ _ _ _) sent = ⊥

-- One message goes out, with this error and nothing behind the header.
abbrev pub Refused : ℕ → ChannelSender → ℕ → List Message → Type 0
Refused unique s err sent =
    (m : Message) × (sent ≡ m ∷ [])
    × (m.fd ≡ s.fd)
    × (read_reply (flat m.slices)
        ≡ (record { len = length (flat m.slices); error = neg_i32 err; unique = unique }, []))

abbrev pub IsPlainUse : {k : Kind} → Use k → Type 0
IsPlainUse (answer a) = IsPlainAnswer a
IsPlainUse (error _) = Unit
IsPlainUse dropped = Unit
IsPlainUse panics = Unit

abbrev pub UseTells : {k : Kind} → Libc → ℕ → ChannelSender → Use k → List Message → Type 0
UseTells libc unique s (answer a) sent = Tells unique s a sent
UseTells libc unique s (error err) sent = Refused unique s err sent
UseTells libc unique s dropped sent = Refused unique s libc.eio sent
UseTells libc unique s panics sent = Refused unique s libc.eio sent

module _ (libc : Libc) (unique : ℕ) (s : ChannelSender) where
  message-Refused :
      (err : ℕ) → unique < u64_mod → Refused unique s err (reply_message s.fd unique err [] ∷ [])
  unfolding reply_message
  message-Refused err hu = (
    reply_message s.fd unique err [],
    refl,
    refl,
    read_reply-reply_message s.fd unique err [] hu (omega arith),
  )

  consume-Refused :
      (err : ℕ) → unique < u64_mod → Refused unique s err (consume libc (new unique s) err []).sent
  consume-Refused err hu =
      rw (consume-new libc unique s err [] (omega arith)) (message-Refused err hu)

  answer-Tells :
      {k : Kind} (a : Answer k)
      → unique < u64_mod
      → IsPlainAnswer a
      → Tells unique s a (run_use libc (new unique s) (answer a)).sent
  unfolding run_use run_answer Raw.ok as_bytes open_out write_out statfs_out lk_out bmap_out
      xattr_out
  answer-Tells ok hu h = (consume-Refused 0 hu)
  answer-Tells (bytes b) hu h = consume-ReadsBytes libc unique s b hu h
  answer-Tells (opened fh flags) hu h =
      consume-Reads libc unique s open_out_repr (open_out fh flags) hu (omega arith) (omega arith)
  answer-Tells (written n) hu h =
      consume-Reads libc unique s write_out_repr (write_out n) hu (omega arith) (omega arith)
  answer-Tells (statfs blocks bfree bavail files ffree bsize namelen frsize) hu h =
      consume-Reads libc unique s statfs_out_repr
        (statfs_out blocks bfree bavail files ffree bsize namelen frsize) hu (omega arith)
        (omega arith)
  answer-Tells (locked start end typ pid) hu h =
      consume-Reads libc unique s lk_out_repr (lk_out start end typ pid) hu (omega arith)
        (omega arith)
  answer-Tells (bmap block) hu h =
      consume-Reads libc unique s bmap_out_repr (bmap_out block) hu (omega arith) (omega arith)
  answer-Tells (size n) hu h =
      consume-Reads libc unique s getxattr_out_repr (xattr_out n) hu (omega arith) (omega arith)
  answer-Tells (xattr b) hu h = consume-ReadsBytes libc unique s b hu h
  answer-Tells (entry _ _ _) hu h = elim h [ ]
  answer-Tells (attr _ _) hu h = elim h [ ]
  answer-Tells (created _ _ _ _ _) hu h = elim h [ ]

  -- From an answer without attributes, whose numbers are those of Rust's types and whose bytes fit a message,
  -- the kernel reads no error and the numbers in the fields of their struct, or the bytes; from an
  -- error, that error negated and nothing else; and an I/O error if the reply object is dropped or the method
  -- panics. Each time one message goes out.
  pub plain-UseTells :
      {k : Kind} (u : Use k)
      → unique < u64_mod
      → IsPlainUse u
      → UseTells libc unique s u (run_use libc (new unique s) u).sent
  unfolding run_use Raw.error
  plain-UseTells (answer a) hu h = answer-Tells a hu h
  plain-UseTells {k} (error err) hu h =
      rw (run_error_lem k libc (new unique s) err, Raw.error) (consume-Refused err hu)
  plain-UseTells dropped hu h = rw (drop-new libc unique s) (message-Refused libc.eio hu)
  plain-UseTells panics hu h = rw (drop-new libc unique s) (message-Refused libc.eio hu)
