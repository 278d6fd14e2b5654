-- ===== src/Reply/Macos/Reading.antt =====
-- What the kernel of macOS reads from a reply with attributes or times (src/reply.rs).
use async_fuse_rs.Prelude.{ℕ, ◌+◌, ◌<◌, ◌≡◌, refl, arith, ◌==◌, false, some}
use async_fuse_rs.Bytes.{u32_mod, u64_mod}
use async_fuse_rs.Libc.{Libc}
use async_fuse_rs.Channel.{ChannelSender}
use async_fuse_rs.FileAttr.{FileAttr, Duration, after_epoch}
use async_fuse_rs.Abi.Layout.{Repr, size_of, Fits}
use async_fuse_rs.Abi.Macos.{
  MacosAttr, MacosEntryOut, macos_entry_out_repr, macos_attr_out_repr, macos_created_repr,
  getxtimes_out_repr,
}
use async_fuse_rs.Reply.Raw
use async_fuse_rs.Reply.Raw.{new, as_bytes}
use async_fuse_rs.Reply.Attr.{time_from_system_time, mode_from_kind_and_perm}
use async_fuse_rs.Reply.Typed.{open_out}
use async_fuse_rs.Reply.Kinds.Reading.{Reads, Times, IsDuration, IsFileAttr, consume-Reads}
use async_fuse_rs.Reply.Macos.{
  macos_attr_with, macos_attr_from_attr, macos_entry_out, macos_attr_out, macos_create_out,
  xtimes_out, ok_or_unwind, macos_entry_entry, macos_attr_attr, macos_create_created, xtimes_xtimes,
}

-- The struct of macOS says what the attributes say, the time of creation and the flags too.
pub record MacosTells (libc : Libc) (a : FileAttr) (f : MacosAttr) : Type 0 where
  pub numbers : (f.ino ≡ a.ino) × (f.size ≡ a.size) × (f.blocks ≡ a.blocks)
  pub owners :
      (f.nlink ≡ a.nlink)
      × (f.uid ≡ a.uid)
      × (f.gid ≡ a.gid)
      × (f.rdev ≡ a.rdev)
      × (f.flags ≡ a.flags)
  pub mode : f.mode ≡ mode_from_kind_and_perm libc a.kind a.perm
  pub atime : a.atime ≡ after_epoch (record { secs = f.atime; nanos = f.atimensec })
  pub mtime : a.mtime ≡ after_epoch (record { secs = f.mtime; nanos = f.mtimensec })
  pub ctime : a.ctime ≡ after_epoch (record { secs = f.ctime; nanos = f.ctimensec })
  pub crtime : a.crtime ≡ after_epoch (record { secs = f.crtime; nanos = f.crtimensec })

module _ (libc : Libc) (a : FileAttr) (t : Times a) (c : Duration) where
  abbrev macos_told : MacosAttr
  macos_told =
      macos_attr_with libc a (t.atime.secs, t.atime.nanos) (t.mtime.secs, t.mtime.nanos)
        (t.ctime.secs, t.ctime.nanos) (c.secs, c.nanos)

  macos_told-MacosTells : a.crtime ≡ after_epoch c → MacosTells libc a macos_told
  unfolding macos_attr_with
  macos_told-MacosTells e = record {
    numbers = (refl, refl, refl);
    owners = (refl, refl, refl, refl, refl);
    mode = refl;
    atime = t.atime_same;
    mtime = t.mtime_same;
    ctime = t.ctime_same;
    crtime = e;
  }

  macos_told_lem : a.crtime ≡ after_epoch c → macos_attr_from_attr libc a ≡ some macos_told
  unfolding macos_attr_from_attr time_from_system_time
  macos_told_lem e = rw (t.atime_same, t.mtime_same, t.ctime_same, e) refl

-- What a reply with an entry should tell.
abbrev pub macos_entry_read : Duration → FileAttr → MacosAttr → ℕ → MacosEntryOut
macos_entry_read ttl a f generation = record {
  nodeid = a.ino;
  generation = generation;
  entry_valid = ttl.secs;
  attr_valid = ttl.secs;
  entry_valid_nsec = ttl.nanos;
  attr_valid_nsec = ttl.nanos;
  attr = f;
}

module _ (libc : Libc) (unique : ℕ) (s : ChannelSender) where
  ok-Reads :
      {T : Type 0} (repr : Repr T) (value : T)
      → unique < u64_mod
      → (size_of repr == 0) ≡ false
      → 16 + size_of repr < u32_mod
      → Fits repr value
      → Reads unique s repr value (ok_or_unwind libc (new unique s) repr (some value)).sent
  unfolding ok_or_unwind Raw.ok as_bytes
  ok-Reads repr value hu hz hs hf = rw hz (consume-Reads libc unique s repr value hu hs hf)

  -- On macOS, if the attributes hold no time before the epoch and all numbers are those of Rust's types,
  -- the replies entry, attr and created each send one message with no error, from which the kernel reads
  -- the times to live, the inode, the generation, the handle and the flags that the filesystem passed,
  -- and a struct that tells its attributes, the time of creation and the flags of the file included; and
  -- the reply xtimes sends one message from which it reads both times.
  pub macos-Reads :
      (ttl : Duration) (a : FileAttr) (t : Times a) (created backup : Duration)
      (generation fh flags : ℕ)
      → unique < u64_mod
      → IsDuration ttl
      → IsFileAttr libc a t
      → (a.crtime ≡ after_epoch created) × IsDuration created × (a.flags < u32_mod)
      → IsDuration backup
      → (generation < u64_mod) × (fh < u64_mod) × (flags < u32_mod)
      → (f : MacosAttr) × MacosTells libc a f
        × Reads unique s macos_attr_out_repr
            (record { attr_valid = ttl.secs; attr_valid_nsec = ttl.nanos; dummy = 0; attr = f })
            (macos_attr_attr libc (record { reply = new unique s }) ttl a).sent
        × Reads unique s macos_entry_out_repr
            (macos_entry_read ttl a f generation)
            (macos_entry_entry libc (record { reply = new unique s }) ttl a generation).sent
        × Reads unique s macos_created_repr
            (
              macos_entry_read ttl a f generation,
              record { fh = fh; open_flags = flags; padding = 0 },
            )
            (macos_create_created libc
              (record { reply = new unique s })
              ttl
              a
              generation
              fh
              flags).sent
        × Reads unique s getxtimes_out_repr
            (record {
              bkuptime = backup.secs;
              crtime = created.secs;
              bkuptimensec = backup.nanos;
              crtimensec = created.nanos;
            })
            (xtimes_xtimes libc
              (record { reply = new unique s })
              (after_epoch backup)
              a.crtime).sent
  unfolding macos_entry_entry macos_attr_attr macos_create_created xtimes_xtimes macos_attr_out
      macos_entry_out macos_create_out open_out macos_attr_with xtimes_out time_from_system_time
  macos-Reads ttl a t created backup generation fh flags hu hd ha (hc, hcd, hf) hb hn = (
    macos_told libc a t created,
    macos_told-MacosTells libc a t created hc,
    rw (macos_told_lem libc a t created hc) (
        ok-Reads macos_attr_out_repr (macos_attr_out ttl (macos_told libc a t created)) hu refl
          (omega arith) (omega arith)),
    rw (macos_told_lem libc a t created hc) (
        ok-Reads macos_entry_out_repr
          (macos_entry_out ttl a generation (macos_told libc a t created)) hu refl (omega arith)
          (omega arith)),
    rw (macos_told_lem libc a t created hc) (
        ok-Reads macos_created_repr
          (macos_create_out ttl a generation fh flags (macos_told libc a t created)) hu refl
          (omega arith) (omega arith)),
    rw hc (
        ok-Reads getxtimes_out_repr
          (xtimes_out (backup.secs, backup.nanos) (created.secs, created.nanos)) hu refl
          (omega arith) (omega arith)),
  )
