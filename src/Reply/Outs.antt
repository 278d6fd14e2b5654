-- ===== src/Reply/Outs.antt =====
-- The structs that the replies of src/reply.rs fill in, and the reply whose attributes may panic.
use async_fuse_rs.Prelude.{ℕ, none, some, ◌++◌, drop, refl}
use async_fuse_rs.Libc.{Libc}
use async_fuse_rs.FileAttr.{FileAttr, Duration}
use async_fuse_rs.Abi.Layout.{Repr}
use async_fuse_rs.Abi.Replies.{
  FuseAttr, FuseEntryOut, FuseOpenOut, FuseAttrOut, FuseWriteOut, FuseStatfsOut, FuseLkOut,
  FuseBmapOut, FuseGetxattrOut, entry_out_repr, open_out_repr,
}
use async_fuse_rs.Reply.Raw
use async_fuse_rs.Reply.Raw.{ReplyRaw, Outcome, consume, unwind}
use async_fuse_rs.Reply.Attr.{fuse_attr_from_attr}

-- The structs that the methods fill in.
unfoldable pub entry_out : Duration → FileAttr → ℕ → FuseAttr → FuseEntryOut
entry_out ttl a generation fuse_attr = record {
  nodeid = a.ino;
  generation = generation;
  entry_valid = ttl.secs;
  attr_valid = ttl.secs;
  entry_valid_nsec = ttl.nanos;
  attr_valid_nsec = ttl.nanos;
  attr = fuse_attr;
}

unfoldable pub attr_out : Duration → FuseAttr → FuseAttrOut
attr_out ttl fuse_attr = record {
  attr_valid = ttl.secs;
  attr_valid_nsec = ttl.nanos;
  dummy = 0;
  attr = fuse_attr;
}

unfoldable pub open_out : ℕ → ℕ → FuseOpenOut
open_out fh flags = record { fh = fh; open_flags = flags; padding = 0 }

unfoldable pub write_out : ℕ → FuseWriteOut
write_out n = record { size = n; padding = 0 }

unfoldable pub statfs_out : ℕ → ℕ → ℕ → ℕ → ℕ → ℕ → ℕ → ℕ → FuseStatfsOut
statfs_out blocks bfree bavail files ffree bsize namelen frsize = record {
  st = record {
    blocks = blocks;
    bfree = bfree;
    bavail = bavail;
    files = files;
    ffree = ffree;
    bsize = bsize;
    namelen = namelen;
    frsize = frsize;
    padding = 0;
    spare = (0, 0, 0, 0, 0, 0);
  };
}

unfoldable pub create_out : Duration → FileAttr → ℕ → ℕ → ℕ → FuseAttr → FuseEntryOut × FuseOpenOut
create_out ttl a generation fh flags fuse_attr =
    (entry_out ttl a generation fuse_attr, open_out fh flags)

unfoldable pub lk_out : ℕ → ℕ → ℕ → ℕ → FuseLkOut
lk_out start end typ pid = record { lk = record { start = start; end = end; typ = typ; pid = pid } }

unfoldable pub bmap_out : ℕ → FuseBmapOut
bmap_out block = record { block = block }

unfoldable pub xattr_out : ℕ → FuseGetxattrOut
xattr_out n = record { size = n; padding = 0 }

-- The pair that `ReplyCreate` sends: both structs, in this order and with no gap.
abbrev pub created_repr : Repr (FuseEntryOut × FuseOpenOut)
created_repr = record {
  widths = entry_out_repr.widths ++ open_out_repr.widths;
  of_fields = λ vs. (entry_out_repr.of_fields vs, open_out_repr.of_fields (drop 20 vs));
  to_fields = λ t. entry_out_repr.to_fields t.0 ++ open_out_repr.to_fields t.1;
  of_fields-to_fields = λ t. refl;
  to_fields-of_fields = λ bs. refl;
  no_gaps = refl;
}

-- A reply whose attributes may panic: the object is then dropped while unwinding.
unfoldable pub with_attr :
    {T : Type 0} → Libc → ReplyRaw → Repr T → FileAttr → (FuseAttr → T) → Outcome
unfolding Raw.ok unwind fuse_attr_from_attr
with_attr libc r repr a make = elim (fuse_attr_from_attr libc a) [
  | none ↦ unwind libc r
  | some fuse_attr ↦ Raw.ok libc repr r (make fuse_attr)
]
