-- ===== src/Reply/Directory.antt =====
-- The directory reply (`ReplyDirectory` of src/reply.rs): a buffer of entries that is filled up to the
-- capacity it was created with.
pub mod Filling
pub mod Reader
use async_fuse_rs.Prelude.{
  ℕ, ◌+◌, ◌-◌, ◌*◌, ◌/◌, ◌%◌, ◌^◌, Bool, true, false, ltb, if◌then◌else◌, List, [], ◌∷◌, ◌++◌,
  length, replicate,
}
use async_fuse_rs.Bytes.{Bytes, u32_mod, u64_mod}
use async_fuse_rs.Libc.{Libc}
use async_fuse_rs.FileAttr.{FileType}
use async_fuse_rs.Channel.{ChannelSender}
use async_fuse_rs.Abi.Layout.{size_of, encode}
use async_fuse_rs.Abi.Replies.{FuseDirent, dirent_repr}
use async_fuse_rs.Reply.Attr.{mode_from_kind_and_perm}
use async_fuse_rs.Reply.Raw
use async_fuse_rs.Reply.Raw.{ReplyRaw, Outcome, consume, forsake}

pub record ReplyDirectory : Type 0 where
  pub reply : ReplyRaw
  pub contents : Bytes
  pub capacity : ℕ

-- The arguments of `add`. The offset is the bit pattern of an i64.
pub record DirEntry : Type 0 where
  pub ino : ℕ
  pub offset : ℕ
  pub kind : FileType
  pub name : Bytes

-- `Vec::with_capacity(size)` is taken to reserve what is asked for.
unfoldable pub new : ℕ → ChannelSender → ℕ → ReplyDirectory
unfolding Raw.new
new unique sender capacity = record {
  reply = Raw.new unique sender;
  contents = [];
  capacity = capacity;
}

-- `x & !(8 - 1)`: the low three bits cleared.
abbrev pub clear_low_bits : ℕ → ℕ
clear_low_bits x = x / 8 * 8

unfoldable pub ent_len : DirEntry → ℕ
ent_len e = size_of dirent_repr + length e.name

unfoldable pub ent_size : DirEntry → ℕ
unfolding ent_len
ent_size e = clear_low_bits (ent_len e + 8 - 1)

unfoldable pub dirent : Libc → DirEntry → FuseDirent
dirent libc e = record {
  ino = e.ino;
  off = e.offset;
  namelen = length e.name % u32_mod;
  typ = mode_from_kind_and_perm libc e.kind 0 / 2 ^ 12;
}

-- What is written behind the contents: the struct, the name, and zeros up to the next multiple of 8.
unfoldable pub entry_bytes : Libc → DirEntry → Bytes
unfolding dirent ent_size
entry_bytes libc e =
    encode dirent_repr (dirent libc e) ++ (e.name ++ replicate (ent_size e - ent_len e) 0)

-- `add`: `true` if the entry did not fit.
unfoldable pub add : Libc → ReplyDirectory → DirEntry → ReplyDirectory × Bool
unfolding ent_size
add libc d e =
    if ltb d.capacity (length d.contents + ent_size e)
    then (d, true)
    else (record d { contents = d.contents ++ entry_bytes libc e }, false)

unfoldable pub ok : Libc → ReplyDirectory → Outcome
unfolding consume
ok libc d = consume libc d.reply 0 (d.contents ∷ [])

unfoldable pub error : Libc → ReplyDirectory → ℕ → Outcome
unfolding Raw.error
error libc d err = Raw.error libc d.reply err

-- What a filesystem does with a directory reply: it adds entries, looking at the results, and at last
-- replies or drops the object.
pub data Listing : Type 0 where
  add_entry : DirEntry → (Bool → Listing) → Listing
  finish : Listing
  fail : ℕ → Listing
  abandon : Listing

unfoldable pub run_listing : Libc → ReplyDirectory → Listing → Outcome
unfolding ok error forsake
run_listing libc d (add_entry e next) = run_listing libc (add libc d e).0 (next (add libc d e).1)
run_listing libc d finish = ok libc d
run_listing libc d (fail err) = error libc d err
run_listing libc d abandon = forsake libc d.reply
