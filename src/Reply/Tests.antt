-- ===== src/Reply/Tests.antt =====
-- Replies as the kernel receives them, and the theorems of the replies at concrete data.
mod Serialize
mod Attributes
mod Crate
mod Reading
mod Macos
use async_fuse_rs.Prelude.{
  ℕ, ◌-◌, ◌^◌, ◌+◌, ◌≤◌, ◌<◌, ◌%◌, ◌≡◌, ◌⊎◌, refl, sym, ap, ◌∙◌, arith, ◌==◌, true, false,
  if◌then◌else◌, [], ◌∷◌, ◌++◌, length,
}
use async_fuse_rs.Bytes.{to_le_bytes}
use async_fuse_rs.Libc.{linux}
use async_fuse_rs.FileAttr.{
  FileType, named_pipe, char_device, block_device, directory, regular_file, symlink, socket,
  FileAttr, after_epoch, before_epoch,
}
use async_fuse_rs.Channel.{ChannelSender, Message}
use async_fuse_rs.Reply.Raw.{new, consume}
use async_fuse_rs.Reply.Raw.Once.{reply_message, consume-new, read_reply, flat, consume-bytes}
use async_fuse_rs.Reply.Attr.{mode_from_kind_and_perm, kind_bits}
use async_fuse_rs.Reply.Attr.Mode.{IsFileTypes, mode-injective}
use async_fuse_rs.Reply.Kinds.{Use, attr_kind, attr, answer, run_use}
use async_fuse_rs.Reply.Kinds.Exactly.{IsAnswered, run_use_once}
use async_fuse_rs.Reply.Directory
use async_fuse_rs.Reply.Directory.{
  ReplyDirectory, DirEntry, ent_len, ent_size, add, Listing, add_entry, finish, run_listing,
}
use async_fuse_rs.Reply.Directory.Filling.{
  Holds, new-Holds, all_bytes, add-Holds, Ends, run_listing-Ends, ent_size_bounds,
}
use async_fuse_rs.Reply.Directory.Reader.{
  read_entries, seen, read_entries-all_bytes, linux-HasDirentTypes,
}

abbrev sender : ChannelSender
sender = record { fd = 5 }

consume-bytes_example :
    (m : Message) × (consume linux (new 9 sender) 2 ((1 ∷ 2 ∷ []) ∷ [])
      ≡ record { sent = m ∷ []; panicked = false })
    × (m.fd ≡ 5)
    × (flat m.slices
        ≡ to_le_bytes 4 (length (flat m.slices))
          ++ (to_le_bytes 4 ((2 ^ 32 - 2 % 2 ^ 32) % 2 ^ 32)
              ++ (to_le_bytes 8 9 ++ flat ((1 ∷ 2 ∷ []) ∷ []))))
consume-bytes_example = consume-bytes linux 9 sender 2 ((1 ∷ 2 ∷ []) ∷ []) (omega arith)

-- Attributes with a modification time before the epoch.
abbrev old_attr : FileAttr
old_attr = record {
  ino = 1;
  size = 0;
  blocks = 0;
  atime = after_epoch (record { secs = 0; nanos = 0 });
  mtime = before_epoch (record { secs = 3; nanos = 0 });
  ctime = after_epoch (record { secs = 0; nanos = 0 });
  crtime = after_epoch (record { secs = 0; nanos = 0 });
  kind = directory;
  perm = 0o755;
  nlink = 2;
  uid = 501;
  gid = 20;
  rdev = 0;
  flags = 0;
}

abbrev old_use : Use attr_kind
old_use = answer (attr (record { secs = 1; nanos = 0 }) old_attr)

run_use_once_example :
    IsAnswered sender 9 5 (run_use linux (new 9 sender) old_use).sent
    × ((run_use linux (new 9 sender) old_use).panicked ≡ true)
run_use_once_example = run_use_once linux 9 sender old_use

abbrev dot : DirEntry
dot = record { ino = 1; offset = 1; kind = directory; name = 0x2e ∷ [] }

abbrev hello : DirEntry
hello = record { ino = 2; offset = 2; kind = regular_file; name = 0x68 ∷ 0x69 ∷ [] }

ent_size_bounds_example :
    (ent_len dot ≤ ent_size dot) × (ent_size dot < ent_len dot + 8) × (ent_size dot % 8 ≡ 0)
ent_size_bounds_example = ent_size_bounds dot

add-Holds_example :
    let d = Directory.new 9 sender 40 in
    ((add linux d dot ≡ (d, true)) × (d.capacity < length d.contents + ent_size dot))
    ⊎ (((add linux d dot).1 ≡ false)
        × (length d.contents + ent_size dot ≤ d.capacity)
        × Holds linux (add linux d dot).0 ([] ++ dot ∷ [])
        × ((add linux d dot).0.reply ≡ d.reply)
        × ((add linux d dot).0.capacity ≡ d.capacity))
add-Holds_example = add-Holds linux (Directory.new 9 sender 40) dot [] (new-Holds linux 9 sender 40)

-- The first entry fits 40 bytes, the second does not.
abbrev two_entries : Listing
two_entries = add_entry dot (λ _. add_entry hello (λ _. finish))

run_listing-Ends_example :
    Ends linux 9 sender 40 (run_listing linux (Directory.new 9 sender 40) two_entries)
run_listing-Ends_example = run_listing-Ends linux 9 sender two_entries 40

read_entries-all_bytes_example :
    read_entries 2 (all_bytes linux (dot ∷ hello ∷ [])) ≡ seen dot ∷ seen hello ∷ []
read_entries-all_bytes_example =
    read_entries-all_bytes linux (dot ∷ hello ∷ []) 2 linux-HasDirentTypes
      (omega arith, (omega arith, tt)) (omega arith)

-- The file type of Linux's bits.
abbrev kind_of : ℕ → FileType
kind_of n =
    if n == 0o010000
    then named_pipe
    else if n == 0o020000
    then char_device
    else if n == 0o060000
    then block_device
    else if n == 0o040000
    then directory
    else if n == 0o100000
    then regular_file
    else if n == 0o120000
    then symlink
    else socket

kind_of-kind_bits : (k : FileType) → kind_of (kind_bits linux k) ≡ k
unfolding kind_bits
kind_of-kind_bits named_pipe = refl
kind_of-kind_bits char_device = refl
kind_of-kind_bits block_device = refl
kind_of-kind_bits directory = refl
kind_of-kind_bits regular_file = refl
kind_of-kind_bits symlink = refl
kind_of-kind_bits socket = refl

linux_high : (k : FileType) → kind_bits linux k % 4096 ≡ 0
unfolding kind_bits
linux_high named_pipe = refl
linux_high char_device = refl
linux_high block_device = refl
linux_high directory = refl
linux_high regular_file = refl
linux_high symlink = refl
linux_high socket = refl

linux-IsFileTypes : IsFileTypes linux
linux-IsFileTypes = record {
  high = linux_high;
  differ = λ k l e. sym (kind_of-kind_bits k) ∙ ap kind_of e ∙ kind_of-kind_bits l;
}

abbrev all_may_read : ℕ
all_may_read = 0o444
