-- ===== src/Examples/Hello.antt =====
-- The hello filesystem (examples/hello.rs): one directory with one file.
pub mod Pages
pub mod Client
use async_fuse_rs.Prelude.{
  ℕ, ◌==◌, ltb, ◌&&◌, Bool, true, false, if◌then◌else◌, List, [], ◌∷◌, drop,
}
use async_fuse_rs.Bytes.{Bytes}
use async_fuse_rs.Libc.{Libc}
use async_fuse_rs.FileAttr.{Duration, FileAttr, SystemTime, after_epoch, directory, regular_file}
use async_fuse_rs.Filesystem.{Call, lookup, getattr, read}
use async_fuse_rs.Filesystem.Defaults.{default_use}
use async_fuse_rs.Reply.Kinds.{Kind, Use, answer, error, panics, entry, attr, bytes}
use async_fuse_rs.Reply.Directory.{DirEntry, Listing, add_entry, finish, fail}

abbrev pub ttl : Duration
ttl = record { secs = 1; nanos = 0 }

abbrev unix_epoch : SystemTime
unix_epoch = after_epoch (record { secs = 0; nanos = 0 })

abbrev pub hello_dir_attr : FileAttr
hello_dir_attr = record {
  ino = 1;
  size = 0;
  blocks = 0;
  atime = unix_epoch;
  mtime = unix_epoch;
  ctime = unix_epoch;
  crtime = unix_epoch;
  kind = directory;
  perm = 0o755;
  nlink = 2;
  uid = 501;
  gid = 20;
  rdev = 0;
  flags = 0;
}

abbrev pub hello_txt_attr : FileAttr
hello_txt_attr = record {
  ino = 2;
  size = 13;
  blocks = 1;
  atime = unix_epoch;
  mtime = unix_epoch;
  ctime = unix_epoch;
  crtime = unix_epoch;
  kind = regular_file;
  perm = 0o644;
  nlink = 1;
  uid = 501;
  gid = 20;
  rdev = 0;
  flags = 0;
}

-- "Hello World!\n" and "hello.txt".
abbrev pub hello_txt_content : Bytes
hello_txt_content =
    0x48 ∷ 0x65 ∷ 0x6c ∷ 0x6c ∷ 0x6f ∷ 0x20 ∷ 0x57 ∷ 0x6f ∷ 0x72 ∷ 0x6c ∷ 0x64 ∷ 0x21 ∷ 0x0a ∷ []

abbrev pub hello_txt : Bytes
hello_txt = 0x68 ∷ 0x65 ∷ 0x6c ∷ 0x6c ∷ 0x6f ∷ 0x2e ∷ 0x74 ∷ 0x78 ∷ 0x74 ∷ []

abbrev same_bytes : Bytes → Bytes → Bool
same_bytes [] [] = true
same_bytes [] (c ∷ cs) = false
same_bytes (b ∷ bs) [] = false
same_bytes (b ∷ bs) (c ∷ cs) = b == c && same_bytes bs cs

-- The methods with a reply object. A slice that starts behind the content panics, and so drops the reply
-- object.
unfoldable pub hello_use : {k : Kind} → Libc → Call k → Use k
unfolding default_use
hello_use libc (lookup parent name) =
    if parent == 1 && same_bytes name hello_txt
    then answer (entry ttl hello_txt_attr 0)
    else error libc.enoent
hello_use libc (getattr ino) =
    if ino == 1
    then answer (attr ttl hello_dir_attr)
    else if ino == 2
    then answer (attr ttl hello_txt_attr)
    else error libc.enoent
hello_use libc (read ino fh offset size) =
    if ino == 2
    then if ltb 13 offset then panics else answer (bytes (drop offset hello_txt_content))
    else error libc.enoent
hello_use libc call = default_use libc call

-- The entries, each with the index of the next.
abbrev pub entries : List DirEntry
entries =
    record { ino = 1; offset = 1; kind = directory; name = 0x2e ∷ [] }
    ∷ record { ino = 1; offset = 2; kind = directory; name = 0x2e ∷ 0x2e ∷ [] }
    ∷ record { ino = 2; offset = 3; kind = regular_file; name = hello_txt }
    ∷ []

-- The loop of `readdir`: what `add` returns is not looked at.
abbrev pub add_all : List DirEntry → Listing
add_all [] = finish
add_all (e ∷ es) = add_entry e (λ _. add_all es)

unfoldable pub hello_listing : Libc → ℕ → ℕ → Listing
hello_listing libc ino offset = if ino == 1 then add_all (drop offset entries) else fail libc.enoent
