-- ===== src/FileAttr.antt =====
-- File types and attributes (src/lib.rs), and the times of the standard library that they hold.
use async_fuse_rs.Prelude.{ℕ}

pub data FileType : Type 0 where
  named_pipe char_device block_device directory regular_file symlink socket : FileType

-- `std::time::Duration`.
pub record Duration : Type 0 where
  pub secs : ℕ
  pub nanos : ℕ

-- `std::time::SystemTime`, by its distance from the Unix epoch.
pub data SystemTime : Type 0 where
  after_epoch : Duration → SystemTime
  before_epoch : Duration → SystemTime

pub record FileAttr : Type 0 where
  pub ino : ℕ
  pub size : ℕ
  pub blocks : ℕ
  pub atime : SystemTime
  pub mtime : SystemTime
  pub ctime : SystemTime
  pub crtime : SystemTime
  pub kind : FileType
  pub perm : ℕ
  pub nlink : ℕ
  pub uid : ℕ
  pub gid : ℕ
  pub rdev : ℕ
  pub flags : ℕ
