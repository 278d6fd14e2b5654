-- ===== src/Filesystem.antt =====
-- The methods of a filesystem (`Filesystem` of src/lib.rs). A call is data: the method with its
-- arguments, indexed by the kind of reply object that it is given. An offset is the bit pattern of an
-- i64. Calls without a reply object (init, destroy, forget) and readdir stand with the tasks of a
-- request.
pub mod Defaults
use async_fuse_rs.Prelude.{ℕ, Bool, Option}
use async_fuse_rs.Bytes.{Bytes}
use async_fuse_rs.FileAttr.{SystemTime}
use async_fuse_rs.Reply.Kinds.{
  Kind, empty_kind, data_kind, entry_kind, attr_kind, open_kind, write_kind, statfs_kind,
  create_kind, lock_kind, bmap_kind, xattr_kind,
}

-- The arguments of `setattr` behind the inode; `none` leaves the attribute as it is.
pub record AttrChange : Type 0 where
  pub mode : Option ℕ
  pub uid : Option ℕ
  pub gid : Option ℕ
  pub size : Option ℕ
  pub atime : Option SystemTime
  pub mtime : Option SystemTime
  pub fh : Option ℕ
  pub crtime : Option SystemTime
  pub chgtime : Option SystemTime
  pub bkuptime : Option SystemTime
  pub flags : Option ℕ

pub data Call : Kind → Type 0 where
  lookup : ℕ → Bytes → Call entry_kind
  getattr : ℕ → Call attr_kind
  setattr : ℕ → AttrChange → Call attr_kind
  readlink : ℕ → Call data_kind
  mknod : ℕ → Bytes → ℕ → ℕ → Call entry_kind
  mkdir : ℕ → Bytes → ℕ → Call entry_kind
  unlink : ℕ → Bytes → Call empty_kind
  rmdir : ℕ → Bytes → Call empty_kind
  symlink : ℕ → Bytes → Bytes → Call entry_kind
  rename : ℕ → Bytes → ℕ → Bytes → Call empty_kind
  link : ℕ → ℕ → Bytes → Call entry_kind
  open_file : ℕ → ℕ → Call open_kind
  read : ℕ → ℕ → ℕ → ℕ → Call data_kind
  write : ℕ → ℕ → ℕ → Bytes → ℕ → Call write_kind
  flush : ℕ → ℕ → ℕ → Call empty_kind
  release : ℕ → ℕ → ℕ → ℕ → Bool → Call empty_kind
  fsync : ℕ → ℕ → Bool → Call empty_kind
  opendir : ℕ → ℕ → Call open_kind
  releasedir : ℕ → ℕ → ℕ → Call empty_kind
  fsyncdir : ℕ → ℕ → Bool → Call empty_kind
  statfs : ℕ → Call statfs_kind
  setxattr : ℕ → Bytes → Bytes → ℕ → ℕ → Call empty_kind
  getxattr : ℕ → Bytes → ℕ → Call xattr_kind
  listxattr : ℕ → ℕ → Call xattr_kind
  removexattr : ℕ → Bytes → Call empty_kind
  access : ℕ → ℕ → Call empty_kind
  create : ℕ → Bytes → ℕ → ℕ → Call create_kind
  getlk : ℕ → ℕ → ℕ → ℕ → ℕ → ℕ → ℕ → Call lock_kind
  setlk : ℕ → ℕ → ℕ → ℕ → ℕ → ℕ → ℕ → Bool → Call empty_kind
  bmap : ℕ → ℕ → ℕ → Call bmap_kind
