-- ===== src/Reply/Attr.antt =====
-- Attributes of a file in the form of the kernel (src/reply.rs), on Linux.
pub mod Mode
use async_fuse_rs.Prelude.{ℕ, bit_or, Option, none, some, ◌>>=◌}
use async_fuse_rs.Libc.{Libc}
use async_fuse_rs.FileAttr.{
  FileType, named_pipe, char_device, block_device, directory, regular_file, symlink, socket,
  FileAttr, Duration, SystemTime, after_epoch, before_epoch,
}
use async_fuse_rs.Abi.Replies.{FuseAttr}

-- `none` is the error of a time before the epoch.
unfoldable pub time_from_system_time : SystemTime → Option (ℕ × ℕ)
time_from_system_time (after_epoch d) = some (d.secs, d.nanos)
time_from_system_time (before_epoch d) = none

unfoldable pub kind_bits : Libc → FileType → ℕ
kind_bits libc named_pipe = libc.s_ififo
kind_bits libc char_device = libc.s_ifchr
kind_bits libc block_device = libc.s_ifblk
kind_bits libc directory = libc.s_ifdir
kind_bits libc regular_file = libc.s_ifreg
kind_bits libc symlink = libc.s_iflnk
kind_bits libc socket = libc.s_ifsock

unfoldable pub mode_from_kind_and_perm : Libc → FileType → ℕ → ℕ
unfolding kind_bits
mode_from_kind_and_perm libc kind perm = bit_or (kind_bits libc kind) perm

-- The struct, from the attributes and the three converted times.
unfoldable pub attr_with : Libc → FileAttr → ℕ × ℕ → ℕ × ℕ → ℕ × ℕ → FuseAttr
unfolding mode_from_kind_and_perm
attr_with libc attr (atime_secs, atime_nanos) (mtime_secs, mtime_nanos) (ctime_secs, ctime_nanos) =
    record {
      ino = attr.ino;
      size = attr.size;
      blocks = attr.blocks;
      atime = atime_secs;
      mtime = mtime_secs;
      ctime = ctime_secs;
      atimensec = atime_nanos;
      mtimensec = mtime_nanos;
      ctimensec = ctime_nanos;
      mode = mode_from_kind_and_perm libc attr.kind attr.perm;
      nlink = attr.nlink;
      uid = attr.uid;
      gid = attr.gid;
      rdev = attr.rdev;
    }

-- `none` is the panic of `unwrap` on a time before the epoch.
unfoldable pub fuse_attr_from_attr : Libc → FileAttr → Option FuseAttr
unfolding time_from_system_time attr_with
fuse_attr_from_attr libc attr = do
  atime ← time_from_system_time attr.atime
  mtime ← time_from_system_time attr.mtime
  ctime ← time_from_system_time attr.ctime
  some (attr_with libc attr atime mtime ctime)
