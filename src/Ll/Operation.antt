-- ===== src/Ll/Operation.antt =====
-- Filesystem operations and their arguments (`Operation` of src/ll/request.rs), on Linux.
use async_fuse_rs.Bytes.{Bytes}
use async_fuse_rs.Abi.Opcode.{Opcode}
use async_fuse_rs.Abi.Requests.{
  FuseForgetIn, FuseSetattrIn, FuseMknodIn, FuseMkdirIn, FuseRenameIn, FuseLinkIn, FuseOpenIn,
  FuseReleaseIn, FuseFlushIn, FuseCreateIn, forget_in_repr, setattr_in_repr, mknod_in_repr,
  mkdir_in_repr, rename_in_repr, link_in_repr, open_in_repr, release_in_repr, flush_in_repr,
  create_in_repr,
}
use async_fuse_rs.Abi.FileRequests.{
  FuseReadIn, FuseWriteIn, FuseFsyncIn, FuseSetxattrIn, FuseGetxattrIn, FuseInitIn, FuseLkIn,
  FuseAccessIn, FuseInterruptIn, FuseBmapIn, read_in_repr, write_in_repr, fsync_in_repr,
  setxattr_in_repr, getxattr_in_repr, init_in_repr, lk_in_repr, access_in_repr, interrupt_in_repr,
  bmap_in_repr,
}
use async_fuse_rs.Ll.Argument.{Fetch, ◌>>=◌, pure, fetch, fetch_str, fetch_all}

pub data Operation : Type 0 where
  lookup : Bytes → Operation
  forget : FuseForgetIn → Operation
  get_attr : Operation
  set_attr : FuseSetattrIn → Operation
  read_link : Operation
  sym_link : Bytes → Bytes → Operation
  mk_nod : FuseMknodIn → Bytes → Operation
  mk_dir : FuseMkdirIn → Bytes → Operation
  unlink : Bytes → Operation
  rm_dir : Bytes → Operation
  rename : FuseRenameIn → Bytes → Bytes → Operation
  link : FuseLinkIn → Bytes → Operation
  open_file : FuseOpenIn → Operation
  read : FuseReadIn → Operation
  write : FuseWriteIn → Bytes → Operation
  stat_fs : Operation
  release : FuseReleaseIn → Operation
  f_sync : FuseFsyncIn → Operation
  set_x_attr : FuseSetxattrIn → Bytes → Bytes → Operation
  get_x_attr : FuseGetxattrIn → Bytes → Operation
  list_x_attr : FuseGetxattrIn → Operation
  remove_x_attr : Bytes → Operation
  flush : FuseFlushIn → Operation
  init : FuseInitIn → Operation
  open_dir : FuseOpenIn → Operation
  read_dir : FuseReadIn → Operation
  release_dir : FuseReleaseIn → Operation
  f_sync_dir : FuseFsyncIn → Operation
  get_lk : FuseLkIn → Operation
  set_lk : FuseLkIn → Operation
  set_lk_w : FuseLkIn → Operation
  access : FuseAccessIn → Operation
  create : FuseCreateIn → Bytes → Operation
  interrupt : FuseInterruptIn → Operation
  b_map : FuseBmapIn → Operation
  destroy : Operation

-- The arguments of each operation, in the order in which they are fetched.
unfoldable pub parse : Opcode → Fetch Operation
parse Opcode.lookup = do name ← fetch_str; pure (lookup name)
parse Opcode.forget = do arg ← fetch forget_in_repr; pure (forget arg)
parse Opcode.getattr = pure get_attr
parse Opcode.setattr = do arg ← fetch setattr_in_repr; pure (set_attr arg)
parse Opcode.readlink = pure read_link
parse Opcode.symlink = do name ← fetch_str; target ← fetch_str; pure (sym_link name target)
parse Opcode.mknod = do arg ← fetch mknod_in_repr; name ← fetch_str; pure (mk_nod arg name)
parse Opcode.mkdir = do arg ← fetch mkdir_in_repr; name ← fetch_str; pure (mk_dir arg name)
parse Opcode.unlink = do name ← fetch_str; pure (unlink name)
parse Opcode.rmdir = do name ← fetch_str; pure (rm_dir name)
parse Opcode.rename = do
  arg ← fetch rename_in_repr
  name ← fetch_str
  newname ← fetch_str
  pure (rename arg name newname)
parse Opcode.link = do arg ← fetch link_in_repr; name ← fetch_str; pure (link arg name)
parse Opcode.open_file = do arg ← fetch open_in_repr; pure (open_file arg)
parse Opcode.read = do arg ← fetch read_in_repr; pure (read arg)
parse Opcode.write = do arg ← fetch write_in_repr; bytes ← fetch_all; pure (write arg bytes)
parse Opcode.statfs = pure stat_fs
parse Opcode.release = do arg ← fetch release_in_repr; pure (release arg)
parse Opcode.fsync = do arg ← fetch fsync_in_repr; pure (f_sync arg)
parse Opcode.setxattr = do
  arg ← fetch setxattr_in_repr
  name ← fetch_str
  value ← fetch_all
  pure (set_x_attr arg name value)
parse Opcode.getxattr = do
  arg ← fetch getxattr_in_repr
  name ← fetch_str
  pure (get_x_attr arg name)
parse Opcode.listxattr = do arg ← fetch getxattr_in_repr; pure (list_x_attr arg)
parse Opcode.removexattr = do name ← fetch_str; pure (remove_x_attr name)
parse Opcode.flush = do arg ← fetch flush_in_repr; pure (flush arg)
parse Opcode.init = do arg ← fetch init_in_repr; pure (init arg)
parse Opcode.opendir = do arg ← fetch open_in_repr; pure (open_dir arg)
parse Opcode.readdir = do arg ← fetch read_in_repr; pure (read_dir arg)
parse Opcode.releasedir = do arg ← fetch release_in_repr; pure (release_dir arg)
parse Opcode.fsyncdir = do arg ← fetch fsync_in_repr; pure (f_sync_dir arg)
parse Opcode.getlk = do arg ← fetch lk_in_repr; pure (get_lk arg)
parse Opcode.setlk = do arg ← fetch lk_in_repr; pure (set_lk arg)
parse Opcode.setlkw = do arg ← fetch lk_in_repr; pure (set_lk_w arg)
parse Opcode.access = do arg ← fetch access_in_repr; pure (access arg)
parse Opcode.create = do arg ← fetch create_in_repr; name ← fetch_str; pure (create arg name)
parse Opcode.interrupt = do arg ← fetch interrupt_in_repr; pure (interrupt arg)
parse Opcode.bmap = do arg ← fetch bmap_in_repr; pure (b_map arg)
parse Opcode.destroy = pure destroy
