-- ===== src/Abi/Features/Messages.antt =====
-- The structs of fuse-abi/src/lib.rs from `fuse_bmap_in` on, field by field. The conditions under which each
-- struct is compiled are in Abi.Features.Structs.
use async_fuse_rs.Prelude.{[], ◌∷◌}
use async_fuse_rs.Abi.Features.{Fields, field, always}

abbrev pub fuse_bmap_in_fields : Fields
fuse_bmap_in_fields =
    field always "block" 8 ∷ field always "blocksize" 4 ∷ field always "padding" 4 ∷ []

abbrev pub fuse_bmap_out_fields : Fields
fuse_bmap_out_fields = field always "block" 8 ∷ []

abbrev pub fuse_ioctl_in_fields : Fields
fuse_ioctl_in_fields =
    field always "fh" 8
    ∷ field always "flags" 4
    ∷ field always "cmd" 4
    ∷ field always "arg" 8
    ∷ field always "in_size" 4
    ∷ field always "out_size" 4
    ∷ []

abbrev pub fuse_ioctl_iovec_fields : Fields
fuse_ioctl_iovec_fields = field always "base" 8 ∷ field always "len" 8 ∷ []

abbrev pub fuse_ioctl_out_fields : Fields
fuse_ioctl_out_fields =
    field always "result" 4
    ∷ field always "flags" 4
    ∷ field always "in_iovs" 4
    ∷ field always "out_iovs" 4
    ∷ []

abbrev pub fuse_poll_in_fields : Fields
fuse_poll_in_fields =
    field always "fh" 8
    ∷ field always "kh" 8
    ∷ field always "flags" 4
    ∷ field always "padding" 4
    ∷ []

abbrev pub fuse_poll_out_fields : Fields
fuse_poll_out_fields = field always "revents" 4 ∷ field always "padding" 4 ∷ []

abbrev pub fuse_notify_poll_wakeup_out_fields : Fields
fuse_notify_poll_wakeup_out_fields = field always "kh" 8 ∷ []

abbrev pub fuse_fallocate_in_fields : Fields
fuse_fallocate_in_fields =
    field always "fh" 8
    ∷ field always "offset" 8
    ∷ field always "length" 8
    ∷ field always "mode" 4
    ∷ field always "padding" 4
    ∷ []

abbrev pub fuse_in_header_fields : Fields
fuse_in_header_fields =
    field always "len" 4
    ∷ field always "opcode" 4
    ∷ field always "unique" 8
    ∷ field always "nodeid" 8
    ∷ field always "uid" 4
    ∷ field always "gid" 4
    ∷ field always "pid" 4
    ∷ field always "padding" 4
    ∷ []

abbrev pub fuse_out_header_fields : Fields
fuse_out_header_fields =
    field always "len" 4 ∷ field always "error" 4 ∷ field always "unique" 8 ∷ []

abbrev pub fuse_dirent_fields : Fields
fuse_dirent_fields =
    field always "ino" 8
    ∷ field always "off" 8
    ∷ field always "namelen" 4
    ∷ field always "typ" 4
    ∷ []

abbrev pub fuse_notify_inval_inode_out_fields : Fields
fuse_notify_inval_inode_out_fields =
    field always "ino" 8 ∷ field always "off" 8 ∷ field always "len" 8 ∷ []

abbrev pub fuse_notify_inval_entry_out_fields : Fields
fuse_notify_inval_entry_out_fields =
    field always "parent" 8 ∷ field always "namelen" 4 ∷ field always "padding" 4 ∷ []

abbrev pub fuse_notify_delete_out_fields : Fields
fuse_notify_delete_out_fields =
    field always "parent" 8
    ∷ field always "child" 8
    ∷ field always "namelen" 4
    ∷ field always "padding" 4
    ∷ []

abbrev pub fuse_notify_store_out_fields : Fields
fuse_notify_store_out_fields =
    field always "nodeid" 8
    ∷ field always "offset" 8
    ∷ field always "size" 4
    ∷ field always "padding" 4
    ∷ []

abbrev pub fuse_notify_retrieve_out_fields : Fields
fuse_notify_retrieve_out_fields =
    field always "notify_unique" 8
    ∷ field always "nodeid" 8
    ∷ field always "offset" 8
    ∷ field always "size" 4
    ∷ field always "padding" 4
    ∷ []

abbrev pub fuse_notify_retrieve_in_fields : Fields
fuse_notify_retrieve_in_fields =
    field always "dummy1" 8
    ∷ field always "offset" 8
    ∷ field always "size" 4
    ∷ field always "dummy2" 4
    ∷ field always "dummy3" 8
    ∷ field always "dummy4" 8
    ∷ []
