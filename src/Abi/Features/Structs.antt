-- ===== src/Abi/Features/Structs.antt =====
-- All structs of fuse-abi/src/lib.rs with the conditions under which they are compiled.
use async_fuse_rs.Prelude.{List, [], ◌∷◌, ◌++◌}
use async_fuse_rs.Abi.Features.{Gate, always, since, on_macos, Fields}
use async_fuse_rs.Abi.Features.Attributes.{
  fuse_attr_fields, fuse_kstatfs_fields, fuse_file_lock_fields, fuse_entry_out_fields,
  fuse_forget_in_fields, fuse_forget_one_fields, fuse_batch_forget_in_fields,
  fuse_getattr_in_fields, fuse_attr_out_fields, fuse_getxtimes_out_fields, fuse_mknod_in_fields,
  fuse_mkdir_in_fields, fuse_rename_in_fields, fuse_exchange_in_fields, fuse_link_in_fields,
  fuse_setattr_in_fields,
}
use async_fuse_rs.Abi.Features.Files.{
  fuse_open_in_fields, fuse_create_in_fields, fuse_open_out_fields, fuse_release_in_fields,
  fuse_flush_in_fields, fuse_read_in_fields, fuse_write_in_fields, fuse_write_out_fields,
  fuse_statfs_out_fields, fuse_fsync_in_fields, fuse_setxattr_in_fields, fuse_getxattr_in_fields,
  fuse_getxattr_out_fields, fuse_lk_in_fields, fuse_lk_out_fields, fuse_access_in_fields,
  fuse_init_in_fields, fuse_init_out_fields, cuse_init_in_fields, cuse_init_out_fields,
  fuse_interrupt_in_fields,
}
use async_fuse_rs.Abi.Features.Messages.{
  fuse_bmap_in_fields, fuse_bmap_out_fields, fuse_ioctl_in_fields, fuse_ioctl_iovec_fields,
  fuse_ioctl_out_fields, fuse_poll_in_fields, fuse_poll_out_fields,
  fuse_notify_poll_wakeup_out_fields, fuse_fallocate_in_fields, fuse_in_header_fields,
  fuse_out_header_fields, fuse_dirent_fields, fuse_notify_inval_inode_out_fields,
  fuse_notify_inval_entry_out_fields, fuse_notify_delete_out_fields, fuse_notify_store_out_fields,
  fuse_notify_retrieve_out_fields, fuse_notify_retrieve_in_fields,
}

-- Those whose fields depend on the configuration, and the others.
abbrev pub varied_structs : List (Gate × Fields)
varied_structs =
    (always, fuse_attr_fields)
    ∷ (always, fuse_entry_out_fields)
    ∷ (always, fuse_attr_out_fields)
    ∷ (always, fuse_mknod_in_fields)
    ∷ (always, fuse_mkdir_in_fields)
    ∷ (always, fuse_setattr_in_fields)
    ∷ (always, fuse_create_in_fields)
    ∷ (always, fuse_read_in_fields)
    ∷ (always, fuse_write_in_fields)
    ∷ (always, fuse_setxattr_in_fields)
    ∷ (always, fuse_getxattr_in_fields)
    ∷ (always, fuse_lk_in_fields)
    ∷ (always, fuse_init_out_fields)
    ∷ []

abbrev pub fixed_structs : List (Gate × Fields)
fixed_structs =
    (always, fuse_kstatfs_fields)
    ∷ (always, fuse_file_lock_fields)
    ∷ (always, fuse_forget_in_fields)
    ∷ (since 16, fuse_forget_one_fields)
    ∷ (since 16, fuse_batch_forget_in_fields)
    ∷ (since 9, fuse_getattr_in_fields)
    ∷ (on_macos, fuse_getxtimes_out_fields)
    ∷ (always, fuse_rename_in_fields)
    ∷ (on_macos, fuse_exchange_in_fields)
    ∷ (always, fuse_link_in_fields)
    ∷ (always, fuse_open_in_fields)
    ∷ (always, fuse_open_out_fields)
    ∷ (always, fuse_release_in_fields)
    ∷ (always, fuse_flush_in_fields)
    ∷ (always, fuse_write_out_fields)
    ∷ (always, fuse_statfs_out_fields)
    ∷ (always, fuse_fsync_in_fields)
    ∷ (always, fuse_getxattr_out_fields)
    ∷ (always, fuse_lk_out_fields)
    ∷ (always, fuse_access_in_fields)
    ∷ (always, fuse_init_in_fields)
    ∷ (since 12, cuse_init_in_fields)
    ∷ (since 12, cuse_init_out_fields)
    ∷ (always, fuse_interrupt_in_fields)
    ∷ (always, fuse_bmap_in_fields)
    ∷ (always, fuse_bmap_out_fields)
    ∷ (since 11, fuse_ioctl_in_fields)
    ∷ (since 16, fuse_ioctl_iovec_fields)
    ∷ (since 11, fuse_ioctl_out_fields)
    ∷ (since 11, fuse_poll_in_fields)
    ∷ (since 11, fuse_poll_out_fields)
    ∷ (since 11, fuse_notify_poll_wakeup_out_fields)
    ∷ (since 19, fuse_fallocate_in_fields)
    ∷ (always, fuse_in_header_fields)
    ∷ (always, fuse_out_header_fields)
    ∷ (always, fuse_dirent_fields)
    ∷ (since 12, fuse_notify_inval_inode_out_fields)
    ∷ (since 12, fuse_notify_inval_entry_out_fields)
    ∷ (since 18, fuse_notify_delete_out_fields)
    ∷ (since 15, fuse_notify_store_out_fields)
    ∷ (since 15, fuse_notify_retrieve_out_fields)
    ∷ (since 15, fuse_notify_retrieve_in_fields)
    ∷ []

abbrev pub structs : List (Gate × Fields)
structs = varied_structs ++ fixed_structs
