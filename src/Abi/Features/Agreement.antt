-- ===== src/Abi/Features/Agreement.antt =====
-- The structs of the other modules here are those of the build with no feature, for Linux and for macOS.
use async_fuse_rs.Prelude.{ℕ, ◌≡◌, refl, true, false, List, [], ◌∷◌, map}
use async_fuse_rs.Abi.Requests.{
  forget_in_repr, mknod_in_repr, mkdir_in_repr, rename_in_repr, link_in_repr, setattr_in_repr,
  open_in_repr, create_in_repr, release_in_repr, flush_in_repr,
}
use async_fuse_rs.Abi.FileRequests.{
  read_in_repr, write_in_repr, fsync_in_repr, setxattr_in_repr, getxattr_in_repr, lk_in_repr,
  access_in_repr, init_in_repr, interrupt_in_repr, bmap_in_repr, in_header_repr,
}
use async_fuse_rs.Abi.Replies.{
  entry_out_repr, attr_out_repr, open_out_repr, write_out_repr, statfs_out_repr, getxattr_out_repr,
  lk_out_repr, init_out_repr, bmap_out_repr, out_header_repr, dirent_repr,
}
use async_fuse_rs.Abi.Macos.{macos_entry_out_repr, macos_attr_out_repr, getxtimes_out_repr}
use async_fuse_rs.Abi.MacosRequests.{
  macos_setattr_in_repr, macos_setxattr_in_repr, macos_getxattr_in_repr, exchange_in_repr,
}
use async_fuse_rs.Abi.Features.{Fields, compiled, plain}
use async_fuse_rs.Abi.Features.Layouts.{widths}
use async_fuse_rs.Abi.Features.Attributes.{
  fuse_entry_out_fields, fuse_attr_out_fields, fuse_forget_in_fields, fuse_mknod_in_fields,
  fuse_mkdir_in_fields, fuse_rename_in_fields, fuse_link_in_fields, fuse_exchange_in_fields,
  fuse_setattr_in_fields, fuse_getxtimes_out_fields,
}
use async_fuse_rs.Abi.Features.Files.{
  fuse_open_in_fields, fuse_create_in_fields, fuse_open_out_fields, fuse_release_in_fields,
  fuse_flush_in_fields, fuse_read_in_fields, fuse_write_in_fields, fuse_write_out_fields,
  fuse_statfs_out_fields, fuse_fsync_in_fields, fuse_setxattr_in_fields, fuse_getxattr_in_fields,
  fuse_getxattr_out_fields, fuse_lk_in_fields, fuse_lk_out_fields, fuse_access_in_fields,
  fuse_init_in_fields, fuse_init_out_fields, fuse_interrupt_in_fields,
}
use async_fuse_rs.Abi.Features.Messages.{
  fuse_bmap_in_fields, fuse_bmap_out_fields, fuse_in_header_fields, fuse_out_header_fields,
  fuse_dirent_fields,
}

-- The fields as they are declared, and the widths of the struct that models them.
abbrev pub linux_structs : List (Fields × List ℕ)
linux_structs =
    (fuse_forget_in_fields, forget_in_repr.widths)
    ∷ (fuse_mknod_in_fields, mknod_in_repr.widths)
    ∷ (fuse_mkdir_in_fields, mkdir_in_repr.widths)
    ∷ (fuse_rename_in_fields, rename_in_repr.widths)
    ∷ (fuse_link_in_fields, link_in_repr.widths)
    ∷ (fuse_setattr_in_fields, setattr_in_repr.widths)
    ∷ (fuse_open_in_fields, open_in_repr.widths)
    ∷ (fuse_create_in_fields, create_in_repr.widths)
    ∷ (fuse_release_in_fields, release_in_repr.widths)
    ∷ (fuse_flush_in_fields, flush_in_repr.widths)
    ∷ (fuse_read_in_fields, read_in_repr.widths)
    ∷ (fuse_write_in_fields, write_in_repr.widths)
    ∷ (fuse_fsync_in_fields, fsync_in_repr.widths)
    ∷ (fuse_setxattr_in_fields, setxattr_in_repr.widths)
    ∷ (fuse_getxattr_in_fields, getxattr_in_repr.widths)
    ∷ (fuse_lk_in_fields, lk_in_repr.widths)
    ∷ (fuse_access_in_fields, access_in_repr.widths)
    ∷ (fuse_init_in_fields, init_in_repr.widths)
    ∷ (fuse_interrupt_in_fields, interrupt_in_repr.widths)
    ∷ (fuse_bmap_in_fields, bmap_in_repr.widths)
    ∷ (fuse_in_header_fields, in_header_repr.widths)
    ∷ (fuse_entry_out_fields, entry_out_repr.widths)
    ∷ (fuse_attr_out_fields, attr_out_repr.widths)
    ∷ (fuse_open_out_fields, open_out_repr.widths)
    ∷ (fuse_write_out_fields, write_out_repr.widths)
    ∷ (fuse_statfs_out_fields, statfs_out_repr.widths)
    ∷ (fuse_getxattr_out_fields, getxattr_out_repr.widths)
    ∷ (fuse_lk_out_fields, lk_out_repr.widths)
    ∷ (fuse_init_out_fields, init_out_repr.widths)
    ∷ (fuse_bmap_out_fields, bmap_out_repr.widths)
    ∷ (fuse_out_header_fields, out_header_repr.widths)
    ∷ (fuse_dirent_fields, dirent_repr.widths)
    ∷ []

abbrev pub macos_structs : List (Fields × List ℕ)
macos_structs =
    (fuse_entry_out_fields, macos_entry_out_repr.widths)
    ∷ (fuse_attr_out_fields, macos_attr_out_repr.widths)
    ∷ (fuse_getxtimes_out_fields, getxtimes_out_repr.widths)
    ∷ (fuse_setattr_in_fields, macos_setattr_in_repr.widths)
    ∷ (fuse_setxattr_in_fields, macos_setxattr_in_repr.widths)
    ∷ (fuse_getxattr_in_fields, macos_getxattr_in_repr.widths)
    ∷ (fuse_exchange_in_fields, exchange_in_repr.widths)
    ∷ []

-- With no feature, the fields that are compiled have the widths of the structs of this development, on Linux
-- and on macOS.
pub plain_structs :
    (map (λ (s : Fields × List ℕ). widths (plain false) s.0) linux_structs
      ≡ map (λ (s : Fields × List ℕ). s.1) linux_structs)
    × (map (λ (s : Fields × List ℕ). widths (plain true) s.0) macos_structs
        ≡ map (λ (s : Fields × List ℕ). s.1) macos_structs)
unfolding compiled
plain_structs = (refl, refl)
