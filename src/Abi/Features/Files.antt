-- ===== src/Abi/Features/Files.antt =====
-- The structs of fuse-abi/src/lib.rs from `fuse_open_in` to `fuse_interrupt_in`, field by field, with the conditions
-- under which each field is compiled.
use async_fuse_rs.Prelude.{[], ◌∷◌, ◌++◌, replicate}
use async_fuse_rs.Abi.Features.{Fields, field, always, since, before, on_macos}
use async_fuse_rs.Abi.Features.Attributes.{fuse_file_lock_fields, fuse_kstatfs_fields}

abbrev pub fuse_open_in_fields : Fields
fuse_open_in_fields = field always "flags" 4 ∷ field always "unused" 4 ∷ []

abbrev pub fuse_create_in_fields : Fields
fuse_create_in_fields =
    field always "flags" 4
    ∷ field always "mode" 4
    ∷ field (since 12) "umask" 4
    ∷ field (since 12) "padding" 4
    ∷ []

abbrev pub fuse_open_out_fields : Fields
fuse_open_out_fields =
    field always "fh" 8 ∷ field always "open_flags" 4 ∷ field always "padding" 4 ∷ []

abbrev pub fuse_release_in_fields : Fields
fuse_release_in_fields =
    field always "fh" 8
    ∷ field always "flags" 4
    ∷ field always "release_flags" 4
    ∷ field always "lock_owner" 8
    ∷ []

abbrev pub fuse_flush_in_fields : Fields
fuse_flush_in_fields =
    field always "fh" 8
    ∷ field always "unused" 4
    ∷ field always "padding" 4
    ∷ field always "lock_owner" 8
    ∷ []

abbrev pub fuse_read_in_fields : Fields
fuse_read_in_fields =
    field always "fh" 8
    ∷ field always "offset" 8
    ∷ field always "size" 4
    ∷ field (since 9) "read_flags" 4
    ∷ field (since 9) "lock_owner" 8
    ∷ field (since 9) "flags" 4
    ∷ field (since 9) "padding" 4
    ∷ []

abbrev pub fuse_write_in_fields : Fields
fuse_write_in_fields =
    field always "fh" 8
    ∷ field always "offset" 8
    ∷ field always "size" 4
    ∷ field always "write_flags" 4
    ∷ field (since 9) "lock_owner" 8
    ∷ field (since 9) "flags" 4
    ∷ field (since 9) "padding" 4
    ∷ []

abbrev pub fuse_write_out_fields : Fields
fuse_write_out_fields = field always "size" 4 ∷ field always "padding" 4 ∷ []

abbrev pub fuse_statfs_out_fields : Fields
fuse_statfs_out_fields = fuse_kstatfs_fields

abbrev pub fuse_fsync_in_fields : Fields
fuse_fsync_in_fields =
    field always "fh" 8 ∷ field always "fsync_flags" 4 ∷ field always "padding" 4 ∷ []

abbrev pub fuse_setxattr_in_fields : Fields
fuse_setxattr_in_fields =
    field always "size" 4
    ∷ field always "flags" 4
    ∷ field on_macos "position" 4
    ∷ field on_macos "padding" 4
    ∷ []

abbrev pub fuse_getxattr_in_fields : Fields
fuse_getxattr_in_fields =
    field always "size" 4
    ∷ field always "padding" 4
    ∷ field on_macos "position" 4
    ∷ field on_macos "padding2" 4
    ∷ []

abbrev pub fuse_getxattr_out_fields : Fields
fuse_getxattr_out_fields = field always "size" 4 ∷ field always "padding" 4 ∷ []

abbrev pub fuse_lk_in_fields : Fields
fuse_lk_in_fields =
    (field always "fh" 8 ∷ field always "owner" 8 ∷ [])
    ++ fuse_file_lock_fields
    ++ (field (since 9) "lk_flags" 4 ∷ field (since 9) "padding" 4 ∷ [])

abbrev pub fuse_lk_out_fields : Fields
fuse_lk_out_fields = fuse_file_lock_fields

abbrev pub fuse_access_in_fields : Fields
fuse_access_in_fields = field always "mask" 4 ∷ field always "padding" 4 ∷ []

abbrev pub fuse_init_in_fields : Fields
fuse_init_in_fields =
    field always "major" 4
    ∷ field always "minor" 4
    ∷ field always "max_readahead" 4
    ∷ field always "flags" 4
    ∷ []

abbrev pub fuse_init_out_fields : Fields
fuse_init_out_fields =
    field always "major" 4
    ∷ field always "minor" 4
    ∷ field always "max_readahead" 4
    ∷ field always "flags" 4
    ∷ field (before 13) "unused" 4
    ∷ field (since 13) "max_background" 2
    ∷ field (since 13) "congestion_threshold" 2
    ∷ field always "max_write" 4
    ∷ []

abbrev pub cuse_init_in_fields : Fields
cuse_init_in_fields =
    field always "major" 4
    ∷ field always "minor" 4
    ∷ field always "unused" 4
    ∷ field always "flags" 4
    ∷ []

abbrev pub cuse_init_out_fields : Fields
cuse_init_out_fields =
    (field always "major" 4
      ∷ field always "minor" 4
      ∷ field always "unused" 4
      ∷ field always "flags" 4
      ∷ field always "max_read" 4
      ∷ field always "max_write" 4
      ∷ field always "dev_major" 4
      ∷ field always "dev_minor" 4
      ∷ [])
    ++ replicate 10 (field always "spare" 4)

abbrev pub fuse_interrupt_in_fields : Fields
fuse_interrupt_in_fields = field always "unique" 8 ∷ []
