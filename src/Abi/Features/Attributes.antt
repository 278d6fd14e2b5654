-- ===== src/Abi/Features/Attributes.antt =====
-- The structs of fuse-abi/src/lib.rs up to `fuse_setattr_in`, field by field, with the conditions under which
-- each field is compiled.
use async_fuse_rs.Prelude.{[], ◌∷◌, ◌++◌, replicate}
use async_fuse_rs.Abi.Features.{Fields, field, always, since, before, on_macos}

abbrev pub fuse_attr_fields : Fields
fuse_attr_fields =
    field always "ino" 8
    ∷ field always "size" 8
    ∷ field always "blocks" 8
    ∷ field always "atime" 8
    ∷ field always "mtime" 8
    ∷ field always "ctime" 8
    ∷ field on_macos "crtime" 8
    ∷ field always "atimensec" 4
    ∷ field always "mtimensec" 4
    ∷ field always "ctimensec" 4
    ∷ field on_macos "crtimensec" 4
    ∷ field always "mode" 4
    ∷ field always "nlink" 4
    ∷ field always "uid" 4
    ∷ field always "gid" 4
    ∷ field always "rdev" 4
    ∷ field on_macos "flags" 4
    ∷ field (since 9) "blksize" 4
    ∷ field (since 9) "padding" 4
    ∷ []

abbrev pub fuse_kstatfs_fields : Fields
fuse_kstatfs_fields =
    (field always "blocks" 8
      ∷ field always "bfree" 8
      ∷ field always "bavail" 8
      ∷ field always "files" 8
      ∷ field always "ffree" 8
      ∷ field always "bsize" 4
      ∷ field always "namelen" 4
      ∷ field always "frsize" 4
      ∷ field always "padding" 4
      ∷ [])
    ++ replicate 6 (field always "spare" 4)

abbrev pub fuse_file_lock_fields : Fields
fuse_file_lock_fields =
    field always "start" 8 ∷ field always "end" 8 ∷ field always "typ" 4 ∷ field always "pid" 4 ∷ []

abbrev pub fuse_entry_out_fields : Fields
fuse_entry_out_fields =
    (field always "nodeid" 8
      ∷ field always "generation" 8
      ∷ field always "entry_valid" 8
      ∷ field always "attr_valid" 8
      ∷ field always "entry_valid_nsec" 4
      ∷ field always "attr_valid_nsec" 4
      ∷ [])
    ++ fuse_attr_fields

abbrev pub fuse_forget_in_fields : Fields
fuse_forget_in_fields = field always "nlookup" 8 ∷ []

abbrev pub fuse_forget_one_fields : Fields
fuse_forget_one_fields = field always "nodeid" 8 ∷ field always "nlookup" 8 ∷ []

abbrev pub fuse_batch_forget_in_fields : Fields
fuse_batch_forget_in_fields = field always "count" 4 ∷ field always "dummy" 4 ∷ []

abbrev pub fuse_getattr_in_fields : Fields
fuse_getattr_in_fields =
    field always "getattr_flags" 4 ∷ field always "dummy" 4 ∷ field always "fh" 8 ∷ []

abbrev pub fuse_attr_out_fields : Fields
fuse_attr_out_fields =
    (field always "attr_valid" 8 ∷ field always "attr_valid_nsec" 4 ∷ field always "dummy" 4 ∷ [])
    ++ fuse_attr_fields

abbrev pub fuse_getxtimes_out_fields : Fields
fuse_getxtimes_out_fields =
    field always "bkuptime" 8
    ∷ field always "crtime" 8
    ∷ field always "bkuptimensec" 4
    ∷ field always "crtimensec" 4
    ∷ []

abbrev pub fuse_mknod_in_fields : Fields
fuse_mknod_in_fields =
    field always "mode" 4
    ∷ field always "rdev" 4
    ∷ field (since 12) "umask" 4
    ∷ field (since 12) "padding" 4
    ∷ []

abbrev pub fuse_mkdir_in_fields : Fields
fuse_mkdir_in_fields =
    field always "mode" 4 ∷ field (before 12) "padding" 4 ∷ field (since 12) "umask" 4 ∷ []

abbrev pub fuse_rename_in_fields : Fields
fuse_rename_in_fields = field always "newdir" 8 ∷ []

abbrev pub fuse_exchange_in_fields : Fields
fuse_exchange_in_fields =
    field always "olddir" 8 ∷ field always "newdir" 8 ∷ field always "options" 8 ∷ []

abbrev pub fuse_link_in_fields : Fields
fuse_link_in_fields = field always "oldnodeid" 8 ∷ []

abbrev pub fuse_setattr_in_fields : Fields
fuse_setattr_in_fields =
    field always "valid" 4
    ∷ field always "padding" 4
    ∷ field always "fh" 8
    ∷ field always "size" 8
    ∷ field (before 9) "unused1" 8
    ∷ field (since 9) "lock_owner" 8
    ∷ field always "atime" 8
    ∷ field always "mtime" 8
    ∷ field always "unused2" 8
    ∷ field always "atimensec" 4
    ∷ field always "mtimensec" 4
    ∷ field always "unused3" 4
    ∷ field always "mode" 4
    ∷ field always "unused4" 4
    ∷ field always "uid" 4
    ∷ field always "gid" 4
    ∷ field always "unused5" 4
    ∷ field on_macos "bkuptime" 8
    ∷ field on_macos "chgtime" 8
    ∷ field on_macos "crtime" 8
    ∷ field on_macos "bkuptimensec" 4
    ∷ field on_macos "chgtimensec" 4
    ∷ field on_macos "crtimensec" 4
    ∷ field on_macos "flags" 4
    ∷ []
