-- ===== src/Abi/Replies.antt =====
-- The structs of replies (fuse-abi/src/lib.rs), at ABI 7.8 on Linux. `error` of the header is the
-- bit pattern of an i32.
use async_fuse_rs.Prelude.{ℕ, refl, [], ◌∷◌, get_or}
use async_fuse_rs.Abi.Layout.{Repr}
use async_fuse_rs.Abi.FileRequests.{FuseFileLock}

pub record FuseAttr : Type 0 where
  pub ino : ℕ
  pub size : ℕ
  pub blocks : ℕ
  pub atime : ℕ
  pub mtime : ℕ
  pub ctime : ℕ
  pub atimensec : ℕ
  pub mtimensec : ℕ
  pub ctimensec : ℕ
  pub mode : ℕ
  pub nlink : ℕ
  pub uid : ℕ
  pub gid : ℕ
  pub rdev : ℕ

pub record FuseKstatfs : Type 0 where
  pub blocks : ℕ
  pub bfree : ℕ
  pub bavail : ℕ
  pub files : ℕ
  pub ffree : ℕ
  pub bsize : ℕ
  pub namelen : ℕ
  pub frsize : ℕ
  pub padding : ℕ
  pub spare : ℕ × ℕ × ℕ × ℕ × ℕ × ℕ

pub record FuseEntryOut : Type 0 where
  pub nodeid : ℕ
  pub generation : ℕ
  pub entry_valid : ℕ
  pub attr_valid : ℕ
  pub entry_valid_nsec : ℕ
  pub attr_valid_nsec : ℕ
  pub attr : FuseAttr

abbrev pub entry_out_repr : Repr FuseEntryOut
entry_out_repr = record {
  widths = 8 ∷ 8 ∷ 8 ∷ 8 ∷ 4 ∷ 4 ∷ 8 ∷ 8 ∷ 8 ∷ 8 ∷ 8 ∷ 8 ∷ 4 ∷ 4 ∷ 4 ∷ 4 ∷ 4 ∷ 4 ∷ 4 ∷ 4 ∷ [];
  of_fields = λ vs. record {
    nodeid = get_or vs 0 0;
    generation = get_or vs 1 0;
    entry_valid = get_or vs 2 0;
    attr_valid = get_or vs 3 0;
    entry_valid_nsec = get_or vs 4 0;
    attr_valid_nsec = get_or vs 5 0;
    attr = record {
      ino = get_or vs 6 0;
      size = get_or vs 7 0;
      blocks = get_or vs 8 0;
      atime = get_or vs 9 0;
      mtime = get_or vs 10 0;
      ctime = get_or vs 11 0;
      atimensec = get_or vs 12 0;
      mtimensec = get_or vs 13 0;
      ctimensec = get_or vs 14 0;
      mode = get_or vs 15 0;
      nlink = get_or vs 16 0;
      uid = get_or vs 17 0;
      gid = get_or vs 18 0;
      rdev = get_or vs 19 0;
    };
  };
  to_fields = λ t.
      t.nodeid ∷ t.generation ∷ t.entry_valid ∷ t.attr_valid ∷ t.entry_valid_nsec
      ∷ t.attr_valid_nsec ∷ t.attr.ino ∷ t.attr.size ∷ t.attr.blocks ∷ t.attr.atime ∷ t.attr.mtime
      ∷ t.attr.ctime ∷ t.attr.atimensec ∷ t.attr.mtimensec ∷ t.attr.ctimensec ∷ t.attr.mode
      ∷ t.attr.nlink ∷ t.attr.uid ∷ t.attr.gid ∷ t.attr.rdev ∷ [];
  of_fields-to_fields = λ t. refl;
  to_fields-of_fields = λ bs. refl;
  no_gaps = refl;
}

pub record FuseAttrOut : Type 0 where
  pub attr_valid : ℕ
  pub attr_valid_nsec : ℕ
  pub dummy : ℕ
  pub attr : FuseAttr

abbrev pub attr_out_repr : Repr FuseAttrOut
attr_out_repr = record {
  widths = 8 ∷ 4 ∷ 4 ∷ 8 ∷ 8 ∷ 8 ∷ 8 ∷ 8 ∷ 8 ∷ 4 ∷ 4 ∷ 4 ∷ 4 ∷ 4 ∷ 4 ∷ 4 ∷ 4 ∷ [];
  of_fields = λ vs. record {
    attr_valid = get_or vs 0 0;
    attr_valid_nsec = get_or vs 1 0;
    dummy = get_or vs 2 0;
    attr = record {
      ino = get_or vs 3 0;
      size = get_or vs 4 0;
      blocks = get_or vs 5 0;
      atime = get_or vs 6 0;
      mtime = get_or vs 7 0;
      ctime = get_or vs 8 0;
      atimensec = get_or vs 9 0;
      mtimensec = get_or vs 10 0;
      ctimensec = get_or vs 11 0;
      mode = get_or vs 12 0;
      nlink = get_or vs 13 0;
      uid = get_or vs 14 0;
      gid = get_or vs 15 0;
      rdev = get_or vs 16 0;
    };
  };
  to_fields = λ t.
      t.attr_valid ∷ t.attr_valid_nsec ∷ t.dummy ∷ t.attr.ino ∷ t.attr.size ∷ t.attr.blocks
      ∷ t.attr.atime ∷ t.attr.mtime ∷ t.attr.ctime ∷ t.attr.atimensec ∷ t.attr.mtimensec
      ∷ t.attr.ctimensec ∷ t.attr.mode ∷ t.attr.nlink ∷ t.attr.uid ∷ t.attr.gid ∷ t.attr.rdev ∷ [];
  of_fields-to_fields = λ t. refl;
  to_fields-of_fields = λ bs. refl;
  no_gaps = refl;
}

pub record FuseOpenOut : Type 0 where
  pub fh : ℕ
  pub open_flags : ℕ
  pub padding : ℕ

abbrev pub open_out_repr : Repr FuseOpenOut
open_out_repr = record {
  widths = 8 ∷ 4 ∷ 4 ∷ [];
  of_fields =
      λ vs. record { fh = get_or vs 0 0; open_flags = get_or vs 1 0; padding = get_or vs 2 0 };
  to_fields = λ t. t.fh ∷ t.open_flags ∷ t.padding ∷ [];
  of_fields-to_fields = λ t. refl;
  to_fields-of_fields = λ bs. refl;
  no_gaps = refl;
}

pub record FuseWriteOut : Type 0 where
  pub size : ℕ
  pub padding : ℕ

abbrev pub write_out_repr : Repr FuseWriteOut
write_out_repr = record {
  widths = 4 ∷ 4 ∷ [];
  of_fields = λ vs. record { size = get_or vs 0 0; padding = get_or vs 1 0 };
  to_fields = λ t. t.size ∷ t.padding ∷ [];
  of_fields-to_fields = λ t. refl;
  to_fields-of_fields = λ bs. refl;
  no_gaps = refl;
}

pub record FuseStatfsOut : Type 0 where
  pub st : FuseKstatfs

abbrev pub statfs_out_repr : Repr FuseStatfsOut
statfs_out_repr = record {
  widths = 8 ∷ 8 ∷ 8 ∷ 8 ∷ 8 ∷ 4 ∷ 4 ∷ 4 ∷ 4 ∷ 4 ∷ 4 ∷ 4 ∷ 4 ∷ 4 ∷ 4 ∷ [];
  of_fields = λ vs. record {
    st = record {
      blocks = get_or vs 0 0;
      bfree = get_or vs 1 0;
      bavail = get_or vs 2 0;
      files = get_or vs 3 0;
      ffree = get_or vs 4 0;
      bsize = get_or vs 5 0;
      namelen = get_or vs 6 0;
      frsize = get_or vs 7 0;
      padding = get_or vs 8 0;
      spare = (
        get_or vs 9 0,
        get_or vs 10 0,
        get_or vs 11 0,
        get_or vs 12 0,
        get_or vs 13 0,
        get_or vs 14 0,
      );
    };
  };
  to_fields = λ t.
      t.st.blocks ∷ t.st.bfree ∷ t.st.bavail ∷ t.st.files ∷ t.st.ffree ∷ t.st.bsize ∷ t.st.namelen
      ∷ t.st.frsize ∷ t.st.padding ∷ t.st.spare.0 ∷ t.st.spare.1 ∷ t.st.spare.2 ∷ t.st.spare.3
      ∷ t.st.spare.4 ∷ t.st.spare.5 ∷ [];
  of_fields-to_fields = λ t. refl;
  to_fields-of_fields = λ bs. refl;
  no_gaps = refl;
}

pub record FuseGetxattrOut : Type 0 where
  pub size : ℕ
  pub padding : ℕ

abbrev pub getxattr_out_repr : Repr FuseGetxattrOut
getxattr_out_repr = record {
  widths = 4 ∷ 4 ∷ [];
  of_fields = λ vs. record { size = get_or vs 0 0; padding = get_or vs 1 0 };
  to_fields = λ t. t.size ∷ t.padding ∷ [];
  of_fields-to_fields = λ t. refl;
  to_fields-of_fields = λ bs. refl;
  no_gaps = refl;
}

pub record FuseLkOut : Type 0 where
  pub lk : FuseFileLock

abbrev pub lk_out_repr : Repr FuseLkOut
lk_out_repr = record {
  widths = 8 ∷ 8 ∷ 4 ∷ 4 ∷ [];
  of_fields = λ vs. record {
    lk = record {
      start = get_or vs 0 0;
      end = get_or vs 1 0;
      typ = get_or vs 2 0;
      pid = get_or vs 3 0;
    };
  };
  to_fields = λ t. t.lk.start ∷ t.lk.end ∷ t.lk.typ ∷ t.lk.pid ∷ [];
  of_fields-to_fields = λ t. refl;
  to_fields-of_fields = λ bs. refl;
  no_gaps = refl;
}

pub record FuseInitOut : Type 0 where
  pub major : ℕ
  pub minor : ℕ
  pub max_readahead : ℕ
  pub flags : ℕ
  pub unused : ℕ
  pub max_write : ℕ

abbrev pub init_out_repr : Repr FuseInitOut
init_out_repr = record {
  widths = 4 ∷ 4 ∷ 4 ∷ 4 ∷ 4 ∷ 4 ∷ [];
  of_fields = λ vs. record {
    major = get_or vs 0 0;
    minor = get_or vs 1 0;
    max_readahead = get_or vs 2 0;
    flags = get_or vs 3 0;
    unused = get_or vs 4 0;
    max_write = get_or vs 5 0;
  };
  to_fields = λ t. t.major ∷ t.minor ∷ t.max_readahead ∷ t.flags ∷ t.unused ∷ t.max_write ∷ [];
  of_fields-to_fields = λ t. refl;
  to_fields-of_fields = λ bs. refl;
  no_gaps = refl;
}

pub record FuseBmapOut : Type 0 where
  pub block : ℕ

abbrev pub bmap_out_repr : Repr FuseBmapOut
bmap_out_repr = record {
  widths = 8 ∷ [];
  of_fields = λ vs. record { block = get_or vs 0 0 };
  to_fields = λ t. t.block ∷ [];
  of_fields-to_fields = λ t. refl;
  to_fields-of_fields = λ bs. refl;
  no_gaps = refl;
}

pub record FuseOutHeader : Type 0 where
  pub len : ℕ
  pub error : ℕ
  pub unique : ℕ

abbrev pub out_header_repr : Repr FuseOutHeader
out_header_repr = record {
  widths = 4 ∷ 4 ∷ 8 ∷ [];
  of_fields = λ vs. record { len = get_or vs 0 0; error = get_or vs 1 0; unique = get_or vs 2 0 };
  to_fields = λ t. t.len ∷ t.error ∷ t.unique ∷ [];
  of_fields-to_fields = λ t. refl;
  to_fields-of_fields = λ bs. refl;
  no_gaps = refl;
}

pub record FuseDirent : Type 0 where
  pub ino : ℕ
  pub off : ℕ
  pub namelen : ℕ
  pub typ : ℕ

abbrev pub dirent_repr : Repr FuseDirent
dirent_repr = record {
  widths = 8 ∷ 8 ∷ 4 ∷ 4 ∷ [];
  of_fields = λ vs. record {
    ino = get_or vs 0 0;
    off = get_or vs 1 0;
    namelen = get_or vs 2 0;
    typ = get_or vs 3 0;
  };
  to_fields = λ t. t.ino ∷ t.off ∷ t.namelen ∷ t.typ ∷ [];
  of_fields-to_fields = λ t. refl;
  to_fields-of_fields = λ bs. refl;
  no_gaps = refl;
}
