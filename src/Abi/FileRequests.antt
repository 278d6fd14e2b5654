-- ===== src/Abi/FileRequests.antt =====
-- The argument structs of the requests on open files, attributes and the session itself, and the
-- header of every request (fuse-abi/src/lib.rs), at ABI 7.8 on Linux.
use async_fuse_rs.Prelude.{ℕ, refl, [], ◌∷◌, get_or}
use async_fuse_rs.Abi.Layout.{Repr}

pub record FuseReadIn : Type 0 where
  pub fh : ℕ
  pub offset : ℕ
  pub size : ℕ

abbrev pub read_in_repr : Repr FuseReadIn
read_in_repr = record {
  widths = 8 ∷ 8 ∷ 4 ∷ [];
  of_fields = λ vs. record { fh = get_or vs 0 0; offset = get_or vs 1 0; size = get_or vs 2 0 };
  to_fields = λ t. t.fh ∷ t.offset ∷ t.size ∷ [];
  of_fields-to_fields = λ t. refl;
  to_fields-of_fields = λ bs. refl;
  no_gaps = refl;
}

pub record FuseWriteIn : Type 0 where
  pub fh : ℕ
  pub offset : ℕ
  pub size : ℕ
  pub write_flags : ℕ

abbrev pub write_in_repr : Repr FuseWriteIn
write_in_repr = record {
  widths = 8 ∷ 8 ∷ 4 ∷ 4 ∷ [];
  of_fields = λ vs. record {
    fh = get_or vs 0 0;
    offset = get_or vs 1 0;
    size = get_or vs 2 0;
    write_flags = get_or vs 3 0;
  };
  to_fields = λ t. t.fh ∷ t.offset ∷ t.size ∷ t.write_flags ∷ [];
  of_fields-to_fields = λ t. refl;
  to_fields-of_fields = λ bs. refl;
  no_gaps = refl;
}

pub record FuseFsyncIn : Type 0 where
  pub fh : ℕ
  pub fsync_flags : ℕ
  pub padding : ℕ

abbrev pub fsync_in_repr : Repr FuseFsyncIn
fsync_in_repr = record {
  widths = 8 ∷ 4 ∷ 4 ∷ [];
  of_fields =
      λ vs. record { fh = get_or vs 0 0; fsync_flags = get_or vs 1 0; padding = get_or vs 2 0 };
  to_fields = λ t. t.fh ∷ t.fsync_flags ∷ t.padding ∷ [];
  of_fields-to_fields = λ t. refl;
  to_fields-of_fields = λ bs. refl;
  no_gaps = refl;
}

pub record FuseSetxattrIn : Type 0 where
  pub size : ℕ
  pub flags : ℕ

abbrev pub setxattr_in_repr : Repr FuseSetxattrIn
setxattr_in_repr = record {
  widths = 4 ∷ 4 ∷ [];
  of_fields = λ vs. record { size = get_or vs 0 0; flags = get_or vs 1 0 };
  to_fields = λ t. t.size ∷ t.flags ∷ [];
  of_fields-to_fields = λ t. refl;
  to_fields-of_fields = λ bs. refl;
  no_gaps = refl;
}

pub record FuseGetxattrIn : Type 0 where
  pub size : ℕ
  pub padding : ℕ

abbrev pub getxattr_in_repr : Repr FuseGetxattrIn
getxattr_in_repr = record {
  widths = 4 ∷ 4 ∷ [];
  of_fields = λ vs. record { size = get_or vs 0 0; padding = get_or vs 1 0 };
  to_fields = λ t. t.size ∷ t.padding ∷ [];
  of_fields-to_fields = λ t. refl;
  to_fields-of_fields = λ bs. refl;
  no_gaps = refl;
}

pub record FuseFileLock : Type 0 where
  pub start : ℕ
  pub end : ℕ
  pub typ : ℕ
  pub pid : ℕ

pub record FuseLkIn : Type 0 where
  pub fh : ℕ
  pub owner : ℕ
  pub lk : FuseFileLock

abbrev pub lk_in_repr : Repr FuseLkIn
lk_in_repr = record {
  widths = 8 ∷ 8 ∷ 8 ∷ 8 ∷ 4 ∷ 4 ∷ [];
  of_fields = λ vs. record {
    fh = get_or vs 0 0;
    owner = get_or vs 1 0;
    lk = record {
      start = get_or vs 2 0;
      end = get_or vs 3 0;
      typ = get_or vs 4 0;
      pid = get_or vs 5 0;
    };
  };
  to_fields = λ t. t.fh ∷ t.owner ∷ t.lk.start ∷ t.lk.end ∷ t.lk.typ ∷ t.lk.pid ∷ [];
  of_fields-to_fields = λ t. refl;
  to_fields-of_fields = λ bs. refl;
  no_gaps = refl;
}

pub record FuseAccessIn : Type 0 where
  pub mask : ℕ
  pub padding : ℕ

abbrev pub access_in_repr : Repr FuseAccessIn
access_in_repr = record {
  widths = 4 ∷ 4 ∷ [];
  of_fields = λ vs. record { mask = get_or vs 0 0; padding = get_or vs 1 0 };
  to_fields = λ t. t.mask ∷ t.padding ∷ [];
  of_fields-to_fields = λ t. refl;
  to_fields-of_fields = λ bs. refl;
  no_gaps = refl;
}

pub record FuseInitIn : Type 0 where
  pub major : ℕ
  pub minor : ℕ
  pub max_readahead : ℕ
  pub flags : ℕ

abbrev pub init_in_repr : Repr FuseInitIn
init_in_repr = record {
  widths = 4 ∷ 4 ∷ 4 ∷ 4 ∷ [];
  of_fields = λ vs. record {
    major = get_or vs 0 0;
    minor = get_or vs 1 0;
    max_readahead = get_or vs 2 0;
    flags = get_or vs 3 0;
  };
  to_fields = λ t. t.major ∷ t.minor ∷ t.max_readahead ∷ t.flags ∷ [];
  of_fields-to_fields = λ t. refl;
  to_fields-of_fields = λ bs. refl;
  no_gaps = refl;
}

pub record FuseInterruptIn : Type 0 where
  pub unique : ℕ

abbrev pub interrupt_in_repr : Repr FuseInterruptIn
interrupt_in_repr = record {
  widths = 8 ∷ [];
  of_fields = λ vs. record { unique = get_or vs 0 0 };
  to_fields = λ t. t.unique ∷ [];
  of_fields-to_fields = λ t. refl;
  to_fields-of_fields = λ bs. refl;
  no_gaps = refl;
}

pub record FuseBmapIn : Type 0 where
  pub block : ℕ
  pub blocksize : ℕ
  pub padding : ℕ

abbrev pub bmap_in_repr : Repr FuseBmapIn
bmap_in_repr = record {
  widths = 8 ∷ 4 ∷ 4 ∷ [];
  of_fields =
      λ vs. record { block = get_or vs 0 0; blocksize = get_or vs 1 0; padding = get_or vs 2 0 };
  to_fields = λ t. t.block ∷ t.blocksize ∷ t.padding ∷ [];
  of_fields-to_fields = λ t. refl;
  to_fields-of_fields = λ bs. refl;
  no_gaps = refl;
}

pub record FuseInHeader : Type 0 where
  pub len : ℕ
  pub opcode : ℕ
  pub unique : ℕ
  pub nodeid : ℕ
  pub uid : ℕ
  pub gid : ℕ
  pub pid : ℕ
  pub padding : ℕ

abbrev pub in_header_repr : Repr FuseInHeader
in_header_repr = record {
  widths = 4 ∷ 4 ∷ 8 ∷ 8 ∷ 4 ∷ 4 ∷ 4 ∷ 4 ∷ [];
  of_fields = λ vs. record {
    len = get_or vs 0 0;
    opcode = get_or vs 1 0;
    unique = get_or vs 2 0;
    nodeid = get_or vs 3 0;
    uid = get_or vs 4 0;
    gid = get_or vs 5 0;
    pid = get_or vs 6 0;
    padding = get_or vs 7 0;
  };
  to_fields = λ t. t.len ∷ t.opcode ∷ t.unique ∷ t.nodeid ∷ t.uid ∷ t.gid ∷ t.pid ∷ t.padding ∷ [];
  of_fields-to_fields = λ t. refl;
  to_fields-of_fields = λ bs. refl;
  no_gaps = refl;
}
