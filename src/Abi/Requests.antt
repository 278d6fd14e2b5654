-- ===== src/Abi/Requests.antt =====
-- The argument structs of requests (fuse-abi/src/lib.rs), at ABI 7.8 on Linux. A field is the number
-- that it holds; the representation lists the widths of the fields in memory order.
use async_fuse_rs.Prelude.{ℕ, refl, [], ◌∷◌, get_or}
use async_fuse_rs.Abi.Layout.{Repr}

pub record FuseForgetIn : Type 0 where
  pub nlookup : ℕ

abbrev pub forget_in_repr : Repr FuseForgetIn
forget_in_repr = record {
  widths = 8 ∷ [];
  of_fields = λ vs. record { nlookup = get_or vs 0 0 };
  to_fields = λ t. t.nlookup ∷ [];
  of_fields-to_fields = λ t. refl;
  to_fields-of_fields = λ bs. refl;
  no_gaps = refl;
}

pub record FuseMknodIn : Type 0 where
  pub mode : ℕ
  pub rdev : ℕ

abbrev pub mknod_in_repr : Repr FuseMknodIn
mknod_in_repr = record {
  widths = 4 ∷ 4 ∷ [];
  of_fields = λ vs. record { mode = get_or vs 0 0; rdev = get_or vs 1 0 };
  to_fields = λ t. t.mode ∷ t.rdev ∷ [];
  of_fields-to_fields = λ t. refl;
  to_fields-of_fields = λ bs. refl;
  no_gaps = refl;
}

pub record FuseMkdirIn : Type 0 where
  pub mode : ℕ
  pub padding : ℕ

abbrev pub mkdir_in_repr : Repr FuseMkdirIn
mkdir_in_repr = record {
  widths = 4 ∷ 4 ∷ [];
  of_fields = λ vs. record { mode = get_or vs 0 0; padding = get_or vs 1 0 };
  to_fields = λ t. t.mode ∷ t.padding ∷ [];
  of_fields-to_fields = λ t. refl;
  to_fields-of_fields = λ bs. refl;
  no_gaps = refl;
}

pub record FuseRenameIn : Type 0 where
  pub newdir : ℕ

abbrev pub rename_in_repr : Repr FuseRenameIn
rename_in_repr = record {
  widths = 8 ∷ [];
  of_fields = λ vs. record { newdir = get_or vs 0 0 };
  to_fields = λ t. t.newdir ∷ [];
  of_fields-to_fields = λ t. refl;
  to_fields-of_fields = λ bs. refl;
  no_gaps = refl;
}

pub record FuseLinkIn : Type 0 where
  pub oldnodeid : ℕ

abbrev pub link_in_repr : Repr FuseLinkIn
link_in_repr = record {
  widths = 8 ∷ [];
  of_fields = λ vs. record { oldnodeid = get_or vs 0 0 };
  to_fields = λ t. t.oldnodeid ∷ [];
  of_fields-to_fields = λ t. refl;
  to_fields-of_fields = λ bs. refl;
  no_gaps = refl;
}

pub record FuseSetattrIn : Type 0 where
  pub valid : ℕ
  pub padding : ℕ
  pub fh : ℕ
  pub size : ℕ
  pub unused1 : ℕ
  pub atime : ℕ
  pub mtime : ℕ
  pub unused2 : ℕ
  pub atimensec : ℕ
  pub mtimensec : ℕ
  pub unused3 : ℕ
  pub mode : ℕ
  pub unused4 : ℕ
  pub uid : ℕ
  pub gid : ℕ
  pub unused5 : ℕ

abbrev pub setattr_in_repr : Repr FuseSetattrIn
setattr_in_repr = record {
  widths = 4 ∷ 4 ∷ 8 ∷ 8 ∷ 8 ∷ 8 ∷ 8 ∷ 8 ∷ 4 ∷ 4 ∷ 4 ∷ 4 ∷ 4 ∷ 4 ∷ 4 ∷ 4 ∷ [];
  of_fields = λ vs. record {
    valid = get_or vs 0 0;
    padding = get_or vs 1 0;
    fh = get_or vs 2 0;
    size = get_or vs 3 0;
    unused1 = get_or vs 4 0;
    atime = get_or vs 5 0;
    mtime = get_or vs 6 0;
    unused2 = get_or vs 7 0;
    atimensec = get_or vs 8 0;
    mtimensec = get_or vs 9 0;
    unused3 = get_or vs 10 0;
    mode = get_or vs 11 0;
    unused4 = get_or vs 12 0;
    uid = get_or vs 13 0;
    gid = get_or vs 14 0;
    unused5 = get_or vs 15 0;
  };
  to_fields = λ t.
      t.valid ∷ t.padding ∷ t.fh ∷ t.size ∷ t.unused1 ∷ t.atime ∷ t.mtime ∷ t.unused2 ∷ t.atimensec
      ∷ t.mtimensec ∷ t.unused3 ∷ t.mode ∷ t.unused4 ∷ t.uid ∷ t.gid ∷ t.unused5 ∷ [];
  of_fields-to_fields = λ t. refl;
  to_fields-of_fields = λ bs. refl;
  no_gaps = refl;
}

pub record FuseOpenIn : Type 0 where
  pub flags : ℕ
  pub unused : ℕ

abbrev pub open_in_repr : Repr FuseOpenIn
open_in_repr = record {
  widths = 4 ∷ 4 ∷ [];
  of_fields = λ vs. record { flags = get_or vs 0 0; unused = get_or vs 1 0 };
  to_fields = λ t. t.flags ∷ t.unused ∷ [];
  of_fields-to_fields = λ t. refl;
  to_fields-of_fields = λ bs. refl;
  no_gaps = refl;
}

pub record FuseCreateIn : Type 0 where
  pub flags : ℕ
  pub mode : ℕ

abbrev pub create_in_repr : Repr FuseCreateIn
create_in_repr = record {
  widths = 4 ∷ 4 ∷ [];
  of_fields = λ vs. record { flags = get_or vs 0 0; mode = get_or vs 1 0 };
  to_fields = λ t. t.flags ∷ t.mode ∷ [];
  of_fields-to_fields = λ t. refl;
  to_fields-of_fields = λ bs. refl;
  no_gaps = refl;
}

pub record FuseReleaseIn : Type 0 where
  pub fh : ℕ
  pub flags : ℕ
  pub release_flags : ℕ
  pub lock_owner : ℕ

abbrev pub release_in_repr : Repr FuseReleaseIn
release_in_repr = record {
  widths = 8 ∷ 4 ∷ 4 ∷ 8 ∷ [];
  of_fields = λ vs. record {
    fh = get_or vs 0 0;
    flags = get_or vs 1 0;
    release_flags = get_or vs 2 0;
    lock_owner = get_or vs 3 0;
  };
  to_fields = λ t. t.fh ∷ t.flags ∷ t.release_flags ∷ t.lock_owner ∷ [];
  of_fields-to_fields = λ t. refl;
  to_fields-of_fields = λ bs. refl;
  no_gaps = refl;
}

pub record FuseFlushIn : Type 0 where
  pub fh : ℕ
  pub unused : ℕ
  pub padding : ℕ
  pub lock_owner : ℕ

abbrev pub flush_in_repr : Repr FuseFlushIn
flush_in_repr = record {
  widths = 8 ∷ 4 ∷ 4 ∷ 8 ∷ [];
  of_fields = λ vs. record {
    fh = get_or vs 0 0;
    unused = get_or vs 1 0;
    padding = get_or vs 2 0;
    lock_owner = get_or vs 3 0;
  };
  to_fields = λ t. t.fh ∷ t.unused ∷ t.padding ∷ t.lock_owner ∷ [];
  of_fields-to_fields = λ t. refl;
  to_fields-of_fields = λ bs. refl;
  no_gaps = refl;
}
