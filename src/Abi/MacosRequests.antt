-- ===== src/Abi/MacosRequests.antt =====
-- The structs of requests (fuse-abi/src/lib.rs) that have other fields on macOS, and the one that only macOS has,
-- at ABI 7.8.
use async_fuse_rs.Prelude.{ℕ, refl, [], ◌∷◌, get_or}
use async_fuse_rs.Abi.Layout.{Repr}

pub record MacosSetattrIn : Type 0 where
  pub valid : ℕ
  pub padding : ℕ
  pub fh : ℕ
  pub size : ℕ
  pub unused1 : ℕ
  pub atime : ℕ
  pub mtime : ℕ
  pub unused2 : ℕ
  pub atimensec : ℕ
  pub mtimensec : ℕ
  pub unused3 : ℕ
  pub mode : ℕ
  pub unused4 : ℕ
  pub uid : ℕ
  pub gid : ℕ
  pub unused5 : ℕ
  pub bkuptime : ℕ
  pub chgtime : ℕ
  pub crtime : ℕ
  pub bkuptimensec : ℕ
  pub chgtimensec : ℕ
  pub crtimensec : ℕ
  pub flags : ℕ

pub record MacosSetxattrIn : Type 0 where
  pub size : ℕ
  pub flags : ℕ
  pub position : ℕ
  pub padding : ℕ

pub record MacosGetxattrIn : Type 0 where
  pub size : ℕ
  pub padding : ℕ
  pub position : ℕ
  pub padding2 : ℕ

pub record FuseExchangeIn : Type 0 where
  pub olddir : ℕ
  pub newdir : ℕ
  pub options : ℕ

abbrev pub macos_setattr_in_repr : Repr MacosSetattrIn
macos_setattr_in_repr = record {
  widths =
      4 ∷ 4 ∷ 8 ∷ 8 ∷ 8 ∷ 8 ∷ 8 ∷ 8 ∷ 4 ∷ 4 ∷ 4 ∷ 4 ∷ 4 ∷ 4 ∷ 4 ∷ 4 ∷ 8 ∷ 8 ∷ 8 ∷ 4 ∷ 4 ∷ 4 ∷ 4
      ∷ [];
  of_fields = λ vs. record {
    valid = get_or vs 0 0;
    padding = get_or vs 1 0;
    fh = get_or vs 2 0;
    size = get_or vs 3 0;
    unused1 = get_or vs 4 0;
    atime = get_or vs 5 0;
    mtime = get_or vs 6 0;
    unused2 = get_or vs 7 0;
    atimensec = get_or vs 8 0;
    mtimensec = get_or vs 9 0;
    unused3 = get_or vs 10 0;
    mode = get_or vs 11 0;
    unused4 = get_or vs 12 0;
    uid = get_or vs 13 0;
    gid = get_or vs 14 0;
    unused5 = get_or vs 15 0;
    bkuptime = get_or vs 16 0;
    chgtime = get_or vs 17 0;
    crtime = get_or vs 18 0;
    bkuptimensec = get_or vs 19 0;
    chgtimensec = get_or vs 20 0;
    crtimensec = get_or vs 21 0;
    flags = get_or vs 22 0;
  };
  to_fields = λ t.
      t.valid ∷ t.padding ∷ t.fh ∷ t.size ∷ t.unused1 ∷ t.atime ∷ t.mtime ∷ t.unused2 ∷ t.atimensec
      ∷ t.mtimensec ∷ t.unused3 ∷ t.mode ∷ t.unused4 ∷ t.uid ∷ t.gid ∷ t.unused5 ∷ t.bkuptime
      ∷ t.chgtime ∷ t.crtime ∷ t.bkuptimensec ∷ t.chgtimensec ∷ t.crtimensec ∷ t.flags ∷ [];
  of_fields-to_fields = λ t. refl;
  to_fields-of_fields = λ bs. refl;
  no_gaps = refl;
}

abbrev pub macos_setxattr_in_repr : Repr MacosSetxattrIn
macos_setxattr_in_repr = record {
  widths = 4 ∷ 4 ∷ 4 ∷ 4 ∷ [];
  of_fields = λ vs. record {
    size = get_or vs 0 0;
    flags = get_or vs 1 0;
    position = get_or vs 2 0;
    padding = get_or vs 3 0;
  };
  to_fields = λ t. t.size ∷ t.flags ∷ t.position ∷ t.padding ∷ [];
  of_fields-to_fields = λ t. refl;
  to_fields-of_fields = λ bs. refl;
  no_gaps = refl;
}

abbrev pub macos_getxattr_in_repr : Repr MacosGetxattrIn
macos_getxattr_in_repr = record {
  widths = 4 ∷ 4 ∷ 4 ∷ 4 ∷ [];
  of_fields = λ vs. record {
    size = get_or vs 0 0;
    padding = get_or vs 1 0;
    position = get_or vs 2 0;
    padding2 = get_or vs 3 0;
  };
  to_fields = λ t. t.size ∷ t.padding ∷ t.position ∷ t.padding2 ∷ [];
  of_fields-to_fields = λ t. refl;
  to_fields-of_fields = λ bs. refl;
  no_gaps = refl;
}

abbrev pub exchange_in_repr : Repr FuseExchangeIn
exchange_in_repr = record {
  widths = 8 ∷ 8 ∷ 8 ∷ [];
  of_fields =
      λ vs. record { olddir = get_or vs 0 0; newdir = get_or vs 1 0; options = get_or vs 2 0 };
  to_fields = λ t. t.olddir ∷ t.newdir ∷ t.options ∷ [];
  of_fields-to_fields = λ t. refl;
  to_fields-of_fields = λ bs. refl;
  no_gaps = refl;
}
