-- ===== src/Abi/Macos.antt =====
-- The structs of fuse-abi/src/lib.rs that have other fields on macOS, and the one that only macOS has, at
-- ABI 7.8.
use async_fuse_rs.Prelude.{ℕ, refl, [], ◌∷◌, ◌++◌, drop, get_or}
use async_fuse_rs.Abi.Layout.{Repr}
use async_fuse_rs.Abi.Replies.{FuseOpenOut, open_out_repr}

-- `fuse_attr`, with the time of creation and the flags.
pub record MacosAttr : Type 0 where
  pub ino : ℕ
  pub size : ℕ
  pub blocks : ℕ
  pub atime : ℕ
  pub mtime : ℕ
  pub ctime : ℕ
  pub crtime : ℕ
  pub atimensec : ℕ
  pub mtimensec : ℕ
  pub ctimensec : ℕ
  pub crtimensec : ℕ
  pub mode : ℕ
  pub nlink : ℕ
  pub uid : ℕ
  pub gid : ℕ
  pub rdev : ℕ
  pub flags : ℕ

pub record MacosEntryOut : Type 0 where
  pub nodeid : ℕ
  pub generation : ℕ
  pub entry_valid : ℕ
  pub attr_valid : ℕ
  pub entry_valid_nsec : ℕ
  pub attr_valid_nsec : ℕ
  pub attr : MacosAttr

pub record MacosAttrOut : Type 0 where
  pub attr_valid : ℕ
  pub attr_valid_nsec : ℕ
  pub dummy : ℕ
  pub attr : MacosAttr

pub record FuseGetxtimesOut : Type 0 where
  pub bkuptime : ℕ
  pub crtime : ℕ
  pub bkuptimensec : ℕ
  pub crtimensec : ℕ

abbrev pub macos_entry_out_repr : Repr MacosEntryOut
macos_entry_out_repr = record {
  widths =
      8 ∷ 8 ∷ 8 ∷ 8 ∷ 4 ∷ 4 ∷ 8 ∷ 8 ∷ 8 ∷ 8 ∷ 8 ∷ 8 ∷ 8 ∷ 4 ∷ 4 ∷ 4 ∷ 4 ∷ 4 ∷ 4 ∷ 4 ∷ 4 ∷ 4 ∷ 4
      ∷ [];
  of_fields = λ vs. record {
    nodeid = get_or vs 0 0;
    generation = get_or vs 1 0;
    entry_valid = get_or vs 2 0;
    attr_valid = get_or vs 3 0;
    entry_valid_nsec = get_or vs 4 0;
    attr_valid_nsec = get_or vs 5 0;
    attr = record {
      ino = get_or vs 6 0;
      size = get_or vs 7 0;
      blocks = get_or vs 8 0;
      atime = get_or vs 9 0;
      mtime = get_or vs 10 0;
      ctime = get_or vs 11 0;
      crtime = get_or vs 12 0;
      atimensec = get_or vs 13 0;
      mtimensec = get_or vs 14 0;
      ctimensec = get_or vs 15 0;
      crtimensec = get_or vs 16 0;
      mode = get_or vs 17 0;
      nlink = get_or vs 18 0;
      uid = get_or vs 19 0;
      gid = get_or vs 20 0;
      rdev = get_or vs 21 0;
      flags = get_or vs 22 0;
    };
  };
  to_fields = λ t.
      t.nodeid ∷ t.generation ∷ t.entry_valid ∷ t.attr_valid ∷ t.entry_valid_nsec
      ∷ t.attr_valid_nsec ∷ t.attr.ino ∷ t.attr.size ∷ t.attr.blocks ∷ t.attr.atime ∷ t.attr.mtime
      ∷ t.attr.ctime ∷ t.attr.crtime ∷ t.attr.atimensec ∷ t.attr.mtimensec ∷ t.attr.ctimensec
      ∷ t.attr.crtimensec ∷ t.attr.mode ∷ t.attr.nlink ∷ t.attr.uid ∷ t.attr.gid ∷ t.attr.rdev
      ∷ t.attr.flags ∷ [];
  of_fields-to_fields = λ t. refl;
  to_fields-of_fields = λ bs. refl;
  no_gaps = refl;
}

abbrev pub macos_attr_out_repr : Repr MacosAttrOut
macos_attr_out_repr = record {
  widths = 8 ∷ 4 ∷ 4 ∷ 8 ∷ 8 ∷ 8 ∷ 8 ∷ 8 ∷ 8 ∷ 8 ∷ 4 ∷ 4 ∷ 4 ∷ 4 ∷ 4 ∷ 4 ∷ 4 ∷ 4 ∷ 4 ∷ 4 ∷ [];
  of_fields = λ vs. record {
    attr_valid = get_or vs 0 0;
    attr_valid_nsec = get_or vs 1 0;
    dummy = get_or vs 2 0;
    attr = record {
      ino = get_or vs 3 0;
      size = get_or vs 4 0;
      blocks = get_or vs 5 0;
      atime = get_or vs 6 0;
      mtime = get_or vs 7 0;
      ctime = get_or vs 8 0;
      crtime = get_or vs 9 0;
      atimensec = get_or vs 10 0;
      mtimensec = get_or vs 11 0;
      ctimensec = get_or vs 12 0;
      crtimensec = get_or vs 13 0;
      mode = get_or vs 14 0;
      nlink = get_or vs 15 0;
      uid = get_or vs 16 0;
      gid = get_or vs 17 0;
      rdev = get_or vs 18 0;
      flags = get_or vs 19 0;
    };
  };
  to_fields = λ t.
      t.attr_valid ∷ t.attr_valid_nsec ∷ t.dummy ∷ t.attr.ino ∷ t.attr.size ∷ t.attr.blocks
      ∷ t.attr.atime ∷ t.attr.mtime ∷ t.attr.ctime ∷ t.attr.crtime ∷ t.attr.atimensec
      ∷ t.attr.mtimensec ∷ t.attr.ctimensec ∷ t.attr.crtimensec ∷ t.attr.mode ∷ t.attr.nlink
      ∷ t.attr.uid ∷ t.attr.gid ∷ t.attr.rdev ∷ t.attr.flags ∷ [];
  of_fields-to_fields = λ t. refl;
  to_fields-of_fields = λ bs. refl;
  no_gaps = refl;
}

abbrev pub getxtimes_out_repr : Repr FuseGetxtimesOut
getxtimes_out_repr = record {
  widths = 8 ∷ 8 ∷ 4 ∷ 4 ∷ [];
  of_fields = λ vs. record {
    bkuptime = get_or vs 0 0;
    crtime = get_or vs 1 0;
    bkuptimensec = get_or vs 2 0;
    crtimensec = get_or vs 3 0;
  };
  to_fields = λ t. t.bkuptime ∷ t.crtime ∷ t.bkuptimensec ∷ t.crtimensec ∷ [];
  of_fields-to_fields = λ t. refl;
  to_fields-of_fields = λ bs. refl;
  no_gaps = refl;
}

-- The pair that `ReplyCreate` sends.
abbrev pub macos_created_repr : Repr (MacosEntryOut × FuseOpenOut)
macos_created_repr = record {
  widths = macos_entry_out_repr.widths ++ open_out_repr.widths;
  of_fields = λ vs. (macos_entry_out_repr.of_fields vs, open_out_repr.of_fields (drop 23 vs));
  to_fields = λ t. macos_entry_out_repr.to_fields t.0 ++ open_out_repr.to_fields t.1;
  of_fields-to_fields = λ t. refl;
  to_fields-of_fields = λ bs. refl;
  no_gaps = refl;
}
