-- ===== src/Request/Macos/Chosen.antt =====
-- Which of the kernel's attributes a setattr passes on, on macOS (src/request.rs).
use async_fuse_rs.Prelude.{ℕ, ◌≡◌, Option, some}
use async_fuse_rs.Libc.{Libc}
use async_fuse_rs.FileAttr.{SystemTime}
use async_fuse_rs.Abi.MacosRequests.{MacosSetattrIn}
use async_fuse_rs.Filesystem.{AttrChange}
use async_fuse_rs.Request.Begin.Chosen.{
  chosen, chosen_time, if_valid-chosen, time_if_valid-chosen, bind-inversion,
}
use async_fuse_rs.Request.Macos.{get_macos_setattr, macos_attr_change}

-- The four attributes of macOS.
abbrev pub Four : Type 0
Four = Option SystemTime × Option SystemTime × Option SystemTime × Option ℕ

abbrev pub four_chosen : MacosSetattrIn → Four
four_chosen arg = (
  chosen_time arg.valid 28 arg.crtime arg.crtimensec,
  chosen_time arg.valid 29 arg.chgtime arg.chgtimensec,
  chosen_time arg.valid 30 arg.bkuptime arg.bkuptimensec,
  chosen arg.valid 31 arg.flags,
)

get_macos_setattr-chosen :
    (libc : Libc) (arg : MacosSetattrIn) (four : Four)
    → get_macos_setattr libc arg ≡ some four
    → four ≡ four_chosen arg
unfolding get_macos_setattr
get_macos_setattr-chosen libc arg four e =
    let (cr, ecr, e1) = bind-inversion _ _ four e in
    let (chg, echg, e2) = bind-inversion _ _ four e1 in
    let (bk, ebk, e3) = bind-inversion _ _ four e2 in
    let pcr = time_if_valid-chosen libc arg.valid 28 arg.crtime arg.crtimensec cr ecr in
    let pchg = time_if_valid-chosen libc arg.valid 29 arg.chgtime arg.chgtimensec chg echg in
    let pbk = time_if_valid-chosen libc arg.valid 30 arg.bkuptime arg.bkuptimensec bk ebk in
    let pfl = if_valid-chosen arg.valid 31 arg.flags in cc

-- What the kernel chose: each attribute has its bit.
abbrev pub macos_chosen : MacosSetattrIn → AttrChange
macos_chosen arg = record {
  mode = chosen arg.valid 0 arg.mode;
  uid = chosen arg.valid 1 arg.uid;
  gid = chosen arg.valid 2 arg.gid;
  size = chosen arg.valid 3 arg.size;
  atime = chosen_time arg.valid 4 arg.atime arg.atimensec;
  mtime = chosen_time arg.valid 5 arg.mtime arg.mtimensec;
  fh = chosen arg.valid 6 arg.fh;
  crtime = chosen_time arg.valid 28 arg.crtime arg.crtimensec;
  chgtime = chosen_time arg.valid 29 arg.chgtime arg.chgtimensec;
  bkuptime = chosen_time arg.valid 30 arg.bkuptime arg.bkuptimensec;
  flags = chosen arg.valid 31 arg.flags;
}

-- A setattr of macOS that is passed on has each of its eleven attributes exactly if the kernel set its bit,
-- with the kernel's value; in a time, whole seconds among the nanoseconds are carried.
pub macos_attr_change-macos_chosen :
    (libc : Libc) (arg : MacosSetattrIn) (change : AttrChange)
    → macos_attr_change libc arg ≡ some change
    → change ≡ macos_chosen arg
unfolding macos_attr_change
macos_attr_change-macos_chosen libc arg change e =
    let (at, eat, e1) = bind-inversion _ _ change e in
    let (mt, emt, e2) = bind-inversion _ _ change e1 in
    let (four, efour, e3) = bind-inversion _ _ change e2 in
    let pat = time_if_valid-chosen libc arg.valid 4 arg.atime arg.atimensec at eat in
    let pmt = time_if_valid-chosen libc arg.valid 5 arg.mtime arg.mtimensec mt emt in
    let pfour = get_macos_setattr-chosen libc arg four efour in
    let pmode = if_valid-chosen arg.valid 0 arg.mode in
    let puid = if_valid-chosen arg.valid 1 arg.uid in
    let pgid = if_valid-chosen arg.valid 2 arg.gid in
    let psize = if_valid-chosen arg.valid 3 arg.size in
    let pfh = if_valid-chosen arg.valid 6 arg.fh in cc
