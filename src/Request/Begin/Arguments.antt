-- ===== src/Request/Begin/Arguments.antt =====
-- The arguments that `dispatch` of src/request.rs computes from the kernel's structs.
use async_fuse_rs.Prelude.{
  ℕ, ◌+◌, ◌/◌, ◌%◌, ◌==◌, ltb, if◌then◌else◌, Bool, true, false, Option, none, some, bit_and, ◌>>=◌,
}
use async_fuse_rs.Libc.{Libc}
use async_fuse_rs.FileAttr.{SystemTime, after_epoch}
use async_fuse_rs.Abi.Consts.{
  fattr_mode, fattr_uid, fattr_gid, fattr_size, fattr_atime, fattr_mtime, fattr_fh,
  fuse_release_flush,
}
use async_fuse_rs.Abi.Requests.{FuseSetattrIn, FuseReleaseIn}
use async_fuse_rs.Abi.FileRequests.{FuseFsyncIn}
use async_fuse_rs.Filesystem.{AttrChange}

-- `match valid & flag { 0 => None, _ => Some(value) }`.
unfoldable pub if_valid {ℓ} : {A : Type ℓ} → ℕ → ℕ → A → Option A
if_valid valid flag value = if bit_and valid flag == 0 then none else some value

-- `UNIX_EPOCH + Duration::new(secs, nanos)`: whole seconds among the nanoseconds are carried, and the
-- addition panics, `none`, where the sum cannot be represented.
unfoldable pub time_of : Libc → ℕ → ℕ → Option SystemTime
time_of libc secs nanos =
    let whole = secs + nanos / 1_000_000_000 in
    if ltb whole libc.time_limit
    then some (after_epoch (record { secs = whole; nanos = nanos % 1_000_000_000 }))
    else none

-- A time that is computed only if its flag is set; the outer `none` is the panic.
unfoldable pub time_if_valid : Libc → ℕ → ℕ → ℕ → ℕ → Option (Option SystemTime)
unfolding time_of
time_if_valid libc valid flag secs nanos =
    if bit_and valid flag == 0
    then some none
    else elim (time_of libc secs nanos) [ none ↦ none | some t ↦ some (some t) ]

-- The arguments of `setattr`; the four of macOS are `None`.
unfoldable pub attr_change : Libc → FuseSetattrIn → Option AttrChange
unfolding if_valid time_if_valid
attr_change libc arg = do
  atime ← time_if_valid libc arg.valid fattr_atime arg.atime arg.atimensec
  mtime ← time_if_valid libc arg.valid fattr_mtime arg.mtime arg.mtimensec
  some (record {
    mode = if_valid arg.valid fattr_mode arg.mode;
    uid = if_valid arg.valid fattr_uid arg.uid;
    gid = if_valid arg.valid fattr_gid arg.gid;
    size = if_valid arg.valid fattr_size arg.size;
    atime = atime;
    mtime = mtime;
    fh = if_valid arg.valid fattr_fh arg.fh;
    crtime = none;
    chgtime = none;
    bkuptime = none;
    flags = none;
  })

-- `release_flags & FUSE_RELEASE_FLUSH`, and `fsync_flags & 1`, as Booleans.
unfoldable pub release_flush : FuseReleaseIn → Bool
release_flush arg = if bit_and arg.release_flags fuse_release_flush == 0 then false else true

unfoldable pub datasync : FuseFsyncIn → Bool
datasync arg = if bit_and arg.fsync_flags 1 == 0 then false else true
