-- ===== src/Abi/Features/Flags.antt =====
-- The flags of fuse-abi/src/lib.rs, by the field that they are in, with the conditions under which each is
-- compiled. No two flags of a field share a bit, whatever is compiled.
use Prim.Native.String.{String}
use async_fuse_rs.Prelude.{
  Bool-cases, inl, inr, ℕ, ◌≡◌, ◌<◌, arith, ◌^◌, List, [], ◌∷◌, All, bit_and,
}
use async_fuse_rs.Abi.Features.Compiled.{compiled-All}
use async_fuse_rs.Abi.Features.{
  Gate, always, since, on_macos, not_macos_since, Config, Flags, flag, compiled, allows,
}

abbrev pub fattr_flags : Flags
fattr_flags =
    flag always "FATTR_MODE" 0
    ∷ flag always "FATTR_UID" 1
    ∷ flag always "FATTR_GID" 2
    ∷ flag always "FATTR_SIZE" 3
    ∷ flag always "FATTR_ATIME" 4
    ∷ flag always "FATTR_MTIME" 5
    ∷ flag always "FATTR_FH" 6
    ∷ flag (since 9) "FATTR_ATIME_NOW" 7
    ∷ flag (since 9) "FATTR_MTIME_NOW" 8
    ∷ flag (since 9) "FATTR_LOCKOWNER" 9
    ∷ flag on_macos "FATTR_CRTIME" 28
    ∷ flag on_macos "FATTR_CHGTIME" 29
    ∷ flag on_macos "FATTR_BKUPTIME" 30
    ∷ flag on_macos "FATTR_FLAGS" 31
    ∷ []

abbrev pub fopen_flags : Flags
fopen_flags =
    flag always "FOPEN_DIRECT_IO" 0
    ∷ flag always "FOPEN_KEEP_CACHE" 1
    ∷ flag (since 10) "FOPEN_NONSEEKABLE" 2
    ∷ flag on_macos "FOPEN_PURGE_ATTR" 30
    ∷ flag on_macos "FOPEN_PURGE_UBC" 31
    ∷ []

abbrev pub init_request_flags : Flags
init_request_flags =
    flag always "FUSE_ASYNC_READ" 0
    ∷ flag always "FUSE_POSIX_LOCKS" 1
    ∷ flag (since 9) "FUSE_FILE_OPS" 2
    ∷ flag (since 9) "FUSE_ATOMIC_O_TRUNC" 3
    ∷ flag (since 10) "FUSE_EXPORT_SUPPORT" 4
    ∷ flag (since 9) "FUSE_BIG_WRITES" 5
    ∷ flag (since 12) "FUSE_DONT_MASK" 6
    ∷ flag (not_macos_since 14) "FUSE_SPLICE_WRITE" 7
    ∷ flag (not_macos_since 14) "FUSE_SPLICE_MOVE" 8
    ∷ flag (not_macos_since 14) "FUSE_SPLICE_READ" 9
    ∷ flag (since 17) "FUSE_FLOCK_LOCKS" 10
    ∷ flag (since 18) "FUSE_HAS_IOCTL_DIR" 11
    ∷ flag on_macos "FUSE_ALLOCATE" 27
    ∷ flag on_macos "FUSE_EXCHANGE_DATA" 28
    ∷ flag on_macos "FUSE_CASE_INSENSITIVE" 29
    ∷ flag on_macos "FUSE_VOL_RENAME" 30
    ∷ flag on_macos "FUSE_XTIMES" 31
    ∷ []

abbrev pub cuse_init_flags : Flags
cuse_init_flags = flag (since 12) "CUSE_UNRESTRICTED_IOCTL" 0 ∷ []

abbrev pub release_flags : Flags
release_flags =
    flag always "FUSE_RELEASE_FLUSH" 0 ∷ flag (since 17) "FUSE_RELEASE_FLOCK_UNLOCK" 1 ∷ []

abbrev pub getattr_flags : Flags
getattr_flags = flag (since 9) "FUSE_GETATTR_FH" 0 ∷ []

abbrev pub lk_flags : Flags
lk_flags = flag (since 9) "FUSE_LK_FLOCK" 0 ∷ []

abbrev pub write_flags : Flags
write_flags = flag (since 9) "FUSE_WRITE_CACHE" 0 ∷ flag (since 9) "FUSE_WRITE_LOCKOWNER" 1 ∷ []

abbrev pub read_flags : Flags
read_flags = flag (since 9) "FUSE_READ_LOCKOWNER" 1 ∷ []

abbrev pub ioctl_flags : Flags
ioctl_flags =
    flag (since 11) "FUSE_IOCTL_COMPAT" 0
    ∷ flag (since 11) "FUSE_IOCTL_UNRESTRICTED" 1
    ∷ flag (since 11) "FUSE_IOCTL_RETRY" 2
    ∷ flag (since 16) "FUSE_IOCTL_32BIT" 3
    ∷ flag (since 18) "FUSE_IOCTL_DIR" 4
    ∷ []

abbrev pub poll_flags : Flags
poll_flags = flag (since 9) "FUSE_POLL_SCHEDULE_NOTIFY" 0 ∷ []

abbrev pub flag_groups : List Flags
flag_groups =
    fattr_flags ∷ fopen_flags ∷ init_request_flags ∷ cuse_init_flags ∷ release_flags ∷ getattr_flags
    ∷ lk_flags ∷ write_flags ∷ read_flags ∷ ioctl_flags ∷ poll_flags ∷ []

-- No flag shares a bit with a later one.
abbrev pub Apart : List (String × ℕ) → Type 0
Apart [] = Unit
Apart (f ∷ fs) = All (λ (g : String × ℕ). bit_and f.1 g.1 ≡ 0) fs × Apart fs

module _ (c : Config) where
  -- The same of a table, all of whose flags might be compiled.
  abbrev TableApart : Flags → Type 0
  TableApart [] = Unit
  TableApart (f ∷ fs) =
      All (λ (g : Gate × (String × ℕ)). bit_and f.1.1 g.1.1 ≡ 0) fs × TableApart fs

  compiled-Apart : (fs : Flags) → TableApart fs → Apart (compiled c fs)
  unfolding compiled
  compiled-Apart [] h = tt
  compiled-Apart ((g, (name, value)) ∷ fs) (h, hs) = elim (Bool-cases (allows c g)) [
    | inl t ↦ rw t (compiled-All c (λ f. bit_and value f.1 ≡ 0) fs h, compiled-Apart fs hs)
    | inr f ↦ rw f (compiled-Apart fs hs)
  ]

  abbrev AllBits : Flags → Type 0
  AllBits fs = All (λ (f : Gate × (String × ℕ)). f.1.1 < 2 ^ 32) fs

  groups_apart : All (λ fs. TableApart fs × AllBits fs) flag_groups
  groups_apart = omega arith

  groups_compiled :
      (groups : List Flags)
      → All (λ fs. TableApart fs × AllBits fs) groups
      → All
          (λ fs. Apart (compiled c fs) × All (λ (f : String × ℕ). f.1 < 2 ^ 32) (compiled c fs))
          groups
  groups_compiled [] h = tt
  groups_compiled (fs ∷ groups) ((apart, bits), hs) = (
    (compiled-Apart fs apart, compiled-All c (λ f. f.1 < 2 ^ 32) fs bits),
    groups_compiled groups hs,
  )

  -- In every configuration, the compiled flags of each field fit 32 bits, and no two of them share a bit.
  pub flags-Apart :
      All
        (λ fs. Apart (compiled c fs) × All (λ (f : String × ℕ). f.1 < 2 ^ 32) (compiled c fs))
        flag_groups
  flags-Apart = groups_compiled flag_groups groups_apart
