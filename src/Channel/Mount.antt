-- ===== src/Channel/Mount.antt =====
-- Mounting and unmounting (`Channel` of src/channel.rs). The calls of libfuse, libc and the standard
-- library are parameters, and so is what they return.
pub mod Laws
use async_fuse_rs.Prelude.{
  ℕ, ◌^◌, leb, ◌==◌, ◌||◌, Bool, true, false, if◌then◌else◌, Option, none, some, List, [], ◌∷◌,
}
use async_fuse_rs.Bytes.{Bytes}

-- `io::Error`: an error number of the system, or a string with a zero in it.
pub data IoError : Type 0 where
  os_error : ℕ → IoError
  nul : IoError

pub data IoResult (A : Type 0) : Type 0 where
  io_ok : A → IoResult A
  io_err : IoError → IoResult A

-- What the calls return: `fuse_mount` an i32 as its bit pattern, with the error number that the system has
-- for the calling thread then; `umount` an error number if it fails. `is_denied` says which numbers are of
-- the kind `PermissionDenied`.
pub record System : Type 0 where
  pub canonicalize : Bytes → IoResult Bytes
  pub fuse_mount : Bytes → List Bytes → ℕ
  pub mount_error : Bytes → List Bytes → ℕ
  pub umount : Bytes → Option ℕ
  pub is_denied : ℕ → Bool

-- The calls that are made to end a mount.
pub data SysCall : Type 0 where
  sys_close : ℕ → SysCall
  sys_umount : Bytes → SysCall
  sys_fuse_unmount : Bytes → SysCall

pub record Channel : Type 0 where
  pub mountpoint : Bytes
  pub fd : ℕ

abbrev pub has_nul : Bytes → Bool
has_nul [] = false
has_nul (b ∷ bs) = b == 0 || has_nul bs

-- `CString::new`.
abbrev pub c_string : Bytes → Option Bytes
c_string bytes = if has_nul bytes then none else some bytes

-- "fuse-rs".
abbrev pub program_name : Bytes
program_name = 0x66 ∷ 0x75 ∷ 0x73 ∷ 0x65 ∷ 0x2d ∷ 0x72 ∷ 0x73 ∷ []

-- The C strings of the options; `none` is the panic of `unwrap`.
abbrev pub c_strings : List Bytes → Option (List Bytes)
c_strings [] = some []
c_strings (option ∷ options) =
    if has_nul option
    then none
    else elim (c_strings options) [ none ↦ none | some rest ↦ some (option ∷ rest) ]

-- The arguments that `with_fuse_args` passes on.
unfoldable pub fuse_args : List Bytes → Option (List Bytes)
fuse_args options = elim (c_strings options) [
  | none ↦ none
  | some rest ↦ some (program_name ∷ rest)
]

-- The closure that `Channel::new` hands to `with_fuse_args`.
unfoldable pub mount : System → Bytes → List Bytes → IoResult Channel
mount sys mountpoint args = elim (c_string mountpoint) [
  | none ↦ io_err nul
  | some mnt ↦
      let fd = sys.fuse_mount mnt args in
      if leb (2 ^ 31) fd
      then io_err (os_error (sys.mount_error mnt args))
      else io_ok (record { mountpoint = mountpoint; fd = fd })
]

-- `Channel::new`; `none` is a panic.
unfoldable pub new : System → Bytes → List Bytes → Option (IoResult Channel)
unfolding fuse_args mount
new sys mountpoint options = elim (sys.canonicalize mountpoint) [
  | io_err e ↦ some (io_err e)
  | io_ok path ↦ elim (fuse_args options) [ none ↦ none | some args ↦ some (mount sys path args) ]
]

-- `libc_umount` on Linux: the calls, and an error number if it fails.
unfoldable pub libc_umount : System → Bytes → List SysCall × Option ℕ
libc_umount sys mnt = elim (sys.umount mnt) [
  | none ↦ (sys_umount mnt ∷ [], none)
  | some e ↦
      if sys.is_denied e
      then (sys_umount mnt ∷ sys_fuse_unmount mnt ∷ [], none)
      else (sys_umount mnt ∷ [], some e)
]

-- `unmount`.
unfoldable pub unmount : System → Bytes → List SysCall × IoResult (Unit {0})
unfolding libc_umount
unmount sys mountpoint = elim (c_string mountpoint) [
  | none ↦ ([], io_err nul)
  | some mnt ↦
      let (calls, failure) = libc_umount sys mnt in
      (calls, elim failure [ none ↦ io_ok tt | some e ↦ io_err (os_error e) ])
]

-- `libc_umount` and `unmount` on macOS and on BSD, where libfuse is not asked.
unfoldable pub macos_libc_umount : System → Bytes → List SysCall × Option ℕ
macos_libc_umount sys mnt = (sys_umount mnt ∷ [], sys.umount mnt)

unfoldable pub macos_unmount : System → Bytes → List SysCall × IoResult (Unit {0})
unfolding macos_libc_umount
macos_unmount sys mountpoint = elim (c_string mountpoint) [
  | none ↦ ([], io_err nul)
  | some mnt ↦
      let (calls, failure) = macos_libc_umount sys mnt in
      (calls, elim failure [ none ↦ io_ok tt | some e ↦ io_err (os_error e) ])
]

-- `drop`.
unfoldable pub drop : System → Channel → List SysCall
unfolding unmount
drop sys ch = sys_close ch.fd ∷ (unmount sys ch.mountpoint).0
