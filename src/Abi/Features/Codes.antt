-- ===== src/Abi/Features/Codes.antt =====
-- The operation and notification codes of fuse-abi/src/lib.rs under any configuration. Constructors drop the prefix
-- `FUSE_`.
pub mod Laws
use async_fuse_rs.Prelude.{ℕ, ◌==◌, if◌then◌else◌, Bool, ◌&&◌, List, [], ◌∷◌, Option, none, some}
use async_fuse_rs.Abi.Features.{Gate, always, since, on_macos, Config, allows}

-- All variants of `fuse_opcode`.
pub data AnyOpcode : Type 0 where
  lookup forget getattr setattr readlink symlink mknod mkdir unlink rmdir rename link open_file read
        write statfs release fsync setxattr getxattr listxattr removexattr flush init opendir
        readdir releasedir fsyncdir getlk setlk setlkw access create interrupt bmap destroy ioctl
        poll notify_reply batch_forget fallocate setvolname getxtimes exchange cuse_init :
      AnyOpcode

-- The condition under which a variant is compiled, and its discriminant.
abbrev pub opcode_variant : AnyOpcode → Gate × ℕ
opcode_variant lookup = (always, 1)
opcode_variant forget = (always, 2)
opcode_variant getattr = (always, 3)
opcode_variant setattr = (always, 4)
opcode_variant readlink = (always, 5)
opcode_variant symlink = (always, 6)
opcode_variant mknod = (always, 8)
opcode_variant mkdir = (always, 9)
opcode_variant unlink = (always, 10)
opcode_variant rmdir = (always, 11)
opcode_variant rename = (always, 12)
opcode_variant link = (always, 13)
opcode_variant open_file = (always, 14)
opcode_variant read = (always, 15)
opcode_variant write = (always, 16)
opcode_variant statfs = (always, 17)
opcode_variant release = (always, 18)
opcode_variant fsync = (always, 20)
opcode_variant setxattr = (always, 21)
opcode_variant getxattr = (always, 22)
opcode_variant listxattr = (always, 23)
opcode_variant removexattr = (always, 24)
opcode_variant flush = (always, 25)
opcode_variant init = (always, 26)
opcode_variant opendir = (always, 27)
opcode_variant readdir = (always, 28)
opcode_variant releasedir = (always, 29)
opcode_variant fsyncdir = (always, 30)
opcode_variant getlk = (always, 31)
opcode_variant setlk = (always, 32)
opcode_variant setlkw = (always, 33)
opcode_variant access = (always, 34)
opcode_variant create = (always, 35)
opcode_variant interrupt = (always, 36)
opcode_variant bmap = (always, 37)
opcode_variant destroy = (always, 38)
opcode_variant ioctl = (since 11, 39)
opcode_variant poll = (since 11, 40)
opcode_variant notify_reply = (since 15, 41)
opcode_variant batch_forget = (since 16, 42)
opcode_variant fallocate = (since 19, 43)
opcode_variant setvolname = (on_macos, 61)
opcode_variant getxtimes = (on_macos, 62)
opcode_variant exchange = (on_macos, 63)
opcode_variant cuse_init = (since 12, 4096)

-- The arms of `try_from`, in their order.
abbrev pub opcode_arms : List (Gate × ℕ × AnyOpcode)
opcode_arms =
    (always, 1, lookup)
    ∷ (always, 2, forget)
    ∷ (always, 3, getattr)
    ∷ (always, 4, setattr)
    ∷ (always, 5, readlink)
    ∷ (always, 6, symlink)
    ∷ (always, 8, mknod)
    ∷ (always, 9, mkdir)
    ∷ (always, 10, unlink)
    ∷ (always, 11, rmdir)
    ∷ (always, 12, rename)
    ∷ (always, 13, link)
    ∷ (always, 14, open_file)
    ∷ (always, 15, read)
    ∷ (always, 16, write)
    ∷ (always, 17, statfs)
    ∷ (always, 18, release)
    ∷ (always, 20, fsync)
    ∷ (always, 21, setxattr)
    ∷ (always, 22, getxattr)
    ∷ (always, 23, listxattr)
    ∷ (always, 24, removexattr)
    ∷ (always, 25, flush)
    ∷ (always, 26, init)
    ∷ (always, 27, opendir)
    ∷ (always, 28, readdir)
    ∷ (always, 29, releasedir)
    ∷ (always, 30, fsyncdir)
    ∷ (always, 31, getlk)
    ∷ (always, 32, setlk)
    ∷ (always, 33, setlkw)
    ∷ (always, 34, access)
    ∷ (always, 35, create)
    ∷ (always, 36, interrupt)
    ∷ (always, 37, bmap)
    ∷ (always, 38, destroy)
    ∷ (since 11, 39, ioctl)
    ∷ (since 11, 40, poll)
    ∷ (since 15, 41, notify_reply)
    ∷ (since 16, 42, batch_forget)
    ∷ (since 19, 43, fallocate)
    ∷ (on_macos, 61, setvolname)
    ∷ (on_macos, 62, getxtimes)
    ∷ (on_macos, 63, exchange)
    ∷ (since 12, 4096, cuse_init)
    ∷ []

-- The variants of `fuse_notify_code`.
pub data NotifyCode : Type 0 where
  notify_poll notify_inval_inode notify_inval_entry notify_store notify_retrieve notify_delete :
      NotifyCode

abbrev pub notify_variant : NotifyCode → Gate × ℕ
notify_variant notify_poll = (since 11, 1)
notify_variant notify_inval_inode = (since 12, 2)
notify_variant notify_inval_entry = (since 12, 3)
notify_variant notify_store = (since 15, 4)
notify_variant notify_retrieve = (since 15, 5)
notify_variant notify_delete = (since 18, 6)

abbrev pub notify_arms : List (Gate × ℕ × NotifyCode)
notify_arms =
    (since 11, 1, notify_poll)
    ∷ (since 12, 2, notify_inval_inode)
    ∷ (since 12, 3, notify_inval_entry)
    ∷ (since 15, 4, notify_store)
    ∷ (since 15, 5, notify_retrieve)
    ∷ (since 18, 6, notify_delete)
    ∷ []

-- A `match` on a number whose arms are compiled or not; `none` is the error.
unfoldable pub match_number {ℓ} : {A : Type ℓ} → Config → ℕ → List (Gate × ℕ × A) → Option A
match_number c n [] = none
match_number c n ((g, k, a) ∷ rest) =
    let other = match_number c n rest in if n == k && allows c g then some a else other

-- `fuse_opcode::try_from` and `fuse_notify_code::try_from`.
unfoldable pub opcode_try_from : Config → ℕ → Option AnyOpcode
unfolding match_number
opcode_try_from c n = match_number c n opcode_arms

unfoldable pub notify_try_from : Config → ℕ → Option NotifyCode
unfolding match_number
notify_try_from c n = match_number c n notify_arms
