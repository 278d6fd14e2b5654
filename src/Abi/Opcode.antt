-- ===== src/Abi/Opcode.antt =====
-- The operation codes of requests (`fuse_opcode` of fuse-abi/src/lib.rs), at ABI 7.8 on Linux.
-- Constructors drop the prefix `FUSE_`.
pub mod Laws
use async_fuse_rs.Prelude.{ℕ, ◌==◌, if◌then◌else◌, List, [], ◌∷◌, Option, none, some}

pub data Opcode : Type 0 where
  lookup forget getattr setattr readlink symlink mknod mkdir unlink : Opcode
  rmdir rename link open_file read write statfs release fsync : Opcode
  setxattr getxattr listxattr removexattr flush init opendir readdir releasedir : Opcode
  fsyncdir getlk setlk setlkw access create interrupt bmap destroy : Opcode

-- The discriminants, `fuse_opcode::FUSE_… as u32`.
unfoldable pub code : Opcode → ℕ
code lookup = 1
code forget = 2
code getattr = 3
code setattr = 4
code readlink = 5
code symlink = 6
code mknod = 8
code mkdir = 9
code unlink = 10
code rmdir = 11
code rename = 12
code link = 13
code open_file = 14
code read = 15
code write = 16
code statfs = 17
code release = 18
code fsync = 20
code setxattr = 21
code getxattr = 22
code listxattr = 23
code removexattr = 24
code flush = 25
code init = 26
code opendir = 27
code readdir = 28
code releasedir = 29
code fsyncdir = 30
code getlk = 31
code setlk = 32
code setlkw = 33
code access = 34
code create = 35
code interrupt = 36
code bmap = 37
code destroy = 38

-- The arms of `try_from`, in their order.
unfoldable pub arms : List (ℕ × Opcode)
arms =
    (1, lookup)
    ∷ (2, forget)
    ∷ (3, getattr)
    ∷ (4, setattr)
    ∷ (5, readlink)
    ∷ (6, symlink)
    ∷ (8, mknod)
    ∷ (9, mkdir)
    ∷ (10, unlink)
    ∷ (11, rmdir)
    ∷ (12, rename)
    ∷ (13, link)
    ∷ (14, open_file)
    ∷ (15, read)
    ∷ (16, write)
    ∷ (17, statfs)
    ∷ (18, release)
    ∷ (20, fsync)
    ∷ (21, setxattr)
    ∷ (22, getxattr)
    ∷ (23, listxattr)
    ∷ (24, removexattr)
    ∷ (25, flush)
    ∷ (26, init)
    ∷ (27, opendir)
    ∷ (28, readdir)
    ∷ (29, releasedir)
    ∷ (30, fsyncdir)
    ∷ (31, getlk)
    ∷ (32, setlk)
    ∷ (33, setlkw)
    ∷ (34, access)
    ∷ (35, create)
    ∷ (36, interrupt)
    ∷ (37, bmap)
    ∷ (38, destroy)
    ∷ []

-- `match n { arms, _ => Err(InvalidOpcodeError) }`: the first arm that fits.
unfoldable pub first_arm : ℕ → List (ℕ × Opcode) → Option Opcode
first_arm n [] = none
first_arm n ((k, op) ∷ rest) = if n == k then some op else first_arm n rest

-- `fuse_opcode::try_from`; `none` is `Err(InvalidOpcodeError)`.
unfoldable pub try_from : ℕ → Option Opcode
unfolding first_arm arms
try_from n = first_arm n arms
