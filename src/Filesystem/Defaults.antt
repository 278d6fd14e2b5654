-- ===== src/Filesystem/Defaults.antt =====
-- The default methods of the trait (`Filesystem` of src/lib.rs), which `NullFS` of examples/null.rs
-- uses throughout: what each does with its reply object.
use async_fuse_rs.Prelude.{ℕ, Option, none}
use async_fuse_rs.Libc.{Libc}
use async_fuse_rs.Reply.Kinds.{Kind, Use, answer, error, ok, opened}
use async_fuse_rs.Reply.Kinds
use async_fuse_rs.Reply.Directory.{Listing, fail}
use async_fuse_rs.Filesystem.{Call, open_file, opendir, release, releasedir, statfs}

unfoldable pub default_use : {k : Kind} → Libc → Call k → Use k
default_use libc (open_file _ _) = answer (opened 0 0)
default_use libc (opendir _ _) = answer (opened 0 0)
default_use libc (release _ _ _ _ _) = answer ok
default_use libc (releasedir _ _ _) = answer ok
default_use libc (statfs _) = answer (Kinds.statfs 0 0 0 0 0 512 255 0)
default_use libc _ = error libc.enosys

-- `readdir`.
unfoldable pub default_listing : Libc → Listing
default_listing libc = fail libc.enosys

-- `init`: no error.
unfoldable pub default_init : Option ℕ
default_init = none
