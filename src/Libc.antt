-- ===== src/Libc.antt =====
-- The constants that the program takes from the crate `libc`. They are parameters of the model, as
-- one record: numbers of errors, and the file types of `st_mode`. `time_limit` is the first number of
-- seconds since the epoch that a `SystemTime` of the standard library cannot hold.
use async_fuse_rs.Prelude.{ℕ, ◌^◌}

pub record Libc : Type 0 where
  pub eio : ℕ
  pub enosys : ℕ
  pub eproto : ℕ
  pub enoent : ℕ
  pub eintr : ℕ
  pub eagain : ℕ
  pub enodev : ℕ
  pub s_ififo : ℕ
  pub s_ifchr : ℕ
  pub s_ifblk : ℕ
  pub s_ifdir : ℕ
  pub s_ifreg : ℕ
  pub s_iflnk : ℕ
  pub s_ifsock : ℕ
  pub time_limit : ℕ

-- The values of Linux.
abbrev pub linux : Libc
linux = record {
  eio = 5;
  enosys = 38;
  eproto = 71;
  enoent = 2;
  eintr = 4;
  eagain = 11;
  enodev = 19;
  s_ififo = 0o010000;
  s_ifchr = 0o020000;
  s_ifblk = 0o060000;
  s_ifdir = 0o040000;
  s_ifreg = 0o100000;
  s_iflnk = 0o120000;
  s_ifsock = 0o140000;
  time_limit = 2 ^ 63;
}
