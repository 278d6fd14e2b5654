-- ===== src/Channel.antt =====
-- The channel to the kernel (src/channel.rs): the sender, and mounting and unmounting.
pub mod Mount
mod Tests
use async_fuse_rs.Prelude.{ℕ, List}
use async_fuse_rs.Bytes.{Bytes}

pub record ChannelSender : Type 0 where
  pub fd : ℕ

-- One call of `writev`: the descriptor and the slices.
pub record Message : Type 0 where
  pub fd : ℕ
  pub slices : List Bytes
