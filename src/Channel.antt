-- ===== src/Channel.antt =====
-- src/channel.rs: the channel to the kernel driver. What a system call returns is an argument.
pub mod Mount
use fuse_rs.Base.{ℤ, List, ℕ}
use fuse_rs.Base.Result.{Result, ok, err}
use fuse_rs.Effect.{ChannelSender}

pub record Channel : Type 0 where
  pub mountpoint : List ℕ
  pub fd : ℤ

-- The sender shares the descriptor.
unfoldable pub sender : Channel → ChannelSender
sender ch = record { fd = ch.fd }

-- What `libc::read` does: a negative return with the error in `errno`, or bytes in the buffer.
pub data Read : Type 0 where
  got : List ℕ → Read
  failed : ℤ → Read

-- `Channel::receive`: the error is the last OS error, and otherwise the buffer holds what was read.
unfoldable pub receive : Read → Result ℤ (List ℕ)
receive (got bytes) = ok bytes
receive (failed errno) = err errno
