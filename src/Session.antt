-- ===== src/Session.antt =====
-- `Session` of src/session.rs: a file system while it is mounted.
pub mod Loop
pub mod Mount
pub mod Late
pub mod Background
use fuse_rs.Base.{ℕ, ◌+◌, ◌*◌, Bool, false}
use fuse_rs.Channel.{Channel}

abbrev pub max_write_size : ℕ
max_write_size = 16 * 1024 * 1024

abbrev pub buffer_size : ℕ
buffer_size = max_write_size + 4096

pub record Session (S : Type 0) : Type 0 where
  pub filesystem : S
  pub ch : Channel
  pub proto_major : ℕ
  pub proto_minor : ℕ
  pub initialized : Bool
  pub destroyed : Bool

-- The session that `Session::new` returns around the channel that it opened.
unfoldable pub session_of : {S : Type 0} → S → Channel → Session S
session_of filesystem ch = record {
  filesystem = filesystem;
  ch = ch;
  proto_major = 0;
  proto_minor = 0;
  initialized = false;
  destroyed = false;
}
