-- ===== src/Request.antt =====
-- `Request` of src/request.rs: a request with the channel to answer on, and its dispatch to the file
-- system. Outside the modules named `Macos` the build is not macOS, so SETATTR passes no macOS times and
-- SETXATTR the position 0.
pub mod Args
pub mod Dispatch
pub mod Replies
pub mod Lifecycle
pub mod Handled
pub mod Answered
pub mod Crashing
pub mod Settling
pub mod Negotiation
pub mod Granted
pub mod Cookie
pub mod Listing
pub mod Macos
pub mod Unsupported
use fuse_rs.Base.{List, ℕ, ◌≡◌, arith}
use fuse_rs.Base.Result.{Result, ok, err}
use fuse_rs.Base.{Option, none, some}
use fuse_rs.Effect.{ChannelSender}
use fuse_rs.Ll.Request.{RequestError, try_from}
use fuse_rs.Ll

pub record Request : Type 0 where
  pub ch : ChannelSender
  pub bytes : List ℕ
  pub request : Ll.Request.Request

from_parsed : ChannelSender → List ℕ → Result RequestError Ll.Request.Request → Option Request
from_parsed ch bytes (ok request) = some (record { ch = ch; bytes = bytes; request = request })
from_parsed ch bytes (err e) = none

-- `Request::new` logs a parse error and returns `None`.
unfoldable pub new : ChannelSender → List ℕ → Option Request
unfolding from_parsed
new ch bytes = from_parsed ch bytes (try_from bytes)

from_parsed-ch :
    (ch : ChannelSender) (bytes : List ℕ) (r : Result RequestError Ll.Request.Request) (q : Request)
    → from_parsed ch bytes r ≡ some q
    → q.ch ≡ ch
unfolding from_parsed
from_parsed-ch ch bytes (ok request) q h = ground arith
from_parsed-ch ch bytes (err e) q h = absurd (ground arith)

pub ch-new : (ch : ChannelSender) (bytes : List ℕ) (q : Request) → new ch bytes ≡ some q → q.ch ≡ ch
unfolding new
ch-new ch bytes q = from_parsed-ch ch bytes (try_from bytes) q
