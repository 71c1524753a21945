-- ===== src/Session/Mount.antt =====
-- `Session::new` and the end of a session of src/session.rs, and `mount` of src/lib.rs.
pub mod Descriptors
pub mod Kinds
pub mod Last
use fuse_rs.Base.{Bool, ℕ, ℤ, List, [], ◌∷◌, Option, none, some}
use fuse_rs.Base.Result.{Result, ok, err}
use fuse_rs.Platform.{Libc}
use fuse_rs.Os.{Os, IoError, Sys, ◌>>=◌, ◌>>◌, pure}
use fuse_rs.Effect.{Packet}
use fuse_rs.Channel.{Channel, Read}
use fuse_rs.Channel.Mount
use fuse_rs.Channel.Mount.{send_reply, drop}
use fuse_rs.Filesystem.{Filesystem}
use fuse_rs.Session.{Session, session_of}
use fuse_rs.Session.Mount.Last.{last_packets}
use fuse_rs.Session.Loop.{Ended, returned_ok, returned_err, crashed, waiting, run}

-- What a call of `mount` comes to: a panic or an error before there is a session, or how its run ends.
pub data MountResult : Type 0 where
  mount_panicked : MountResult
  mount_failed : IoError → MountResult
  ran : Ended → MountResult

module _ (os : Os) where
  abbrev pub with_session :
      {S : Type 0} → S → Option (Result IoError Channel) → Option (Result IoError (Session S))
  with_session filesystem none = none
  with_session filesystem (some (err e)) = some (err e)
  with_session filesystem (some (ok ch)) = some (ok (session_of filesystem ch))

  -- `none` is a panic.
  unfoldable pub new :
      {S : Type 0} → S → List ℕ → List (List ℕ) → Sys (Option (Result IoError (Session S)))
  new filesystem mountpoint options = do
    r ← Mount.new os mountpoint options
    pure (with_session filesystem r)

  -- The packets of a run, each by `ReplySender::send`.
  unfoldable pub send_all : List Packet → Sys (Unit {0})
  send_all [] = pure tt
  send_all (p ∷ ps) = do send_reply os (record { fd = p.fd }) p.slices; send_all ps

  -- However the run ends, the session is dropped: the file system, which may send last packets, and
  -- then the channel.
  unfoldable pub leave : Channel → List Packet → Ended → Sys MountResult
  leave ch last waiting = pure (ran waiting)
  leave ch last end = do send_all last; drop os ch; pure (ran end)

  -- `held` says which of the kept replies the state of the file system has in the end.
  module _ (c : Libc) {S : Type 0} (fs : Filesystem S) (held : List Bool) where
    unfoldable pub serve : Session S → List Read → Sys MountResult
    serve se reads = do
      send_all (run c fs se reads).sent
      leave (run c fs se reads).session.ch (last_packets c held (run c fs se reads).kept)
          (run c fs se reads).ended

    abbrev pub serve_if_open : List Read → Option (Result IoError (Session S)) → Sys MountResult
    serve_if_open reads none = pure mount_panicked
    serve_if_open reads (some (err e)) = pure (mount_failed e)
    serve_if_open reads (some (ok se)) = serve se reads

    -- `mount`, with the reads that its loop makes.
    unfoldable pub mount : S → List ℕ → List (List ℕ) → List Read → Sys MountResult
    mount filesystem mountpoint options reads = do
      r ← new filesystem mountpoint options
      serve_if_open reads r
