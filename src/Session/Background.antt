-- ===== src/Session/Background.antt =====
-- `BackgroundSession` of src/session.rs and `spawn_mount` of src/lib.rs: the loop of a session runs in a
-- thread of its own, while the handle may be dropped at any time.
pub mod Laws
pub mod Ending
pub mod Calls
use fuse_rs.Base.{Bool, ℕ, List, [], ◌∷◌, ◌++◌, Option, none, some, ◌≡◌}
use fuse_rs.Base.Result.{Result, ok, err}
use fuse_rs.Platform.{Libc}
use fuse_rs.Os.{Os, History, close, IoError, Sys, ◌>>=◌, pure}
use fuse_rs.Effect.{Packet}
use fuse_rs.Channel.{Read}
use fuse_rs.Channel.Mount.{unmount}
use fuse_rs.Reply.Raw.{ReplyRaw}
use fuse_rs.Filesystem.{Filesystem}
use fuse_rs.Session.{Session}
use fuse_rs.Session.Loop.{Ended, Run, again, stop, advance, halt, round, started}
use fuse_rs.Session.Mount.{send_all}
use fuse_rs.Session.Mount.Last.{last_packets}
use fuse_rs.Session.Mount

-- The thread: in the loop; dropping the session, with the descriptor closed and the unmounting ahead;
-- finished. The mount point of the handle, until it is dropped.
pub data Thread (S : Type 0) : Type 0 where
  serving : Run S → Thread S
  closing : Run S → Thread S
  finished : Run S → Thread S

abbrev pub Background : Type 0 → Type 0
Background S = Thread S × Option (List ℕ)

module _ (os : Os) (c : Libc) {S : Type 0} (fs : Filesystem S) where
  -- `BackgroundSession::new`.
  unfoldable pub new : Session S → Background S
  new se = (serving (started c fs se), some se.ch.mountpoint)

  abbrev pub spawn : Option (Result IoError (Session S)) → Option (Result IoError (Background S))
  spawn none = none
  spawn (some (err e)) = some (err e)
  spawn (some (ok se)) = some (ok (new se))

  -- `none` is a panic.
  unfoldable pub spawn_mount :
      S → List ℕ → List (List ℕ) → Sys (Option (Result IoError (Background S)))
  spawn_mount filesystem mountpoint options = do
    r ← Mount.new os filesystem mountpoint options
    pure (spawn r)

  -- `held` says which of the kept replies the state of the file system has in the end.
  module _ (held : List Bool) where
    -- A step, with the reads that it takes: a round of the loop; the last one, with the drop of the file
    -- system and the closing in the drop of the channel; the unmounting in that drop.
    pub data Step : List Read → Background S × History → Background S × History → Type 0 where
      goes_on :
          {m : Run S} {handle : Option (List ℕ)} {h : History} (r : Read) (se : Session S)
          (kept : List ReplyRaw) (sent : List Packet)
          → round c fs m.session r ≡ again se kept sent
          → Step
              (r ∷ [])
              ((serving m, handle), h)
              ((serving (advance m se kept sent), handle), (send_all os sent h).1)
      leaves :
          {m : Run S} {handle : Option (List ℕ)} {h : History} (r : Read) (end : Ended)
          (sent : List Packet)
          → round c fs m.session r ≡ stop end sent
          → Step
              (r ∷ [])
              ((serving m, handle), h)
              (
                (closing (halt m end sent), handle),
                close m.session.ch.fd ∷ (send_all os (sent ++ last_packets c held m.kept) h).1,
              )
      unmounts :
          {m : Run S} {handle : Option (List ℕ)} {h : History}
          → Step []
              ((closing m, handle), h)
              ((finished m, handle), (unmount os m.session.ch.mountpoint h).1)
      -- `Drop` of the handle.
      drops :
          {t : Thread S} {mountpoint : List ℕ} {h : History}
          → Step [] ((t, some mountpoint), h) ((t, none), (unmount os mountpoint h).1)

    pub data Steps : List Read → Background S × History → Background S × History → Type 0 where
      nothing : {s : Background S × History} → Steps [] s s
      then :
          {rs rs' : List Read} {s s' s'' : Background S × History}
          → Step rs s s'
          → Steps rs' s' s''
          → Steps (rs ++ rs') s s''
