-- ===== src/Session/Background/Laws.antt =====
-- `BackgroundSession` of src/session.rs: what its steps come to, however they are interleaved.
use fuse_rs.Base.{
  ℕ, ℤ, Bool, All, All-append, arith, ◌≡◌, refl, ap, append_assoc, append-nil, ◌∙◌, List, [], ◌∷◌,
  ◌++◌, Option, none, some,
}
use mathlib.Core.Path.{subst, sym}
use fuse_rs.Base.Result.{Result, ok, err}
use fuse_rs.Platform.{Libc}
use fuse_rs.Os.{Os, History, IoError}
use fuse_rs.Channel.{Channel, Read}
use fuse_rs.Channel.Mount.{unmount}
use fuse_rs.Filesystem.{Filesystem}
use fuse_rs.Session.{Session, session_of}
use fuse_rs.Session.Mount
use fuse_rs.Session.Mount.{with_session, send_all}
use fuse_rs.Session.Loop.{Run, again, run_from, run}
use fuse_rs.Session.Loop.Sender.{IsTo, RoundIsOnChannel, round-IsOnChannel}
use fuse_rs.Session.Loop.Keeps.{DropsTo, last_packets-AreTo, RoundKeeps, round-RoundKeeps}
use fuse_rs.Session.Mount.Last.{last_packets}
use fuse_rs.Session.Mount.Descriptors.{
  Holds, HoldsOpened, new-HoldsOpened, unmount-Holds, close-Holds, send_all-Holds,
}
use fuse_rs.Session.Background.{
  Thread, serving, closing, finished, Background, Step, goes_on, leaves, unmounts, drops, Steps,
  nothing, «then», new, spawn, spawn_mount,
}

-- The run that a thread has made.
abbrev pub run_of : {S : Type 0} → Thread S → Run S
run_of (serving m) = m
run_of (closing m) = m
run_of (finished m) = m

module _ (os : Os) (c : Libc) {S : Type 0} (fs : Filesystem S) (held : List Bool) where
  -- What the thread makes of more reads, all from where it stands.
  abbrev pub run_more : Thread S → List Read → Run S
  run_more (serving m) rs = run_from c fs m rs
  run_more t rs = run_of t

  Step-run_more :
      (rs more : List Read) (s s' : Background S × History)
      → Step os c fs held rs s s'
      → run_more s.0.0 (rs ++ more) ≡ run_more s'.0.0 more
  unfolding run_from
  Step-run_more _ more _ _ (goes_on {m = m} r se kept sent e) = rw (run_from, e) refl
  Step-run_more _ more _ _ (leaves {m = m} r end sent e) = rw (run_from, e) refl
  Step-run_more _ more _ _ unmounts = refl
  Step-run_more _ more _ _ drops = refl

  -- The descriptors that are open while a thread is where it is.
  abbrev pub HoldsThread : List ℤ → Background S × History → Type 0
  HoldsThread fds ((serving m, _), h) = Holds os (m.session.ch.fd ∷ fds) h
  HoldsThread fds ((closing m, _), h) = Holds os fds h
  HoldsThread fds ((finished m, _), h) = Holds os fds h

  drops-HoldsThread :
      (fds : List ℤ) (t : Thread S) (mountpoint : List ℕ) (h : History)
      → HoldsThread fds ((t, some mountpoint), h)
      → HoldsThread fds ((t, none), (unmount os mountpoint h).1)
  drops-HoldsThread fds (serving m) mountpoint h = unmount-Holds os mountpoint _ h
  drops-HoldsThread fds (closing m) mountpoint h = unmount-Holds os mountpoint _ h
  drops-HoldsThread fds (finished m) mountpoint h = unmount-Holds os mountpoint _ h

  -- What dropping the replies that are kept sends goes to the channel that is served.
  abbrev KeepsThread : Background S × History → Type 0
  KeepsThread ((serving m, _), h) = All (DropsTo c m.session.ch.fd) m.kept
  KeepsThread _ = Unit {0}

  drops-KeepsThread :
      (t : Thread S) (path : List ℕ) (h h' : History)
      → KeepsThread ((t, some path), h)
      → KeepsThread ((t, none), h')
  drops-KeepsThread (serving m) path h h' keeps = keeps
  drops-KeepsThread (closing m) path h h' keeps = tt
  drops-KeepsThread (finished m) path h h' keeps = tt

  Step-KeepsThread :
      (rs : List Read) (s s' : Background S × History)
      → Step os c fs held rs s s'
      → KeepsThread s
      → KeepsThread s'
  Step-KeepsThread _ _ _ (goes_on {m = m} r se kept sent e) keeps =
      let on : RoundIsOnChannel c fs m.session (again se kept sent) =
        subst (RoundIsOnChannel c fs m.session) e
          (round-IsOnChannel c fs m.session m.session r refl) in
      subst (λ (ch : Channel). All (DropsTo c ch.fd) (m.kept ++ kept)) (sym on.0)
        (All-append (DropsTo c m.session.ch.fd) m.kept kept keeps
          (subst (RoundKeeps c fs m.session.ch.fd) e (round-RoundKeeps c fs m.session r)))
  Step-KeepsThread _ _ _ (leaves r end sent e) keeps = tt
  Step-KeepsThread _ _ _ unmounts keeps = tt
  Step-KeepsThread _ _ _ (drops {t = t} {mountpoint = mountpoint} {h = h}) keeps =
      drops-KeepsThread t mountpoint h _ keeps

  Step-HoldsThread :
      (fds : List ℤ) (rs : List Read) (s s' : Background S × History)
      → Step os c fs held rs s s'
      → KeepsThread s
      → HoldsThread fds s
      → HoldsThread fds s'
  Step-HoldsThread fds _ _ _ (goes_on {m = m} {h = h} r se kept sent e) keeps holds =
      let on : RoundIsOnChannel c fs m.session (again se kept sent) =
        subst (RoundIsOnChannel c fs m.session) e
          (round-IsOnChannel c fs m.session m.session r refl) in
      subst (λ (ch : Channel). Holds os (ch.fd ∷ fds) (send_all os sent h).1) (sym on.0)
        (send_all-Holds os m.session.ch.fd sent fds h on.1 holds)
  Step-HoldsThread fds _ _ _ (leaves {m = m} {h = h} r end sent e) keeps holds =
      close-Holds os m.session.ch.fd fds _ (
        send_all-Holds os m.session.ch.fd (sent ++ last_packets c held m.kept) fds h
          (All-append (IsTo m.session.ch.fd) sent _
            (subst (RoundIsOnChannel c fs m.session) e
              (round-IsOnChannel c fs m.session m.session r refl))
            (last_packets-AreTo c m.session.ch.fd held m.kept keeps))
          holds)
  Step-HoldsThread fds _ _ _ (unmounts {m = m} {h = h}) keeps holds =
      unmount-Holds os m.session.ch.mountpoint fds h holds
  Step-HoldsThread fds _ _ _ (drops {t = t} {mountpoint = mountpoint} {h = h}) keeps holds =
      drops-HoldsThread fds t mountpoint h holds

  Steps-HoldsThread :
      (fds : List ℤ) (rs : List Read) (s s' : Background S × History)
      → Steps os c fs held rs s s'
      → KeepsThread s
      → HoldsThread fds s
      → HoldsThread fds s'
  Steps-HoldsThread fds _ _ _ nothing keeps holds = holds
  Steps-HoldsThread fds _ _ _ («then» {rs = rs} {s = s} {s' = s'} step steps) keeps holds =
      Steps-HoldsThread fds _ s' _ steps (Step-KeepsThread rs s s' step keeps)
        (Step-HoldsThread fds rs s s' step keeps holds)

  run_more-nil : (t : Thread S) → run_more t [] ≡ run_of t
  unfolding run_from
  run_more-nil (serving m) = refl
  run_more-nil (closing m) = refl
  run_more-nil (finished m) = refl

  pub Steps-run_more :
      (rs more : List Read) (s s' : Background S × History)
      → Steps os c fs held rs s s'
      → run_more s.0.0 (rs ++ more) ≡ run_more s'.0.0 more
  Steps-run_more _ more s _ nothing = refl
  Steps-run_more _ more s _ («then» {rs = rs} {rs' = rs'} {s' = s'} step steps) =
      ap (run_more s.0.0) (append_assoc rs rs' more)
      ∙ Step-run_more rs (rs' ++ more) s s' step
      ∙ Steps-run_more rs' more s' _ steps

  -- However the steps of a background session are interleaved with the dropping of its handle,
  -- what its thread has done is exactly the run of the session on the reads that it took.
  pub Steps-run :
      (se : Session S) (h : History) (rs : List Read) (s : Background S × History)
      → Steps os c fs held rs (new os c fs se, h) s
      → run_of s.0.0 ≡ run c fs se rs
  unfolding new run
  Steps-run se h rs s steps =
      sym (run_more-nil s.0.0)
      ∙ sym (Steps-run_more rs [] (new os c fs se, h) s steps)
      ∙ ap (run c fs se) (append-nil rs)

  -- A session that was just opened keeps no reply.
  spawned-KeepsThread :
      (filesystem : S) (x : Option (Result IoError Channel)) (bg : Background S) (h : History)
      → spawn os c fs (with_session os filesystem x) ≡ some (ok bg)
      → KeepsThread (bg, h)
  unfolding new
  spawned-KeepsThread filesystem none bg h e = absurd (ground (arith, e))
  spawned-KeepsThread filesystem (some (err x)) bg h e = absurd (ground (arith, e))
  spawned-KeepsThread filesystem (some (ok ch)) bg h e =
      let same : new os c fs (session_of filesystem ch) ≡ bg = ground (arith, e) in
      subst (λ bg. KeepsThread (bg, h)) same tt

  abbrev pub HoldsSpawned : List ℤ → Option (Result IoError (Background S)) × History → Type 0
  HoldsSpawned fds (some (ok bg), h) = HoldsThread fds (bg, h)
  HoldsSpawned fds (_, h) = Holds os fds h

  HoldsOpened-HoldsSpawned :
      (filesystem : S) (fds : List ℤ) (x : Option (Result IoError Channel) × History)
      → HoldsOpened os fds x
      → HoldsSpawned fds (spawn os c fs (with_session os filesystem x.0), x.1)
  unfolding session_of new
  HoldsOpened-HoldsSpawned filesystem fds (none, h) holds = holds
  HoldsOpened-HoldsSpawned filesystem fds (some (err e), h) holds = holds
  HoldsOpened-HoldsSpawned filesystem fds (some (ok ch), h) holds = holds

  spawn_mount-HoldsSpawned :
      (filesystem : S) (path : List ℕ) (options : List (List ℕ)) (fds : List ℤ) (h : History)
      → Holds os fds h
      → HoldsSpawned fds (spawn_mount os c fs filesystem path options h)
  unfolding spawn_mount Mount.new
  spawn_mount-HoldsSpawned filesystem path options fds h holds =
      HoldsOpened-HoldsSpawned filesystem fds _ (new-HoldsOpened os path options fds h holds)

  spawn_mount-KeepsThread :
      (filesystem : S) (path : List ℕ) (options : List (List ℕ)) (h : History) (bg : Background S)
      → (spawn_mount os c fs filesystem path options h).0 ≡ some (ok bg)
      → KeepsThread (bg, (spawn_mount os c fs filesystem path options h).1)
  unfolding spawn_mount Mount.new
  spawn_mount-KeepsThread filesystem path options h bg opened =
      spawned-KeepsThread filesystem _ bg _ opened

  -- Behind a `spawn_mount` that returned a background session, in whatever order its steps are
  -- taken, the descriptor of its channel is open as long as its thread serves, and then only those
  -- from before are; nothing was written to or closed that was not open, if that held before.
  pub spawn_mount-HoldsThread :
      (filesystem : S) (path : List ℕ) (options : List (List ℕ)) (fds : List ℤ) (h : History)
      (bg : Background S) (rs : List Read) (s : Background S × History)
      → Holds os fds h
      → (spawn_mount os c fs filesystem path options h).0 ≡ some (ok bg)
      → Steps os c fs held rs (bg, (spawn_mount os c fs filesystem path options h).1) s
      → HoldsThread fds s
  spawn_mount-HoldsThread filesystem path options fds h bg rs s holds opened steps =
      Steps-HoldsThread fds rs _ s steps
        (spawn_mount-KeepsThread filesystem path options h bg opened)
        (subst (λ x. HoldsSpawned fds (x, (spawn_mount os c fs filesystem path options h).1)) opened
          (spawn_mount-HoldsSpawned filesystem path options fds h holds))
