-- ===== src/Session/Mount/Descriptors.antt =====
-- `mount` of src/lib.rs: which descriptors are open after the calls that were made.
use fuse_rs.Base.{
  ℕ, ℤ, ◌≡◌, inl, inr, refl, List, [], ◌∷◌, Option, none, some, eq_ℤ, eq_ℤ_iff, if◌then◌else◌,
  if_true, Bool-cases, Bool,
}
use mathlib.Core.Option
use fuse_rs.Base.Result.{Result, ok, err}
use fuse_rs.Platform.{Libc}
use fuse_rs.Effect.{ChannelSender, Packet}
use fuse_rs.Os.{Os, History, Call, canonicalize, fuse_mount, writev, close, IoError, is_negative}
use fuse_rs.Channel.{Channel, Read}
use fuse_rs.Channel.Mount
use fuse_rs.Channel.Mount.{send, send_reply, unmount, drop}
use fuse_rs.Channel.Mount.Laws.{
  Unmounts, bad_path, unmounted, by_library, refused, unmount-Unmounts, Opens, no_path, bad_option,
  bad_real, not_mounted, opened, new-Opens,
}
use fuse_rs.Filesystem.{Filesystem}
use fuse_rs.Session.{Session, session_of}
use fuse_rs.Session.Loop.{Ended, returned_ok, returned_err, crashed, waiting, run}
use fuse_rs.Session.Loop.Sender.{AreTo, run-IsOnChannel}
use fuse_rs.Session.Loop.Keeps.{last_packets-AreTo, run-DropsTo}
use fuse_rs.Session.Mount.Last.{last_packets}
use fuse_rs.Session.Mount.{
  MountResult, ran, with_session, new, send_all, leave, serve, serve_if_open, mount,
}

-- The descriptors without one of them; `none` if it is not among them.
unfoldable pub remove : ℤ → List ℤ → Option (List ℤ)
remove fd [] = none
remove fd (x ∷ xs) =
    let rest = Option.map (◌∷◌ x) (remove fd xs) in if eq_ℤ x fd then some xs else rest

abbrev pub when_open : ℤ → List ℤ → Option (List ℤ)
when_open fd fds = elim (remove fd fds) [ none ↦ none | some _ ↦ some fds ]

-- The descriptors that mounting opened and that were not closed, the latest first; `none` if
-- something was written to, or closed, that was not open.
module _ (os : Os) where
  abbrev pub after_call : History → Call → List ℤ → Option (List ℤ)
  after_call h (fuse_mount mnt args) fds =
      if is_negative (os.mounted h mnt args) then some fds else some (os.mounted h mnt args ∷ fds)
  after_call h (writev fd slices) fds = when_open fd fds
  after_call h (close fd) fds = remove fd fds
  after_call h _ fds = some fds

  unfoldable pub open_descriptors : History → Option (List ℤ)
  open_descriptors [] = some []
  open_descriptors (call ∷ h) = Option.bind (open_descriptors h) (after_call h call)

remove-head : (fd : ℤ) (fds : List ℤ) → remove fd (fd ∷ fds) ≡ some fds
unfolding remove
remove-head fd fds = if_true (eq_ℤ fd fd) _ _ ((eq_ℤ_iff fd fd).1 refl)

when_open-head : (fd : ℤ) (fds : List ℤ) → when_open fd (fd ∷ fds) ≡ some (fd ∷ fds)
when_open-head fd fds = rw (when_open, remove-head fd fds) refl

module _ (os : Os) where
  -- The descriptors that are open, all used as they should.
  abbrev pub Holds : List ℤ → History → Type 0
  Holds fds h = open_descriptors os h ≡ some fds

  Holds-call :
      (call : Call) (fds fds' : List ℤ) (h : History)
      → Holds fds h
      → after_call os h call fds ≡ some fds'
      → Holds fds' (call ∷ h)
  unfolding open_descriptors Option.bind
  Holds-call call fds fds' h holds next = rw (open_descriptors, holds) next

  Unmounts-Holds :
      (path : List ℕ) (fds : List ℤ) (h : History) (x : Result IoError (Unit {0}) × History)
      → Unmounts os path h x
      → Holds fds h
      → Holds fds x.1
  Unmounts-Holds path fds h _ (bad_path _) holds = holds
  Unmounts-Holds path fds h _ (unmounted _ _) holds = Holds-call _ fds fds h holds refl
  Unmounts-Holds path fds h _ (by_library _ _ _) holds =
      Holds-call _ fds fds _ (Holds-call _ fds fds h holds refl) refl
  Unmounts-Holds path fds h _ (refused _ _ _) holds = Holds-call _ fds fds h holds refl

  pub unmount-Holds :
      (path : List ℕ) (fds : List ℤ) (h : History) → Holds fds h → Holds fds (unmount os path h).1
  unmount-Holds path fds h = Unmounts-Holds path fds h _ (unmount-Unmounts os path h)

  pub close-Holds :
      (fd : ℤ) (fds : List ℤ) (h : History) → Holds (fd ∷ fds) h → Holds fds (close fd ∷ h)
  close-Holds fd fds h holds = Holds-call (close fd) (fd ∷ fds) fds h holds (remove-head fd fds)

  pub drop-Holds :
      (ch : Channel) (fds : List ℤ) (h : History)
      → Holds (ch.fd ∷ fds) h
      → Holds fds (drop os ch h).1
  unfolding drop
  drop-Holds ch fds h holds =
      unmount-Holds ch.mountpoint fds (close ch.fd ∷ h) (close-Holds ch.fd fds h holds)

  pub history-send_reply :
      (s : ChannelSender) (slices : List (List ℕ)) (h : History)
      → (send_reply os s slices h).1 ≡ writev s.fd slices ∷ h
  unfolding send_reply send
  history-send_reply s slices h = elim (Bool-cases (is_negative (os.written h s.fd slices))) [
    | inl failed ↦ rw (send_reply, send, failed) refl
    | inr fine ↦ rw (send_reply, send, fine) refl
  ]

  pub writev-Holds :
      (fd : ℤ) (slices : List (List ℕ)) (fds : List ℤ) (h : History)
      → Holds (fd ∷ fds) h
      → Holds (fd ∷ fds) (writev fd slices ∷ h)
  writev-Holds fd slices fds h holds =
      Holds-call (writev fd slices) (fd ∷ fds) (fd ∷ fds) h holds (when_open-head fd fds)

  pub send_all-Holds :
      (fd : ℤ) (ps : List Packet) (fds : List ℤ) (h : History)
      → AreTo fd ps
      → Holds (fd ∷ fds) h
      → Holds (fd ∷ fds) (send_all os ps h).1
  unfolding send_all
  send_all-Holds fd [] fds h to holds = holds
  send_all-Holds fd (p ∷ ps) fds h to holds = send_all-Holds fd ps fds _ to.1 (
      rw (history-send_reply (record { fd = p.fd }) p.slices h, to.0)
        (writev-Holds fd p.slices fds h holds))

  -- Last packets, and then the drop of the channel.
  pub last-Holds :
      (ch : Channel) (last : List Packet) (fds : List ℤ) (h : History)
      → AreTo ch.fd last
      → Holds (ch.fd ∷ fds) h
      → Holds fds (drop os ch (send_all os last h).1).1
  last-Holds ch last fds h to holds = drop-Holds ch fds _ (send_all-Holds ch.fd last fds h to holds)

  -- After opening: one more descriptor is open, if there is a channel.
  abbrev pub HoldsOpened : List ℤ → Option (Result IoError Channel) × History → Type 0
  HoldsOpened fds (some (ok ch), h) = Holds (ch.fd ∷ fds) h
  HoldsOpened fds (_, h) = Holds fds h

  Opens-HoldsOpened :
      (path : List ℕ) (options : List (List ℕ)) (fds : List ℤ) (h : History)
      (x : Option (Result IoError Channel) × History)
      → Opens os path options h x
      → Holds fds h
      → HoldsOpened fds x
  Opens-HoldsOpened path options fds h _ (no_path e _) holds = Holds-call _ fds fds h holds refl
  Opens-HoldsOpened path options fds h _ (bad_option real _ _) holds =
      Holds-call _ fds fds h holds refl
  Opens-HoldsOpened path options fds h _ (bad_real real _ _ _) holds =
      Holds-call _ fds fds h holds refl
  Opens-HoldsOpened path options fds h _ (not_mounted real _ _ failed) holds =
      Holds-call _ fds fds _ (Holds-call (canonicalize path) fds fds h holds refl)
        (if_true _ _ _ failed)
  Opens-HoldsOpened path options fds h _ (opened ch _ _ fd fine) holds =
      Holds-call _ fds (ch.fd ∷ fds) _ (Holds-call (canonicalize path) fds fds h holds refl)
        (rw (fd, fine) refl)

  pub new-HoldsOpened :
      (path : List ℕ) (options : List (List ℕ)) (fds : List ℤ) (h : History)
      → Holds fds h
      → HoldsOpened fds (Mount.new os path options h)
  new-HoldsOpened path options fds h =
      Opens-HoldsOpened path options fds h _ (new-Opens os path options h)

  -- After mounting: nothing more than before is open, unless the session waits for a request.
  abbrev pub HoldsMounted : List ℤ → MountResult × History → Type 0
  HoldsMounted fds (ran waiting, h) = (fd : ℤ) × Holds (fd ∷ fds) h
  HoldsMounted fds (_, h) = Holds fds h

  leave-HoldsMounted :
      (ch : Channel) (last : List Packet) (end : Ended) (fds : List ℤ) (h : History)
      → AreTo ch.fd last
      → Holds (ch.fd ∷ fds) h
      → HoldsMounted fds (leave os ch last end h)
  unfolding leave
  leave-HoldsMounted ch last waiting fds h to holds = (ch.fd, holds)
  leave-HoldsMounted ch last returned_ok fds h to holds = last-Holds ch last fds h to holds
  leave-HoldsMounted ch last (returned_err e) fds h to holds = last-Holds ch last fds h to holds
  leave-HoldsMounted ch last crashed fds h to holds = last-Holds ch last fds h to holds

  module _ (c : Libc) {S : Type 0} (fs : Filesystem S) (held : List Bool) where
    serve-HoldsMounted :
        (se : Session S) (reads : List Read) (fds : List ℤ) (h : History)
        → Holds (se.ch.fd ∷ fds) h
        → HoldsMounted fds (serve os c fs held se reads h)
    unfolding serve
    serve-HoldsMounted se reads fds h holds =
        let on = run-IsOnChannel c fs se reads in
        leave-HoldsMounted (run c fs se reads).session.ch
          (last_packets c held (run c fs se reads).kept) (run c fs se reads).ended fds _
          (rw on.0 (last_packets-AreTo c se.ch.fd held _ (run-DropsTo c fs se reads)))
          (rw on.0 (send_all-Holds se.ch.fd (run c fs se reads).sent fds h on.1 holds))

    serve_if_open-HoldsMounted :
        (filesystem : S) (reads : List Read) (fds : List ℤ)
        (x : Option (Result IoError Channel) × History)
        → HoldsOpened fds x
        → HoldsMounted fds (serve_if_open os c fs held reads (with_session os filesystem x.0) x.1)
    unfolding session_of
    serve_if_open-HoldsMounted filesystem reads fds (none, h) holds = holds
    serve_if_open-HoldsMounted filesystem reads fds (some (err e), h) holds = holds
    serve_if_open-HoldsMounted filesystem reads fds (some (ok ch), h) holds =
        serve-HoldsMounted (session_of filesystem ch) reads fds h holds

    -- After `mount`, whatever the system answers and however the run ends (it returns, fails or
    -- panics, or mounting did), the descriptors that are open are those from before, and one more
    -- only while the session waits for a request; nothing was written to or closed that was not
    -- open, if that held before.
    pub mount-HoldsMounted :
        (filesystem : S) (path : List ℕ) (options : List (List ℕ)) (reads : List Read)
        (fds : List ℤ) (h : History)
        → Holds fds h
        → HoldsMounted fds (mount os c fs held filesystem path options reads h)
    unfolding mount new
    mount-HoldsMounted filesystem path options reads fds h holds =
        serve_if_open-HoldsMounted filesystem reads fds _ (new-HoldsOpened path options fds h holds)
