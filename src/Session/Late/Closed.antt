-- ===== src/Session/Late/Closed.antt =====
-- A reply that is used when its session is over: its sender (src/channel.rs) has kept the number of a
-- descriptor that is closed by then.
use fuse_rs.Base.{Bool, ℕ, ℤ, ◌≡◌, refl, ap, ◌∙◌, ◌≢◌, List, ◌∷◌, none, some, sym}
use mathlib.Core.Path.{subst}
use mathlib.Core.Option
use fuse_rs.Base.Result.{ok}
use fuse_rs.Platform.{Libc}
use fuse_rs.Effect.{Packet}
use fuse_rs.Os.{Os, History, writev}
use fuse_rs.Channel.{Channel, Read}
use fuse_rs.Channel.Mount
use fuse_rs.Channel.Mount.{send_reply}
use fuse_rs.Filesystem.{Filesystem}
use fuse_rs.Session.{Session}
use fuse_rs.Session.Loop.{Ended, waiting, returned_ok, returned_err, crashed, run}
use fuse_rs.Session.Loop.Sender.{AreTo, run-IsOnChannel}
use fuse_rs.Session.Loop.Keeps.{last_packets-AreTo, run-DropsTo}
use fuse_rs.Session.Mount.Last.{last_packets}
use fuse_rs.Session.Mount.{serve, leave}
use fuse_rs.Session.Mount.Descriptors.{
  remove, open_descriptors, Holds, HoldsOpened, new-HoldsOpened, when_open, last-Holds,
  send_all-Holds, history-send_reply, writev-Holds,
}

module _ (os : Os) where
  -- A write to a number that is not open.
  writev-stray :
      (fd : ℤ) (slices : List (List ℕ)) (fds : List ℤ) (h : History)
      → Holds os fds h
      → remove fd fds ≡ none
      → open_descriptors os (writev fd slices ∷ h) ≡ none
  unfolding open_descriptors Option.bind
  writev-stray fd slices fds h holds absent = rw (open_descriptors, holds, when_open, absent) refl

  leave-Holds :
      (ch : Channel) (last : List Packet) (end : Ended) (fds : List ℤ) (h : History)
      → end ≢ waiting
      → AreTo ch.fd last
      → Holds os (ch.fd ∷ fds) h
      → Holds os fds (leave os ch last end h).1
  unfolding leave
  leave-Holds ch last waiting fds h ended to holds = absurd (ended refl)
  leave-Holds ch last returned_ok fds h ended to holds = last-Holds os ch last fds h to holds
  leave-Holds ch last (returned_err e) fds h ended to holds = last-Holds os ch last fds h to holds
  leave-Holds ch last crashed fds h ended to holds = last-Holds os ch last fds h to holds

  module _ (c : Libc) {S : Type 0} (fs : Filesystem S) (held : List Bool) (se : Session S)
      (reads : List Read) where
    abbrev pub over : History → History
    over h = (serve os c fs held se reads h).1

    over-Holds :
        (fds : List ℤ) (h : History)
        → Holds os (se.ch.fd ∷ fds) h
        → (run c fs se reads).ended ≢ waiting
        → Holds os fds (over h)
    unfolding serve
    over-Holds fds h holds ended =
        let on = run-IsOnChannel c fs se reads in
        leave-Holds (run c fs se reads).session.ch (last_packets c held (run c fs se reads).kept)
          (run c fs se reads).ended fds _ ended
          (rw on.0 (last_packets-AreTo c se.ch.fd held _ (run-DropsTo c fs se reads)))
          (rw on.0 (send_all-Holds os se.ch.fd (run c fs se reads).sent fds h on.1 holds))

    -- For a session whose channel is open beside other descriptors, none of the same number: when
    -- its run has come to its end and the session is dropped, those others are what is open, and a
    -- reply of the session that is sent then is written to a descriptor that is not open.
    pub late-stray :
        (fds : List ℤ) (slices : List (List ℕ)) (h : History)
        → Holds os (se.ch.fd ∷ fds) h
        → (run c fs se reads).ended ≢ waiting
        → remove se.ch.fd fds ≡ none
        → (open_descriptors os (over h) ≡ some fds)
          × (open_descriptors os (send_reply os (record { fd = se.ch.fd }) slices (over h)).1
              ≡ none)
    late-stray fds slices h holds ended absent =
        let closed = over-Holds fds h holds ended in
        (
          closed,
          rw (history-send_reply os (record { fd = se.ch.fd }) slices (over h))
              (writev-stray se.ch.fd slices fds (over h) closed absent),
        )

    -- For a session whose channel is open beside other descriptors: when its run has come to its
    -- end, the session is dropped, and the system then gives the number of its channel's
    -- descriptor to the channel of another mount, a reply of the first session that is sent then
    -- is one write to that other channel, as an open descriptor like any other.
    pub late-reused :
        (fds : List ℤ) (slices : List (List ℕ)) (h h' : History) (path : List ℕ)
        (options : List (List ℕ)) (ch : Channel)
        → Holds os (se.ch.fd ∷ fds) h
        → (run c fs se reads).ended ≢ waiting
        → Mount.new os path options (over h) ≡ (some (ok ch), h')
        → ch.fd ≡ se.ch.fd
        → ((send_reply os (record { fd = se.ch.fd }) slices h').1 ≡ writev ch.fd slices ∷ h')
          × Holds os (ch.fd ∷ fds) (writev ch.fd slices ∷ h')
    late-reused fds slices h h' path options ch holds ended again same =
        let opened : Holds os (ch.fd ∷ fds) h' =
          subst (HoldsOpened os fds) again
            (new-HoldsOpened os path options fds (over h) (over-Holds fds h holds ended)) in
        (
          history-send_reply os (record { fd = se.ch.fd }) slices h'
              ∙ ap (λ fd. writev fd slices ∷ h') (sym same),
          writev-Holds os ch.fd slices fds h' opened,
        )
