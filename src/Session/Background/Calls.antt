-- ===== src/Session/Background/Calls.antt =====
-- `BackgroundSession` of src/session.rs: the calls that its thread and its handle make.
use fuse_rs.Base.{Bool, ◌++◌, ℕ, suc, ◌≡◌, ◌≢◌, refl, ap, ◌∙◌, List, ◌∷◌, Option, none, some, All}
use mathlib.Core.Path.{subst, sym}
use fuse_rs.Platform.{Libc}
use fuse_rs.Effect.{Packet}
use fuse_rs.Os.{Os, History, close, umount}
use fuse_rs.Channel.{Channel, Read}
use fuse_rs.Reply.Raw.{ReplyRaw}
use fuse_rs.Channel.Mount.{unmount}
use fuse_rs.Channel.Mount.Args.{terminated}
use fuse_rs.Ll.Argument.Laws.{NonZero}
use fuse_rs.Filesystem.{Filesystem}
use fuse_rs.Session.{Session}
use fuse_rs.Session.Mount.{send_all}
use fuse_rs.Session.Mount.Last.{last_packets}
use fuse_rs.Session.Loop.Keeps.{refusals, last_packets_lem, run-DropsTo}
use fuse_rs.Session.Mount.Kinds.{
  is_write, is_close, is_umount, only, times, written, written-append, only-send_all,
  writes-send_all, only-unmount, umounts-unmount,
}
use fuse_rs.Session.Loop.{Ended, waiting, Run, again, stop, advance, halt, round, run}
use fuse_rs.Session.Loop.Stops.{Stops, round-Stops}
use fuse_rs.Session.Loop.Sender.{RoundIsOnChannel, round-IsOnChannel}
use fuse_rs.Session.Background.{
  Thread, serving, closing, finished, Background, goes_on, leaves, unmounts, drops, Steps, nothing,
  «then», new,
}
use fuse_rs.Session.Background.Laws.{run_of, Steps-run}

-- How often the thread has closed the descriptor, and both have asked to unmount.
abbrev pub closings : {S : Type 0} → Thread S → ℕ
closings (serving m) = 0
closings (closing m) = 1
closings (finished m) = 1

abbrev pub drops_of : Option (List ℕ) → ℕ
drops_of none = 1
drops_of (some path) = 0

abbrev pub unmountings : {S : Type 0} → Thread S → Option (List ℕ) → ℕ
unmountings (serving m) handle = drops_of handle
unmountings (closing m) handle = drops_of handle
unmountings (finished m) handle = suc (drops_of handle)

-- A thread serves as long as its run has not ended.
abbrev pub Phase : {S : Type 0} → Thread S → Ended → Type 0
Phase (serving m) end = end ≡ waiting
Phase (closing m) end = end ≢ waiting
Phase (finished m) end = end ≢ waiting

-- The packets of the run, and behind its end those that the drop of the file system sends.
abbrev pub all_sent : {S : Type 0} → List Packet → Thread S → Run S → List Packet
all_sent last (serving _) m = m.sent
all_sent last (closing _) m = m.sent ++ last
all_sent last (finished _) m = m.sent ++ last

-- The calls behind those of `h`: the packets of the run `m`, and so many closings and unmountings.
abbrev pub Made :
    {S : Type 0} → List Packet → Channel → History → Run S → Background S × History → Type 0
Made last ch h m ((t, handle), h') =
    Phase t m.ended
    × (only is_write h' ≡ written (all_sent last t m) (only is_write h))
    × (only is_close h' ≡ times (closings t) (close ch.fd) (only is_close h))
    × (only is_umount h'
        ≡ times (unmountings t handle) (umount (terminated ch.mountpoint)) (only is_umount h))

-- The handle has the path of the channel.
abbrev HasPath : List ℕ → Option (List ℕ) → Type 0
HasPath path none = Unit {0}
HasPath path (some path') = path' ≡ path

module _ (os : Os) (c : Libc) {S : Type 0} (fs : Filesystem S) (held : List Bool) where
  module _ (ch : Channel) (good : All NonZero ch.mountpoint) (h : History) where
    abbrev Kept : Background S × History → Type 0
    Kept s =
        Made (last_packets c held (run_of s.0.0).kept) ch h (run_of s.0.0) s
        × ((run_of s.0.0).session.ch ≡ ch)
        × HasPath ch.mountpoint s.0.1

    goes_on-Kept :
        (m : Run S) (handle : Option (List ℕ)) (h' : History) (r : Read) (se : Session S)
        (kept : List ReplyRaw) (sent : List Packet)
        → round c fs m.session r ≡ again se kept sent
        → Kept ((serving m, handle), h')
        → Kept ((serving (advance m se kept sent), handle), (send_all os sent h').1)
    goes_on-Kept m handle h' r se kept sent e ((_, writes, closes, umounts), same, path) =
        let on =
          subst (RoundIsOnChannel c fs m.session) e
            (round-IsOnChannel c fs m.session m.session r refl) in
        (
          (
            refl,
            writes-send_all os sent h'
                ∙ ap (written sent) writes
                ∙ sym (written-append m.sent sent _),
            only-send_all os is_close sent h' (λ _. refl) ∙ closes,
            only-send_all os is_umount sent h' (λ _. refl) ∙ umounts,
          ),
          on.0 ∙ same,
          path,
        )

    leaves-Kept :
        (m : Run S) (handle : Option (List ℕ)) (h' : History) (r : Read) (end : Ended)
        (sent : List Packet)
        → round c fs m.session r ≡ stop end sent
        → Kept ((serving m, handle), h')
        → Kept (
          (closing (halt m end sent), handle),
          close m.session.ch.fd ∷ (send_all os (sent ++ last_packets c held m.kept) h').1,
        )
    unfolding only
    leaves-Kept m handle h' r end sent e ((_, writes, closes, umounts), same, path) =
        let last = last_packets c held m.kept in
        (
          (
            subst (Stops c fs) e (round-Stops c fs m.session r),
            writes-send_all os (sent ++ last) h'
                ∙ ap (written (sent ++ last)) writes
                ∙ written-append sent last _
                ∙ ap (written last) (sym (written-append m.sent sent _))
                ∙ sym (written-append (m.sent ++ sent) last _),
            ap (λ (ch : Channel). close ch.fd ∷ only is_close (send_all os (sent ++ last) h').1)
                  same
                ∙ ap (◌∷◌ (close ch.fd))
                    (only-send_all os is_close (sent ++ last) h' (λ _. refl) ∙ closes),
            only-send_all os is_umount (sent ++ last) h' (λ _. refl) ∙ umounts,
          ),
          same,
          path,
        )

    -- One more unmounting, by the thread or by the handle.
    unmount-Kept :
        (t t' : Thread S) (handle handle' : Option (List ℕ)) (h' : History) (path : List ℕ)
        → path ≡ ch.mountpoint
        → run_of t' ≡ run_of t
        → Phase t' (run_of t).ended
        → closings t' ≡ closings t
        → all_sent (last_packets c held (run_of t).kept) t' (run_of t)
          ≡ all_sent (last_packets c held (run_of t).kept) t (run_of t)
        → unmountings t' handle' ≡ suc (unmountings t handle)
        → HasPath ch.mountpoint handle'
        → Kept ((t, handle), h')
        → Kept ((t', handle'), (unmount os path h').1)
    unmount-Kept t t' handle handle' h' path at same_run phase same_closings same_sent more has
          ((_, writes, closes, umounts), same, _) =
        rw (at, same_run)
          (
            (
              phase,
              only-unmount os is_write ch.mountpoint h' good refl refl
                  ∙ writes
                  ∙ ap (λ ps. written ps (only is_write h)) (sym same_sent),
              only-unmount os is_close ch.mountpoint h' good refl refl
                  ∙ closes
                  ∙ ap (λ n. times n (close ch.fd) (only is_close h)) (sym same_closings),
              umounts-unmount os ch.mountpoint h' good
                  ∙ ap (◌∷◌ (umount (terminated ch.mountpoint))) umounts
                  ∙ ap (λ n. times n (umount (terminated ch.mountpoint)) (only is_umount h))
                      (sym more),
            ),
            same,
            has,
          )

    drops-Kept :
        (t : Thread S) (path : List ℕ) (h' : History)
        → Kept ((t, some path), h')
        → Kept ((t, none), (unmount os path h').1)
    drops-Kept (serving m) path h' k =
        unmount-Kept (serving m) (serving m) (some path) none h' path k.2 refl k.0.0 refl refl refl
          tt k
    drops-Kept (closing m) path h' k =
        unmount-Kept (closing m) (closing m) (some path) none h' path k.2 refl k.0.0 refl refl refl
          tt k
    drops-Kept (finished m) path h' k =
        unmount-Kept (finished m) (finished m) (some path) none h' path k.2 refl k.0.0 refl refl
          refl tt k

    Steps-Kept :
        (rs : List Read) (s s' : Background S × History)
        → Steps os c fs held rs s s'
        → Kept s
        → Kept s'
    Steps-Kept _ _ _ nothing k = k
    Steps-Kept _ _ _ («then» (goes_on {m = m} {handle = handle} {h = h'} r se kept sent e) steps)
          k =
        Steps-Kept _ _ _ steps (goes_on-Kept m handle h' r se kept sent e k)
    Steps-Kept _ _ _ («then» (leaves {m = m} {handle = handle} {h = h'} r end sent e) steps) k =
        Steps-Kept _ _ _ steps (leaves-Kept m handle h' r end sent e k)
    Steps-Kept _ _ _ («then» (unmounts {m = m} {handle = handle} {h = h'}) steps) k =
        Steps-Kept _ _ _ steps (
          unmount-Kept (closing m) (finished m) handle handle h' _
            (ap (λ (ch : Channel). ch.mountpoint) k.1) refl k.0.0 refl refl refl k.2 k)
    Steps-Kept _ _ _ («then» (drops {t = t} {mountpoint = path} {h = h'}) steps) k =
        Steps-Kept _ _ _ steps (drops-Kept t path h' k)

  -- However the steps of the background session of a session, whose mount point has no zero byte,
  -- are interleaved with the dropping of its handle: the thread serves exactly as long as the run
  -- of the session on the reads so far has not ended; the writes since the start are the packets
  -- of that run, each once and in order, and once it has ended one answer EIO, to the channel, for
  -- each kept reply that the state of the file system has; the descriptor of the channel is closed
  -- once when the run has ended and not before, and no other is; and the system was asked to
  -- unmount the mount point once for a handle that was dropped and once for a thread that has
  -- finished, and no other path.
  pub Steps-Made :
      (se : Session S) (h : History) (rs : List Read) (s : Background S × History)
      → All NonZero se.ch.mountpoint
      → Steps os c fs held rs (new os c fs se, h) s
      → Made (refusals c se.ch.fd held (run c fs se rs).kept) se.ch h (run c fs se rs) s
  unfolding new
  Steps-Made se h rs s good steps =
      subst (λ last. Made last se.ch h (run c fs se rs) s)
        (last_packets_lem c se.ch.fd held _ (run-DropsTo c fs se rs))
        (subst (λ (m : Run S). Made (last_packets c held m.kept) se.ch h m s)
          (Steps-run os c fs held se h rs s steps)
          (Steps-Kept se.ch good h rs _ s steps ((refl, refl, refl, refl), refl, refl)).0)
