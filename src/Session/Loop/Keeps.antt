-- ===== src/Session/Loop/Keeps.antt =====
-- The replies that the file system keeps during `Session::run` of src/session.rs: where dropping them sends
-- to.
use fuse_rs.Base.{
  ap₂, ◌++◌, ℕ, ℤ, ◌≡◌, refl, ap, inl, inr, Bool, true, false, List, [], ◌∷◌, All, All-append,
}
use mathlib.Core.Path.{subst, sym}
use fuse_rs.Platform.{Libc}
use fuse_rs.Effect.{Packet, ChannelSender, done, panicked}
use fuse_rs.Channel.{Channel, Read, sender}
use fuse_rs.Ll.Request.{unique}
use fuse_rs.Reply.Raw.{ReplyRaw, new, drop}
use fuse_rs.Reply.Raw.Laws.{packet, drop-new}
use fuse_rs.Filesystem.{Filesystem}
use fuse_rs.Session.{Session}
use fuse_rs.Request.{ch-new}
use fuse_rs.Request.Dispatch.{Dispatched, dispatch}
use fuse_rs.Request.Replies.{Replied}
use fuse_rs.Request.Settling.{dispatch_rule}
use fuse_rs.Session.Loop.{Run, Round, again, stop, round_of_dispatch, round, run, started}
use fuse_rs.Session.Loop.Rule.{run_from_rule, round_cases}
use fuse_rs.Session.Loop.Sender.{AreTo, RoundIsOnChannel, round-IsOnChannel}
use fuse_rs.Session.Mount.Last.{packets_of, last_packets}

module _ (c : Libc) where
  -- The answer EIO to the request of a reply.
  abbrev pub refusal : ℤ → ReplyRaw → Packet
  refusal fd r = packet (record { fd = fd }) r.unique c.eio []

  -- Dropping the reply answers its request with EIO.
  abbrev pub DropsTo : ℤ → ReplyRaw → Type 0
  DropsTo fd r = packets_of (drop c r) ≡ refusal fd r ∷ []

  -- The answers EIO to the requests of the replies in the state.
  abbrev pub refusals : ℤ → List Bool → List ReplyRaw → List Packet
  refusals fd [] kept = []
  refusals fd (b ∷ held) [] = []
  refusals fd (true ∷ held) (r ∷ kept) = refusal fd r ∷ refusals fd held kept
  refusals fd (false ∷ held) (r ∷ kept) = refusals fd held kept

  pub last_packets_lem :
      (fd : ℤ) (held : List Bool) (kept : List ReplyRaw)
      → All (DropsTo fd) kept
      → last_packets c held kept ≡ refusals fd held kept
  unfolding last_packets
  last_packets_lem fd [] kept h = refl
  last_packets_lem fd (b ∷ held) [] h = refl
  last_packets_lem fd (true ∷ held) (r ∷ kept) h =
      ap₂ (◌++◌) h.0 (last_packets_lem fd held kept h.1)
  last_packets_lem fd (false ∷ held) (r ∷ kept) h = last_packets_lem fd held kept h.1

  refusals-AreTo :
      (fd : ℤ) (held : List Bool) (kept : List ReplyRaw) → AreTo fd (refusals fd held kept)
  unfolding packet
  refusals-AreTo fd [] kept = tt
  refusals-AreTo fd (b ∷ held) [] = tt
  refusals-AreTo fd (true ∷ held) (r ∷ kept) = (refl, refusals-AreTo fd held kept)
  refusals-AreTo fd (false ∷ held) (r ∷ kept) = refusals-AreTo fd held kept

  pub last_packets-AreTo :
      (fd : ℤ) (held : List Bool) (kept : List ReplyRaw)
      → All (DropsTo fd) kept
      → AreTo fd (last_packets c held kept)
  last_packets-AreTo fd held kept h =
      subst (AreTo fd) (sym (last_packets_lem fd held kept h)) (refusals-AreTo fd held kept)

  new-DropsTo : (s : ChannelSender) (u : ℕ) → DropsTo s.fd (new u s)
  unfolding new
  new-DropsTo s u = ap packets_of (drop-new c u s)

  -- Of a dispatch: what is kept.
  abbrev Keeps : {S : Type 0} → ℤ → Dispatched S → Type 0
  Keeps fd (done (se, kept) sent) = All (DropsTo fd) kept
  Keeps fd (panicked sent) = Unit {0}

  Replied-Keeps :
      {S : Type 0} (s : ChannelSender) (u : ℕ) (o : Dispatched S) → Replied c s u o → Keeps s.fd o
  Replied-Keeps s u (done (se, kept) sent) (inl (h, _, _, _)) =
      subst (All (DropsTo s.fd)) (sym h) tt
  Replied-Keeps s u (done (se, kept) sent) (inr (h, _)) =
      subst (All (DropsTo s.fd)) (sym h) (new-DropsTo s u, tt)
  Replied-Keeps s u (panicked sent) h = tt

  module _ {S : Type 0} (fs : Filesystem S) where
    abbrev pub RoundKeeps : ℤ → Round S → Type 0
    RoundKeeps fd (again se kept sent) = All (DropsTo fd) kept
    RoundKeeps fd (stop end sent) = Unit {0}

    round_of_dispatch-RoundKeeps :
        (fd : ℤ) (o : Dispatched S) → Keeps fd o → RoundKeeps fd (round_of_dispatch c fs o)
    unfolding round_of_dispatch
    round_of_dispatch-RoundKeeps fd (done (se, kept) sent) h = h
    round_of_dispatch-RoundKeeps fd (panicked sent) h = tt

    pub round-RoundKeeps : (m : Session S) (r : Read) → RoundKeeps m.ch.fd (round c fs m r)
    unfolding sender
    round-RoundKeeps m =
        round_cases c fs (λ _. RoundKeeps m.ch.fd) m (λ _ _. tt) (λ _ _ _. tt) (λ _ _ _. tt)
          (λ _ _. tt)
          (λ bytes q is_new.
            let fd : q.ch.fd ≡ m.ch.fd =
              ap (λ (s : ChannelSender). s.fd) (ch-new (sender m.ch) bytes q is_new) in
            round_of_dispatch-RoundKeeps m.ch.fd (dispatch c fs q m) (
              subst (λ fd. Keeps fd (dispatch c fs q m)) fd
                (dispatch_rule c fs q m (Keeps q.ch.fd) (Replied-Keeps q.ch (unique q.request))
                  (λ _ _ _. tt))))

    -- Dropping a reply that a run keeps sends to the descriptor of the session's channel.
    pub run-DropsTo :
        (se : Session S) (rs : List Read) → All (DropsTo se.ch.fd) (run c fs se rs).kept
    unfolding run
    run-DropsTo se rs =
        let P : Run S → Type 0 = λ m. (m.session.ch ≡ se.ch) × All (DropsTo se.ch.fd) m.kept in
        (run_from_rule c fs (λ _. P) P
          (λ r rs' m se' kept sent e h. (
            (subst (RoundIsOnChannel c fs se) e (round-IsOnChannel c fs se m.session r h.0)).0,
            All-append (DropsTo se.ch.fd) m.kept kept h.1 (
                subst (λ (ch : Channel). All (DropsTo ch.fd) kept) h.0
                  (subst (RoundKeeps m.session.ch.fd) e (round-RoundKeeps m.session r))),
          ))
          (λ r rs' m end sent e h. h) (λ m h. h) rs (started c fs se) (refl, tt)).1
