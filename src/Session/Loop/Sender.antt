-- ===== src/Session/Loop/Sender.antt =====
-- `Session::run` of src/session.rs: the descriptor that replies are sent to.
use fuse_rs.Base.{ℕ, ℤ, ◌≡◌, refl, ap, ◌∙◌, inl, inr, List, [], ◌∷◌, All, All-append}
use mathlib.Core.Path.{subst, sym}
use fuse_rs.Platform.{Libc}
use fuse_rs.Effect.{ChannelSender, Packet, done, panicked}
use fuse_rs.Channel.{Channel, Read, sender}
use fuse_rs.Ll.Request.{unique}
use fuse_rs.Ll.Operation.{Operation}
use fuse_rs.Reply.Raw.Laws.{packet}
use fuse_rs.Filesystem.{Filesystem}
use fuse_rs.Session.{Session}
use fuse_rs.Request.{ch-new}
use fuse_rs.Request.Dispatch.{Dispatched, dispatch}
use fuse_rs.Request.Replies.{Replied}
use fuse_rs.Request.Lifecycle.{
  Follows, unchanged, init_failed, init_done, called, destroy_done, Ensures, returns,
  dispatch-Follows,
}
use fuse_rs.Request.Settling.{dispatch_rule}
use fuse_rs.Session.Loop.{Run, Round, again, stop, round_of_dispatch, round, run, started}
use fuse_rs.Session.Loop.Rule.{run_from_rule, round_cases}

abbrev pub IsTo : ℤ → Packet → Type 0
IsTo fd p = p.fd ≡ fd

abbrev pub AreTo : ℤ → List Packet → Type 0
AreTo fd = All (IsTo fd)

-- Of a dispatch: what it sends.
abbrev SendsTo : {S : Type 0} → ℤ → Dispatched S → Type 0
SendsTo fd (done (se, kept) sent) = AreTo fd sent
SendsTo fd (panicked sent) = AreTo fd sent

one-AreTo :
    (s : ChannelSender) (u : ℕ) (e : ℤ) (bytes : List (List ℕ)) (sent : List Packet)
    → sent ≡ packet s u e bytes ∷ []
    → AreTo s.fd sent
unfolding packet
one-AreTo s u e bytes sent h = subst (AreTo s.fd) (sym h) (refl, tt)

Replied-SendsTo :
    {S : Type 0} (c : Libc) (s : ChannelSender) (u : ℕ) (o : Dispatched S)
    → Replied c s u o
    → SendsTo s.fd o
Replied-SendsTo c s u (done (se, kept) sent) (inl (_, e, bytes, h)) = one-AreTo s u e bytes sent h
Replied-SendsTo c s u (done (se, kept) sent) (inr (_, h)) = subst (AreTo s.fd) (sym h) tt
Replied-SendsTo c s u (panicked sent) (inl h) = subst (AreTo s.fd) (sym h) tt
Replied-SendsTo c s u (panicked sent) (inr h) = one-AreTo s u c.eio [] sent h

Follows-ch : {S : Type 0} {se se' : Session S} {op : Operation} → Follows se op se' → se'.ch ≡ se.ch
Follows-ch (unchanged op) = refl
Follows-ch (init_failed arg s h) = refl
Follows-ch (init_done arg s h) = refl
Follows-ch (called op s up alive) = refl
Follows-ch (destroy_done s up) = refl

module _ (c : Libc) {S : Type 0} (fs : Filesystem S) (se : Session S) where
  -- The channel is that of the session, and so are the receivers of what was sent.
  abbrev pub IsOnChannel : Session S → List Packet → Type 0
  IsOnChannel se' sent = (se'.ch ≡ se.ch) × AreTo se.ch.fd sent

  abbrev pub RoundIsOnChannel : Round S → Type 0
  RoundIsOnChannel (again se' kept sent) = IsOnChannel se' sent
  RoundIsOnChannel (stop end sent) = AreTo se.ch.fd sent

  round_of_dispatch_lem :
      (m : Session S) (op : Operation) (o : Dispatched S)
      → m.ch ≡ se.ch
      → Ensures (Follows m op) o
      → SendsTo se.ch.fd o
      → RoundIsOnChannel (round_of_dispatch c fs o)
  unfolding round_of_dispatch
  round_of_dispatch_lem m op (done (se', kept) sent) same (returns _ _ _ follows) h =
      (Follows-ch follows ∙ same, h)
  round_of_dispatch_lem m op (panicked sent) same _ h = h

  pub round-IsOnChannel :
      (m : Session S) (r : Read) → m.ch ≡ se.ch → RoundIsOnChannel (round c fs m r)
  unfolding sender
  round-IsOnChannel m r same =
      round_cases c fs (λ _ x. RoundIsOnChannel x) m (λ _ _. (same, tt)) (λ _ _ _. tt) (λ _ _ _. tt)
        (λ _ _. tt)
        (λ bytes q is_new.
          let fd : q.ch.fd ≡ se.ch.fd =
            ap (λ (s : ChannelSender). s.fd) (ch-new (sender m.ch) bytes q is_new)
            ∙ ap (λ (ch : Channel). ch.fd) same in
          round_of_dispatch_lem m q.request.operation (dispatch c fs q m) same
            (dispatch-Follows c fs q m)
            (subst (λ fd. SendsTo fd (dispatch c fs q m)) fd
              (dispatch_rule c fs q m (SendsTo q.ch.fd) (Replied-SendsTo c q.ch (unique q.request))
                (λ _ _ _. tt))))
        r

  -- A run of a session leaves it its channel, and every packet that it sends goes to the
  -- descriptor of that channel.
  pub run-IsOnChannel :
      (rs : List Read) → IsOnChannel (run c fs se rs).session (run c fs se rs).sent
  unfolding run
  run-IsOnChannel rs =
      let P : Run S → Type 0 = λ m. IsOnChannel m.session m.sent in
      run_from_rule c fs (λ _. P) P
        (λ r rs' m se' kept sent e h.
          let one : RoundIsOnChannel (again se' kept sent) =
            subst RoundIsOnChannel e (round-IsOnChannel m.session r h.0) in
          (one.0, All-append (IsTo se.ch.fd) m.sent sent h.1 one.1))
        (λ r rs' m end sent e h. (
          h.0,
          All-append (IsTo se.ch.fd) m.sent sent h.1
              (subst RoundIsOnChannel e (round-IsOnChannel m.session r h.0)),
        ))
        (λ m h. h) rs (started c fs se) (refl, tt)
