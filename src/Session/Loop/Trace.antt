-- ===== src/Session/Loop/Trace.antt =====
-- `Session::run` of src/session.rs: an invariant of the session over all that it reads.
use fuse_rs.Base.{ℕ, ◌≤◌, ◌<◌, ◌≡◌, refl, ◌⊎◌, inl, inr, true, false, List, arith}
use mathlib.Core.Path.{subst}
use fuse_rs.Abi.Structs.{FuseInitIn}
use fuse_rs.Platform.{Libc}
use fuse_rs.Effect.{done, panicked}
use fuse_rs.Channel.{Channel, Read}
use fuse_rs.Ll.Operation.{Operation}
use fuse_rs.Filesystem.{Filesystem}
use fuse_rs.Session.{Session, session_of}
use fuse_rs.Request.Dispatch.{Dispatched, dispatch, unsupported_version}
use fuse_rs.Request.Lifecycle.{
  Follows, unchanged, init_failed, init_done, called, destroy_done, Ensures, returns, crashes,
  dispatch-Follows,
}
use fuse_rs.Session.Loop.{Round, again, stop, round_of_dispatch, round, run, started}
use fuse_rs.Session.Loop.Rule.{run_from_rule, round_cases}

-- A protocol version that INIT accepts.
abbrev pub IsSupported : ℕ → ℕ → Type 0
IsSupported major minor = (7 < major) ⊎ ((major ≡ 7) × (6 ≤ minor))

-- Not initialized and not destroyed, or initialized with a supported version.
abbrev pub Inv : {S : Type 0} → Session S → Type 0
Inv se =
    ((se.initialized ≡ false) × (se.destroyed ≡ false))
    ⊎ ((se.initialized ≡ true) × IsSupported se.proto_major se.proto_minor)

session_of-Inv : {S : Type 0} (filesystem : S) (ch : Channel) → Inv (session_of filesystem ch)
unfolding session_of
session_of-Inv filesystem ch = inl (refl, refl)

unsupported_false :
    (arg : FuseInitIn) → unsupported_version arg ≡ false → IsSupported arg.major arg.minor
unfolding unsupported_version
unsupported_false arg h = ground arith

Follows-Inv :
    {S : Type 0} {se se' : Session S} {op : Operation} → Follows se op se' → Inv se → Inv se'
Follows-Inv (unchanged op) v = v
Follows-Inv (init_failed arg s h) (inl fresh) = inl fresh
Follows-Inv (init_failed arg s h) (inr (up, _)) = inr (up, unsupported_false arg h)
Follows-Inv (init_done arg s h) v = inr (refl, unsupported_false arg h)
Follows-Inv (called op s up alive) v = v
Follows-Inv (destroy_done s up) (inl (down, _)) = absurd (ground (arith, up, down))
Follows-Inv (destroy_done s up) (inr v) = inr v

-- Of the session that goes on after a round.
abbrev OnAgain : {S : Type 0} → (Session S → Type 0) → Round S → Type 0
OnAgain P (again se kept sent) = P se
OnAgain P (stop end sent) = Unit {0}

module _ (c : Libc) {S : Type 0} (fs : Filesystem S) where
  dispatch-OnAgain :
      (P : Session S → Type 0) (o : Dispatched S)
      → Ensures P o
      → OnAgain P (round_of_dispatch c fs o)
  unfolding round_of_dispatch
  dispatch-OnAgain P (done (se, kept) sent) (returns _ _ _ h) = h
  dispatch-OnAgain P (panicked sent) (crashes _) = tt

  Ensures-map :
      (P P' : Session S → Type 0) (o : Dispatched S)
      → ((se : Session S) → P se → P' se)
      → Ensures P o
      → Ensures P' o
  Ensures-map P P' _ f (returns se kept sent h) = returns se kept sent (f se h)
  Ensures-map P P' _ f (crashes sent) = crashes sent

  round-Inv : (se : Session S) (r : Read) → Inv se → OnAgain Inv (round c fs se r)
  round-Inv se r v =
      round_cases c fs (λ _ x. OnAgain Inv x) se (λ _ _. v) (λ _ _ _. tt) (λ _ _ _. tt) (λ _ _. tt)
        (λ bytes q _. dispatch-OnAgain Inv (dispatch c fs q se) (
          Ensures-map (Follows se q.request.operation) Inv _ (λ se' st. Follows-Inv st v)
            (dispatch-Follows c fs q se)))
        r

  run_from-Inv : (se : Session S) (rs : List Read) → Inv se → Inv (run c fs se rs).session
  unfolding run
  run_from-Inv se rs v =
      run_from_rule c fs (λ _ m. Inv m.session) (λ m. Inv m.session)
        (λ r rs m se' kept sent e h. subst (OnAgain Inv) e (round-Inv m.session r h))
        (λ r rs m end sent e h. h) (λ m h. h) rs (started c fs se) v

  -- After a new session has run on any sequence of reads it is neither initialized nor destroyed,
  -- or it is initialized with a protocol version of at least 7.6.
  pub run-Inv :
      (filesystem : S) (ch : Channel) (rs : List Read)
      → Inv (run c fs (session_of filesystem ch) rs).session
  run-Inv filesystem ch rs =
      run_from-Inv (session_of filesystem ch) rs (session_of-Inv filesystem ch)
