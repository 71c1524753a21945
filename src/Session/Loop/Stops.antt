-- ===== src/Session/Loop/Stops.antt =====
-- `Session::run` of src/session.rs: a round that stops the loop ends its run.
use fuse_rs.Base.{◌≢◌, arith}
use fuse_rs.Platform.{Libc}
use fuse_rs.Channel.{Read}
use fuse_rs.Filesystem.{Filesystem}
use fuse_rs.Session.{Session}
use fuse_rs.Session.Loop.{waiting, Round, again, stop, round, round_of_dispatch}
use fuse_rs.Session.Loop.Rule.{round_cases}
use fuse_rs.Request.Dispatch.{Dispatched, dispatch}
use fuse_rs.Effect.{done, panicked}

module _ (c : Libc) {S : Type 0} (fs : Filesystem S) where
  -- A round that ends the loop ends it.
  abbrev pub Stops : Round S → Type 0
  Stops (again se kept sent) = Unit {0}
  Stops (stop end sent) = end ≢ waiting

  round_of_dispatch-Stops : (o : Dispatched S) → Stops (round_of_dispatch c fs o)
  unfolding round_of_dispatch
  round_of_dispatch-Stops (done (se, kept) sent) = tt
  round_of_dispatch-Stops (panicked sent) = λ e. absurd (ground (arith, e))

  pub round-Stops : (se : Session S) (r : Read) → Stops (round c fs se r)
  round-Stops se =
      round_cases c fs (λ _. Stops) se (λ _ _. tt) (λ _ _ _ e. absurd (ground (arith, e)))
        (λ _ _ _ e. absurd (ground (arith, e))) (λ _ _ e. absurd (ground (arith, e)))
        (λ _ q _. round_of_dispatch-Stops (dispatch c fs q se))
