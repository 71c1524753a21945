-- ===== src/Session/Loop/Ending.antt =====
-- `Session::run` of src/session.rs: why a run ends.
use fuse_rs.Base.{
  ℕ, ◌≡◌, refl, sym, ◌∙◌, ◌≢◌, List, [], ◌∷◌, ◌++◌, append_assoc, append-nil, All, All-append, none,
  some,
}
use mathlib.Core.Path.{subst}
use fuse_rs.Platform.{Libc}
use fuse_rs.Effect.{ChannelSender, done, panicked}
use fuse_rs.Channel.{Read, got, failed, sender}
use fuse_rs.Filesystem.{Filesystem}
use fuse_rs.Session.{Session}
use fuse_rs.Request.{Request, new}
use fuse_rs.Request.Dispatch.{Dispatched, dispatch}
use fuse_rs.Session.Loop.{
  Ended, returned_ok, returned_err, crashed, waiting, Run, advance, Round, again, stop,
  round_of_dispatch, round, run, started,
}
use fuse_rs.Session.Loop.Rule.{IsRetried, retries_iff, retries_not, run_from_rule, round_cases}

module _ (c : Libc) where
  -- The read at which the loop ends: no request stands in the packet, or it panics; the file system was
  -- unmounted; or an error that is not handled.
  abbrev pub StopsAt : Read → Ended → Type 0
  StopsAt (got bytes) returned_ok = (s : ChannelSender) × (new s bytes ≡ none)
  StopsAt (got bytes) crashed = (s : ChannelSender) × (q : Request) × (new s bytes ≡ some q)
  StopsAt (failed errno) returned_ok = errno ≡ c.enodev
  StopsAt (failed errno) (returned_err code) =
      (code ≡ errno) × (¬ IsRetried c errno) × (errno ≢ c.enodev)
  StopsAt _ _ = ⊥

  -- A read behind which the loop goes on: it is tried again, or a request stands in the packet.
  abbrev pub IsHandled : Read → Type 0
  IsHandled (failed errno) = IsRetried c errno
  IsHandled (got bytes) = (s : ChannelSender) × (q : Request) × (new s bytes ≡ some q)

  -- All reads were handled, or those before the one at which the loop ends.
  abbrev pub WhyEnded : List Read → Ended → Type 0
  WhyEnded reads waiting = All IsHandled reads
  WhyEnded reads end =
      (before : List Read) × (r : Read) × (after : List Read) × (reads ≡ before ++ r ∷ after)
      × All IsHandled before
      × StopsAt r end

  WhyEnded-StopsAt :
      (reads before : List Read) (r : Read) (after : List Read) (end : Ended)
      → reads ≡ before ++ r ∷ after
      → All IsHandled before
      → StopsAt r end
      → WhyEnded reads end
  WhyEnded-StopsAt reads before (got bytes) after waiting e all h = absurd h
  WhyEnded-StopsAt reads before (failed errno) after waiting e all h = absurd h
  WhyEnded-StopsAt reads before r after returned_ok e all h = (before, r, after, e, all, h)
  WhyEnded-StopsAt reads before r after (returned_err code) e all h = (before, r, after, e, all, h)
  WhyEnded-StopsAt reads before r after crashed e all h = (before, r, after, e, all, h)

module _ (c : Libc) {S : Type 0} (fs : Filesystem S) where
  abbrev OnStop : Read → Round S → Type 0
  OnStop r (again se kept sent) = IsHandled c r
  OnStop r (stop end sent) = StopsAt c r end

  dispatch-OnStop :
      (s : ChannelSender) (bytes : List ℕ) (q : Request) (o : Dispatched S)
      → new s bytes ≡ some q
      → OnStop (got bytes) (round_of_dispatch c fs o)
  unfolding round_of_dispatch
  dispatch-OnStop s bytes q (done (se, kept) sent) e = (s, q, e)
  dispatch-OnStop s bytes q (panicked sent) e = (s, q, e)

  round-OnStop : (se : Session S) (r : Read) → OnStop r (round c fs se r)
  round-OnStop se r =
      round_cases c fs OnStop se (λ errno retry. (retries_iff c errno).0 retry) (λ _ _ gone. gone)
        (λ errno stops here. (refl, retries_not c errno stops, here)) (λ _ e. (sender se.ch, e))
        (λ bytes q e. dispatch-OnStop (sender se.ch) bytes q (dispatch c fs q se) e) r

  -- The run still waits, and these reads are left.
  abbrev IsAt : List Read → List Read → Run S → Type 0
  IsAt reads rs m =
      (m.ended ≡ waiting) × (before : List Read) × (reads ≡ before ++ rs) × All (IsHandled c) before

  IsAt-again :
      (reads : List Read) (r : Read) (rs : List Read) (m m' : Run S)
      → m'.ended ≡ waiting
      → IsHandled c r
      → IsAt reads (r ∷ rs) m
      → IsAt reads rs m'
  IsAt-again reads r rs m m' idle h (_, before, split, all) = (
    idle,
    before ++ r ∷ [],
    split ∙ sym (append_assoc before (r ∷ []) rs),
    All-append (IsHandled c) before (r ∷ []) all (h, tt),
  )

  IsAt-end : (reads : List Read) (m : Run S) → IsAt reads [] m → WhyEnded c reads m.ended
  IsAt-end reads m (idle, before, split, all) = rw (idle, split, append-nil before) all

  -- The loop goes on behind every read that is to be tried again and every packet that holds a
  -- request: either all reads are of these kinds, and it waits, or it ends at the first other one
  -- (no request in the packet, ENODEV, another error, which is then what it returns) or, if it
  -- panics, at a packet that holds a request.
  pub run-WhyEnded :
      (se : Session S) (reads : List Read) → WhyEnded c reads (run c fs se reads).ended
  unfolding run
  run-WhyEnded se reads =
      run_from_rule c fs (IsAt reads) (λ m. WhyEnded c reads m.ended)
        (λ r rs m se' kept sent e at.
          IsAt-again reads r rs m (advance m se' kept sent) refl
            (subst (OnStop r) e (round-OnStop m.session r)) at)
        (λ r rs m end sent e (_, before, split, all).
          WhyEnded-StopsAt c reads before r rs end split all
            (subst (OnStop r) e (round-OnStop m.session r)))
        (IsAt-end reads) reads (started c fs se) (refl, [], refl, tt)
