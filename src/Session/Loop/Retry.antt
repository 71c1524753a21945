-- ===== src/Session/Loop/Retry.antt =====
-- `Session::run` of src/session.rs on reads that are interrupted.
use fuse_rs.Base.{◌≡◌, refl, ap, ℤ, true, List, [], ◌∷◌, ◌++◌, append-nil, if_true}
use fuse_rs.Platform.{Libc}
use fuse_rs.Channel.{Read, failed, receive}
use fuse_rs.Filesystem.{Filesystem}
use fuse_rs.Session.{Session}
use fuse_rs.Session.Loop.{
  Run, Round, again, stop, waiting, advance, retries, round_of_result, round, run_from, run,
  started,
}
use fuse_rs.Session.Loop.Rule.{IsRetried, retries_iff}

module _ (c : Libc) {S : Type 0} (fs : Filesystem S) where
  round-retry :
      (se : Session S) (errno : ℤ)
      → retries c errno ≡ true
      → round c fs se (failed errno) ≡ again se [] []
  unfolding round receive round_of_result
  round-retry se errno h = if_true (retries c errno) _ _ h

  advance-nil : (m : Run S) → m.ended ≡ waiting → advance m m.session [] [] ≡ m
  advance-nil m h = rw (append-nil m.kept, append-nil m.sent, ← h) refl

  module _ (errno : ℤ) (interrupted : retries c errno ≡ true) (rest : List Read) where
    after_round :
        (rs : List Read) (m : Run S) (r : Read) (x : Round S)
        → round c fs m.session r ≡ x
        → ((m' : Run S)
            → m'.ended ≡ waiting
            → run_from c fs m' (rs ++ failed errno ∷ rest) ≡ run_from c fs m' (rs ++ rest))
        → run_from c fs m (r ∷ (rs ++ failed errno ∷ rest)) ≡ run_from c fs m (r ∷ (rs ++ rest))
    unfolding run_from
    after_round rs m r (again se kept sent) e rec =
        rw (e, run_from) (rec (advance m se kept sent) refl)
    after_round rs m r (stop end sent) e rec = rw (e, run_from) refl

    run_from-retry :
        (rs : List Read) (m : Run S)
        → m.ended ≡ waiting
        → run_from c fs m (rs ++ failed errno ∷ rest) ≡ run_from c fs m (rs ++ rest)
    unfolding run_from
    run_from-retry [] m h =
        rw (round-retry m.session errno interrupted, run_from)
          (ap (λ m'. run_from c fs m' rest) (advance-nil m h))
    run_from-retry (r ∷ rs) m h =
        after_round rs m r (round c fs m.session r) refl (run_from-retry rs)

  -- A read that fails with ENOENT, EINTR or EAGAIN changes nothing: the run is that of the other
  -- reads.
  pub run-retry :
      (se : Session S) (rs : List Read) (errno : ℤ) (rest : List Read)
      → IsRetried c errno
      → run c fs se (rs ++ failed errno ∷ rest) ≡ run c fs se (rs ++ rest)
  unfolding run
  run-retry se rs errno rest interrupted =
      run_from-retry errno ((retries_iff c errno).1 interrupted) rest rs (started c fs se) refl
