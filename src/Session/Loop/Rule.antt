-- ===== src/Session/Loop/Rule.antt =====
-- Reasoning about the session loop: one rule for its rounds, and one for the cases of a round.
use fuse_rs.Base.{
  ℕ, ◌≡◌, refl, ◌⊎◌, ◌↔◌, inl, inr, ℤ, true, false, List, [], ◌∷◌, none, some, arith, eq_ℤ,
  Bool-cases, Option-cases, eq_ℤ_iff, ◌≢◌,
}
use fuse_rs.Platform.{Libc}
use fuse_rs.Effect.{Packet}
use fuse_rs.Channel.{Read, got, failed, sender, receive}
use fuse_rs.Reply.Raw.{ReplyRaw}
use fuse_rs.Filesystem.{Filesystem}
use fuse_rs.Session.{Session}
use fuse_rs.Request.{Request, new}
use fuse_rs.Request.Dispatch.{dispatch}
use fuse_rs.Session.Loop.{
  Run, Round, again, stop, Ended, returned_ok, returned_err, advance, halt, retries,
  round_of_dispatch, round_of_request, round_of_result, round, run_from,
}

-- The errors behind which the loop reads again.
abbrev pub IsRetried : Libc → ℤ → Type 0
IsRetried c errno = (errno ≡ c.enoent) ⊎ ((errno ≡ c.eintr) ⊎ (errno ≡ c.eagain))

pub retries_iff : (c : Libc) (errno : ℤ) → (retries c errno ≡ true) ↔ IsRetried c errno
unfolding retries
retries_iff c errno =
    ground (arith, eq_ℤ_iff errno c.enoent, eq_ℤ_iff errno c.eintr, eq_ℤ_iff errno c.eagain)

pub retries_not : (c : Libc) (errno : ℤ) → retries c errno ≡ false → ¬ IsRetried c errno
retries_not c errno stops h = ground (arith, stops, (retries_iff c errno).1 h)

module _ (c : Libc) {S : Type 0} (fs : Filesystem S) where
  -- The rule of the loop: `P` is kept by a round that goes on, and gives `Q` at the end.
  module _ (P : List Read → Run S → Type 0) (Q : Run S → Type 0)
      (next : (r : Read) (rs : List Read) (m : Run S) (se : Session S) (kept : List ReplyRaw)
          (sent : List Packet)
        → round c fs m.session r ≡ again se kept sent
        → P (r ∷ rs) m
        → P rs (advance m se kept sent))
      (last : (r : Read) (rs : List Read) (m : Run S) (end : Ended) (sent : List Packet)
        → round c fs m.session r ≡ stop end sent
        → P (r ∷ rs) m
        → Q (halt m end sent))
      (idle : (m : Run S) → P [] m → Q m) where
    run_from_step :
        (r : Read) (rs : List Read) (m : Run S) (x : Round S)
        → round c fs m.session r ≡ x
        → P (r ∷ rs) m
        → ((m' : Run S) → P rs m' → Q (run_from c fs m' rs))
        → Q (run_from c fs m (r ∷ rs))
    unfolding run_from
    run_from_step r rs m (again se kept sent) e h rec =
        rw (e, run_from) (rec (advance m se kept sent) (next r rs m se kept sent e h))
    run_from_step r rs m (stop end sent) e h rec = rw (e, run_from) (last r rs m end sent e h)

    pub run_from_rule : (rs : List Read) (m : Run S) → P rs m → Q (run_from c fs m rs)
    unfolding run_from
    run_from_rule [] m h = idle m h
    run_from_rule (r ∷ rs) m h =
        run_from_step r rs m (round c fs m.session r) refl h (run_from_rule rs)

  -- The cases of one round, with the tests that select them.
  pub round_cases :
      (P : Read → Round S → Type 0) (se : Session S)
      → ((errno : ℤ) → retries c errno ≡ true → P (failed errno) (again se [] []))
      → ((errno : ℤ)
          → retries c errno ≡ false
          → errno ≡ c.enodev
          → P (failed errno) (stop returned_ok []))
      → ((errno : ℤ)
          → retries c errno ≡ false
          → errno ≢ c.enodev
          → P (failed errno) (stop (returned_err errno) []))
      → ((bytes : List ℕ) → new (sender se.ch) bytes ≡ none → P (got bytes) (stop returned_ok []))
      → ((bytes : List ℕ) (q : Request)
          → new (sender se.ch) bytes ≡ some q
          → P (got bytes) (round_of_dispatch c fs (dispatch c fs q se)))
      → (r : Read) → P r (round c fs se r)
  unfolding round receive round_of_result round_of_request
  round_cases P se retry unmounted fault illegal request (got bytes) =
      elim (Option-cases (new (sender se.ch) bytes)) [
        | inl e ↦ rw e (illegal bytes e)
        | inr (q, e) ↦ rw e (request bytes q e)
      ]
  round_cases P se retry unmounted fault illegal request (failed errno) =
      elim (Bool-cases (retries c errno)) [
        | inl retry_ok ↦ rw retry_ok (retry errno retry_ok)
        | inr no_more ↦ elim (Bool-cases (eq_ℤ errno c.enodev)) [
          | inl gone ↦
              rw (no_more, gone) (unmounted errno no_more ((eq_ℤ_iff errno c.enodev).0 gone))
          | inr here ↦
              rw (no_more, here)
                (fault errno no_more (λ e. ground (arith, here, (eq_ℤ_iff errno c.enodev).1 e)))
        ]
      ]
