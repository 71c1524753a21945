-- ===== src/Session/Loop/Counts.antt =====
-- `Session::run` of src/session.rs: how many replies a run sends and how many are kept.
use fuse_rs.Base.{ℕ, ◌+◌, ◌≤◌, ap, inl, inr, List, [], ◌∷◌, arith, length, length-append}
use mathlib.Core.Path.{subst}
use fuse_rs.Platform.{Libc}
use fuse_rs.Effect.{ChannelSender, Packet, done, panicked}
use fuse_rs.Channel.{Read}
use fuse_rs.Ll.Request.{unique}
use fuse_rs.Reply.Raw.{ReplyRaw}
use fuse_rs.Filesystem.{Filesystem}
use fuse_rs.Session.{Session}
use fuse_rs.Request.{Request}
use fuse_rs.Request.Dispatch.{Dispatched, dispatch}
use fuse_rs.Request.Replies.{Replied}
use fuse_rs.Request.Settling.{dispatch_rule}
use fuse_rs.Session.Loop.{
  Run, Round, again, stop, Ended, advance, halt, round_of_dispatch, round, run, started,
}
use fuse_rs.Session.Loop.Rule.{run_from_rule, round_cases}

-- At most one reply, sent or kept.
abbrev IsSingle : {S : Type 0} → Dispatched S → Type 0
IsSingle (done (se, kept) sent) = length kept + length sent ≤ 1
IsSingle (panicked sent) = length sent ≤ 1

abbrev AddsOne : {S : Type 0} → Round S → Type 0
AddsOne (again se kept sent) = length kept + length sent ≤ 1
AddsOne (stop end sent) = length sent ≤ 1

Replied-IsSingle :
    {S : Type 0} (c : Libc) (s : ChannelSender) (u : ℕ) (o : Dispatched S)
    → Replied c s u o
    → IsSingle o
Replied-IsSingle c s u (done (se, kept) sent) (inl (none_kept, err, bytes, one)) =
    omega (arith, ap length none_kept, ap length one)
Replied-IsSingle c s u (done (se, kept) sent) (inr (one, none_sent)) =
    omega (arith, ap length one, ap length none_sent)
Replied-IsSingle c s u (panicked sent) (inl nothing) = omega (arith, ap length nothing)
Replied-IsSingle c s u (panicked sent) (inr one) = omega (arith, ap length one)

module _ (c : Libc) {S : Type 0} (fs : Filesystem S) where
  dispatch-IsSingle : (q : Request) (se : Session S) → IsSingle (dispatch c fs q se)
  dispatch-IsSingle q se =
      dispatch_rule c fs q se IsSingle (Replied-IsSingle c q.ch (unique q.request))
        (λ _ _ _. omega arith)

  round_of_dispatch-AddsOne : (o : Dispatched S) → IsSingle o → AddsOne (round_of_dispatch c fs o)
  unfolding round_of_dispatch
  round_of_dispatch-AddsOne (done (se, kept) sent) h = h
  round_of_dispatch-AddsOne (panicked sent) h = h

  round-AddsOne : (se : Session S) (r : Read) → AddsOne (round c fs se r)
  round-AddsOne se r =
      round_cases c fs (λ _ x. AddsOne x) se (λ _ _. omega arith) (λ _ _ _. omega arith)
        (λ _ _ _. omega arith) (λ _ _. omega arith)
        (λ bytes q _. round_of_dispatch-AddsOne (dispatch c fs q se) (dispatch-IsSingle q se)) r

  -- Replies that are there, with one for each read that is left.
  abbrev IsWithin : ℕ → List Read → Run S → Type 0
  IsWithin n rs m = length m.kept + length m.sent + length rs ≤ n

  advance-IsWithin :
      (n : ℕ) (r : Read) (rs : List Read) (m : Run S) (se : Session S) (kept : List ReplyRaw)
      (sent : List Packet)
      → length kept + length sent ≤ 1
      → IsWithin n (r ∷ rs) m
      → IsWithin n rs (advance m se kept sent)
  advance-IsWithin n r rs m se kept sent one h =
      omega (arith, length-append m.kept kept, length-append m.sent sent)

  halt-IsWithin :
      (n : ℕ) (r : Read) (rs : List Read) (m : Run S) (end : Ended) (sent : List Packet)
      → length sent ≤ 1
      → IsWithin n (r ∷ rs) m
      → IsWithin n [] (halt m end sent)
  halt-IsWithin n r rs m end sent one h = omega (arith, length-append m.sent sent)

  -- A run of a session on a list of reads sends and keeps together at most as many replies as
  -- there are reads.
  pub run_counts :
      (se : Session S) (rs : List Read)
      → length (run c fs se rs).kept + length (run c fs se rs).sent ≤ length rs
  unfolding run
  run_counts se rs =
      let at : IsWithin (length rs) [] (run c fs se rs) =
        run_from_rule c fs (IsWithin (length rs)) (IsWithin (length rs) [])
          (λ r rs' m se' kept sent e h.
            advance-IsWithin (length rs) r rs' m se' kept sent
              (subst AddsOne e (round-AddsOne m.session r)) h)
          (λ r rs' m end sent e h.
            halt-IsWithin (length rs) r rs' m end sent (subst AddsOne e (round-AddsOne m.session r))
              h)
          (λ m h. h) rs (started c fs se) (omega arith) in
      omega (arith, at)
