-- ===== src/Session/Loop/Answers.antt =====
-- `Session::run` of src/session.rs: which requests were read, and what became of the reply to each.
use fuse_rs.Base.{
  ℕ, ℤ, ◌≡◌, ◌≢◌, refl, inl, inr, List, [], ◌∷◌, ◌++◌, Option, none, some, if◌then◌else◌,
  append_assoc, append-nil,
}
use mathlib.Core.Path.{subst}
use mathlib.Core.Option
use fuse_rs.Abi.Structs.{FuseForgetIn}
use fuse_rs.Platform.{Libc}
use fuse_rs.Effect.{Packet, done, panicked}
use fuse_rs.Channel.{Channel, Read, got, failed, sender}
use fuse_rs.Ll.Request.{unique}
use fuse_rs.Ll.Operation.{forget}
use fuse_rs.Reply.Raw.{ReplyRaw}
use fuse_rs.Reply.Raw
use fuse_rs.Reply.Raw.Laws.{packet}
use fuse_rs.Filesystem.{Filesystem}
use fuse_rs.Session.{Session}
use fuse_rs.Request.{Request, new}
use fuse_rs.Request.Dispatch.{Dispatched, dispatch}
use fuse_rs.Request.Replies.{IsReplied}
use fuse_rs.Request.Settling.{dispatch_rule}
use fuse_rs.Session.Loop.{
  Run, Round, again, stop, crashed, retries, advance, round_of_dispatch, round, run, run_from,
  started,
}
use fuse_rs.Session.Loop.Rule.{round_cases}
use fuse_rs.Session.Loop.Sender.{RoundIsOnChannel, round-IsOnChannel}

-- The requests that a read brings, and `none` where the loop ends.
abbrev next : Libc → Channel → Read → Option (List Request)
next c ch (got bytes) = Option.map (λ q. q ∷ []) (new (sender ch) bytes)
next c ch (failed errno) = if retries c errno then some [] else none

abbrev behind : Option (List Request) → List Request → List Request
behind none rest = []
behind (some qs) rest = qs ++ rest

-- All that are read before the loop ends.
abbrev pub requests : Libc → Channel → List Read → List Request
requests c ch [] = []
requests c ch (r ∷ rs) = behind (next c ch r) (requests c ch rs)

-- What one read leads to: no request, or one that is answered by one packet, or whose reply is kept, or
-- that is a FORGET without an answer.
pub data Settles : List Request → List ReplyRaw → List Packet → Type 0 where
  no_request : Settles [] [] []
  answers :
      (q : Request) (e : ℤ) (bytes : List (List ℕ))
      → Settles (q ∷ []) [] (packet q.ch (unique q.request) e bytes ∷ [])
  keeps : (q : Request) → Settles (q ∷ []) (Raw.new (unique q.request) q.ch ∷ []) []
  forgets :
      (q : Request) (arg : FuseForgetIn) → q.request.operation ≡ forget arg → Settles (q ∷ []) [] []

-- One after the other.
pub data AllSettled : List Request → List ReplyRaw → List Packet → Type 0 where
  at_start : AllSettled [] [] []
  «and» :
      {qs qs' : List Request} {kept kept' : List ReplyRaw} {sent sent' : List Packet}
      → AllSettled qs kept sent
      → Settles qs' kept' sent'
      → AllSettled (qs ++ qs') (kept ++ kept') (sent ++ sent')

module _ (c : Libc) {S : Type 0} (fs : Filesystem S) where
  -- Of the round that a read leads to.
  abbrev Fits : Option (List Request) → Round S → Type 0
  Fits (some qs) (again se kept sent) = Settles qs kept sent
  Fits none (again se kept sent) = ⊥
  Fits (some qs) (stop end sent) = end ≡ crashed
  Fits none (stop end sent) = sent ≡ []

  abbrev SettlesOne : Request → Dispatched S → Type 0
  SettlesOne q (done (se, kept) sent) = Settles (q ∷ []) kept sent
  SettlesOne q (panicked sent) = Unit {0}

  Replied-SettlesOne :
      (q : Request) (se : Session S) (o : Dispatched S) → IsReplied c fs q se o → SettlesOne q o
  Replied-SettlesOne q se (done (se', kept) sent) (inl (none_kept, e, bytes, h)) =
      rw (none_kept, h) (answers q e bytes)
  Replied-SettlesOne q se (done (se', kept) sent) (inr (one, none_sent)) =
      rw (one, none_sent) (keeps q)
  Replied-SettlesOne q se (panicked sent) h = tt

  dispatch-SettlesOne : (q : Request) (se : Session S) → SettlesOne q (dispatch c fs q se)
  dispatch-SettlesOne q se =
      dispatch_rule c fs q se (SettlesOne q) (Replied-SettlesOne q se) (λ arg e _. forgets q arg e)

  round_of_dispatch-Fits :
      (q : Request) (o : Dispatched S)
      → SettlesOne q o
      → Fits (some (q ∷ [])) (round_of_dispatch c fs o)
  unfolding round_of_dispatch
  round_of_dispatch-Fits q (done (se, kept) sent) h = h
  round_of_dispatch-Fits q (panicked sent) h = refl

  round-Fits : (se : Session S) (r : Read) → Fits (next c se.ch r) (round c fs se r)
  round-Fits se r =
      round_cases c fs (λ r x. Fits (next c se.ch r) x) se (λ errno again. rw again no_request)
        (λ errno ends _. rw ends refl) (λ errno ends _. rw ends refl)
        (λ bytes illegal. rw illegal refl)
        (λ bytes q legal.
          rw legal (round_of_dispatch-Fits q (dispatch c fs q se) (dispatch-SettlesOne q se)))
        r

  run_from_step :
      (r : Read) (rs : List Read) (m : Run S) (qs : List Request) (x : Round S)
      (o : Option (List Request))
      → round c fs m.session r ≡ x
      → next c m.session.ch r ≡ o
      → Fits o x
      → RoundIsOnChannel c fs m.session x
      → AllSettled qs m.kept m.sent
      → (run_from c fs m (r ∷ rs)).ended ≢ crashed
      → ((m' : Run S) (qs' : List Request)
          → AllSettled qs' m'.kept m'.sent
          → (run_from c fs m' rs).ended ≢ crashed
          → AllSettled
              (qs' ++ requests c m'.session.ch rs)
              (run_from c fs m' rs).kept
              (run_from c fs m' rs).sent)
      → AllSettled
          (qs ++ requests c m.session.ch (r ∷ rs))
          (run_from c fs m (r ∷ rs)).kept
          (run_from c fs m (r ∷ rs)).sent
  unfolding run_from
  run_from_step r rs m qs (again se kept sent) (some qs') e n fits on so_far calm rec =
      let later : AllSettled ((qs ++ qs') ++ requests c se.ch rs)
          (run_from c fs (advance m se kept sent) rs).kept
          (run_from c fs (advance m se kept sent) rs).sent =
        rec (advance m se kept sent) (qs ++ qs') («and» so_far fits)
          (λ w. calm (rw (run_from, e) w)) in
      rw (run_from, e, n)
        (subst
          (λ ch.
            AllSettled (qs ++ (qs' ++ requests c ch rs))
              (run_from c fs (advance m se kept sent) rs).kept
              (run_from c fs (advance m se kept sent) rs).sent)
          on.0
          (subst
            (λ qs.
              AllSettled qs (run_from c fs (advance m se kept sent) rs).kept
                (run_from c fs (advance m se kept sent) rs).sent)
            (append_assoc qs qs' (requests c se.ch rs)) later))
  run_from_step r rs m qs (stop end sent) none e n fits on so_far calm rec =
      rw (run_from, e, n, fits, append-nil qs, append-nil m.sent) so_far
  run_from_step r rs m qs (again se kept sent) none e n fits on so_far calm rec = absurd fits
  run_from_step r rs m qs (stop end sent) (some qs') e n fits on so_far calm rec =
      absurd (calm (rw (run_from, e) fits))

  run_from-AllSettled :
      (rs : List Read) (m : Run S) (qs : List Request)
      → AllSettled qs m.kept m.sent
      → (run_from c fs m rs).ended ≢ crashed
      → AllSettled
          (qs ++ requests c m.session.ch rs)
          (run_from c fs m rs).kept
          (run_from c fs m rs).sent
  unfolding run_from
  run_from-AllSettled [] m qs so_far calm = rw (append-nil qs) so_far
  run_from-AllSettled (r ∷ rs) m qs so_far calm =
      run_from_step r rs m qs (round c fs m.session r) (next c m.session.ch r) refl refl
        (round-Fits m.session r) (round-IsOnChannel c fs m.session m.session r refl) so_far calm
        (run_from-AllSettled rs)

  -- When a run of a session does not panic, every request that it read before its end is answered
  -- by exactly one packet, or its reply is kept by the file system, or it is a FORGET, which need
  -- not be answered; packets and kept replies are in the order of their requests, and there are no
  -- others.
  pub run-AllSettled :
      (se : Session S) (rs : List Read)
      → (run c fs se rs).ended ≢ crashed
      → AllSettled (requests c se.ch rs) (run c fs se rs).kept (run c fs se rs).sent
  unfolding run
  run-AllSettled se rs calm = run_from-AllSettled rs (started c fs se) [] at_start calm
