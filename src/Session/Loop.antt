-- ===== src/Session/Loop.antt =====
-- `Session::run` of src/session.rs: read a request, dispatch it, read the next. The reads are given as
-- a list; a run that has used them up waits for the next one.
pub mod Rule
pub mod Trace
pub mod Counts
pub mod Sender
pub mod Keeps
pub mod Stops
pub mod Answers
pub mod Retry
pub mod Ending
use fuse_rs.Base.{
  ℕ, ℤ, Bool, true, false, ◌||◌, List, [], ◌∷◌, ◌++◌, Option, none, some, eq_ℤ, if◌then◌else◌,
}
use fuse_rs.Base.Result.{Result, ok, err}
use fuse_rs.Platform.{Libc}
use fuse_rs.Effect.{Packet, done, panicked}
use fuse_rs.Channel.{Read, sender, receive}
use fuse_rs.Reply.Raw.{ReplyRaw}
use fuse_rs.Filesystem.{Filesystem}
use fuse_rs.Session.{Session}
use fuse_rs.Request.{Request, new}
use fuse_rs.Request.Dispatch.{Dispatched, dispatch}

-- `Ok(())`, `Err(err)`, a panic, or no end yet.
pub data Ended : Type 0 where
  returned_ok : Ended
  returned_err : ℤ → Ended
  crashed : Ended
  waiting : Ended

-- A run so far: the session, the replies that the file system keeps, the packets that were sent.
pub record Run (S : Type 0) : Type 0 where
  pub session : Session S
  pub kept : List ReplyRaw
  pub sent : List Packet
  pub ended : Ended

-- One round of the loop: `continue`, or the end of it.
pub data Round (S : Type 0) : Type 0 where
  again : Session S → List ReplyRaw → List Packet → Round S
  stop : Ended → List Packet → Round S

-- The run with what one round adds to it.
abbrev pub advance : {S : Type 0} → Run S → Session S → List ReplyRaw → List Packet → Run S
advance run se kept sent = record {
  session = se;
  kept = run.kept ++ kept;
  sent = run.sent ++ sent;
  ended = waiting;
}

abbrev pub halt : {S : Type 0} → Run S → Ended → List Packet → Run S
halt run end sent = record run { sent = run.sent ++ sent; ended = end }

-- Interrupted, or to be tried again.
unfoldable pub retries : Libc → ℤ → Bool
retries c errno = eq_ℤ errno c.enoent || (eq_ℤ errno c.eintr || eq_ℤ errno c.eagain)

module _ (c : Libc) {S : Type 0} (fs : Filesystem S) where
  unfoldable pub round_of_dispatch : Dispatched S → Round S
  round_of_dispatch (done (se, kept) sent) = again se kept sent
  round_of_dispatch (panicked sent) = stop crashed sent

  unfoldable pub round_of_request : Session S → Option Request → Round S
  round_of_request se none = stop returned_ok []
  round_of_request se (some q) = round_of_dispatch (dispatch c fs q se)

  unfoldable pub round_of_result : Session S → Result ℤ (List ℕ) → Round S
  round_of_result se (ok bytes) = round_of_request se (new (sender se.ch) bytes)
  round_of_result se (err errno) =
      if retries c errno
      then again se [] []
      else if eq_ℤ errno c.enodev
      then stop returned_ok []
      else stop (returned_err errno) []

  unfoldable pub round : Session S → Read → Round S
  round se r = round_of_result se (receive r)

  unfoldable pub run_from : Run S → List Read → Run S
  run_from run [] = run
  run_from run (r ∷ rs) = elim (round run.session r) [
    | again se kept sent ↦ run_from (advance run se kept sent) rs
    | stop end sent ↦ halt run end sent
  ]

  -- A run that has read nothing yet.
  abbrev pub started : Session S → Run S
  started se = record { session = se; kept = []; sent = []; ended = waiting }

  unfoldable pub run : Session S → List Read → Run S
  run se = run_from (started se)
