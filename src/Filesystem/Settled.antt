-- ===== src/Filesystem/Settled.antt =====
-- What becomes of a reply that a method of the file system was given.
use fuse_rs.Base.{ℕ, ◌≡◌, refl, sym, ap, ◌∙◌, ◌⊎◌, inl, inr, ℤ, List, [], ◌∷◌, arith}
use mathlib.Core.Path.{subst}
use fuse_rs.Base.{pos, append-nil, none}
use fuse_rs.Platform.{Libc}
use fuse_rs.Effect.{ChannelSender, Outcome, done, panicked, pure, unwrap, ◌>>=◌}
use fuse_rs.Reply.Raw.{ReplyRaw, new}
use fuse_rs.Reply.Raw
use fuse_rs.Reply.Types.{Reply, create, reply_raw}
use fuse_rs.Reply.Raw.Laws.{packet, drop-new}
use fuse_rs.Reply.Directory
use fuse_rs.Reply.Directory.{ReplyDirectory, DirEntry}
use fuse_rs.Reply.Typed.Laws.{
  AnswersOnce, error-AnswersOnce, drop-AnswersOnce, send_all-AnswersOnce,
}
use fuse_rs.Filesystem.{Answer, DirAnswer, answer, perform, perform_dir}

-- Of a run that was given the reply to request `unique`, and returns the replies that are kept: one
-- packet that answers the request is sent, or the reply is kept and nothing is sent. If it panics, it
-- has sent the answer EIO.
abbrev pub Settled : Libc → ChannelSender → ℕ → Outcome (List ReplyRaw) → Type 0
Settled c s u (done kept sent) =
    ((kept ≡ []) × (err : ℤ) × (bytes : List (List ℕ)) × (sent ≡ packet s u err bytes ∷ []))
    ⊎ ((kept ≡ new u s ∷ []) × (sent ≡ []))
Settled c s u (panicked sent) = sent ≡ packet s u c.eio [] ∷ []

module _ (c : Libc) (s : ChannelSender) (u : ℕ) where
  -- An answer, and then no reply is left.
  pub answered-Settled :
      (o : Outcome (Unit {0})) → AnswersOnce c s u o → Settled c s u (o >>= λ _. pure [])
  answered-Settled (done _ sent) (e, bytes, h) = inl (refl, e, bytes, append-nil sent ∙ h)
  answered-Settled (panicked sent) h = h

  -- A panic drops the reply.
  dropped-Settled :
      (r : ReplyRaw) → r ≡ new u s → Settled c s u (unwrap {A = List ReplyRaw} none (Raw.drop c r))
  dropped-Settled r e = rw (e, drop-new) refl

  pub perform-Settled :
      {R A : Type 0} ⦃rep : Reply R⦄ (give : R → A → Outcome (Unit {0})) (a : Answer A)
      → ((x : A) → AnswersOnce c s u (give (create u s) x))
      → Settled c s u (perform c give (create u s) a)
  unfolding perform
  perform-Settled give (answer x) h = answered-Settled _ (h x)
  perform-Settled {R} give (Answer.error e) h = answered-Settled _ (error-AnswersOnce c s u R e)
  perform-Settled {R} give Answer.dropped h = answered-Settled _ (drop-AnswersOnce c s u R)
  perform-Settled ⦃rep⦄ give Answer.kept h = inr (ap (λ r. r ∷ []) (rep.raw-create u s), refl)
  perform-Settled ⦃rep⦄ give Answer.panics h = dropped-Settled _ (rep.raw-create u s)

  -- The same of a reply that is known to be the new one.
  pub sent_from-Settled :
      (give : ReplyRaw → Outcome (Unit {0})) (r : ReplyRaw)
      → r ≡ new u s
      → AnswersOnce c s u (give (new u s))
      → Settled c s u (give r >>= λ _. pure [])
  sent_from-Settled give r e h =
      answered-Settled (give r) (subst (λ r. AnswersOnce c s u (give r)) (sym e) h)

  reply-add : (d : ReplyDirectory) (e : DirEntry) → (Directory.add c d e).0.reply ≡ d.reply
  unfolding Directory.add
  reply-add d e = ground arith

  -- Whatever was added, the reply is still the one that the buffer was made with.
  pub perform_dir-Settled :
      (d : ReplyDirectory) (a : DirAnswer) → d.reply ≡ new u s → Settled c s u (perform_dir c d a)
  unfolding perform_dir Directory.ok Directory.error
  perform_dir-Settled d (DirAnswer.add e next) h =
      let r = Directory.add c d e in perform_dir-Settled r.0 (next r.1) (reply-add d e ∙ h)
  perform_dir-Settled d DirAnswer.ok h =
      sent_from-Settled (λ r. Raw.send_all c r (pos 0) (d.buffer ∷ [])) d.reply h
        (send_all-AnswersOnce c s u (pos 0) (d.buffer ∷ []))
  perform_dir-Settled d (DirAnswer.error e) h =
      sent_from-Settled (λ r. Raw.error c r e) d.reply h (error-AnswersOnce c s u ReplyRaw e)
  perform_dir-Settled d DirAnswer.dropped h =
      sent_from-Settled (Raw.drop c) d.reply h (drop-AnswersOnce c s u ReplyRaw)
  perform_dir-Settled d DirAnswer.kept h = inr (ap (λ r. r ∷ []) h, refl)
  perform_dir-Settled d DirAnswer.panics h = dropped-Settled d.reply h
