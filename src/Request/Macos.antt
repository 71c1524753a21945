-- ===== src/Request/Macos.antt =====
-- The arms of `Request::dispatch` of src/request.rs that only macOS has, with the guards in front of
-- them, and what is answered there.
use fuse_rs.Base.{◌≡◌, ap, ◌∙◌, ℤ, Bool, true, false, not, [], ◌∷◌, if◌then◌else◌}
use fuse_rs.Base.{if_true, if_false}
use fuse_rs.Abi.Structs.{FuseInHeader}
use fuse_rs.Platform.{Libc}
use fuse_rs.Effect.{ChannelSender, Outcome, done, pure, ◌>>=◌, ◌>>◌}
use fuse_rs.Reply.Raw
use fuse_rs.Reply.Raw.Laws.{packet, send_all-new}
use fuse_rs.Reply.Types.{Reply, ReplyEmpty, reply_empty}
use fuse_rs.Reply.Types
use fuse_rs.Reply.Typed.Laws.{AnswersOnce, error-AnswersOnce, empty-AnswersOnce}
use fuse_rs.Reply.Macos.{reply_xtimes}
use fuse_rs.Reply.Macos.Laws.{xtimes-AnswersOnce}
use fuse_rs.Filesystem.{Answer, perform, give_empty}
use fuse_rs.Filesystem.Settled.{perform-Settled}
use fuse_rs.Filesystem.Macos.{MacosFilesystem, give_xtimes, default_macos}
use fuse_rs.Ll.Macos.{MacosOperation, set_vol_name, get_xtimes, exchange}
use fuse_rs.Session.{Session}
use fuse_rs.Request.Dispatch.{Dispatched}
use fuse_rs.Request.Replies.{Handled, Settled-Handled, answered-Handled}

module _ (c : Libc) {S : Type 0} (fs : MacosFilesystem S) (s : ChannelSender) (h : FuseInHeader)
    (se : Session S) where
  -- `self.reply()`.
  abbrev reply : {R : Type 0} ⦃rep : Reply R⦄ → R
  reply = Types.create h.unique s

  unfoldable refuse : ℤ → Dispatched S
  refuse code = do reply_empty.error c reply code; pure (se, [])

  unfoldable pub call_macos :
      {R A : Type 0} ⦃rep : Reply R⦄ → (R → A → Outcome (Unit {0})) → S × Answer A → Dispatched S
  call_macos give (st, a) = do
    replies ← perform c give reply a
    pure (record se { filesystem = st }, replies)

  -- The arms of the `match`.
  unfoldable pub handle_macos_mounted : MacosOperation → Dispatched S
  handle_macos_mounted (set_vol_name name) =
      call_macos (give_empty c) (fs.setvolname h name se.filesystem)
  handle_macos_mounted get_xtimes =
      call_macos (give_xtimes c) (fs.getxtimes h h.nodeid se.filesystem)
  handle_macos_mounted (exchange arg oldname newname) =
      call_macos (give_empty c)
        (fs.exchange h arg.olddir oldname arg.newdir newname arg.options se.filesystem)

  -- Behind the guards for a session that is not initialized or is destroyed.
  unfoldable pub handle_macos : MacosOperation → Dispatched S
  unfolding refuse
  handle_macos op =
      if not se.initialized
      then refuse c.eio
      else if se.destroyed
      then refuse c.eio
      else handle_macos_mounted op

  abbrev IsAnswered : Dispatched S → Type 0
  IsAnswered = Handled c s h.unique

  call_macos-Handled :
      {R A : Type 0} ⦃rep : Reply R⦄ (give : R → A → Outcome (Unit {0})) (r : S × Answer A)
      → ((x : A) → AnswersOnce c s h.unique (give (Types.create h.unique s) x))
      → IsAnswered (call_macos give r)
  unfolding call_macos
  call_macos-Handled give (st, a) once =
      Settled-Handled c s h.unique _ (record se { filesystem = st })
        (perform-Settled c s h.unique give a once)

  handle_macos_mounted-Handled : (op : MacosOperation) → IsAnswered (handle_macos_mounted op)
  unfolding handle_macos_mounted give_empty give_xtimes
  handle_macos_mounted-Handled (set_vol_name name) =
      call_macos-Handled (give_empty c) _ (λ _. empty-AnswersOnce c s h.unique)
  handle_macos_mounted-Handled get_xtimes =
      call_macos-Handled (give_xtimes c) _
        (λ a. xtimes-AnswersOnce c s h.unique a.bkuptime a.crtime)
  handle_macos_mounted-Handled (exchange arg oldname newname) =
      call_macos-Handled (give_empty c) _ (λ _. empty-AnswersOnce c s h.unique)

  refuse-Handled : (code : ℤ) → IsAnswered (refuse code)
  unfolding refuse
  refuse-Handled code =
      answered-Handled c s h.unique _ se (error-AnswersOnce c s h.unique ReplyEmpty code)

  either :
      (b : Bool) (x y : Dispatched S)
      → IsAnswered x
      → IsAnswered y
      → IsAnswered (if b then x else y)
  either true x y hx hy = hx
  either false x y hx hy = hy

  -- An operation of macOS either is answered with one packet, or its reply is kept by the file
  -- system with nothing sent, or its method panics and EIO is sent.
  pub handle_macos-Handled : (op : MacosOperation) → IsAnswered (handle_macos op)
  unfolding handle_macos refuse
  handle_macos-Handled op =
      either (not se.initialized) _ _ (refuse-Handled c.eio)
        (either se.destroyed _ _ (refuse-Handled c.eio) (handle_macos_mounted-Handled op))

  refuse_lem : (code : ℤ) → refuse code ≡ done (se, []) (packet s h.unique code [] ∷ [])
  unfolding refuse Raw.error
  refuse_lem code = rw send_all-new

  -- Before INIT, an operation of macOS is answered with EIO and leaves the session unchanged.
  pub handle_macos_uninitialized :
      (op : MacosOperation)
      → se.initialized ≡ false
      → handle_macos op ≡ done (se, []) (packet s h.unique c.eio [] ∷ [])
  unfolding handle_macos refuse
  handle_macos_uninitialized op down =
      if_true (not se.initialized) _ _ (ap not down) ∙ refuse_lem c.eio

-- A file system that leaves the methods to the trait answers ENOSYS.
handle_macos_mounted-default_macos :
    (c : Libc) {S : Type 0} (s : ChannelSender) (h : FuseInHeader) (se : Session S)
    (op : MacosOperation)
    → handle_macos_mounted c (default_macos c) s h se op
      ≡ done (se, []) (packet s h.unique c.enosys [] ∷ [])
unfolding handle_macos_mounted call_macos default_macos perform Raw.error
handle_macos_mounted-default_macos c s h se (set_vol_name name) = rw send_all-new
handle_macos_mounted-default_macos c s h se get_xtimes = rw send_all-new
handle_macos_mounted-default_macos c s h se (exchange arg oldname newname) = rw send_all-new

-- A file system that leaves these methods to the trait answers ENOSYS to each in a session that is
-- initialized and not destroyed, which stays as it was.
pub handle_macos-default_macos :
    (c : Libc) {S : Type 0} (s : ChannelSender) (h : FuseInHeader) (se : Session S)
    (op : MacosOperation)
    → se.initialized ≡ true
    → se.destroyed ≡ false
    → handle_macos c (default_macos c) s h se op
      ≡ done (se, []) (packet s h.unique c.enosys [] ∷ [])
unfolding handle_macos
handle_macos-default_macos c s h se op up alive =
    if_false (not se.initialized) _ _ (ap not up)
    ∙ if_false se.destroyed _ _ alive
    ∙ handle_macos_mounted-default_macos c s h se op
