-- ===== src/Request/Handled.antt =====
-- How `Request::dispatch` of src/request.rs handles a request: what holds of each way holds of all.
use fuse_rs.Base.{◌≡◌, ℤ, Bool, true, false, not, arith, if◌then◌else◌, Bool-cases, refl, inl, inr}
use fuse_rs.Base.Result.{Result, ok, err}
use fuse_rs.Abi.Structs.{FuseInitIn, fuse_init_out_struct}
use fuse_rs.Platform.{Libc}
use fuse_rs.Ll.Request.{unique}
use fuse_rs.Ll.Operation.{Operation, init, destroy}
use fuse_rs.Reply.Typed.Laws.{error-AnswersOnce, empty-AnswersOnce, ok-AnswersOnce}
use fuse_rs.Reply.Raw.{ReplyRaw}
use fuse_rs.Reply.Types.{ReplyEmpty, reply_empty, reply_raw}
use fuse_rs.Filesystem.{Filesystem}
use fuse_rs.Session.{Session}
use fuse_rs.Request.{Request}
use fuse_rs.Request.Dispatch.{
  Dispatched, unsupported_version, init_out, init_result, handle_init, handle_mounted,
  handle_destroy, handle_initialized, handle,
}
use fuse_rs.Request.Replies.{
  IsReplied, IsHandled, WantsReply, IsMounted, fatal, Handled-Replied, answered-Handled,
  reply_error-Handled, handle_mounted-Handled, handle_mounted-fatal,
}

abbrev pub IsInit : Operation → Type 0
IsInit (init arg) = Unit {0}
IsInit _ = ⊥

module _ (c : Libc) {S : Type 0} (fs : Filesystem S) (q : Request) (se : Session S) where
  if_rule :
      (P : Dispatched S → Type 0) (b : Bool) (x y : Dispatched S)
      → P x
      → (b ≡ false → P y)
      → P (if b then x else y)
  if_rule P true x y hx hy = hx
  if_rule P false x y hx hy = hy refl

  init_result-Handled :
      (arg : FuseInitIn) (r : S × Result ℤ (Unit {0}))
      → IsHandled c fs q se (init_result c fs q se arg r)
  unfolding init_result
  init_result-Handled arg (s, ok _) =
      answered-Handled c q.ch (unique q.request) _ _
        (ok-AnswersOnce c q.ch (unique q.request) (init_out arg))
  init_result-Handled arg (s, err e) =
      answered-Handled c q.ch (unique q.request) _ _
        (error-AnswersOnce c q.ch (unique q.request) ReplyRaw e)

  -- What holds of all that handles a request, and of what the file system is asked to while the
  -- session is initialized and not destroyed, holds of a dispatch.
  module _ (P : Dispatched S → Type 0)
      (handled : (o : Dispatched S) → IsHandled c fs q se o → P o) where
    handle_initialized_rule :
        (op : Operation)
        → (IsInit op → ⊥)
        → (IsMounted c fs q se op → se.destroyed ≡ false → P (handle_mounted c fs q se op))
        → P (handle_initialized c fs q se op)
    unfolding handle_initialized handle_destroy
    handle_initialized_rule destroy n mounted = handled _ (
        answered-Handled c q.ch (unique q.request) _ _
          (empty-AnswersOnce c q.ch (unique q.request)))
    handle_initialized_rule (init arg) n mounted = absurd (n tt)
    handle_initialized_rule op n mounted =
        if_rule P se.destroyed _ _ (handled _ (reply_error-Handled c fs q se ReplyEmpty c.eio))
          (mounted tt)

    pub handle_rule :
        (op : Operation)
        → (IsMounted c fs q se op
            → se.initialized ≡ true
            → se.destroyed ≡ false
            → P (handle_mounted c fs q se op))
        → P (handle c fs q se op)
    unfolding handle handle_init
    handle_rule (init arg) mounted =
        if_rule P (unsupported_version arg) _ _
          (handled _ (reply_error-Handled c fs q se ReplyRaw c.eproto))
          (λ _. handled _ (init_result-Handled arg (fs.init q.request se.filesystem)))
    handle_rule op mounted =
        if_rule P (not se.initialized) _ _
          (handled _ (reply_error-Handled c fs q se ReplyEmpty c.eio))
          (λ up. handle_initialized_rule _ (λ i. i) (λ m alive. mounted m (ground arith) alive))

  pub handle_mounted-Replied :
      (op : Operation)
      → WantsReply c fs q se op
      → IsMounted c fs q se op
      → IsReplied c fs q se (handle_mounted c fs q se op)
  handle_mounted-Replied op w m = elim (Bool-cases (fatal op)) [
    | inl breaks ↦ rw (handle_mounted-fatal c fs q se op breaks) (inl refl)
    | inr safe ↦
        Handled-Replied c q.ch (unique q.request) _ (handle_mounted-Handled c fs q se op w m safe)
  ]
