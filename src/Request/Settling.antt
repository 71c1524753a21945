-- ===== src/Request/Settling.antt =====
-- The dispatch of any request of src/request.rs, FORGET among them, by what becomes of its reply.
use fuse_rs.Base.{◌≡◌, refl, inl, inr, [], Bool-cases}
use fuse_rs.Abi.Structs.{FuseForgetIn}
use fuse_rs.Platform.{Libc}
use fuse_rs.Effect.{done}
use fuse_rs.Ll.Operation.{Operation, forget}
use fuse_rs.Filesystem.{Filesystem}
use fuse_rs.Session.{Session}
use fuse_rs.Request.{Request}
use fuse_rs.Request.Dispatch.{Dispatched, dispatch}
use fuse_rs.Request.Replies.{IsReplied, WantsReply}
use fuse_rs.Request.Answered.{
  refused, dispatch-Replied, dispatch_uninitialized, dispatch_destroyed, dispatch-forget,
}

module _ (c : Libc) {S : Type 0} (fs : Filesystem S) (q : Request) (se : Session S)
    (P : Dispatched S → Type 0) (replied : (o : Dispatched S) → IsReplied c fs q se o → P o)
    (silent : (arg : FuseForgetIn)
      → q.request.operation ≡ forget arg
      → (se' : Session S) → P (done (se', []) [])) where
  refused_lem : P (refused c fs q se)
  refused_lem = replied (refused c fs q se) (inl (refl, c.eio, [], refl))

  forget_lem :
      (op : Operation)
      → q.request.operation ≡ op
      → (WantsReply c fs q se op → P (dispatch c fs q se))
      → P (dispatch c fs q se)
  forget_lem (forget arg) e other = elim (Bool-cases se.initialized) [
    | inr down ↦ rw (dispatch_uninitialized c fs q se (λ h. rw e at h) down) refused_lem
    | inl up ↦ elim (Bool-cases se.destroyed) [
      | inl over ↦
          rw (dispatch_destroyed c fs q se (λ h. rw e at h) (λ h. rw e at h) up over) refused_lem
      | inr alive ↦ rw (dispatch-forget c fs q se arg e up alive) (silent arg e _)
    ]
  ]
  forget_lem op e other = other tt

  -- What holds of an answer, a kept reply and a panic, and of a FORGET that is silent, holds of a dispatch.
  pub dispatch_rule : P (dispatch c fs q se)
  dispatch_rule =
      forget_lem q.request.operation refl (λ w. replied _ (dispatch-Replied c fs q se w))
