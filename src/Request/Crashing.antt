-- ===== src/Request/Crashing.antt =====
-- The requests that make `Request::dispatch` of src/request.rs panic before it calls the file system.
use fuse_rs.Base.{
  ℕ, ◌≡◌, refl, ◌≢◌, ◌⊎◌, ◌↔◌, ◌∙◌, ap, inl, inr, true, false, not, [], arith, length, ◌==◌, Option,
  none, some, if_false, Bool-cases,
}
use fuse_rs.Platform.{Libc}
use fuse_rs.Effect.{done, panicked}
use fuse_rs.Ll.Operation.{Operation, forget, set_attr, write, set_xattr, init, destroy}
use fuse_rs.Filesystem.{Filesystem, SetAttr}
use fuse_rs.Session.{Session}
use fuse_rs.Request.{Request}
use fuse_rs.Request.Args.{set_attr_args}
use fuse_rs.Request.Args.Bits.{AtimeOverflows, MtimeOverflows, set_attr_args-none_iff}
use fuse_rs.Request.Dispatch.{Dispatched, handle_mounted, handle_initialized, handle, dispatch}
use fuse_rs.Request.Replies.{
  IsHandled, IsMounted, is_none, fatal, handle_mounted-Handled, handle_mounted-fatal,
}
use fuse_rs.Request.Handled.{handle_rule}

-- The assertions of WRITE and SETXATTR fail, or a time of SETATTR overflows.
abbrev pub IsFatal : Operation → Type 0
IsFatal (set_attr arg) = AtimeOverflows arg ⊎ MtimeOverflows arg
IsFatal (write arg value) = length value ≢ arg.size
IsFatal (set_xattr arg name value) = length value ≢ arg.size
IsFatal _ = ⊥

is_none_iff : (a : Option SetAttr) → (is_none a ≡ true) ↔ (a ≡ none)
is_none_iff none = (λ _. refl, λ _. refl)
is_none_iff (some a) = (λ h. absurd (ground arith), λ h. absurd (ground arith))

not_equal_iff : (n m : ℕ) → (not (n == m) ≡ true) ↔ (n ≢ m)
not_equal_iff n m = ground arith

fatal_iff : (op : Operation) → (fatal op ≡ true) ↔ IsFatal op
fatal_iff (set_attr arg) =
    let (here, there) = is_none_iff (set_attr_args arg) in
    let (over, under) = set_attr_args-none_iff arg in (λ h. over (here h), λ h. there (under h))
fatal_iff (write arg value) = not_equal_iff (length value) arg.size
fatal_iff (set_xattr arg name value) = not_equal_iff (length value) arg.size
fatal_iff op = (λ h. absurd (ground arith), λ h. absurd h)

module _ (c : Libc) {S : Type 0} (fs : Filesystem S) (q : Request) (se : Session S) where
  handled_sends : (o : Dispatched S) → IsHandled c fs q se o → o ≢ panicked []
  handled_sends (done r sent) h e = absurd (ground arith)
  handled_sends (panicked sent) h e =
      let nothing : sent ≡ [] = ground arith in absurd (ground (arith, nothing, h))

  handle_mounted_returns :
      (op : Operation)
      → IsMounted c fs q se op
      → fatal op ≡ false
      → handle_mounted c fs q se op ≢ panicked []
  unfolding handle_mounted
  handle_mounted_returns (forget arg) m safe e = absurd (ground arith)
  handle_mounted_returns op m safe e =
      handled_sends _ (handle_mounted-Handled c fs q se op tt m safe) e

  handle-fatal :
      (op : Operation)
      → fatal op ≡ true
      → se.initialized ≡ true
      → se.destroyed ≡ false
      → handle c fs q se op ≡ panicked []
  unfolding handle handle_initialized
  handle-fatal (init arg) f up alive = absurd (ground arith)
  handle-fatal destroy f up alive = absurd (ground arith)
  handle-fatal op f up alive =
      if_false (not se.initialized) _ _ (ap not up)
      ∙ if_false se.destroyed _ _ alive
      ∙ handle_mounted-fatal c fs q se op f

  -- A dispatch panics with nothing sent exactly when the session is initialized and not destroyed
  -- and the request is a WRITE or SETXATTR whose data is not as long as it says, or a SETATTR with
  -- a time that overflows.
  pub dispatch-panicked_iff :
      (dispatch c fs q se ≡ panicked [])
      ↔ ((se.initialized ≡ true) × (se.destroyed ≡ false) × IsFatal q.request.operation)
  unfolding dispatch
  dispatch-panicked_iff = (
    handle_rule c fs q se
        (λ o.
          o ≡ panicked []
          → (se.initialized ≡ true) × (se.destroyed ≡ false) × IsFatal q.request.operation)
        (λ o h e. absurd (handled_sends o h e)) q.request.operation
        (λ m up alive e. elim (Bool-cases (fatal q.request.operation)) [
          | inl breaks ↦ (up, alive, (fatal_iff q.request.operation).0 breaks)
          | inr safe ↦ absurd (handle_mounted_returns q.request.operation m safe e)
        ]),
    λ h. handle-fatal q.request.operation ((fatal_iff q.request.operation).1 h.2) h.0 h.1,
  )
