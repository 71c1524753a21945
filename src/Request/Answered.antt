-- ===== src/Request/Answered.antt =====
-- What `Request::dispatch` of src/request.rs answers before, at and after INIT and DESTROY.
use fuse_rs.Base.{
  ◌≤◌, ◌<◌, ◌≡◌, ap, ◌∙◌, ◌⊎◌, ℤ, pos, true, false, not, [], ◌∷◌, arith, if_true, if_false,
}
use fuse_rs.Base.Result.{ok, err}
use fuse_rs.Abi.Structs.{FuseInitIn, fuse_init_out_struct, FuseForgetIn}
use fuse_rs.Platform.{Libc}
use fuse_rs.Effect.{done}
use fuse_rs.Ll.Request.{unique, nodeid}
use fuse_rs.Ll.Operation.{Operation, forget, init, destroy}
use fuse_rs.Reply.Raw.{ReplyRaw, as_bytes}
use fuse_rs.Reply.Raw
use fuse_rs.Reply.Raw.Laws.{packet, send_all-new}
use fuse_rs.Reply.Types.{Reply, ReplyEmpty, reply_empty, reply_raw}
use fuse_rs.Filesystem.{Filesystem}
use fuse_rs.Session.{Session}
use fuse_rs.Request.{Request}
use fuse_rs.Request.Dispatch.{
  Dispatched, unsupported_version, reply_error, init_result, handle_init, handle_mounted,
  handle_initialized, handle, dispatch,
}
use fuse_rs.Request.Negotiation.{negotiated, init_out_lem}
use fuse_rs.Request.Replies.{IsReplied, WantsReply, Handled-Replied}
use fuse_rs.Request.Handled.{IsInit, handle_rule, handle_mounted-Replied}

abbrev pub IsDestroy : Operation → Type 0
IsDestroy destroy = Unit {0}
IsDestroy _ = ⊥

unsupported_lem :
    (arg : FuseInitIn)
    → (arg.major < 7) ⊎ ((arg.major ≡ 7) × (arg.minor < 6))
    → unsupported_version arg ≡ true
unfolding unsupported_version
unsupported_lem arg h = ground arith

supported_lem :
    (arg : FuseInitIn)
    → (7 < arg.major) ⊎ ((arg.major ≡ 7) × (6 ≤ arg.minor))
    → unsupported_version arg ≡ false
unfolding unsupported_version
supported_lem arg h = ground arith

module _ (c : Libc) {S : Type 0} (fs : Filesystem S) (q : Request) (se : Session S) where
  -- The dispatch of a request other than FORGET either returns with one packet sent, which answers
  -- the request, or returns with nothing sent and the reply kept by the file system, or panics
  -- with nothing or only the error EIO sent.
  pub dispatch-Replied :
      WantsReply c fs q se q.request.operation → IsReplied c fs q se (dispatch c fs q se)
  unfolding dispatch
  dispatch-Replied w =
      handle_rule c fs q se (IsReplied c fs q se) (Handled-Replied c q.ch (unique q.request))
        q.request.operation (λ m _ _. handle_mounted-Replied c fs q se q.request.operation w m)

  -- The answer EIO, with the session left as it was.
  abbrev pub refused : Dispatched S
  refused = done (se, []) (packet q.ch (unique q.request) c.eio [] ∷ [])

  reply_error_lem :
      (R : Type 0) ⦃rep : Reply R⦄ (code : ℤ)
      → reply_error c fs q se R code ≡ done (se, []) (packet q.ch (unique q.request) code [] ∷ [])
  unfolding reply_error Raw.error
  reply_error_lem R ⦃rep⦄ code = rw (rep.error_raw, rep.raw-create, send_all-new)

  handle_uninitialized :
      (op : Operation) → (IsInit op → ⊥) → se.initialized ≡ false → handle c fs q se op ≡ refused
  unfolding handle
  handle_uninitialized (init arg) n h = absurd (n tt)
  handle_uninitialized op n h =
      if_true (not se.initialized) _ _ (ap not h) ∙ reply_error_lem ReplyEmpty c.eio

  -- While a session is not initialized, every operation but INIT is answered with EIO and leaves
  -- the session unchanged.
  pub dispatch_uninitialized :
      (IsInit q.request.operation → ⊥) → se.initialized ≡ false → dispatch c fs q se ≡ refused
  unfolding dispatch
  dispatch_uninitialized = handle_uninitialized q.request.operation

  handle_destroyed :
      (op : Operation)
      → (IsInit op → ⊥)
      → (IsDestroy op → ⊥)
      → se.initialized ≡ true
      → se.destroyed ≡ true
      → handle c fs q se op ≡ refused
  unfolding handle handle_initialized
  handle_destroyed (init arg) n m up over = absurd (n tt)
  handle_destroyed destroy n m up over = absurd (m tt)
  handle_destroyed op n m up over =
      if_false (not se.initialized) _ _ (ap not up)
      ∙ if_true se.destroyed _ _ over
      ∙ reply_error_lem ReplyEmpty c.eio

  -- In an initialized session that was destroyed, every operation but INIT and DESTROY is answered
  -- with EIO and leaves the session unchanged.
  pub dispatch_destroyed :
      (IsInit q.request.operation → ⊥)
      → (IsDestroy q.request.operation → ⊥)
      → se.initialized ≡ true
      → se.destroyed ≡ true
      → dispatch c fs q se ≡ refused
  unfolding dispatch
  dispatch_destroyed = handle_destroyed q.request.operation

  -- In a session that is initialized and not destroyed, FORGET runs the method of the file system,
  -- sends nothing and keeps no reply.
  pub dispatch-forget :
      (arg : FuseForgetIn)
      → q.request.operation ≡ forget arg
      → se.initialized ≡ true
      → se.destroyed ≡ false
      → dispatch c fs q se
        ≡ done
            (
              record se {
                filesystem = fs.forget q.request (nodeid q.request) arg.nlookup se.filesystem;
              },
              [],
            )
            []
  unfolding dispatch handle handle_initialized handle_mounted
  dispatch-forget arg e up alive =
      ap (handle c fs q se) e
      ∙ if_false (not se.initialized) _ _ (ap not up)
      ∙ if_false se.destroyed _ _ alive

  handle_init_supported :
      (arg : FuseInitIn)
      → unsupported_version arg ≡ false
      → handle_init c fs q se arg ≡ init_result c fs q se arg (fs.init q.request se.filesystem)
  unfolding handle_init
  handle_init_supported arg h = if_false (unsupported_version arg) _ _ h

  -- An INIT of a version before 7.6 is answered with EPROTO and leaves the session unchanged.
  pub dispatch_init_unsupported :
      (arg : FuseInitIn)
      → q.request.operation ≡ init arg
      → (arg.major < 7) ⊎ ((arg.major ≡ 7) × (arg.minor < 6))
      → dispatch c fs q se ≡ done (se, []) (packet q.ch (unique q.request) c.eproto [] ∷ [])
  unfolding dispatch handle handle_init
  dispatch_init_unsupported arg e old =
      ap (handle c fs q se) e
      ∙ if_true (unsupported_version arg) _ _ (unsupported_lem arg old)
      ∙ reply_error_lem ReplyRaw c.eproto

  -- An INIT of version 7.6 or later that the file system accepts leaves the session initialized,
  -- with the kernel's major and minor version and the file system's new state, its channel and
  -- `destroyed` as they were, and sends one packet: version 7.8, the readahead that was offered,
  -- the lowest flag (FUSE_ASYNC_READ) if it was offered and no other, and writes of 16 MiB.
  pub dispatch_init_accepted :
      (arg : FuseInitIn) (s : S)
      → q.request.operation ≡ init arg
      → (7 < arg.major) ⊎ ((arg.major ≡ 7) × (6 ≤ arg.minor))
      → fs.init q.request se.filesystem ≡ (s, ok tt)
      → dispatch c fs q se
        ≡ done
            (
              record {
                filesystem = s;
                ch = se.ch;
                proto_major = arg.major;
                proto_minor = arg.minor;
                initialized = true;
                destroyed = se.destroyed;
              },
              [],
            )
            (packet q.ch (unique q.request) (pos 0) (as_bytes (negotiated arg)) ∷ [])
  unfolding dispatch handle init_result Raw.ok
  dispatch_init_accepted arg s e new accepts =
      ap (handle c fs q se) e
      ∙ handle_init_supported arg (supported_lem arg new)
      ∙ rw (accepts, init_out_lem arg, send_all-new)

  -- An INIT of version 7.6 or later that the file system refuses is answered with its error in one
  -- packet; the kernel's major and minor version and the file system's new state are stored, and
  -- the channel, `initialized` and `destroyed` are as they were.
  pub dispatch_init_refused :
      (arg : FuseInitIn) (s : S) (code : ℤ)
      → q.request.operation ≡ init arg
      → (7 < arg.major) ⊎ ((arg.major ≡ 7) × (6 ≤ arg.minor))
      → fs.init q.request se.filesystem ≡ (s, err code)
      → dispatch c fs q se
        ≡ done
            (
              record {
                filesystem = s;
                ch = se.ch;
                proto_major = arg.major;
                proto_minor = arg.minor;
                initialized = se.initialized;
                destroyed = se.destroyed;
              },
              [],
            )
            (packet q.ch (unique q.request) code [] ∷ [])
  unfolding dispatch handle init_result Raw.error
  dispatch_init_refused arg s code e new refuses =
      ap (handle c fs q se) e
      ∙ handle_init_supported arg (supported_lem arg new)
      ∙ rw (refuses, send_all-new)
