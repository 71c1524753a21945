-- ===== src/Request/Lifecycle.antt =====
-- How a dispatch moves a session along: INIT, then operations, then DESTROY.
use fuse_rs.Base.{
  ℕ, ◌≡◌, refl, ℤ, Bool, true, false, not, List, [], ◌++◌, Option, none, some, arith, if◌then◌else◌,
  ◌==◌, length,
}
use fuse_rs.Base.Result.{Result, ok, err}
use fuse_rs.Abi.Structs.{FuseInitIn}
use fuse_rs.Platform.{Libc}
use fuse_rs.Effect.{Packet, Outcome, done, panicked, pure, ◌>>=◌}
use fuse_rs.Ll.Operation.{
  Operation, lookup, forget, get_attr, set_attr, read_link, sym_link, mk_nod, mk_dir, unlink,
  rm_dir, rename, link, «open», read, write, stat_fs, release, fsync, set_xattr, get_xattr,
  list_xattr, remove_xattr, flush, init, open_dir, read_dir, release_dir, fsync_dir, get_lk, set_lk,
  set_lk_w, access, create, interrupt, bmap, destroy,
}
use fuse_rs.Reply.Raw.{ReplyRaw}
use fuse_rs.Reply.Types.{Reply, ReplyEmpty, reply_empty, reply_raw}
use fuse_rs.Filesystem.{Filesystem, Answer, DirAnswer, SetAttr}
use fuse_rs.Session.{Session}
use fuse_rs.Request.{Request}
use fuse_rs.Request.Dispatch.{
  Dispatched, unsupported_version, reply_error, call, call_dir, init_result, handle_init,
  handle_set_attr, handle_mounted, handle_destroy, handle_initialized, handle, dispatch,
}

-- The steps of a session on an operation. Only the state of the file system is left open.
pub data Follows {S : Type 0} (se : Session S) : Operation → Session S → Type 0 where
  unchanged : (op : Operation) → Follows se op se
  init_failed :
      (arg : FuseInitIn) (s : S)
      → unsupported_version arg ≡ false
      → Follows se
          (init arg)
          (record se { proto_major = arg.major; proto_minor = arg.minor; filesystem = s })
  init_done :
      (arg : FuseInitIn) (s : S)
      → unsupported_version arg ≡ false
      → Follows se (init arg) (record se {
        proto_major = arg.major;
        proto_minor = arg.minor;
        filesystem = s;
        initialized = true;
      })
  called :
      (op : Operation) (s : S)
      → se.initialized ≡ true
      → se.destroyed ≡ false
      → Follows se op (record se { filesystem = s })
  destroy_done :
      (s : S)
      → se.initialized ≡ true
      → Follows se destroy (record se { filesystem = s; destroyed = true })

-- What holds of the session that a dispatch returns, if it returns.
pub data Ensures {S : Type 0} (P : Session S → Type 0) : Dispatched S → Type 0 where
  returns :
      (se : Session S) (kept : List ReplyRaw) (sent : List Packet)
      → P se
      → Ensures P (done (se, kept) sent)
  crashes : (sent : List Packet) → Ensures P (panicked sent)

Ensures-bind :
    {A S : Type 0} (P : Session S → Type 0) (o : Outcome A) (f : A → Session S × List ReplyRaw)
    → ((a : A) → P (f a).0)
    → Ensures P (o >>= λ a. pure (f a))
Ensures-bind P (done a sent) f h = returns (f a).0 (f a).1 (sent ++ []) (h a)
Ensures-bind P (panicked sent) f h = crashes sent

Ensures-if :
    {S : Type 0} (P : Session S → Type 0) (b : Bool) (x y : Dispatched S)
    → (b ≡ true → Ensures P x)
    → (b ≡ false → Ensures P y)
    → Ensures P (if b then x else y)
Ensures-if P true x y hx hy = hx refl
Ensures-if P false x y hx hy = hy refl

module _ (c : Libc) {S : Type 0} (fs : Filesystem S) (q : Request) (se : Session S) where
  reply_error-Ensures :
      (P : Session S → Type 0) (R : Type 0) ⦃rep : Reply R⦄ (code : ℤ)
      → P se
      → Ensures P (reply_error c fs q se R code)
  unfolding reply_error
  reply_error-Ensures P R code h = Ensures-bind P _ (λ _. (se, [])) (λ _. h)

  init_result-Follows :
      (arg : FuseInitIn) (r : S × Result ℤ (Unit {0}))
      → unsupported_version arg ≡ false
      → Ensures (Follows se (init arg)) (init_result c fs q se arg r)
  unfolding init_result
  init_result-Follows arg (s, ok _) h = Ensures-bind _ _ (λ _. (_, [])) (λ _. init_done arg s h)
  init_result-Follows arg (s, err e) h = Ensures-bind _ _ (λ _. (_, [])) (λ _. init_failed arg s h)

  module _ (op : Operation) (up : se.initialized ≡ true) (alive : se.destroyed ≡ false) where
    call-Follows :
        {R A : Type 0} (rep : Reply R) (give : R → A → Outcome (Unit {0})) (r : S × Answer A)
        → Ensures (Follows se op) (call c fs q se ⦃rep = rep⦄ give r)
    unfolding call
    call-Follows rep give (s, a) = Ensures-bind _ _ (λ kept. (_, kept)) (λ _. called op s up alive)

    call_dir-Follows :
        (n : ℕ) (r : S × DirAnswer) → Ensures (Follows se op) (call_dir c fs q se n r)
    unfolding call_dir
    call_dir-Follows n (s, a) = Ensures-bind _ _ (λ kept. (_, kept)) (λ _. called op s up alive)

    set_attr-Follows : (a : Option SetAttr) → Ensures (Follows se op) (handle_set_attr c fs q se a)
    unfolding handle_set_attr
    set_attr-Follows none = crashes []
    set_attr-Follows (some a) = call-Follows _ _ _

    asserted-Follows :
        (b : Bool) (o : Dispatched S)
        → Ensures (Follows se op) o
        → Ensures (Follows se op) (if b then o else panicked [])
    asserted-Follows b o h = Ensures-if _ b o _ (λ _. h) (λ _. crashes [])

  handle_mounted-Follows :
      (op : Operation)
      → se.initialized ≡ true
      → se.destroyed ≡ false
      → Ensures (Follows se op) (handle_mounted c fs q se op)
  unfolding handle_mounted
  handle_mounted-Follows (lookup name) up alive = call-Follows _ up alive _ _ _
  handle_mounted-Follows (forget arg) up alive = returns _ _ _ (called _ _ up alive)
  handle_mounted-Follows get_attr up alive = call-Follows _ up alive _ _ _
  handle_mounted-Follows (set_attr arg) up alive = set_attr-Follows _ up alive _
  handle_mounted-Follows read_link up alive = call-Follows _ up alive _ _ _
  handle_mounted-Follows (sym_link name target) up alive = call-Follows _ up alive _ _ _
  handle_mounted-Follows (mk_nod arg name) up alive = call-Follows _ up alive _ _ _
  handle_mounted-Follows (mk_dir arg name) up alive = call-Follows _ up alive _ _ _
  handle_mounted-Follows (unlink name) up alive = call-Follows _ up alive _ _ _
  handle_mounted-Follows (rm_dir name) up alive = call-Follows _ up alive _ _ _
  handle_mounted-Follows (rename arg name newname) up alive = call-Follows _ up alive _ _ _
  handle_mounted-Follows (link arg name) up alive = call-Follows _ up alive _ _ _
  handle_mounted-Follows («open» arg) up alive = call-Follows _ up alive _ _ _
  handle_mounted-Follows (read arg) up alive = call-Follows _ up alive _ _ _
  handle_mounted-Follows (write arg value) up alive =
      asserted-Follows _ up alive (length value == arg.size) _ (call-Follows _ up alive _ _ _)
  handle_mounted-Follows stat_fs up alive = call-Follows _ up alive _ _ _
  handle_mounted-Follows (release arg) up alive = call-Follows _ up alive _ _ _
  handle_mounted-Follows (fsync arg) up alive = call-Follows _ up alive _ _ _
  handle_mounted-Follows (set_xattr arg name value) up alive =
      asserted-Follows _ up alive (length value == arg.size) _ (call-Follows _ up alive _ _ _)
  handle_mounted-Follows (get_xattr arg name) up alive = call-Follows _ up alive _ _ _
  handle_mounted-Follows (list_xattr arg) up alive = call-Follows _ up alive _ _ _
  handle_mounted-Follows (remove_xattr name) up alive = call-Follows _ up alive _ _ _
  handle_mounted-Follows (flush arg) up alive = call-Follows _ up alive _ _ _
  handle_mounted-Follows (init arg) up alive = returns _ _ _ (unchanged _)
  handle_mounted-Follows (open_dir arg) up alive = call-Follows _ up alive _ _ _
  handle_mounted-Follows (read_dir arg) up alive = call_dir-Follows _ up alive _ _
  handle_mounted-Follows (release_dir arg) up alive = call-Follows _ up alive _ _ _
  handle_mounted-Follows (fsync_dir arg) up alive = call-Follows _ up alive _ _ _
  handle_mounted-Follows (get_lk arg) up alive = call-Follows _ up alive _ _ _
  handle_mounted-Follows (set_lk arg) up alive = call-Follows _ up alive _ _ _
  handle_mounted-Follows (set_lk_w arg) up alive = call-Follows _ up alive _ _ _
  handle_mounted-Follows (access arg) up alive = call-Follows _ up alive _ _ _
  handle_mounted-Follows (create arg name) up alive = call-Follows _ up alive _ _ _
  handle_mounted-Follows (interrupt arg) up alive =
      reply_error-Ensures _ ReplyEmpty c.enosys (unchanged _)
  handle_mounted-Follows (bmap arg) up alive = call-Follows _ up alive _ _ _
  handle_mounted-Follows destroy up alive = returns _ _ _ (unchanged _)

  handle_initialized-Follows :
      (op : Operation)
      → se.initialized ≡ true
      → Ensures (Follows se op) (handle_initialized c fs q se op)
  unfolding handle_initialized handle_destroy
  handle_initialized-Follows destroy up =
      Ensures-bind _ _ (λ _. (_, [])) (λ _. destroy_done (fs.destroy q.request se.filesystem) up)
  handle_initialized-Follows op up =
      Ensures-if _ se.destroyed _ _ (λ _. reply_error-Ensures _ ReplyEmpty c.eio (unchanged _))
        (λ alive. handle_mounted-Follows _ up alive)

  handle-Follows : (op : Operation) → Ensures (Follows se op) (handle c fs q se op)
  unfolding handle handle_init
  handle-Follows (init arg) =
      Ensures-if _ (unsupported_version arg) _ _
        (λ _. reply_error-Ensures _ ReplyRaw c.eproto (unchanged _))
        (λ h. init_result-Follows arg (fs.init q.request se.filesystem) h)
  handle-Follows op =
      Ensures-if _ (not se.initialized) _ _
        (λ _. reply_error-Ensures _ ReplyEmpty c.eio (unchanged _))
        (λ h. handle_initialized-Follows _ (ground arith))

  -- The session that a dispatch returns is a step of its life cycle: the version and `initialized`
  -- change only by an INIT of a supported version, `destroyed` only by a DESTROY when initialized,
  -- and the state of the file system otherwise only while initialized and not destroyed.
  pub dispatch-Follows : Ensures (Follows se q.request.operation) (dispatch c fs q se)
  unfolding dispatch
  dispatch-Follows = handle-Follows q.request.operation
