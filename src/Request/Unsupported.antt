-- ===== src/Request/Unsupported.antt =====
-- What a file system answers through `Request::dispatch` of src/request.rs when it leaves every method
-- to the trait `Filesystem` of src/lib.rs.
use fuse_rs.Base.{
  ◌≡◌, ap, ◌∙◌, Bool, true, false, not, [], ◌∷◌, Option, none, some, ◌==◌, if◌then◌else◌, length,
  arith, if_false,
}
use fuse_rs.Platform.{Libc}
use fuse_rs.Effect.{done, panicked}
use fuse_rs.Ll.Request.{unique}
use fuse_rs.Ll.Operation.{
  Operation, lookup, forget, get_attr, set_attr, read_link, sym_link, mk_nod, mk_dir, unlink,
  rm_dir, rename, link, «open», read, write, stat_fs, release, fsync, set_xattr, get_xattr,
  list_xattr, remove_xattr, flush, init, open_dir, read_dir, release_dir, fsync_dir, get_lk, set_lk,
  set_lk_w, access, create, interrupt, bmap, destroy,
}
use fuse_rs.Reply.Raw
use fuse_rs.Reply.Raw.Laws.{packet, send_all-new}
use fuse_rs.Reply.Directory
use fuse_rs.Filesystem.{SetAttr, perform, perform_dir}
use fuse_rs.Filesystem.Default.{default_filesystem}
use fuse_rs.Session.{Session}
use fuse_rs.Request.{Request}
use fuse_rs.Request.Args.{set_attr_args}
use fuse_rs.Request.Dispatch.{
  Dispatched, reply_error, call, call_dir, handle_set_attr, handle_mounted, handle_initialized,
  handle, dispatch,
}
use fuse_rs.Request.Replies.{fatal, is_none}

-- The operations that are not refused by the default methods, or not handled by a method at all.
abbrev pub HasDefault : Operation → Type 0
HasDefault (init arg) = Unit {0}
HasDefault destroy = Unit {0}
HasDefault (forget arg) = Unit {0}
HasDefault («open» arg) = Unit {0}
HasDefault (open_dir arg) = Unit {0}
HasDefault (release arg) = Unit {0}
HasDefault (release_dir arg) = Unit {0}
HasDefault stat_fs = Unit {0}
HasDefault _ = ⊥

module _ (c : Libc) {S : Type 0} (q : Request) (se : Session S) where
  abbrev pub not_implemented : Dispatched S
  not_implemented = done (se, []) (packet q.ch (unique q.request) c.enosys [] ∷ [])

  asserted :
      (b : Bool) (o : Dispatched S)
      → o ≡ not_implemented
      → not b ≡ false
      → (if b then o else panicked []) ≡ not_implemented
  asserted true o h e = h
  asserted false o h e = absurd (ground arith)

  handle_set_attr-default_filesystem :
      (a : Option SetAttr)
      → is_none a ≡ false
      → handle_set_attr c (default_filesystem c) q se a ≡ not_implemented
  unfolding handle_set_attr default_filesystem call perform Raw.error
  handle_set_attr-default_filesystem none h = absurd (ground arith)
  handle_set_attr-default_filesystem (some a) h = rw send_all-new

  handle_mounted-default_filesystem :
      (op : Operation)
      → ¬ HasDefault op
      → fatal op ≡ false
      → handle_mounted c (default_filesystem c) q se op ≡ not_implemented
  unfolding handle_mounted default_filesystem call call_dir perform perform_dir Raw.error
      reply_error Directory.error Directory.new
  handle_mounted-default_filesystem (init arg) n safe = absurd (n tt)
  handle_mounted-default_filesystem destroy n safe = absurd (n tt)
  handle_mounted-default_filesystem (forget arg) n safe = absurd (n tt)
  handle_mounted-default_filesystem («open» arg) n safe = absurd (n tt)
  handle_mounted-default_filesystem (open_dir arg) n safe = absurd (n tt)
  handle_mounted-default_filesystem (release arg) n safe = absurd (n tt)
  handle_mounted-default_filesystem (release_dir arg) n safe = absurd (n tt)
  handle_mounted-default_filesystem stat_fs n safe = absurd (n tt)
  handle_mounted-default_filesystem (lookup name) n safe = rw send_all-new
  handle_mounted-default_filesystem get_attr n safe = rw send_all-new
  handle_mounted-default_filesystem read_link n safe = rw send_all-new
  handle_mounted-default_filesystem (mk_nod arg name) n safe = rw send_all-new
  handle_mounted-default_filesystem (mk_dir arg name) n safe = rw send_all-new
  handle_mounted-default_filesystem (unlink name) n safe = rw send_all-new
  handle_mounted-default_filesystem (rm_dir name) n safe = rw send_all-new
  handle_mounted-default_filesystem (sym_link name target) n safe = rw send_all-new
  handle_mounted-default_filesystem (rename arg name newname) n safe = rw send_all-new
  handle_mounted-default_filesystem (link arg name) n safe = rw send_all-new
  handle_mounted-default_filesystem (read arg) n safe = rw send_all-new
  handle_mounted-default_filesystem (flush arg) n safe = rw send_all-new
  handle_mounted-default_filesystem (fsync arg) n safe = rw send_all-new
  handle_mounted-default_filesystem (read_dir arg) n safe = rw send_all-new
  handle_mounted-default_filesystem (fsync_dir arg) n safe = rw send_all-new
  handle_mounted-default_filesystem (get_xattr arg name) n safe = rw send_all-new
  handle_mounted-default_filesystem (list_xattr arg) n safe = rw send_all-new
  handle_mounted-default_filesystem (remove_xattr name) n safe = rw send_all-new
  handle_mounted-default_filesystem (access arg) n safe = rw send_all-new
  handle_mounted-default_filesystem (create arg name) n safe = rw send_all-new
  handle_mounted-default_filesystem (interrupt arg) n safe = rw send_all-new
  handle_mounted-default_filesystem (get_lk arg) n safe = rw send_all-new
  handle_mounted-default_filesystem (set_lk arg) n safe = rw send_all-new
  handle_mounted-default_filesystem (set_lk_w arg) n safe = rw send_all-new
  handle_mounted-default_filesystem (bmap arg) n safe = rw send_all-new
  handle_mounted-default_filesystem (set_attr arg) n safe =
      handle_set_attr-default_filesystem (set_attr_args arg) safe
  handle_mounted-default_filesystem (write arg value) n safe =
      asserted (length value == arg.size) _ (rw send_all-new) safe
  handle_mounted-default_filesystem (set_xattr arg name value) n safe =
      asserted (length value == arg.size) _ (rw send_all-new) safe

  handle_initialized-default_filesystem :
      (op : Operation)
      → ¬ HasDefault op
      → fatal op ≡ false
      → se.destroyed ≡ false
      → handle_initialized c (default_filesystem c) q se op ≡ not_implemented
  unfolding handle_initialized
  handle_initialized-default_filesystem (init arg) n safe alive = absurd (n tt)
  handle_initialized-default_filesystem destroy n safe alive = absurd (n tt)
  handle_initialized-default_filesystem op n safe alive =
      if_false se.destroyed _ _ alive ∙ handle_mounted-default_filesystem _ n safe

  handle-default_filesystem :
      (op : Operation)
      → ¬ HasDefault op
      → fatal op ≡ false
      → se.initialized ≡ true
      → se.destroyed ≡ false
      → handle c (default_filesystem c) q se op ≡ not_implemented
  unfolding handle
  handle-default_filesystem (init arg) n safe up alive = absurd (n tt)
  handle-default_filesystem op n safe up alive =
      if_false (not se.initialized) _ _ (ap not up)
      ∙ handle_initialized-default_filesystem _ n safe alive

  -- A file system that leaves every method to the trait answers ENOSYS to each operation but INIT,
  -- DESTROY, FORGET, OPEN, OPENDIR, RELEASE, RELEASEDIR and STATFS, and the session stays as it
  -- was, while it is initialized and not destroyed and the request is none whose arguments make
  -- the dispatch panic.
  pub dispatch-default_filesystem :
      ¬ HasDefault q.request.operation
      → fatal q.request.operation ≡ false
      → se.initialized ≡ true
      → se.destroyed ≡ false
      → dispatch c (default_filesystem c) q se ≡ not_implemented
  unfolding dispatch
  dispatch-default_filesystem = handle-default_filesystem q.request.operation
