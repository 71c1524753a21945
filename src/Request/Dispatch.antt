-- ===== src/Request/Dispatch.antt =====
-- `Request::dispatch` of src/request.rs.
use fuse_rs.Base.{
  ℕ, Bool, true, false, not, ◌&&◌, ◌||◌, List, [], Option, none, some, bit_and, ltb, ◌==◌,
  if◌then◌else◌, length, u32_cast, as_i64, ℤ,
}
use fuse_rs.Base.Result.{Result, ok, err}
use fuse_rs.Abi.Consts.{
  fuse_kernel_version, fuse_kernel_minor_version, fuse_async_read, fuse_release_flush,
}
use fuse_rs.Abi.Structs.{FuseInitIn, FuseInitOut, fuse_init_out_struct}
use fuse_rs.Platform.{Libc}
use fuse_rs.Effect.{Outcome, panicked, pure, ◌>>=◌, ◌>>◌}
use fuse_rs.Ll.Request.{nodeid, unique}
use fuse_rs.Ll.Operation.{
  Operation, lookup, forget, get_attr, set_attr, read_link, sym_link, mk_nod, mk_dir, unlink,
  rm_dir, rename, link, «open», read, write, stat_fs, release, fsync, set_xattr, get_xattr,
  list_xattr, remove_xattr, flush, init, open_dir, read_dir, release_dir, fsync_dir, get_lk, set_lk,
  set_lk_w, access, create, interrupt, bmap, destroy,
}
use fuse_rs.Reply.Raw.{ReplyRaw}
use fuse_rs.Reply.Raw
use fuse_rs.Reply.Typed
use fuse_rs.Reply.Types.{
  Reply, ReplyEmpty, reply_raw, reply_empty, reply_data, reply_entry, reply_attr, reply_open,
  reply_write, reply_statfs, reply_create, reply_lock, reply_bmap, reply_xattr,
}
use fuse_rs.Reply.Types
use fuse_rs.Reply.Directory
use fuse_rs.Filesystem.{
  Filesystem, Answer, DirAnswer, SetAttr, perform, give_empty, give_data, give_entry, give_attr,
  give_open, give_write, give_statfs, give_create, give_lock, give_bmap, give_xattr, perform_dir,
}
use fuse_rs.Session.{Session, max_write_size}
use fuse_rs.Request.{Request}
use fuse_rs.Request.Args.{flag, set_attr_args}

abbrev pub init_flags : ℕ
init_flags = fuse_async_read

-- A session after the dispatch of a request, with the replies that the file system keeps.
abbrev pub Dispatched : Type 0 → Type 0
Dispatched S = Outcome (Session S × List ReplyRaw)

-- The answer to INIT: our version, and of the flags those that both sides know.
unfoldable pub init_out : FuseInitIn → FuseInitOut
init_out arg = record {
  major = fuse_kernel_version;
  minor = fuse_kernel_minor_version;
  max_readahead = arg.max_readahead;
  flags = bit_and arg.flags init_flags;
  unused = 0;
  max_write = u32_cast max_write_size;
}

-- ABI versions before 7.6 are refused.
unfoldable pub unsupported_version : FuseInitIn → Bool
unsupported_version arg = ltb arg.major 7 || (arg.major == 7 && ltb arg.minor 6)

module _ (c : Libc) {S : Type 0} (fs : Filesystem S) (q : Request) (se : Session S) where
  -- `self.reply()`.
  abbrev pub reply : {R : Type 0} ⦃rep : Reply R⦄ → R
  reply = Types.create (unique q.request) q.ch

  -- The request is answered by the dispatch itself, with a reply of type `R`.
  unfoldable pub reply_error : (R : Type 0) ⦃rep : Reply R⦄ → ℤ → Dispatched S
  reply_error R ⦃rep⦄ code = do rep.error c reply code; pure (se, [])

  -- A method of the file system is called, and does what it does with the reply.
  unfoldable pub call :
      {R A : Type 0} ⦃rep : Reply R⦄ → (R → A → Outcome (Unit {0})) → S × Answer A → Dispatched S
  unfolding perform
  call give (s, a) = do
    replies ← perform c give reply a
    pure (record se { filesystem = s }, replies)

  -- A method that fills a directory buffer of the size that was asked for.
  unfoldable pub call_dir : ℕ → S × DirAnswer → Dispatched S
  call_dir size (s, a) = do
    replies ← perform_dir c (Directory.new c (unique q.request) q.ch size) a
    pure (record se { filesystem = s }, replies)

  -- The session with the version that the kernel supports.
  abbrev pub versioned : FuseInitIn → Session S
  versioned arg = record se { proto_major = arg.major; proto_minor = arg.minor }

  unfoldable pub init_result : FuseInitIn → S × Result ℤ (Unit {0}) → Dispatched S
  unfolding init_out
  init_result arg (s, err e) = do
    Raw.error c reply e
    pure (record (versioned arg) { filesystem = s }, [])
  init_result arg (s, ok _) = do
    Raw.ok c reply (init_out arg)
    pure (record (versioned arg) { filesystem = s; initialized = true }, [])

  unfoldable pub handle_init : FuseInitIn → Dispatched S
  handle_init arg =
      if unsupported_version arg
      then reply_error ReplyRaw c.eproto
      else init_result arg (fs.init q.request se.filesystem)

  unfoldable pub handle_set_attr : Option SetAttr → Dispatched S
  handle_set_attr none = panicked []
  handle_set_attr (some a) =
      call (give_attr c) (fs.setattr q.request (nodeid q.request) a se.filesystem)

  -- The operations that reach the file system while it is mounted. INIT and DESTROY are handled before
  -- this, so their clauses are never run.
  unfoldable pub handle_mounted : Operation → Dispatched S
  handle_mounted (init arg) = pure (se, [])
  handle_mounted destroy = pure (se, [])
  handle_mounted (interrupt arg) = reply_error ReplyEmpty c.enosys
  handle_mounted (lookup name) =
      call (give_entry c) (fs.lookup q.request (nodeid q.request) name se.filesystem)
  handle_mounted (forget arg) = pure (
    record se { filesystem = fs.forget q.request (nodeid q.request) arg.nlookup se.filesystem },
    [],
  )
  handle_mounted get_attr =
      call (give_attr c) (fs.getattr q.request (nodeid q.request) se.filesystem)
  handle_mounted (set_attr arg) = handle_set_attr (set_attr_args arg)
  handle_mounted read_link =
      call (give_data c) (fs.readlink q.request (nodeid q.request) se.filesystem)
  handle_mounted (mk_nod arg name) =
      call (give_entry c)
        (fs.mknod q.request (nodeid q.request) name arg.mode arg.rdev se.filesystem)
  handle_mounted (mk_dir arg name) =
      call (give_entry c) (fs.mkdir q.request (nodeid q.request) name arg.mode se.filesystem)
  handle_mounted (unlink name) =
      call (give_empty c) (fs.unlink q.request (nodeid q.request) name se.filesystem)
  handle_mounted (rm_dir name) =
      call (give_empty c) (fs.rmdir q.request (nodeid q.request) name se.filesystem)
  handle_mounted (sym_link name target) =
      call (give_entry c) (fs.symlink q.request (nodeid q.request) name target se.filesystem)
  handle_mounted (rename arg name newname) =
      call (give_empty c)
        (fs.rename q.request (nodeid q.request) name arg.newdir newname se.filesystem)
  handle_mounted (link arg name) =
      call (give_entry c) (fs.link q.request arg.oldnodeid (nodeid q.request) name se.filesystem)
  handle_mounted («open» arg) =
      call (give_open c) (fs.open_file q.request (nodeid q.request) arg.flags se.filesystem)
  handle_mounted (read arg) =
      call (give_data c)
        (fs.read q.request (nodeid q.request) arg.fh (as_i64 arg.offset) arg.size se.filesystem)
  handle_mounted (write arg value) =
      if length value == arg.size
      then call (give_write c) (
          fs.write q.request (nodeid q.request) arg.fh (as_i64 arg.offset) value arg.write_flags
            se.filesystem)
      else panicked []
  handle_mounted (flush arg) =
      call (give_empty c)
        (fs.flush q.request (nodeid q.request) arg.fh arg.lock_owner se.filesystem)
  handle_mounted (release arg) = call (give_empty c) (
      fs.release q.request (nodeid q.request) arg.fh arg.flags arg.lock_owner
        (flag arg.release_flags fuse_release_flush) se.filesystem)
  handle_mounted (fsync arg) =
      call (give_empty c)
        (fs.fsync q.request (nodeid q.request) arg.fh (flag arg.fsync_flags 1) se.filesystem)
  handle_mounted (open_dir arg) =
      call (give_open c) (fs.opendir q.request (nodeid q.request) arg.flags se.filesystem)
  handle_mounted (read_dir arg) =
      call_dir arg.size
        (fs.readdir q.request (nodeid q.request) arg.fh (as_i64 arg.offset) se.filesystem)
  handle_mounted (release_dir arg) =
      call (give_empty c)
        (fs.releasedir q.request (nodeid q.request) arg.fh arg.flags se.filesystem)
  handle_mounted (fsync_dir arg) =
      call (give_empty c)
        (fs.fsyncdir q.request (nodeid q.request) arg.fh (flag arg.fsync_flags 1) se.filesystem)
  handle_mounted stat_fs =
      call (give_statfs c) (fs.statfs q.request (nodeid q.request) se.filesystem)
  handle_mounted (set_xattr arg name value) =
      if length value == arg.size
      then call (give_empty c)
          (fs.setxattr q.request (nodeid q.request) name value arg.flags 0 se.filesystem)
      else panicked []
  handle_mounted (get_xattr arg name) =
      call (give_xattr c) (fs.getxattr q.request (nodeid q.request) name arg.size se.filesystem)
  handle_mounted (list_xattr arg) =
      call (give_xattr c) (fs.listxattr q.request (nodeid q.request) arg.size se.filesystem)
  handle_mounted (remove_xattr name) =
      call (give_empty c) (fs.removexattr q.request (nodeid q.request) name se.filesystem)
  handle_mounted (access arg) =
      call (give_empty c) (fs.access q.request (nodeid q.request) arg.mask se.filesystem)
  handle_mounted (create arg name) =
      call (give_create c)
        (fs.create q.request (nodeid q.request) name arg.mode arg.flags se.filesystem)
  handle_mounted (get_lk arg) = call (give_lock c) (
      fs.getlk q.request (nodeid q.request) arg.fh arg.owner arg.lk.start arg.lk.end arg.lk.typ
        arg.lk.pid se.filesystem)
  handle_mounted (set_lk arg) = call (give_empty c) (
      fs.setlk q.request (nodeid q.request) arg.fh arg.owner arg.lk.start arg.lk.end arg.lk.typ
        arg.lk.pid false se.filesystem)
  handle_mounted (set_lk_w arg) = call (give_empty c) (
      fs.setlk q.request (nodeid q.request) arg.fh arg.owner arg.lk.start arg.lk.end arg.lk.typ
        arg.lk.pid true se.filesystem)
  handle_mounted (bmap arg) =
      call (give_bmap c)
        (fs.bmap q.request (nodeid q.request) arg.blocksize arg.block se.filesystem)

  unfoldable pub handle_destroy : Dispatched S
  handle_destroy = do
    Typed.empty c reply
    pure (record se { filesystem = fs.destroy q.request se.filesystem; destroyed = true }, [])

  -- The arms behind the test for `initialized`.
  unfoldable pub handle_initialized : Operation → Dispatched S
  handle_initialized destroy = handle_destroy
  handle_initialized op = if se.destroyed then reply_error ReplyEmpty c.eio else handle_mounted op

  -- The arms of the `match`, in their order.
  unfoldable pub handle : Operation → Dispatched S
  handle (init arg) = handle_init arg
  handle op = if not se.initialized then reply_error ReplyEmpty c.eio else handle_initialized op

  unfoldable pub dispatch : Dispatched S
  dispatch = handle q.request.operation
