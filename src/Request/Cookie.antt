-- ===== src/Request/Cookie.antt =====
-- The offset that a directory entry carries, and the READDIR that continues from it.
use fuse_rs.Base.{◌≡◌, ap, ◌∙◌, true, false, not, if_false, IsI64, as_i64, as_i64-as_u64}
use fuse_rs.Abi.Structs.{FuseReadIn}
use fuse_rs.Platform.{Libc}
use fuse_rs.Ll.Request.{nodeid}
use fuse_rs.Ll.Operation.{read_dir}
use fuse_rs.Reply.Directory.{DirEntry, dirent}
use fuse_rs.Filesystem.{Filesystem}
use fuse_rs.Session.{Session}
use fuse_rs.Request.{Request}
use fuse_rs.Request.Dispatch.{call_dir, handle_mounted, handle_initialized, handle, dispatch}

module _ (c : Libc) {S : Type 0} (fs : Filesystem S) (q : Request) (se : Session S) where
  off-dirent : (e : DirEntry) → IsI64 e.offset → as_i64 (dirent c e).off ≡ e.offset
  unfolding dirent
  off-dirent e h = as_i64-as_u64 e.offset h

  pub dispatch_read_dir :
      (arg : FuseReadIn)
      → q.request.operation ≡ read_dir arg
      → se.initialized ≡ true
      → se.destroyed ≡ false
      → dispatch c fs q se
        ≡ call_dir c fs q se arg.size
            (fs.readdir q.request (nodeid q.request) arg.fh (as_i64 arg.offset) se.filesystem)
  unfolding dispatch handle handle_initialized handle_mounted
  dispatch_read_dir arg op up alive =
      ap (handle c fs q se) op
      ∙ if_false (not se.initialized) _ _ (ap not up)
      ∙ if_false se.destroyed _ _ alive

  -- In a session that is initialized and not destroyed, a READDIR whose offset is the one stored
  -- for an entry calls `readdir` with the offset that `add` was given for that entry, when that
  -- offset fits an i64.
  pub dispatch-read_dir :
      (arg : FuseReadIn) (e : DirEntry)
      → q.request.operation ≡ read_dir arg
      → se.initialized ≡ true
      → se.destroyed ≡ false
      → IsI64 e.offset
      → arg.offset ≡ (dirent c e).off
      → dispatch c fs q se
        ≡ call_dir c fs q se arg.size
            (fs.readdir q.request (nodeid q.request) arg.fh e.offset se.filesystem)
  dispatch-read_dir arg e op up alive h cookie =
      let offset : as_i64 arg.offset ≡ e.offset = ap as_i64 cookie ∙ off-dirent e h in
      dispatch_read_dir arg op up alive
      ∙ ap
          (λ n.
            call_dir c fs q se arg.size
              (fs.readdir q.request (nodeid q.request) arg.fh n se.filesystem))
          offset
