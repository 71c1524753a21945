-- ===== src/Ll/Operation.antt =====
-- `Operation` of src/ll/request.rs: what the kernel asks for, with its arguments, and how they are
-- parsed. Names and data are lists of bytes.
pub mod Grammar
pub mod Sound
pub mod Complete
pub mod Wire
use fuse_rs.Base.{ℕ, List, Option, some}
use fuse_rs.Abi.Structs.{
  FuseAccessIn, FuseBmapIn, FuseCreateIn, FuseFlushIn, FuseForgetIn, FuseFsyncIn, FuseGetxattrIn,
  FuseInitIn, FuseInterruptIn, FuseLinkIn, FuseLkIn, FuseMkdirIn, FuseMknodIn, FuseOpenIn,
  FuseReadIn, FuseReleaseIn, FuseRenameIn, FuseSetattrIn, FuseSetxattrIn, FuseWriteIn,
}
use fuse_rs.Abi.Structs.{
  fuse_access_in_struct, fuse_bmap_in_struct, fuse_create_in_struct, fuse_flush_in_struct,
  fuse_forget_in_struct, fuse_fsync_in_struct, fuse_getxattr_in_struct, fuse_init_in_struct,
  fuse_interrupt_in_struct, fuse_link_in_struct, fuse_lk_in_struct, fuse_mkdir_in_struct,
  fuse_mknod_in_struct, fuse_open_in_struct, fuse_read_in_struct, fuse_release_in_struct,
  fuse_rename_in_struct, fuse_setattr_in_struct, fuse_setxattr_in_struct, fuse_write_in_struct,
}
use fuse_rs.Abi.Opcode.{
  FuseOpcode, fuse_lookup, fuse_forget, fuse_getattr, fuse_setattr, fuse_readlink, fuse_symlink,
  fuse_mknod, fuse_mkdir, fuse_unlink, fuse_rmdir, fuse_rename, fuse_link, fuse_open, fuse_read,
  fuse_write, fuse_statfs, fuse_release, fuse_fsync, fuse_setxattr, fuse_getxattr, fuse_listxattr,
  fuse_removexattr, fuse_flush, fuse_init, fuse_opendir, fuse_readdir, fuse_releasedir,
  fuse_fsyncdir, fuse_getlk, fuse_setlk, fuse_setlkw, fuse_access, fuse_create, fuse_interrupt,
  fuse_bmap, fuse_destroy,
}
use fuse_rs.Ll.Argument.{ArgumentIterator, Fetch, ◌>>=◌, pure, fetch, fetch_str, fetch_all}

pub data Operation : Type 0 where
  lookup : List ℕ → Operation
  forget : FuseForgetIn → Operation
  get_attr : Operation
  set_attr : FuseSetattrIn → Operation
  read_link : Operation
  sym_link : List ℕ → List ℕ → Operation
  mk_nod : FuseMknodIn → List ℕ → Operation
  mk_dir : FuseMkdirIn → List ℕ → Operation
  unlink : List ℕ → Operation
  rm_dir : List ℕ → Operation
  rename : FuseRenameIn → List ℕ → List ℕ → Operation
  link : FuseLinkIn → List ℕ → Operation
  «open» : FuseOpenIn → Operation
  read : FuseReadIn → Operation
  write : FuseWriteIn → List ℕ → Operation
  stat_fs : Operation
  release : FuseReleaseIn → Operation
  fsync : FuseFsyncIn → Operation
  set_xattr : FuseSetxattrIn → List ℕ → List ℕ → Operation
  get_xattr : FuseGetxattrIn → List ℕ → Operation
  list_xattr : FuseGetxattrIn → Operation
  remove_xattr : List ℕ → Operation
  flush : FuseFlushIn → Operation
  init : FuseInitIn → Operation
  open_dir : FuseOpenIn → Operation
  read_dir : FuseReadIn → Operation
  release_dir : FuseReleaseIn → Operation
  fsync_dir : FuseFsyncIn → Operation
  get_lk : FuseLkIn → Operation
  set_lk : FuseLkIn → Operation
  set_lk_w : FuseLkIn → Operation
  access : FuseAccessIn → Operation
  create : FuseCreateIn → List ℕ → Operation
  interrupt : FuseInterruptIn → Operation
  bmap : FuseBmapIn → Operation
  destroy : Operation

-- `Operation::parse`.
unfoldable pub parse : FuseOpcode → Fetch Operation
parse fuse_lookup = do name ← fetch_str; pure (lookup name)
parse fuse_forget = do arg ← fetch {T = FuseForgetIn}; pure (forget arg)
parse fuse_getattr = pure get_attr
parse fuse_setattr = do arg ← fetch {T = FuseSetattrIn}; pure (set_attr arg)
parse fuse_readlink = pure read_link
parse fuse_symlink = do name ← fetch_str; target ← fetch_str; pure (sym_link name target)
parse fuse_mknod = do arg ← fetch {T = FuseMknodIn}; name ← fetch_str; pure (mk_nod arg name)
parse fuse_mkdir = do arg ← fetch {T = FuseMkdirIn}; name ← fetch_str; pure (mk_dir arg name)
parse fuse_unlink = do name ← fetch_str; pure (unlink name)
parse fuse_rmdir = do name ← fetch_str; pure (rm_dir name)
parse fuse_rename = do
  arg ← fetch {T = FuseRenameIn}
  name ← fetch_str
  newname ← fetch_str
  pure (rename arg name newname)
parse fuse_link = do arg ← fetch {T = FuseLinkIn}; name ← fetch_str; pure (link arg name)
parse fuse_open = do arg ← fetch {T = FuseOpenIn}; pure («open» arg)
parse fuse_read = do arg ← fetch {T = FuseReadIn}; pure (read arg)
parse fuse_write = do arg ← fetch {T = FuseWriteIn}; value ← fetch_all; pure (write arg value)
parse fuse_statfs = pure stat_fs
parse fuse_release = do arg ← fetch {T = FuseReleaseIn}; pure (release arg)
parse fuse_fsync = do arg ← fetch {T = FuseFsyncIn}; pure (fsync arg)
parse fuse_setxattr = do
  arg ← fetch {T = FuseSetxattrIn}
  name ← fetch_str
  value ← fetch_all
  pure (set_xattr arg name value)
parse fuse_getxattr = do
  arg ← fetch {T = FuseGetxattrIn}
  name ← fetch_str
  pure (get_xattr arg name)
parse fuse_listxattr = do arg ← fetch {T = FuseGetxattrIn}; pure (list_xattr arg)
parse fuse_removexattr = do name ← fetch_str; pure (remove_xattr name)
parse fuse_flush = do arg ← fetch {T = FuseFlushIn}; pure (flush arg)
parse fuse_init = do arg ← fetch {T = FuseInitIn}; pure (init arg)
parse fuse_opendir = do arg ← fetch {T = FuseOpenIn}; pure (open_dir arg)
parse fuse_readdir = do arg ← fetch {T = FuseReadIn}; pure (read_dir arg)
parse fuse_releasedir = do arg ← fetch {T = FuseReleaseIn}; pure (release_dir arg)
parse fuse_fsyncdir = do arg ← fetch {T = FuseFsyncIn}; pure (fsync_dir arg)
parse fuse_getlk = do arg ← fetch {T = FuseLkIn}; pure (get_lk arg)
parse fuse_setlk = do arg ← fetch {T = FuseLkIn}; pure (set_lk arg)
parse fuse_setlkw = do arg ← fetch {T = FuseLkIn}; pure (set_lk_w arg)
parse fuse_access = do arg ← fetch {T = FuseAccessIn}; pure (access arg)
parse fuse_create = do arg ← fetch {T = FuseCreateIn}; name ← fetch_str; pure (create arg name)
parse fuse_interrupt = do arg ← fetch {T = FuseInterruptIn}; pure (interrupt arg)
parse fuse_bmap = do arg ← fetch {T = FuseBmapIn}; pure (bmap arg)
parse fuse_destroy = pure destroy

-- The opcode that an operation is asked for by.
unfoldable pub opcode : Operation → FuseOpcode
opcode (lookup _) = fuse_lookup
opcode (forget _) = fuse_forget
opcode get_attr = fuse_getattr
opcode (set_attr _) = fuse_setattr
opcode read_link = fuse_readlink
opcode (sym_link _ _) = fuse_symlink
opcode (mk_nod _ _) = fuse_mknod
opcode (mk_dir _ _) = fuse_mkdir
opcode (unlink _) = fuse_unlink
opcode (rm_dir _) = fuse_rmdir
opcode (rename _ _ _) = fuse_rename
opcode (link _ _) = fuse_link
opcode («open» _) = fuse_open
opcode (read _) = fuse_read
opcode (write _ _) = fuse_write
opcode stat_fs = fuse_statfs
opcode (release _) = fuse_release
opcode (fsync _) = fuse_fsync
opcode (set_xattr _ _ _) = fuse_setxattr
opcode (get_xattr _ _) = fuse_getxattr
opcode (list_xattr _) = fuse_listxattr
opcode (remove_xattr _) = fuse_removexattr
opcode (flush _) = fuse_flush
opcode (init _) = fuse_init
opcode (open_dir _) = fuse_opendir
opcode (read_dir _) = fuse_readdir
opcode (release_dir _) = fuse_releasedir
opcode (fsync_dir _) = fuse_fsyncdir
opcode (get_lk _) = fuse_getlk
opcode (set_lk _) = fuse_setlk
opcode (set_lk_w _) = fuse_setlkw
opcode (access _) = fuse_access
opcode (create _ _) = fuse_create
opcode (interrupt _) = fuse_interrupt
opcode (bmap _) = fuse_bmap
opcode destroy = fuse_destroy
