-- ===== src/Filesystem/Default.antt =====
-- The default methods of the trait `Filesystem` of src/lib.rs: a file system that does nothing.
use fuse_rs.Base.{ℕ, ℤ, Bool, List}
use fuse_rs.Base.Result.{Result, ok}
use fuse_rs.Ll.Request.{Request}
use fuse_rs.Platform.{Libc}
use fuse_rs.Filesystem.{
  Filesystem, answer, Answer, DirAnswer, OpenAnswer, StatfsAnswer, XattrAnswer, CreateAnswer,
  LockAnswer,
}

module _ (c : Libc) {S : Type 0} where
  abbrev unsupported : {A : Type 0} → S → S × Answer A
  unsupported s = (s, Answer.error c.enosys)

  abbrev default_init : Request → S → S × Result ℤ (Unit {0})
  default_init _ s = (s, ok tt)

  -- `open` and `opendir` give no handle and no flags.
  abbrev default_open : Request → ℕ → ℕ → S → S × Answer OpenAnswer
  default_open _ _ _ s = (s, answer (record { fh = 0; flags = 0 }))

  abbrev default_opendir : Request → ℕ → ℕ → S → S × Answer OpenAnswer
  default_opendir _ _ _ s = (s, answer (record { fh = 0; flags = 0 }))

  abbrev default_readdir : Request → ℕ → ℕ → ℤ → S → S × DirAnswer
  default_readdir _ _ _ _ s = (s, DirAnswer.error c.enosys)

  abbrev default_releasedir : Request → ℕ → ℕ → ℕ → S → S × Answer (Unit {0})
  default_releasedir _ _ _ _ s = (s, answer tt)

  abbrev default_statfs : Request → ℕ → S → S × Answer StatfsAnswer
  default_statfs _ _ s = (
    s,
    answer (record {
      blocks = 0;
      bfree = 0;
      bavail = 0;
      files = 0;
      ffree = 0;
      bsize = 512;
      namelen = 255;
      frsize = 0;
    }),
  )

  -- The methods that no file system need have.
  abbrev default_fsyncdir : Request → ℕ → ℕ → Bool → S → S × Answer (Unit {0})
  default_fsyncdir _ _ _ _ s = unsupported s

  abbrev default_setxattr : Request → ℕ → List ℕ → List ℕ → ℕ → ℕ → S → S × Answer (Unit {0})
  default_setxattr _ _ _ _ _ _ s = unsupported s

  abbrev default_getxattr : Request → ℕ → List ℕ → ℕ → S → S × Answer XattrAnswer
  default_getxattr _ _ _ _ s = unsupported s

  abbrev default_listxattr : Request → ℕ → ℕ → S → S × Answer XattrAnswer
  default_listxattr _ _ _ s = unsupported s

  abbrev default_removexattr : Request → ℕ → List ℕ → S → S × Answer (Unit {0})
  default_removexattr _ _ _ s = unsupported s

  abbrev default_access : Request → ℕ → ℕ → S → S × Answer (Unit {0})
  default_access _ _ _ s = unsupported s

  abbrev default_create : Request → ℕ → List ℕ → ℕ → ℕ → S → S × Answer CreateAnswer
  default_create _ _ _ _ _ s = unsupported s

  abbrev default_getlk : Request → ℕ → ℕ → ℕ → ℕ → ℕ → ℕ → ℕ → S → S × Answer LockAnswer
  default_getlk _ _ _ _ _ _ _ _ s = unsupported s

  abbrev default_setlk : Request → ℕ → ℕ → ℕ → ℕ → ℕ → ℕ → ℕ → Bool → S → S × Answer (Unit {0})
  default_setlk _ _ _ _ _ _ _ _ _ s = unsupported s

  abbrev default_bmap : Request → ℕ → ℕ → ℕ → S → S × Answer ℕ
  default_bmap _ _ _ _ s = unsupported s

  unfoldable pub default_filesystem : Filesystem S
  default_filesystem = record {
    init = default_init;
    destroy = λ _ s. s;
    lookup = λ _ _ _ s. unsupported s;
    forget = λ _ _ _ s. s;
    getattr = λ _ _ s. unsupported s;
    setattr = λ _ _ _ s. unsupported s;
    readlink = λ _ _ s. unsupported s;
    mknod = λ _ _ _ _ _ s. unsupported s;
    mkdir = λ _ _ _ _ s. unsupported s;
    unlink = λ _ _ _ s. unsupported s;
    rmdir = λ _ _ _ s. unsupported s;
    symlink = λ _ _ _ _ s. unsupported s;
    rename = λ _ _ _ _ _ s. unsupported s;
    link = λ _ _ _ _ s. unsupported s;
    open_file = default_open;
    read = λ _ _ _ _ _ s. unsupported s;
    write = λ _ _ _ _ _ _ s. unsupported s;
    flush = λ _ _ _ _ s. unsupported s;
    release = λ _ _ _ _ _ _ s. (s, answer tt);
    fsync = λ _ _ _ _ s. unsupported s;
    opendir = default_opendir;
    readdir = default_readdir;
    releasedir = default_releasedir;
    fsyncdir = default_fsyncdir;
    statfs = default_statfs;
    setxattr = default_setxattr;
    getxattr = default_getxattr;
    listxattr = default_listxattr;
    removexattr = default_removexattr;
    access = default_access;
    create = default_create;
    getlk = default_getlk;
    setlk = default_setlk;
    bmap = default_bmap;
  }
