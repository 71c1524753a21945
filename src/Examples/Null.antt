-- ===== src/Examples/Null.antt =====
-- examples/null.rs: `NullFS` has no state and leaves every method to the trait.
use fuse_rs.Platform.{Libc}
use fuse_rs.Filesystem.{Filesystem}
use fuse_rs.Filesystem.Default.{default_filesystem}

pub data NullFs : Type 0 where
  null_fs : NullFs

abbrev pub null_filesystem : Libc → Filesystem NullFs
null_filesystem c = default_filesystem c
