-- ===== src/Abi/Consts.antt =====
-- fuse-abi/src/lib.rs: the protocol version and the flag bits that the code reads or sends.
use fuse_rs.Base.{ℕ, ◌^◌}

abbrev pub fuse_kernel_version : ℕ
fuse_kernel_version = 7

abbrev pub fuse_kernel_minor_version : ℕ
fuse_kernel_minor_version = 8

abbrev pub fattr_mode : ℕ
fattr_mode = 2 ^ 0

abbrev pub fattr_uid : ℕ
fattr_uid = 2 ^ 1

abbrev pub fattr_gid : ℕ
fattr_gid = 2 ^ 2

abbrev pub fattr_size : ℕ
fattr_size = 2 ^ 3

abbrev pub fattr_atime : ℕ
fattr_atime = 2 ^ 4

abbrev pub fattr_mtime : ℕ
fattr_mtime = 2 ^ 5

abbrev pub fattr_fh : ℕ
fattr_fh = 2 ^ 6

abbrev pub fuse_async_read : ℕ
fuse_async_read = 2 ^ 0

abbrev pub fuse_release_flush : ℕ
fuse_release_flush = 2 ^ 0
