-- ===== src/Abi/Opcode.antt =====
-- fuse-abi/src/lib.rs: operation codes. Of the opcodes that only some builds have (an `abi-7-x`
-- feature or macOS) the default build has none.
use fuse_rs.Base.{ℕ, ◌≡◌, refl, Option, none, some, ◌==◌, if◌then◌else◌, arith}

pub data FuseOpcode : Type 0 where
  fuse_lookup fuse_forget fuse_getattr fuse_setattr fuse_readlink fuse_symlink fuse_mknod :
      FuseOpcode
  fuse_mkdir fuse_unlink fuse_rmdir fuse_rename fuse_link fuse_open fuse_read fuse_write :
      FuseOpcode
  fuse_statfs fuse_release fuse_fsync fuse_setxattr fuse_getxattr fuse_listxattr : FuseOpcode
  fuse_removexattr fuse_flush fuse_init fuse_opendir fuse_readdir fuse_releasedir : FuseOpcode
  fuse_fsyncdir fuse_getlk fuse_setlk fuse_setlkw fuse_access fuse_create fuse_interrupt :
      FuseOpcode
  fuse_bmap fuse_destroy : FuseOpcode

-- The discriminant, `opcode as u32`.
unfoldable pub code : FuseOpcode → ℕ
code fuse_lookup = 1
code fuse_forget = 2
code fuse_getattr = 3
code fuse_setattr = 4
code fuse_readlink = 5
code fuse_symlink = 6
code fuse_mknod = 8
code fuse_mkdir = 9
code fuse_unlink = 10
code fuse_rmdir = 11
code fuse_rename = 12
code fuse_link = 13
code fuse_open = 14
code fuse_read = 15
code fuse_write = 16
code fuse_statfs = 17
code fuse_release = 18
code fuse_fsync = 20
code fuse_setxattr = 21
code fuse_getxattr = 22
code fuse_listxattr = 23
code fuse_removexattr = 24
code fuse_flush = 25
code fuse_init = 26
code fuse_opendir = 27
code fuse_readdir = 28
code fuse_releasedir = 29
code fuse_fsyncdir = 30
code fuse_getlk = 31
code fuse_setlk = 32
code fuse_setlkw = 33
code fuse_access = 34
code fuse_create = 35
code fuse_interrupt = 36
code fuse_bmap = 37
code fuse_destroy = 38

-- `TryFrom<u32>`; `none` is `InvalidOpcodeError`.
unfoldable pub try_from : ℕ → Option FuseOpcode
try_from n =
    if n == 1
    then some fuse_lookup
    else if n == 2
    then some fuse_forget
    else if n == 3
    then some fuse_getattr
    else if n == 4
    then some fuse_setattr
    else if n == 5
    then some fuse_readlink
    else if n == 6
    then some fuse_symlink
    else if n == 8
    then some fuse_mknod
    else if n == 9
    then some fuse_mkdir
    else if n == 10
    then some fuse_unlink
    else if n == 11
    then some fuse_rmdir
    else if n == 12
    then some fuse_rename
    else if n == 13
    then some fuse_link
    else if n == 14
    then some fuse_open
    else if n == 15
    then some fuse_read
    else if n == 16
    then some fuse_write
    else if n == 17
    then some fuse_statfs
    else if n == 18
    then some fuse_release
    else if n == 20
    then some fuse_fsync
    else if n == 21
    then some fuse_setxattr
    else if n == 22
    then some fuse_getxattr
    else if n == 23
    then some fuse_listxattr
    else if n == 24
    then some fuse_removexattr
    else if n == 25
    then some fuse_flush
    else if n == 26
    then some fuse_init
    else if n == 27
    then some fuse_opendir
    else if n == 28
    then some fuse_readdir
    else if n == 29
    then some fuse_releasedir
    else if n == 30
    then some fuse_fsyncdir
    else if n == 31
    then some fuse_getlk
    else if n == 32
    then some fuse_setlk
    else if n == 33
    then some fuse_setlkw
    else if n == 34
    then some fuse_access
    else if n == 35
    then some fuse_create
    else if n == 36
    then some fuse_interrupt
    else if n == 37
    then some fuse_bmap
    else if n == 38
    then some fuse_destroy
    else none

-- Every opcode is found under its discriminant.
pub try_from-code : (op : FuseOpcode) → try_from (code op) ≡ some op
unfolding try_from code
try_from-code fuse_lookup = refl
try_from-code fuse_forget = refl
try_from-code fuse_getattr = refl
try_from-code fuse_setattr = refl
try_from-code fuse_readlink = refl
try_from-code fuse_symlink = refl
try_from-code fuse_mknod = refl
try_from-code fuse_mkdir = refl
try_from-code fuse_unlink = refl
try_from-code fuse_rmdir = refl
try_from-code fuse_rename = refl
try_from-code fuse_link = refl
try_from-code fuse_open = refl
try_from-code fuse_read = refl
try_from-code fuse_write = refl
try_from-code fuse_statfs = refl
try_from-code fuse_release = refl
try_from-code fuse_fsync = refl
try_from-code fuse_setxattr = refl
try_from-code fuse_getxattr = refl
try_from-code fuse_listxattr = refl
try_from-code fuse_removexattr = refl
try_from-code fuse_flush = refl
try_from-code fuse_init = refl
try_from-code fuse_opendir = refl
try_from-code fuse_readdir = refl
try_from-code fuse_releasedir = refl
try_from-code fuse_fsyncdir = refl
try_from-code fuse_getlk = refl
try_from-code fuse_setlk = refl
try_from-code fuse_setlkw = refl
try_from-code fuse_access = refl
try_from-code fuse_create = refl
try_from-code fuse_interrupt = refl
try_from-code fuse_bmap = refl
try_from-code fuse_destroy = refl

pub code-try_from : (n : ℕ) {op : FuseOpcode} → try_from n ≡ some op → code op ≡ n
unfolding try_from code
code-try_from n h = ground arith
