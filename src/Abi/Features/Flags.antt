-- ===== src/Abi/Features/Flags.antt =====
-- fuse-abi/src/lib.rs: the flags of every build, by the word that they stand in. A flag is one bit.
use fuse_rs.Base.{ℕ, ◌≡◌, refl, Bool, true, ◌&&◌, not, arith}
use fuse_rs.Abi.Features.{Build, feature}

-- The flags of one word: the bit of each, the `cfg` of its constant, and that no two share a bit.
pub record Flags (F : Type 0) : Type 0 where
  pub shift : F → ℕ
  pub is_in : Build → F → Bool
  pub apart : (f g : F) → shift f ≡ shift g → f ≡ g

-- The flags of `fuse_setattr_in.valid`.
pub data AttrFlag : Type 0 where
  fattr_mode fattr_uid fattr_gid fattr_size fattr_atime fattr_mtime fattr_fh fattr_atime_now
        fattr_mtime_now fattr_lockowner fattr_crtime fattr_chgtime fattr_bkuptime fattr_flags :
      AttrFlag

unfoldable pub attr_flag_shift : AttrFlag → ℕ
attr_flag_shift fattr_mode = 0
attr_flag_shift fattr_uid = 1
attr_flag_shift fattr_gid = 2
attr_flag_shift fattr_size = 3
attr_flag_shift fattr_atime = 4
attr_flag_shift fattr_mtime = 5
attr_flag_shift fattr_fh = 6
attr_flag_shift fattr_atime_now = 7
attr_flag_shift fattr_mtime_now = 8
attr_flag_shift fattr_lockowner = 9
attr_flag_shift fattr_crtime = 28
attr_flag_shift fattr_chgtime = 29
attr_flag_shift fattr_bkuptime = 30
attr_flag_shift fattr_flags = 31

unfoldable pub attr_flag_is_in : Build → AttrFlag → Bool
attr_flag_is_in b fattr_mode = true
attr_flag_is_in b fattr_uid = true
attr_flag_is_in b fattr_gid = true
attr_flag_is_in b fattr_size = true
attr_flag_is_in b fattr_atime = true
attr_flag_is_in b fattr_mtime = true
attr_flag_is_in b fattr_fh = true
attr_flag_is_in b fattr_atime_now = feature b 9
attr_flag_is_in b fattr_mtime_now = feature b 9
attr_flag_is_in b fattr_lockowner = feature b 9
attr_flag_is_in b fattr_crtime = b.macos
attr_flag_is_in b fattr_chgtime = b.macos
attr_flag_is_in b fattr_bkuptime = b.macos
attr_flag_is_in b fattr_flags = b.macos

pub attr_flag_apart : (f g : AttrFlag) → attr_flag_shift f ≡ attr_flag_shift g → f ≡ g
unfolding attr_flag_shift
attr_flag_apart fattr_mode fattr_mode h = refl
attr_flag_apart fattr_uid fattr_uid h = refl
attr_flag_apart fattr_gid fattr_gid h = refl
attr_flag_apart fattr_size fattr_size h = refl
attr_flag_apart fattr_atime fattr_atime h = refl
attr_flag_apart fattr_mtime fattr_mtime h = refl
attr_flag_apart fattr_fh fattr_fh h = refl
attr_flag_apart fattr_atime_now fattr_atime_now h = refl
attr_flag_apart fattr_mtime_now fattr_mtime_now h = refl
attr_flag_apart fattr_lockowner fattr_lockowner h = refl
attr_flag_apart fattr_crtime fattr_crtime h = refl
attr_flag_apart fattr_chgtime fattr_chgtime h = refl
attr_flag_apart fattr_bkuptime fattr_bkuptime h = refl
attr_flag_apart fattr_flags fattr_flags h = refl
attr_flag_apart _ _ h = absurd (omega arith)

instance abbrev pub flags_of_fattr : Flags AttrFlag
flags_of_fattr = record {
  shift = attr_flag_shift;
  is_in = attr_flag_is_in;
  apart = attr_flag_apart;
}

-- The flags of `fuse_open_out.open_flags`.
pub data OpenFlag : Type 0 where
  fopen_direct_io fopen_keep_cache fopen_nonseekable fopen_purge_attr fopen_purge_ubc : OpenFlag

unfoldable pub open_flag_shift : OpenFlag → ℕ
open_flag_shift fopen_direct_io = 0
open_flag_shift fopen_keep_cache = 1
open_flag_shift fopen_nonseekable = 2
open_flag_shift fopen_purge_attr = 30
open_flag_shift fopen_purge_ubc = 31

unfoldable pub open_flag_is_in : Build → OpenFlag → Bool
open_flag_is_in b fopen_direct_io = true
open_flag_is_in b fopen_keep_cache = true
open_flag_is_in b fopen_nonseekable = feature b 10
open_flag_is_in b fopen_purge_attr = b.macos
open_flag_is_in b fopen_purge_ubc = b.macos

pub open_flag_apart : (f g : OpenFlag) → open_flag_shift f ≡ open_flag_shift g → f ≡ g
unfolding open_flag_shift
open_flag_apart fopen_direct_io fopen_direct_io h = refl
open_flag_apart fopen_keep_cache fopen_keep_cache h = refl
open_flag_apart fopen_nonseekable fopen_nonseekable h = refl
open_flag_apart fopen_purge_attr fopen_purge_attr h = refl
open_flag_apart fopen_purge_ubc fopen_purge_ubc h = refl
open_flag_apart _ _ h = absurd (omega arith)

instance abbrev pub flags_of_fopen : Flags OpenFlag
flags_of_fopen = record {
  shift = open_flag_shift;
  is_in = open_flag_is_in;
  apart = open_flag_apart;
}

-- The flags of INIT.
pub data InitFlag : Type 0 where
  init_async_read init_posix_locks init_file_ops init_atomic_o_trunc init_export_support
        init_big_writes init_dont_mask init_splice_write init_splice_move init_splice_read
        init_flock_locks init_has_ioctl_dir init_allocate init_exchange_data init_case_insensitive
        init_vol_rename init_xtimes :
      InitFlag

unfoldable pub init_flag_shift : InitFlag → ℕ
init_flag_shift init_async_read = 0
init_flag_shift init_posix_locks = 1
init_flag_shift init_file_ops = 2
init_flag_shift init_atomic_o_trunc = 3
init_flag_shift init_export_support = 4
init_flag_shift init_big_writes = 5
init_flag_shift init_dont_mask = 6
init_flag_shift init_splice_write = 7
init_flag_shift init_splice_move = 8
init_flag_shift init_splice_read = 9
init_flag_shift init_flock_locks = 10
init_flag_shift init_has_ioctl_dir = 11
init_flag_shift init_allocate = 27
init_flag_shift init_exchange_data = 28
init_flag_shift init_case_insensitive = 29
init_flag_shift init_vol_rename = 30
init_flag_shift init_xtimes = 31

unfoldable pub init_flag_is_in : Build → InitFlag → Bool
init_flag_is_in b init_async_read = true
init_flag_is_in b init_posix_locks = true
init_flag_is_in b init_file_ops = feature b 9
init_flag_is_in b init_atomic_o_trunc = feature b 9
init_flag_is_in b init_export_support = feature b 10
init_flag_is_in b init_big_writes = feature b 9
init_flag_is_in b init_dont_mask = feature b 12
init_flag_is_in b init_splice_write = feature b 14 && not b.macos
init_flag_is_in b init_splice_move = feature b 14 && not b.macos
init_flag_is_in b init_splice_read = feature b 14 && not b.macos
init_flag_is_in b init_flock_locks = feature b 17
init_flag_is_in b init_has_ioctl_dir = feature b 18
init_flag_is_in b init_allocate = b.macos
init_flag_is_in b init_exchange_data = b.macos
init_flag_is_in b init_case_insensitive = b.macos
init_flag_is_in b init_vol_rename = b.macos
init_flag_is_in b init_xtimes = b.macos

pub init_flag_apart : (f g : InitFlag) → init_flag_shift f ≡ init_flag_shift g → f ≡ g
unfolding init_flag_shift
init_flag_apart init_async_read init_async_read h = refl
init_flag_apart init_posix_locks init_posix_locks h = refl
init_flag_apart init_file_ops init_file_ops h = refl
init_flag_apart init_atomic_o_trunc init_atomic_o_trunc h = refl
init_flag_apart init_export_support init_export_support h = refl
init_flag_apart init_big_writes init_big_writes h = refl
init_flag_apart init_dont_mask init_dont_mask h = refl
init_flag_apart init_splice_write init_splice_write h = refl
init_flag_apart init_splice_move init_splice_move h = refl
init_flag_apart init_splice_read init_splice_read h = refl
init_flag_apart init_flock_locks init_flock_locks h = refl
init_flag_apart init_has_ioctl_dir init_has_ioctl_dir h = refl
init_flag_apart init_allocate init_allocate h = refl
init_flag_apart init_exchange_data init_exchange_data h = refl
init_flag_apart init_case_insensitive init_case_insensitive h = refl
init_flag_apart init_vol_rename init_vol_rename h = refl
init_flag_apart init_xtimes init_xtimes h = refl
init_flag_apart _ _ h = absurd (omega arith)

instance abbrev pub flags_of_init : Flags InitFlag
flags_of_init = record { shift = init_flag_shift; is_in = init_flag_is_in; apart = init_flag_apart }

-- The flags of IOCTL.
pub data IoctlFlag : Type 0 where
  ioctl_compat ioctl_unrestricted ioctl_retry ioctl_bits_32 ioctl_dir : IoctlFlag

unfoldable pub ioctl_flag_shift : IoctlFlag → ℕ
ioctl_flag_shift ioctl_compat = 0
ioctl_flag_shift ioctl_unrestricted = 1
ioctl_flag_shift ioctl_retry = 2
ioctl_flag_shift ioctl_bits_32 = 3
ioctl_flag_shift ioctl_dir = 4

unfoldable pub ioctl_flag_is_in : Build → IoctlFlag → Bool
ioctl_flag_is_in b ioctl_compat = feature b 11
ioctl_flag_is_in b ioctl_unrestricted = feature b 11
ioctl_flag_is_in b ioctl_retry = feature b 11
ioctl_flag_is_in b ioctl_bits_32 = feature b 16
ioctl_flag_is_in b ioctl_dir = feature b 18

pub ioctl_flag_apart : (f g : IoctlFlag) → ioctl_flag_shift f ≡ ioctl_flag_shift g → f ≡ g
unfolding ioctl_flag_shift
ioctl_flag_apart ioctl_compat ioctl_compat h = refl
ioctl_flag_apart ioctl_unrestricted ioctl_unrestricted h = refl
ioctl_flag_apart ioctl_retry ioctl_retry h = refl
ioctl_flag_apart ioctl_bits_32 ioctl_bits_32 h = refl
ioctl_flag_apart ioctl_dir ioctl_dir h = refl
ioctl_flag_apart _ _ h = absurd (omega arith)

instance abbrev pub flags_of_ioctl : Flags IoctlFlag
flags_of_ioctl = record {
  shift = ioctl_flag_shift;
  is_in = ioctl_flag_is_in;
  apart = ioctl_flag_apart;
}
