-- ===== src/Request/Args/Macos.antt =====
-- The arguments that src/request.rs computes for SETATTR and SETXATTR on macOS.
pub mod Asked
use mathlib.Core.Option
use fuse_rs.Base.{ℕ, ◌^◌, Option, none, some}
use fuse_rs.Abi.Structs.{FuseSetattrIn}
use fuse_rs.Abi.Features.Structs.{MacosSetattrIn, MacosSetxattrIn}
use fuse_rs.Platform.{SystemTime}
use fuse_rs.Filesystem.{SetAttr}
use fuse_rs.Request.Args.{flagged, flagged_time, set_attr_args}

abbrev pub fattr_crtime : ℕ
fattr_crtime = 2 ^ 28

abbrev pub fattr_chgtime : ℕ
fattr_chgtime = 2 ^ 29

abbrev pub fattr_bkuptime : ℕ
fattr_bkuptime = 2 ^ 30

abbrev pub fattr_flags : ℕ
fattr_flags = 2 ^ 31

-- The four arguments in the order of `get_macos_setattr`.
pub record MacosSetattr : Type 0 where
  pub crtime : Option SystemTime
  pub chgtime : Option SystemTime
  pub bkuptime : Option SystemTime
  pub flags : Option ℕ

-- The times, where no panic stopped their computation.
macos_times :
    Option ℕ
    → Option (Option SystemTime)
    → Option (Option SystemTime)
    → Option (Option SystemTime)
    → Option MacosSetattr
macos_times flags none chgtime bkuptime = none
macos_times flags (some crtime) none bkuptime = none
macos_times flags (some crtime) (some chgtime) none = none
macos_times flags (some crtime) (some chgtime) (some bkuptime) =
    some (record { crtime = crtime; chgtime = chgtime; bkuptime = bkuptime; flags = flags })

-- `get_macos_setattr`; `none` is a panic.
unfoldable pub get_macos_setattr : MacosSetattrIn → Option MacosSetattr
unfolding macos_times
get_macos_setattr arg =
    macos_times (flagged arg.valid fattr_flags arg.flags)
      (flagged_time arg.valid fattr_crtime arg.crtime arg.crtimensec)
      (flagged_time arg.valid fattr_chgtime arg.chgtime arg.chgtimensec)
      (flagged_time arg.valid fattr_bkuptime arg.bkuptime arg.bkuptimensec)

-- The fields that SETATTR has on every target.
abbrev pub every_target : MacosSetattrIn → FuseSetattrIn
every_target arg = record {
  valid = arg.valid;
  padding = arg.padding;
  fh = arg.fh;
  size = arg.size;
  unused1 = arg.unused1;
  atime = arg.atime;
  mtime = arg.mtime;
  unused2 = arg.unused2;
  atimensec = arg.atimensec;
  mtimensec = arg.mtimensec;
  unused3 = arg.unused3;
  mode = arg.mode;
  unused4 = arg.unused4;
  uid = arg.uid;
  gid = arg.gid;
  unused5 = arg.unused5;
}

abbrev pub with_macos : SetAttr → MacosSetattr → SetAttr
with_macos a m = record a {
  crtime = m.crtime;
  chgtime = m.chgtime;
  bkuptime = m.bkuptime;
  flags = m.flags;
}

both : Option SetAttr → Option MacosSetattr → Option SetAttr
both none m = none
both (some a) none = none
both (some a) (some m) = some (with_macos a m)

-- The arguments of `setattr` on macOS; `none` is a panic.
unfoldable pub macos_set_attr_args : MacosSetattrIn → Option SetAttr
unfolding both
macos_set_attr_args arg = both (set_attr_args (every_target arg)) (get_macos_setattr arg)

-- `get_position` on macOS.
unfoldable pub get_position : MacosSetxattrIn → ℕ
get_position arg = arg.position
