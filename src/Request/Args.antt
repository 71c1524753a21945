-- ===== src/Request/Args.antt =====
-- The arguments that src/request.rs computes from flag words: the optional arguments of SETATTR, and
-- the Boolean ones of RELEASE, FSYNC and FSYNCDIR.
pub mod Bits
pub mod Macos
use mathlib.Core.Option
use fuse_rs.Base.{ℕ, Bool, true, false, Option, none, some, bit_and, ◌==◌, if◌then◌else◌}
use fuse_rs.Abi.Consts.{
  fattr_mode, fattr_uid, fattr_gid, fattr_size, fattr_atime, fattr_mtime, fattr_fh,
}
use fuse_rs.Abi.Structs.{FuseSetattrIn}
use fuse_rs.Platform.{SystemTime, duration_new, epoch_add}
use fuse_rs.Filesystem.{SetAttr}

-- `match word & bit { 0 => None, _ => Some(a) }`.
unfoldable pub flagged : {A : Type 0} → ℕ → ℕ → A → Option A
flagged word bit a = if bit_and word bit == 0 then none else some a

-- `match word & bit { 0 => false, _ => true }`.
unfoldable pub flag : ℕ → ℕ → Bool
flag word bit = if bit_and word bit == 0 then false else true

-- `UNIX_EPOCH + Duration::new(secs, nanos)`; `none` is its panic.
unfoldable pub epoch_plus : ℕ → ℕ → Option SystemTime
epoch_plus secs nanos = elim (duration_new secs nanos) [ none ↦ none | some d ↦ epoch_add d ]

-- A time that is there only if its bit is set; only then can computing it panic.
unfoldable pub flagged_time : ℕ → ℕ → ℕ → ℕ → Option (Option SystemTime)
flagged_time word bit secs nanos =
    if bit_and word bit == 0 then some none else Option.map some (epoch_plus secs nanos)

set_attr_with :
    FuseSetattrIn → Option (Option SystemTime) → Option (Option SystemTime) → Option SetAttr
unfolding flagged
set_attr_with arg none mtime = none
set_attr_with arg (some atime) none = none
set_attr_with arg (some atime) (some mtime) = some (record {
  mode = flagged arg.valid fattr_mode arg.mode;
  uid = flagged arg.valid fattr_uid arg.uid;
  gid = flagged arg.valid fattr_gid arg.gid;
  size = flagged arg.valid fattr_size arg.size;
  atime = atime;
  mtime = mtime;
  fh = flagged arg.valid fattr_fh arg.fh;
  crtime = none;
  chgtime = none;
  bkuptime = none;
  flags = none;
})

-- The arguments of `setattr`; `none` is a panic.
unfoldable pub set_attr_args : FuseSetattrIn → Option SetAttr
unfolding set_attr_with
set_attr_args arg =
    set_attr_with arg (flagged_time arg.valid fattr_atime arg.atime arg.atimensec)
      (flagged_time arg.valid fattr_mtime arg.mtime arg.mtimensec)
