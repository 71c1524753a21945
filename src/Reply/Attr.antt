-- ===== src/Reply/Attr.antt =====
-- `FileType` and `FileAttr` of src/lib.rs, and how src/reply.rs turns them into the kernel's `fuse_attr`.
-- The fields `crtime` and `flags`, which only macOS sends, are kept and not sent.
pub mod Readback
use fuse_rs.Base.{ℕ, Option, none, some, bit_or}
use fuse_rs.Abi.Structs.{FuseAttr}
use fuse_rs.Platform.{Libc, Duration, SystemTime, duration_since_epoch}
use mathlib.Core.Option

pub data FileType : Type 0 where
  named_pipe char_device block_device directory regular_file symlink socket : FileType

pub record FileAttr : Type 0 where
  pub ino : ℕ
  pub size : ℕ
  pub blocks : ℕ
  pub atime : SystemTime
  pub mtime : SystemTime
  pub ctime : SystemTime
  pub crtime : SystemTime
  pub kind : FileType
  pub perm : ℕ
  pub nlink : ℕ
  pub uid : ℕ
  pub gid : ℕ
  pub rdev : ℕ
  pub flags : ℕ

-- The seconds and nanoseconds since the epoch; `none` is the `SystemTimeError` of an earlier time.
unfoldable pub time_from_system_time : SystemTime → Option (ℕ × ℕ)
time_from_system_time t = Option.map (λ (d : Duration). (d.secs, d.nanos)) (duration_since_epoch t)

infixl 5 ◌>>=◌
abbrev pub ◌>>=◌ : {A B : Type 0} → Option A → (A → Option B) → Option B
none >>= f = none
some a >>= f = f a

module _ (c : Libc) where
  unfoldable pub format_of_kind : FileType → ℕ
  format_of_kind named_pipe = c.s_ififo
  format_of_kind char_device = c.s_ifchr
  format_of_kind block_device = c.s_ifblk
  format_of_kind directory = c.s_ifdir
  format_of_kind regular_file = c.s_ifreg
  format_of_kind symlink = c.s_iflnk
  format_of_kind socket = c.s_ifsock

  -- The mode for a kind of file and its permissions.
  unfoldable pub mode_from_kind_and_perm : FileType → ℕ → ℕ
  unfolding format_of_kind
  mode_from_kind_and_perm kind perm = bit_or (format_of_kind kind) perm

  -- `none` is the panic of an `unwrap` at a time before the epoch.
  unfoldable pub fuse_attr_from_attr : FileAttr → Option FuseAttr
  fuse_attr_from_attr attr = do
    atime ← time_from_system_time attr.atime
    mtime ← time_from_system_time attr.mtime
    ctime ← time_from_system_time attr.ctime
    some (record {
      ino = attr.ino;
      size = attr.size;
      blocks = attr.blocks;
      atime = atime.0;
      mtime = mtime.0;
      ctime = ctime.0;
      atimensec = atime.1;
      mtimensec = mtime.1;
      ctimensec = ctime.1;
      mode = mode_from_kind_and_perm attr.kind attr.perm;
      nlink = attr.nlink;
      uid = attr.uid;
      gid = attr.gid;
      rdev = attr.rdev;
    })
