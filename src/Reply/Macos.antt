-- ===== src/Reply/Macos.antt =====
-- src/reply.rs on macOS: the attributes that are sent there, and `ReplyXTimes`.
pub mod Readback
pub mod Laws
use fuse_rs.Base.{ℕ, ℤ, refl, [], ◌∷◌, Option, none, some}
use fuse_rs.Abi.Layout.{u32, u64, Fields, Struct}
use fuse_rs.Abi.Features.Structs.{FuseGetxtimesOut, fuse_getxtimes_out_struct}
use fuse_rs.Platform.{Libc, SystemTime}
use fuse_rs.Effect.{Outcome, ◌>>=◌, unwrap}
use fuse_rs.Reply.Raw.{ReplyRaw, new, ok, drop}
use fuse_rs.Reply.Raw
use fuse_rs.Reply.Types.{Reply}
use fuse_rs.Reply.Attr.{FileAttr, time_from_system_time, mode_from_kind_and_perm, ◌>>=◌ as ◌>>=?◌}

-- `fuse_attr` of fuse-abi/src/lib.rs on macOS.
pub record FuseAttr : Type 0 where
  pub ino : ℕ
  pub size : ℕ
  pub blocks : ℕ
  pub atime : ℕ
  pub mtime : ℕ
  pub ctime : ℕ
  pub crtime : ℕ
  pub atimensec : ℕ
  pub mtimensec : ℕ
  pub ctimensec : ℕ
  pub crtimensec : ℕ
  pub mode : ℕ
  pub nlink : ℕ
  pub uid : ℕ
  pub gid : ℕ
  pub rdev : ℕ
  pub flags : ℕ

abbrev fuse_attr_to_fields :
    FuseAttr
    → Fields (
        u64 ∷ u64 ∷ u64 ∷ u64 ∷ u64 ∷ u64 ∷ u64 ∷ u32 ∷ u32 ∷ u32 ∷ u32 ∷ u32 ∷ u32 ∷ u32 ∷ u32
        ∷ u32 ∷ u32 ∷ [])
fuse_attr_to_fields t = (
  t.ino,
  (
    t.size,
    (
      t.blocks,
      (
        t.atime,
        (
          t.mtime,
          (
            t.ctime,
            (
              t.crtime,
              (
                t.atimensec,
                (
                  t.mtimensec,
                  (
                    t.ctimensec,
                    (t.crtimensec, (t.mode, (t.nlink, (t.uid, (t.gid, (t.rdev, (t.flags, tt))))))),
                  ),
                ),
              ),
            ),
          ),
        ),
      ),
    ),
  ),
)

abbrev fuse_attr_of_fields :
    Fields (
      u64 ∷ u64 ∷ u64 ∷ u64 ∷ u64 ∷ u64 ∷ u64 ∷ u32 ∷ u32 ∷ u32 ∷ u32 ∷ u32 ∷ u32 ∷ u32 ∷ u32 ∷ u32
      ∷ u32 ∷ [])
    → FuseAttr
fuse_attr_of_fields
      (
        ino,
        (
          size,
          (
            blocks,
            (
              atime,
              (
                mtime,
                (
                  ctime,
                  (
                    crtime,
                    (
                      atimensec,
                      (
                        mtimensec,
                        (
                          ctimensec,
                          (crtimensec, (mode, (nlink, (uid, (gid, (rdev, (flags, _))))))),
                        ),
                      ),
                    ),
                  ),
                ),
              ),
            ),
          ),
        ),
      ) =
    record {
      ino = ino;
      size = size;
      blocks = blocks;
      atime = atime;
      mtime = mtime;
      ctime = ctime;
      crtime = crtime;
      atimensec = atimensec;
      mtimensec = mtimensec;
      ctimensec = ctimensec;
      crtimensec = crtimensec;
      mode = mode;
      nlink = nlink;
      uid = uid;
      gid = gid;
      rdev = rdev;
      flags = flags;
    }

instance abbrev pub fuse_attr_struct : Struct FuseAttr
fuse_attr_struct = record {
  layout =
      u64 ∷ u64 ∷ u64 ∷ u64 ∷ u64 ∷ u64 ∷ u64 ∷ u32 ∷ u32 ∷ u32 ∷ u32 ∷ u32 ∷ u32 ∷ u32 ∷ u32 ∷ u32
      ∷ u32 ∷ [];
  to_fields = fuse_attr_to_fields;
  of_fields = fuse_attr_of_fields;
  of_fields-to_fields = λ t. refl;
  to_fields-of_fields = λ f. refl;
}

pub record ReplyXTimes : Type 0 where
  pub reply : ReplyRaw

abbrev pub xtimes_error : Libc → ReplyXTimes → ℤ → Outcome (Unit {0})
xtimes_error c r err = Raw.error c r.reply err

instance abbrev pub reply_xtimes : Reply ReplyXTimes
reply_xtimes = record {
  create = λ unique sender. record { reply = new unique sender };
  raw = λ r. r.reply;
  error = xtimes_error;
  raw-create = λ unique sender. refl;
  error_raw = λ c r err. refl;
}

module _ (c : Libc) where
  -- `none` is the panic of an `unwrap` at a time before the epoch.
  unfoldable pub fuse_attr_from_attr : FileAttr → Option FuseAttr
  fuse_attr_from_attr attr = time_from_system_time attr.atime >>=? λ atime.
      time_from_system_time attr.mtime >>=? λ mtime. time_from_system_time attr.ctime >>=? λ ctime.
      time_from_system_time attr.crtime >>=? λ crtime. some (record {
        ino = attr.ino;
        size = attr.size;
        blocks = attr.blocks;
        atime = atime.0;
        mtime = mtime.0;
        ctime = ctime.0;
        crtime = crtime.0;
        atimensec = atime.1;
        mtimensec = mtime.1;
        ctimensec = ctime.1;
        crtimensec = crtime.1;
        mode = mode_from_kind_and_perm c attr.kind attr.perm;
        nlink = attr.nlink;
        uid = attr.uid;
        gid = attr.gid;
        rdev = attr.rdev;
        flags = attr.flags;
      })

  -- `ReplyXTimes::xtimes`.
  unfoldable pub xtimes : ReplyXTimes → SystemTime → SystemTime → Outcome (Unit {0})
  xtimes r bkuptime crtime = do
    bkup ← unwrap (time_from_system_time bkuptime) (drop c r.reply)
    cr ← unwrap (time_from_system_time crtime) (drop c r.reply)
    ok c {T = FuseGetxtimesOut} r.reply
        (record { bkuptime = bkup.0; crtime = cr.0; bkuptimensec = bkup.1; crtimensec = cr.1 })
