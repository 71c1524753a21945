-- ===== src/Reply/Macos/Readback.antt =====
-- What the kernel reads in what src/reply.rs sends on macOS.
use fuse_rs.Base.{ℕ, ◌^◌, ◌<◌, ◌≡◌, refl, Option, some, arith, Option-cases, inl, inr}
use fuse_rs.Abi.Structs
use fuse_rs.Abi.Layout.{size_of, end_offset, alignment, padding, scalar_size}
use fuse_rs.Abi.Features.Structs.{FuseGetxtimesOut, fuse_getxtimes_out_struct}
use fuse_rs.Platform.{Libc, SystemTime}
use fuse_rs.Effect.{ChannelSender, after_nil}
use fuse_rs.Ll.Operation.Wire.{InRange}
use fuse_rs.Reply.Types.{create}
use fuse_rs.Reply.Attr.{FileAttr, time_from_system_time}
use fuse_rs.Reply.Attr
use fuse_rs.Reply.Attr.Readback.{
  HasFormats, read_attr, read_attr-fuse_attr_from_attr, since_1970, time-read,
}
use fuse_rs.Reply.Typed.Readback.{Delivers, ok-Delivers}
use fuse_rs.Reply.Macos.{FuseAttr, fuse_attr_from_attr, xtimes, reply_xtimes}

-- The fields that are sent outside macOS too.
abbrev shared : FuseAttr → Structs.FuseAttr
shared a = record {
  ino = a.ino;
  size = a.size;
  blocks = a.blocks;
  atime = a.atime;
  mtime = a.mtime;
  ctime = a.ctime;
  atimensec = a.atimensec;
  mtimensec = a.mtimensec;
  ctimensec = a.ctimensec;
  mode = a.mode;
  nlink = a.nlink;
  uid = a.uid;
  gid = a.gid;
  rdev = a.rdev;
}

-- All the attributes, as a reader makes them of what is sent.
unfoldable pub read_all : Libc → FuseAttr → Option FileAttr
read_all c a = read_attr c (shared a) (since_1970 a.crtime a.crtimensec) a.flags

module _ (c : Libc) where
  shared-fuse_attr_from_attr :
      (attr : FileAttr) (a : FuseAttr)
      → fuse_attr_from_attr c attr ≡ some a
      → (Attr.fuse_attr_from_attr c attr ≡ some (shared a))
        × (time_from_system_time attr.crtime ≡ some (a.crtime, a.crtimensec))
        × (a.flags ≡ attr.flags)
  unfolding fuse_attr_from_attr Attr.fuse_attr_from_attr
  shared-fuse_attr_from_attr attr a e = elim (Option-cases (time_from_system_time attr.atime)) [
    | inl early ↦ absurd (ground (arith, early))
    | inr (atime, ha) ↦ elim (Option-cases (time_from_system_time attr.mtime)) [
      | inl early ↦ absurd (ground (arith, early, ha))
      | inr (mtime, hm) ↦ elim (Option-cases (time_from_system_time attr.ctime)) [
        | inl early ↦ absurd (ground (arith, early, ha, hm))
        | inr (ctime, hc) ↦ elim (Option-cases (time_from_system_time attr.crtime)) [
          | inl early ↦ absurd (ground (arith, early, ha, hm, hc))
          | inr (crtime, hr) ↦ ground (arith, ha, hm, hc, hr)
        ]
      ]
    ]
  ]

  -- On macOS all the attributes can be read back from whatever `fuse_attr_from_attr` returns, when
  -- the permissions are below 4096 and the constants of the kinds of file are different bits above
  -- the permissions.
  pub read_all-fuse_attr_from_attr :
      (known : HasFormats c) (attr : FileAttr) (a : FuseAttr)
      → attr.perm < 4096
      → fuse_attr_from_attr c attr ≡ some a
      → read_all c a ≡ some attr
  unfolding read_all
  read_all-fuse_attr_from_attr known attr a h e =
      let (common, cr, flags) = shared-fuse_attr_from_attr attr a e in
      rw (time-read attr.crtime (a.crtime, a.crtimensec) cr, flags)
        (read_attr-fuse_attr_from_attr c known attr (shared a) h common)

-- What `xtimes` sends of two times that are not before the epoch.
abbrev pub xtimes_out : ℕ × ℕ → ℕ × ℕ → FuseGetxtimesOut
xtimes_out bkup cr = record {
  bkuptime = bkup.0;
  crtime = cr.0;
  bkuptimensec = bkup.1;
  crtimensec = cr.1;
}

size_of_xtimes : size_of fuse_getxtimes_out_struct.layout ≡ 24
unfolding size_of end_offset alignment padding scalar_size
size_of_xtimes = refl

module _ (c : Libc) (s : ChannelSender) (unique : ℕ) (fits : unique < 2 ^ 64) where
  -- `xtimes` on a new reply delivers both times, when they are not before the epoch and in range.
  pub xtimes-Delivers :
      (bkuptime crtime : SystemTime) (bkup cr : ℕ × ℕ)
      → time_from_system_time bkuptime ≡ some bkup
      → time_from_system_time crtime ≡ some cr
      → InRange (xtimes_out bkup cr)
      → (t : FuseGetxtimesOut) × (since_1970 t.bkuptime t.bkuptimensec ≡ bkuptime)
        × (since_1970 t.crtime t.crtimensec ≡ crtime)
        × Delivers unique t (xtimes c (create unique s) bkuptime crtime)
  unfolding xtimes
  xtimes-Delivers bkuptime crtime bkup cr hb hc h = (
    xtimes_out bkup cr,
    time-read bkuptime bkup hb,
    time-read crtime cr hc,
    rw (hb, hc, after_nil, after_nil)
        (ok-Delivers c s unique fits (xtimes_out bkup cr) h (omega (arith, size_of_xtimes))),
  )
