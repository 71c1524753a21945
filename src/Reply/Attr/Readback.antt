-- ===== src/Reply/Attr/Readback.antt =====
-- What can be read back from the `fuse_attr` that src/reply.rs makes of a `FileAttr`.
use fuse_rs.Base.{
  ℕ, ◌-◌, ◌+◌, ◌*◌, ◌/◌, ◌%◌, ◌^◌, ◌<◌, ◌≡◌, refl, ap, ◌∙◌, ◌⊎◌, inl, inr, pos, List, [], ◌∷◌,
  Option, none, some, arith, Bool-cases, Option-cases, ==_iff, if◌then◌else◌, ◌==◌, bit_or,
}
use fuse_rs.Base.Bits.{bit_or_fields}
use fuse_rs.Abi.Structs.{FuseAttr}
use fuse_rs.Platform.{Libc, SystemTime, duration_since_epoch}
use fuse_rs.Reply.Attr.{
  FileType, FileAttr, named_pipe, char_device, block_device, directory, regular_file, symlink,
  socket, time_from_system_time, format_of_kind, mode_from_kind_and_perm, fuse_attr_from_attr,
}

-- What POSIX says of the constants for the kinds of file: they are bits above the permissions, and
-- different for different kinds.
pub record HasFormats (c : Libc) : Type 0 where
  pub above : (kind : FileType) → format_of_kind c kind % 4096 ≡ 0
  pub differ :
      (kind kind' : FileType) → format_of_kind c kind ≡ format_of_kind c kind' → kind ≡ kind'

abbrev kinds : List FileType
kinds = named_pipe ∷ char_device ∷ block_device ∷ directory ∷ regular_file ∷ symlink ∷ socket ∷ []

module _ (c : Libc) where
  abbrev kind_among : List FileType → ℕ → Option FileType
  kind_among [] format = none
  kind_among (kind ∷ more) format =
      let rest = kind_among more format in
      if format_of_kind c kind == format then some kind else rest

  -- The kind of file that a mode is of, as a reader of the mode tells it.
  unfoldable pub kind_of_mode : ℕ → Option FileType
  kind_of_mode mode = kind_among kinds (mode - mode % 4096)

abbrev pub since_1970 : ℕ → ℕ → SystemTime
since_1970 secs nanos = record { secs = pos secs; nanos = nanos }

module _ (c : Libc) where
  read_as : FuseAttr → SystemTime → ℕ → Option FileType → Option FileAttr
  read_as a crtime flags none = none
  read_as a crtime flags (some kind) = some (record {
    ino = a.ino;
    size = a.size;
    blocks = a.blocks;
    atime = since_1970 a.atime a.atimensec;
    mtime = since_1970 a.mtime a.mtimensec;
    ctime = since_1970 a.ctime a.ctimensec;
    crtime = crtime;
    kind = kind;
    perm = a.mode % 4096;
    nlink = a.nlink;
    uid = a.uid;
    gid = a.gid;
    rdev = a.rdev;
    flags = flags;
  })

  -- The attributes that a reader makes of a `fuse_attr`, given the two that it does not hold.
  unfoldable pub read_attr : FuseAttr → SystemTime → ℕ → Option FileAttr
  unfolding read_as
  read_attr a crtime flags = read_as a crtime flags (kind_of_mode c a.mode)

abbrev Among : FileType → List FileType → Type 0
Among x [] = ⊥
Among x (kind ∷ more) = (x ≡ kind) ⊎ Among x more

among_kinds : (x : FileType) → Among x kinds
among_kinds named_pipe = inl refl
among_kinds char_device = inr (inl refl)
among_kinds block_device = inr (inr (inl refl))
among_kinds directory = inr (inr (inr (inl refl)))
among_kinds regular_file = inr (inr (inr (inr (inl refl))))
among_kinds symlink = inr (inr (inr (inr (inr (inl refl)))))
among_kinds socket = inr (inr (inr (inr (inr (inr (inl refl))))))

pub time-read :
    (t : SystemTime) (s : ℕ × ℕ) → time_from_system_time t ≡ some s → since_1970 s.0 s.1 ≡ t
unfolding time_from_system_time duration_since_epoch
time-read t s h = ground arith

module _ (c : Libc) (known : HasFormats c) where
  kind_among-found :
      (x : FileType) (ks : List FileType)
      → Among x ks
      → kind_among c ks (format_of_kind c x) ≡ some x
  kind_among-found x [] m = absurd m
  kind_among-found x (k ∷ ks) m = elim (Bool-cases (format_of_kind c k == format_of_kind c x)) [
    | inl same ↦ rw same (ap some (known.differ k x ((==_iff _ _).0 same)))
    | inr other ↦ elim m [
      | inl e ↦ absurd (ground (arith, e))
      | inr later ↦ rw other (kind_among-found x ks later)
    ]
  ]

  mode_lem :
      (kind : FileType) (perm : ℕ)
      → perm < 4096
      → mode_from_kind_and_perm c kind perm ≡ format_of_kind c kind + perm
  unfolding mode_from_kind_and_perm
  mode_lem kind perm h =
      let f = format_of_kind c kind in
      let whole : f ≡ f / 4096 * 2 ^ 12 = omega (arith, known.above kind) in
      ap (λ f. bit_or f perm) whole ∙ bit_or_fields 12 (f / 4096) perm h ∙ omega (arith, whole)

  mode-read :
      (kind : FileType) (perm : ℕ)
      → perm < 4096
      → (kind_of_mode c (mode_from_kind_and_perm c kind perm) ≡ some kind)
        × (mode_from_kind_and_perm c kind perm % 4096 ≡ perm)
  unfolding kind_of_mode
  mode-read kind perm h =
      let m = mode_from_kind_and_perm c kind perm in
      let format : m - m % 4096 ≡ format_of_kind c kind =
        omega (arith, mode_lem kind perm h, known.above kind) in
      (
        rw format (kind_among-found kind kinds (among_kinds kind)),
        omega (arith, mode_lem kind perm h, known.above kind),
      )

  made : FileAttr → ℕ × ℕ → ℕ × ℕ → ℕ × ℕ → FuseAttr
  made attr atime mtime ctime = record {
    ino = attr.ino;
    size = attr.size;
    blocks = attr.blocks;
    atime = atime.0;
    mtime = mtime.0;
    ctime = ctime.0;
    atimensec = atime.1;
    mtimensec = mtime.1;
    ctimensec = ctime.1;
    mode = mode_from_kind_and_perm c attr.kind attr.perm;
    nlink = attr.nlink;
    uid = attr.uid;
    gid = attr.gid;
    rdev = attr.rdev;
  }

  read_attr-made :
      (attr : FileAttr) (atime mtime ctime : ℕ × ℕ)
      → attr.perm < 4096
      → time_from_system_time attr.atime ≡ some atime
      → time_from_system_time attr.mtime ≡ some mtime
      → time_from_system_time attr.ctime ≡ some ctime
      → read_attr c (made attr atime mtime ctime) attr.crtime attr.flags ≡ some attr
  unfolding read_attr made
  read_attr-made attr atime mtime ctime h ha hm hc =
      let (kind, perm) = mode-read attr.kind attr.perm h in
      rw
        (
          kind,
          perm,
          time-read attr.atime atime ha,
          time-read attr.mtime mtime hm,
          time-read attr.ctime ctime hc,
        )
        refl

  made_cases :
      (attr : FileAttr) (a : FuseAttr)
      → fuse_attr_from_attr c attr ≡ some a
      → (atime : ℕ × ℕ) × (mtime : ℕ × ℕ) × (ctime : ℕ × ℕ) × (time_from_system_time attr.atime
          ≡ some atime)
        × (time_from_system_time attr.mtime ≡ some mtime)
        × (time_from_system_time attr.ctime ≡ some ctime)
        × (a ≡ made attr atime mtime ctime)
  unfolding fuse_attr_from_attr made
  made_cases attr a e = elim (Option-cases (time_from_system_time attr.atime)) [
    | inl early ↦ absurd (ground (arith, early))
    | inr (atime, ha) ↦ elim (Option-cases (time_from_system_time attr.mtime)) [
      | inl early ↦ absurd (ground (arith, early, ha))
      | inr (mtime, hm) ↦ elim (Option-cases (time_from_system_time attr.ctime)) [
        | inl early ↦ absurd (ground (arith, early, ha, hm))
        | inr (ctime, hc) ↦ (atime, mtime, ctime, ha, hm, hc, ground (arith, ha, hm, hc))
      ]
    ]
  ]

  -- Whatever `fuse_attr_from_attr` returns, all the attributes but crtime and flags can be read
  -- back from it, when the permissions are below 4096 and the constants of the kinds of file are
  -- different bits above the permissions.
  pub read_attr-fuse_attr_from_attr :
      (attr : FileAttr) (a : FuseAttr)
      → attr.perm < 4096
      → fuse_attr_from_attr c attr ≡ some a
      → read_attr c a attr.crtime attr.flags ≡ some attr
  read_attr-fuse_attr_from_attr attr a h e =
      let (atime, mtime, ctime, ha, hm, hc, same) = made_cases attr a e in
      rw same (read_attr-made attr atime mtime ctime h ha hm hc)
