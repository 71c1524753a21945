-- ===== src/Abi/Structs/Attr.antt =====
-- fuse-abi/src/lib.rs: Attributes and entries.
use fuse_rs.Base.{ℕ, refl, [], ◌∷◌}
use fuse_rs.Abi.Layout.{u32, u64, Fields, Struct}

pub record FuseAttr : Type 0 where
  pub ino : ℕ
  pub size : ℕ
  pub blocks : ℕ
  pub atime : ℕ
  pub mtime : ℕ
  pub ctime : ℕ
  pub atimensec : ℕ
  pub mtimensec : ℕ
  pub ctimensec : ℕ
  pub mode : ℕ
  pub nlink : ℕ
  pub uid : ℕ
  pub gid : ℕ
  pub rdev : ℕ

abbrev fuse_attr_to_fields :
    FuseAttr
    → Fields
        (u64 ∷ u64 ∷ u64 ∷ u64 ∷ u64 ∷ u64 ∷ u32 ∷ u32 ∷ u32 ∷ u32 ∷ u32 ∷ u32 ∷ u32 ∷ u32 ∷ [])
fuse_attr_to_fields t = (
  t.ino,
  (
    t.size,
    (
      t.blocks,
      (
        t.atime,
        (
          t.mtime,
          (
            t.ctime,
            (
              t.atimensec,
              (t.mtimensec, (t.ctimensec, (t.mode, (t.nlink, (t.uid, (t.gid, (t.rdev, tt))))))),
            ),
          ),
        ),
      ),
    ),
  ),
)

abbrev fuse_attr_of_fields :
    Fields (u64 ∷ u64 ∷ u64 ∷ u64 ∷ u64 ∷ u64 ∷ u32 ∷ u32 ∷ u32 ∷ u32 ∷ u32 ∷ u32 ∷ u32 ∷ u32 ∷ [])
    → FuseAttr
fuse_attr_of_fields
      (
        ino,
        (
          size,
          (
            blocks,
            (
              atime,
              (
                mtime,
                (
                  ctime,
                  (atimensec, (mtimensec, (ctimensec, (mode, (nlink, (uid, (gid, (rdev, _)))))))),
                ),
              ),
            ),
          ),
        ),
      ) =
    record {
      ino = ino;
      size = size;
      blocks = blocks;
      atime = atime;
      mtime = mtime;
      ctime = ctime;
      atimensec = atimensec;
      mtimensec = mtimensec;
      ctimensec = ctimensec;
      mode = mode;
      nlink = nlink;
      uid = uid;
      gid = gid;
      rdev = rdev;
    }

instance abbrev pub fuse_attr_struct : Struct FuseAttr
fuse_attr_struct = record {
  layout = u64 ∷ u64 ∷ u64 ∷ u64 ∷ u64 ∷ u64 ∷ u32 ∷ u32 ∷ u32 ∷ u32 ∷ u32 ∷ u32 ∷ u32 ∷ u32 ∷ [];
  to_fields = fuse_attr_to_fields;
  of_fields = fuse_attr_of_fields;
  of_fields-to_fields = λ t. refl;
  to_fields-of_fields = λ f. refl;
}

pub record FuseEntryOut : Type 0 where
  pub nodeid : ℕ
  pub generation : ℕ
  pub entry_valid : ℕ
  pub attr_valid : ℕ
  pub entry_valid_nsec : ℕ
  pub attr_valid_nsec : ℕ
  pub attr : FuseAttr

abbrev fuse_entry_out_to_fields :
    FuseEntryOut → Fields (u64 ∷ u64 ∷ u64 ∷ u64 ∷ u32 ∷ u32 ∷ fuse_attr_struct.layout)
fuse_entry_out_to_fields t = (
  t.nodeid,
  (
    t.generation,
    (
      t.entry_valid,
      (t.attr_valid, (t.entry_valid_nsec, (t.attr_valid_nsec, fuse_attr_struct.to_fields t.attr))),
    ),
  ),
)

abbrev fuse_entry_out_of_fields :
    Fields (u64 ∷ u64 ∷ u64 ∷ u64 ∷ u32 ∷ u32 ∷ fuse_attr_struct.layout) → FuseEntryOut
fuse_entry_out_of_fields
      (
        nodeid,
        (generation, (entry_valid, (attr_valid, (entry_valid_nsec, (attr_valid_nsec, attr))))),
      ) =
    record {
      nodeid = nodeid;
      generation = generation;
      entry_valid = entry_valid;
      attr_valid = attr_valid;
      entry_valid_nsec = entry_valid_nsec;
      attr_valid_nsec = attr_valid_nsec;
      attr = fuse_attr_struct.of_fields attr;
    }

instance abbrev pub fuse_entry_out_struct : Struct FuseEntryOut
fuse_entry_out_struct = record {
  layout = u64 ∷ u64 ∷ u64 ∷ u64 ∷ u32 ∷ u32 ∷ fuse_attr_struct.layout;
  to_fields = fuse_entry_out_to_fields;
  of_fields = fuse_entry_out_of_fields;
  of_fields-to_fields = λ t. refl;
  to_fields-of_fields = λ f. refl;
}

pub record FuseAttrOut : Type 0 where
  pub attr_valid : ℕ
  pub attr_valid_nsec : ℕ
  pub dummy : ℕ
  pub attr : FuseAttr

abbrev fuse_attr_out_to_fields : FuseAttrOut → Fields (u64 ∷ u32 ∷ u32 ∷ fuse_attr_struct.layout)
fuse_attr_out_to_fields t =
    (t.attr_valid, (t.attr_valid_nsec, (t.dummy, fuse_attr_struct.to_fields t.attr)))

abbrev fuse_attr_out_of_fields : Fields (u64 ∷ u32 ∷ u32 ∷ fuse_attr_struct.layout) → FuseAttrOut
fuse_attr_out_of_fields (attr_valid, (attr_valid_nsec, (dummy, attr))) = record {
  attr_valid = attr_valid;
  attr_valid_nsec = attr_valid_nsec;
  dummy = dummy;
  attr = fuse_attr_struct.of_fields attr;
}

instance abbrev pub fuse_attr_out_struct : Struct FuseAttrOut
fuse_attr_out_struct = record {
  layout = u64 ∷ u32 ∷ u32 ∷ fuse_attr_struct.layout;
  to_fields = fuse_attr_out_to_fields;
  of_fields = fuse_attr_out_of_fields;
  of_fields-to_fields = λ t. refl;
  to_fields-of_fields = λ f. refl;
}
