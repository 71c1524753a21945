-- ===== src/Abi/Structs/Names.antt =====
-- fuse-abi/src/lib.rs: The arguments of the requests on names and inodes.
use fuse_rs.Base.{ℕ, refl, [], ◌∷◌}
use fuse_rs.Abi.Layout.{u32, u64, Fields, Struct}

pub record FuseSetattrIn : Type 0 where
  pub valid : ℕ
  pub padding : ℕ
  pub fh : ℕ
  pub size : ℕ
  pub unused1 : ℕ
  pub atime : ℕ
  pub mtime : ℕ
  pub unused2 : ℕ
  pub atimensec : ℕ
  pub mtimensec : ℕ
  pub unused3 : ℕ
  pub mode : ℕ
  pub unused4 : ℕ
  pub uid : ℕ
  pub gid : ℕ
  pub unused5 : ℕ

abbrev fuse_setattr_in_to_fields :
    FuseSetattrIn
    → Fields (
        u32 ∷ u32 ∷ u64 ∷ u64 ∷ u64 ∷ u64 ∷ u64 ∷ u64 ∷ u32 ∷ u32 ∷ u32 ∷ u32 ∷ u32 ∷ u32 ∷ u32
        ∷ u32 ∷ [])
fuse_setattr_in_to_fields t = (
  t.valid,
  (
    t.padding,
    (
      t.fh,
      (
        t.size,
        (
          t.unused1,
          (
            t.atime,
            (
              t.mtime,
              (
                t.unused2,
                (
                  t.atimensec,
                  (
                    t.mtimensec,
                    (t.unused3, (t.mode, (t.unused4, (t.uid, (t.gid, (t.unused5, tt)))))),
                  ),
                ),
              ),
            ),
          ),
        ),
      ),
    ),
  ),
)

abbrev fuse_setattr_in_of_fields :
    Fields (
      u32 ∷ u32 ∷ u64 ∷ u64 ∷ u64 ∷ u64 ∷ u64 ∷ u64 ∷ u32 ∷ u32 ∷ u32 ∷ u32 ∷ u32 ∷ u32 ∷ u32 ∷ u32
      ∷ [])
    → FuseSetattrIn
fuse_setattr_in_of_fields
      (
        valid,
        (
          padding,
          (
            fh,
            (
              size,
              (
                unused1,
                (
                  atime,
                  (
                    mtime,
                    (
                      unused2,
                      (
                        atimensec,
                        (mtimensec, (unused3, (mode, (unused4, (uid, (gid, (unused5, _))))))),
                      ),
                    ),
                  ),
                ),
              ),
            ),
          ),
        ),
      ) =
    record {
      valid = valid;
      padding = padding;
      fh = fh;
      size = size;
      unused1 = unused1;
      atime = atime;
      mtime = mtime;
      unused2 = unused2;
      atimensec = atimensec;
      mtimensec = mtimensec;
      unused3 = unused3;
      mode = mode;
      unused4 = unused4;
      uid = uid;
      gid = gid;
      unused5 = unused5;
    }

instance abbrev pub fuse_setattr_in_struct : Struct FuseSetattrIn
fuse_setattr_in_struct = record {
  layout =
      u32 ∷ u32 ∷ u64 ∷ u64 ∷ u64 ∷ u64 ∷ u64 ∷ u64 ∷ u32 ∷ u32 ∷ u32 ∷ u32 ∷ u32 ∷ u32 ∷ u32 ∷ u32
      ∷ [];
  to_fields = fuse_setattr_in_to_fields;
  of_fields = fuse_setattr_in_of_fields;
  of_fields-to_fields = λ t. refl;
  to_fields-of_fields = λ f. refl;
}

pub record FuseForgetIn : Type 0 where
  pub nlookup : ℕ

abbrev fuse_forget_in_to_fields : FuseForgetIn → Fields (u64 ∷ [])
fuse_forget_in_to_fields t = (t.nlookup, tt)

abbrev fuse_forget_in_of_fields : Fields (u64 ∷ []) → FuseForgetIn
fuse_forget_in_of_fields (nlookup, _) = record { nlookup = nlookup }

instance abbrev pub fuse_forget_in_struct : Struct FuseForgetIn
fuse_forget_in_struct = record {
  layout = u64 ∷ [];
  to_fields = fuse_forget_in_to_fields;
  of_fields = fuse_forget_in_of_fields;
  of_fields-to_fields = λ t. refl;
  to_fields-of_fields = λ f. refl;
}

pub record FuseMknodIn : Type 0 where
  pub mode : ℕ
  pub rdev : ℕ

abbrev fuse_mknod_in_to_fields : FuseMknodIn → Fields (u32 ∷ u32 ∷ [])
fuse_mknod_in_to_fields t = (t.mode, (t.rdev, tt))

abbrev fuse_mknod_in_of_fields : Fields (u32 ∷ u32 ∷ []) → FuseMknodIn
fuse_mknod_in_of_fields (mode, (rdev, _)) = record { mode = mode; rdev = rdev }

instance abbrev pub fuse_mknod_in_struct : Struct FuseMknodIn
fuse_mknod_in_struct = record {
  layout = u32 ∷ u32 ∷ [];
  to_fields = fuse_mknod_in_to_fields;
  of_fields = fuse_mknod_in_of_fields;
  of_fields-to_fields = λ t. refl;
  to_fields-of_fields = λ f. refl;
}

pub record FuseMkdirIn : Type 0 where
  pub mode : ℕ
  pub padding : ℕ

abbrev fuse_mkdir_in_to_fields : FuseMkdirIn → Fields (u32 ∷ u32 ∷ [])
fuse_mkdir_in_to_fields t = (t.mode, (t.padding, tt))

abbrev fuse_mkdir_in_of_fields : Fields (u32 ∷ u32 ∷ []) → FuseMkdirIn
fuse_mkdir_in_of_fields (mode, (padding, _)) = record { mode = mode; padding = padding }

instance abbrev pub fuse_mkdir_in_struct : Struct FuseMkdirIn
fuse_mkdir_in_struct = record {
  layout = u32 ∷ u32 ∷ [];
  to_fields = fuse_mkdir_in_to_fields;
  of_fields = fuse_mkdir_in_of_fields;
  of_fields-to_fields = λ t. refl;
  to_fields-of_fields = λ f. refl;
}

pub record FuseRenameIn : Type 0 where
  pub newdir : ℕ

abbrev fuse_rename_in_to_fields : FuseRenameIn → Fields (u64 ∷ [])
fuse_rename_in_to_fields t = (t.newdir, tt)

abbrev fuse_rename_in_of_fields : Fields (u64 ∷ []) → FuseRenameIn
fuse_rename_in_of_fields (newdir, _) = record { newdir = newdir }

instance abbrev pub fuse_rename_in_struct : Struct FuseRenameIn
fuse_rename_in_struct = record {
  layout = u64 ∷ [];
  to_fields = fuse_rename_in_to_fields;
  of_fields = fuse_rename_in_of_fields;
  of_fields-to_fields = λ t. refl;
  to_fields-of_fields = λ f. refl;
}

pub record FuseLinkIn : Type 0 where
  pub oldnodeid : ℕ

abbrev fuse_link_in_to_fields : FuseLinkIn → Fields (u64 ∷ [])
fuse_link_in_to_fields t = (t.oldnodeid, tt)

abbrev fuse_link_in_of_fields : Fields (u64 ∷ []) → FuseLinkIn
fuse_link_in_of_fields (oldnodeid, _) = record { oldnodeid = oldnodeid }

instance abbrev pub fuse_link_in_struct : Struct FuseLinkIn
fuse_link_in_struct = record {
  layout = u64 ∷ [];
  to_fields = fuse_link_in_to_fields;
  of_fields = fuse_link_in_of_fields;
  of_fields-to_fields = λ t. refl;
  to_fields-of_fields = λ f. refl;
}

pub record FuseAccessIn : Type 0 where
  pub mask : ℕ
  pub padding : ℕ

abbrev fuse_access_in_to_fields : FuseAccessIn → Fields (u32 ∷ u32 ∷ [])
fuse_access_in_to_fields t = (t.mask, (t.padding, tt))

abbrev fuse_access_in_of_fields : Fields (u32 ∷ u32 ∷ []) → FuseAccessIn
fuse_access_in_of_fields (mask, (padding, _)) = record { mask = mask; padding = padding }

instance abbrev pub fuse_access_in_struct : Struct FuseAccessIn
fuse_access_in_struct = record {
  layout = u32 ∷ u32 ∷ [];
  to_fields = fuse_access_in_to_fields;
  of_fields = fuse_access_in_of_fields;
  of_fields-to_fields = λ t. refl;
  to_fields-of_fields = λ f. refl;
}
