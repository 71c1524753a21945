-- ===== src/Abi/Features/Structs/Macos.antt =====
-- fuse-abi/src/lib.rs: the arguments that have more fields on macOS (with ABI 7.8).
use fuse_rs.Base.{ℕ, refl, [], ◌∷◌}
use fuse_rs.Abi.Layout.{u32, u64, Fields, Struct}

pub record MacosSetattrIn : Type 0 where
  pub valid : ℕ
  pub padding : ℕ
  pub fh : ℕ
  pub size : ℕ
  pub unused1 : ℕ
  pub atime : ℕ
  pub mtime : ℕ
  pub unused2 : ℕ
  pub atimensec : ℕ
  pub mtimensec : ℕ
  pub unused3 : ℕ
  pub mode : ℕ
  pub unused4 : ℕ
  pub uid : ℕ
  pub gid : ℕ
  pub unused5 : ℕ
  pub bkuptime : ℕ
  pub chgtime : ℕ
  pub crtime : ℕ
  pub bkuptimensec : ℕ
  pub chgtimensec : ℕ
  pub crtimensec : ℕ
  pub flags : ℕ

abbrev macos_setattr_in_to_fields :
    MacosSetattrIn
    → Fields (
        u32 ∷ u32 ∷ u64 ∷ u64 ∷ u64 ∷ u64 ∷ u64 ∷ u64 ∷ u32 ∷ u32 ∷ u32 ∷ u32 ∷ u32 ∷ u32 ∷ u32
        ∷ u32 ∷ u64 ∷ u64 ∷ u64 ∷ u32 ∷ u32 ∷ u32 ∷ u32 ∷ [])
macos_setattr_in_to_fields t = (
  t.valid,
  (
    t.padding,
    (
      t.fh,
      (
        t.size,
        (
          t.unused1,
          (
            t.atime,
            (
              t.mtime,
              (
                t.unused2,
                (
                  t.atimensec,
                  (
                    t.mtimensec,
                    (
                      t.unused3,
                      (
                        t.mode,
                        (
                          t.unused4,
                          (
                            t.uid,
                            (
                              t.gid,
                              (
                                t.unused5,
                                (
                                  t.bkuptime,
                                  (
                                    t.chgtime,
                                    (
                                      t.crtime,
                                      (
                                        t.bkuptimensec,
                                        (t.chgtimensec, (t.crtimensec, (t.flags, tt))),
                                      ),
                                    ),
                                  ),
                                ),
                              ),
                            ),
                          ),
                        ),
                      ),
                    ),
                  ),
                ),
              ),
            ),
          ),
        ),
      ),
    ),
  ),
)

abbrev macos_setattr_in_of_fields :
    Fields (
      u32 ∷ u32 ∷ u64 ∷ u64 ∷ u64 ∷ u64 ∷ u64 ∷ u64 ∷ u32 ∷ u32 ∷ u32 ∷ u32 ∷ u32 ∷ u32 ∷ u32 ∷ u32
      ∷ u64 ∷ u64 ∷ u64 ∷ u32 ∷ u32 ∷ u32 ∷ u32 ∷ [])
    → MacosSetattrIn
macos_setattr_in_of_fields
      (
        valid,
        (
          padding,
          (
            fh,
            (
              size,
              (
                unused1,
                (
                  atime,
                  (
                    mtime,
                    (
                      unused2,
                      (
                        atimensec,
                        (
                          mtimensec,
                          (
                            unused3,
                            (
                              mode,
                              (
                                unused4,
                                (
                                  uid,
                                  (
                                    gid,
                                    (
                                      unused5,
                                      (
                                        bkuptime,
                                        (
                                          chgtime,
                                          (
                                            crtime,
                                            (bkuptimensec, (chgtimensec, (crtimensec, (flags, _)))),
                                          ),
                                        ),
                                      ),
                                    ),
                                  ),
                                ),
                              ),
                            ),
                          ),
                        ),
                      ),
                    ),
                  ),
                ),
              ),
            ),
          ),
        ),
      ) =
    record {
      valid = valid;
      padding = padding;
      fh = fh;
      size = size;
      unused1 = unused1;
      atime = atime;
      mtime = mtime;
      unused2 = unused2;
      atimensec = atimensec;
      mtimensec = mtimensec;
      unused3 = unused3;
      mode = mode;
      unused4 = unused4;
      uid = uid;
      gid = gid;
      unused5 = unused5;
      bkuptime = bkuptime;
      chgtime = chgtime;
      crtime = crtime;
      bkuptimensec = bkuptimensec;
      chgtimensec = chgtimensec;
      crtimensec = crtimensec;
      flags = flags;
    }

instance abbrev pub macos_setattr_in_struct : Struct MacosSetattrIn
macos_setattr_in_struct = record {
  layout =
      u32 ∷ u32 ∷ u64 ∷ u64 ∷ u64 ∷ u64 ∷ u64 ∷ u64 ∷ u32 ∷ u32 ∷ u32 ∷ u32 ∷ u32 ∷ u32 ∷ u32 ∷ u32
      ∷ u64 ∷ u64 ∷ u64 ∷ u32 ∷ u32 ∷ u32 ∷ u32 ∷ [];
  to_fields = macos_setattr_in_to_fields;
  of_fields = macos_setattr_in_of_fields;
  of_fields-to_fields = λ t. refl;
  to_fields-of_fields = λ f. refl;
}

pub record MacosSetxattrIn : Type 0 where
  pub size : ℕ
  pub flags : ℕ
  pub position : ℕ
  pub padding : ℕ

abbrev macos_setxattr_in_to_fields : MacosSetxattrIn → Fields (u32 ∷ u32 ∷ u32 ∷ u32 ∷ [])
macos_setxattr_in_to_fields t = (t.size, (t.flags, (t.position, (t.padding, tt))))

abbrev macos_setxattr_in_of_fields : Fields (u32 ∷ u32 ∷ u32 ∷ u32 ∷ []) → MacosSetxattrIn
macos_setxattr_in_of_fields (size, (flags, (position, (padding, _)))) = record {
  size = size;
  flags = flags;
  position = position;
  padding = padding;
}

instance abbrev pub macos_setxattr_in_struct : Struct MacosSetxattrIn
macos_setxattr_in_struct = record {
  layout = u32 ∷ u32 ∷ u32 ∷ u32 ∷ [];
  to_fields = macos_setxattr_in_to_fields;
  of_fields = macos_setxattr_in_of_fields;
  of_fields-to_fields = λ t. refl;
  to_fields-of_fields = λ f. refl;
}
