-- ===== src/Abi/Features/Structs/Cuse.antt =====
-- fuse-abi/src/lib.rs, of builds with features or on macOS: the structs of CUSE_INIT.
use fuse_rs.Base.{ℕ, refl, [], ◌∷◌, replicate}
use fuse_rs.Abi.Layout.{u32, Fields, Struct}

pub record CuseInitIn : Type 0 where
  pub major : ℕ
  pub minor : ℕ
  pub unused : ℕ
  pub flags : ℕ

abbrev cuse_init_in_to_fields : CuseInitIn → Fields (u32 ∷ u32 ∷ u32 ∷ u32 ∷ [])
cuse_init_in_to_fields t = (t.major, (t.minor, (t.unused, (t.flags, tt))))

abbrev cuse_init_in_of_fields : Fields (u32 ∷ u32 ∷ u32 ∷ u32 ∷ []) → CuseInitIn
cuse_init_in_of_fields (major, (minor, (unused, (flags, _)))) = record {
  major = major;
  minor = minor;
  unused = unused;
  flags = flags;
}

instance abbrev pub cuse_init_in_struct : Struct CuseInitIn
cuse_init_in_struct = record {
  layout = u32 ∷ u32 ∷ u32 ∷ u32 ∷ [];
  to_fields = cuse_init_in_to_fields;
  of_fields = cuse_init_in_of_fields;
  of_fields-to_fields = λ t. refl;
  to_fields-of_fields = λ f. refl;
}

pub record CuseInitOut : Type 0 where
  pub major : ℕ
  pub minor : ℕ
  pub unused : ℕ
  pub flags : ℕ
  pub max_read : ℕ
  pub max_write : ℕ
  pub dev_major : ℕ
  pub dev_minor : ℕ
  pub spare : Fields (replicate 10 u32)

abbrev cuse_init_out_to_fields :
    CuseInitOut → Fields (u32 ∷ u32 ∷ u32 ∷ u32 ∷ u32 ∷ u32 ∷ u32 ∷ u32 ∷ replicate 10 u32)
cuse_init_out_to_fields t = (
  t.major,
  (
    t.minor,
    (t.unused, (t.flags, (t.max_read, (t.max_write, (t.dev_major, (t.dev_minor, t.spare)))))),
  ),
)

abbrev cuse_init_out_of_fields :
    Fields (u32 ∷ u32 ∷ u32 ∷ u32 ∷ u32 ∷ u32 ∷ u32 ∷ u32 ∷ replicate 10 u32) → CuseInitOut
cuse_init_out_of_fields
      (
        major,
        (minor, (unused, (flags, (max_read, (max_write, (dev_major, (dev_minor, spare))))))),
      ) =
    record {
      major = major;
      minor = minor;
      unused = unused;
      flags = flags;
      max_read = max_read;
      max_write = max_write;
      dev_major = dev_major;
      dev_minor = dev_minor;
      spare = spare;
    }

instance abbrev pub cuse_init_out_struct : Struct CuseInitOut
cuse_init_out_struct = record {
  layout = u32 ∷ u32 ∷ u32 ∷ u32 ∷ u32 ∷ u32 ∷ u32 ∷ u32 ∷ replicate 10 u32;
  to_fields = cuse_init_out_to_fields;
  of_fields = cuse_init_out_of_fields;
  of_fields-to_fields = λ t. refl;
  to_fields-of_fields = λ f. refl;
}
