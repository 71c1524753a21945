-- ===== src/Abi/Structs/Xattr.antt =====
-- fuse-abi/src/lib.rs: Syncing, and extended attributes.
use fuse_rs.Base.{ℕ, refl, [], ◌∷◌}
use fuse_rs.Abi.Layout.{u32, u64, Fields, Struct}

pub record FuseFsyncIn : Type 0 where
  pub fh : ℕ
  pub fsync_flags : ℕ
  pub padding : ℕ

abbrev fuse_fsync_in_to_fields : FuseFsyncIn → Fields (u64 ∷ u32 ∷ u32 ∷ [])
fuse_fsync_in_to_fields t = (t.fh, (t.fsync_flags, (t.padding, tt)))

abbrev fuse_fsync_in_of_fields : Fields (u64 ∷ u32 ∷ u32 ∷ []) → FuseFsyncIn
fuse_fsync_in_of_fields (fh, (fsync_flags, (padding, _))) = record {
  fh = fh;
  fsync_flags = fsync_flags;
  padding = padding;
}

instance abbrev pub fuse_fsync_in_struct : Struct FuseFsyncIn
fuse_fsync_in_struct = record {
  layout = u64 ∷ u32 ∷ u32 ∷ [];
  to_fields = fuse_fsync_in_to_fields;
  of_fields = fuse_fsync_in_of_fields;
  of_fields-to_fields = λ t. refl;
  to_fields-of_fields = λ f. refl;
}

pub record FuseSetxattrIn : Type 0 where
  pub size : ℕ
  pub flags : ℕ

abbrev fuse_setxattr_in_to_fields : FuseSetxattrIn → Fields (u32 ∷ u32 ∷ [])
fuse_setxattr_in_to_fields t = (t.size, (t.flags, tt))

abbrev fuse_setxattr_in_of_fields : Fields (u32 ∷ u32 ∷ []) → FuseSetxattrIn
fuse_setxattr_in_of_fields (size, (flags, _)) = record { size = size; flags = flags }

instance abbrev pub fuse_setxattr_in_struct : Struct FuseSetxattrIn
fuse_setxattr_in_struct = record {
  layout = u32 ∷ u32 ∷ [];
  to_fields = fuse_setxattr_in_to_fields;
  of_fields = fuse_setxattr_in_of_fields;
  of_fields-to_fields = λ t. refl;
  to_fields-of_fields = λ f. refl;
}

pub record FuseGetxattrIn : Type 0 where
  pub size : ℕ
  pub padding : ℕ

abbrev fuse_getxattr_in_to_fields : FuseGetxattrIn → Fields (u32 ∷ u32 ∷ [])
fuse_getxattr_in_to_fields t = (t.size, (t.padding, tt))

abbrev fuse_getxattr_in_of_fields : Fields (u32 ∷ u32 ∷ []) → FuseGetxattrIn
fuse_getxattr_in_of_fields (size, (padding, _)) = record { size = size; padding = padding }

instance abbrev pub fuse_getxattr_in_struct : Struct FuseGetxattrIn
fuse_getxattr_in_struct = record {
  layout = u32 ∷ u32 ∷ [];
  to_fields = fuse_getxattr_in_to_fields;
  of_fields = fuse_getxattr_in_of_fields;
  of_fields-to_fields = λ t. refl;
  to_fields-of_fields = λ f. refl;
}

pub record FuseGetxattrOut : Type 0 where
  pub size : ℕ
  pub padding : ℕ

abbrev fuse_getxattr_out_to_fields : FuseGetxattrOut → Fields (u32 ∷ u32 ∷ [])
fuse_getxattr_out_to_fields t = (t.size, (t.padding, tt))

abbrev fuse_getxattr_out_of_fields : Fields (u32 ∷ u32 ∷ []) → FuseGetxattrOut
fuse_getxattr_out_of_fields (size, (padding, _)) = record { size = size; padding = padding }

instance abbrev pub fuse_getxattr_out_struct : Struct FuseGetxattrOut
fuse_getxattr_out_struct = record {
  layout = u32 ∷ u32 ∷ [];
  to_fields = fuse_getxattr_out_to_fields;
  of_fields = fuse_getxattr_out_of_fields;
  of_fields-to_fields = λ t. refl;
  to_fields-of_fields = λ f. refl;
}
