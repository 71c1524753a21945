-- ===== src/Abi/Structs/File.antt =====
-- fuse-abi/src/lib.rs: Open files.
use fuse_rs.Base.{ℕ, refl, [], ◌∷◌}
use fuse_rs.Abi.Layout.{u32, u64, Fields, Struct}

pub record FuseOpenIn : Type 0 where
  pub flags : ℕ
  pub unused : ℕ

abbrev fuse_open_in_to_fields : FuseOpenIn → Fields (u32 ∷ u32 ∷ [])
fuse_open_in_to_fields t = (t.flags, (t.unused, tt))

abbrev fuse_open_in_of_fields : Fields (u32 ∷ u32 ∷ []) → FuseOpenIn
fuse_open_in_of_fields (flags, (unused, _)) = record { flags = flags; unused = unused }

instance abbrev pub fuse_open_in_struct : Struct FuseOpenIn
fuse_open_in_struct = record {
  layout = u32 ∷ u32 ∷ [];
  to_fields = fuse_open_in_to_fields;
  of_fields = fuse_open_in_of_fields;
  of_fields-to_fields = λ t. refl;
  to_fields-of_fields = λ f. refl;
}

pub record FuseCreateIn : Type 0 where
  pub flags : ℕ
  pub mode : ℕ

abbrev fuse_create_in_to_fields : FuseCreateIn → Fields (u32 ∷ u32 ∷ [])
fuse_create_in_to_fields t = (t.flags, (t.mode, tt))

abbrev fuse_create_in_of_fields : Fields (u32 ∷ u32 ∷ []) → FuseCreateIn
fuse_create_in_of_fields (flags, (mode, _)) = record { flags = flags; mode = mode }

instance abbrev pub fuse_create_in_struct : Struct FuseCreateIn
fuse_create_in_struct = record {
  layout = u32 ∷ u32 ∷ [];
  to_fields = fuse_create_in_to_fields;
  of_fields = fuse_create_in_of_fields;
  of_fields-to_fields = λ t. refl;
  to_fields-of_fields = λ f. refl;
}

pub record FuseOpenOut : Type 0 where
  pub fh : ℕ
  pub open_flags : ℕ
  pub padding : ℕ

abbrev fuse_open_out_to_fields : FuseOpenOut → Fields (u64 ∷ u32 ∷ u32 ∷ [])
fuse_open_out_to_fields t = (t.fh, (t.open_flags, (t.padding, tt)))

abbrev fuse_open_out_of_fields : Fields (u64 ∷ u32 ∷ u32 ∷ []) → FuseOpenOut
fuse_open_out_of_fields (fh, (open_flags, (padding, _))) = record {
  fh = fh;
  open_flags = open_flags;
  padding = padding;
}

instance abbrev pub fuse_open_out_struct : Struct FuseOpenOut
fuse_open_out_struct = record {
  layout = u64 ∷ u32 ∷ u32 ∷ [];
  to_fields = fuse_open_out_to_fields;
  of_fields = fuse_open_out_of_fields;
  of_fields-to_fields = λ t. refl;
  to_fields-of_fields = λ f. refl;
}

pub record FuseReleaseIn : Type 0 where
  pub fh : ℕ
  pub flags : ℕ
  pub release_flags : ℕ
  pub lock_owner : ℕ

abbrev fuse_release_in_to_fields : FuseReleaseIn → Fields (u64 ∷ u32 ∷ u32 ∷ u64 ∷ [])
fuse_release_in_to_fields t = (t.fh, (t.flags, (t.release_flags, (t.lock_owner, tt))))

abbrev fuse_release_in_of_fields : Fields (u64 ∷ u32 ∷ u32 ∷ u64 ∷ []) → FuseReleaseIn
fuse_release_in_of_fields (fh, (flags, (release_flags, (lock_owner, _)))) = record {
  fh = fh;
  flags = flags;
  release_flags = release_flags;
  lock_owner = lock_owner;
}

instance abbrev pub fuse_release_in_struct : Struct FuseReleaseIn
fuse_release_in_struct = record {
  layout = u64 ∷ u32 ∷ u32 ∷ u64 ∷ [];
  to_fields = fuse_release_in_to_fields;
  of_fields = fuse_release_in_of_fields;
  of_fields-to_fields = λ t. refl;
  to_fields-of_fields = λ f. refl;
}

pub record FuseFlushIn : Type 0 where
  pub fh : ℕ
  pub unused : ℕ
  pub padding : ℕ
  pub lock_owner : ℕ

abbrev fuse_flush_in_to_fields : FuseFlushIn → Fields (u64 ∷ u32 ∷ u32 ∷ u64 ∷ [])
fuse_flush_in_to_fields t = (t.fh, (t.unused, (t.padding, (t.lock_owner, tt))))

abbrev fuse_flush_in_of_fields : Fields (u64 ∷ u32 ∷ u32 ∷ u64 ∷ []) → FuseFlushIn
fuse_flush_in_of_fields (fh, (unused, (padding, (lock_owner, _)))) = record {
  fh = fh;
  unused = unused;
  padding = padding;
  lock_owner = lock_owner;
}

instance abbrev pub fuse_flush_in_struct : Struct FuseFlushIn
fuse_flush_in_struct = record {
  layout = u64 ∷ u32 ∷ u32 ∷ u64 ∷ [];
  to_fields = fuse_flush_in_to_fields;
  of_fields = fuse_flush_in_of_fields;
  of_fields-to_fields = λ t. refl;
  to_fields-of_fields = λ f. refl;
}

pub record FuseReadIn : Type 0 where
  pub fh : ℕ
  pub offset : ℕ
  pub size : ℕ

abbrev fuse_read_in_to_fields : FuseReadIn → Fields (u64 ∷ u64 ∷ u32 ∷ [])
fuse_read_in_to_fields t = (t.fh, (t.offset, (t.size, tt)))

abbrev fuse_read_in_of_fields : Fields (u64 ∷ u64 ∷ u32 ∷ []) → FuseReadIn
fuse_read_in_of_fields (fh, (offset, (size, _))) = record { fh = fh; offset = offset; size = size }

instance abbrev pub fuse_read_in_struct : Struct FuseReadIn
fuse_read_in_struct = record {
  layout = u64 ∷ u64 ∷ u32 ∷ [];
  to_fields = fuse_read_in_to_fields;
  of_fields = fuse_read_in_of_fields;
  of_fields-to_fields = λ t. refl;
  to_fields-of_fields = λ f. refl;
}

pub record FuseWriteIn : Type 0 where
  pub fh : ℕ
  pub offset : ℕ
  pub size : ℕ
  pub write_flags : ℕ

abbrev fuse_write_in_to_fields : FuseWriteIn → Fields (u64 ∷ u64 ∷ u32 ∷ u32 ∷ [])
fuse_write_in_to_fields t = (t.fh, (t.offset, (t.size, (t.write_flags, tt))))

abbrev fuse_write_in_of_fields : Fields (u64 ∷ u64 ∷ u32 ∷ u32 ∷ []) → FuseWriteIn
fuse_write_in_of_fields (fh, (offset, (size, (write_flags, _)))) = record {
  fh = fh;
  offset = offset;
  size = size;
  write_flags = write_flags;
}

instance abbrev pub fuse_write_in_struct : Struct FuseWriteIn
fuse_write_in_struct = record {
  layout = u64 ∷ u64 ∷ u32 ∷ u32 ∷ [];
  to_fields = fuse_write_in_to_fields;
  of_fields = fuse_write_in_of_fields;
  of_fields-to_fields = λ t. refl;
  to_fields-of_fields = λ f. refl;
}

pub record FuseWriteOut : Type 0 where
  pub size : ℕ
  pub padding : ℕ

abbrev fuse_write_out_to_fields : FuseWriteOut → Fields (u32 ∷ u32 ∷ [])
fuse_write_out_to_fields t = (t.size, (t.padding, tt))

abbrev fuse_write_out_of_fields : Fields (u32 ∷ u32 ∷ []) → FuseWriteOut
fuse_write_out_of_fields (size, (padding, _)) = record { size = size; padding = padding }

instance abbrev pub fuse_write_out_struct : Struct FuseWriteOut
fuse_write_out_struct = record {
  layout = u32 ∷ u32 ∷ [];
  to_fields = fuse_write_out_to_fields;
  of_fields = fuse_write_out_of_fields;
  of_fields-to_fields = λ t. refl;
  to_fields-of_fields = λ f. refl;
}
