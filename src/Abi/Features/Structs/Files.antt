-- ===== src/Abi/Features/Structs/Files.antt =====
-- fuse-abi/src/lib.rs, of builds with features or on macOS: the structs of BATCH_FORGET, GETATTR and FALLOCATE, and the requests of macOS.
use fuse_rs.Base.{ℕ, refl, [], ◌∷◌}
use fuse_rs.Abi.Layout.{u32, u64, Fields, Struct}

pub record FuseForgetOne : Type 0 where
  pub nodeid : ℕ
  pub nlookup : ℕ

abbrev fuse_forget_one_to_fields : FuseForgetOne → Fields (u64 ∷ u64 ∷ [])
fuse_forget_one_to_fields t = (t.nodeid, (t.nlookup, tt))

abbrev fuse_forget_one_of_fields : Fields (u64 ∷ u64 ∷ []) → FuseForgetOne
fuse_forget_one_of_fields (nodeid, (nlookup, _)) = record { nodeid = nodeid; nlookup = nlookup }

instance abbrev pub fuse_forget_one_struct : Struct FuseForgetOne
fuse_forget_one_struct = record {
  layout = u64 ∷ u64 ∷ [];
  to_fields = fuse_forget_one_to_fields;
  of_fields = fuse_forget_one_of_fields;
  of_fields-to_fields = λ t. refl;
  to_fields-of_fields = λ f. refl;
}

pub record FuseBatchForgetIn : Type 0 where
  pub count : ℕ
  pub dummy : ℕ

abbrev fuse_batch_forget_in_to_fields : FuseBatchForgetIn → Fields (u32 ∷ u32 ∷ [])
fuse_batch_forget_in_to_fields t = (t.count, (t.dummy, tt))

abbrev fuse_batch_forget_in_of_fields : Fields (u32 ∷ u32 ∷ []) → FuseBatchForgetIn
fuse_batch_forget_in_of_fields (count, (dummy, _)) = record { count = count; dummy = dummy }

instance abbrev pub fuse_batch_forget_in_struct : Struct FuseBatchForgetIn
fuse_batch_forget_in_struct = record {
  layout = u32 ∷ u32 ∷ [];
  to_fields = fuse_batch_forget_in_to_fields;
  of_fields = fuse_batch_forget_in_of_fields;
  of_fields-to_fields = λ t. refl;
  to_fields-of_fields = λ f. refl;
}

pub record FuseGetattrIn : Type 0 where
  pub getattr_flags : ℕ
  pub dummy : ℕ
  pub fh : ℕ

abbrev fuse_getattr_in_to_fields : FuseGetattrIn → Fields (u32 ∷ u32 ∷ u64 ∷ [])
fuse_getattr_in_to_fields t = (t.getattr_flags, (t.dummy, (t.fh, tt)))

abbrev fuse_getattr_in_of_fields : Fields (u32 ∷ u32 ∷ u64 ∷ []) → FuseGetattrIn
fuse_getattr_in_of_fields (getattr_flags, (dummy, (fh, _))) = record {
  getattr_flags = getattr_flags;
  dummy = dummy;
  fh = fh;
}

instance abbrev pub fuse_getattr_in_struct : Struct FuseGetattrIn
fuse_getattr_in_struct = record {
  layout = u32 ∷ u32 ∷ u64 ∷ [];
  to_fields = fuse_getattr_in_to_fields;
  of_fields = fuse_getattr_in_of_fields;
  of_fields-to_fields = λ t. refl;
  to_fields-of_fields = λ f. refl;
}

pub record FuseFallocateIn : Type 0 where
  pub fh : ℕ
  pub offset : ℕ
  pub length : ℕ
  pub mode : ℕ
  pub padding : ℕ

abbrev fuse_fallocate_in_to_fields : FuseFallocateIn → Fields (u64 ∷ u64 ∷ u64 ∷ u32 ∷ u32 ∷ [])
fuse_fallocate_in_to_fields t = (t.fh, (t.offset, (t.length, (t.mode, (t.padding, tt)))))

abbrev fuse_fallocate_in_of_fields : Fields (u64 ∷ u64 ∷ u64 ∷ u32 ∷ u32 ∷ []) → FuseFallocateIn
fuse_fallocate_in_of_fields (fh, (offset, (length, (mode, (padding, _))))) = record {
  fh = fh;
  offset = offset;
  length = length;
  mode = mode;
  padding = padding;
}

instance abbrev pub fuse_fallocate_in_struct : Struct FuseFallocateIn
fuse_fallocate_in_struct = record {
  layout = u64 ∷ u64 ∷ u64 ∷ u32 ∷ u32 ∷ [];
  to_fields = fuse_fallocate_in_to_fields;
  of_fields = fuse_fallocate_in_of_fields;
  of_fields-to_fields = λ t. refl;
  to_fields-of_fields = λ f. refl;
}

pub record FuseGetxtimesOut : Type 0 where
  pub bkuptime : ℕ
  pub crtime : ℕ
  pub bkuptimensec : ℕ
  pub crtimensec : ℕ

abbrev fuse_getxtimes_out_to_fields : FuseGetxtimesOut → Fields (u64 ∷ u64 ∷ u32 ∷ u32 ∷ [])
fuse_getxtimes_out_to_fields t = (t.bkuptime, (t.crtime, (t.bkuptimensec, (t.crtimensec, tt))))

abbrev fuse_getxtimes_out_of_fields : Fields (u64 ∷ u64 ∷ u32 ∷ u32 ∷ []) → FuseGetxtimesOut
fuse_getxtimes_out_of_fields (bkuptime, (crtime, (bkuptimensec, (crtimensec, _)))) = record {
  bkuptime = bkuptime;
  crtime = crtime;
  bkuptimensec = bkuptimensec;
  crtimensec = crtimensec;
}

instance abbrev pub fuse_getxtimes_out_struct : Struct FuseGetxtimesOut
fuse_getxtimes_out_struct = record {
  layout = u64 ∷ u64 ∷ u32 ∷ u32 ∷ [];
  to_fields = fuse_getxtimes_out_to_fields;
  of_fields = fuse_getxtimes_out_of_fields;
  of_fields-to_fields = λ t. refl;
  to_fields-of_fields = λ f. refl;
}

pub record FuseExchangeIn : Type 0 where
  pub olddir : ℕ
  pub newdir : ℕ
  pub options : ℕ

abbrev fuse_exchange_in_to_fields : FuseExchangeIn → Fields (u64 ∷ u64 ∷ u64 ∷ [])
fuse_exchange_in_to_fields t = (t.olddir, (t.newdir, (t.options, tt)))

abbrev fuse_exchange_in_of_fields : Fields (u64 ∷ u64 ∷ u64 ∷ []) → FuseExchangeIn
fuse_exchange_in_of_fields (olddir, (newdir, (options, _))) = record {
  olddir = olddir;
  newdir = newdir;
  options = options;
}

instance abbrev pub fuse_exchange_in_struct : Struct FuseExchangeIn
fuse_exchange_in_struct = record {
  layout = u64 ∷ u64 ∷ u64 ∷ [];
  to_fields = fuse_exchange_in_to_fields;
  of_fields = fuse_exchange_in_of_fields;
  of_fields-to_fields = λ t. refl;
  to_fields-of_fields = λ f. refl;
}
