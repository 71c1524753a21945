-- ===== src/Abi/Structs/Volume.antt =====
-- fuse-abi/src/lib.rs: Statistics, locks and block maps.
use fuse_rs.Base.{ℕ, refl, [], ◌∷◌, replicate}
use fuse_rs.Abi.Layout.{u32, u64, Fields, Struct}

pub record FuseKstatfs : Type 0 where
  pub blocks : ℕ
  pub bfree : ℕ
  pub bavail : ℕ
  pub files : ℕ
  pub ffree : ℕ
  pub bsize : ℕ
  pub namelen : ℕ
  pub frsize : ℕ
  pub padding : ℕ
  pub spare : Fields (replicate 6 u32)

abbrev fuse_kstatfs_to_fields :
    FuseKstatfs → Fields (u64 ∷ u64 ∷ u64 ∷ u64 ∷ u64 ∷ u32 ∷ u32 ∷ u32 ∷ u32 ∷ replicate 6 u32)
fuse_kstatfs_to_fields t = (
  t.blocks,
  (
    t.bfree,
    (t.bavail, (t.files, (t.ffree, (t.bsize, (t.namelen, (t.frsize, (t.padding, t.spare))))))),
  ),
)

abbrev fuse_kstatfs_of_fields :
    Fields (u64 ∷ u64 ∷ u64 ∷ u64 ∷ u64 ∷ u32 ∷ u32 ∷ u32 ∷ u32 ∷ replicate 6 u32) → FuseKstatfs
fuse_kstatfs_of_fields
      (
        blocks,
        (bfree, (bavail, (files, (ffree, (bsize, (namelen, (frsize, (padding, spare)))))))),
      ) =
    record {
      blocks = blocks;
      bfree = bfree;
      bavail = bavail;
      files = files;
      ffree = ffree;
      bsize = bsize;
      namelen = namelen;
      frsize = frsize;
      padding = padding;
      spare = spare;
    }

instance abbrev pub fuse_kstatfs_struct : Struct FuseKstatfs
fuse_kstatfs_struct = record {
  layout = u64 ∷ u64 ∷ u64 ∷ u64 ∷ u64 ∷ u32 ∷ u32 ∷ u32 ∷ u32 ∷ replicate 6 u32;
  to_fields = fuse_kstatfs_to_fields;
  of_fields = fuse_kstatfs_of_fields;
  of_fields-to_fields = λ t. refl;
  to_fields-of_fields = λ f. refl;
}

pub record FuseStatfsOut : Type 0 where
  pub st : FuseKstatfs

abbrev fuse_statfs_out_to_fields : FuseStatfsOut → Fields (fuse_kstatfs_struct.layout)
fuse_statfs_out_to_fields t = fuse_kstatfs_struct.to_fields t.st

abbrev fuse_statfs_out_of_fields : Fields (fuse_kstatfs_struct.layout) → FuseStatfsOut
fuse_statfs_out_of_fields st = record { st = fuse_kstatfs_struct.of_fields st }

instance abbrev pub fuse_statfs_out_struct : Struct FuseStatfsOut
fuse_statfs_out_struct = record {
  layout = fuse_kstatfs_struct.layout;
  to_fields = fuse_statfs_out_to_fields;
  of_fields = fuse_statfs_out_of_fields;
  of_fields-to_fields = λ t. refl;
  to_fields-of_fields = λ f. refl;
}

pub record FuseFileLock : Type 0 where
  pub start : ℕ
  pub end : ℕ
  pub typ : ℕ
  pub pid : ℕ

abbrev fuse_file_lock_to_fields : FuseFileLock → Fields (u64 ∷ u64 ∷ u32 ∷ u32 ∷ [])
fuse_file_lock_to_fields t = (t.start, (t.end, (t.typ, (t.pid, tt))))

abbrev fuse_file_lock_of_fields : Fields (u64 ∷ u64 ∷ u32 ∷ u32 ∷ []) → FuseFileLock
fuse_file_lock_of_fields (start, (end, (typ, (pid, _)))) = record {
  start = start;
  end = end;
  typ = typ;
  pid = pid;
}

instance abbrev pub fuse_file_lock_struct : Struct FuseFileLock
fuse_file_lock_struct = record {
  layout = u64 ∷ u64 ∷ u32 ∷ u32 ∷ [];
  to_fields = fuse_file_lock_to_fields;
  of_fields = fuse_file_lock_of_fields;
  of_fields-to_fields = λ t. refl;
  to_fields-of_fields = λ f. refl;
}

pub record FuseLkIn : Type 0 where
  pub fh : ℕ
  pub owner : ℕ
  pub lk : FuseFileLock

abbrev fuse_lk_in_to_fields : FuseLkIn → Fields (u64 ∷ u64 ∷ fuse_file_lock_struct.layout)
fuse_lk_in_to_fields t = (t.fh, (t.owner, fuse_file_lock_struct.to_fields t.lk))

abbrev fuse_lk_in_of_fields : Fields (u64 ∷ u64 ∷ fuse_file_lock_struct.layout) → FuseLkIn
fuse_lk_in_of_fields (fh, (owner, lk)) = record {
  fh = fh;
  owner = owner;
  lk = fuse_file_lock_struct.of_fields lk;
}

instance abbrev pub fuse_lk_in_struct : Struct FuseLkIn
fuse_lk_in_struct = record {
  layout = u64 ∷ u64 ∷ fuse_file_lock_struct.layout;
  to_fields = fuse_lk_in_to_fields;
  of_fields = fuse_lk_in_of_fields;
  of_fields-to_fields = λ t. refl;
  to_fields-of_fields = λ f. refl;
}

pub record FuseLkOut : Type 0 where
  pub lk : FuseFileLock

abbrev fuse_lk_out_to_fields : FuseLkOut → Fields (fuse_file_lock_struct.layout)
fuse_lk_out_to_fields t = fuse_file_lock_struct.to_fields t.lk

abbrev fuse_lk_out_of_fields : Fields (fuse_file_lock_struct.layout) → FuseLkOut
fuse_lk_out_of_fields lk = record { lk = fuse_file_lock_struct.of_fields lk }

instance abbrev pub fuse_lk_out_struct : Struct FuseLkOut
fuse_lk_out_struct = record {
  layout = fuse_file_lock_struct.layout;
  to_fields = fuse_lk_out_to_fields;
  of_fields = fuse_lk_out_of_fields;
  of_fields-to_fields = λ t. refl;
  to_fields-of_fields = λ f. refl;
}

pub record FuseBmapIn : Type 0 where
  pub block : ℕ
  pub blocksize : ℕ
  pub padding : ℕ

abbrev fuse_bmap_in_to_fields : FuseBmapIn → Fields (u64 ∷ u32 ∷ u32 ∷ [])
fuse_bmap_in_to_fields t = (t.block, (t.blocksize, (t.padding, tt)))

abbrev fuse_bmap_in_of_fields : Fields (u64 ∷ u32 ∷ u32 ∷ []) → FuseBmapIn
fuse_bmap_in_of_fields (block, (blocksize, (padding, _))) = record {
  block = block;
  blocksize = blocksize;
  padding = padding;
}

instance abbrev pub fuse_bmap_in_struct : Struct FuseBmapIn
fuse_bmap_in_struct = record {
  layout = u64 ∷ u32 ∷ u32 ∷ [];
  to_fields = fuse_bmap_in_to_fields;
  of_fields = fuse_bmap_in_of_fields;
  of_fields-to_fields = λ t. refl;
  to_fields-of_fields = λ f. refl;
}

pub record FuseBmapOut : Type 0 where
  pub block : ℕ

abbrev fuse_bmap_out_to_fields : FuseBmapOut → Fields (u64 ∷ [])
fuse_bmap_out_to_fields t = (t.block, tt)

abbrev fuse_bmap_out_of_fields : Fields (u64 ∷ []) → FuseBmapOut
fuse_bmap_out_of_fields (block, _) = record { block = block }

instance abbrev pub fuse_bmap_out_struct : Struct FuseBmapOut
fuse_bmap_out_struct = record {
  layout = u64 ∷ [];
  to_fields = fuse_bmap_out_to_fields;
  of_fields = fuse_bmap_out_of_fields;
  of_fields-to_fields = λ t. refl;
  to_fields-of_fields = λ f. refl;
}
