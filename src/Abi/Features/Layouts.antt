-- ===== src/Abi/Features/Layouts.antt =====
-- fuse-abi/src/lib.rs: the layouts, by build, of the structs that have fields behind a `cfg`.
use fuse_rs.Base.{◌≡◌, refl, Bool, true, false, not, List, [], ◌∷◌, ◌++◌}
use fuse_rs.Abi.Layout.{Scalar, u16, u32, u64}
use fuse_rs.Abi.Structs.{
  fuse_attr_struct, fuse_entry_out_struct, fuse_attr_out_struct, fuse_mknod_in_struct,
  fuse_mkdir_in_struct, fuse_setattr_in_struct, fuse_create_in_struct, fuse_read_in_struct,
  fuse_write_in_struct, fuse_setxattr_in_struct, fuse_getxattr_in_struct, fuse_lk_in_struct,
  fuse_init_out_struct,
}
use fuse_rs.Abi.Features.{Build, feature, default_build, feature-default}

-- Fields behind a `cfg`, in front of the others.
abbrev pub only : Bool → List Scalar → List Scalar → List Scalar
only true fields rest = fields ++ rest
only false fields rest = rest

module _ (b : Build) where
  unfoldable pub attr_layout : List Scalar
  attr_layout =
      u64
      ∷ u64
      ∷ u64
      ∷ u64
      ∷ u64
      ∷ u64
      ∷ only b.macos (u64 ∷ []) (
          u32
          ∷ u32
          ∷ u32
          ∷ only b.macos (u32 ∷ []) (
              u32
              ∷ u32
              ∷ u32
              ∷ u32
              ∷ u32
              ∷ only b.macos (u32 ∷ []) (only (feature b 9) (u32 ∷ u32 ∷ []) [])))

  unfoldable pub entry_out_layout : List Scalar
  entry_out_layout = u64 ∷ u64 ∷ u64 ∷ u64 ∷ u32 ∷ u32 ∷ attr_layout

  unfoldable pub attr_out_layout : List Scalar
  attr_out_layout = u64 ∷ u32 ∷ u32 ∷ attr_layout

  unfoldable pub mknod_in_layout : List Scalar
  mknod_in_layout = u32 ∷ u32 ∷ only (feature b 12) (u32 ∷ u32 ∷ []) []

  unfoldable pub mkdir_in_layout : List Scalar
  mkdir_in_layout = u32 ∷ only (not (feature b 12)) (u32 ∷ []) (only (feature b 12) (u32 ∷ []) [])

  unfoldable pub setattr_in_layout : List Scalar
  setattr_in_layout =
      u32
      ∷ u32
      ∷ u64
      ∷ u64
      ∷ only (not (feature b 9)) (u64 ∷ []) (
          only (feature b 9) (u64 ∷ []) (
            u64
            ∷ u64
            ∷ u64
            ∷ u32
            ∷ u32
            ∷ u32
            ∷ u32
            ∷ u32
            ∷ u32
            ∷ u32
            ∷ u32
            ∷ only b.macos (u64 ∷ u64 ∷ u64 ∷ u32 ∷ u32 ∷ u32 ∷ u32 ∷ []) []))

  unfoldable pub create_in_layout : List Scalar
  create_in_layout = u32 ∷ u32 ∷ only (feature b 12) (u32 ∷ u32 ∷ []) []

  unfoldable pub read_in_layout : List Scalar
  read_in_layout = u64 ∷ u64 ∷ u32 ∷ only (feature b 9) (u32 ∷ u64 ∷ u32 ∷ u32 ∷ []) []

  unfoldable pub write_in_layout : List Scalar
  write_in_layout = u64 ∷ u64 ∷ u32 ∷ u32 ∷ only (feature b 9) (u64 ∷ u32 ∷ u32 ∷ []) []

  unfoldable pub setxattr_in_layout : List Scalar
  setxattr_in_layout = u32 ∷ u32 ∷ only b.macos (u32 ∷ u32 ∷ []) []

  unfoldable pub getxattr_in_layout : List Scalar
  getxattr_in_layout = u32 ∷ u32 ∷ only b.macos (u32 ∷ u32 ∷ []) []

  unfoldable pub lk_in_layout : List Scalar
  lk_in_layout = u64 ∷ u64 ∷ u64 ∷ u64 ∷ u32 ∷ u32 ∷ only (feature b 9) (u32 ∷ u32 ∷ []) []

  unfoldable pub init_out_layout : List Scalar
  init_out_layout =
      u32
      ∷ u32
      ∷ u32
      ∷ u32
      ∷ only (not (feature b 13)) (u32 ∷ []) (only (feature b 13) (u16 ∷ u16 ∷ []) (u32 ∷ []))

-- The structs that the rest of the development uses are those of the default build.
layouts-default :
    (attr_layout default_build ≡ fuse_attr_struct.layout)
    × (entry_out_layout default_build ≡ fuse_entry_out_struct.layout)
    × (attr_out_layout default_build ≡ fuse_attr_out_struct.layout)
    × (mknod_in_layout default_build ≡ fuse_mknod_in_struct.layout)
    × (mkdir_in_layout default_build ≡ fuse_mkdir_in_struct.layout)
    × (setattr_in_layout default_build ≡ fuse_setattr_in_struct.layout)
    × (create_in_layout default_build ≡ fuse_create_in_struct.layout)
    × (read_in_layout default_build ≡ fuse_read_in_struct.layout)
    × (write_in_layout default_build ≡ fuse_write_in_struct.layout)
    × (setxattr_in_layout default_build ≡ fuse_setxattr_in_struct.layout)
    × (getxattr_in_layout default_build ≡ fuse_getxattr_in_struct.layout)
    × (lk_in_layout default_build ≡ fuse_lk_in_struct.layout)
    × (init_out_layout default_build ≡ fuse_init_out_struct.layout)
unfolding attr_layout entry_out_layout attr_out_layout mknod_in_layout mkdir_in_layout
    setattr_in_layout create_in_layout read_in_layout write_in_layout setxattr_in_layout
    getxattr_in_layout lk_in_layout init_out_layout
layouts-default =
    rw (feature-default 9, feature-default 12, feature-default 13)
      (refl, refl, refl, refl, refl, refl, refl, refl, refl, refl, refl, refl, refl)
