-- ===== src/Abi/Features/Packed.antt =====
-- The structs of fuse-abi/src/lib.rs that are sent as copies of their memory, in every build: whether
-- memory is sent that belongs to no field.
use fuse_rs.Base.{ℕ, ◌+◌, ◌≡◌, refl, Bool, true, false, List, [], ◌∷◌, ◌++◌, arith}
use fuse_rs.Abi.Layout.{Scalar, scalar_size, size_of, end_offset, alignment, padding}
use fuse_rs.Abi.Structs.{
  fuse_open_out_struct, fuse_write_out_struct, fuse_statfs_out_struct, fuse_getxattr_out_struct,
  fuse_lk_out_struct, fuse_bmap_out_struct, fuse_out_header_struct, fuse_dirent_struct,
}
use fuse_rs.Abi.Features.{Build, feature, feature-before}
use fuse_rs.Abi.Features.Layouts.{
  attr_layout, entry_out_layout, attr_out_layout, init_out_layout, write_in_layout,
}
use fuse_rs.Abi.Features.Structs.{
  fuse_getxtimes_out_struct, cuse_init_out_struct, fuse_ioctl_out_struct, fuse_poll_out_struct,
  fuse_notify_poll_wakeup_out_struct, fuse_notify_inval_inode_out_struct,
  fuse_notify_inval_entry_out_struct, fuse_notify_delete_out_struct, fuse_notify_store_out_struct,
  fuse_notify_retrieve_out_struct, fuse_notify_retrieve_in_struct,
}

-- The structs of replies and notifications, and the pair that CREATE is answered with.
pub data OutStruct : Type 0 where
  out_header entry_out attr_out open_out created write_out statfs_out getxattr_out lk_out :
      OutStruct
  init_out bmap_out dirent getxtimes_out cuse_init_out ioctl_out poll_out : OutStruct
  poll_wakeup_out inval_inode_out inval_entry_out delete_out store_out retrieve_out : OutStruct

unfoldable pub out_layout : Build → OutStruct → List Scalar
out_layout b out_header = fuse_out_header_struct.layout
out_layout b entry_out = entry_out_layout b
out_layout b attr_out = attr_out_layout b
out_layout b open_out = fuse_open_out_struct.layout
out_layout b created = entry_out_layout b ++ fuse_open_out_struct.layout
out_layout b write_out = fuse_write_out_struct.layout
out_layout b statfs_out = fuse_statfs_out_struct.layout
out_layout b getxattr_out = fuse_getxattr_out_struct.layout
out_layout b lk_out = fuse_lk_out_struct.layout
out_layout b init_out = init_out_layout b
out_layout b bmap_out = fuse_bmap_out_struct.layout
out_layout b dirent = fuse_dirent_struct.layout
out_layout b getxtimes_out = fuse_getxtimes_out_struct.layout
out_layout b cuse_init_out = cuse_init_out_struct.layout
out_layout b ioctl_out = fuse_ioctl_out_struct.layout
out_layout b poll_out = fuse_poll_out_struct.layout
out_layout b poll_wakeup_out = fuse_notify_poll_wakeup_out_struct.layout
out_layout b inval_inode_out = fuse_notify_inval_inode_out_struct.layout
out_layout b inval_entry_out = fuse_notify_inval_entry_out_struct.layout
out_layout b delete_out = fuse_notify_delete_out_struct.layout
out_layout b store_out = fuse_notify_store_out_struct.layout
out_layout b retrieve_out = fuse_notify_retrieve_out_struct.layout

unfoldable pub fields_size : List Scalar → ℕ
unfolding scalar_size
fields_size [] = 0
fields_size (s ∷ l) = scalar_size s + fields_size l

-- All memory of the struct belongs to a field.
abbrev pub IsPacked : List Scalar → Type 0
IsPacked l = size_of l ≡ fields_size l

module _ (b : Build) where
  attr-IsPacked :
      (macos new : Bool)
      → b.macos ≡ macos
      → feature b 9 ≡ new
      → IsPacked (entry_out_layout b)
        × IsPacked (attr_out_layout b)
        × IsPacked (entry_out_layout b ++ fuse_open_out_struct.layout)
  unfolding entry_out_layout attr_out_layout attr_layout size_of end_offset alignment padding
      scalar_size fields_size
  attr-IsPacked true true m f = rw (f, m) (refl, refl, refl)
  attr-IsPacked true false m f = rw (f, m) (refl, refl, refl)
  attr-IsPacked false true m f = rw (f, m) (refl, refl, refl)
  attr-IsPacked false false m f = rw (f, m) (refl, refl, refl)

  init-IsPacked : (new : Bool) → feature b 13 ≡ new → IsPacked (init_out_layout b)
  unfolding init_out_layout size_of end_offset alignment padding scalar_size fields_size
  init-IsPacked true f = rw f refl
  init-IsPacked false f = rw f refl

  -- In every build, each struct that is sent to the kernel as a copy of its memory, and the pair
  -- that CREATE is answered with, is laid out with no byte that belongs to no field, so that a
  -- copy sends no memory but its fields.
  pub out_layout-IsPacked : (o : OutStruct) → IsPacked (out_layout b o)
  unfolding out_layout size_of end_offset alignment padding scalar_size fields_size
  out_layout-IsPacked entry_out = (attr-IsPacked _ _ refl refl).0
  out_layout-IsPacked attr_out = (attr-IsPacked _ _ refl refl).1
  out_layout-IsPacked created = (attr-IsPacked _ _ refl refl).2
  out_layout-IsPacked init_out = init-IsPacked _ refl
  out_layout-IsPacked _ = refl

  -- In the builds that have it, `fuse_notify_retrieve_in` matches the size of `fuse_write_in`.
  pub retrieve_in-write_in :
      feature b 15 ≡ true
      → size_of (write_in_layout b) ≡ size_of fuse_notify_retrieve_in_struct.layout
  unfolding write_in_layout size_of end_offset alignment padding scalar_size
  retrieve_in-write_in on = rw (feature-before b 9 6 (omega arith) on) refl
