-- ===== src/Abi/Features/Structs/Notices.antt =====
-- fuse-abi/src/lib.rs, of builds with features or on macOS: the structs of notifications.
use fuse_rs.Base.{ℕ, ℤ, refl, [], ◌∷◌}
use fuse_rs.Abi.Layout.{i64, u32, u64, Fields, Struct}

pub record FuseNotifyInvalInodeOut : Type 0 where
  pub ino : ℕ
  pub off : ℤ
  pub len : ℤ

abbrev fuse_notify_inval_inode_out_to_fields :
    FuseNotifyInvalInodeOut → Fields (u64 ∷ i64 ∷ i64 ∷ [])
fuse_notify_inval_inode_out_to_fields t = (t.ino, (t.off, (t.len, tt)))

abbrev fuse_notify_inval_inode_out_of_fields :
    Fields (u64 ∷ i64 ∷ i64 ∷ []) → FuseNotifyInvalInodeOut
fuse_notify_inval_inode_out_of_fields (ino, (off, (len, _))) = record {
  ino = ino;
  off = off;
  len = len;
}

instance abbrev pub fuse_notify_inval_inode_out_struct : Struct FuseNotifyInvalInodeOut
fuse_notify_inval_inode_out_struct = record {
  layout = u64 ∷ i64 ∷ i64 ∷ [];
  to_fields = fuse_notify_inval_inode_out_to_fields;
  of_fields = fuse_notify_inval_inode_out_of_fields;
  of_fields-to_fields = λ t. refl;
  to_fields-of_fields = λ f. refl;
}

pub record FuseNotifyInvalEntryOut : Type 0 where
  pub parent : ℕ
  pub namelen : ℕ
  pub padding : ℕ

abbrev fuse_notify_inval_entry_out_to_fields :
    FuseNotifyInvalEntryOut → Fields (u64 ∷ u32 ∷ u32 ∷ [])
fuse_notify_inval_entry_out_to_fields t = (t.parent, (t.namelen, (t.padding, tt)))

abbrev fuse_notify_inval_entry_out_of_fields :
    Fields (u64 ∷ u32 ∷ u32 ∷ []) → FuseNotifyInvalEntryOut
fuse_notify_inval_entry_out_of_fields (parent, (namelen, (padding, _))) = record {
  parent = parent;
  namelen = namelen;
  padding = padding;
}

instance abbrev pub fuse_notify_inval_entry_out_struct : Struct FuseNotifyInvalEntryOut
fuse_notify_inval_entry_out_struct = record {
  layout = u64 ∷ u32 ∷ u32 ∷ [];
  to_fields = fuse_notify_inval_entry_out_to_fields;
  of_fields = fuse_notify_inval_entry_out_of_fields;
  of_fields-to_fields = λ t. refl;
  to_fields-of_fields = λ f. refl;
}

pub record FuseNotifyDeleteOut : Type 0 where
  pub parent : ℕ
  pub child : ℕ
  pub namelen : ℕ
  pub padding : ℕ

abbrev fuse_notify_delete_out_to_fields : FuseNotifyDeleteOut → Fields (u64 ∷ u64 ∷ u32 ∷ u32 ∷ [])
fuse_notify_delete_out_to_fields t = (t.parent, (t.child, (t.namelen, (t.padding, tt))))

abbrev fuse_notify_delete_out_of_fields : Fields (u64 ∷ u64 ∷ u32 ∷ u32 ∷ []) → FuseNotifyDeleteOut
fuse_notify_delete_out_of_fields (parent, (child, (namelen, (padding, _)))) = record {
  parent = parent;
  child = child;
  namelen = namelen;
  padding = padding;
}

instance abbrev pub fuse_notify_delete_out_struct : Struct FuseNotifyDeleteOut
fuse_notify_delete_out_struct = record {
  layout = u64 ∷ u64 ∷ u32 ∷ u32 ∷ [];
  to_fields = fuse_notify_delete_out_to_fields;
  of_fields = fuse_notify_delete_out_of_fields;
  of_fields-to_fields = λ t. refl;
  to_fields-of_fields = λ f. refl;
}

pub record FuseNotifyStoreOut : Type 0 where
  pub nodeid : ℕ
  pub offset : ℕ
  pub size : ℕ
  pub padding : ℕ

abbrev fuse_notify_store_out_to_fields : FuseNotifyStoreOut → Fields (u64 ∷ u64 ∷ u32 ∷ u32 ∷ [])
fuse_notify_store_out_to_fields t = (t.nodeid, (t.offset, (t.size, (t.padding, tt))))

abbrev fuse_notify_store_out_of_fields : Fields (u64 ∷ u64 ∷ u32 ∷ u32 ∷ []) → FuseNotifyStoreOut
fuse_notify_store_out_of_fields (nodeid, (offset, (size, (padding, _)))) = record {
  nodeid = nodeid;
  offset = offset;
  size = size;
  padding = padding;
}

instance abbrev pub fuse_notify_store_out_struct : Struct FuseNotifyStoreOut
fuse_notify_store_out_struct = record {
  layout = u64 ∷ u64 ∷ u32 ∷ u32 ∷ [];
  to_fields = fuse_notify_store_out_to_fields;
  of_fields = fuse_notify_store_out_of_fields;
  of_fields-to_fields = λ t. refl;
  to_fields-of_fields = λ f. refl;
}

pub record FuseNotifyRetrieveOut : Type 0 where
  pub notify_unique : ℕ
  pub nodeid : ℕ
  pub offset : ℕ
  pub size : ℕ
  pub padding : ℕ

abbrev fuse_notify_retrieve_out_to_fields :
    FuseNotifyRetrieveOut → Fields (u64 ∷ u64 ∷ u64 ∷ u32 ∷ u32 ∷ [])
fuse_notify_retrieve_out_to_fields t =
    (t.notify_unique, (t.nodeid, (t.offset, (t.size, (t.padding, tt)))))

abbrev fuse_notify_retrieve_out_of_fields :
    Fields (u64 ∷ u64 ∷ u64 ∷ u32 ∷ u32 ∷ []) → FuseNotifyRetrieveOut
fuse_notify_retrieve_out_of_fields (notify_unique, (nodeid, (offset, (size, (padding, _))))) =
    record {
      notify_unique = notify_unique;
      nodeid = nodeid;
      offset = offset;
      size = size;
      padding = padding;
    }

instance abbrev pub fuse_notify_retrieve_out_struct : Struct FuseNotifyRetrieveOut
fuse_notify_retrieve_out_struct = record {
  layout = u64 ∷ u64 ∷ u64 ∷ u32 ∷ u32 ∷ [];
  to_fields = fuse_notify_retrieve_out_to_fields;
  of_fields = fuse_notify_retrieve_out_of_fields;
  of_fields-to_fields = λ t. refl;
  to_fields-of_fields = λ f. refl;
}

pub record FuseNotifyRetrieveIn : Type 0 where
  pub dummy1 : ℕ
  pub offset : ℕ
  pub size : ℕ
  pub dummy2 : ℕ
  pub dummy3 : ℕ
  pub dummy4 : ℕ

abbrev fuse_notify_retrieve_in_to_fields :
    FuseNotifyRetrieveIn → Fields (u64 ∷ u64 ∷ u32 ∷ u32 ∷ u64 ∷ u64 ∷ [])
fuse_notify_retrieve_in_to_fields t =
    (t.dummy1, (t.offset, (t.size, (t.dummy2, (t.dummy3, (t.dummy4, tt))))))

abbrev fuse_notify_retrieve_in_of_fields :
    Fields (u64 ∷ u64 ∷ u32 ∷ u32 ∷ u64 ∷ u64 ∷ []) → FuseNotifyRetrieveIn
fuse_notify_retrieve_in_of_fields (dummy1, (offset, (size, (dummy2, (dummy3, (dummy4, _)))))) =
    record {
      dummy1 = dummy1;
      offset = offset;
      size = size;
      dummy2 = dummy2;
      dummy3 = dummy3;
      dummy4 = dummy4;
    }

instance abbrev pub fuse_notify_retrieve_in_struct : Struct FuseNotifyRetrieveIn
fuse_notify_retrieve_in_struct = record {
  layout = u64 ∷ u64 ∷ u32 ∷ u32 ∷ u64 ∷ u64 ∷ [];
  to_fields = fuse_notify_retrieve_in_to_fields;
  of_fields = fuse_notify_retrieve_in_of_fields;
  of_fields-to_fields = λ t. refl;
  to_fields-of_fields = λ f. refl;
}
