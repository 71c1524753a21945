-- ===== src/Abi/Structs/Header.antt =====
-- fuse-abi/src/lib.rs: The headers of requests and replies, INIT, INTERRUPT and directory entries.
use fuse_rs.Base.{ℕ, ℤ, refl, [], ◌∷◌}
use fuse_rs.Abi.Layout.{u32, u64, i32, Fields, Struct}

pub record FuseInHeader : Type 0 where
  pub len : ℕ
  pub opcode : ℕ
  pub unique : ℕ
  pub nodeid : ℕ
  pub uid : ℕ
  pub gid : ℕ
  pub pid : ℕ
  pub padding : ℕ

abbrev fuse_in_header_to_fields :
    FuseInHeader → Fields (u32 ∷ u32 ∷ u64 ∷ u64 ∷ u32 ∷ u32 ∷ u32 ∷ u32 ∷ [])
fuse_in_header_to_fields t =
    (t.len, (t.opcode, (t.unique, (t.nodeid, (t.uid, (t.gid, (t.pid, (t.padding, tt))))))))

abbrev fuse_in_header_of_fields :
    Fields (u32 ∷ u32 ∷ u64 ∷ u64 ∷ u32 ∷ u32 ∷ u32 ∷ u32 ∷ []) → FuseInHeader
fuse_in_header_of_fields (len, (opcode, (unique, (nodeid, (uid, (gid, (pid, (padding, _)))))))) =
    record {
      len = len;
      opcode = opcode;
      unique = unique;
      nodeid = nodeid;
      uid = uid;
      gid = gid;
      pid = pid;
      padding = padding;
    }

instance abbrev pub fuse_in_header_struct : Struct FuseInHeader
fuse_in_header_struct = record {
  layout = u32 ∷ u32 ∷ u64 ∷ u64 ∷ u32 ∷ u32 ∷ u32 ∷ u32 ∷ [];
  to_fields = fuse_in_header_to_fields;
  of_fields = fuse_in_header_of_fields;
  of_fields-to_fields = λ t. refl;
  to_fields-of_fields = λ f. refl;
}

pub record FuseOutHeader : Type 0 where
  pub len : ℕ
  pub error : ℤ
  pub unique : ℕ

abbrev fuse_out_header_to_fields : FuseOutHeader → Fields (u32 ∷ i32 ∷ u64 ∷ [])
fuse_out_header_to_fields t = (t.len, (t.error, (t.unique, tt)))

abbrev fuse_out_header_of_fields : Fields (u32 ∷ i32 ∷ u64 ∷ []) → FuseOutHeader
fuse_out_header_of_fields (len, (error, (unique, _))) = record {
  len = len;
  error = error;
  unique = unique;
}

instance abbrev pub fuse_out_header_struct : Struct FuseOutHeader
fuse_out_header_struct = record {
  layout = u32 ∷ i32 ∷ u64 ∷ [];
  to_fields = fuse_out_header_to_fields;
  of_fields = fuse_out_header_of_fields;
  of_fields-to_fields = λ t. refl;
  to_fields-of_fields = λ f. refl;
}

pub record FuseInitIn : Type 0 where
  pub major : ℕ
  pub minor : ℕ
  pub max_readahead : ℕ
  pub flags : ℕ

abbrev fuse_init_in_to_fields : FuseInitIn → Fields (u32 ∷ u32 ∷ u32 ∷ u32 ∷ [])
fuse_init_in_to_fields t = (t.major, (t.minor, (t.max_readahead, (t.flags, tt))))

abbrev fuse_init_in_of_fields : Fields (u32 ∷ u32 ∷ u32 ∷ u32 ∷ []) → FuseInitIn
fuse_init_in_of_fields (major, (minor, (max_readahead, (flags, _)))) = record {
  major = major;
  minor = minor;
  max_readahead = max_readahead;
  flags = flags;
}

instance abbrev pub fuse_init_in_struct : Struct FuseInitIn
fuse_init_in_struct = record {
  layout = u32 ∷ u32 ∷ u32 ∷ u32 ∷ [];
  to_fields = fuse_init_in_to_fields;
  of_fields = fuse_init_in_of_fields;
  of_fields-to_fields = λ t. refl;
  to_fields-of_fields = λ f. refl;
}

pub record FuseInitOut : Type 0 where
  pub major : ℕ
  pub minor : ℕ
  pub max_readahead : ℕ
  pub flags : ℕ
  pub unused : ℕ
  pub max_write : ℕ

abbrev fuse_init_out_to_fields : FuseInitOut → Fields (u32 ∷ u32 ∷ u32 ∷ u32 ∷ u32 ∷ u32 ∷ [])
fuse_init_out_to_fields t =
    (t.major, (t.minor, (t.max_readahead, (t.flags, (t.unused, (t.max_write, tt))))))

abbrev fuse_init_out_of_fields : Fields (u32 ∷ u32 ∷ u32 ∷ u32 ∷ u32 ∷ u32 ∷ []) → FuseInitOut
fuse_init_out_of_fields (major, (minor, (max_readahead, (flags, (unused, (max_write, _)))))) =
    record {
      major = major;
      minor = minor;
      max_readahead = max_readahead;
      flags = flags;
      unused = unused;
      max_write = max_write;
    }

instance abbrev pub fuse_init_out_struct : Struct FuseInitOut
fuse_init_out_struct = record {
  layout = u32 ∷ u32 ∷ u32 ∷ u32 ∷ u32 ∷ u32 ∷ [];
  to_fields = fuse_init_out_to_fields;
  of_fields = fuse_init_out_of_fields;
  of_fields-to_fields = λ t. refl;
  to_fields-of_fields = λ f. refl;
}

pub record FuseInterruptIn : Type 0 where
  pub unique : ℕ

abbrev fuse_interrupt_in_to_fields : FuseInterruptIn → Fields (u64 ∷ [])
fuse_interrupt_in_to_fields t = (t.unique, tt)

abbrev fuse_interrupt_in_of_fields : Fields (u64 ∷ []) → FuseInterruptIn
fuse_interrupt_in_of_fields (unique, _) = record { unique = unique }

instance abbrev pub fuse_interrupt_in_struct : Struct FuseInterruptIn
fuse_interrupt_in_struct = record {
  layout = u64 ∷ [];
  to_fields = fuse_interrupt_in_to_fields;
  of_fields = fuse_interrupt_in_of_fields;
  of_fields-to_fields = λ t. refl;
  to_fields-of_fields = λ f. refl;
}

pub record FuseDirent : Type 0 where
  pub ino : ℕ
  pub off : ℕ
  pub namelen : ℕ
  pub typ : ℕ

abbrev fuse_dirent_to_fields : FuseDirent → Fields (u64 ∷ u64 ∷ u32 ∷ u32 ∷ [])
fuse_dirent_to_fields t = (t.ino, (t.off, (t.namelen, (t.typ, tt))))

abbrev fuse_dirent_of_fields : Fields (u64 ∷ u64 ∷ u32 ∷ u32 ∷ []) → FuseDirent
fuse_dirent_of_fields (ino, (off, (namelen, (typ, _)))) = record {
  ino = ino;
  off = off;
  namelen = namelen;
  typ = typ;
}

instance abbrev pub fuse_dirent_struct : Struct FuseDirent
fuse_dirent_struct = record {
  layout = u64 ∷ u64 ∷ u32 ∷ u32 ∷ [];
  to_fields = fuse_dirent_to_fields;
  of_fields = fuse_dirent_of_fields;
  of_fields-to_fields = λ t. refl;
  to_fields-of_fields = λ f. refl;
}
