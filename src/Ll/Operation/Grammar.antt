-- ===== src/Ll/Operation/Grammar.antt =====
-- What bytes an operation's arguments stand for, stated with no iterator: a grammar.
use fuse_rs.Base.{ℕ, ◌≡◌, List, [], ◌∷◌, ◌++◌, length, All}
use fuse_rs.Abi.Layout.{Struct, size_of, of_bytes}
use fuse_rs.Abi.Structs.{
  fuse_access_in_struct, fuse_bmap_in_struct, fuse_create_in_struct, fuse_flush_in_struct,
  fuse_forget_in_struct, fuse_fsync_in_struct, fuse_getxattr_in_struct, fuse_init_in_struct,
  fuse_interrupt_in_struct, fuse_link_in_struct, fuse_lk_in_struct, fuse_mkdir_in_struct,
  fuse_mknod_in_struct, fuse_open_in_struct, fuse_read_in_struct, fuse_release_in_struct,
  fuse_rename_in_struct, fuse_setattr_in_struct, fuse_setxattr_in_struct, fuse_write_in_struct,
}
use fuse_rs.Ll.Argument.Laws.{NonZero}
use fuse_rs.Ll.Operation.{
  Operation, lookup, forget, get_attr, set_attr, read_link, sym_link, mk_nod, mk_dir, unlink,
  rm_dir, rename, link, «open», read, write, stat_fs, release, fsync, set_xattr, get_xattr,
  list_xattr, remove_xattr, flush, init, open_dir, read_dir, release_dir, fsync_dir, get_lk, set_lk,
  set_lk_w, access, create, interrupt, bmap, destroy,
}

-- `bs` is the memory of `t` followed by `rest`.
abbrev pub StructAt : {T : Type 0} ⦃s : Struct T⦄ → List ℕ → T → List ℕ → Type 0
StructAt ⦃s⦄ bs t rest =
    (raw : List ℕ) × (bs ≡ raw ++ rest)
    × (length raw ≡ size_of s.layout)
    × (of_bytes ⦃s = s⦄ raw ≡ t)

-- `bs` is a name with its zero byte, followed by `rest`.
abbrev pub NameAt : List ℕ → List ℕ → List ℕ → Type 0
NameAt bs name rest = (bs ≡ name ++ 0 ∷ rest) × All NonZero name

-- `bs` holds the arguments of the operation, followed by `rest`. The data of WRITE and the value of
-- SETXATTR have no length of their own: they go to the end.
abbrev pub Reads : Operation → List ℕ → List ℕ → Type 0
Reads (lookup name) bs rest = NameAt bs name rest
Reads (forget arg) bs rest = StructAt bs arg rest
Reads get_attr bs rest = bs ≡ rest
Reads (set_attr arg) bs rest = StructAt bs arg rest
Reads read_link bs rest = bs ≡ rest
Reads (sym_link name target) bs rest = (mid : List ℕ) × NameAt bs name mid × NameAt mid target rest
Reads (mk_nod arg name) bs rest = (mid : List ℕ) × StructAt bs arg mid × NameAt mid name rest
Reads (mk_dir arg name) bs rest = (mid : List ℕ) × StructAt bs arg mid × NameAt mid name rest
Reads (unlink name) bs rest = NameAt bs name rest
Reads (rm_dir name) bs rest = NameAt bs name rest
Reads (rename arg name newname) bs rest =
    (mid : List ℕ) × (mid' : List ℕ) × StructAt bs arg mid
    × NameAt mid name mid'
    × NameAt mid' newname rest
Reads (link arg name) bs rest = (mid : List ℕ) × StructAt bs arg mid × NameAt mid name rest
Reads («open» arg) bs rest = StructAt bs arg rest
Reads (read arg) bs rest = StructAt bs arg rest
Reads (write arg value) bs rest = (mid : List ℕ) × StructAt bs arg mid × (mid ≡ value) × (rest ≡ [])
Reads stat_fs bs rest = bs ≡ rest
Reads (release arg) bs rest = StructAt bs arg rest
Reads (fsync arg) bs rest = StructAt bs arg rest
Reads (set_xattr arg name value) bs rest =
    (mid : List ℕ) × (mid' : List ℕ) × StructAt bs arg mid
    × NameAt mid name mid'
    × (mid' ≡ value)
    × (rest ≡ [])
Reads (get_xattr arg name) bs rest = (mid : List ℕ) × StructAt bs arg mid × NameAt mid name rest
Reads (list_xattr arg) bs rest = StructAt bs arg rest
Reads (remove_xattr name) bs rest = NameAt bs name rest
Reads (flush arg) bs rest = StructAt bs arg rest
Reads (init arg) bs rest = StructAt bs arg rest
Reads (open_dir arg) bs rest = StructAt bs arg rest
Reads (read_dir arg) bs rest = StructAt bs arg rest
Reads (release_dir arg) bs rest = StructAt bs arg rest
Reads (fsync_dir arg) bs rest = StructAt bs arg rest
Reads (get_lk arg) bs rest = StructAt bs arg rest
Reads (set_lk arg) bs rest = StructAt bs arg rest
Reads (set_lk_w arg) bs rest = StructAt bs arg rest
Reads (access arg) bs rest = StructAt bs arg rest
Reads (create arg name) bs rest = (mid : List ℕ) × StructAt bs arg mid × NameAt mid name rest
Reads (interrupt arg) bs rest = StructAt bs arg rest
Reads (bmap arg) bs rest = StructAt bs arg rest
Reads destroy bs rest = bs ≡ rest
