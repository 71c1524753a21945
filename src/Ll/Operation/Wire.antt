-- ===== src/Ll/Operation/Wire.antt =====
-- The bytes that the kernel sends for an operation, and parsing them.
use fuse_rs.Base.{append-nil, ℕ, ◌≡◌, refl, List, [], ◌∷◌, ◌++◌, some, All}
use fuse_rs.Abi.Layout.{Struct, AreValues, to_bytes}
use fuse_rs.Abi.Layout.RoundTrip.{length-to_bytes, of_bytes-to_bytes}
use fuse_rs.Abi.Structs.{
  fuse_access_in_struct, fuse_bmap_in_struct, fuse_create_in_struct, fuse_flush_in_struct,
  fuse_forget_in_struct, fuse_fsync_in_struct, fuse_getxattr_in_struct, fuse_init_in_struct,
  fuse_interrupt_in_struct, fuse_link_in_struct, fuse_lk_in_struct, fuse_mkdir_in_struct,
  fuse_mknod_in_struct, fuse_open_in_struct, fuse_read_in_struct, fuse_release_in_struct,
  fuse_rename_in_struct, fuse_setattr_in_struct, fuse_setxattr_in_struct, fuse_write_in_struct,
}
use fuse_rs.Ll.Argument.Laws.{NonZero, from}
use fuse_rs.Ll.Operation.{
  Operation, parse, opcode, lookup, forget, get_attr, set_attr, read_link, sym_link, mk_nod, mk_dir,
  unlink, rm_dir, rename, link, «open», read, write, stat_fs, release, fsync, set_xattr, get_xattr,
  list_xattr, remove_xattr, flush, init, open_dir, read_dir, release_dir, fsync_dir, get_lk, set_lk,
  set_lk_w, access, create, interrupt, bmap, destroy,
}
use fuse_rs.Ll.Operation.Grammar.{StructAt, Reads}
use fuse_rs.Ll.Operation.Complete.{parse-Reads}

-- Each field is a value of its type.
abbrev pub InRange : {T : Type 0} ⦃s : Struct T⦄ → T → Type 0
InRange ⦃s⦄ t = AreValues s.layout (s.to_fields t)

-- The arguments of an operation in front of `rest`: structs as they lie in memory, names with a zero
-- byte behind them, data as it is.
unfoldable pub encode : Operation → List ℕ → List ℕ
encode (lookup name) rest = name ++ 0 ∷ rest
encode (forget arg) rest = to_bytes arg ++ rest
encode get_attr rest = rest
encode (set_attr arg) rest = to_bytes arg ++ rest
encode read_link rest = rest
encode (sym_link name target) rest = name ++ 0 ∷ (target ++ 0 ∷ rest)
encode (mk_nod arg name) rest = to_bytes arg ++ (name ++ 0 ∷ rest)
encode (mk_dir arg name) rest = to_bytes arg ++ (name ++ 0 ∷ rest)
encode (unlink name) rest = name ++ 0 ∷ rest
encode (rm_dir name) rest = name ++ 0 ∷ rest
encode (rename arg name newname) rest = to_bytes arg ++ (name ++ 0 ∷ (newname ++ 0 ∷ rest))
encode (link arg name) rest = to_bytes arg ++ (name ++ 0 ∷ rest)
encode («open» arg) rest = to_bytes arg ++ rest
encode (read arg) rest = to_bytes arg ++ rest
encode (write arg value) rest = to_bytes arg ++ (value ++ rest)
encode stat_fs rest = rest
encode (release arg) rest = to_bytes arg ++ rest
encode (fsync arg) rest = to_bytes arg ++ rest
encode (set_xattr arg name value) rest = to_bytes arg ++ (name ++ 0 ∷ (value ++ rest))
encode (get_xattr arg name) rest = to_bytes arg ++ (name ++ 0 ∷ rest)
encode (list_xattr arg) rest = to_bytes arg ++ rest
encode (remove_xattr name) rest = name ++ 0 ∷ rest
encode (flush arg) rest = to_bytes arg ++ rest
encode (init arg) rest = to_bytes arg ++ rest
encode (open_dir arg) rest = to_bytes arg ++ rest
encode (read_dir arg) rest = to_bytes arg ++ rest
encode (release_dir arg) rest = to_bytes arg ++ rest
encode (fsync_dir arg) rest = to_bytes arg ++ rest
encode (get_lk arg) rest = to_bytes arg ++ rest
encode (set_lk arg) rest = to_bytes arg ++ rest
encode (set_lk_w arg) rest = to_bytes arg ++ rest
encode (access arg) rest = to_bytes arg ++ rest
encode (create arg name) rest = to_bytes arg ++ (name ++ 0 ∷ rest)
encode (interrupt arg) rest = to_bytes arg ++ rest
encode (bmap arg) rest = to_bytes arg ++ rest
encode destroy rest = rest

-- What the kernel can send: fields in range, no zero byte in a name, and nothing behind data that goes
-- to the end.
abbrev pub IsWire : Operation → List ℕ → Type 0
IsWire (lookup name) rest = All NonZero name
IsWire (forget arg) rest = InRange arg
IsWire get_attr rest = Unit {0}
IsWire (set_attr arg) rest = InRange arg
IsWire read_link rest = Unit {0}
IsWire (sym_link name target) rest = All NonZero name × All NonZero target
IsWire (mk_nod arg name) rest = InRange arg × All NonZero name
IsWire (mk_dir arg name) rest = InRange arg × All NonZero name
IsWire (unlink name) rest = All NonZero name
IsWire (rm_dir name) rest = All NonZero name
IsWire (rename arg name newname) rest = InRange arg × All NonZero name × All NonZero newname
IsWire (link arg name) rest = InRange arg × All NonZero name
IsWire («open» arg) rest = InRange arg
IsWire (read arg) rest = InRange arg
IsWire (write arg value) rest = InRange arg × (rest ≡ [])
IsWire stat_fs rest = Unit {0}
IsWire (release arg) rest = InRange arg
IsWire (fsync arg) rest = InRange arg
IsWire (set_xattr arg name value) rest = InRange arg × All NonZero name × (rest ≡ [])
IsWire (get_xattr arg name) rest = InRange arg × All NonZero name
IsWire (list_xattr arg) rest = InRange arg
IsWire (remove_xattr name) rest = All NonZero name
IsWire (flush arg) rest = InRange arg
IsWire (init arg) rest = InRange arg
IsWire (open_dir arg) rest = InRange arg
IsWire (read_dir arg) rest = InRange arg
IsWire (release_dir arg) rest = InRange arg
IsWire (fsync_dir arg) rest = InRange arg
IsWire (get_lk arg) rest = InRange arg
IsWire (set_lk arg) rest = InRange arg
IsWire (set_lk_w arg) rest = InRange arg
IsWire (access arg) rest = InRange arg
IsWire (create arg name) rest = InRange arg × All NonZero name
IsWire (interrupt arg) rest = InRange arg
IsWire (bmap arg) rest = InRange arg
IsWire destroy rest = Unit {0}

pub to_bytes-StructAt :
    {T : Type 0} ⦃s : Struct T⦄ (t : T) (rest : List ℕ)
    → InRange t
    → StructAt (to_bytes t ++ rest) t rest
to_bytes-StructAt ⦃s⦄ t rest h = (to_bytes t, refl, length-to_bytes t, of_bytes-to_bytes t h)

pub encode-Reads :
    (op : Operation) (rest : List ℕ) → IsWire op rest → Reads op (encode op rest) rest
unfolding encode
encode-Reads (lookup name) rest h = (refl, h)
encode-Reads (forget arg) rest h = to_bytes-StructAt arg _ h
encode-Reads get_attr rest h = refl
encode-Reads (set_attr arg) rest h = to_bytes-StructAt arg _ h
encode-Reads read_link rest h = refl
encode-Reads (sym_link name target) rest h = (_, (refl, h.0), (refl, h.1))
encode-Reads (mk_nod arg name) rest h = (_, to_bytes-StructAt arg _ h.0, (refl, h.1))
encode-Reads (mk_dir arg name) rest h = (_, to_bytes-StructAt arg _ h.0, (refl, h.1))
encode-Reads (unlink name) rest h = (refl, h)
encode-Reads (rm_dir name) rest h = (refl, h)
encode-Reads (rename arg name newname) rest h =
    (_, _, to_bytes-StructAt arg _ h.0, (refl, h.1), (refl, h.2))
encode-Reads (link arg name) rest h = (_, to_bytes-StructAt arg _ h.0, (refl, h.1))
encode-Reads («open» arg) rest h = to_bytes-StructAt arg _ h
encode-Reads (read arg) rest h = to_bytes-StructAt arg _ h
encode-Reads (write arg value) rest h =
    (_, to_bytes-StructAt arg _ h.0, rw h.1 (append-nil value), h.1)
encode-Reads stat_fs rest h = refl
encode-Reads (release arg) rest h = to_bytes-StructAt arg _ h
encode-Reads (fsync arg) rest h = to_bytes-StructAt arg _ h
encode-Reads (set_xattr arg name value) rest h =
    (_, _, to_bytes-StructAt arg _ h.0, (refl, h.1), rw h.2 (append-nil value), h.2)
encode-Reads (get_xattr arg name) rest h = (_, to_bytes-StructAt arg _ h.0, (refl, h.1))
encode-Reads (list_xattr arg) rest h = to_bytes-StructAt arg _ h
encode-Reads (remove_xattr name) rest h = (refl, h)
encode-Reads (flush arg) rest h = to_bytes-StructAt arg _ h
encode-Reads (init arg) rest h = to_bytes-StructAt arg _ h
encode-Reads (open_dir arg) rest h = to_bytes-StructAt arg _ h
encode-Reads (read_dir arg) rest h = to_bytes-StructAt arg _ h
encode-Reads (release_dir arg) rest h = to_bytes-StructAt arg _ h
encode-Reads (fsync_dir arg) rest h = to_bytes-StructAt arg _ h
encode-Reads (get_lk arg) rest h = to_bytes-StructAt arg _ h
encode-Reads (set_lk arg) rest h = to_bytes-StructAt arg _ h
encode-Reads (set_lk_w arg) rest h = to_bytes-StructAt arg _ h
encode-Reads (access arg) rest h = to_bytes-StructAt arg _ h
encode-Reads (create arg name) rest h = (_, to_bytes-StructAt arg _ h.0, (refl, h.1))
encode-Reads (interrupt arg) rest h = to_bytes-StructAt arg _ h
encode-Reads (bmap arg) rest h = to_bytes-StructAt arg _ h
encode-Reads destroy rest h = refl

-- The arguments of an operation as the kernel sends them are parsed back to the operation, and
-- what stands behind them is left.
pub parse-encode :
    (op : Operation) (rest : List ℕ)
    → IsWire op rest
    → parse (opcode op) (from (encode op rest)) ≡ (some op, from rest)
parse-encode op rest h = parse-Reads op (encode op rest) rest (encode-Reads op rest h)
