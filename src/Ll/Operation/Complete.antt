-- ===== src/Ll/Operation/Complete.antt =====
-- From the grammar of an operation to `Operation::parse` of src/ll/request.rs.
use fuse_rs.Base.{ℕ, ◌≡◌, ap, ◌∙◌, ◌↔◌, List, none, some, arith}
use fuse_rs.Abi.Layout.{Struct, size_of}
use fuse_rs.Abi.Structs.{
  fuse_access_in_struct, fuse_bmap_in_struct, fuse_create_in_struct, fuse_flush_in_struct,
  fuse_forget_in_struct, fuse_fsync_in_struct, fuse_getxattr_in_struct, fuse_init_in_struct,
  fuse_interrupt_in_struct, fuse_link_in_struct, fuse_lk_in_struct, fuse_mkdir_in_struct,
  fuse_mknod_in_struct, fuse_open_in_struct, fuse_read_in_struct, fuse_release_in_struct,
  fuse_rename_in_struct, fuse_setattr_in_struct, fuse_setxattr_in_struct, fuse_write_in_struct,
}
use fuse_rs.Abi.Opcode.{FuseOpcode}
use fuse_rs.Ll.Argument.{ArgumentIterator, fetch, fetch_str, fetch_all}
use fuse_rs.Ll.Argument.Laws.{from, fetch_bytes-append, fetch_str-append}
use fuse_rs.Ll.Operation.{
  Operation, parse, opcode, lookup, forget, get_attr, set_attr, read_link, sym_link, mk_nod, mk_dir,
  unlink, rm_dir, rename, link, «open», read, write, stat_fs, release, fsync, set_xattr, get_xattr,
  list_xattr, remove_xattr, flush, init, open_dir, read_dir, release_dir, fsync_dir, get_lk, set_lk,
  set_lk_w, access, create, interrupt, bmap, destroy,
}
use fuse_rs.Ll.Operation.Grammar.{StructAt, NameAt, Reads}
use fuse_rs.Ll.Operation.Sound.{Parsed, parse-Parsed}
use mathlib.Core.Path.{subst}

pub fetch-StructAt :
    {T : Type 0} ⦃s : Struct T⦄ (bs rest : List ℕ) (t : T)
    → StructAt bs t rest
    → fetch (from bs) ≡ (some t, from rest)
unfolding fetch
fetch-StructAt ⦃s⦄ bs rest t (raw, e, n, v) =
    rw (e, fetch_bytes-append (size_of s.layout) raw rest n, v)

fetch_str-NameAt :
    (bs rest name : List ℕ) → NameAt bs name rest → fetch_str (from bs) ≡ (some name, from rest)
fetch_str-NameAt bs rest name (e, h) = ap (λ b. fetch_str (from b)) e ∙ fetch_str-append name rest h

-- Data that holds an operation's arguments is parsed to the operation.
pub parse-Reads :
    (op : Operation) (bs rest : List ℕ)
    → Reads op bs rest
    → parse (opcode op) (from bs) ≡ (some op, from rest)
unfolding parse opcode fetch_all
parse-Reads (lookup name) bs rest h1 = rw (fetch_str-NameAt bs rest name h1)
parse-Reads (forget arg) bs rest h1 = rw (fetch-StructAt bs rest arg h1)
parse-Reads get_attr bs rest h = ap (λ b. (some get_attr, from b)) h
parse-Reads (set_attr arg) bs rest h1 = rw (fetch-StructAt bs rest arg h1)
parse-Reads read_link bs rest h = ap (λ b. (some read_link, from b)) h
parse-Reads (sym_link name target) bs rest (m1, h1, h2) =
    rw (fetch_str-NameAt bs m1 name h1, fetch_str-NameAt m1 rest target h2)
parse-Reads (mk_nod arg name) bs rest (m1, h1, h2) =
    rw (fetch-StructAt bs m1 arg h1, fetch_str-NameAt m1 rest name h2)
parse-Reads (mk_dir arg name) bs rest (m1, h1, h2) =
    rw (fetch-StructAt bs m1 arg h1, fetch_str-NameAt m1 rest name h2)
parse-Reads (unlink name) bs rest h1 = rw (fetch_str-NameAt bs rest name h1)
parse-Reads (rm_dir name) bs rest h1 = rw (fetch_str-NameAt bs rest name h1)
parse-Reads (rename arg name newname) bs rest (m1, m2, h1, h2, h3) = rw (
  fetch-StructAt bs m1 arg h1,
  fetch_str-NameAt m1 m2 name h2,
  fetch_str-NameAt m2 rest newname h3,
)
parse-Reads (link arg name) bs rest (m1, h1, h2) =
    rw (fetch-StructAt bs m1 arg h1, fetch_str-NameAt m1 rest name h2)
parse-Reads («open» arg) bs rest h1 = rw (fetch-StructAt bs rest arg h1)
parse-Reads (read arg) bs rest h1 = rw (fetch-StructAt bs rest arg h1)
parse-Reads (write arg value) bs rest (m1, h1, e, f) = rw (fetch-StructAt bs m1 arg h1, e, f)
parse-Reads stat_fs bs rest h = ap (λ b. (some stat_fs, from b)) h
parse-Reads (release arg) bs rest h1 = rw (fetch-StructAt bs rest arg h1)
parse-Reads (fsync arg) bs rest h1 = rw (fetch-StructAt bs rest arg h1)
parse-Reads (set_xattr arg name value) bs rest (m1, m2, h1, h2, e, f) =
    rw (fetch-StructAt bs m1 arg h1, fetch_str-NameAt m1 m2 name h2, e, f)
parse-Reads (get_xattr arg name) bs rest (m1, h1, h2) =
    rw (fetch-StructAt bs m1 arg h1, fetch_str-NameAt m1 rest name h2)
parse-Reads (list_xattr arg) bs rest h1 = rw (fetch-StructAt bs rest arg h1)
parse-Reads (remove_xattr name) bs rest h1 = rw (fetch_str-NameAt bs rest name h1)
parse-Reads (flush arg) bs rest h1 = rw (fetch-StructAt bs rest arg h1)
parse-Reads (init arg) bs rest h1 = rw (fetch-StructAt bs rest arg h1)
parse-Reads (open_dir arg) bs rest h1 = rw (fetch-StructAt bs rest arg h1)
parse-Reads (read_dir arg) bs rest h1 = rw (fetch-StructAt bs rest arg h1)
parse-Reads (release_dir arg) bs rest h1 = rw (fetch-StructAt bs rest arg h1)
parse-Reads (fsync_dir arg) bs rest h1 = rw (fetch-StructAt bs rest arg h1)
parse-Reads (get_lk arg) bs rest h1 = rw (fetch-StructAt bs rest arg h1)
parse-Reads (set_lk arg) bs rest h1 = rw (fetch-StructAt bs rest arg h1)
parse-Reads (set_lk_w arg) bs rest h1 = rw (fetch-StructAt bs rest arg h1)
parse-Reads (access arg) bs rest h1 = rw (fetch-StructAt bs rest arg h1)
parse-Reads (create arg name) bs rest (m1, h1, h2) =
    rw (fetch-StructAt bs m1 arg h1, fetch_str-NameAt m1 rest name h2)
parse-Reads (interrupt arg) bs rest h1 = rw (fetch-StructAt bs rest arg h1)
parse-Reads (bmap arg) bs rest h1 = rw (fetch-StructAt bs rest arg h1)
parse-Reads destroy bs rest h = ap (λ b. (some destroy, from b)) h

-- `parse` returns an operation exactly when the operation is of the given opcode and the data
-- holds its arguments by the grammar, and it leaves the iterator right behind them.
pub parse_iff :
    (oc : FuseOpcode) (it it' : ArgumentIterator) (op : Operation)
    → (parse oc it ≡ (some op, it')) ↔ ((opcode op ≡ oc) × Reads op it.bytes it'.bytes)
parse_iff oc it it' op = (
  λ parsed. subst (Parsed oc it.bytes) parsed (parse-Parsed oc it),
  λ h. rw (← h.0) (parse-Reads op it.bytes it'.bytes h.1),
)

-- A failure is never one of `parse` itself: no operation of that opcode has its arguments there.
pub parse-none :
    (oc : FuseOpcode) (it : ArgumentIterator) (op : Operation) (rest : List ℕ)
    → (parse oc it).0 ≡ none
    → opcode op ≡ oc
    → ¬ Reads op it.bytes rest
parse-none oc it op rest failed e h =
    let found : parse oc it ≡ (some op, from rest) = (parse_iff oc it (from rest) op).1 (e, h) in
    ground (arith, ap (λ r. r.0) found)
