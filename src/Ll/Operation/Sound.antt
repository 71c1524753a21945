-- ===== src/Ll/Operation/Sound.antt =====
-- From `Operation::parse` of src/ll/request.rs to the grammar: one rule for each kind of fetch.
use fuse_rs.Base.{
  ℕ, ◌≡◌, refl, sym, inl, inr, List, Option, none, some, arith, length, take, drop, length-take,
  take-append-drop, ◌≤◌,
}
use fuse_rs.Abi.Layout.{Struct, size_of, of_bytes}
use fuse_rs.Abi.Structs.{
  fuse_access_in_struct, fuse_bmap_in_struct, fuse_create_in_struct, fuse_flush_in_struct,
  fuse_forget_in_struct, fuse_fsync_in_struct, fuse_getxattr_in_struct, fuse_init_in_struct,
  fuse_interrupt_in_struct, fuse_link_in_struct, fuse_lk_in_struct, fuse_mkdir_in_struct,
  fuse_mknod_in_struct, fuse_open_in_struct, fuse_read_in_struct, fuse_release_in_struct,
  fuse_rename_in_struct, fuse_setattr_in_struct, fuse_setxattr_in_struct, fuse_write_in_struct,
}
use fuse_rs.Abi.Opcode.{
  FuseOpcode, fuse_lookup, fuse_forget, fuse_getattr, fuse_setattr, fuse_readlink, fuse_symlink,
  fuse_mknod, fuse_mkdir, fuse_unlink, fuse_rmdir, fuse_rename, fuse_link, fuse_open, fuse_read,
  fuse_write, fuse_statfs, fuse_release, fuse_fsync, fuse_setxattr, fuse_getxattr, fuse_listxattr,
  fuse_removexattr, fuse_flush, fuse_init, fuse_opendir, fuse_readdir, fuse_releasedir,
  fuse_fsyncdir, fuse_getlk, fuse_setlk, fuse_setlkw, fuse_access, fuse_create, fuse_interrupt,
  fuse_bmap, fuse_destroy,
}
use fuse_rs.Ll.Argument.{ArgumentIterator, Fetch, and_then, fetch, fetch_str, fetch_all}
use fuse_rs.Ll.Argument.Laws.{from, fetch_cases, fetch_str_cases}
use fuse_rs.Ll.Operation.{Operation, parse, opcode}
use fuse_rs.Ll.Operation.Grammar.{StructAt, NameAt, Reads}

-- Of a result: if it is an operation, it has the opcode, and the data held its arguments.
abbrev pub Parsed : FuseOpcode → List ℕ → Option Operation × ArgumentIterator → Type 0
Parsed oc bs (none, it) = Unit {0}
Parsed oc bs (some op, it) = (opcode op ≡ oc) × Reads op bs it.bytes

pub take-StructAt :
    {T : Type 0} ⦃s : Struct T⦄ (bs : List ℕ)
    → size_of s.layout ≤ length bs
    → let n = size_of s.layout in StructAt {T = T} bs (of_bytes (take n bs)) (drop n bs)
take-StructAt ⦃s⦄ bs h =
    let n = size_of s.layout in
    (take n bs, sym (take-append-drop n bs), omega (arith, length-take n bs), refl)

module _ {B : Type 0} (P : Option B × ArgumentIterator → Type 0) (it : ArgumentIterator) where
  fetch_rule :
      {T : Type 0} ⦃s : Struct T⦄ (f : T → Fetch B)
      → ((it' : ArgumentIterator) → P (none, it'))
      → ((t : T) (it' : ArgumentIterator) → StructAt it.bytes t it'.bytes → P (f t it'))
      → P (and_then (fetch it) f)
  fetch_rule ⦃s⦄ f short next = elim (fetch_cases ⦃s = s⦄ it) [
    | inl (h, e) ↦ rw e (short it)
    | inr (h, e) ↦
        let n = size_of s.layout in
        rw e (next (of_bytes (take n it.bytes)) (from (drop n it.bytes)) (take-StructAt it.bytes h))
  ]

  name_rule :
      (f : List ℕ → Fetch B)
      → ((it' : ArgumentIterator) → P (none, it'))
      → ((name : List ℕ) (it' : ArgumentIterator) → NameAt it.bytes name it'.bytes → P (f name it'))
      → P (and_then (fetch_str it) f)
  name_rule f short next = elim (fetch_str_cases it) [
    | inl (h, e) ↦ rw e (short it)
    | inr (name, rest, split, h, e) ↦ rw e (next name (from rest) (split, h))
  ]

-- Whatever is parsed is held by the data, and the iterator is left behind its arguments.
pub parse-Parsed : (oc : FuseOpcode) (it : ArgumentIterator) → Parsed oc it.bytes (parse oc it)
unfolding parse opcode fetch_all
parse-Parsed fuse_lookup it =
    name_rule (Parsed fuse_lookup it.bytes) it _ (λ _. tt) λ name it1 h1. (refl, h1)
parse-Parsed fuse_forget it =
    fetch_rule (Parsed fuse_forget it.bytes) it _ (λ _. tt) λ arg it1 h1. (refl, h1)
parse-Parsed fuse_getattr it = (refl, refl)
parse-Parsed fuse_setattr it =
    fetch_rule (Parsed fuse_setattr it.bytes) it _ (λ _. tt) λ arg it1 h1. (refl, h1)
parse-Parsed fuse_readlink it = (refl, refl)
parse-Parsed fuse_symlink it =
    name_rule (Parsed fuse_symlink it.bytes) it _ (λ _. tt)
      λ name it1 h1.
        name_rule (Parsed fuse_symlink it.bytes) it1 _ (λ _. tt)
          λ target it2 h2. (refl, (it1.bytes, h1, h2))
parse-Parsed fuse_mknod it =
    fetch_rule (Parsed fuse_mknod it.bytes) it _ (λ _. tt)
      λ arg it1 h1.
        name_rule (Parsed fuse_mknod it.bytes) it1 _ (λ _. tt)
          λ name it2 h2. (refl, (it1.bytes, h1, h2))
parse-Parsed fuse_mkdir it =
    fetch_rule (Parsed fuse_mkdir it.bytes) it _ (λ _. tt)
      λ arg it1 h1.
        name_rule (Parsed fuse_mkdir it.bytes) it1 _ (λ _. tt)
          λ name it2 h2. (refl, (it1.bytes, h1, h2))
parse-Parsed fuse_unlink it =
    name_rule (Parsed fuse_unlink it.bytes) it _ (λ _. tt) λ name it1 h1. (refl, h1)
parse-Parsed fuse_rmdir it =
    name_rule (Parsed fuse_rmdir it.bytes) it _ (λ _. tt) λ name it1 h1. (refl, h1)
parse-Parsed fuse_rename it =
    fetch_rule (Parsed fuse_rename it.bytes) it _ (λ _. tt)
      λ arg it1 h1.
        name_rule (Parsed fuse_rename it.bytes) it1 _ (λ _. tt)
          λ name it2 h2.
            name_rule (Parsed fuse_rename it.bytes) it2 _ (λ _. tt)
              λ newname it3 h3. (refl, (it1.bytes, it2.bytes, h1, h2, h3))
parse-Parsed fuse_link it =
    fetch_rule (Parsed fuse_link it.bytes) it _ (λ _. tt)
      λ arg it1 h1.
        name_rule (Parsed fuse_link it.bytes) it1 _ (λ _. tt)
          λ name it2 h2. (refl, (it1.bytes, h1, h2))
parse-Parsed fuse_open it =
    fetch_rule (Parsed fuse_open it.bytes) it _ (λ _. tt) λ arg it1 h1. (refl, h1)
parse-Parsed fuse_read it =
    fetch_rule (Parsed fuse_read it.bytes) it _ (λ _. tt) λ arg it1 h1. (refl, h1)
parse-Parsed fuse_write it =
    fetch_rule (Parsed fuse_write it.bytes) it _ (λ _. tt)
      λ arg it1 h1. (refl, (it1.bytes, h1, refl, refl))
parse-Parsed fuse_statfs it = (refl, refl)
parse-Parsed fuse_release it =
    fetch_rule (Parsed fuse_release it.bytes) it _ (λ _. tt) λ arg it1 h1. (refl, h1)
parse-Parsed fuse_fsync it =
    fetch_rule (Parsed fuse_fsync it.bytes) it _ (λ _. tt) λ arg it1 h1. (refl, h1)
parse-Parsed fuse_setxattr it =
    fetch_rule (Parsed fuse_setxattr it.bytes) it _ (λ _. tt)
      λ arg it1 h1.
        name_rule (Parsed fuse_setxattr it.bytes) it1 _ (λ _. tt)
          λ name it2 h2. (refl, (it1.bytes, it2.bytes, h1, h2, refl, refl))
parse-Parsed fuse_getxattr it =
    fetch_rule (Parsed fuse_getxattr it.bytes) it _ (λ _. tt)
      λ arg it1 h1.
        name_rule (Parsed fuse_getxattr it.bytes) it1 _ (λ _. tt)
          λ name it2 h2. (refl, (it1.bytes, h1, h2))
parse-Parsed fuse_listxattr it =
    fetch_rule (Parsed fuse_listxattr it.bytes) it _ (λ _. tt) λ arg it1 h1. (refl, h1)
parse-Parsed fuse_removexattr it =
    name_rule (Parsed fuse_removexattr it.bytes) it _ (λ _. tt) λ name it1 h1. (refl, h1)
parse-Parsed fuse_flush it =
    fetch_rule (Parsed fuse_flush it.bytes) it _ (λ _. tt) λ arg it1 h1. (refl, h1)
parse-Parsed fuse_init it =
    fetch_rule (Parsed fuse_init it.bytes) it _ (λ _. tt) λ arg it1 h1. (refl, h1)
parse-Parsed fuse_opendir it =
    fetch_rule (Parsed fuse_opendir it.bytes) it _ (λ _. tt) λ arg it1 h1. (refl, h1)
parse-Parsed fuse_readdir it =
    fetch_rule (Parsed fuse_readdir it.bytes) it _ (λ _. tt) λ arg it1 h1. (refl, h1)
parse-Parsed fuse_releasedir it =
    fetch_rule (Parsed fuse_releasedir it.bytes) it _ (λ _. tt) λ arg it1 h1. (refl, h1)
parse-Parsed fuse_fsyncdir it =
    fetch_rule (Parsed fuse_fsyncdir it.bytes) it _ (λ _. tt) λ arg it1 h1. (refl, h1)
parse-Parsed fuse_getlk it =
    fetch_rule (Parsed fuse_getlk it.bytes) it _ (λ _. tt) λ arg it1 h1. (refl, h1)
parse-Parsed fuse_setlk it =
    fetch_rule (Parsed fuse_setlk it.bytes) it _ (λ _. tt) λ arg it1 h1. (refl, h1)
parse-Parsed fuse_setlkw it =
    fetch_rule (Parsed fuse_setlkw it.bytes) it _ (λ _. tt) λ arg it1 h1. (refl, h1)
parse-Parsed fuse_access it =
    fetch_rule (Parsed fuse_access it.bytes) it _ (λ _. tt) λ arg it1 h1. (refl, h1)
parse-Parsed fuse_create it =
    fetch_rule (Parsed fuse_create it.bytes) it _ (λ _. tt)
      λ arg it1 h1.
        name_rule (Parsed fuse_create it.bytes) it1 _ (λ _. tt)
          λ name it2 h2. (refl, (it1.bytes, h1, h2))
parse-Parsed fuse_interrupt it =
    fetch_rule (Parsed fuse_interrupt it.bytes) it _ (λ _. tt) λ arg it1 h1. (refl, h1)
parse-Parsed fuse_bmap it =
    fetch_rule (Parsed fuse_bmap it.bytes) it _ (λ _. tt) λ arg it1 h1. (refl, h1)
parse-Parsed fuse_destroy it = (refl, refl)
