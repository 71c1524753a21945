-- ===== src/Tests/Arguments.antt =====
-- SETATTR with some of its arguments, INIT as the kernel reads its answer, and the next READDIR.
use fuse_rs.Base.{
  inr, ◌^◌, ◌≡◌, refl, ◌↔◌, pos, [], ◌∷◌, true, false, ◌≢◌, some, none, concat, length, List, ℕ,
  arith,
}
use fuse_rs.Abi.Structs.{FuseSetattrIn, FuseReadIn, FuseWriteIn, fuse_init_out_struct}
use fuse_rs.Ll.Argument.Laws.{from}
use fuse_rs.Ll.Operation.{read_dir, write}
use fuse_rs.Ll.Request.{nodeid}
use fuse_rs.Reply.Attr.{regular_file}
use fuse_rs.Reply.Raw.{as_bytes}
use fuse_rs.Reply.Raw.Readback.{read_reply}
use fuse_rs.Reply.Raw.Laws.{packet}
use fuse_rs.Reply.Directory.{DirEntry, dirent}
use fuse_rs.Request.Args.{set_attr_args}
use fuse_rs.Request.Args.Bits.{asked, set_attr_args-asked, set_attr_args-none_iff}
use fuse_rs.Request.Dispatch.{init_out, dispatch, call_dir}
use fuse_rs.Request.Negotiation.{negotiated, read_init-packet}
use fuse_rs.Effect.{panicked}
use fuse_rs.Request.Crashing.{dispatch-panicked_iff}
use fuse_rs.Request.Cookie.{dispatch-read_dir}
use fuse_rs.Tests.{linux, sender_3, init_in, foo_txt, request_of, no_files}
use fuse_rs.Tests.Sessions.{mounted}

-- The mode, the size and the time of the last modification.
abbrev chmod : FuseSetattrIn
chmod = record {
  valid = 41;
  padding = 0;
  fh = 0;
  size = 10;
  unused1 = 0;
  atime = 0;
  mtime = 1000;
  unused2 = 0;
  atimensec = 0;
  mtimensec = 1500000000;
  unused3 = 0;
  mode = 420;
  unused4 = 0;
  uid = 0;
  gid = 0;
  unused5 = 0;
}

set_attr_args-asked_example : set_attr_args chmod ≡ some (asked chmod)
set_attr_args-asked_example = set_attr_args-asked chmod (λ h. omega arith) (λ h. omega arith)

abbrev far_future : FuseSetattrIn
far_future = record chmod { mtime = 2 ^ 63 }

far_future_test : set_attr_args far_future ≡ none
far_future_test = (set_attr_args-none_iff far_future).1 (inr (refl, omega arith))

read_init-packet_example :
    read_reply (from (concat (packet sender_3 9 (pos 0) (as_bytes (init_out init_in))).slices))
    ≡ (some (record { len = 40; error = pos 0; unique = 9 }, negotiated init_in), from [])
read_init-packet_example = read_init-packet sender_3 9 init_in (omega arith) (omega arith)

abbrev foo : DirEntry
foo = record { ino = 2; offset = pos 2; kind = regular_file; name = foo_txt }

abbrev next : FuseReadIn
next = record { fh = 5; offset = 2; size = 4096 }

dispatch-read_dir_example :
    dispatch linux no_files (request_of (read_dir next)) mounted
    ≡ call_dir linux no_files (request_of (read_dir next)) mounted 4096 (
        no_files.readdir
          (request_of (read_dir next)).request
          (nodeid (request_of (read_dir next)).request)
          5
          (pos 2)
          0)
unfolding dirent
dispatch-read_dir_example =
    dispatch-read_dir linux no_files (request_of (read_dir next)) mounted next foo refl refl refl
      (omega arith) refl

abbrev short_write : FuseWriteIn
short_write = record { fh = 0; offset = 0; size = 3; write_flags = 0 }

abbrev two_bytes : List ℕ
two_bytes = 1 ∷ 2 ∷ []

-- Three bytes are announced, two are there.
dispatch-panicked_iff_example :
    (dispatch linux no_files (request_of (write short_write two_bytes)) mounted ≡ panicked [])
    ↔ ((true ≡ true) × (false ≡ false) × (length two_bytes ≢ short_write.size))
dispatch-panicked_iff_example =
    dispatch-panicked_iff linux no_files (request_of (write short_write two_bytes)) mounted
