-- ===== src/Tests/Defaults.antt =====
-- The default methods of the file system, and the operations of macOS, at concrete inputs.
use fuse_rs.Base.{arith, ◌^◌, inr, inl, ◌≡◌, refl, pos, [], ◌∷◌, some, none}
use fuse_rs.Abi.Layout.{
  to_bytes, encode, encode_fields, encode_scalar, size_of, end_offset, alignment, padding,
  scalar_size,
}
use fuse_rs.Abi.Features.Structs.{FuseExchangeIn, fuse_exchange_in_struct, MacosSetattrIn}
use fuse_rs.Effect.{done}
use fuse_rs.Ll.Request.{unique}
use fuse_rs.Reply.Raw.Laws.{packet}
use fuse_rs.Examples.Null.{null_fs, null_filesystem}
use fuse_rs.Filesystem.Macos.{default_macos}
use fuse_rs.Ll.Argument.Laws.{from}
use fuse_rs.Ll.Macos.{get_xtimes, exchange, fuse_exchange, parse_macos}
use fuse_rs.Ll.Macos.Wire.{encode_macos, parse_macos-encode_macos}
use fuse_rs.Session.{Session}
use fuse_rs.Request.Dispatch.{dispatch}
use fuse_rs.Request.Macos.{handle_macos, handle_macos-default_macos}
use fuse_rs.Request.Unsupported.{dispatch-default_filesystem}
use fuse_rs.Request.Args.Macos.{macos_set_attr_args}
use fuse_rs.Request.Args.Macos.Asked.{macos_set_attr_args-none_iff}
use fuse_rs.Examples.Null.{NullFs}
use fuse_rs.Ll.Operation.{mk_nod}
use fuse_rs.Tests.{linux, sender_3, request_of, header_of, mknod_in, foo_txt}
use fuse_rs.Tests.Sessions.{mounted}

-- NullFS while it is mounted.
abbrev null_session : Session NullFs
null_session = record {
  filesystem = null_fs;
  ch = mounted.ch;
  proto_major = 7;
  proto_minor = 8;
  initialized = mounted.initialized;
  destroyed = mounted.destroyed;
}

dispatch-default_filesystem_example :
    dispatch linux (null_filesystem linux) (request_of (mk_nod mknod_in foo_txt)) null_session
    ≡ done (null_session, []) (packet sender_3 16045690984229367821 (pos 38) [] ∷ [])
unfolding unique
dispatch-default_filesystem_example =
    dispatch-default_filesystem linux (request_of (mk_nod mknod_in foo_txt)) null_session (λ h. h)
      refl refl refl

xtimes_test :
    handle_macos linux (default_macos linux) sender_3 (header_of 40 62) null_session get_xtimes
    ≡ done (null_session, []) (packet sender_3 16045690984229367821 (pos 38) [] ∷ [])
xtimes_test =
    handle_macos-default_macos linux sender_3 (header_of 40 62) null_session get_xtimes refl refl

abbrev swapped : FuseExchangeIn
swapped = record { olddir = 2; newdir = 3; options = 0 }

exchange_test :
    parse_macos fuse_exchange (
      from (
        2 ∷ 0 ∷ 0 ∷ 0 ∷ 0 ∷ 0 ∷ 0 ∷ 0 ∷ 3 ∷ 0 ∷ 0 ∷ 0 ∷ 0 ∷ 0 ∷ 0 ∷ 0 ∷ 0 ∷ 0 ∷ 0 ∷ 0 ∷ 0 ∷ 0 ∷ 0
        ∷ 0 ∷ 97 ∷ 0 ∷ 98 ∷ 0 ∷ []))
    ≡ (some (exchange swapped (97 ∷ []) (98 ∷ [])), from [])
unfolding encode_macos to_bytes encode encode_fields encode_scalar size_of end_offset alignment
    padding scalar_size
exchange_test =
    parse_macos-encode_macos (exchange swapped (97 ∷ []) (98 ∷ [])) []
      ((omega arith, (omega arith, (omega arith, tt))), (omega arith, tt), (omega arith, tt))

-- A time of creation that does not fit.
abbrev created_late : MacosSetattrIn
created_late = record {
  valid = 2 ^ 28;
  padding = 0;
  fh = 0;
  size = 0;
  unused1 = 0;
  atime = 0;
  mtime = 0;
  unused2 = 0;
  atimensec = 0;
  mtimensec = 0;
  unused3 = 0;
  mode = 0;
  unused4 = 0;
  uid = 0;
  gid = 0;
  unused5 = 0;
  bkuptime = 0;
  chgtime = 0;
  crtime = 2 ^ 63;
  bkuptimensec = 0;
  chgtimensec = 0;
  crtimensec = 0;
  flags = 0;
}

created_late_test : macos_set_attr_args created_late ≡ none
created_late_test = (macos_set_attr_args-none_iff created_late).1 (inr (inl (refl, omega arith)))
