-- ===== src/Tests.antt =====
-- The constants of Linux, a request packet of the test suite, and runs at concrete inputs.
pub mod Arguments
pub mod Attributes
pub mod Background
pub mod Defaults
pub mod Late
pub mod Loops
pub mod Mounting
pub mod Packets
pub mod Features
pub mod Hello
pub mod Replies
pub mod ReplyBytes
pub mod Sessions
use fuse_rs.Base.{ℕ, ◌^◌, pos, List, [], ◌∷◌}
use fuse_rs.Platform.{Libc}
use fuse_rs.Abi.Structs.{FuseInHeader, FuseInitIn, FuseMknodIn, FuseForgetIn}
use fuse_rs.Ll.Operation.{Operation, init, mk_nod, forget, get_attr}
use fuse_rs.Ll
use fuse_rs.Effect.{ChannelSender}
use fuse_rs.Channel.{Channel}
use fuse_rs.Session.{Session}
use fuse_rs.Request.{Request}
use fuse_rs.Filesystem.{Filesystem}
use fuse_rs.Filesystem.Default.{default_filesystem}

abbrev pub linux : Libc
linux = record {
  eio = pos 5;
  enosys = pos 38;
  eproto = pos 71;
  enoent = pos 2;
  eintr = pos 4;
  eagain = pos 11;
  enodev = pos 19;
  s_ififo = 4096;
  s_ifchr = 8192;
  s_ifblk = 24576;
  s_ifdir = 16384;
  s_ifreg = 32768;
  s_iflnk = 40960;
  s_ifsock = 49152;
  with_capacity = λ n. n;
}

abbrev pub header_of : ℕ → ℕ → FuseInHeader
header_of len opcode = record {
  len = len;
  opcode = opcode;
  unique = 16045690984229367821;
  nodeid = 1234605616436508552;
  uid = 3221344269;
  gid = 3221342974;
  pid = 3235822174;
  padding = 0;
}

abbrev pub init_in : FuseInitIn
init_in = record { major = 7; minor = 8; max_readahead = 4096; flags = 0 }

abbrev pub old_init_in : FuseInitIn
old_init_in = record { major = 7; minor = 5; max_readahead = 4096; flags = 0 }

abbrev pub mknod_in : FuseMknodIn
mknod_in = record { mode = 420; rdev = 0 }

abbrev pub forget_in : FuseForgetIn
forget_in = record { nlookup = 3 }

-- "foo.txt"
abbrev pub foo_txt : List ℕ
foo_txt = 102 ∷ 111 ∷ 111 ∷ 46 ∷ 116 ∷ 120 ∷ 116 ∷ []

abbrev pub mknod_request : Ll.Request.Request
mknod_request = record { header = header_of 56 8; operation = mk_nod mknod_in foo_txt }

-- MKNOD_REQUEST of the tests of src/ll/request.rs.
abbrev pub mknod_bytes : List ℕ
mknod_bytes =
    56 ∷ 0 ∷ 0 ∷ 0 ∷ 8 ∷ 0 ∷ 0 ∷ 0 ∷ 13 ∷ 240 ∷ 173 ∷ 186 ∷ 239 ∷ 190 ∷ 173 ∷ 222 ∷ 136 ∷ 119 ∷ 102
    ∷ 85 ∷ 68 ∷ 51 ∷ 34 ∷ 17 ∷ 13 ∷ 208 ∷ 1 ∷ 192 ∷ 254 ∷ 202 ∷ 1 ∷ 192 ∷ 94 ∷ 186 ∷ 222 ∷ 192 ∷ 0
    ∷ 0 ∷ 0 ∷ 0 ∷ 164 ∷ 1 ∷ 0 ∷ 0 ∷ 0 ∷ 0 ∷ 0 ∷ 0 ∷ 102 ∷ 111 ∷ 111 ∷ 46 ∷ 116 ∷ 120 ∷ 116 ∷ 0 ∷ []

abbrev pub channel : Channel
channel = record { mountpoint = 47 ∷ []; fd = pos 3 }

abbrev pub sender_3 : ChannelSender
sender_3 = record { fd = pos 3 }

abbrev pub request_of : Operation → Request
request_of op = record {
  ch = sender_3;
  bytes = [];
  request = record { header = header_of 56 0; operation = op };
}

abbrev pub no_files : Filesystem ℕ
no_files = default_filesystem linux
