-- ===== src/Ll/Request.antt =====
-- `Request` and `RequestError` of src/ll/request.rs: a packet from the kernel driver, parsed.
pub mod Spec
use fuse_rs.Base.{ℕ, List, Option, none, some, ltb, length}
use fuse_rs.Base.Result.{Result, ok, err, ◌>>=◌, ◌>>◌, ok_or, fail_if}
use fuse_rs.Abi.Structs.{FuseInHeader, fuse_in_header_struct}
use fuse_rs.Abi.Opcode.{FuseOpcode}
use fuse_rs.Abi.Opcode
use fuse_rs.Ll.Argument.{ArgumentIterator, new, len, fetch}
use fuse_rs.Ll.Operation.{Operation, parse}

pub data RequestError : Type 0 where
  short_read_header : ℕ → RequestError
  unknown_operation : ℕ → RequestError
  short_read : ℕ → ℕ → RequestError
  insufficient_data : RequestError

pub record Request : Type 0 where
  pub header : FuseInHeader
  pub operation : Operation

-- The rest of `try_from`, with the header and the iterator behind it.
unfoldable pub parse_body : ℕ → FuseInHeader → ArgumentIterator → Result RequestError Request
parse_body data_len header it = do
  oc ← ok_or (Opcode.try_from header.opcode) (unknown_operation header.opcode)
  fail_if (ltb data_len header.len) (short_read data_len header.len)
  operation ← ok_or (parse oc it).0 insufficient_data
  ok (record { header = header; operation = operation })

-- `TryFrom<&[u8]>`.
unfoldable pub try_from : List ℕ → Result RequestError Request
unfolding parse_body
try_from bytes =
    let data_len = length bytes in
    let (header, it) = fetch {T = FuseInHeader} (new bytes) in
    do h ← ok_or header (short_read_header (len it)); parse_body data_len h it

unfoldable pub unique : Request → ℕ
unique r = r.header.unique

unfoldable pub nodeid : Request → ℕ
nodeid r = r.header.nodeid

unfoldable pub uid : Request → ℕ
uid r = r.header.uid

unfoldable pub gid : Request → ℕ
gid r = r.header.gid

unfoldable pub pid : Request → ℕ
pid r = r.header.pid
