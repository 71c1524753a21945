-- ===== src/Tests/Packets.antt =====
-- Parsing at the packets of the tests of src/ll/request.rs.
use fuse_rs.Base.{◌≡◌, refl, ◌∷◌, ◌++◌, [], some, arith, length, length-append, ◌↔◌, All, take}
use fuse_rs.Base.Result.{ok, err}
use fuse_rs.Abi.Layout.{
  to_bytes, of_bytes, size_of, end_offset, alignment, padding, scalar_size, decode, decode_fields,
  decode_scalar,
}
use fuse_rs.Abi.Layout.RoundTrip.{length-to_bytes}
use fuse_rs.Abi.Structs.{fuse_in_header_struct, fuse_mknod_in_struct}
use fuse_rs.Abi.Opcode.{fuse_mknod, code}
use fuse_rs.Ll.Argument.{fetch_str, fetch, fetch_bytes, position}
use fuse_rs.Ll.Argument.Laws.{from, NonZero, fetch_str_iff}
use fuse_rs.Ll.Operation.{parse, opcode, mk_nod}
use fuse_rs.Ll.Operation.Grammar.{Reads}
use fuse_rs.Ll.Operation.Complete.{parse_iff}
use fuse_rs.Ll.Operation.Wire.{encode}
use fuse_rs.Ll.Request.{try_from, parse_body, short_read_header, short_read}
use fuse_rs.Ll.Request.Spec.{Explains, Holds, try_from-Explains, try_from-ok_iff, try_from-encode}
use fuse_rs.Ll.Argument
use fuse_rs.Abi.Opcode
use fuse_rs.Tests.{header_of, mknod_in, foo_txt, mknod_request, mknod_bytes}

try_from-Explains_example : Explains mknod_bytes (try_from mknod_bytes)
try_from-Explains_example = try_from-Explains mknod_bytes

try_from-ok_iff_example :
    (try_from mknod_bytes ≡ ok mknod_request) ↔ Holds mknod_bytes mknod_request
try_from-ok_iff_example = try_from-ok_iff mknod_bytes mknod_request

size_of_in_header : size_of fuse_in_header_struct.layout ≡ 40
unfolding size_of end_offset alignment padding scalar_size
size_of_in_header = refl

size_of_mknod_in : size_of fuse_mknod_in_struct.layout ≡ 8
unfolding size_of end_offset alignment padding scalar_size
size_of_mknod_in = refl

mknod_length : length (to_bytes (header_of 56 8) ++ encode (mk_nod mknod_in foo_txt) []) ≡ 56
unfolding encode
mknod_length = omega (
  arith,
  length-append (to_bytes (header_of 56 8)) (to_bytes mknod_in ++ (foo_txt ++ 0 ∷ [])),
  length-append (to_bytes mknod_in) (foo_txt ++ 0 ∷ []),
  length-to_bytes (header_of 56 8),
  length-to_bytes mknod_in,
  size_of_in_header,
  size_of_mknod_in,
)

try_from-encode_example :
    try_from (to_bytes (header_of 56 8) ++ encode (mk_nod mknod_in foo_txt) []) ≡ ok mknod_request
unfolding code opcode encode
try_from-encode_example =
    try_from-encode (header_of 56 8) (mk_nod mknod_in foo_txt) [] (omega arith) (omega arith) refl
      (omega (arith, mknod_length))

parse_iff_example :
    (parse fuse_mknod (from (encode (mk_nod mknod_in foo_txt) []))
      ≡ (some (mk_nod mknod_in foo_txt), from []))
    ↔ ((opcode (mk_nod mknod_in foo_txt) ≡ fuse_mknod)
        × Reads (mk_nod mknod_in foo_txt) (encode (mk_nod mknod_in foo_txt) []) [])
parse_iff_example =
    parse_iff fuse_mknod (from (encode (mk_nod mknod_in foo_txt) [])) (from [])
      (mk_nod mknod_in foo_txt)

fetch_str_iff_example :
    (fetch_str (from (foo_txt ++ 0 ∷ [])) ≡ (some foo_txt, from []))
    ↔ ((foo_txt ++ 0 ∷ [] ≡ foo_txt ++ 0 ∷ []) × All NonZero foo_txt)
fetch_str_iff_example = fetch_str_iff (from (foo_txt ++ 0 ∷ [])) (from []) foo_txt

-- The tests of src/ll/request.rs.
mknod_test : try_from mknod_bytes ≡ ok mknod_request
unfolding try_from parse_body Argument.new Argument.len fetch fetch_bytes fetch_str position
    Opcode.try_from parse of_bytes decode decode_fields decode_scalar size_of end_offset alignment
    padding scalar_size
mknod_test = refl

short_read_header_test : try_from (take 20 mknod_bytes) ≡ err (short_read_header 20)
unfolding try_from Argument.new Argument.len fetch fetch_bytes size_of end_offset alignment padding
    scalar_size
short_read_header_test = refl

short_read_test : try_from (take 48 mknod_bytes) ≡ err (short_read 48 56)
unfolding try_from parse_body Argument.new Argument.len fetch fetch_bytes Opcode.try_from of_bytes
    decode decode_fields decode_scalar size_of end_offset alignment padding scalar_size
short_read_test = refl
