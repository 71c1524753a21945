-- ===== src/Tests/Replies.antt =====
-- Replies at concrete inputs.
use fuse_rs.Base.{ℕ, ◌≡◌, refl, ◌∷◌, [], List, pos, neg, some, arith, length, concat, map}
use fuse_rs.Abi.Structs.{FuseOutHeader, fuse_out_header_struct}
use fuse_rs.Effect.{done}
use fuse_rs.Ll.Argument.{fetch}
use fuse_rs.Ll.Argument.Laws.{from}
use fuse_rs.Reply.Raw.{new, send, error, send_all, as_bytes, out_header, drop}
use fuse_rs.Reply.Raw.Laws.{packet, fetch-packet}
use fuse_rs.Reply.Attr.{regular_file, directory, format_of_kind, mode_from_kind_and_perm}
use fuse_rs.Reply.Types.{reply_create}
use fuse_rs.Reply.Directory.{DirEntry, entlen, entsize, dirent, entry_bytes}
use fuse_rs.Reply.Directory
use fuse_rs.Reply.Directory.Bounds.{Inv, new-Inv, add_all, add_all-Inv}
use fuse_rs.Reply.Directory.Readback.{read_dirents, accepted, read_dirents-add_all}
use fuse_rs.Abi.Layout.{
  to_bytes, encode, encode_fields, encode_scalar, size_of, end_offset, alignment, padding,
  scalar_size,
}
use fuse_rs.Tests.{linux, sender_3, foo_txt}

abbrev payload : List (List ℕ)
payload = (1 ∷ 2 ∷ 3 ∷ []) ∷ (4 ∷ []) ∷ []

fetch-packet_example :
    fetch {T = FuseOutHeader} (from (concat (packet sender_3 9 (pos 66) payload).slices)) ≡ (
      some (record {
        len = length (concat (packet sender_3 9 (pos 66) payload).slices);
        error = neg (pos 66);
        unique = 9;
      }),
      from (concat payload),
    )
fetch-packet_example =
    fetch-packet sender_3 9 (pos 66) payload (omega arith) (omega arith) (omega arith)

abbrev dot : DirEntry
dot = record { ino = 1; offset = pos 1; kind = directory; name = 46 ∷ [] }

abbrev foo : DirEntry
foo = record { ino = 2; offset = pos 2; kind = regular_file; name = foo_txt }

abbrev listing : List DirEntry
listing = dot ∷ foo ∷ []

add_all-Inv_example : Inv linux (add_all linux (Directory.new linux 9 sender_3 40) listing)
add_all-Inv_example =
    add_all-Inv linux (Directory.new linux 9 sender_3 40) listing (omega arith)
      (new-Inv linux 9 sender_3 40)

read_dirents-add_all_example :
    read_dirents
      (length (accepted linux (Directory.new linux 9 sender_3 64) listing))
      (add_all linux (Directory.new linux 9 sender_3 64) listing).buffer
    ≡ some (
        map
          (λ e. (dirent linux e, e.name))
          (accepted linux (Directory.new linux 9 sender_3 64) listing))
unfolding dirent mode_from_kind_and_perm format_of_kind
read_dirents-add_all_example = read_dirents-add_all linux 9 sender_3 64 listing (omega arith)

-- `reply_error` of the tests of src/reply.rs.
error_test :
    error linux (new 3735928559 sender_3) (pos 66)
    ≡ done tt (
        record {
          fd = pos 3;
          slices =
              (16 ∷ 0 ∷ 0 ∷ 0 ∷ 190 ∷ 255 ∷ 255 ∷ 255 ∷ 239 ∷ 190 ∷ 173 ∷ 222 ∷ 0 ∷ 0 ∷ 0 ∷ 0 ∷ [])
              ∷ [];
        }
        ∷ [])
unfolding error new send_all send as_bytes out_header drop to_bytes encode encode_fields
    encode_scalar size_of end_offset alignment padding scalar_size
error_test = refl

abbrev hello : DirEntry
hello = record {
  ino = 43707;
  offset = pos 1;
  kind = directory;
  name = 104 ∷ 101 ∷ 108 ∷ 108 ∷ 111 ∷ [];
}

abbrev world : DirEntry
world = record {
  ino = 52445;
  offset = pos 2;
  kind = regular_file;
  name = 119 ∷ 111 ∷ 114 ∷ 108 ∷ 100 ∷ 46 ∷ 114 ∷ 115 ∷ [];
}

-- `reply_directory` of the tests of src/reply.rs.
directory_test :
    (add_all linux (Directory.new linux 3735928559 sender_3 4096) (hello ∷ world ∷ [])).buffer
    ≡ 187 ∷ 170 ∷ 0 ∷ 0 ∷ 0 ∷ 0 ∷ 0 ∷ 0 ∷ 1 ∷ 0 ∷ 0 ∷ 0 ∷ 0 ∷ 0 ∷ 0 ∷ 0 ∷ 5 ∷ 0 ∷ 0 ∷ 0 ∷ 4 ∷ 0 ∷ 0
      ∷ 0 ∷ 104 ∷ 101 ∷ 108 ∷ 108 ∷ 111 ∷ 0 ∷ 0 ∷ 0 ∷ 221 ∷ 204 ∷ 0 ∷ 0 ∷ 0 ∷ 0 ∷ 0 ∷ 0 ∷ 2 ∷ 0 ∷ 0
      ∷ 0 ∷ 0 ∷ 0 ∷ 0 ∷ 0 ∷ 8 ∷ 0 ∷ 0 ∷ 0 ∷ 8 ∷ 0 ∷ 0 ∷ 0 ∷ 119 ∷ 111 ∷ 114 ∷ 108 ∷ 100 ∷ 46 ∷ 114
      ∷ 115 ∷ []
unfolding Directory.new Directory.add entry_bytes entsize entlen dirent mode_from_kind_and_perm
    format_of_kind to_bytes encode encode_fields encode_scalar size_of end_offset alignment padding
    scalar_size
directory_test = refl
