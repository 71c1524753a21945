-- ===== src/Tests/ReplyBytes.antt =====
-- The tests of src/reply.rs on the bytes of each type of reply.
use fuse_rs.Base.{ℕ, ◌≡◌, refl, List, [], ◌∷◌, pos}
use fuse_rs.Abi.Layout.Pair.{pair_to_fields}
use fuse_rs.Abi.Layout.{
  to_bytes, encode, encode_fields, encode_scalar, size_of, end_offset, alignment, padding,
  scalar_size,
}
use fuse_rs.Platform.{Duration, SystemTime, duration_since_epoch}
use fuse_rs.Effect.{Outcome, done}
use fuse_rs.Reply.Raw.{send, send_all, as_bytes, out_header, drop, ok, new}
use fuse_rs.Reply.Types.{
  create, reply_empty, reply_data, reply_entry, reply_attr, reply_open, reply_write, reply_statfs,
  reply_create, reply_lock, reply_bmap, reply_xattr,
}
use fuse_rs.Reply.Typed.{
  empty, with_data, entry, attr, opened, written, statfs, created, locked, bmap, size, xattr_data,
  entry_out, open_out,
}
use fuse_rs.Reply.Attr.{
  FileAttr, regular_file, fuse_attr_from_attr, time_from_system_time, mode_from_kind_and_perm,
  format_of_kind,
}
use fuse_rs.Reply.Macos.{xtimes, reply_xtimes}
use fuse_rs.Tests.{linux, sender_3}

abbrev unique : ℕ
unique = 3735928559

abbrev pub time : SystemTime
time = record { secs = pos 4660; nanos = 22136 }

abbrev pub ttl : Duration
ttl = record { secs = 34661; nanos = 17185 }

abbrev pub file : FileAttr
file = record {
  ino = 17;
  size = 34;
  blocks = 51;
  atime = time;
  mtime = time;
  ctime = time;
  crtime = time;
  kind = regular_file;
  perm = 420;
  nlink = 85;
  uid = 102;
  gid = 119;
  rdev = 136;
  flags = 153;
}

-- One packet with these slices.
abbrev sends : List (List ℕ) → Outcome (Unit {0})
sends slices = done tt (record { fd = pos 3; slices = slices } ∷ [])

reply_empty_test :
    empty linux (create unique sender_3)
    ≡ sends ((16 ∷ 0 ∷ 0 ∷ 0 ∷ 0 ∷ 0 ∷ 0 ∷ 0 ∷ 239 ∷ 190 ∷ 173 ∷ 222 ∷ 0 ∷ 0 ∷ 0 ∷ 0 ∷ []) ∷ [])
unfolding empty send_all send as_bytes out_header drop new to_bytes encode encode_fields
    encode_scalar size_of end_offset alignment padding scalar_size
reply_empty_test = refl

reply_data_test :
    with_data linux (create unique sender_3) (222 ∷ 173 ∷ 190 ∷ 239 ∷ [])
    ≡ sends (
        (20 ∷ 0 ∷ 0 ∷ 0 ∷ 0 ∷ 0 ∷ 0 ∷ 0 ∷ 239 ∷ 190 ∷ 173 ∷ 222 ∷ 0 ∷ 0 ∷ 0 ∷ 0 ∷ [])
        ∷ (222 ∷ 173 ∷ 190 ∷ 239 ∷ [])
        ∷ [])
unfolding with_data send_all send as_bytes out_header drop new to_bytes encode encode_fields
    encode_scalar size_of end_offset alignment padding scalar_size
reply_data_test = refl

reply_entry_test :
    entry linux (create unique sender_3) ttl file 170
    ≡ sends (
        (136 ∷ 0 ∷ 0 ∷ 0 ∷ 0 ∷ 0 ∷ 0 ∷ 0 ∷ 239 ∷ 190 ∷ 173 ∷ 222 ∷ 0 ∷ 0 ∷ 0 ∷ 0 ∷ [])
        ∷ (17 ∷ 0 ∷ 0 ∷ 0 ∷ 0 ∷ 0 ∷ 0 ∷ 0 ∷ 170 ∷ 0 ∷ 0 ∷ 0 ∷ 0 ∷ 0 ∷ 0 ∷ 0 ∷ 101 ∷ 135 ∷ 0 ∷ 0 ∷ 0
            ∷ 0 ∷ 0 ∷ 0 ∷ 101 ∷ 135 ∷ 0 ∷ 0 ∷ 0 ∷ 0 ∷ 0 ∷ 0 ∷ 33 ∷ 67 ∷ 0 ∷ 0 ∷ 33 ∷ 67 ∷ 0 ∷ 0 ∷ 17
            ∷ 0 ∷ 0 ∷ 0 ∷ 0 ∷ 0 ∷ 0 ∷ 0 ∷ 34 ∷ 0 ∷ 0 ∷ 0 ∷ 0 ∷ 0 ∷ 0 ∷ 0 ∷ 51 ∷ 0 ∷ 0 ∷ 0 ∷ 0 ∷ 0
            ∷ 0 ∷ 0 ∷ 52 ∷ 18 ∷ 0 ∷ 0 ∷ 0 ∷ 0 ∷ 0 ∷ 0 ∷ 52 ∷ 18 ∷ 0 ∷ 0 ∷ 0 ∷ 0 ∷ 0 ∷ 0 ∷ 52 ∷ 18
            ∷ 0 ∷ 0 ∷ 0 ∷ 0 ∷ 0 ∷ 0 ∷ 120 ∷ 86 ∷ 0 ∷ 0 ∷ 120 ∷ 86 ∷ 0 ∷ 0 ∷ 120 ∷ 86 ∷ 0 ∷ 0 ∷ 164
            ∷ 129 ∷ 0 ∷ 0 ∷ 85 ∷ 0 ∷ 0 ∷ 0 ∷ 102 ∷ 0 ∷ 0 ∷ 0 ∷ 119 ∷ 0 ∷ 0 ∷ 0 ∷ 136 ∷ 0 ∷ 0 ∷ 0
            ∷ [])
        ∷ [])
unfolding entry send_all send as_bytes out_header drop new to_bytes encode encode_fields
    encode_scalar size_of end_offset alignment padding scalar_size fuse_attr_from_attr
    time_from_system_time duration_since_epoch mode_from_kind_and_perm format_of_kind entry_out ok
reply_entry_test = refl

reply_attr_test :
    attr linux (create unique sender_3) ttl file
    ≡ sends (
        (112 ∷ 0 ∷ 0 ∷ 0 ∷ 0 ∷ 0 ∷ 0 ∷ 0 ∷ 239 ∷ 190 ∷ 173 ∷ 222 ∷ 0 ∷ 0 ∷ 0 ∷ 0 ∷ [])
        ∷ (101 ∷ 135 ∷ 0 ∷ 0 ∷ 0 ∷ 0 ∷ 0 ∷ 0 ∷ 33 ∷ 67 ∷ 0 ∷ 0 ∷ 0 ∷ 0 ∷ 0 ∷ 0 ∷ 17 ∷ 0 ∷ 0 ∷ 0 ∷ 0
            ∷ 0 ∷ 0 ∷ 0 ∷ 34 ∷ 0 ∷ 0 ∷ 0 ∷ 0 ∷ 0 ∷ 0 ∷ 0 ∷ 51 ∷ 0 ∷ 0 ∷ 0 ∷ 0 ∷ 0 ∷ 0 ∷ 0 ∷ 52 ∷ 18
            ∷ 0 ∷ 0 ∷ 0 ∷ 0 ∷ 0 ∷ 0 ∷ 52 ∷ 18 ∷ 0 ∷ 0 ∷ 0 ∷ 0 ∷ 0 ∷ 0 ∷ 52 ∷ 18 ∷ 0 ∷ 0 ∷ 0 ∷ 0 ∷ 0
            ∷ 0 ∷ 120 ∷ 86 ∷ 0 ∷ 0 ∷ 120 ∷ 86 ∷ 0 ∷ 0 ∷ 120 ∷ 86 ∷ 0 ∷ 0 ∷ 164 ∷ 129 ∷ 0 ∷ 0 ∷ 85
            ∷ 0 ∷ 0 ∷ 0 ∷ 102 ∷ 0 ∷ 0 ∷ 0 ∷ 119 ∷ 0 ∷ 0 ∷ 0 ∷ 136 ∷ 0 ∷ 0 ∷ 0 ∷ [])
        ∷ [])
unfolding attr send_all send as_bytes out_header drop new to_bytes encode encode_fields
    encode_scalar size_of end_offset alignment padding scalar_size fuse_attr_from_attr
    time_from_system_time duration_since_epoch mode_from_kind_and_perm format_of_kind ok
reply_attr_test = refl

reply_xtimes_test :
    xtimes linux (create unique sender_3) time time
    ≡ sends (
        (40 ∷ 0 ∷ 0 ∷ 0 ∷ 0 ∷ 0 ∷ 0 ∷ 0 ∷ 239 ∷ 190 ∷ 173 ∷ 222 ∷ 0 ∷ 0 ∷ 0 ∷ 0 ∷ [])
        ∷ (52 ∷ 18 ∷ 0 ∷ 0 ∷ 0 ∷ 0 ∷ 0 ∷ 0 ∷ 52 ∷ 18 ∷ 0 ∷ 0 ∷ 0 ∷ 0 ∷ 0 ∷ 0 ∷ 120 ∷ 86 ∷ 0 ∷ 0
            ∷ 120 ∷ 86 ∷ 0 ∷ 0 ∷ [])
        ∷ [])
unfolding xtimes send_all send as_bytes out_header drop new to_bytes encode encode_fields
    encode_scalar size_of end_offset alignment padding scalar_size time_from_system_time
    duration_since_epoch ok
reply_xtimes_test = refl

reply_open_test :
    opened linux (create unique sender_3) 4386 51
    ≡ sends (
        (32 ∷ 0 ∷ 0 ∷ 0 ∷ 0 ∷ 0 ∷ 0 ∷ 0 ∷ 239 ∷ 190 ∷ 173 ∷ 222 ∷ 0 ∷ 0 ∷ 0 ∷ 0 ∷ [])
        ∷ (34 ∷ 17 ∷ 0 ∷ 0 ∷ 0 ∷ 0 ∷ 0 ∷ 0 ∷ 51 ∷ 0 ∷ 0 ∷ 0 ∷ 0 ∷ 0 ∷ 0 ∷ 0 ∷ [])
        ∷ [])
unfolding opened send_all send as_bytes out_header drop new to_bytes encode encode_fields
    encode_scalar size_of end_offset alignment padding scalar_size open_out ok
reply_open_test = refl

reply_write_test :
    written linux (create unique sender_3) 4386
    ≡ sends (
        (24 ∷ 0 ∷ 0 ∷ 0 ∷ 0 ∷ 0 ∷ 0 ∷ 0 ∷ 239 ∷ 190 ∷ 173 ∷ 222 ∷ 0 ∷ 0 ∷ 0 ∷ 0 ∷ [])
        ∷ (34 ∷ 17 ∷ 0 ∷ 0 ∷ 0 ∷ 0 ∷ 0 ∷ 0 ∷ [])
        ∷ [])
unfolding written send_all send as_bytes out_header drop new to_bytes encode encode_fields
    encode_scalar size_of end_offset alignment padding scalar_size ok
reply_write_test = refl

reply_statfs_test :
    statfs linux (create unique sender_3) 17 34 51 68 85 102 119 136
    ≡ sends (
        (96 ∷ 0 ∷ 0 ∷ 0 ∷ 0 ∷ 0 ∷ 0 ∷ 0 ∷ 239 ∷ 190 ∷ 173 ∷ 222 ∷ 0 ∷ 0 ∷ 0 ∷ 0 ∷ [])
        ∷ (17 ∷ 0 ∷ 0 ∷ 0 ∷ 0 ∷ 0 ∷ 0 ∷ 0 ∷ 34 ∷ 0 ∷ 0 ∷ 0 ∷ 0 ∷ 0 ∷ 0 ∷ 0 ∷ 51 ∷ 0 ∷ 0 ∷ 0 ∷ 0 ∷ 0
            ∷ 0 ∷ 0 ∷ 68 ∷ 0 ∷ 0 ∷ 0 ∷ 0 ∷ 0 ∷ 0 ∷ 0 ∷ 85 ∷ 0 ∷ 0 ∷ 0 ∷ 0 ∷ 0 ∷ 0 ∷ 0 ∷ 102 ∷ 0 ∷ 0
            ∷ 0 ∷ 119 ∷ 0 ∷ 0 ∷ 0 ∷ 136 ∷ 0 ∷ 0 ∷ 0 ∷ 0 ∷ 0 ∷ 0 ∷ 0 ∷ 0 ∷ 0 ∷ 0 ∷ 0 ∷ 0 ∷ 0 ∷ 0 ∷ 0
            ∷ 0 ∷ 0 ∷ 0 ∷ 0 ∷ 0 ∷ 0 ∷ 0 ∷ 0 ∷ 0 ∷ 0 ∷ 0 ∷ 0 ∷ 0 ∷ 0 ∷ 0 ∷ 0 ∷ [])
        ∷ [])
unfolding statfs send_all send as_bytes out_header drop new to_bytes encode encode_fields
    encode_scalar size_of end_offset alignment padding scalar_size ok
reply_statfs_test = refl

reply_create_test :
    created linux (create unique sender_3) ttl file 170 187 204
    ≡ sends (
        (152 ∷ 0 ∷ 0 ∷ 0 ∷ 0 ∷ 0 ∷ 0 ∷ 0 ∷ 239 ∷ 190 ∷ 173 ∷ 222 ∷ 0 ∷ 0 ∷ 0 ∷ 0 ∷ [])
        ∷ (17 ∷ 0 ∷ 0 ∷ 0 ∷ 0 ∷ 0 ∷ 0 ∷ 0 ∷ 170 ∷ 0 ∷ 0 ∷ 0 ∷ 0 ∷ 0 ∷ 0 ∷ 0 ∷ 101 ∷ 135 ∷ 0 ∷ 0 ∷ 0
            ∷ 0 ∷ 0 ∷ 0 ∷ 101 ∷ 135 ∷ 0 ∷ 0 ∷ 0 ∷ 0 ∷ 0 ∷ 0 ∷ 33 ∷ 67 ∷ 0 ∷ 0 ∷ 33 ∷ 67 ∷ 0 ∷ 0 ∷ 17
            ∷ 0 ∷ 0 ∷ 0 ∷ 0 ∷ 0 ∷ 0 ∷ 0 ∷ 34 ∷ 0 ∷ 0 ∷ 0 ∷ 0 ∷ 0 ∷ 0 ∷ 0 ∷ 51 ∷ 0 ∷ 0 ∷ 0 ∷ 0 ∷ 0
            ∷ 0 ∷ 0 ∷ 52 ∷ 18 ∷ 0 ∷ 0 ∷ 0 ∷ 0 ∷ 0 ∷ 0 ∷ 52 ∷ 18 ∷ 0 ∷ 0 ∷ 0 ∷ 0 ∷ 0 ∷ 0 ∷ 52 ∷ 18
            ∷ 0 ∷ 0 ∷ 0 ∷ 0 ∷ 0 ∷ 0 ∷ 120 ∷ 86 ∷ 0 ∷ 0 ∷ 120 ∷ 86 ∷ 0 ∷ 0 ∷ 120 ∷ 86 ∷ 0 ∷ 0 ∷ 164
            ∷ 129 ∷ 0 ∷ 0 ∷ 85 ∷ 0 ∷ 0 ∷ 0 ∷ 102 ∷ 0 ∷ 0 ∷ 0 ∷ 119 ∷ 0 ∷ 0 ∷ 0 ∷ 136 ∷ 0 ∷ 0 ∷ 0
            ∷ 187 ∷ 0 ∷ 0 ∷ 0 ∷ 0 ∷ 0 ∷ 0 ∷ 0 ∷ 204 ∷ 0 ∷ 0 ∷ 0 ∷ 0 ∷ 0 ∷ 0 ∷ 0 ∷ [])
        ∷ [])
unfolding created send_all send as_bytes out_header drop new to_bytes encode encode_fields
    encode_scalar size_of end_offset alignment padding scalar_size fuse_attr_from_attr
    time_from_system_time duration_since_epoch mode_from_kind_and_perm format_of_kind entry_out
    open_out pair_to_fields ok
reply_create_test = refl

reply_lock_test :
    locked linux (create unique sender_3) 17 34 51 68
    ≡ sends (
        (40 ∷ 0 ∷ 0 ∷ 0 ∷ 0 ∷ 0 ∷ 0 ∷ 0 ∷ 239 ∷ 190 ∷ 173 ∷ 222 ∷ 0 ∷ 0 ∷ 0 ∷ 0 ∷ [])
        ∷ (17 ∷ 0 ∷ 0 ∷ 0 ∷ 0 ∷ 0 ∷ 0 ∷ 0 ∷ 34 ∷ 0 ∷ 0 ∷ 0 ∷ 0 ∷ 0 ∷ 0 ∷ 0 ∷ 51 ∷ 0 ∷ 0 ∷ 0 ∷ 68 ∷ 0
            ∷ 0 ∷ 0 ∷ [])
        ∷ [])
unfolding locked send_all send as_bytes out_header drop new to_bytes encode encode_fields
    encode_scalar size_of end_offset alignment padding scalar_size ok
reply_lock_test = refl

reply_bmap_test :
    bmap linux (create unique sender_3) 4660
    ≡ sends (
        (24 ∷ 0 ∷ 0 ∷ 0 ∷ 0 ∷ 0 ∷ 0 ∷ 0 ∷ 239 ∷ 190 ∷ 173 ∷ 222 ∷ 0 ∷ 0 ∷ 0 ∷ 0 ∷ [])
        ∷ (52 ∷ 18 ∷ 0 ∷ 0 ∷ 0 ∷ 0 ∷ 0 ∷ 0 ∷ [])
        ∷ [])
unfolding bmap send_all send as_bytes out_header drop new to_bytes encode encode_fields
    encode_scalar size_of end_offset alignment padding scalar_size ok
reply_bmap_test = refl

reply_xattr_size_test :
    size linux (create unique sender_3) 305419896
    ≡ sends (
        (24 ∷ 0 ∷ 0 ∷ 0 ∷ 0 ∷ 0 ∷ 0 ∷ 0 ∷ 239 ∷ 190 ∷ 173 ∷ 222 ∷ 0 ∷ 0 ∷ 0 ∷ 0 ∷ [])
        ∷ (120 ∷ 86 ∷ 52 ∷ 18 ∷ 0 ∷ 0 ∷ 0 ∷ 0 ∷ [])
        ∷ [])
unfolding size send_all send as_bytes out_header drop new to_bytes encode encode_fields
    encode_scalar size_of end_offset alignment padding scalar_size ok
reply_xattr_size_test = refl

reply_xattr_data_test :
    xattr_data linux (create unique sender_3) (17 ∷ 34 ∷ 51 ∷ 68 ∷ [])
    ≡ sends (
        (20 ∷ 0 ∷ 0 ∷ 0 ∷ 0 ∷ 0 ∷ 0 ∷ 0 ∷ 239 ∷ 190 ∷ 173 ∷ 222 ∷ 0 ∷ 0 ∷ 0 ∷ 0 ∷ [])
        ∷ (17 ∷ 34 ∷ 51 ∷ 68 ∷ [])
        ∷ [])
unfolding xattr_data send_all send as_bytes out_header drop new to_bytes encode encode_fields
    encode_scalar size_of end_offset alignment padding scalar_size
reply_xattr_data_test = refl
