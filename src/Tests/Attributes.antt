-- ===== src/Tests/Attributes.antt =====
-- Attributes at concrete inputs, read back from replies.
use fuse_rs.Base.{◌%◌, ◌≡◌, refl, some, arith}
use fuse_rs.Abi.Structs.{
  FuseAttr, FuseEntryOut, fuse_entry_out_struct, FuseOpenOut, fuse_open_out_struct,
}
use fuse_rs.Abi.Layout.Pair.{pair_struct}
use fuse_rs.Platform.{duration_since_epoch}
use fuse_rs.Reply.Types.{create, reply_create}
use fuse_rs.Reply.Typed.{created, entry_out}
use fuse_rs.Reply.Attr.{
  FileType, named_pipe, char_device, block_device, directory, regular_file, symlink, socket,
  fuse_attr_from_attr, time_from_system_time, mode_from_kind_and_perm, format_of_kind,
}
use fuse_rs.Reply.Attr.Readback.{HasFormats}
use fuse_rs.Reply.Typed.Readback.{Tells, Delivers, created-Delivers}
use fuse_rs.Tests.{linux, sender_3}
use fuse_rs.Tests.ReplyBytes.{file, ttl}

formats_above : (kind : FileType) → format_of_kind linux kind % 4096 ≡ 0
unfolding format_of_kind
formats_above named_pipe = refl
formats_above char_device = refl
formats_above block_device = refl
formats_above directory = refl
formats_above regular_file = refl
formats_above symlink = refl
formats_above socket = refl

formats_differ :
    (kind kind' : FileType) → format_of_kind linux kind ≡ format_of_kind linux kind' → kind ≡ kind'
unfolding format_of_kind
formats_differ named_pipe named_pipe h = refl
formats_differ char_device char_device h = refl
formats_differ block_device block_device h = refl
formats_differ directory directory h = refl
formats_differ regular_file regular_file h = refl
formats_differ symlink symlink h = refl
formats_differ socket socket h = refl
formats_differ _ _ h = absurd (omega arith)

pub linux_formats : HasFormats linux
linux_formats = record { above = formats_above; differ = formats_differ }

abbrev sent_file : FuseAttr
sent_file = record {
  ino = 17;
  size = 34;
  blocks = 51;
  atime = 4660;
  mtime = 4660;
  ctime = 4660;
  atimensec = 22136;
  mtimensec = 22136;
  ctimensec = 22136;
  mode = 33188;
  nlink = 85;
  uid = 102;
  gid = 119;
  rdev = 136;
}

file_sent : fuse_attr_from_attr linux file ≡ some sent_file
unfolding fuse_attr_from_attr time_from_system_time duration_since_epoch mode_from_kind_and_perm
    format_of_kind
file_sent = refl

created-Delivers_example :
    (e : FuseEntryOut) × (o : FuseOpenOut) × Tells linux ttl file 170 e
    × (o.fh ≡ 187)
    × (o.open_flags ≡ 204)
    × Delivers {T = FuseEntryOut × FuseOpenOut} 9
        (e, o)
        (created linux (create 9 sender_3) ttl file 170 187 204)
unfolding entry_out
created-Delivers_example =
    created-Delivers linux linux_formats sender_3 9 (omega arith) ttl file sent_file 170
      (omega arith) file_sent 187 204 (omega arith) (omega arith) (omega arith)
