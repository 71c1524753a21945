-- ===== src/Reply/Directory.antt =====
-- `ReplyDirectory` of src/reply.rs: a buffer of directory entries with a capacity.
pub mod Bounds
pub mod Readback
pub mod Prefix
use fuse_rs.Base.{
  ℕ, ◌+◌, ◌-◌, ◌/◌, ◌^◌, ℤ, pos, Bool, true, false, List, [], ◌∷◌, ◌++◌, bit_and, ltb,
  if◌then◌else◌, length, replicate, u32_cast, as_u64,
}
use fuse_rs.Abi.Layout.{size_of, to_bytes}
use fuse_rs.Abi.Structs.{FuseDirent, fuse_dirent_struct}
use fuse_rs.Platform.{Libc}
use fuse_rs.Effect.{ChannelSender, Outcome}
use fuse_rs.Reply.Raw.{ReplyRaw, send_all}
use fuse_rs.Reply.Raw
use fuse_rs.Reply.Attr.{FileType, mode_from_kind_and_perm}

-- `buffer` is the field `data` of the source, a `Vec<u8>`, with its capacity.
pub record ReplyDirectory : Type 0 where
  pub reply : ReplyRaw
  pub buffer : List ℕ
  pub capacity : ℕ

-- The arguments of `add`.
pub record DirEntry : Type 0 where
  pub ino : ℕ
  pub offset : ℤ
  pub kind : FileType
  pub name : List ℕ

-- `!(mem::size_of::<u64>() - 1)` on a 64-bit `usize`.
abbrev pub align_mask : ℕ
align_mask = 2 ^ 64 - 1 - (8 - 1)

unfoldable pub entlen : DirEntry → ℕ
entlen e = size_of fuse_dirent_struct.layout + length e.name

unfoldable pub entsize : DirEntry → ℕ
entsize e = bit_and (entlen e + 8 - 1) align_mask

module _ (c : Libc) where
  unfoldable pub new : ℕ → ChannelSender → ℕ → ReplyDirectory
  new unique sender size = record {
    reply = Raw.new unique sender;
    buffer = [];
    capacity = c.with_capacity size;
  }

  -- The header that is written for an entry.
  unfoldable pub dirent : DirEntry → FuseDirent
  dirent e = record {
    ino = e.ino;
    off = as_u64 e.offset;
    namelen = u32_cast (length e.name);
    typ = mode_from_kind_and_perm c e.kind 0 / 2 ^ 12;
  }

  -- The bytes that are written: the header, the name, and zeros up to the size of the entry.
  unfoldable pub entry_bytes : DirEntry → List ℕ
  entry_bytes e = to_bytes (dirent e) ++ (e.name ++ replicate (entsize e - entlen e) 0)

  -- True if the entry does not fit any more; then nothing is written.
  unfoldable pub add : ReplyDirectory → DirEntry → ReplyDirectory × Bool
  add d e =
      if ltb d.capacity (length d.buffer + entsize e)
      then (d, true)
      else (record d { buffer = d.buffer ++ entry_bytes e }, false)

  unfoldable pub ok : ReplyDirectory → Outcome (Unit {0})
  ok d = send_all c d.reply (pos 0) (d.buffer ∷ [])

  unfoldable pub error : ReplyDirectory → ℤ → Outcome (Unit {0})
  error d err = Raw.error c d.reply err
