-- ===== src/Reply/Typed.antt =====
-- The methods of the typed replies of src/reply.rs. A method owns the reply: if it panics, the reply is
-- dropped.
pub mod Laws
pub mod Readback
use fuse_rs.Base.{ℕ, ◌≡◌, List, [], ◌∷◌, Option, none, some, pos}
use fuse_rs.Abi.Layout.Pair.{pair_struct}
use fuse_rs.Abi.Layout.{Fields, u32}
use fuse_rs.Base.{replicate}
use fuse_rs.Abi.Structs.{
  FuseAttr, FuseEntryOut, fuse_entry_out_struct, FuseAttrOut, fuse_attr_out_struct, FuseOpenOut,
  fuse_open_out_struct, FuseWriteOut, fuse_write_out_struct, FuseStatfsOut, fuse_statfs_out_struct,
  FuseLkOut, fuse_lk_out_struct, FuseBmapOut, fuse_bmap_out_struct, FuseGetxattrOut,
  fuse_getxattr_out_struct,
}
use fuse_rs.Platform.{Libc, Duration}
use fuse_rs.Effect.{Outcome, ◌>>=◌, unwrap}
use fuse_rs.Reply.Raw.{ok, drop, send_all}
use fuse_rs.Reply.Types.{
  ReplyEmpty, ReplyData, ReplyEntry, ReplyAttr, ReplyOpen, ReplyWrite, ReplyStatfs, ReplyCreate,
  ReplyLock, ReplyBmap, ReplyXattr,
}
use fuse_rs.Reply.Attr.{FileAttr, fuse_attr_from_attr}

abbrev zeros : Fields (replicate 6 u32)
zeros = (0, (0, (0, (0, (0, (0, tt))))))

-- The struct that LOOKUP and its like are answered with.
unfoldable pub entry_out : Duration → FuseAttr → ℕ → ℕ → FuseEntryOut
entry_out ttl attr ino generation = record {
  nodeid = ino;
  generation = generation;
  entry_valid = ttl.secs;
  attr_valid = ttl.secs;
  entry_valid_nsec = ttl.nanos;
  attr_valid_nsec = ttl.nanos;
  attr = attr;
}

unfoldable pub open_out : ℕ → ℕ → FuseOpenOut
open_out fh flags = record { fh = fh; open_flags = flags; padding = 0 }

module _ (c : Libc) where
  -- `ReplyEmpty::ok`.
  unfoldable pub empty : ReplyEmpty → Outcome (Unit {0})
  empty r = send_all c r.reply (pos 0) []

  -- `ReplyData::data`.
  unfoldable pub with_data : ReplyData → List ℕ → Outcome (Unit {0})
  with_data r bytes = send_all c r.reply (pos 0) (bytes ∷ [])

  -- `ReplyEntry::entry`.
  unfoldable pub entry : ReplyEntry → Duration → FileAttr → ℕ → Outcome (Unit {0})
  unfolding entry_out
  entry r ttl attr generation = do
    a ← unwrap (fuse_attr_from_attr c attr) (drop c r.reply)
    ok c r.reply (entry_out ttl a attr.ino generation)

  -- `ReplyAttr::attr`.
  unfoldable pub attr : ReplyAttr → Duration → FileAttr → Outcome (Unit {0})
  attr r ttl attributes = do
    a ← unwrap (fuse_attr_from_attr c attributes) (drop c r.reply)
    ok c {T = FuseAttrOut} r.reply
        (record { attr_valid = ttl.secs; attr_valid_nsec = ttl.nanos; dummy = 0; attr = a })

  -- `ReplyOpen::opened`.
  unfoldable pub opened : ReplyOpen → ℕ → ℕ → Outcome (Unit {0})
  unfolding open_out
  opened r fh flags = ok c r.reply (open_out fh flags)

  -- `ReplyWrite::written`.
  unfoldable pub written : ReplyWrite → ℕ → Outcome (Unit {0})
  written r size = ok c {T = FuseWriteOut} r.reply (record { size = size; padding = 0 })

  -- `ReplyStatfs::statfs`.
  unfoldable pub statfs : ReplyStatfs → ℕ → ℕ → ℕ → ℕ → ℕ → ℕ → ℕ → ℕ → Outcome (Unit {0})
  statfs r blocks bfree bavail files ffree bsize namelen frsize =
      ok c {T = FuseStatfsOut} r.reply (record {
        st = record {
          blocks = blocks;
          bfree = bfree;
          bavail = bavail;
          files = files;
          ffree = ffree;
          bsize = bsize;
          namelen = namelen;
          frsize = frsize;
          padding = 0;
          spare = zeros;
        };
      })

  -- `ReplyCreate::created`.
  unfoldable pub created : ReplyCreate → Duration → FileAttr → ℕ → ℕ → ℕ → Outcome (Unit {0})
  unfolding entry_out open_out
  created r ttl attributes generation fh flags = do
    a ← unwrap (fuse_attr_from_attr c attributes) (drop c r.reply)
    ok c {T = FuseEntryOut × FuseOpenOut} r.reply
        (entry_out ttl a attributes.ino generation, open_out fh flags)

  -- `ReplyLock::locked`.
  unfoldable pub locked : ReplyLock → ℕ → ℕ → ℕ → ℕ → Outcome (Unit {0})
  locked r start end typ pid =
      ok c {T = FuseLkOut} r.reply
        (record { lk = record { start = start; end = end; typ = typ; pid = pid } })

  -- `ReplyBmap::bmap`.
  unfoldable pub bmap : ReplyBmap → ℕ → Outcome (Unit {0})
  bmap r block = ok c {T = FuseBmapOut} r.reply (record { block = block })

  -- `ReplyXattr::size`.
  unfoldable pub size : ReplyXattr → ℕ → Outcome (Unit {0})
  size r n = ok c {T = FuseGetxattrOut} r.reply (record { size = n; padding = 0 })

  -- `ReplyXattr::data`.
  unfoldable pub xattr_data : ReplyXattr → List ℕ → Outcome (Unit {0})
  xattr_data r bytes = send_all c r.reply (pos 0) (bytes ∷ [])
