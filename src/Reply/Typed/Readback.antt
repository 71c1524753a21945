-- ===== src/Reply/Typed/Readback.antt =====
-- The kernel reading the replies of src/reply.rs that carry attributes.
use fuse_rs.Base.{ℕ, ◌+◌, ◌^◌, ◌<◌, ◌≡◌, refl, pos, [], ◌∷◌, some, arith, concat}
use fuse_rs.Abi.Layout.Pair.{pair_struct, pair_to_fields, AreValues-join}
use fuse_rs.Abi.Layout.{Struct, size_of, end_offset, alignment, padding, scalar_size}
use fuse_rs.Abi.Structs.{
  FuseAttr, FuseEntryOut, fuse_entry_out_struct, fuse_attr_out_struct, FuseOpenOut,
  fuse_open_out_struct,
}
use fuse_rs.Platform.{Libc, Duration}
use fuse_rs.Effect.{ChannelSender, Packet, Outcome, done, after_nil}
use fuse_rs.Ll.Argument.Laws.{from}
use fuse_rs.Ll.Operation.Wire.{InRange}
use fuse_rs.Reply.Raw.{new, as_bytes, ok}
use fuse_rs.Reply.Raw.Laws.{packet, send_all-new}
use fuse_rs.Reply.Raw.Readback.{header_of, read_reply, read_reply-packet}
use fuse_rs.Reply.Types.{create, reply_attr, reply_create, reply_entry}
use fuse_rs.Reply.Attr.{FileAttr, fuse_attr_from_attr}
use fuse_rs.Reply.Attr.Readback.{HasFormats, read_attr, read_attr-fuse_attr_from_attr}
use fuse_rs.Reply.Typed.{entry_out, open_out, entry, created}

-- The run sends one packet, in which the kernel finds the header of a success and then the value.
abbrev pub Delivers : {T : Type 0} ⦃l : Struct T⦄ → ℕ → T → Outcome (Unit {0}) → Type 0
Delivers ⦃l⦄ unique t o =
    (p : Packet) × (o ≡ done tt (p ∷ []))
    × (read_reply (from (concat p.slices))
        ≡ (some (header_of (size_of l.layout) unique, t), from []))

module _ (c : Libc) (s : ChannelSender) (unique : ℕ) (fits : unique < 2 ^ 64) where
  pub ok-Delivers :
      {T : Type 0} ⦃l : Struct T⦄ (t : T)
      → InRange t
      → 16 + size_of l.layout < 2 ^ 32
      → Delivers unique t (ok c (new unique s) t)
  unfolding ok
  ok-Delivers t h small = (
    packet s unique (pos 0) (as_bytes t),
    send_all-new c unique s (pos 0) (as_bytes t),
    read_reply-packet s unique t fits h small,
  )

-- What the kernel learns from an entry, of attributes whose `crtime` and `flags` are not sent.
pub record Tells (c : Libc) (ttl : Duration) (attr : FileAttr) (generation : ℕ) (e : FuseEntryOut)
    : Type 0 where
  pub of_ino : e.nodeid ≡ attr.ino
  pub of_generation : e.generation ≡ generation
  pub of_entry : record { secs = e.entry_valid; nanos = e.entry_valid_nsec } ≡ ttl
  pub of_attr : record { secs = e.attr_valid; nanos = e.attr_valid_nsec } ≡ ttl
  pub of_file : read_attr c e.attr attr.crtime attr.flags ≡ some attr

size_of_entry : size_of fuse_entry_out_struct.layout ≡ 120
unfolding size_of end_offset alignment padding scalar_size
size_of_entry = refl

size_of_created : size_of (pair_struct {A = FuseEntryOut} {B = FuseOpenOut}).layout ≡ 136
unfolding size_of end_offset alignment padding scalar_size
size_of_created = refl

module _ (c : Libc) (known : HasFormats c) (s : ChannelSender) (unique : ℕ) (fits : unique < 2 ^ 64)
    (ttl : Duration) (attributes : FileAttr) (a : FuseAttr) (generation : ℕ)
    (perm : attributes.perm < 4096) (sent : fuse_attr_from_attr c attributes ≡ some a) where
  abbrev the_entry : FuseEntryOut
  the_entry = entry_out ttl a attributes.ino generation

  entry_out-Tells : Tells c ttl attributes generation the_entry
  unfolding entry_out
  entry_out-Tells = record {
    of_ino = refl;
    of_generation = refl;
    of_entry = refl;
    of_attr = refl;
    of_file = read_attr-fuse_attr_from_attr c known attributes a perm sent;
  }

  -- `entry` on a new reply delivers an entry that tells what it was called with.
  pub entry-Delivers :
      InRange the_entry
      → (e : FuseEntryOut) × Tells c ttl attributes generation e
        × Delivers unique e (entry c (create unique s) ttl attributes generation)
  unfolding entry
  entry-Delivers h = (
    the_entry,
    entry_out-Tells,
    rw (sent, after_nil) (ok-Delivers c s unique fits the_entry h (omega (arith, size_of_entry))),
  )

  InRange-created :
      (fh flags : ℕ)
      → InRange the_entry
      → fh < 2 ^ 64
      → flags < 2 ^ 32
      → InRange {T = FuseEntryOut × FuseOpenOut} (the_entry, open_out fh flags)
  unfolding pair_to_fields open_out
  InRange-created fh flags h hf hg =
      AreValues-join fuse_entry_out_struct.layout fuse_open_out_struct.layout
        (fuse_entry_out_struct.to_fields the_entry)
        (fuse_open_out_struct.to_fields (open_out fh flags)) h (hf, (hg, (omega arith, tt)))

  -- `created` on a new reply sends one packet, in which the kernel finds a success with the
  -- request's id, and an entry and a file handle that tell it the inode, the generation, both
  -- times to live, the handle, the flags and all the attributes but crtime and flags, when the
  -- times are not before the epoch, the permissions are below 4096, all fields are in range, and
  -- the constants of the kinds of file are different bits above the permissions.
  pub created-Delivers :
      (fh flags : ℕ)
      → InRange the_entry
      → fh < 2 ^ 64
      → flags < 2 ^ 32
      → (e : FuseEntryOut) × (o : FuseOpenOut) × Tells c ttl attributes generation e
        × (o.fh ≡ fh)
        × (o.open_flags ≡ flags)
        × Delivers {T = FuseEntryOut × FuseOpenOut} unique
            (e, o)
            (created c (create unique s) ttl attributes generation fh flags)
  unfolding created open_out
  created-Delivers fh flags h hf hg = (
    the_entry,
    open_out fh flags,
    entry_out-Tells,
    refl,
    refl,
    rw (sent, after_nil)
        (ok-Delivers c s unique fits (the_entry, open_out fh flags)
          (InRange-created fh flags h hf hg) (omega (arith, size_of_created))),
  )
