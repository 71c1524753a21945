-- ===== src/Reply/Raw/Readback.antt =====
-- The kernel reading a reply of src/reply.rs that carries a value: a header, and then the value.
use fuse_rs.Base.{
  ℕ, ◌+◌, ◌^◌, ◌<◌, ◌≡◌, refl, sym, ap, ◌∙◌, pos, [], append-nil, some, arith, length, concat,
}
use fuse_rs.Abi.Layout.{Struct, size_of, to_bytes}
use fuse_rs.Abi.Layout.RoundTrip.{length-to_bytes}
use fuse_rs.Abi.Structs.{FuseOutHeader, fuse_out_header_struct}
use fuse_rs.Effect.{ChannelSender}
use fuse_rs.Ll.Argument.{Fetch, fetch, pure, ◌>>=◌}
use fuse_rs.Ll.Argument.Laws.{from, fetch-to_bytes}
use fuse_rs.Ll.Operation.Wire.{InRange}
use fuse_rs.Reply.Raw.{as_bytes}
use fuse_rs.Reply.Raw.Laws.{packet, fetch-packet, length-packet}

-- The header that the reader of a value of `size` bytes finds.
abbrev pub header_of : ℕ → ℕ → FuseOutHeader
header_of size unique = record { len = 16 + size; error = pos 0; unique = unique }

module _ {T : Type 0} ⦃l : Struct T⦄ where
  unfoldable pub read_reply : Fetch (FuseOutHeader × T)
  read_reply = do header ← fetch {T = FuseOutHeader}; value ← fetch {T = T}; pure (header, value)

  concat-as_bytes : (t : T) → concat (as_bytes t) ≡ to_bytes t
  unfolding as_bytes
  concat-as_bytes t = ground (arith, append-nil (to_bytes t), length-to_bytes t)

  fetch-as_bytes : (t : T) → InRange t → fetch (from (concat (as_bytes t))) ≡ (some t, from [])
  fetch-as_bytes t h =
      ap (λ bs. fetch (from bs)) (concat-as_bytes t ∙ sym (append-nil (to_bytes t)))
      ∙ fetch-to_bytes t [] h

  pub read_reply-packet :
      (s : ChannelSender) (unique : ℕ) (t : T)
      → unique < 2 ^ 64
      → InRange t
      → 16 + size_of l.layout < 2 ^ 32
      → read_reply (from (concat (packet s unique (pos 0) (as_bytes t)).slices))
        ≡ (some (header_of (size_of l.layout) unique, t), from [])
  unfolding read_reply
  read_reply-packet s unique t hu h small =
      let payload : length (concat (as_bytes t)) ≡ size_of l.layout =
        ap length (concat-as_bytes t) ∙ length-to_bytes t in
      rw
        (
          fetch-packet s unique (pos 0) (as_bytes t) hu (omega arith) (omega (arith, payload)),
          length-packet s unique (pos 0) (as_bytes t),
          payload,
          fetch-as_bytes t h,
        )
        refl
