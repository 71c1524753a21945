-- ===== src/Request/Negotiation.antt =====
-- What the kernel reads in the answer to INIT.
use fuse_rs.Base.{ℕ, ◌%◌, ◌^◌, ◌<◌, ◌≡◌, refl, ap, ◌∙◌, pos, [], some, arith, concat}
use fuse_rs.Base.Bits.{bit_and_mask}
use fuse_rs.Abi.Layout.{size_of, end_offset, alignment, padding, scalar_size}
use fuse_rs.Abi.Structs.{FuseInitIn, FuseInitOut, fuse_init_out_struct, fuse_out_header_struct}
use fuse_rs.Effect.{ChannelSender}
use fuse_rs.Ll.Argument.Laws.{from}
use fuse_rs.Reply.Raw.{as_bytes}
use fuse_rs.Reply.Raw.Readback.{header_of, read_reply, read_reply-packet}
use fuse_rs.Reply.Raw.Laws.{packet}
use fuse_rs.Request.Dispatch.{init_out}

-- Protocol 7.8, the readahead that was offered, FUSE_ASYNC_READ if it was offered, writes of 16 MiB.
abbrev pub negotiated : FuseInitIn → FuseInitOut
negotiated arg = record {
  major = 7;
  minor = 8;
  max_readahead = arg.max_readahead;
  flags = arg.flags % 2;
  unused = 0;
  max_write = 16777216;
}

pub init_out_lem : (arg : FuseInitIn) → init_out arg ≡ negotiated arg
unfolding init_out
init_out_lem arg = rw (bit_and_mask 1 arg.flags) refl

size_of_init_out : size_of fuse_init_out_struct.layout ≡ 24
unfolding size_of end_offset alignment padding scalar_size
size_of_init_out = refl

-- The kernel reads in the answer to INIT a header of 40 bytes in all with error 0 and the
-- request's id, then version 7.8, the readahead that was offered, the lowest flag
-- (FUSE_ASYNC_READ) if it was offered and no other, and writes of 16 MiB, when the id fits 64 bits
-- and the readahead 32.
pub read_init-packet :
    (s : ChannelSender) (unique : ℕ) (arg : FuseInitIn)
    → unique < 2 ^ 64
    → arg.max_readahead < 2 ^ 32
    → read_reply (from (concat (packet s unique (pos 0) (as_bytes (init_out arg))).slices))
      ≡ (some (record { len = 40; error = pos 0; unique = unique }, negotiated arg), from [])
read_init-packet s unique arg hu hr = rw (init_out_lem arg) (
    read_reply-packet s unique (negotiated arg) hu (omega arith) (omega (arith, size_of_init_out))
    ∙ ap (λ n. (some (header_of n unique, negotiated arg), from [])) size_of_init_out)
