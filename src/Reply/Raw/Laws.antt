-- ===== src/Reply/Raw/Laws.antt =====
-- The packet of a `ReplyRaw` of src/reply.rs, and the kernel reading its header.
use fuse_rs.Base.{
  ℕ, ◌+◌, ◌^◌, ◌<◌, ◌≡◌, refl, ap, ◌∙◌, ℤ, neg, IsI32, List, [], ◌∷◌, foldl, none, some, arith,
  length, concat, length-append, u32_cast,
}
use fuse_rs.Abi.Layout.{size_of, to_bytes, alignment, end_offset, padding, scalar_size}
use fuse_rs.Abi.Layout.RoundTrip.{length-to_bytes}
use fuse_rs.Abi.Structs.{FuseOutHeader, fuse_out_header_struct}
use fuse_rs.Platform.{Libc}
use fuse_rs.Effect.{ChannelSender, Packet, done, panicked, ◌>>=◌}
use fuse_rs.Ll.Argument.{fetch}
use fuse_rs.Ll.Argument.Laws.{from, fetch-to_bytes}
use fuse_rs.Ll.Operation.Wire.{InRange}
use fuse_rs.Reply.Raw.{new, as_bytes, out_header, send, drop, send_all}

-- The packet that answers request `unique`: the header, then the slices.
unfoldable pub packet : ChannelSender → ℕ → ℤ → List (List ℕ) → Packet
packet s unique err bytes = record {
  fd = s.fd;
  slices = to_bytes (out_header unique err bytes) ∷ bytes;
}

pub size_of_header : size_of fuse_out_header_struct.layout ≡ 16
unfolding size_of end_offset alignment padding scalar_size
size_of_header = refl

as_bytes_header : (h : FuseOutHeader) → as_bytes h ≡ to_bytes h ∷ []
unfolding as_bytes
as_bytes_header h = rw size_of_header

send-new :
    (unique : ℕ) (s : ChannelSender) (err : ℤ) (bytes : List (List ℕ))
    → send (new unique s) err bytes
      ≡ done (record { unique = unique; sender = none }) (packet s unique err bytes ∷ [])
unfolding send new packet
send-new unique s err bytes = rw as_bytes_header

module _ (c : Libc) (unique : ℕ) (s : ChannelSender) where
  -- A method that sends does so once: the drop behind it finds the sender gone.
  pub send_all-new :
      (err : ℤ) (bytes : List (List ℕ))
      → send_all c (new unique s) err bytes ≡ done tt (packet s unique err bytes ∷ [])
  unfolding send_all drop
  send_all-new err bytes = rw send-new

  -- A reply that is dropped unsent answers with EIO.
  pub drop-new : drop c (new unique s) ≡ done tt (packet s unique c.eio [] ∷ [])
  unfolding drop new packet
  drop-new = rw send-new

  -- Sending twice on a new reply panics with only the first packet sent.
  send_twice :
      (err err' : ℤ) (bytes bytes' : List (List ℕ))
      → (do r ← send (new unique s) err bytes; send r err' bytes')
        ≡ panicked (packet s unique err bytes ∷ [])
  unfolding send
  send_twice err err' bytes bytes' = rw send-new

foldl-length :
    (acc : ℕ) (bytes : List (List ℕ))
    → foldl (λ l b. l + length b) acc bytes ≡ acc + length (concat bytes)
foldl-length acc [] = omega arith
foldl-length acc (b ∷ bs) =
    foldl-length (acc + length b) bs ∙ omega (arith, length-append b (concat bs))

pub length-packet :
    (s : ChannelSender) (unique : ℕ) (err : ℤ) (bytes : List (List ℕ))
    → length (concat (packet s unique err bytes).slices) ≡ 16 + length (concat bytes)
unfolding packet
length-packet s unique err bytes =
    let h = out_header unique err bytes in
    omega (arith, length-append (to_bytes h) (concat bytes), length-to_bytes h, size_of_header)

fetch-out_header :
    (s : ChannelSender) (unique : ℕ) (err : ℤ) (bytes : List (List ℕ))
    → InRange (out_header unique err bytes)
    → fetch (from (concat (packet s unique err bytes).slices))
      ≡ (some (out_header unique err bytes), from (concat bytes))
unfolding packet
fetch-out_header s unique err bytes h =
    fetch-to_bytes (out_header unique err bytes) (concat bytes) h

out_header_lem :
    (unique : ℕ) (err : ℤ) (bytes : List (List ℕ))
    → 16 + length (concat bytes) < 2 ^ 32
    → out_header unique err bytes
      ≡ record { len = 16 + length (concat bytes); error = neg err; unique = unique }
unfolding out_header
out_header_lem unique err bytes h =
    let total : u32_cast
          (size_of fuse_out_header_struct.layout + foldl (λ l b. l + length b) 0 bytes)
        ≡ 16 + length (concat bytes) =
      omega (arith, size_of_header, foldl-length 0 bytes) in
    ap (λ n. record { len = n; error = neg err; unique = unique }) total

-- Reading the header of a reply packet gives the length of the whole packet, the negated error and
-- the id of the request, and leaves the payload, when the id fits 64 bits, the negated error fits
-- an i32 and the packet is shorter than 4 GiB.
pub fetch-packet :
    (s : ChannelSender) (unique : ℕ) (err : ℤ) (bytes : List (List ℕ))
    → unique < 2 ^ 64
    → IsI32 (neg err)
    → 16 + length (concat bytes) < 2 ^ 32
    → let sent = concat (packet s unique err bytes).slices in
      fetch {T = FuseOutHeader} (from sent)
      ≡ (some (record { len = length sent; error = neg err; unique = unique }), from (concat bytes))
fetch-packet s unique err bytes hu he hl =
    rw (length-packet s unique err bytes, ← out_header_lem unique err bytes hl)
      (fetch-out_header s unique err bytes
        (rw (out_header_lem unique err bytes hl) (hl, (he, (hu, tt)))))
