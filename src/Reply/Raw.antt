-- ===== src/Reply/Raw.antt =====
-- `ReplyRaw` of src/reply.rs. The sender is taken when a reply is sent; whoever sends a second time
-- panics, and whoever drops a reply that was not sent replies with EIO.
pub mod Laws
pub mod Readback
use fuse_rs.Base.{
  ℕ, ◌+◌, ◌%◌, ◌^◌, ◌==◌, ℤ, pos, neg, List, [], ◌∷◌, ◌++◌, foldl, Option, none, some, length,
  if◌then◌else◌, u32_cast,
}
use fuse_rs.Abi.Layout.{Struct, size_of, to_bytes}
use fuse_rs.Abi.Structs.{FuseOutHeader, fuse_out_header_struct}
use fuse_rs.Platform.{Libc}
use fuse_rs.Effect.{ChannelSender, Packet, Outcome, done, panicked, pure, ◌>>=◌, ◌>>◌}

pub record ReplyRaw : Type 0 where
  pub unique : ℕ
  pub sender : Option ChannelSender

-- `new` of the trait `Reply`.
unfoldable pub new : ℕ → ChannelSender → ReplyRaw
new unique sender = record { unique = unique; sender = some sender }

-- A memory copy of the value, as one slice, or none where it takes no bytes.
unfoldable pub as_bytes : {T : Type 0} ⦃s : Struct T⦄ → T → List (List ℕ)
as_bytes ⦃s⦄ t = if size_of s.layout == 0 then [] else to_bytes t ∷ []

-- The header that `send` puts in front of the slices.
unfoldable pub out_header : ℕ → ℤ → List (List ℕ) → FuseOutHeader
out_header unique err bytes =
    let len = foldl (λ l b. l + length b) 0 bytes in
    record {
      len = u32_cast (size_of fuse_out_header_struct.layout + len);
      error = neg err;
      unique = unique;
    }

send_to : Option ChannelSender → ReplyRaw → ℤ → List (List ℕ) → Outcome ReplyRaw
send_to none r err bytes = panicked []
send_to (some s) r err bytes =
    let slices = as_bytes (out_header r.unique err bytes) ++ bytes in
    done (record r { sender = none }) (record { fd = s.fd; slices = slices } ∷ [])

unfoldable pub send : ReplyRaw → ℤ → List (List ℕ) → Outcome ReplyRaw
unfolding send_to
send r err bytes = send_to r.sender r err bytes

module _ (c : Libc) where
  drop_to : Option ChannelSender → ReplyRaw → Outcome (Unit {0})
  drop_to none r = pure tt
  drop_to (some s) r = do _ ← send r c.eio []; pure tt

  -- `Drop`.
  unfoldable pub drop : ReplyRaw → Outcome (Unit {0})
  unfolding drop_to
  drop r = drop_to r.sender r

  -- The methods that send consume the reply, so it is dropped behind them.
  unfoldable pub send_all : ReplyRaw → ℤ → List (List ℕ) → Outcome (Unit {0})
  send_all r err bytes = do r' ← send r err bytes; drop r'

  unfoldable pub ok : {T : Type 0} ⦃s : Struct T⦄ → ReplyRaw → T → Outcome (Unit {0})
  ok r t = send_all r (pos 0) (as_bytes t)

  unfoldable pub error : ReplyRaw → ℤ → Outcome (Unit {0})
  error r err = send_all r err []
