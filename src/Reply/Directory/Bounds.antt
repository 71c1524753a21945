-- ===== src/Reply/Directory/Bounds.antt =====
-- Sizes in `ReplyDirectory` of src/reply.rs: of an entry, of the buffer and of its capacity.
use fuse_rs.Base.{
  ℕ, ◌+◌, ◌-◌, ◌%◌, ◌^◌, ◌≤◌, ◌<◌, ◌≡◌, refl, ◌↔◌, true, List, [], ◌∷◌, ◌++◌, All, arith, length,
  replicate, length-append, length-replicate,
}
use fuse_rs.Base.Bits.{bit_and_not7}
use fuse_rs.Abi.Layout.{size_of, to_bytes, alignment, end_offset, padding, scalar_size}
use fuse_rs.Abi.Layout.RoundTrip.{length-to_bytes}
use fuse_rs.Abi.Structs.{fuse_dirent_struct}
use fuse_rs.Platform.{Libc}
use fuse_rs.Effect.{ChannelSender}
use fuse_rs.Reply.Directory.{
  ReplyDirectory, DirEntry, entlen, entsize, new, dirent, entry_bytes, add,
}

pub size_of_dirent : size_of fuse_dirent_struct.layout ≡ 24
unfolding size_of end_offset alignment padding scalar_size
size_of_dirent = refl

-- A name is a slice of memory, so its length is far below 2 ^ 64.
abbrev pub IsName : DirEntry → Type 0
IsName e = length e.name < 2 ^ 63

pub entlen_lem : (e : DirEntry) → entlen e ≡ 24 + length e.name
unfolding entlen
entlen_lem e = omega (arith, size_of_dirent)

-- The size of an entry with a name shorter than 2 ^ 63 bytes is the least multiple of 8 that holds
-- its header and its name.
pub entsize_lem :
    (e : DirEntry)
    → IsName e
    → (entsize e % 8 ≡ 0) × (entlen e ≤ entsize e) × (entsize e < entlen e + 8)
unfolding entsize
entsize_lem e h =
    omega (arith, bit_and_not7 (entlen e + 8 - 1) (omega (arith, entlen_lem e)), entlen_lem e)

module _ (c : Libc) where
  pub length-entry_bytes : (e : DirEntry) → IsName e → length (entry_bytes c e) ≡ entsize e
  unfolding entry_bytes
  length-entry_bytes e h =
      let pad = entsize e - entlen e in
      omega (
        arith,
        length-append (to_bytes (dirent c e)) (e.name ++ replicate pad 0),
        length-append e.name (replicate pad 0),
        length-replicate {A = ℕ} pad 0,
        length-to_bytes (dirent c e),
        size_of_dirent,
        entlen_lem e,
        entsize_lem e h,
      )

  -- Between two calls of `add`.
  pub record Inv (d : ReplyDirectory) : Type 0 where
    pub within : length d.buffer ≤ d.capacity
    pub aligned : length d.buffer % 8 ≡ 0

  pub new-Inv : (unique : ℕ) (s : ChannelSender) (size : ℕ) → Inv (new c unique s size)
  unfolding new
  new-Inv unique s size = omega arith

  pub add-Inv : (d : ReplyDirectory) (e : DirEntry) → IsName e → Inv d → Inv (add c d e).0
  unfolding add
  add-Inv d e h v =
      ground
        (arith, entsize_lem e h, length-append d.buffer (entry_bytes c e), length-entry_bytes e h)

  -- `add` refuses exactly the entries that do not fit, and then changes nothing.
  pub add_full_iff :
      (d : ReplyDirectory) (e : DirEntry)
      → ((add c d e).1 ≡ true ↔ d.capacity < length d.buffer + entsize e)
        × ((add c d e).1 ≡ true → (add c d e).0 ≡ d)
  unfolding add
  add_full_iff d e = ground arith

  -- A run of calls, as a `readdir` makes them; entries that do not fit are left out.
  abbrev pub add_all : ReplyDirectory → List DirEntry → ReplyDirectory
  add_all d [] = d
  add_all d (e ∷ es) = add_all (add c d e).0 es

  -- A run of `add` on a buffer that is within its capacity and ends at a multiple of 8 leaves it
  -- so, when the names are shorter than 2 ^ 63 bytes.
  pub add_all-Inv :
      (d : ReplyDirectory) (es : List DirEntry) → All IsName es → Inv d → Inv (add_all d es)
  add_all-Inv d [] h v = v
  add_all-Inv d (e ∷ es) h v = add_all-Inv (add c d e).0 es h.1 (add-Inv d e h.0 v)
