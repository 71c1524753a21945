-- ===== src/Reply/Directory/Readback.antt =====
-- `ReplyDirectory` of src/reply.rs as the kernel reads it: a reader of directory entries.
use fuse_rs.Base.{
  ℕ, zero, suc, ◌+◌, ◌-◌, ◌%◌, ◌^◌, ◌<◌, ◌≤◌, ◌≡◌, refl, sym, ap, ◌∙◌, true, false, List, [], ◌∷◌,
  ◌++◌, append_assoc, append-nil, Option, none, some, arith, length, replicate, concat, All, map,
  length-append, length-replicate, inl, inr,
}
use mathlib.Core.Option
use fuse_rs.Base.{◌⊎◌, if◌then◌else◌}
use fuse_rs.Abi.Layout.{to_bytes}
use fuse_rs.Abi.Structs.{FuseDirent, fuse_dirent_struct}
use fuse_rs.Platform.{Libc}
use fuse_rs.Effect.{ChannelSender}
use fuse_rs.Ll.Argument.{ArgumentIterator, Fetch, ◌>>=◌, pure, fetch, fetch_bytes}
use fuse_rs.Ll.Argument.Laws.{from, fetch-to_bytes, fetch_bytes-append}
use fuse_rs.Ll.Operation.Wire.{InRange}
use fuse_rs.Reply.Directory.{
  ReplyDirectory, DirEntry, entlen, entsize, new, dirent, entry_bytes, add,
}
use fuse_rs.Reply.Directory.Bounds.{entlen_lem, entsize_lem, length-entry_bytes, add_all}

-- The kernel's side (FUSE_DIRENT_SIZE): a header, `namelen` bytes, and padding up to a multiple of 8.
unfoldable pub read_padding : ℕ → ℕ
read_padding namelen = (8 - (24 + namelen) % 8) % 8

unfoldable pub read_dirent : Fetch (FuseDirent × List ℕ)
read_dirent = do
  h ← fetch {T = FuseDirent}
  name ← fetch_bytes h.namelen
  _pad ← fetch_bytes (read_padding h.namelen)
  pure (h, name)

abbrev prepend :
    Option (FuseDirent × List ℕ) × ArgumentIterator
    → (List ℕ → Option (List (FuseDirent × List ℕ)))
    → Option (List (FuseDirent × List ℕ))
prepend (none, it) k = none
prepend (some e, it) k = Option.map (◌∷◌ e) (k it.bytes)

-- At most `n` entries are read; `none` is a buffer that is malformed or longer.
unfoldable pub read_dirents : ℕ → List ℕ → Option (List (FuseDirent × List ℕ))
read_dirents n [] = some []
read_dirents zero (b ∷ bs) = none
read_dirents (suc n) (b ∷ bs) = prepend (read_dirent (from (b ∷ bs))) (read_dirents n)

read_dirents-suc :
    (n : ℕ) (bs : List ℕ)
    → 0 < length bs
    → read_dirents (suc n) bs ≡ prepend (read_dirent (from bs)) (read_dirents n)
unfolding read_dirents
read_dirents-suc n [] h = absurd (omega arith)
read_dirents-suc n (b ∷ bs) h = refl

module _ (c : Libc) where
  -- An entry that the interface can be given: names and offsets of their types, a kind whose type code
  -- fits its field.
  abbrev pub IsEntry : DirEntry → Type 0
  IsEntry e = (length e.name < 2 ^ 32) × InRange (dirent c e)

  namelen_lem : (e : DirEntry) → length e.name < 2 ^ 32 → (dirent c e).namelen ≡ length e.name
  unfolding dirent
  namelen_lem e h = omega arith

  padding_lem :
      (e : DirEntry)
      → length e.name < 2 ^ 32
      → entsize e - entlen e ≡ read_padding (dirent c e).namelen
  unfolding read_padding
  padding_lem e h = omega (arith, namelen_lem e h, entlen_lem e, entsize_lem e (omega arith))

  read_dirent-entry_bytes :
      (e : DirEntry) (rest : List ℕ)
      → IsEntry e
      → read_dirent (from (entry_bytes c e ++ rest)) ≡ (some (dirent c e, e.name), from rest)
  unfolding read_dirent entry_bytes
  read_dirent-entry_bytes e rest h =
      let head = to_bytes (dirent c e) in
      let pad : List ℕ = replicate (entsize e - entlen e) 0 in
      ap (λ bs. read_dirent (from bs))
        (append_assoc head (e.name ++ pad) rest ∙ ap (◌++◌ head) (append_assoc e.name pad rest))
      ∙ rw (
        fetch-to_bytes (dirent c e) (e.name ++ (pad ++ rest)) h.1,
        fetch_bytes-append (dirent c e).namelen e.name (pad ++ rest) (sym (namelen_lem e h.0)),
        fetch_bytes-append (read_padding (dirent c e).namelen) pad rest
            (length-replicate (entsize e - entlen e) 0 ∙ padding_lem e h.0),
      )

  -- Reading what was written for a list of entries.
  read_dirents-entry_bytes :
      (n : ℕ) (es : List DirEntry)
      → length es ≤ n
      → All IsEntry es
      → read_dirents n (concat (map (entry_bytes c) es)) ≡ some (map (λ e. (dirent c e, e.name)) es)
  unfolding read_dirents
  read_dirents-entry_bytes n [] l h = refl
  read_dirents-entry_bytes zero (e ∷ es) l h = absurd (omega arith)
  read_dirents-entry_bytes (suc n) (e ∷ es) l h =
      let more = concat (map (entry_bytes c) es) in
      read_dirents-suc n (entry_bytes c e ++ more) (
        omega (
          arith,
          length-append (entry_bytes c e) more,
          length-entry_bytes c e (omega arith),
          entlen_lem e,
          entsize_lem e (omega arith),
        ))
      ∙ rw (read_dirent-entry_bytes e more h.0, read_dirents-entry_bytes n es (omega arith) h.1)

  length-entries :
      (es : List DirEntry) → All IsEntry es → length es ≤ length (concat (map (entry_bytes c) es))
  length-entries [] h = omega arith
  length-entries (e ∷ es) h = omega (
    arith,
    length-append (entry_bytes c e) (concat (map (entry_bytes c) es)),
    length-entry_bytes c e (omega arith),
    entlen_lem e,
    entsize_lem e (omega arith),
    length-entries es h.1,
  )

  -- The entries that a run of `add` takes: those for which it returns false.
  abbrev pub accepted : ReplyDirectory → List DirEntry → List DirEntry
  accepted d [] = []
  accepted d (e ∷ es) =
      let rest = accepted (add c d e).0 es in if (add c d e).1 then rest else e ∷ rest

  buffer-add :
      (d : ReplyDirectory) (e : DirEntry)
      → ((add c d e).1 ≡ true) × ((add c d e).0.buffer ≡ d.buffer)
        ⊎ ((add c d e).1 ≡ false) × ((add c d e).0.buffer ≡ d.buffer ++ entry_bytes c e)
  unfolding add
  buffer-add d e = ground arith

  -- The buffer is the bytes of the entries that were taken, one behind the other.
  buffer-add_all :
      (d : ReplyDirectory) (es : List DirEntry)
      → (add_all c d es).buffer ≡ d.buffer ++ concat (map (entry_bytes c) (accepted d es))
  buffer-add_all d [] = sym (append-nil d.buffer)
  buffer-add_all d (e ∷ es) = elim (buffer-add d e) [
    | inl (full, same) ↦ rw full (buffer-add_all (add c d e).0 es ∙ rw same)
    | inr (taken, more) ↦
        rw taken
          (buffer-add_all (add c d e).0 es ∙ rw more (append_assoc d.buffer (entry_bytes c e) _))
  ]

  accepted-IsEntry :
      (d : ReplyDirectory) (es : List DirEntry) → All IsEntry es → All IsEntry (accepted d es)
  accepted-IsEntry d [] h = tt
  accepted-IsEntry d (e ∷ es) h = elim (buffer-add d e) [
    | inl (full, same) ↦ rw full (accepted-IsEntry (add c d e).0 es h.1)
    | inr (taken, more) ↦ rw taken (h.0, accepted-IsEntry (add c d e).0 es h.1)
  ]

  -- After any run of `add` on a new directory reply, with names shorter than 4 GiB and header
  -- fields in range, reading the buffer gives exactly the entries that were taken, in order, with
  -- their headers and names.
  pub read_dirents-add_all :
      (unique : ℕ) (s : ChannelSender) (size : ℕ) (es : List DirEntry)
      → All IsEntry es
      → let d = new c unique s size in
        read_dirents (length (accepted d es)) (add_all c d es).buffer
        ≡ some (map (λ e. (dirent c e, e.name)) (accepted d es))
  unfolding new
  read_dirents-add_all unique s size es h =
      let d = new c unique s size in
      ap (read_dirents (length (accepted d es))) (buffer-add_all d es)
      ∙ read_dirents-entry_bytes (length (accepted d es)) (accepted d es) (omega arith)
          (accepted-IsEntry d es h)

  -- The bytes are enough of a bound for the number of entries.
  pub read_dirents-buffer :
      (unique : ℕ) (s : ChannelSender) (size : ℕ) (es : List DirEntry)
      → All IsEntry es
      → let buffer = (add_all c (new c unique s size) es).buffer in
        read_dirents (length buffer) buffer
        ≡ some (map (λ e. (dirent c e, e.name)) (accepted (new c unique s size) es))
  unfolding new
  read_dirents-buffer unique s size es h =
      let d = new c unique s size in
      let taken = accepted d es in
      rw (buffer-add_all d es) (
        read_dirents-entry_bytes (length (concat (map (entry_bytes c) taken))) taken
          (length-entries taken (accepted-IsEntry d es h)) (accepted-IsEntry d es h))
