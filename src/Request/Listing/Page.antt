-- ===== src/Request/Listing/Page.antt =====
-- One READDIR of a directory whose entries are added one by one, as the kernel reads the answer.
use fuse_rs.Base.{
  ℕ, ◌+◌, ◌^◌, ◌≤◌, ◌<◌, ◌≡◌, refl, ap, ◌∙◌, pos, true, false, List, [], ◌∷◌, append-nil, some,
  arith, length, concat, map, All, as_i64,
}
use mathlib.Core.Option
use fuse_rs.Ll.Argument.{fetch}
use fuse_rs.Abi.Structs.{FuseOutHeader, fuse_out_header_struct}
use fuse_rs.Platform.{Libc}
use fuse_rs.Effect.{ChannelSender, done}
use fuse_rs.Ll.Request.{unique, nodeid}
use fuse_rs.Reply.Raw.{new}
use fuse_rs.Reply.Raw.Laws.{packet, send_all-new, fetch-packet}
use fuse_rs.Reply.Directory.{ReplyDirectory, DirEntry, dirent}
use fuse_rs.Reply.Directory
use fuse_rs.Ll.Argument.Laws.{from}
use fuse_rs.Reply.Directory.Bounds.{IsName, new-Inv, add_all, add_all-Inv}
use fuse_rs.Reply.Directory.Readback.{IsEntry, accepted, read_dirents, read_dirents-buffer}
use fuse_rs.Filesystem.{Filesystem, add_each, perform_dir}
use fuse_rs.Session.{Session}
use fuse_rs.Request.{Request}
use fuse_rs.Request.Dispatch.{call_dir}
use fuse_rs.Request.Cookie.{dispatch_read_dir}
use fuse_rs.Request.Listing.{Listed, read_page, read_dir_at, page, payload}

-- An entry as the kernel reads it.
abbrev pub shown : Libc → DirEntry → Listed
shown c e = (dirent c e, e.name)

reply-new :
    (c : Libc) (u : ℕ) (s : ChannelSender) (size : ℕ) → (Directory.new c u s size).reply ≡ new u s
unfolding Directory.new
reply-new c u s size = refl

capacity-new :
    (c : Libc) (u : ℕ) (s : ChannelSender) (size : ℕ)
    → (Directory.new c u s size).capacity ≡ c.with_capacity size
unfolding Directory.new
capacity-new c u s size = refl

module _ (c : Libc) where
  reply-add : (d : ReplyDirectory) (e : DirEntry) → (Directory.add c d e).0.reply ≡ d.reply
  unfolding Directory.add
  reply-add d e = ground arith

  capacity-add : (d : ReplyDirectory) (e : DirEntry) → (Directory.add c d e).0.capacity ≡ d.capacity
  unfolding Directory.add
  capacity-add d e = ground arith

  capacity-add_all :
      (d : ReplyDirectory) (es : List DirEntry) → (add_all c d es).capacity ≡ d.capacity
  capacity-add_all d [] = refl
  capacity-add_all d (e ∷ es) = capacity-add_all (Directory.add c d e).0 es ∙ capacity-add d e

module _ (c : Libc) (s : ChannelSender) (u : ℕ) where
  -- The whole buffer is sent, in one packet.
  perform_dir-add_each :
      (d : ReplyDirectory) (es : List DirEntry)
      → d.reply ≡ new u s
      → perform_dir c d (add_each es)
        ≡ done [] (packet s u (pos 0) ((add_all c d es).buffer ∷ []) ∷ [])
  unfolding perform_dir add_each Directory.ok
  perform_dir-add_each d [] h = rw (h, send_all-new) refl
  perform_dir-add_each d (e ∷ es) h =
      perform_dir-add_each (Directory.add c d e).0 es (reply-add c d e ∙ h)

  -- A packet with a buffer in it is read back.
  payload-packet :
      (buffer : List ℕ)
      → u < 2 ^ 64
      → 16 + length buffer < 2 ^ 32
      → payload
          (fetch {T = FuseOutHeader} (from (concat (packet s u (pos 0) (buffer ∷ [])).slices)))
        ≡ some buffer
  payload-packet buffer hu hl =
      let whole : concat (buffer ∷ []) ≡ buffer = append-nil buffer in
      rw (fetch-packet s u (pos 0) (buffer ∷ []) hu (omega arith) (omega (arith, ap length whole)))
        (ap some whole)

  read_page-packet :
      {S : Type 0} (se : Session S) (buffer : List ℕ)
      → u < 2 ^ 64
      → 16 + length buffer < 2 ^ 32
      → read_page (done (se, []) (packet s u (pos 0) (buffer ∷ []) ∷ []))
        ≡ Option.map (λ es. (se, es)) (read_dirents (length buffer) buffer)
  unfolding read_page
  read_page-packet se buffer hu hl = rw (payload-packet buffer hu hl) refl

-- What the kernel asks with: an id, and a buffer that is allocated so that the reply stays below 4 GiB.
pub record IsAsked (c : Libc) (q : Request) (size : ℕ) : Type 0 where
  pub id : unique q.request < 2 ^ 64
  pub small : c.with_capacity size + 16 < 2 ^ 32

All-IsName : (c : Libc) (es : List DirEntry) → All (IsEntry c) es → All IsName es
All-IsName c [] h = tt
All-IsName c (e ∷ es) h = (omega arith, All-IsName c es h.1)

-- The reply that `readdir` is given.
abbrev pub blank : Libc → Request → ℕ → ReplyDirectory
blank c q size = Directory.new c (unique q.request) q.ch size

module _ (c : Libc) {S : Type 0} (fs : Filesystem S) (q : Request) (size : ℕ) where
  -- The buffer stays as small as what was allocated for it.
  length-filled :
      (es : List DirEntry)
      → All (IsEntry c) es
      → length (add_all c (blank c q size) es).buffer ≤ c.with_capacity size
  length-filled es h =
      let u = unique q.request in
      omega (
        arith,
        (add_all-Inv c (blank c q size) es (All-IsName c es h) (new-Inv c u q.ch size)).within,
        capacity-add_all c (blank c q size) es,
        capacity-new c u q.ch size,
      )

  call_dir-add_each :
      (se : Session S) (s : S) (es : List DirEntry)
      → IsAsked c q size
      → All (IsEntry c) es
      → read_page (call_dir c fs q se size (s, add_each es))
        ≡ some (record se { filesystem = s }, map (shown c) (accepted c (blank c q size) es))
  unfolding call_dir
  call_dir-add_each se s es h hes =
      let u = unique q.request in
      let se' : Session S = record se { filesystem = s } in
      rw (perform_dir-add_each c q.ch u (blank c q size) es (reply-new c u q.ch size)) (
        read_page-packet c q.ch u se' (add_all c (blank c q size) es).buffer h.id
          (omega (arith, h.small, length-filled es hes))
        ∙ ap (Option.map (λ es. (se', es))) (read_dirents-buffer c u q.ch size es hes))

  -- The file system answers a READDIR at this offset with these entries.
  abbrev pub Answers : ℕ → ℕ → S → S → List DirEntry → Type 0
  Answers fh offset s s' es =
      fs.readdir (read_dir_at c fs q fh size offset).request (nodeid q.request) fh (as_i64 offset) s
      ≡ (s', add_each es)

module _ (c : Libc) {S : Type 0} (fs : Filesystem S) (q : Request) (fh size : ℕ) where
  pub page-add_each :
      (se : Session S) (offset : ℕ) (s : S) (es : List DirEntry)
      → se.initialized ≡ true
      → se.destroyed ≡ false
      → Answers c fs q size fh offset se.filesystem s es
      → IsAsked c q size
      → All (IsEntry c) es
      → page c fs q fh size se offset
        ≡ some (record se { filesystem = s }, map (shown c) (accepted c (blank c q size) es))
  unfolding unique nodeid
  page-add_each se offset s es up alive e h hes =
      let q' : Request = read_dir_at c fs q fh size offset in
      ap read_page (
        dispatch_read_dir c fs q' se (record { fh = fh; offset = offset; size = size }) refl up
          alive)
      ∙ ap (λ r. read_page (call_dir c fs q' se size r)) e
      ∙ call_dir-add_each c fs q' size se s es (record { id = h.id; small = h.small }) hes
