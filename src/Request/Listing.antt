-- ===== src/Request/Listing.antt =====
-- The kernel listing a directory: READDIR again and again, each time from the offset of the last entry
-- that was read, until nothing comes back. Each request goes through `Request::dispatch` of
-- src/request.rs.
pub mod Page
pub mod Complete
use fuse_rs.Base.{
  ℕ, zero, suc, pos, List, [], ◌∷◌, ◌++◌, Option, none, some, length, concat, eq_ℤ, if◌then◌else◌,
}
use mathlib.Core.Option
use fuse_rs.Abi.Structs.{FuseOutHeader, FuseDirent, FuseReadIn, fuse_out_header_struct}
use fuse_rs.Platform.{Libc}
use fuse_rs.Effect.{Packet, done, panicked}
use fuse_rs.Ll.Argument.{ArgumentIterator, fetch}
use fuse_rs.Ll.Argument.Laws.{from}
use fuse_rs.Ll.Operation.{read_dir}
use fuse_rs.Reply.Raw.{ReplyRaw}
use fuse_rs.Reply.Directory.Readback.{read_dirents}
use fuse_rs.Filesystem.{Filesystem}
use fuse_rs.Session.{Session}
use fuse_rs.Request.{Request}
use fuse_rs.Request.Dispatch.{Dispatched, dispatch}

-- A directory entry as it is read: the header and the name.
abbrev pub Listed : Type 0
Listed = FuseDirent × List ℕ

-- What follows the header, if the header reports no error.
abbrev pub payload : Option FuseOutHeader × ArgumentIterator → Option (List ℕ)
payload (none, it) = none
payload (some h, it) = if eq_ℤ h.error (pos 0) then some it.bytes else none

abbrev pub entries_of : Option (List ℕ) → Option (List Listed)
entries_of none = none
entries_of (some bytes) = read_dirents (length bytes) bytes

unfoldable pub read_page : {S : Type 0} → Dispatched S → Option (Session S × List Listed)
read_page (done (se, []) (p ∷ [])) =
    Option.map (λ es. (se, es))
      (entries_of (payload (fetch {T = FuseOutHeader} (from (concat p.slices)))))
read_page _ = none

abbrev pub last_offset : Listed → List Listed → ℕ
last_offset e [] = e.0.off
last_offset e (e' ∷ es) = last_offset e' es

-- An empty page is the end; behind any other the listing goes on at the offset of its last entry.
abbrev pub after_page :
    {S : Type 0}
    → (Session S → ℕ → Option (List Listed))
    → Option (Session S × List Listed)
    → Option (List Listed)
after_page rest none = none
after_page rest (some (se, [])) = some []
after_page rest (some (se, e ∷ es)) = Option.map (◌++◌ (e ∷ es)) (rest se (last_offset e es))

module _ (c : Libc) {S : Type 0} (fs : Filesystem S) (q : Request) (fh size : ℕ) where
  -- The request with a READDIR in place of its operation.
  abbrev pub read_dir_at : ℕ → Request
  read_dir_at offset = record q {
    request = record q.request {
      operation = read_dir (record { fh = fh; offset = offset; size = size });
    };
  }

  abbrev pub page : Session S → ℕ → Option (Session S × List Listed)
  page se offset = read_page (dispatch c fs (read_dir_at offset) se)

  -- At most as many requests as the first argument says; `none` is an error or that more are needed.
  unfoldable pub listing : ℕ → Session S → ℕ → Option (List Listed)
  listing zero se offset = none
  listing (suc n) se offset = after_page (listing n) (page se offset)
