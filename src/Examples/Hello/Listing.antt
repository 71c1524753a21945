-- ===== src/Examples/Hello/Listing.antt =====
-- examples/hello.rs: `readdir`, as the kernel lists the directory through `Request::dispatch`.
use fuse_rs.Base.{
  ℕ, ◌+◌, ◌≤◌, ◌≡◌, refl, ap, ◌∙◌, true, false, some, arith, map, All, drop, as_u64, as_i64,
  as_u64-as_i64, if_true, ◌==◌, ==_iff,
}
use fuse_rs.Abi.Layout.{size_of, end_offset, alignment, padding, scalar_size}
use fuse_rs.Platform.{Libc}
use fuse_rs.Ll.Request.{nodeid}
use fuse_rs.Reply.Directory.{entsize, entlen}
use fuse_rs.Reply.Directory.Readback.{IsEntry}
use fuse_rs.Filesystem.{add_each}
use fuse_rs.Session.{Session}
use fuse_rs.Request.{Request}
use fuse_rs.Request.Listing.{listing}
use fuse_rs.Request.Listing.Page.{shown, IsAsked}
use fuse_rs.Request.Listing.Complete.{IsListable, Lists, listing_from}
use fuse_rs.Examples.Hello.{hello_fs, hello_readdir, entries}

module _ (c : Libc) (size : ℕ) where
  entries-IsListable :
      All (IsEntry c) entries → 40 ≤ c.with_capacity size → IsListable c size 0 entries
  unfolding entsize entlen size_of end_offset alignment padding scalar_size
  entries-IsListable valid room = record {
    valid = valid;
    fits = omega arith;
    growing = omega arith;
    numbered = (refl, (refl, (refl, tt)));
    indexed = omega arith;
  }

  entries-Lists :
      (q : Request) (fh : ℕ) (se : Session (Unit {0}))
      → nodeid q.request ≡ 1
      → Lists c (hello_fs c) q fh size se 0 entries
  unfolding hello_fs hello_readdir
  entries-Lists q fh se root n l =
      let index : as_u64 (as_i64 (0 + n)) ≡ n = as_u64-as_i64 (0 + n) (omega arith) ∙ omega arith in
      ap (λ d. (se.filesystem, d))
        (if_true (nodeid q.request == 1) _ _ ((==_iff (nodeid q.request) 1).1 root)
          ∙ ap (λ i. add_each (drop i entries)) index)

  -- Listing the root directory of the example, where each READDIR asks behind the last entry of
  -- the page before, ends after at most 4 READDIRs, and the pages together are exactly the three
  -- entries in order, when the session is initialized and not destroyed, the request's id and the
  -- size are in range, the entries' fields are in range and the buffer has room for 40 bytes.
  pub hello_listing :
      (q : Request) (fh : ℕ) (se : Session (Unit {0}))
      → nodeid q.request ≡ 1
      → se.initialized ≡ true
      → se.destroyed ≡ false
      → IsAsked c q size
      → All (IsEntry c) entries
      → 40 ≤ c.with_capacity size
      → listing c (hello_fs c) q fh size 4 se 0 ≡ some (map (shown c) entries)
  hello_listing q fh se root up alive asked valid room =
      listing_from c (hello_fs c) q fh size se up alive asked 4 0 entries (omega arith)
        (entries-IsListable valid room) (entries-Lists q fh se root)
