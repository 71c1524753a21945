-- ===== src/Tests/Hello.antt =====
-- The file system of examples/hello.rs at concrete requests.
use fuse_rs.Base.{ℕ, ◌≤◌, ◌<◌, ◌≡◌, refl, ◌⊎◌, true, false, pos, [], ◌∷◌, some, map, drop, arith}
use fuse_rs.Abi.Structs.{FuseReadIn}
use fuse_rs.Effect.{done, panicked}
use fuse_rs.Ll.Operation.{Operation, get_attr, read}
use fuse_rs.Ll.Request.{unique, nodeid}
use fuse_rs.Reply.Raw.Laws.{packet}
use fuse_rs.Reply.Attr.{mode_from_kind_and_perm, format_of_kind}
use fuse_rs.Reply.Directory.{dirent}
use fuse_rs.Session.{Session}
use fuse_rs.Request.{Request}
use fuse_rs.Request.Dispatch.{dispatch}
use fuse_rs.Request.Listing.{listing}
use fuse_rs.Request.Listing.Page.{shown}
use fuse_rs.Examples.Hello.{hello_fs, entries, hello_txt_content}
use fuse_rs.Examples.Hello.Listing.{hello_listing}
use fuse_rs.Examples.Hello.Reading.{hello_read-dispatch}
use fuse_rs.Tests.{linux, header_of, sender_3, channel}

abbrev request_at : ℕ → Operation → Request
request_at node op = record {
  ch = sender_3;
  bytes = [];
  request = record { header = record (header_of 56 0) { nodeid = node }; operation = op };
}

abbrev hello_session : Session (Unit {0})
hello_session = record {
  filesystem = tt;
  ch = channel;
  proto_major = 7;
  proto_minor = 8;
  initialized = true;
  destroyed = false;
}

-- With room for two entries in a reply, then for one.
hello_listing_example :
    listing linux (hello_fs linux) (request_at 1 get_attr) 0 64 4 hello_session 0
    ≡ some (map (shown linux) entries)
unfolding dirent mode_from_kind_and_perm format_of_kind nodeid unique
hello_listing_example =
    hello_listing linux 64 (request_at 1 get_attr) 0 hello_session refl refl refl
      (record { id = omega arith; small = omega arith }) (omega arith) (omega arith)

abbrev read_at : ℕ → FuseReadIn
read_at offset = record { fh = 0; offset = offset; size = 2 }

hello_read-dispatch_example :
    ((6 ≤ 13)
      × (dispatch linux (hello_fs linux) (request_at 2 (read (read_at 6))) hello_session
          ≡ done
              (hello_session, [])
              (packet sender_3
                  (unique (request_at 2 (read (read_at 6))).request)
                  (pos 0)
                  (drop 6 hello_txt_content ∷ [])
                ∷ [])))
    ⊎ ((13 < 6)
        × (dispatch linux (hello_fs linux) (request_at 2 (read (read_at 6))) hello_session
            ≡ panicked (
                packet sender_3 (unique (request_at 2 (read (read_at 6))).request) (pos 5) []
                ∷ [])))
unfolding nodeid
hello_read-dispatch_example =
    hello_read-dispatch linux (request_at 2 (read (read_at 6))) hello_session (read_at 6) refl refl
      refl refl (omega arith)
