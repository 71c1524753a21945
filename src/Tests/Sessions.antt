-- ===== src/Tests/Sessions.antt =====
-- Dispatch and the session loop at concrete requests.
use fuse_rs.Base.{ℕ, ◌≡◌, refl, inr, true, false, List, [], ◌∷◌, arith, pos, ℤ}
use fuse_rs.Base.Result.{Result, ok, err}
use fuse_rs.Abi.Structs.{FuseInitOut, fuse_init_out_struct}
use fuse_rs.Effect.{done}
use fuse_rs.Channel.{Read, got, failed}
use fuse_rs.Ll.Operation.{get_attr, init}
use fuse_rs.Ll.Request.{unique}
use fuse_rs.Reply.Raw.{as_bytes}
use fuse_rs.Reply.Raw.Laws.{packet}
use fuse_rs.Filesystem.{Filesystem}
use fuse_rs.Session.{Session, session_of}
use fuse_rs.Session.Loop.{run}
use fuse_rs.Session.Loop.Trace.{Inv, run-Inv}
use fuse_rs.Request.Dispatch.{dispatch}
use fuse_rs.Request.Replies.{IsReplied}
use fuse_rs.Request.Lifecycle.{Ensures, Follows, dispatch-Follows}
use fuse_rs.Request.Answered.{
  dispatch-Replied, refused, dispatch_uninitialized, dispatch_destroyed, dispatch_init_unsupported,
  dispatch_init_accepted, dispatch_init_refused,
}
use fuse_rs.Tests.{linux, channel, request_of, no_files, init_in, old_init_in, mknod_bytes}

abbrev pub fresh : Session ℕ
fresh = record {
  filesystem = 0;
  ch = channel;
  proto_major = 0;
  proto_minor = 0;
  initialized = false;
  destroyed = false;
}

abbrev pub mounted : Session ℕ
mounted = record fresh { proto_major = 7; proto_minor = 8; initialized = true }

abbrev unmounted : Session ℕ
unmounted = record mounted { destroyed = true }

dispatch-Replied_example :
    IsReplied linux no_files
      (request_of get_attr)
      mounted
      (dispatch linux no_files (request_of get_attr) mounted)
dispatch-Replied_example = dispatch-Replied linux no_files (request_of get_attr) mounted tt

dispatch-Follows_example :
    Ensures (Follows mounted get_attr) (dispatch linux no_files (request_of get_attr) mounted)
dispatch-Follows_example = dispatch-Follows linux no_files (request_of get_attr) mounted

dispatch_uninitialized_example :
    dispatch linux no_files (request_of get_attr) fresh
    ≡ refused linux no_files (request_of get_attr) fresh
dispatch_uninitialized_example =
    dispatch_uninitialized linux no_files (request_of get_attr) fresh (λ h. h) refl

dispatch_destroyed_example :
    dispatch linux no_files (request_of get_attr) unmounted
    ≡ refused linux no_files (request_of get_attr) unmounted
dispatch_destroyed_example =
    dispatch_destroyed linux no_files (request_of get_attr) unmounted (λ h. h) (λ h. h) refl refl

-- A file system that counts what is forgotten, and accepts INIT or not.
abbrev counting : Result ℤ (Unit {0}) → Filesystem ℕ
counting accepts = record no_files { init = λ _ s. (s, accepts); forget = λ _ _ n s. n }

dispatch_init_accepted_example :
    dispatch linux (counting (ok tt)) (request_of (init init_in)) fresh
    ≡ done
        (mounted, [])
        (packet
            (request_of (init init_in)).ch
            (unique (request_of (init init_in)).request)
            (pos 0)
            (as_bytes {T = FuseInitOut} (record {
              major = 7;
              minor = 8;
              max_readahead = 4096;
              flags = 0;
              unused = 0;
              max_write = 16777216;
            }))
          ∷ [])
dispatch_init_accepted_example =
    dispatch_init_accepted linux (counting (ok tt)) (request_of (init init_in)) fresh init_in 0 refl
      (inr (refl, omega arith)) refl

dispatch_init_refused_example :
    dispatch linux (counting (err (pos 5))) (request_of (init init_in)) fresh
    ≡ done
        (record fresh { proto_major = 7; proto_minor = 8 }, [])
        (packet
            (request_of (init init_in)).ch
            (unique (request_of (init init_in)).request)
            (pos 5)
            []
          ∷ [])
dispatch_init_refused_example =
    dispatch_init_refused linux (counting (err (pos 5))) (request_of (init init_in)) fresh init_in 0
      (pos 5) refl (inr (refl, omega arith)) refl

dispatch_init_unsupported_example :
    dispatch linux no_files (request_of (init old_init_in)) fresh
    ≡ done
        (fresh, [])
        (packet
            (request_of (init old_init_in)).ch
            (unique (request_of (init old_init_in)).request)
            (pos 71)
            []
          ∷ [])
dispatch_init_unsupported_example =
    dispatch_init_unsupported linux no_files (request_of (init old_init_in)) fresh old_init_in refl
      (inr (refl, omega arith))

abbrev pub reads : List Read
reads = failed (pos 4) ∷ got mknod_bytes ∷ failed (pos 19) ∷ []

run-Inv_example : Inv (run linux no_files (session_of 0 channel) reads).session
run-Inv_example = run-Inv linux no_files 0 channel reads
