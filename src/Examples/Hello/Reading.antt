-- ===== src/Examples/Hello/Reading.antt =====
-- examples/hello.rs: `read` behind `Request::dispatch`, and `getattr` of what `lookup` finds.
use fuse_rs.Base.{
  ℕ, ◌^◌, ◌≤◌, ◌<◌, ◌≡◌, refl, ap, ◌∙◌, ◌⊎◌, inl, inr, pos, true, false, not, List, [], ◌∷◌, arith,
  drop, as_i64, as_u64-as_i64, if_false, ltb, Bool-cases, ltb→lt, ltb_false→le,
}
use fuse_rs.Abi.Structs.{FuseReadIn}
use fuse_rs.Platform.{Libc}
use fuse_rs.Effect.{done, panicked}
use fuse_rs.Ll.Request.{nodeid, unique}
use fuse_rs.Ll.Operation.{read}
use fuse_rs.Reply.Typed.{with_data}
use fuse_rs.Reply.Types.{reply_data}
use fuse_rs.Reply.Raw.Laws.{packet, send_all-new, drop-new}
use fuse_rs.Filesystem.{Answer, answer, EntryAnswer, give_data}
use fuse_rs.Session.{Session}
use fuse_rs.Request.{Request}
use fuse_rs.Request.Dispatch.{dispatch, handle, handle_initialized, handle_mounted, call}
use fuse_rs.Examples.Hello.{hello_fs, hello_read, hello_lookup, hello_getattr, hello_txt_content}

module _ (c : Libc) where
  hello_read_cases :
      (offset : ℕ)
      → offset < 2 ^ 64
      → ((offset ≤ 13) × (hello_read c 2 (as_i64 offset) ≡ answer (drop offset hello_txt_content)))
        ⊎ ((13 < offset) × (hello_read c 2 (as_i64 offset) ≡ Answer.panics))
  unfolding hello_read
  hello_read_cases offset h = elim (Bool-cases (ltb 13 offset)) [
    | inl behind ↦ inr (ltb→lt _ _ behind, rw (as_u64-as_i64 offset h, behind) refl)
    | inr within ↦ inl (ltb_false→le _ _ within, rw (as_u64-as_i64 offset h, within) refl)
  ]

  module _ (q : Request) (se : Session (Unit {0})) where
    dispatch-read :
        (arg : FuseReadIn)
        → q.request.operation ≡ read arg
        → se.initialized ≡ true
        → se.destroyed ≡ false
        → nodeid q.request ≡ 2
        → dispatch c (hello_fs c) q se
          ≡ call c
              (hello_fs c)
              q
              se
              (give_data c)
              (se.filesystem, hello_read c 2 (as_i64 arg.offset))
    unfolding dispatch handle handle_initialized handle_mounted hello_fs
    dispatch-read arg op up alive file =
        ap (handle c (hello_fs c) q se) op
        ∙ if_false (not se.initialized) _ _ (ap not up)
        ∙ if_false se.destroyed _ _ alive
        ∙ ap
            (λ n.
              call c (hello_fs c) q se (give_data c)
                (se.filesystem, hello_read c n (as_i64 arg.offset)))
            file

    call-answer :
        (bytes : List ℕ)
        → call c (hello_fs c) q se (give_data c) (se.filesystem, answer bytes)
          ≡ done (se, []) (packet q.ch (unique q.request) (pos 0) (bytes ∷ []) ∷ [])
    unfolding call give_data with_data
    call-answer bytes = rw send_all-new refl

    call-panics :
        call c (hello_fs c) q se (give_data c) (se.filesystem, Answer.panics)
        ≡ panicked (packet q.ch (unique q.request) c.eio [] ∷ [])
    unfolding call
    call-panics = rw drop-new refl

    -- In a session of the example that is initialized and not destroyed, a READ of the file is
    -- answered with the content from the offset to the end, whatever size it asks for, if the
    -- offset is at most 13, and otherwise panics with only the error EIO sent.
    pub hello_read-dispatch :
        (arg : FuseReadIn)
        → q.request.operation ≡ read arg
        → se.initialized ≡ true
        → se.destroyed ≡ false
        → nodeid q.request ≡ 2
        → arg.offset < 2 ^ 64
        → ((arg.offset ≤ 13)
            × (dispatch c (hello_fs c) q se
                ≡ done
                    (se, [])
                    (packet q.ch (unique q.request) (pos 0) (drop arg.offset hello_txt_content ∷ [])
                      ∷ [])))
          ⊎ ((13 < arg.offset)
              × (dispatch c (hello_fs c) q se
                  ≡ panicked (packet q.ch (unique q.request) c.eio [] ∷ [])))
    hello_read-dispatch arg op up alive file h = elim (hello_read_cases arg.offset h) [
      | inl (within, e) ↦ inl (
        within,
        rw (dispatch-read arg op up alive file, e)
            (call-answer (drop arg.offset hello_txt_content)),
      )
      | inr (behind, e) ↦ inr (behind, rw (dispatch-read arg op up alive file, e) call-panics)
    ]

  -- The attributes that `lookup` of the example answers for a name are those that `getattr`
  -- answers for their inode.
  pub hello_getattr-hello_lookup :
      (parent : ℕ) (name : List ℕ) (a : EntryAnswer)
      → hello_lookup c parent name ≡ answer a
      → hello_getattr c a.attr.ino ≡ answer (record { ttl = a.ttl; attr = a.attr })
  unfolding hello_lookup hello_getattr
  hello_getattr-hello_lookup parent name a found = ground arith
