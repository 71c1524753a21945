-- ===== src/Request/Replies.antt =====
-- The replies of the operations that `Request::dispatch` of src/request.rs hands to the file
-- system.
mod Calls
use fuse_rs.Base.{
  ℕ, ◌≡◌, refl, ◌∙◌, ◌⊎◌, inl, inr, ℤ, Bool, true, false, List, [], ◌∷◌, Option, none, some,
  if◌then◌else◌, ◌==◌, length, not, arith,
}
use fuse_rs.Base.{append-nil}
use fuse_rs.Platform.{Libc}
use fuse_rs.Effect.{ChannelSender, Outcome, done, panicked, pure, ◌>>=◌}
use fuse_rs.Ll.Request.{unique}
use fuse_rs.Ll.Operation.{
  Operation, lookup, forget, get_attr, set_attr, read_link, sym_link, mk_nod, mk_dir, unlink,
  rm_dir, rename, link, «open», read, write, stat_fs, release, fsync, set_xattr, get_xattr,
  list_xattr, remove_xattr, flush, init, open_dir, read_dir, release_dir, fsync_dir, get_lk, set_lk,
  set_lk_w, access, create, interrupt, bmap, destroy,
}
use fuse_rs.Reply.Raw.{ReplyRaw, new}
use fuse_rs.Reply.Raw.Laws.{packet}
use fuse_rs.Reply.Types.{ReplyEmpty, reply_empty}
use fuse_rs.Reply.Directory
use fuse_rs.Reply.Directory.{ReplyDirectory, DirEntry}
use fuse_rs.Reply.Typed.Laws.{
  AnswersOnce, error-AnswersOnce, empty-AnswersOnce, with_data-AnswersOnce, entry-AnswersOnce,
  attr-AnswersOnce, created-AnswersOnce, opened-AnswersOnce, written-AnswersOnce,
  statfs-AnswersOnce, locked-AnswersOnce, bmap-AnswersOnce, size-AnswersOnce,
}
use fuse_rs.Filesystem.{
  Filesystem, Answer, DirAnswer, XattrAnswer, EntryAnswer, AttrAnswer, OpenAnswer, StatfsAnswer,
  CreateAnswer, LockAnswer, SetAttr, give_empty, give_data, give_entry, give_attr, give_open,
  give_write, give_statfs, give_create, give_lock, give_bmap, give_xattr,
}
use fuse_rs.Session.{Session}
use fuse_rs.Request.{Request}
use fuse_rs.Request.Args.{set_attr_args}
use fuse_rs.Request.Dispatch.{
  Dispatched, reply_error, call, call_dir, handle_set_attr, handle_mounted,
}
use fuse_rs.Filesystem.Settled.{Settled, perform-Settled, perform_dir-Settled}
pub use Calls.{
  Replied, Handled, Handled-Replied, Settled-Handled, give_xattr-AnswersOnce, answered-Handled,
  IsHandled, IsReplied, reply_error-Handled, call-Handled, call_dir-Handled, empty-Handled,
  data-Handled, entry-Handled, attr-Handled, open-Handled, write-Handled, statfs-Handled,
  create-Handled, lock-Handled, bmap-Handled, xattr-Handled,
}

abbrev pub is_none : Option SetAttr → Bool
is_none none = true
is_none (some a) = false

-- The operations whose arguments make `dispatch` panic before it calls the file system.
abbrev pub fatal : Operation → Bool
fatal (set_attr arg) = is_none (set_attr_args arg)
fatal (write arg value) = not (length value == arg.size)
fatal (set_xattr arg name value) = not (length value == arg.size)
fatal _ = false

module _ (c : Libc) {S : Type 0} (fs : Filesystem S) (q : Request) (se : Session S) where
  set_attr-Handled :
      (a : Option SetAttr) → is_none a ≡ false → IsHandled c fs q se (handle_set_attr c fs q se a)
  unfolding handle_set_attr
  set_attr-Handled none h = absurd (ground arith)
  set_attr-Handled (some a) h = attr-Handled c fs q se _

  asserted-Handled :
      (b : Bool) (o : Dispatched S)
      → IsHandled c fs q se o
      → not b ≡ false
      → IsHandled c fs q se (if b then o else panicked [])
  asserted-Handled true o h e = h
  asserted-Handled false o h e = absurd (ground arith)

  -- All operations but FORGET are answered.
  abbrev pub WantsReply : Operation → Type 0
  WantsReply (forget arg) = ⊥
  WantsReply _ = Unit {0}

  -- INIT and DESTROY are handled before.
  abbrev pub IsMounted : Operation → Type 0
  IsMounted (init arg) = ⊥
  IsMounted destroy = ⊥
  IsMounted _ = Unit {0}

  pub handle_mounted-Handled :
      (op : Operation)
      → WantsReply op
      → IsMounted op
      → fatal op ≡ false
      → IsHandled c fs q se (handle_mounted c fs q se op)
  unfolding handle_mounted
  handle_mounted-Handled (lookup name) w m safe = entry-Handled c fs q se _
  handle_mounted-Handled (forget arg) w m safe = absurd w
  handle_mounted-Handled get_attr w m safe = attr-Handled c fs q se _
  handle_mounted-Handled (set_attr arg) w m safe = set_attr-Handled (set_attr_args arg) safe
  handle_mounted-Handled read_link w m safe = data-Handled c fs q se _
  handle_mounted-Handled (sym_link name target) w m safe = entry-Handled c fs q se _
  handle_mounted-Handled (mk_nod arg name) w m safe = entry-Handled c fs q se _
  handle_mounted-Handled (mk_dir arg name) w m safe = entry-Handled c fs q se _
  handle_mounted-Handled (unlink name) w m safe = empty-Handled c fs q se _
  handle_mounted-Handled (rm_dir name) w m safe = empty-Handled c fs q se _
  handle_mounted-Handled (rename arg name newname) w m safe = empty-Handled c fs q se _
  handle_mounted-Handled (link arg name) w m safe = entry-Handled c fs q se _
  handle_mounted-Handled («open» arg) w m safe = open-Handled c fs q se _
  handle_mounted-Handled (read arg) w m safe = data-Handled c fs q se _
  handle_mounted-Handled (write arg value) w m safe =
      asserted-Handled (length value == arg.size) _ (write-Handled c fs q se _) safe
  handle_mounted-Handled stat_fs w m safe = statfs-Handled c fs q se _
  handle_mounted-Handled (release arg) w m safe = empty-Handled c fs q se _
  handle_mounted-Handled (fsync arg) w m safe = empty-Handled c fs q se _
  handle_mounted-Handled (set_xattr arg name value) w m safe =
      asserted-Handled (length value == arg.size) _ (empty-Handled c fs q se _) safe
  handle_mounted-Handled (get_xattr arg name) w m safe = xattr-Handled c fs q se _
  handle_mounted-Handled (list_xattr arg) w m safe = xattr-Handled c fs q se _
  handle_mounted-Handled (remove_xattr name) w m safe = empty-Handled c fs q se _
  handle_mounted-Handled (flush arg) w m safe = empty-Handled c fs q se _
  handle_mounted-Handled (init arg) w m safe = absurd m
  handle_mounted-Handled (open_dir arg) w m safe = open-Handled c fs q se _
  handle_mounted-Handled (read_dir arg) w m safe = call_dir-Handled c fs q se arg.size _
  handle_mounted-Handled (release_dir arg) w m safe = empty-Handled c fs q se _
  handle_mounted-Handled (fsync_dir arg) w m safe = empty-Handled c fs q se _
  handle_mounted-Handled (get_lk arg) w m safe = lock-Handled c fs q se _
  handle_mounted-Handled (set_lk arg) w m safe = empty-Handled c fs q se _
  handle_mounted-Handled (set_lk_w arg) w m safe = empty-Handled c fs q se _
  handle_mounted-Handled (access arg) w m safe = empty-Handled c fs q se _
  handle_mounted-Handled (create arg name) w m safe = create-Handled c fs q se _
  handle_mounted-Handled (interrupt arg) w m safe =
      reply_error-Handled c fs q se ReplyEmpty c.enosys
  handle_mounted-Handled (bmap arg) w m safe = bmap-Handled c fs q se _
  handle_mounted-Handled destroy w m safe = absurd m

  set_attr_fatal :
      (a : Option SetAttr) → is_none a ≡ true → handle_set_attr c fs q se a ≡ panicked []
  unfolding handle_set_attr
  set_attr_fatal none h = refl
  set_attr_fatal (some a) h = absurd (ground arith)

  asserted_fatal :
      (b : Bool) (o : Dispatched S) → not b ≡ true → (if b then o else panicked []) ≡ panicked []
  asserted_fatal true o h = absurd (ground arith)
  asserted_fatal false o h = refl

  pub handle_mounted-fatal :
      (op : Operation) → fatal op ≡ true → handle_mounted c fs q se op ≡ panicked []
  unfolding handle_mounted
  handle_mounted-fatal (set_attr arg) h = set_attr_fatal (set_attr_args arg) h
  handle_mounted-fatal (write arg value) h = asserted_fatal (length value == arg.size) _ h
  handle_mounted-fatal (set_xattr arg name value) h = asserted_fatal (length value == arg.size) _ h
  handle_mounted-fatal op h = absurd (ground arith)
