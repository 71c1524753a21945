-- ===== src/Request/Replies/Calls.antt =====
-- The replies that the methods of a file system are given by `Request::dispatch` of src/request.rs, by
-- their type.
use fuse_rs.Base.{ℕ, ◌≡◌, refl, ◌∙◌, ◌⊎◌, inl, inr, ℤ, List, [], ◌∷◌}
use fuse_rs.Base.{append-nil}
use fuse_rs.Platform.{Libc}
use fuse_rs.Effect.{ChannelSender, Outcome, done, panicked, pure, ◌>>=◌}
use fuse_rs.Ll.Request.{unique}
use fuse_rs.Reply.Raw.{ReplyRaw}
use fuse_rs.Reply.Raw.Laws.{packet}
use fuse_rs.Reply.Types.{
  Reply, create, reply_empty, reply_data, reply_entry, reply_attr, reply_open, reply_write,
  reply_statfs, reply_create, reply_lock, reply_bmap, reply_xattr,
}
use fuse_rs.Reply.Directory
use fuse_rs.Reply.Directory.{ReplyDirectory, DirEntry}
use fuse_rs.Reply.Typed.Laws.{
  AnswersOnce, error-AnswersOnce, empty-AnswersOnce, with_data-AnswersOnce, xattr_data-AnswersOnce,
  entry-AnswersOnce, attr-AnswersOnce, created-AnswersOnce, opened-AnswersOnce, written-AnswersOnce,
  statfs-AnswersOnce, locked-AnswersOnce, bmap-AnswersOnce, size-AnswersOnce,
}
use fuse_rs.Filesystem.{
  Filesystem, Answer, DirAnswer, XattrAnswer, EntryAnswer, AttrAnswer, OpenAnswer, StatfsAnswer,
  CreateAnswer, LockAnswer, give_empty, give_data, give_entry, give_attr, give_open, give_write,
  give_statfs, give_create, give_lock, give_bmap, give_xattr,
}
use fuse_rs.Session.{Session}
use fuse_rs.Request.{Request}
use fuse_rs.Request.Dispatch.{Dispatched, reply_error, call, call_dir}
use fuse_rs.Filesystem.Settled.{Settled, perform-Settled, perform_dir-Settled}

-- The same of a dispatch, which may also panic before there is a reply.
abbrev pub Replied : {S : Type 0} → Libc → ChannelSender → ℕ → Dispatched S → Type 0
Replied c s u (done (se, kept) sent) = Settled c s u (done kept sent)
Replied c s u (panicked sent) = (sent ≡ []) ⊎ (sent ≡ packet s u c.eio [] ∷ [])

-- The same without a panic before there is a reply.
abbrev pub Handled : {S : Type 0} → Libc → ChannelSender → ℕ → Dispatched S → Type 0
Handled c s u (done (se, kept) sent) = Settled c s u (done kept sent)
Handled c s u (panicked sent) = sent ≡ packet s u c.eio [] ∷ []

pub Handled-Replied :
    {S : Type 0} (c : Libc) (s : ChannelSender) (u : ℕ) (o : Dispatched S)
    → Handled c s u o
    → Replied c s u o
Handled-Replied c s u (done (se, kept) sent) h = h
Handled-Replied c s u (panicked sent) h = inr h

module _ (c : Libc) (s : ChannelSender) (u : ℕ) where
  -- With the session that goes with it.
  pub Settled-Handled :
      {S : Type 0} (o : Outcome (List ReplyRaw)) (se : Session S)
      → Settled c s u o
      → Handled c s u (o >>= λ replies. pure (se, replies))
  Settled-Handled (done kept sent) se h = rw append-nil h
  Settled-Handled (panicked sent) se h = h

  pub give_xattr-AnswersOnce : (a : XattrAnswer) → AnswersOnce c s u (give_xattr c (create u s) a)
  unfolding give_xattr
  give_xattr-AnswersOnce (XattrAnswer.size n) = size-AnswersOnce c s u n
  give_xattr-AnswersOnce (XattrAnswer.value bytes) = xattr_data-AnswersOnce c s u bytes

  pub answered-Handled :
      {S : Type 0} (o : Outcome (Unit {0})) (se : Session S)
      → AnswersOnce c s u o
      → Handled c s u (o >>= λ _. pure (se, []))
  answered-Handled (done _ sent) se (e, bytes, h) = inl (refl, e, bytes, append-nil sent ∙ h)
  answered-Handled (panicked sent) se h = h

module _ (c : Libc) {S : Type 0} (fs : Filesystem S) (q : Request) (se : Session S) where
  abbrev pub IsHandled : Dispatched S → Type 0
  IsHandled = Handled c q.ch (unique q.request)

  abbrev pub IsReplied : Dispatched S → Type 0
  IsReplied = Replied c q.ch (unique q.request)

  pub reply_error-Handled :
      (R : Type 0) ⦃rep : Reply R⦄ (code : ℤ) → IsHandled (reply_error c fs q se R code)
  unfolding reply_error
  reply_error-Handled R code =
      answered-Handled c q.ch (unique q.request) _ se
        (error-AnswersOnce c q.ch (unique q.request) R code)

  pub call-Handled :
      {R A : Type 0} ⦃rep : Reply R⦄ (give : R → A → Outcome (Unit {0})) (r : S × Answer A)
      → ((x : A) → AnswersOnce c q.ch (unique q.request) (give (create (unique q.request) q.ch) x))
      → IsHandled (call c fs q se give r)
  unfolding call
  call-Handled give (st, a) h =
      Settled-Handled c q.ch (unique q.request) _ (record se { filesystem = st })
        (perform-Settled c q.ch (unique q.request) give a h)

  pub call_dir-Handled : (size : ℕ) (r : S × DirAnswer) → IsHandled (call_dir c fs q se size r)
  unfolding call_dir Directory.new
  call_dir-Handled size (st, a) =
      let u = unique q.request in
      Settled-Handled c q.ch u _ (record se { filesystem = st })
        (perform_dir-Settled c q.ch u (Directory.new c u q.ch size) a refl)

  -- The methods by the kind of their reply.
  pub empty-Handled : (r : S × Answer (Unit {0})) → IsHandled (call c fs q se (give_empty c) r)
  unfolding give_empty
  empty-Handled r =
      let u = unique q.request in call-Handled (give_empty c) r (λ a. empty-AnswersOnce c q.ch u)

  pub data-Handled : (r : S × Answer (List ℕ)) → IsHandled (call c fs q se (give_data c) r)
  unfolding give_data
  data-Handled r =
      let u = unique q.request in
      call-Handled (give_data c) r (λ a. with_data-AnswersOnce c q.ch u a)

  pub entry-Handled : (r : S × Answer (EntryAnswer)) → IsHandled (call c fs q se (give_entry c) r)
  unfolding give_entry
  entry-Handled r =
      let u = unique q.request in
      call-Handled (give_entry c) r (λ a. entry-AnswersOnce c q.ch u a.ttl a.attr a.generation)

  pub attr-Handled : (r : S × Answer (AttrAnswer)) → IsHandled (call c fs q se (give_attr c) r)
  unfolding give_attr
  attr-Handled r =
      let u = unique q.request in
      call-Handled (give_attr c) r (λ a. attr-AnswersOnce c q.ch u a.ttl a.attr)

  pub open-Handled : (r : S × Answer (OpenAnswer)) → IsHandled (call c fs q se (give_open c) r)
  unfolding give_open
  open-Handled r =
      let u = unique q.request in
      call-Handled (give_open c) r (λ a. opened-AnswersOnce c q.ch u a.fh a.flags)

  pub write-Handled : (r : S × Answer (ℕ)) → IsHandled (call c fs q se (give_write c) r)
  unfolding give_write
  write-Handled r =
      let u = unique q.request in
      call-Handled (give_write c) r (λ a. written-AnswersOnce c q.ch u a)

  pub statfs-Handled :
      (r : S × Answer (StatfsAnswer)) → IsHandled (call c fs q se (give_statfs c) r)
  unfolding give_statfs
  statfs-Handled r =
      let u = unique q.request in
      call-Handled (give_statfs c) r (λ a.
        statfs-AnswersOnce c q.ch u a.blocks a.bfree a.bavail a.files a.ffree a.bsize a.namelen
          a.frsize)

  pub create-Handled :
      (r : S × Answer (CreateAnswer)) → IsHandled (call c fs q se (give_create c) r)
  unfolding give_create
  create-Handled r =
      let u = unique q.request in
      call-Handled (give_create c) r
        (λ a. created-AnswersOnce c q.ch u a.ttl a.attr a.generation a.fh a.flags)

  pub lock-Handled : (r : S × Answer (LockAnswer)) → IsHandled (call c fs q se (give_lock c) r)
  unfolding give_lock
  lock-Handled r =
      let u = unique q.request in
      call-Handled (give_lock c) r (λ a. locked-AnswersOnce c q.ch u a.start a.end a.typ a.pid)

  pub bmap-Handled : (r : S × Answer (ℕ)) → IsHandled (call c fs q se (give_bmap c) r)
  unfolding give_bmap
  bmap-Handled r =
      let u = unique q.request in call-Handled (give_bmap c) r (λ a. bmap-AnswersOnce c q.ch u a)

  pub xattr-Handled : (r : S × Answer XattrAnswer) → IsHandled (call c fs q se (give_xattr c) r)
  xattr-Handled r = call-Handled (give_xattr c) r (give_xattr-AnswersOnce c q.ch (unique q.request))
