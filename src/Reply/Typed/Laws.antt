-- ===== src/Reply/Typed/Laws.antt =====
-- What the methods of the typed replies of src/reply.rs send, panics included.
use fuse_rs.Base.{ℕ, ◌≡◌, refl, sym, ℤ, pos, List, [], ◌∷◌, Option, none, some}
use mathlib.Core.Path.{subst}
use fuse_rs.Abi.Layout.{Struct}
use fuse_rs.Platform.{Libc, Duration}
use fuse_rs.Effect.{ChannelSender, Outcome, done, panicked, unwrap, after_nil, ◌>>=◌}
use fuse_rs.Reply.Raw.{new, as_bytes, drop, send_all, ok, error}
use fuse_rs.Reply.Types.{
  Reply, create, reply_empty, reply_data, reply_entry, reply_attr, reply_open, reply_write,
  reply_statfs, reply_create, reply_lock, reply_bmap, reply_xattr,
}
use fuse_rs.Reply.Raw.Laws.{packet, send_all-new, drop-new}
use fuse_rs.Reply.Attr.{FileAttr, fuse_attr_from_attr}
use fuse_rs.Reply.Typed.{
  empty, with_data, xattr_data, entry, attr, opened, written, statfs, created, locked, bmap, size,
}

-- The run sends one packet, which answers this request; if it panics, the packet is the error EIO.
abbrev pub AnswersOnce : Libc → ChannelSender → ℕ → Outcome (Unit {0}) → Type 0
AnswersOnce c s unique (done _ sent) =
    (err : ℤ) × (bytes : List (List ℕ)) × (sent ≡ packet s unique err bytes ∷ [])
AnswersOnce c s unique (panicked sent) = sent ≡ packet s unique c.eio [] ∷ []

module _ (c : Libc) (s : ChannelSender) (unique : ℕ) where
  pub send_all-AnswersOnce :
      (err : ℤ) (bytes : List (List ℕ))
      → AnswersOnce c s unique (send_all c (new unique s) err bytes)
  send_all-AnswersOnce err bytes = rw send_all-new (err, bytes, refl)

  pub ok-AnswersOnce :
      {T : Type 0} ⦃l : Struct T⦄ (t : T) → AnswersOnce c s unique (ok c (new unique s) t)
  unfolding ok
  ok-AnswersOnce t = send_all-AnswersOnce (pos 0) (as_bytes t)

  -- `error` and the drop of a new reply of any type.
  pub error-AnswersOnce :
      (R : Type 0) ⦃rep : Reply R⦄ (err : ℤ)
      → AnswersOnce c s unique (rep.error c (rep.create unique s) err)
  unfolding error
  error-AnswersOnce R ⦃rep⦄ err = rw (rep.error_raw, rep.raw-create) (send_all-AnswersOnce err [])

  pub drop-AnswersOnce :
      (R : Type 0) ⦃rep : Reply R⦄ → AnswersOnce c s unique (drop c (rep.raw (rep.create unique s)))
  drop-AnswersOnce R ⦃rep⦄ = rw (rep.raw-create, drop-new) (c.eio, [], refl)

  pub empty-AnswersOnce : AnswersOnce c s unique (empty c (create unique s))
  unfolding empty
  empty-AnswersOnce = send_all-AnswersOnce (pos 0) []

  pub with_data-AnswersOnce :
      (bytes : List ℕ) → AnswersOnce c s unique (with_data c (create unique s) bytes)
  unfolding with_data
  with_data-AnswersOnce bytes = send_all-AnswersOnce (pos 0) (bytes ∷ [])

  -- A value that may be missing: the panic drops the reply.
  pub unwrap-AnswersOnce :
      {A : Type 0} (o : Option A) (f : A → Outcome (Unit {0}))
      → ((a : A) → AnswersOnce c s unique (f a))
      → AnswersOnce c s unique (unwrap o (drop c (new unique s)) >>= f)
  unwrap-AnswersOnce none f h = rw drop-new refl
  unwrap-AnswersOnce (some a) f h = subst (AnswersOnce c s unique) (sym (after_nil (f a))) (h a)

  pub entry-AnswersOnce :
      (ttl : Duration) (attributes : FileAttr) (generation : ℕ)
      → AnswersOnce c s unique (entry c (create unique s) ttl attributes generation)
  unfolding entry
  entry-AnswersOnce ttl attributes generation =
      unwrap-AnswersOnce (fuse_attr_from_attr c attributes) _ (λ a. ok-AnswersOnce ⦃l = _⦄ _)

  pub attr-AnswersOnce :
      (ttl : Duration) (attributes : FileAttr)
      → AnswersOnce c s unique (attr c (create unique s) ttl attributes)
  unfolding attr
  attr-AnswersOnce ttl attributes =
      unwrap-AnswersOnce (fuse_attr_from_attr c attributes) _ (λ a. ok-AnswersOnce ⦃l = _⦄ _)

  -- `created` on a new reply sends one packet and returns, or, where a time is before the epoch,
  -- panics with only the error EIO sent.
  pub created-AnswersOnce :
      (ttl : Duration) (attributes : FileAttr) (generation fh flags : ℕ)
      → AnswersOnce c s unique (created c (create unique s) ttl attributes generation fh flags)
  unfolding created
  created-AnswersOnce ttl attributes generation fh flags =
      unwrap-AnswersOnce (fuse_attr_from_attr c attributes) _ (λ a. ok-AnswersOnce ⦃l = _⦄ _)

  pub opened-AnswersOnce :
      (fh flags : ℕ) → AnswersOnce c s unique (opened c (create unique s) fh flags)
  unfolding opened
  opened-AnswersOnce fh flags = ok-AnswersOnce ⦃l = _⦄ _

  pub written-AnswersOnce : (n : ℕ) → AnswersOnce c s unique (written c (create unique s) n)
  unfolding written
  written-AnswersOnce n = ok-AnswersOnce ⦃l = _⦄ _

  pub statfs-AnswersOnce :
      (blocks bfree bavail files ffree bsize namelen frsize : ℕ)
      → AnswersOnce c s unique
          (statfs c (create unique s) blocks bfree bavail files ffree bsize namelen frsize)
  unfolding statfs
  statfs-AnswersOnce _ _ _ _ _ _ _ _ = ok-AnswersOnce ⦃l = _⦄ _

  pub locked-AnswersOnce :
      (start end typ pid : ℕ)
      → AnswersOnce c s unique (locked c (create unique s) start end typ pid)
  unfolding locked
  locked-AnswersOnce start end typ pid = ok-AnswersOnce ⦃l = _⦄ _

  pub bmap-AnswersOnce : (block : ℕ) → AnswersOnce c s unique (bmap c (create unique s) block)
  unfolding bmap
  bmap-AnswersOnce block = ok-AnswersOnce ⦃l = _⦄ _

  pub size-AnswersOnce : (n : ℕ) → AnswersOnce c s unique (size c (create unique s) n)
  unfolding size
  size-AnswersOnce n = ok-AnswersOnce ⦃l = _⦄ _

  pub xattr_data-AnswersOnce :
      (bytes : List ℕ) → AnswersOnce c s unique (xattr_data c (create unique s) bytes)
  unfolding xattr_data
  xattr_data-AnswersOnce bytes = send_all-AnswersOnce (pos 0) (bytes ∷ [])
