-- ===== src/Filesystem.antt =====
-- The trait `Filesystem` of src/lib.rs, as a record of its methods over the state `S` of an
-- implementation. A method returns the new state and what it does with the reply that it was given.
pub mod Default
pub mod Settled
pub mod Macos
use fuse_rs.Base.{ℕ, ℤ, Bool, List, Option, none}
use fuse_rs.Base.Result.{Result}
use fuse_rs.Platform.{Libc, Duration, SystemTime}
use fuse_rs.Effect.{Outcome, pure, unwrap, ◌>>=◌, ◌>>◌}
use fuse_rs.Ll.Request.{Request}
use fuse_rs.Reply.Raw.{ReplyRaw}
use fuse_rs.Reply.Raw
use fuse_rs.Reply.Attr.{FileAttr}
use fuse_rs.Reply.Directory.{ReplyDirectory, DirEntry}
use fuse_rs.Reply.Directory
use fuse_rs.Reply.Typed
use fuse_rs.Reply.Types.{
  Reply, ReplyEmpty, ReplyData, ReplyEntry, ReplyAttr, ReplyOpen, ReplyWrite, ReplyStatfs,
  ReplyCreate, ReplyLock, ReplyBmap, ReplyXattr,
}
use fuse_rs.Base.{[], ◌∷◌}

-- What becomes of a reply: its own method is called, or `error`; it is dropped; it is kept (in the
-- state, or by another thread) and used later; or the method panics while it has the reply.
pub data Answer (A : Type 0) : Type 0 where
  answer : A → Answer A
  error : ℤ → Answer A
  dropped : Answer A
  kept : Answer A
  panics : Answer A

-- The arguments of `ReplyEntry::entry`, `ReplyAttr::attr` and so on.
pub record EntryAnswer : Type 0 where
  pub ttl : Duration
  pub attr : FileAttr
  pub generation : ℕ

pub record AttrAnswer : Type 0 where
  pub ttl : Duration
  pub attr : FileAttr

pub record OpenAnswer : Type 0 where
  pub fh : ℕ
  pub flags : ℕ

pub record StatfsAnswer : Type 0 where
  pub blocks : ℕ
  pub bfree : ℕ
  pub bavail : ℕ
  pub files : ℕ
  pub ffree : ℕ
  pub bsize : ℕ
  pub namelen : ℕ
  pub frsize : ℕ

pub record CreateAnswer : Type 0 where
  pub ttl : Duration
  pub attr : FileAttr
  pub generation : ℕ
  pub fh : ℕ
  pub flags : ℕ

pub record LockAnswer : Type 0 where
  pub start : ℕ
  pub end : ℕ
  pub typ : ℕ
  pub pid : ℕ

pub data XattrAnswer : Type 0 where
  size : ℕ → XattrAnswer
  value : List ℕ → XattrAnswer

-- A `readdir` adds entries, each time seeing whether the buffer was full, until it is done.
pub data DirAnswer : Type 0 where
  add : DirEntry → (Bool → DirAnswer) → DirAnswer
  ok : DirAnswer
  error : ℤ → DirAnswer
  dropped : DirAnswer
  kept : DirAnswer
  panics : DirAnswer

-- A loop that adds entries one by one, whether the buffer is full or not, and then sends it.
unfoldable pub add_each : List DirEntry → DirAnswer
add_each [] = ok
add_each (e ∷ es) = add e (λ _. add_each es)

-- The optional arguments of `setattr`.
pub record SetAttr : Type 0 where
  pub mode : Option ℕ
  pub uid : Option ℕ
  pub gid : Option ℕ
  pub size : Option ℕ
  pub atime : Option SystemTime
  pub mtime : Option SystemTime
  pub fh : Option ℕ
  pub crtime : Option SystemTime
  pub chgtime : Option SystemTime
  pub bkuptime : Option SystemTime
  pub flags : Option ℕ

-- The arguments stand in the order of the trait; offsets are `i64`, names and data are bytes.
pub record Filesystem (S : Type 0) : Type 0 where
  pub init : Request → S → S × Result ℤ (Unit {0})
  pub destroy : Request → S → S
  pub lookup : Request → ℕ → List ℕ → S → S × Answer EntryAnswer
  pub forget : Request → ℕ → ℕ → S → S
  pub getattr : Request → ℕ → S → S × Answer AttrAnswer
  pub setattr : Request → ℕ → SetAttr → S → S × Answer AttrAnswer
  pub readlink : Request → ℕ → S → S × Answer (List ℕ)
  pub mknod : Request → ℕ → List ℕ → ℕ → ℕ → S → S × Answer EntryAnswer
  pub mkdir : Request → ℕ → List ℕ → ℕ → S → S × Answer EntryAnswer
  pub unlink : Request → ℕ → List ℕ → S → S × Answer (Unit {0})
  pub rmdir : Request → ℕ → List ℕ → S → S × Answer (Unit {0})
  pub symlink : Request → ℕ → List ℕ → List ℕ → S → S × Answer EntryAnswer
  pub rename : Request → ℕ → List ℕ → ℕ → List ℕ → S → S × Answer (Unit {0})
  pub link : Request → ℕ → ℕ → List ℕ → S → S × Answer EntryAnswer
  pub open_file : Request → ℕ → ℕ → S → S × Answer OpenAnswer
  pub read : Request → ℕ → ℕ → ℤ → ℕ → S → S × Answer (List ℕ)
  pub write : Request → ℕ → ℕ → ℤ → List ℕ → ℕ → S → S × Answer ℕ
  pub flush : Request → ℕ → ℕ → ℕ → S → S × Answer (Unit {0})
  pub release : Request → ℕ → ℕ → ℕ → ℕ → Bool → S → S × Answer (Unit {0})
  pub fsync : Request → ℕ → ℕ → Bool → S → S × Answer (Unit {0})
  pub opendir : Request → ℕ → ℕ → S → S × Answer OpenAnswer
  pub readdir : Request → ℕ → ℕ → ℤ → S → S × DirAnswer
  pub releasedir : Request → ℕ → ℕ → ℕ → S → S × Answer (Unit {0})
  pub fsyncdir : Request → ℕ → ℕ → Bool → S → S × Answer (Unit {0})
  pub statfs : Request → ℕ → S → S × Answer StatfsAnswer
  pub setxattr : Request → ℕ → List ℕ → List ℕ → ℕ → ℕ → S → S × Answer (Unit {0})
  pub getxattr : Request → ℕ → List ℕ → ℕ → S → S × Answer XattrAnswer
  pub listxattr : Request → ℕ → ℕ → S → S × Answer XattrAnswer
  pub removexattr : Request → ℕ → List ℕ → S → S × Answer (Unit {0})
  pub access : Request → ℕ → ℕ → S → S × Answer (Unit {0})
  pub create : Request → ℕ → List ℕ → ℕ → ℕ → S → S × Answer CreateAnswer
  pub getlk : Request → ℕ → ℕ → ℕ → ℕ → ℕ → ℕ → ℕ → S → S × Answer LockAnswer
  pub setlk : Request → ℕ → ℕ → ℕ → ℕ → ℕ → ℕ → ℕ → Bool → S → S × Answer (Unit {0})
  pub bmap : Request → ℕ → ℕ → ℕ → S → S × Answer ℕ

module _ (c : Libc) where
  -- Carrying out what a method does with its reply, of any type. The result holds the reply if it was
  -- kept.
  unfoldable pub perform :
      {R A : Type 0} ⦃rep : Reply R⦄
      → (R → A → Outcome (Unit {0}))
      → R
      → Answer A
      → Outcome (List ReplyRaw)
  perform ⦃rep⦄ give r (answer a) = do give r a; pure []
  perform ⦃rep⦄ give r (error err) = do rep.error c r err; pure []
  perform ⦃rep⦄ give r dropped = do Raw.drop c (rep.raw r); pure []
  perform ⦃rep⦄ give r kept = pure (rep.raw r ∷ [])
  perform ⦃rep⦄ give r panics = unwrap none (Raw.drop c (rep.raw r))

  unfoldable pub give_empty : ReplyEmpty → Unit {0} → Outcome (Unit {0})
  give_empty r _ = Typed.empty c r

  unfoldable pub give_data : ReplyData → List ℕ → Outcome (Unit {0})
  give_data r bytes = Typed.with_data c r bytes

  unfoldable pub give_entry : ReplyEntry → EntryAnswer → Outcome (Unit {0})
  give_entry r a = Typed.entry c r a.ttl a.attr a.generation

  unfoldable pub give_attr : ReplyAttr → AttrAnswer → Outcome (Unit {0})
  give_attr r a = Typed.attr c r a.ttl a.attr

  unfoldable pub give_open : ReplyOpen → OpenAnswer → Outcome (Unit {0})
  give_open r a = Typed.opened c r a.fh a.flags

  unfoldable pub give_write : ReplyWrite → ℕ → Outcome (Unit {0})
  give_write r n = Typed.written c r n

  unfoldable pub give_statfs : ReplyStatfs → StatfsAnswer → Outcome (Unit {0})
  give_statfs r a =
      Typed.statfs c r a.blocks a.bfree a.bavail a.files a.ffree a.bsize a.namelen a.frsize

  unfoldable pub give_create : ReplyCreate → CreateAnswer → Outcome (Unit {0})
  give_create r a = Typed.created c r a.ttl a.attr a.generation a.fh a.flags

  unfoldable pub give_lock : ReplyLock → LockAnswer → Outcome (Unit {0})
  give_lock r a = Typed.locked c r a.start a.end a.typ a.pid

  unfoldable pub give_bmap : ReplyBmap → ℕ → Outcome (Unit {0})
  give_bmap r block = Typed.bmap c r block

  unfoldable pub give_xattr : ReplyXattr → XattrAnswer → Outcome (Unit {0})
  give_xattr r (size n) = Typed.size c r n
  give_xattr r (value bytes) = Typed.xattr_data c r bytes

  unfoldable pub perform_dir : ReplyDirectory → DirAnswer → Outcome (List ReplyRaw)
  perform_dir d (add e next) = let r = Directory.add c d e in perform_dir r.0 (next r.1)
  perform_dir d ok = do Directory.ok c d; pure []
  perform_dir d (error err) = do Directory.error c d err; pure []
  perform_dir d dropped = do Raw.drop c d.reply; pure []
  perform_dir d kept = pure (d.reply ∷ [])
  perform_dir d panics = unwrap none (Raw.drop c d.reply)
