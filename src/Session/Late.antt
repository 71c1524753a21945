-- ===== src/Session/Late.antt =====
-- Replies that a file system keeps and that are used later, by other threads: the methods of the replies
-- of src/reply.rs, and their drop, in any order.
pub mod Laws
pub mod Accounts
pub mod Closed
use fuse_rs.Base.{ℕ, ◌≡◌, List, [], ◌∷◌, ◌++◌}
use fuse_rs.Platform.{Libc}
use fuse_rs.Effect.{Packet, Outcome, done, panicked}
use fuse_rs.Reply.Raw.{ReplyRaw}
use fuse_rs.Reply.Types.{
  reply_empty, reply_data, reply_entry, reply_attr, reply_open, reply_write, reply_statfs,
  reply_create, reply_lock, reply_bmap, reply_xattr,
}
use fuse_rs.Reply.Directory.{ReplyDirectory}
use fuse_rs.Filesystem.{
  Answer, DirAnswer, EntryAnswer, AttrAnswer, OpenAnswer, StatfsAnswer, CreateAnswer, LockAnswer,
  XattrAnswer, perform, perform_dir, give_empty, give_data, give_entry, give_attr, give_open,
  give_write, give_statfs, give_create, give_lock, give_bmap, give_xattr,
}

-- What a thread does with a reply of any type.
pub data Uses (c : Libc) (r : ReplyRaw) : Outcome (List ReplyRaw) → Type 0 where
  as_empty : (a : Answer (Unit {0})) → Uses c r (perform c (give_empty c) (record { reply = r }) a)
  as_data : (a : Answer (List ℕ)) → Uses c r (perform c (give_data c) (record { reply = r }) a)
  as_entry : (a : Answer EntryAnswer) → Uses c r (perform c (give_entry c) (record { reply = r }) a)
  as_attr : (a : Answer AttrAnswer) → Uses c r (perform c (give_attr c) (record { reply = r }) a)
  as_open : (a : Answer OpenAnswer) → Uses c r (perform c (give_open c) (record { reply = r }) a)
  as_write : (a : Answer ℕ) → Uses c r (perform c (give_write c) (record { reply = r }) a)
  as_statfs :
      (a : Answer StatfsAnswer) → Uses c r (perform c (give_statfs c) (record { reply = r }) a)
  as_create :
      (a : Answer CreateAnswer) → Uses c r (perform c (give_create c) (record { reply = r }) a)
  as_lock : (a : Answer LockAnswer) → Uses c r (perform c (give_lock c) (record { reply = r }) a)
  as_bmap : (a : Answer ℕ) → Uses c r (perform c (give_bmap c) (record { reply = r }) a)
  as_xattr : (a : Answer XattrAnswer) → Uses c r (perform c (give_xattr c) (record { reply = r }) a)
  as_directory : (d : ReplyDirectory) (a : DirAnswer) → d.reply ≡ r → Uses c r (perform_dir c d a)

abbrev pub left_of : Outcome (List ReplyRaw) → List ReplyRaw
left_of (done left sent) = left
left_of (panicked sent) = []

abbrev pub sent_of : Outcome (List ReplyRaw) → List Packet
sent_of (done left sent) = sent
sent_of (panicked sent) = sent

-- The replies that are kept and the packets that were sent, before and after some were used.
pub data Later (c : Libc) : List ReplyRaw × List Packet → List ReplyRaw × List Packet → Type 0 where
  no_more : {s : List ReplyRaw × List Packet} → Later c s s
  uses :
      {sent : List Packet} {s : List ReplyRaw × List Packet} (front back : List ReplyRaw)
      (r : ReplyRaw) (o : Outcome (List ReplyRaw))
      → Uses c r o
      → Later c (front ++ (left_of o ++ back), sent ++ sent_of o) s
      → Later c (front ++ r ∷ back, sent) s
