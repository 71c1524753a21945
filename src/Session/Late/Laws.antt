-- ===== src/Session/Late/Laws.antt =====
-- Replies that are used later: every request is answered once.
use fuse_rs.Base.{ℕ, ℤ, ◌≡◌, refl, ap, ap₂, List, [], ◌∷◌, ◌++◌, map, append_assoc, arith}
use mathlib.Core.Path.{subst, sym}
use mathlib.Core.List.{Perm, perm_middle, map-append}
use mathlib.Core.List.Perm
use fuse_rs.Platform.{Libc}
use fuse_rs.Effect.{ChannelSender, Packet, Outcome}
use fuse_rs.Reply.Raw.{ReplyRaw, new}
use fuse_rs.Reply.Raw.Laws.{packet}
use fuse_rs.Reply.Typed.Laws.{
  empty-AnswersOnce, with_data-AnswersOnce, entry-AnswersOnce, attr-AnswersOnce,
  created-AnswersOnce, opened-AnswersOnce, written-AnswersOnce, statfs-AnswersOnce,
  locked-AnswersOnce, bmap-AnswersOnce,
}
use fuse_rs.Reply.Types.{
  reply_empty, reply_data, reply_entry, reply_attr, reply_open, reply_write, reply_statfs,
  reply_create, reply_lock, reply_bmap, reply_xattr,
}
use fuse_rs.Filesystem.{
  give_empty, give_data, give_entry, give_attr, give_open, give_write, give_statfs, give_create,
  give_lock, give_bmap, give_xattr,
}
use fuse_rs.Filesystem.Settled.{Settled, perform-Settled, perform_dir-Settled}
use fuse_rs.Request.Replies.{give_xattr-AnswersOnce}
use fuse_rs.Session.Late.{
  Uses, as_empty, as_data, as_entry, as_attr, as_open, as_write, as_statfs, as_create, as_lock,
  as_bmap, as_xattr, as_directory,
}

module _ (c : Libc) (s : ChannelSender) (u : ℕ) where
  pub Uses-Settled : (o : Outcome (List ReplyRaw)) → Uses c (new u s) o → Settled c s u o
  unfolding give_empty give_data give_entry give_attr give_open give_write give_statfs give_create
      give_lock give_bmap
  Uses-Settled _ (as_empty a) =
      perform-Settled c s u (give_empty c) a (λ _. empty-AnswersOnce c s u)
  Uses-Settled _ (as_data a) = perform-Settled c s u (give_data c) a (with_data-AnswersOnce c s u)
  Uses-Settled _ (as_entry a) =
      perform-Settled c s u (give_entry c) a
        (λ x. entry-AnswersOnce c s u x.ttl x.attr x.generation)
  Uses-Settled _ (as_attr a) =
      perform-Settled c s u (give_attr c) a (λ x. attr-AnswersOnce c s u x.ttl x.attr)
  Uses-Settled _ (as_open a) =
      perform-Settled c s u (give_open c) a (λ x. opened-AnswersOnce c s u x.fh x.flags)
  Uses-Settled _ (as_write a) = perform-Settled c s u (give_write c) a (written-AnswersOnce c s u)
  Uses-Settled _ (as_statfs a) = perform-Settled c s u (give_statfs c) a (λ x.
      statfs-AnswersOnce c s u x.blocks x.bfree x.bavail x.files x.ffree x.bsize x.namelen x.frsize)
  Uses-Settled _ (as_create a) =
      perform-Settled c s u (give_create c) a
        (λ x. created-AnswersOnce c s u x.ttl x.attr x.generation x.fh x.flags)
  Uses-Settled _ (as_lock a) =
      perform-Settled c s u (give_lock c) a
        (λ x. locked-AnswersOnce c s u x.start x.end x.typ x.pid)
  Uses-Settled _ (as_bmap a) = perform-Settled c s u (give_bmap c) a (bmap-AnswersOnce c s u)
  Uses-Settled _ (as_xattr a) =
      perform-Settled c s u (give_xattr c) a (give_xattr-AnswersOnce c s u)
  Uses-Settled _ (as_directory d a e) = perform_dir-Settled c s u d a e

-- A request as far as its reply goes: where it is sent and the id.
abbrev pub Ticket : Type 0
Ticket = ChannelSender × ℕ

abbrev pub reply_of : Ticket → ReplyRaw
reply_of (s, u) = new u s

abbrev pub IsFor : Ticket → Packet → Type 0
IsFor (s, u) p = (e : ℤ) × (bytes : List (List ℕ)) × (p ≡ packet s u e bytes)

abbrev pub AreFor : List Ticket → List Packet → Type 0
AreFor [] [] = Unit {0}
AreFor (t ∷ ts) (p ∷ ps) = IsFor t p × AreFor ts ps
AreFor _ _ = ⊥

-- Every ticket is open, with its reply kept, or answered, with one packet for it.
pub record Balanced (ts : List Ticket) (kept : List ReplyRaw) (sent : List Packet) : Type 0 where
  pub still_open : List Ticket
  pub answered : List Ticket
  pub all : Perm ts (answered ++ still_open)
  pub replies : kept ≡ map reply_of still_open
  pub packets : AreFor answered sent

pub AreFor-snoc :
    (ts : List Ticket) (ps : List Packet) (t : Ticket) (p : Packet)
    → AreFor ts ps
    → IsFor t p
    → AreFor (ts ++ t ∷ []) (ps ++ p ∷ [])
AreFor-snoc [] [] t p h one = (one, tt)
AreFor-snoc (t' ∷ ts) (p' ∷ ps) t p h one = (h.0, AreFor-snoc ts ps t p h.1 one)
AreFor-snoc [] (p' ∷ ps) t p h one = absurd h
AreFor-snoc (t' ∷ ts) [] t p h one = absurd h

-- A ticket out of the middle of those that are open.
Perm-answered :
    (ts answered front back : List Ticket) (t : Ticket)
    → Perm ts (answered ++ (front ++ t ∷ back))
    → Perm ts ((answered ++ t ∷ []) ++ (front ++ back))
Perm-answered ts answered front back t h = Perm.trans h (
    subst (Perm (answered ++ (front ++ t ∷ back)))
      (sym (append_assoc answered (t ∷ []) (front ++ back)))
      (Perm.append_left answered (perm_middle front back)))

pub map-split :
    (ts : List Ticket) (front back : List ReplyRaw) (r : ReplyRaw)
    → front ++ r ∷ back ≡ map reply_of ts
    → (front' : List Ticket) × (t : Ticket) × (back' : List Ticket) × (ts ≡ front' ++ t ∷ back')
      × (front ≡ map reply_of front')
      × (r ≡ reply_of t)
      × (back ≡ map reply_of back')
map-split [] [] back r h = absurd (ground arith)
map-split [] (x ∷ front) back r h = absurd (ground arith)
map-split (t ∷ ts) [] back r h = ([], t, ts, refl, refl, ground arith, ground arith)
map-split (t ∷ ts) (x ∷ front) back r h =
    let (front', t', back', e, e', er, eb) = map-split ts front back r (ground arith) in
    let same : x ≡ reply_of t = ground arith in
    (t ∷ front', t', back', ap (◌∷◌ t) e, ap₂ ◌∷◌ same e', er, eb)

pub Balanced-answered :
    (ts front back : List Ticket) (t : Ticket) (answered : List Ticket) (sent : List Packet)
    (p : Packet)
    → Perm ts (answered ++ (front ++ t ∷ back))
    → AreFor answered sent
    → IsFor t p
    → Balanced ts (map reply_of front ++ map reply_of back) (sent ++ p ∷ [])
Balanced-answered ts front back t answered sent p h are one = record {
  still_open = front ++ back;
  answered = answered ++ t ∷ [];
  all = Perm-answered ts answered front back t h;
  replies = sym (map-append reply_of front back);
  packets = AreFor-snoc answered sent t p are one;
}
