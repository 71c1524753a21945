-- ===== src/Session/Late/Accounts.antt =====
-- Replies that are used later, behind `Session::run` of src/session.rs: what becomes of every request.
use fuse_rs.Base.{
  ◌≡◌, ◌≢◌, refl, ap, ◌∙◌, inl, inr, List, [], ◌∷◌, ◌++◌, map, append_assoc, append-nil,
}
use mathlib.Core.Path.{subst, sym}
use mathlib.Core.List.{Perm, perm_middle, map-append}
use mathlib.Core.List.Perm
use fuse_rs.Abi.Structs.{FuseForgetIn}
use fuse_rs.Platform.{Libc}
use fuse_rs.Effect.{Packet, Outcome, done, panicked}
use fuse_rs.Channel.{Read}
use fuse_rs.Ll.Request.{unique}
use fuse_rs.Ll.Operation.{forget}
use fuse_rs.Reply.Raw.{ReplyRaw}
use fuse_rs.Filesystem.{Filesystem}
use fuse_rs.Filesystem.Settled.{Settled}
use fuse_rs.Session.{Session}
use fuse_rs.Request.{Request}
use fuse_rs.Session.Loop.{crashed, run}
use fuse_rs.Session.Loop.Answers.{
  Settles, no_request, answers, keeps, forgets, AllSettled, at_start, «and», requests,
  run-AllSettled,
}
use fuse_rs.Session.Late.{Uses, left_of, sent_of, Later, no_more, uses}
use fuse_rs.Session.Late.Laws.{
  Ticket, reply_of, AreFor, Balanced, Uses-Settled, AreFor-snoc, map-split, Balanced-answered,
}

-- The tickets of requests: one for each but, maybe, a FORGET.
pub data Tickets : List Request → List Ticket → Type 0 where
  none_asked : Tickets [] []
  asked :
      {qs : List Request} {ts : List Ticket} (q : Request)
      → Tickets qs ts
      → Tickets (qs ++ q ∷ []) (ts ++ (q.ch, unique q.request) ∷ [])
  forgotten :
      {qs : List Request} {ts : List Ticket} (q : Request) (arg : FuseForgetIn)
      → q.request.operation ≡ forget arg
      → Tickets qs ts
      → Tickets (qs ++ q ∷ []) ts

-- Every request is answered by one packet, or its reply is kept, or it is a FORGET.
abbrev pub IsAccounted : List Request → List ReplyRaw → List Packet → Type 0
IsAccounted qs kept sent = (ts : List Ticket) × Tickets qs ts × Balanced ts kept sent

Perm-snoc_left :
    (ts answered open_ts : List Ticket) (t : Ticket)
    → Perm ts (answered ++ open_ts)
    → Perm (ts ++ t ∷ []) ((answered ++ t ∷ []) ++ open_ts)
Perm-snoc_left ts answered open_ts t h =
    let first : Perm (ts ++ t ∷ []) (t ∷ ts) =
      subst (λ x. Perm (ts ++ t ∷ []) (t ∷ x)) (append-nil ts) (perm_middle ts []) in
    let middle : Perm (t ∷ (answered ++ open_ts)) (answered ++ t ∷ open_ts) =
      Perm.symm (perm_middle answered open_ts) in
    subst (Perm (ts ++ t ∷ [])) (sym (append_assoc answered (t ∷ []) open_ts))
      (Perm.trans first (Perm.trans (Perm.cons t h) middle))

Perm-snoc_right :
    (ts answered open_ts : List Ticket) (t : Ticket)
    → Perm ts (answered ++ open_ts)
    → Perm (ts ++ t ∷ []) (answered ++ (open_ts ++ t ∷ []))
Perm-snoc_right ts answered open_ts t h =
    subst (Perm (ts ++ t ∷ [])) (append_assoc answered open_ts (t ∷ []))
      (Perm.append_right (t ∷ []) h)

Settles-IsAccounted :
    (qs qs' : List Request) (kept kept' : List ReplyRaw) (sent sent' : List Packet)
    → Settles qs' kept' sent'
    → IsAccounted qs kept sent
    → IsAccounted (qs ++ qs') (kept ++ kept') (sent ++ sent')
Settles-IsAccounted qs _ kept _ sent _ no_request h =
    rw (append-nil qs, append-nil kept, append-nil sent) h
Settles-IsAccounted qs _ kept _ sent _ (answers q e bytes) (ts, tickets, b) =
    let t : Ticket = (q.ch, unique q.request) in
    rw (append-nil kept) (
      ts ++ t ∷ [],
      asked q tickets,
      record {
        still_open = b.still_open;
        answered = b.answered ++ t ∷ [];
        all = Perm-snoc_left ts b.answered b.still_open t b.all;
        replies = b.replies;
        packets = AreFor-snoc b.answered sent t _ b.packets (e, bytes, refl);
      },
    )
Settles-IsAccounted qs _ kept _ sent _ (keeps q) (ts, tickets, b) =
    let t : Ticket = (q.ch, unique q.request) in
    rw (append-nil sent) (
      ts ++ t ∷ [],
      asked q tickets,
      record {
        still_open = b.still_open ++ t ∷ [];
        answered = b.answered;
        all = Perm-snoc_right ts b.answered b.still_open t b.all;
        replies =
            ap (λ x. x ++ reply_of t ∷ []) b.replies
            ∙ sym (map-append reply_of b.still_open (t ∷ []));
        packets = b.packets;
      },
    )
Settles-IsAccounted qs _ kept _ sent _ (forgets q arg e) (ts, tickets, b) =
    rw (append-nil kept, append-nil sent) (ts, forgotten q arg e tickets, b)

AllSettled-IsAccounted :
    (qs : List Request) (kept : List ReplyRaw) (sent : List Packet)
    → AllSettled qs kept sent
    → IsAccounted qs kept sent
AllSettled-IsAccounted _ _ _ at_start = (
  [],
  none_asked,
  record { still_open = []; answered = []; all = Perm.nil; replies = refl; packets = tt },
)
AllSettled-IsAccounted _ _ _
      («and» {qs = qs} {qs' = qs'} {kept = kept} {kept' = kept'} {sent = sent} {sent' = sent'} all
        one) =
    Settles-IsAccounted qs qs' kept kept' sent sent' one (AllSettled-IsAccounted qs kept sent all)

module _ (c : Libc) where
  Balanced-Settled :
      (ts front back : List Ticket) (t : Ticket) (answered : List Ticket) (sent : List Packet)
      (o : Outcome (List ReplyRaw))
      → Settled c t.0 t.1 o
      → Perm ts (answered ++ (front ++ t ∷ back))
      → AreFor answered sent
      → Balanced ts (map reply_of front ++ (left_of o ++ map reply_of back)) (sent ++ sent_of o)
  Balanced-Settled ts front back t answered sent (done left sent') (inl (nothing, e, bytes, one)) h
        are =
      rw (nothing, one) (Balanced-answered ts front back t answered sent _ h are (e, bytes, refl))
  Balanced-Settled ts front back t answered sent (done left sent') (inr (again, nothing)) h are =
      rw (again, nothing, append-nil sent)
        (record {
          still_open = front ++ t ∷ back;
          answered = answered;
          all = h;
          replies = sym (map-append reply_of front (t ∷ back));
          packets = are;
        })
  Balanced-Settled ts front back t answered sent (panicked sent') one h are =
      rw one (Balanced-answered ts front back t answered sent _ h are (c.eio, [], refl))

  Balanced-Uses :
      (ts : List Ticket) (front back : List ReplyRaw) (sent : List Packet) (r : ReplyRaw)
      (o : Outcome (List ReplyRaw))
      → Uses c r o
      → Balanced ts (front ++ r ∷ back) sent
      → Balanced ts (front ++ (left_of o ++ back)) (sent ++ sent_of o)
  Balanced-Uses ts front back sent r o used b =
      let (front', t, back', e, ef, er, eb) = map-split b.still_open front back r b.replies in
      rw (ef, eb)
        (Balanced-Settled ts front' back' t b.answered sent o
          (Uses-Settled c t.0 t.1 o (subst (λ r. Uses c r o) er used))
          (subst (λ x. Perm ts (b.answered ++ x)) e b.all) b.packets)

  Later-Balanced :
      (ts : List Ticket) (s s' : List ReplyRaw × List Packet)
      → Later c s s'
      → Balanced ts s.0 s.1
      → Balanced ts s'.0 s'.1
  Later-Balanced ts _ _ no_more b = b
  Later-Balanced ts _ s' (uses {sent = sent} front back r o used later) b =
      Later-Balanced ts (front ++ (left_of o ++ back), sent ++ sent_of o) s' later
        (Balanced-Uses ts front back sent r o used b)

  -- When a run of a session does not panic, and some of the replies that it kept are then used, by
  -- any of their methods, a drop or a panic, in any order, every request that it read but, maybe,
  -- a FORGET is answered by exactly one packet or its reply is still kept, and no other packet was
  -- sent.
  pub run-IsAccounted :
      {S : Type 0} (fs : Filesystem S) (se : Session S) (rs : List Read) (kept : List ReplyRaw)
      (sent : List Packet)
      → (run c fs se rs).ended ≢ crashed
      → Later c ((run c fs se rs).kept, (run c fs se rs).sent) (kept, sent)
      → IsAccounted (requests c se.ch rs) kept sent
  run-IsAccounted fs se rs kept sent calm later =
      let (ts, tickets, b) = AllSettled-IsAccounted _ _ _ (run-AllSettled c fs se rs calm) in
      (ts, tickets, Later-Balanced ts _ _ later b)
