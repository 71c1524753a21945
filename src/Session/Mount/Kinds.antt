-- ===== src/Session/Mount/Kinds.antt =====
-- The calls of a history by their kind, and which of them sending (src/session.rs) and unmounting
-- (src/channel.rs) make.
use fuse_rs.Base.{
  ℕ, zero, suc, ◌≡◌, refl, ap, ◌∙◌, inl, inr, Bool, true, false, List, [], ◌∷◌, ◌++◌, All,
  if◌then◌else◌, if_false,
}
use fuse_rs.Effect.{Packet}
use fuse_rs.Os.{Os, History, Call, writev, close, umount, fuse_unmount}
use fuse_rs.Channel.Mount.{unmount}
use fuse_rs.Channel.Mount.Args.{terminated}
use fuse_rs.Channel.Mount.Laws.{Unmounts-IsUnmounting, unmount-Unmounts}
use fuse_rs.Ll.Argument.Laws.{NonZero}
use fuse_rs.Session.Mount.{send_all}
use fuse_rs.Session.Mount.Descriptors.{history-send_reply}

abbrev pub is_write : Call → Bool
is_write (writev fd slices) = true
is_write _ = false

abbrev pub is_close : Call → Bool
is_close (close fd) = true
is_close _ = false

abbrev pub is_umount : Call → Bool
is_umount (umount mnt) = true
is_umount _ = false

-- The calls of one kind, the latest first.
unfoldable pub only : (Call → Bool) → History → History
only p [] = []
only p (call ∷ h) = let rest = only p h in if p call then call ∷ rest else rest

-- A call more that often.
abbrev pub times : ℕ → Call → History → History
times zero call h = h
times (suc n) call h = call ∷ times n call h

-- Behind other calls, one write for each packet, in order.
abbrev pub written : List Packet → History → History
written [] h = h
written (p ∷ ps) h = written ps (writev p.fd p.slices ∷ h)

pub written-append :
    (ps qs : List Packet) (h : History) → written (ps ++ qs) h ≡ written qs (written ps h)
written-append [] qs h = refl
written-append (p ∷ ps) qs h = written-append ps qs (writev p.fd p.slices ∷ h)

only-other :
    (p : Call → Bool) (call : Call) (h : History) → p call ≡ false → only p (call ∷ h) ≡ only p h
unfolding only
only-other p call h other = if_false (p call) _ _ other

module _ (os : Os) where
  pub only-send_all :
      (p : Call → Bool) (ps : List Packet) (h : History)
      → ((q : Packet) → p (writev q.fd q.slices) ≡ false)
      → only p (send_all os ps h).1 ≡ only p h
  unfolding send_all
  only-send_all p [] h other = refl
  only-send_all p (q ∷ ps) h other =
      only-send_all p ps _ other
      ∙ ap (only p) (history-send_reply os (record { fd = q.fd }) q.slices h)
      ∙ only-other p _ h (other q)

  pub writes-send_all :
      (ps : List Packet) (h : History)
      → only is_write (send_all os ps h).1 ≡ written ps (only is_write h)
  unfolding send_all only
  writes-send_all [] h = refl
  writes-send_all (q ∷ ps) h =
      writes-send_all ps _
      ∙ ap (λ h. written ps (only is_write h))
          (history-send_reply os (record { fd = q.fd }) q.slices h)

  pub only-unmount :
      (p : Call → Bool) (path : List ℕ) (h : History)
      → All NonZero path
      → p (umount (terminated path)) ≡ false
      → p (fuse_unmount (terminated path)) ≡ false
      → only p (unmount os path h).1 ≡ only p h
  only-unmount p path h good other other' =
      elim (Unmounts-IsUnmounting os path h _ good (unmount-Unmounts os path h)) [
        | inl e ↦ ap (only p) e ∙ only-other p _ h other
        | inr e ↦ ap (only p) e ∙ only-other p _ _ other' ∙ only-other p _ h other
      ]

  pub umounts-unmount :
      (path : List ℕ) (h : History)
      → All NonZero path
      → only is_umount (unmount os path h).1 ≡ umount (terminated path) ∷ only is_umount h
  unfolding only
  umounts-unmount path h good =
      elim (Unmounts-IsUnmounting os path h _ good (unmount-Unmounts os path h)) [
        | inl e ↦ ap (only is_umount) e
        | inr e ↦ ap (only is_umount) e
      ]
