-- ===== src/Reply/Directory/Prefix.antt =====
-- Which entries `ReplyDirectory::add` of src/reply.rs takes, where each is at least as large as the one
-- before it.
use fuse_rs.Base.{
  ◌+◌, ◌≤◌, ◌<◌, ◌≡◌, refl, ap, ◌⊎◌, inl, inr, true, false, List, [], ◌∷◌, ◌++◌, arith, length, All,
}
use fuse_rs.Platform.{Libc}
use fuse_rs.Reply.Directory.{ReplyDirectory, DirEntry, entsize, add}
use fuse_rs.Reply.Directory.Readback.{accepted}

abbrev pub IsGrowing : List DirEntry → Type 0
IsGrowing [] = Unit {0}
IsGrowing (e ∷ es) = All (λ e'. entsize e ≤ entsize e') es × IsGrowing es

abbrev pub IsPrefix : List DirEntry → List DirEntry → Type 0
IsPrefix xs ys = (rest : List DirEntry) × (ys ≡ xs ++ rest)

module _ (c : Libc) where
  -- An entry that does not fit the buffer any more.
  abbrev IsTooLarge : ReplyDirectory → DirEntry → Type 0
  IsTooLarge d e = d.capacity < length d.buffer + entsize e

  add_test :
      (d : ReplyDirectory) (e : DirEntry)
      → (IsTooLarge d e × ((add c d e).1 ≡ true) × ((add c d e).0 ≡ d))
        ⊎ ((length d.buffer + entsize e ≤ d.capacity) × ((add c d e).1 ≡ false))
  unfolding add
  add_test d e = ground arith

  accepted-nil :
      (d : ReplyDirectory) (es : List DirEntry) → All (IsTooLarge d) es → accepted c d es ≡ []
  accepted-nil d [] h = refl
  accepted-nil d (e ∷ es) h = elim (add_test d e) [
    | inl (_, full, same) ↦ rw (full, same) (accepted-nil d es h.1)
    | inr (fits, taken) ↦ absurd (omega arith)
  ]

  All-IsTooLarge :
      (d : ReplyDirectory) (e : DirEntry) (es : List DirEntry)
      → IsTooLarge d e
      → All (λ e'. entsize e ≤ entsize e') es
      → All (IsTooLarge d) es
  All-IsTooLarge d e [] large h = tt
  All-IsTooLarge d e (e' ∷ es) large h = (omega arith, All-IsTooLarge d e es large h.1)

  pub accepted-IsPrefix :
      (d : ReplyDirectory) (es : List DirEntry) → IsGrowing es → IsPrefix (accepted c d es) es
  accepted-IsPrefix d [] h = ([], refl)
  accepted-IsPrefix d (e ∷ es) h = elim (add_test d e) [
    | inl (large, full, same) ↦
        rw (full, same, accepted-nil d es (All-IsTooLarge d e es large h.0)) (e ∷ es, refl)
    | inr (fits, taken) ↦
        let (rest, split) = accepted-IsPrefix (add c d e).0 es h.1 in
        rw taken (rest, ap (◌∷◌ e) split)
  ]

  -- The first entry is taken if there is room for it.
  pub accepted-cons :
      (d : ReplyDirectory) (e : DirEntry) (es : List DirEntry)
      → length d.buffer + entsize e ≤ d.capacity
      → accepted c d (e ∷ es) ≡ e ∷ accepted c (add c d e).0 es
  accepted-cons d e es fits = elim (add_test d e) [
    | inl (large, _, _) ↦ absurd (omega arith)
    | inr (_, taken) ↦ rw taken refl
  ]
