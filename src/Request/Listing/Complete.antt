-- ===== src/Request/Listing/Complete.antt =====
-- The kernel's listing of a directory whose entries are numbered and grow: it ends, with all of them.
use fuse_rs.Base.{
  ℕ, zero, suc, ◌+◌, ◌^◌, ◌≤◌, ◌<◌, ◌≡◌, refl, sym, ap, ◌∙◌, pos, true, false, List, [], ◌∷◌, ◌++◌,
  some, arith, length, length-append, map, All, drop,
}
use mathlib.Core.List.{map-append}
use mathlib.Core.Path.{subst}
use fuse_rs.Platform.{Libc}
use fuse_rs.Reply.Directory.{DirEntry, dirent, entsize, add}
use fuse_rs.Reply.Directory
use fuse_rs.Reply.Directory.Readback.{IsEntry, accepted}
use fuse_rs.Reply.Directory.Prefix.{IsGrowing, accepted-IsPrefix, accepted-cons}
use fuse_rs.Filesystem.{Filesystem}
use fuse_rs.Session.{Session}
use fuse_rs.Request.{Request}
use fuse_rs.Request.Listing.{last_offset, after_page, page, listing}
use fuse_rs.Request.Listing.Page.{shown, IsAsked, blank, Answers, page-add_each}

-- Each entry carries the index of the next one.
abbrev pub IsNumbered : ℕ → List DirEntry → Type 0
IsNumbered k [] = Unit {0}
IsNumbered k (e ∷ es) = (e.offset ≡ pos (k + 1)) × IsNumbered (k + 1) es

abbrev tail : List DirEntry → List DirEntry
tail [] = []
tail (e ∷ es) = es

module _ (c : Libc) where
  -- The offset of the last of some entries is the index behind them.
  last_offset-shown :
      (k : ℕ) (e : DirEntry) (es rest : List DirEntry)
      → IsNumbered k (e ∷ (es ++ rest))
      → k + length (e ∷ es) < 2 ^ 63
      → last_offset (shown c e) (map (shown c) es) ≡ k + length (e ∷ es)
  unfolding dirent
  last_offset-shown k e [] rest h l = rw h.0 (omega arith)
  last_offset-shown k e (e' ∷ es) rest h l =
      last_offset-shown (k + 1) e' es rest h.1 (omega arith) ∙ omega arith

IsNumbered-append :
    (k : ℕ) (xs ys : List DirEntry) → IsNumbered k (xs ++ ys) → IsNumbered (k + length xs) ys
IsNumbered-append k [] ys h = let e : k ≡ k + 0 = omega arith in rw (← e) h
IsNumbered-append k (x ∷ xs) ys h =
    let e : k + 1 + length xs ≡ k + length (x ∷ xs) = omega arith in
    rw (← e) (IsNumbered-append (k + 1) xs ys h.1)

All-append_right : (P : DirEntry → Type 0) (xs ys : List DirEntry) → All P (xs ++ ys) → All P ys
All-append_right P [] ys h = h
All-append_right P (x ∷ xs) ys h = All-append_right P xs ys h.1

IsGrowing-append : (xs ys : List DirEntry) → IsGrowing (xs ++ ys) → IsGrowing ys
IsGrowing-append [] ys h = h
IsGrowing-append (x ∷ xs) ys h = IsGrowing-append xs ys h.1

drop-append_more : (n : ℕ) (xs ys : List DirEntry) → drop (length xs + n) (xs ++ ys) ≡ drop n ys
drop-append_more n [] ys = let e : 0 + n ≡ n = omega arith in rw e refl
drop-append_more n (x ∷ xs) ys =
    let e : suc (length xs) + n ≡ suc (length xs + n) = omega arith in
    rw e (drop-append_more n xs ys)

-- Of the entries that are left: they can be sent, each fits a buffer of this size, and they grow.
pub record IsListable (c : Libc) (size k : ℕ) (es : List DirEntry) : Type 0 where
  pub valid : All (IsEntry c) es
  pub fits : All (λ e. entsize e ≤ c.with_capacity size) es
  pub growing : IsGrowing es
  pub numbered : IsNumbered k es
  pub indexed : k + length es < 2 ^ 63

IsListable-append :
    (c : Libc) (size k : ℕ) (xs ys : List DirEntry)
    → IsListable c size k (xs ++ ys)
    → IsListable c size (k + length xs) ys
IsListable-append c size k xs ys h = record {
  valid = All-append_right (IsEntry c) xs ys h.valid;
  fits = All-append_right (λ e. entsize e ≤ c.with_capacity size) xs ys h.fits;
  growing = IsGrowing-append xs ys h.growing;
  numbered = IsNumbered-append k xs ys h.numbered;
  indexed = omega (arith, h.indexed, length-append xs ys);
}

module _ (c : Libc) {S : Type 0} (fs : Filesystem S) (q : Request) (fh size : ℕ)
    (se : Session S) where
  -- The file system has these entries in the directory, from each offset on, and stays as it is.
  abbrev pub Lists : ℕ → List DirEntry → Type 0
  Lists k es =
      (n : ℕ)
      → n ≤ length es
      → Answers c fs q size fh (k + n) se.filesystem se.filesystem (drop n es)

  Lists-append : (k : ℕ) (xs ys : List DirEntry) → Lists k (xs ++ ys) → Lists (k + length xs) ys
  Lists-append k xs ys h n l =
      let index : k + (length xs + n) ≡ k + length xs + n = omega arith in
      let dropped : drop (length xs + n) (xs ++ ys) ≡ drop n ys = drop-append_more n xs ys in
      subst (λ i. Answers c fs q size fh i se.filesystem se.filesystem (drop n ys)) index
        (subst (λ es. Answers c fs q size fh (k + (length xs + n)) se.filesystem se.filesystem es)
          dropped (h (length xs + n) (omega (arith, length-append xs ys))))

  page-cons :
      (k : ℕ) (e : DirEntry) (es : List DirEntry)
      → IsListable c size k (e ∷ es)
      → accepted c (blank c q size) (e ∷ es) ≡ e ∷ accepted c (add c (blank c q size) e).0 es
  unfolding Directory.new
  page-cons k e es h = accepted-cons c (blank c q size) e es (omega (arith, h.fits))

  module _ (up : se.initialized ≡ true) (alive : se.destroyed ≡ false)
      (asked : IsAsked c q size) where
    page_from :
        (k : ℕ) (es : List DirEntry)
        → IsListable c size k es
        → Lists k es
        → page c fs q fh size se k ≡ some (se, map (shown c) (accepted c (blank c q size) es))
    page_from k es h lists =
        let index : k + 0 ≡ k = omega arith in
        page-add_each c fs q fh size se k se.filesystem es up alive
          (subst (λ i. Answers c fs q size fh i se.filesystem se.filesystem es) index
            (lists 0 (omega arith)))
          asked h.valid

    -- One page is read, and the listing goes on behind it.
    listing_page :
        (n k : ℕ) (e : DirEntry) (es taken rest : List DirEntry)
        → accepted c (blank c q size) (e ∷ es) ≡ e ∷ taken
        → es ≡ taken ++ rest
        → IsListable c size k (e ∷ es)
        → Lists k (e ∷ es)
        → listing c fs q fh size n se (k + length (e ∷ taken)) ≡ some (map (shown c) rest)
        → listing c fs q fh size (suc n) se k ≡ some (map (shown c) (e ∷ es))
    unfolding listing
    listing_page n k e es taken rest acc split h lists more =
        let offset : last_offset (shown c e) (map (shown c) taken) ≡ k + length (e ∷ taken) =
          last_offset-shown c k e taken rest (subst (λ es. IsNumbered k (e ∷ es)) split h.numbered)
            (omega (arith, h.indexed, ap length split, length-append taken rest)) in
        ap (after_page (listing c fs q fh size n))
          (page_from k (e ∷ es) h lists ∙ ap (λ es. some (se, map (shown c) es)) acc)
        ∙ rw (offset, more)
            (ap (λ es. some (shown c e ∷ es))
              (sym (map-append (shown c) taken rest) ∙ ap (map (shown c)) (sym split)))

    pub listing_from :
        (n k : ℕ) (es : List DirEntry)
        → length es < n
        → IsListable c size k es
        → Lists k es
        → listing c fs q fh size n se k ≡ some (map (shown c) es)
    unfolding listing
    listing_from zero k es l h lists = absurd (omega arith)
    listing_from (suc n) k [] l h lists =
        ap (after_page (listing c fs q fh size n)) (page_from k [] h lists)
    listing_from (suc n) k (e ∷ es) l h lists =
        let taken = accepted c (add c (blank c q size) e).0 es in
        let acc = page-cons k e es h in
        let (rest, whole) = accepted-IsPrefix c (blank c q size) (e ∷ es) h.growing in
        let split : es ≡ taken ++ rest = ap tail (whole ∙ ap (λ xs. xs ++ rest) acc) in
        listing_page n k e es taken rest acc split h lists (
          listing_from n (k + length (e ∷ taken)) rest
            (omega (arith, ap length split, length-append taken rest))
            (IsListable-append c size k (e ∷ taken) rest
              (subst (λ es. IsListable c size k (e ∷ es)) split h))
            (Lists-append k (e ∷ taken) rest (subst (λ es. Lists k (e ∷ es)) split lists)))
