-- ===== src/Ll/Argument/Laws.antt =====
-- What each fetch returns and what it leaves.
use fuse_rs.Base.{
  ℕ, zero, suc, ◌≤◌, ◌<◌, ◌≡◌, refl, ap, ap₂, ◌∙◌, ◌≢◌, ◌↔◌, ◌⊎◌, inl, inr, List, [], ◌∷◌, ◌++◌,
  none, some, arith, length, take, drop, All, length-append, length-take, take-append-drop,
  take-append, drop-append,
}
use fuse_rs.Abi.Layout.{Struct, size_of, of_bytes, to_bytes, AreValues}
use fuse_rs.Abi.Layout.RoundTrip.{length-to_bytes, of_bytes-to_bytes}
use fuse_rs.Ll.Argument.{ArgumentIterator, fetch_bytes, fetch, position, fetch_str}

abbrev pub from : List ℕ → ArgumentIterator
from bs = record { bytes = bs }

-- A fetch of `n` bytes cuts the data there, or fails with the data untouched when there are fewer.
pub fetch_bytes_cases :
    (n : ℕ) (it : ArgumentIterator)
    → ((length it.bytes < n) × (fetch_bytes n it ≡ (none, it)))
      ⊎ ((n ≤ length it.bytes)
          × (fetch_bytes n it ≡ (some (take n it.bytes), from (drop n it.bytes))))
unfolding fetch_bytes
fetch_bytes_cases n it = ground arith

pub fetch_bytes-append :
    (n : ℕ) (bs rest : List ℕ)
    → length bs ≡ n
    → fetch_bytes n (from (bs ++ rest)) ≡ (some bs, from rest)
unfolding fetch_bytes
fetch_bytes-append n bs rest e =
    ground (arith, length-append bs rest, take-append n bs rest e, drop-append n bs rest e)

-- The data is what is fetched, followed by what is left.
pub fetch_bytes_split :
    (n : ℕ) (it : ArgumentIterator) {bs : List ℕ} {it' : ArgumentIterator}
    → fetch_bytes n it ≡ (some bs, it')
    → (it.bytes ≡ bs ++ it'.bytes) × (length bs ≡ n)
unfolding fetch_bytes
fetch_bytes_split n it h = ground (arith, take-append-drop n it.bytes, length-take n it.bytes)

abbrev pub NonZero : ℕ → Type 0
NonZero c = c ≢ 0

position-append :
    (name rest : List ℕ) → All NonZero name → position (name ++ 0 ∷ rest) ≡ some (length name)
unfolding position
position-append [] rest h = refl
position-append (c ∷ cs) rest h = ground (arith, position-append cs rest h.1)

position-none : (bs : List ℕ) → All NonZero bs → position bs ≡ none
unfolding position
position-none [] h = refl
position-none (c ∷ cs) h = ground (arith, position-none cs h.1)

position_cases :
    (bs : List ℕ)
    → ((position bs ≡ none) × All NonZero bs)
      ⊎ ((name : List ℕ) × (rest : List ℕ) × (bs ≡ name ++ 0 ∷ rest) × All NonZero name)
unfolding position
position_cases [] = inl (refl, tt)
position_cases (zero ∷ cs) = inr ([], cs, refl, tt)
position_cases (suc c ∷ cs) = elim (position_cases cs) [
  | inl (e, h) ↦ inl (ground (arith, e), (omega arith, h))
  | inr (name, rest, e, h) ↦ inr (suc c ∷ name, rest, ap (◌∷◌ (suc c)) e, (omega arith, h))
]

-- A name up to its zero byte.
pub fetch_str-append :
    (name rest : List ℕ)
    → All NonZero name
    → fetch_str (from (name ++ 0 ∷ rest)) ≡ (some name, from rest)
unfolding fetch_str
fetch_str-append name rest h = rw (
  position-append name rest h,
  fetch_bytes-append (length name) name (0 ∷ rest) refl,
  fetch_bytes-append 1 (0 ∷ []) rest refl,
)

-- Either there is no zero byte, and the fetch fails with the data untouched, or the data is cut at
-- the first one.
pub fetch_str_cases :
    (it : ArgumentIterator)
    → (All NonZero it.bytes × (fetch_str it ≡ (none, it)))
      ⊎ ((name : List ℕ) × (rest : List ℕ) × (it.bytes ≡ name ++ 0 ∷ rest)
          × All NonZero name
          × (fetch_str it ≡ (some name, from rest)))
unfolding fetch_str
fetch_str_cases it = elim (position_cases it.bytes) [
  | inl (e, h) ↦ inl (h, rw e)
  | inr (name, rest, e, h) ↦
      inr (name, rest, e, h, ap (λ bs. fetch_str (from bs)) e ∙ fetch_str-append name rest h)
]

-- `fetch_str` returns a name and leaves an iterator exactly when the data is the name, with no
-- zero byte in it, then a zero byte and then what is left.
pub fetch_str_iff :
    (it it' : ArgumentIterator) (name : List ℕ)
    → (fetch_str it ≡ (some name, it')) ↔ ((it.bytes ≡ name ++ 0 ∷ it'.bytes) × All NonZero name)
fetch_str_iff it it' name = (
  λ fetched. elim (fetch_str_cases it) [
    | inl (h, e) ↦ cc
    | inr (found, rest, split, h, e) ↦
        let same : found ≡ name = ground (arith, e) in
        let left : from rest ≡ it' = ground (arith, e) in
        (split ∙ ap₂ (λ n (r : ArgumentIterator). n ++ 0 ∷ r.bytes) same left, rw same at h)
  ],
  λ h. ap (λ bs. fetch_str (from bs)) h.0 ∙ fetch_str-append name it'.bytes h.1,
)

-- The fetch fails exactly when the data has no zero byte, and then leaves it untouched.
pub fetch_str-none_iff :
    (it : ArgumentIterator)
    → (((fetch_str it).0 ≡ none) ↔ All NonZero it.bytes)
      × ((fetch_str it).0 ≡ none → (fetch_str it).1 ≡ it)
unfolding fetch_str
fetch_str-none_iff it = (
  (
    λ failed. elim (fetch_str_cases it) [
      | inl (h, e) ↦ h
      | inr (name, rest, split, h, e) ↦ absurd (ground (arith, e))
    ],
    λ h. rw (position-none it.bytes h),
  ),
  λ failed. elim (fetch_str_cases it) [
    | inl (h, e) ↦ ap (λ r. r.1) e
    | inr (name, rest, split, h, e) ↦ absurd (ground (arith, e))
  ],
)

module _ {T : Type 0} ⦃s : Struct T⦄ where
  pub fetch-to_bytes :
      (t : T) (rest : List ℕ)
      → AreValues s.layout (s.to_fields t)
      → fetch (from (to_bytes t ++ rest)) ≡ (some t, from rest)
  unfolding fetch
  fetch-to_bytes t rest h = rw (
    fetch_bytes-append (size_of s.layout) (to_bytes t) rest (length-to_bytes t),
    of_bytes-to_bytes t h,
  )

  -- A typed fetch reads the next `size_of` bytes, or fails with the data untouched.
  pub fetch_cases :
      (it : ArgumentIterator)
      → ((length it.bytes < size_of s.layout) × (fetch ⦃s = s⦄ it ≡ (none, it)))
        ⊎ ((size_of s.layout ≤ length it.bytes)
            × (fetch ⦃s = s⦄ it ≡ (
              some (of_bytes ⦃s = s⦄ (take (size_of s.layout) it.bytes)),
              from (drop (size_of s.layout) it.bytes),
            )))
  unfolding fetch
  fetch_cases it = ground (arith, fetch_bytes_cases (size_of s.layout) it)
