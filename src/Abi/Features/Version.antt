-- ===== src/Abi/Features/Version.antt =====
-- fuse-abi/src/lib.rs: the definitions of the minor version, of which a build is to have one.
use fuse_rs.Base.{
  ℕ, zero, suc, ◌+◌, ◌≤◌, ◌≡◌, refl, ap, ◌∙◌, Bool, true, false, ◌&&◌, not, List, [], ◌∷◌, ◌⊎◌,
  arith, Bool-cases, inl, inr,
}
use fuse_rs.Abi.Features.{Build, feature, feature-suc}

-- The definitions from `n` on, up to the last one `k` further: the condition of each and its value.
versions : Build → ℕ → ℕ → List (Bool × ℕ)
versions b n zero = (feature b n, n) ∷ []
versions b n (suc k) = (feature b n && not (feature b (suc n)), n) ∷ versions b (suc n) k

-- The definitions of `FUSE_KERNEL_MINOR_VERSION`, in their order.
unfoldable pub minor_versions : Build → List (Bool × ℕ)
unfolding versions
minor_versions b = (not (feature b 9), 8) ∷ versions b 9 10

-- Those whose condition holds.
unfoldable pub compiled : List (Bool × ℕ) → List ℕ
compiled [] = []
compiled ((true, v) ∷ more) = v ∷ compiled more
compiled ((false, v) ∷ more) = compiled more

compiled-true :
    (here : Bool) (v : ℕ) (more : List (Bool × ℕ))
    → here ≡ true
    → compiled ((here, v) ∷ more) ≡ v ∷ compiled more
unfolding compiled
compiled-true true v more h = refl
compiled-true false v more h = absurd (ground arith)

compiled-false :
    (here : Bool) (v : ℕ) (more : List (Bool × ℕ))
    → here ≡ false
    → compiled ((here, v) ∷ more) ≡ compiled more
unfolding compiled
compiled-false true v more h = absurd (ground arith)
compiled-false false v more h = refl

-- The version of the last feature that is on, or 8 when there is none.
abbrev pub IsLastOf : Build → ℕ → Type 0
IsLastOf b v =
    ((v ≡ 8) × (feature b 9 ≡ false))
    ⊎ ((9 ≤ v) × (v ≤ 19) × (feature b v ≡ true) × ((v ≡ 19) ⊎ (feature b (suc v) ≡ false)))

module _ (b : Build) where
  compiled-off : (n k : ℕ) → n + k ≡ 19 → feature b n ≡ false → compiled (versions b n k) ≡ []
  unfolding compiled versions
  compiled-off n zero e off = rw off
  compiled-off n (suc k) e off = elim (Bool-cases (feature b (suc n))) [
    | inl on ↦ absurd (ground (arith, feature-suc b n (omega arith) on))
    | inr off' ↦ rw (off, compiled-off (suc n) k (omega arith) off')
  ]

  compiled-on :
      (n k : ℕ)
      → n + k ≡ 19
      → feature b n ≡ true
      → (v : ℕ) × (compiled (versions b n k) ≡ v ∷ [])
        × (n ≤ v)
        × (v ≤ 19)
        × (feature b v ≡ true)
        × ((v ≡ 19) ⊎ (feature b (suc v) ≡ false))
  unfolding compiled versions
  compiled-on n zero e on = (n, rw on, omega arith, omega arith, on, inl (omega arith))
  compiled-on n (suc k) e on = elim (Bool-cases (feature b (suc n))) [
    | inl on' ↦
        let (v, one, low, high, is, next) = compiled-on (suc n) k (omega arith) on' in
        (v, rw (on, on') one, omega arith, high, is, next)
    | inr off ↦ (
      n,
      rw (on, off, compiled-off (suc n) k (omega arith) off),
      omega arith,
      omega arith,
      on,
      inr off,
    )
  ]

  -- Whatever features are asked for, exactly one of the definitions of the minor version is
  -- compiled, and its value is that of the last feature that is on, or 8 when none is.
  pub compiled-minor_versions : (v : ℕ) × (compiled (minor_versions b) ≡ v ∷ []) × IsLastOf b v
  unfolding minor_versions
  compiled-minor_versions = elim (Bool-cases (feature b 9)) [
    | inl on ↦
        let (v, one, low, high, is, next) = compiled-on 9 10 refl on in
        (v, compiled-false _ 8 _ (ap not on) ∙ one, inr (low, high, is, next))
    | inr off ↦ (
      8,
      compiled-true _ 8 _ (ap not off) ∙ ap (◌∷◌ 8) (compiled-off 9 10 refl off),
      inl (refl, off),
    )
  ]
