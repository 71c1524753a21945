-- ===== src/Request/Granted.antt =====
-- The flags that the INIT arm of `Request::dispatch` of src/request.rs grants, in every build.
use fuse_rs.Base.{
  ℕ, ◌^◌, ◌≡◌, refl, sym, ap, ◌∙◌, ◌↔◌, ◌⊎◌, inl, inr, Bool, true, false, List, [], ◌∷◌, arith,
  bit_and, bit_or, ◌==◌, ==_iff, Bool-cases, if◌then◌else◌, All,
}
use fuse_rs.Base.Bits.{
  digit, digit-lt, digit-bit_or, digit-bit_and, digit-bit, digit-other, digit-none,
}
use fuse_rs.Abi.Features.{Build, default_build}
use fuse_rs.Abi.Features.Flags.{
  Flags, InitFlag, init_async_read, init_case_insensitive, init_vol_rename, init_xtimes,
  flags_of_init, init_flag_is_in, init_flag_shift,
}
use fuse_rs.Abi.Structs.{FuseInitIn}
use fuse_rs.Request.Dispatch.{init_out}

module _ {F : Type 0} ⦃fl : Flags F⦄ where
  -- Flags joined by `|`.
  unfoldable pub mask : List F → ℕ
  mask [] = 0
  mask (f ∷ fs) = bit_or (2 ^ fl.shift f) (mask fs)

  abbrev pub Among : F → List F → Type 0
  Among g [] = ⊥
  Among g (f ∷ fs) = (g ≡ f) ⊎ Among g fs

  -- A word has a flag.
  abbrev pub Has : ℕ → F → Type 0
  Has w g = digit (fl.shift g) w ≡ 1

  digit-flag :
      (f g : F)
      → ((f ≡ g) × (digit (fl.shift g) (2 ^ fl.shift f) ≡ 1))
        ⊎ (digit (fl.shift g) (2 ^ fl.shift f) ≡ 0)
  digit-flag f g = elim (Bool-cases (fl.shift g == fl.shift f)) [
    | inl same ↦
        let e = (==_iff (fl.shift g) (fl.shift f)).0 same in
        inl (fl.apart f g (sym e), ap (λ k. digit k (2 ^ fl.shift f)) e ∙ digit-bit (fl.shift f))
    | inr other ↦ inr (
        digit-other (fl.shift g) (fl.shift f)
          (λ e. ground (arith, other, (==_iff (fl.shift g) (fl.shift f)).1 e)))
  ]

  mask-found : (fs : List F) (g : F) → Among g fs → Has (mask fs) g
  unfolding mask
  mask-found [] g m = absurd m
  mask-found (f ∷ fs) g (inl e) =
      let one : digit (fl.shift g) (2 ^ fl.shift f) ≡ 1 =
        ap (λ f. digit (fl.shift g) (2 ^ fl.shift f)) (sym e) ∙ digit-bit (fl.shift g) in
      omega (
        arith,
        one,
        digit-bit_or (fl.shift g) (2 ^ fl.shift f) (mask fs),
        digit-lt (fl.shift g) (mask fs),
      )
  mask-found (f ∷ fs) g (inr later) = omega (
    arith,
    mask-found fs g later,
    digit-bit_or (fl.shift g) (2 ^ fl.shift f) (mask fs),
    digit-lt (fl.shift g) (2 ^ fl.shift f),
  )

  mask-only : (fs : List F) (g : F) → Has (mask fs) g → Among g fs
  unfolding mask
  mask-only [] g h = absurd (omega (arith, h, digit-none (fl.shift g)))
  mask-only (f ∷ fs) g h = elim (digit-flag f g) [
    | inl (e, _) ↦ inl (sym e)
    | inr off ↦ inr (
        mask-only fs g
          (omega (arith, h, off, digit-bit_or (fl.shift g) (2 ^ fl.shift f) (mask fs))))
  ]

  -- Of the flags that are offered, those of the mask are left.
  masked_iff :
      (offered : ℕ) (fs : List F) (g : F)
      → Has (bit_and offered (mask fs)) g ↔ (Has offered g × Among g fs)
  masked_iff offered fs g =
      let both = digit-bit_and (fl.shift g) offered (mask fs) in
      let small = digit-lt (fl.shift g) offered in
      let small' = digit-lt (fl.shift g) (mask fs) in
      (
        λ h. (
          omega (arith, h, both, small, small'),
          mask-only fs g (omega (arith, h, both, small, small')),
        ),
        λ h. omega (arith, h.0, mask-found fs g h.1, both),
      )

-- `INIT_FLAGS`, by build.
unfoldable pub build_init_flags : Build → List InitFlag
build_init_flags b =
    if b.macos
    then init_async_read ∷ init_case_insensitive ∷ init_vol_rename ∷ init_xtimes ∷ []
    else init_async_read ∷ []

-- The flags in the answer to INIT, `arg.flags & INIT_FLAGS`.
unfoldable pub granted : Build → ℕ → ℕ
granted b offered = bit_and offered (mask (build_init_flags b))

-- The rest of the development answers as the default build does.
granted-default : (arg : FuseInitIn) → (init_out arg).flags ≡ granted default_build arg.flags
unfolding granted mask build_init_flags init_flag_shift init_out
granted-default arg = refl

are_in :
    (b : Build) (macos : Bool)
    → b.macos ≡ macos
    → All (λ f. init_flag_is_in b f ≡ true) (build_init_flags b)
unfolding build_init_flags init_flag_is_in
are_in b true m = rw m (refl, (refl, (refl, (refl, tt))))
are_in b false m = rw m (refl, tt)

-- ASYNC_READ, and on macOS three more.
abbrev pub IsInitFlag : Build → InitFlag → Type 0
IsInitFlag b g =
    (g ≡ init_async_read)
    ⊎ ((b.macos ≡ true)
        × ((g ≡ init_case_insensitive) ⊎ ((g ≡ init_vol_rename) ⊎ (g ≡ init_xtimes))))

build_init_flags_iff :
    (b : Build) (macos : Bool) (g : InitFlag)
    → b.macos ≡ macos
    → Among g (build_init_flags b) ↔ IsInitFlag b g
unfolding build_init_flags
build_init_flags_iff b true g m = rw m (
  λ h. elim h [
    | inl e ↦ inl e
    | inr (inl e) ↦ inr (refl, inl e)
    | inr (inr (inl e)) ↦ inr (refl, inr (inl e))
    | inr (inr (inr (inl e))) ↦ inr (refl, inr (inr e))
    | inr (inr (inr (inr none_left))) ↦ absurd none_left
  ],
  λ h. elim h [
    | inl e ↦ inl e
    | inr (_, inl e) ↦ inr (inl e)
    | inr (_, inr (inl e)) ↦ inr (inr (inl e))
    | inr (_, inr (inr e)) ↦ inr (inr (inr (inl e)))
  ],
)
build_init_flags_iff b false g m = rw m (
  λ h. elim h [ inl e ↦ inl e | inr none_left ↦ absurd none_left ],
  λ h. elim h [ inl e ↦ inl e | inr (there, _) ↦ absurd (ground arith) ],
)

-- In every build, the answer to INIT has a flag exactly when the kernel offers it and it is one of
-- `INIT_FLAGS`, which are FUSE_ASYNC_READ and, on macOS, FUSE_CASE_INSENSITIVE, FUSE_VOL_RENAME
-- and FUSE_XTIMES, and are all flags that the build has.
pub granted_iff :
    (b : Build) (offered : ℕ) (g : InitFlag)
    → (Has (granted b offered) g ↔ (Has offered g × Among g (build_init_flags b)))
      × (Among g (build_init_flags b) ↔ IsInitFlag b g)
      × All (λ f. init_flag_is_in b f ≡ true) (build_init_flags b)
unfolding granted
granted_iff b offered g =
    (masked_iff offered (build_init_flags b) g, build_init_flags_iff b _ g refl, are_in b _ refl)
