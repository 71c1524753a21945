-- ===== src/Request/Args/Macos/Asked.antt =====
-- Which arguments `setattr` gets on macOS, and when computing them panics.
use fuse_rs.Base.{◌≡◌, refl, ◌⊎◌, inl, inr, ◌↔◌, none, some, arith}
use fuse_rs.Abi.Features.Structs.{MacosSetattrIn}
use fuse_rs.Request.Args.Bits.{
  bit, optional, time, Overflows, asked, AtimeOverflows, MtimeOverflows, flagged_lem,
  flagged_time_cases, set_attr_args_cases,
}
use fuse_rs.Request.Args.Macos.{
  MacosSetattr, get_macos_setattr, every_target, with_macos, macos_set_attr_args,
}

-- Each argument of macOS whose bit is set in `valid`.
abbrev pub macos_asked : MacosSetattrIn → MacosSetattr
macos_asked arg = record {
  crtime = optional (bit 28 arg.valid) (time arg.crtime arg.crtimensec);
  chgtime = optional (bit 29 arg.valid) (time arg.chgtime arg.chgtimensec);
  bkuptime = optional (bit 30 arg.valid) (time arg.bkuptime arg.bkuptimensec);
  flags = optional (bit 31 arg.valid) arg.flags;
}

abbrev pub MacosOverflows : MacosSetattrIn → Type 0
MacosOverflows arg =
    Overflows (bit 28 arg.valid) arg.crtime arg.crtimensec
    ⊎ (Overflows (bit 29 arg.valid) arg.chgtime arg.chgtimensec
        ⊎ Overflows (bit 30 arg.valid) arg.bkuptime arg.bkuptimensec)

get_macos_setattr_cases :
    (arg : MacosSetattrIn)
    → (MacosOverflows arg × (get_macos_setattr arg ≡ none))
      ⊎ ((¬ MacosOverflows arg) × (get_macos_setattr arg ≡ some (macos_asked arg)))
unfolding get_macos_setattr
get_macos_setattr_cases arg =
    let word = arg.valid in
    elim (flagged_time_cases 28 word arg.crtime arg.crtimensec) [
      | inl (big, e) ↦ inl (inl big, rw e refl)
      | inr (fits, e) ↦ elim (flagged_time_cases 29 word arg.chgtime arg.chgtimensec) [
        | inl (big, e') ↦ inl (inr (inl big), rw (e, e') refl)
        | inr (fits', e') ↦ elim (flagged_time_cases 30 word arg.bkuptime arg.bkuptimensec) [
          | inl (big, e'') ↦ inl (inr (inr big), rw (e, e', e'') refl)
          | inr (fits'', e'') ↦ inr (
            λ h. elim h [ inl a ↦ fits a | inr (inl b) ↦ fits' b | inr (inr d) ↦ fits'' d ],
            rw (e, e', e'', flagged_lem 31 word arg.flags) refl,
          )
        ]
      ]
    ]

-- One of the five times has its bit set and does not fit.
abbrev pub AnyOverflows : MacosSetattrIn → Type 0
AnyOverflows arg =
    (AtimeOverflows (every_target arg) ⊎ MtimeOverflows (every_target arg)) ⊎ MacosOverflows arg

macos_set_attr_args_cases :
    (arg : MacosSetattrIn)
    → (AnyOverflows arg × (macos_set_attr_args arg ≡ none))
      ⊎ ((¬ AnyOverflows arg)
          × (macos_set_attr_args arg
              ≡ some (with_macos (asked (every_target arg)) (macos_asked arg))))
unfolding macos_set_attr_args
macos_set_attr_args_cases arg = elim (set_attr_args_cases (every_target arg)) [
  | inl (big, e) ↦ inl (inl big, rw e refl)
  | inr (fits, e) ↦ elim (get_macos_setattr_cases arg) [
    | inl (big, e') ↦ inl (inr big, rw (e, e') refl)
    | inr (fits', e') ↦ inr (λ h. elim h [ inl a ↦ fits a | inr b ↦ fits' b ], rw (e, e') refl)
  ]
]

-- On macOS, when none of the five times overflows, `setattr` gets exactly the arguments whose bit is
-- set in `valid`, the times as points after the epoch with their nanoseconds carried over.
pub macos_set_attr_args-asked :
    (arg : MacosSetattrIn)
    → ¬ AnyOverflows arg
    → macos_set_attr_args arg ≡ some (with_macos (asked (every_target arg)) (macos_asked arg))
macos_set_attr_args-asked arg fits = elim (macos_set_attr_args_cases arg) [
  | inl (big, _) ↦ absurd (fits big)
  | inr (_, e) ↦ e
]

-- On macOS, computing the arguments of `setattr` panics exactly when the bit of one of its five times
-- is set and its seconds, with the carry from the nanoseconds, are 2 ^ 63 or more.
pub macos_set_attr_args-none_iff :
    (arg : MacosSetattrIn) → (macos_set_attr_args arg ≡ none) ↔ AnyOverflows arg
macos_set_attr_args-none_iff arg = elim (macos_set_attr_args_cases arg) [
  | inl (big, e) ↦ (λ _. big, λ _. e)
  | inr (fits, e) ↦ (λ e'. ground arith, λ big. absurd (fits big))
]
