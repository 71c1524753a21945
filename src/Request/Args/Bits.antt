-- ===== src/Request/Args/Bits.antt =====
-- The flag words of requests, bit by bit: which arguments `setattr` gets, and when computing them panics.
use fuse_rs.Base.{
  ℕ, zero, suc, ◌+◌, ◌*◌, ◌/◌, ◌%◌, ◌^◌, ◌≤◌, ◌<◌, ◌≡◌, refl, ◌⊎◌, inl, inr, ◌↔◌, pos, true, false,
  Option, none, some, arith, bit_and, ◌==◌,
}
use native.Mathlib.Nat.{one-le-pow}
use fuse_rs.Base.Bits.{bit_and_bit}
use fuse_rs.Abi.Structs.{FuseSetattrIn}
use fuse_rs.Platform.{SystemTime, nanos_per_sec, duration_new, epoch_add}
use fuse_rs.Filesystem.{SetAttr}
use fuse_rs.Request.Args.{flagged, epoch_plus, flagged_time, set_attr_args}

-- Bit `k` of a word.
abbrev pub bit : ℕ → ℕ → ℕ
bit k w = w / 2 ^ k % 2

product_test :
    (b p m : ℕ)
    → b < 2
    → 1 ≤ p
    → m ≡ b * p
    → ((b ≡ 0) × ((m == 0) ≡ true)) ⊎ ((b ≡ 1) × ((m == 0) ≡ false))
product_test zero p m small big e = ground arith
product_test (suc zero) p m small big e = ground arith
product_test (suc (suc b)) p m small big e = absurd (omega arith)

bit_test :
    (k w : ℕ)
    → ((bit k w ≡ 0) × ((bit_and w (2 ^ k) == 0) ≡ true))
      ⊎ ((bit k w ≡ 1) × ((bit_and w (2 ^ k) == 0) ≡ false))
bit_test k w =
    product_test (bit k w) (2 ^ k) (bit_and w (2 ^ k)) (omega arith) (one-le-pow k 2 (omega arith))
      (bit_and_bit k w)

-- The argument if the bit is one.
abbrev pub optional : {A : Type 0} → ℕ → A → Option A
optional zero a = none
optional (suc _) a = some a

pub flagged_lem : {A : Type 0} (k w : ℕ) (a : A) → flagged w (2 ^ k) a ≡ optional (bit k w) a
unfolding flagged
flagged_lem k w a = elim (bit_test k w) [
  | inl (off, test) ↦ rw (off, test) refl
  | inr (on, test) ↦ rw (on, test) refl
]

-- The point in time with the nanoseconds carried over.
abbrev pub time : ℕ → ℕ → SystemTime
time secs nanos = record {
  secs = pos (secs + nanos / nanos_per_sec);
  nanos = nanos % nanos_per_sec;
}

-- The bit is set, and the seconds with the carry do not fit an `i64`.
abbrev pub Overflows : ℕ → ℕ → ℕ → Type 0
Overflows b secs nanos = (b ≡ 1) × (2 ^ 63 ≤ secs + nanos / nanos_per_sec)

epoch_plus_cases :
    (secs nanos : ℕ)
    → ((secs + nanos / nanos_per_sec < 2 ^ 63) × (epoch_plus secs nanos ≡ some (time secs nanos)))
      ⊎ ((2 ^ 63 ≤ secs + nanos / nanos_per_sec) × (epoch_plus secs nanos ≡ none))
unfolding epoch_plus duration_new epoch_add
epoch_plus_cases secs nanos = ground arith

pub flagged_time_cases :
    (k w secs nanos : ℕ)
    → (Overflows (bit k w) secs nanos × (flagged_time w (2 ^ k) secs nanos ≡ none))
      ⊎ ((¬ Overflows (bit k w) secs nanos)
          × (flagged_time w (2 ^ k) secs nanos ≡ some (optional (bit k w) (time secs nanos))))
unfolding flagged_time
flagged_time_cases k w secs nanos = elim (bit_test k w) [
  | inl (off, test) ↦ inr (λ h. ground arith, rw (off, test) refl)
  | inr (on, test) ↦ elim (epoch_plus_cases secs nanos) [
    | inl (fits, e) ↦ inr (λ h. ground arith, rw (on, test, e) refl)
    | inr (big, e) ↦ inl ((on, big), rw (test, e) refl)
  ]
]

-- What SETATTR asks for: each argument whose bit is set in `valid`.
abbrev pub asked : FuseSetattrIn → SetAttr
asked arg = record {
  mode = optional (bit 0 arg.valid) arg.mode;
  uid = optional (bit 1 arg.valid) arg.uid;
  gid = optional (bit 2 arg.valid) arg.gid;
  size = optional (bit 3 arg.valid) arg.size;
  atime = optional (bit 4 arg.valid) (time arg.atime arg.atimensec);
  mtime = optional (bit 5 arg.valid) (time arg.mtime arg.mtimensec);
  fh = optional (bit 6 arg.valid) arg.fh;
  crtime = none;
  chgtime = none;
  bkuptime = none;
  flags = none;
}

abbrev pub AtimeOverflows : FuseSetattrIn → Type 0
AtimeOverflows arg = Overflows (bit 4 arg.valid) arg.atime arg.atimensec

abbrev pub MtimeOverflows : FuseSetattrIn → Type 0
MtimeOverflows arg = Overflows (bit 5 arg.valid) arg.mtime arg.mtimensec

pub set_attr_args_cases :
    (arg : FuseSetattrIn)
    → ((AtimeOverflows arg ⊎ MtimeOverflows arg) × (set_attr_args arg ≡ none))
      ⊎ ((¬ (AtimeOverflows arg ⊎ MtimeOverflows arg)) × (set_attr_args arg ≡ some (asked arg)))
unfolding set_attr_args
set_attr_args_cases arg = elim (flagged_time_cases 4 arg.valid arg.atime arg.atimensec) [
  | inl (big, e) ↦ inl (inl big, rw e refl)
  | inr (fits, e) ↦ elim (flagged_time_cases 5 arg.valid arg.mtime arg.mtimensec) [
    | inl (big, e') ↦ inl (inr big, rw (e, e') refl)
    | inr (fits', e') ↦ inr (
      λ h. elim h [ inl a ↦ fits a | inr m ↦ fits' m ],
      rw
          (
            e,
            e',
            flagged_lem 0 arg.valid arg.mode,
            flagged_lem 1 arg.valid arg.uid,
            flagged_lem 2 arg.valid arg.gid,
            flagged_lem 3 arg.valid arg.size,
            flagged_lem 6 arg.valid arg.fh,
          )
          refl,
    )
  ]
]

-- When neither time overflows, `setattr` gets exactly the arguments whose bit is set in `valid`,
-- the times as points after the epoch with their nanoseconds carried over, and none of the macOS
-- arguments.
pub set_attr_args-asked :
    (arg : FuseSetattrIn)
    → ¬ AtimeOverflows arg
    → ¬ MtimeOverflows arg
    → set_attr_args arg ≡ some (asked arg)
set_attr_args-asked arg fits fits' = elim (set_attr_args_cases arg) [
  | inl (inl a, _) ↦ absurd (fits a)
  | inl (inr m, _) ↦ absurd (fits' m)
  | inr (_, e) ↦ e
]

-- Computing the arguments of `setattr` panics exactly when the bit of atime or mtime is set and
-- its seconds, with the carry from the nanoseconds, are 2 ^ 63 or more.
pub set_attr_args-none_iff :
    (arg : FuseSetattrIn) → (set_attr_args arg ≡ none) ↔ (AtimeOverflows arg ⊎ MtimeOverflows arg)
set_attr_args-none_iff arg = elim (set_attr_args_cases arg) [
  | inl (big, e) ↦ (λ _. big, λ _. e)
  | inr (fits, e) ↦ (λ e'. ground arith, λ big. absurd (fits big))
]
