-- ===== src/Abi/Features/Opcode.antt =====
-- fuse-abi/src/lib.rs: the opcodes of every build.
use fuse_rs.Base.{
  ℕ, ◌≡◌, refl, sym, ap, ◌∙◌, ◌↔◌, inl, inr, Bool, true, false, ◌&&◌, Option, none, some, arith,
  ◌==◌, if◌then◌else◌, Option-cases, Bool-cases, if_true, if_false,
}
use fuse_rs.Abi.Opcode.{FuseOpcode, code, try_from, try_from-code, code-try_from}
use fuse_rs.Abi.Opcode
use mathlib.Core.Option
use fuse_rs.Abi.Features.{Build, feature, default_build, feature-default}

-- The variants that every build has, and those behind a `cfg`.
pub data BuildOpcode : Type 0 where
  common : FuseOpcode → BuildOpcode
  fuse_ioctl fuse_poll fuse_notify_reply fuse_batch_forget fuse_fallocate fuse_setvolname
        fuse_getxtimes fuse_exchange cuse_init :
      BuildOpcode

-- The `cfg` of a variant.
unfoldable pub is_in : Build → BuildOpcode → Bool
is_in b (common op) = true
is_in b fuse_ioctl = feature b 11
is_in b fuse_poll = feature b 11
is_in b fuse_notify_reply = feature b 15
is_in b fuse_batch_forget = feature b 16
is_in b fuse_fallocate = feature b 19
is_in b fuse_setvolname = b.macos
is_in b fuse_getxtimes = b.macos
is_in b fuse_exchange = b.macos
is_in b cuse_init = feature b 12

unfoldable pub build_code : BuildOpcode → ℕ
build_code (common op) = code op
build_code fuse_ioctl = 39
build_code fuse_poll = 40
build_code fuse_notify_reply = 41
build_code fuse_batch_forget = 42
build_code fuse_fallocate = 43
build_code fuse_setvolname = 61
build_code fuse_getxtimes = 62
build_code fuse_exchange = 63
build_code cuse_init = 4096

-- The arms of `try_from` behind a `cfg`, and its last arm.
gated : Build → ℕ → Option BuildOpcode
gated b n =
    if n == 39 && feature b 11
    then some fuse_ioctl
    else if n == 40 && feature b 11
    then some fuse_poll
    else if n == 41 && feature b 15
    then some fuse_notify_reply
    else if n == 42 && feature b 16
    then some fuse_batch_forget
    else if n == 43 && feature b 19
    then some fuse_fallocate
    else if n == 61 && b.macos
    then some fuse_setvolname
    else if n == 62 && b.macos
    then some fuse_getxtimes
    else if n == 63 && b.macos
    then some fuse_exchange
    else if n == 4096 && feature b 12
    then some cuse_init
    else none

or_gated : Build → ℕ → Option FuseOpcode → Option BuildOpcode
or_gated b n (some op) = some (common op)
or_gated b n none = gated b n

-- `TryFrom<u32>`: the arms of every build stand in front.
unfoldable pub build_try_from : Build → ℕ → Option BuildOpcode
unfolding or_gated gated
build_try_from b n = or_gated b n (try_from n)

module _ (b : Build) where
  abbrev IsOf : ℕ → BuildOpcode → Type 0
  IsOf n op = (build_code op ≡ n) × (is_in b op ≡ true)

  -- One arm behind a `cfg`, and those behind it.
  arm :
      (n k : ℕ) (variant : BuildOpcode) {rest : Option BuildOpcode} {op : BuildOpcode}
      → build_code variant ≡ k
      → (rest ≡ some op → IsOf n op)
      → (if n == k && is_in b variant then some variant else rest) ≡ some op
      → IsOf n op
  arm n k variant {rest} {op} e later h = elim (Bool-cases (n == k && is_in b variant)) [
    | inl here ↦
        let same : some variant ≡ some op = sym (if_true _ _ _ here) ∙ h in
        ground (arith, here, same)
    | inr other ↦ later (sym (if_false _ _ _ other) ∙ h)
  ]

  gated-code : (n : ℕ) {op : BuildOpcode} → gated b n ≡ some op → IsOf n op
  unfolding gated build_code is_in
  gated-code n {op} h =
      (arm n 39 fuse_ioctl refl (
          arm n 40 fuse_poll refl (
            arm n 41 fuse_notify_reply refl (
              arm n 42 fuse_batch_forget refl (
                arm n 43 fuse_fallocate refl (
                  arm n 61 fuse_setvolname refl (
                    arm n 62 fuse_getxtimes refl (
                      arm n 63 fuse_exchange refl
                        (arm n 4096 cuse_init refl (λ h. absurd (ground arith)))))))))))
        h

  found : (op : BuildOpcode) → is_in b op ≡ true → build_try_from b (build_code op) ≡ some op
  unfolding build_try_from build_code is_in gated or_gated Opcode.try_from
  found (common op) h = rw (try_from-code op)
  found fuse_ioctl h = rw h
  found fuse_poll h = rw h
  found fuse_notify_reply h = rw h
  found fuse_batch_forget h = rw h
  found fuse_fallocate h = rw h
  found fuse_setvolname h = rw h
  found fuse_getxtimes h = rw h
  found fuse_exchange h = rw h
  found cuse_init h = rw h

  sound :
      (n : ℕ) {op : BuildOpcode}
      → build_try_from b n ≡ some op
      → (build_code op ≡ n) × (is_in b op ≡ true)
  unfolding build_try_from or_gated build_code is_in
  sound n {op} h = elim (Option-cases (try_from n)) [
    | inl other ↦ gated-code n (ap (or_gated b n) (sym other) ∙ h)
    | inr (every, e) ↦
        let same : some (common every) ≡ some op = ap (or_gated b n) (sym e) ∙ h in
        ground (arith, same, code-try_from n e)
  ]

  -- In every build, `try_from` finds an opcode for a number exactly when the number is its
  -- discriminant and the build has it.
  pub build_try_from_iff :
      (n : ℕ) (op : BuildOpcode)
      → (build_try_from b n ≡ some op) ↔ ((build_code op ≡ n) × (is_in b op ≡ true))
  build_try_from_iff n op = (sound n, λ h. ap (build_try_from b) (sym h.0) ∙ found op h.1)

arm_off :
    (x c : Bool) (v rest : Option BuildOpcode) → c ≡ false → (if x && c then v else rest) ≡ rest
arm_off true c v rest h = rw h refl
arm_off false c v rest h = refl

gated-default : (n : ℕ) → gated default_build n ≡ none
unfolding gated
gated-default n =
    arm_off (n == 39) _ _ _ (feature-default 11)
    ∙ arm_off (n == 40) _ _ _ (feature-default 11)
    ∙ arm_off (n == 41) _ _ _ (feature-default 15)
    ∙ arm_off (n == 42) _ _ _ (feature-default 16)
    ∙ arm_off (n == 43) _ _ _ (feature-default 19)
    ∙ arm_off (n == 61) _ _ _ refl
    ∙ arm_off (n == 62) _ _ _ refl
    ∙ arm_off (n == 63) _ _ _ refl
    ∙ arm_off (n == 4096) _ _ _ (feature-default 12)

or_gated-default :
    (n : ℕ) (o : Option FuseOpcode) → or_gated default_build n o ≡ Option.map common o
unfolding or_gated
or_gated-default n none = gated-default n
or_gated-default n (some op) = refl

-- The default build has the opcodes that every build has.
pub build_try_from-default :
    (n : ℕ) → build_try_from default_build n ≡ Option.map common (try_from n)
unfolding build_try_from
build_try_from-default n = or_gated-default n (try_from n)
