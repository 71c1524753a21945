-- ===== src/Base/Bits.antt =====
-- `&` with one bit, with a low mask and with the complement of a low mask, and `|` of high and low
-- digits, as arithmetic; the digits of words.
mod Step
use Prim.Native.Nat.{
  ℕ, zero, suc, ◌+◌, ◌-◌, ◌*◌, ◌/◌, ◌%◌, ◌^◌, ◌≤◌, ◌<◌, min, max, bit_and, bit_or,
}
use mathlib.Core.Path.{◌≡◌, refl, ap}
use mathlib.Core.Logic.{◌≢◌}
use native.Mathlib.Nat.{pow-suc, one-le-pow, mul_comm, div-div-eq-div-mul}
use native.Mathlib.Omega.{arith}
use Step.{bit_and_step, bit_or_step}

bit_and-zero_fuel : (n a : ℕ) → a ≤ n → bit_and a 0 ≡ 0
bit_and-zero_fuel zero zero h = refl
bit_and-zero_fuel zero (suc a) h = absurd (omega arith)
bit_and-zero_fuel (suc n) a h =
    omega (arith, bit_and_step a 0, bit_and-zero_fuel n (a / 2) (omega arith))

bit_and-zero : (a : ℕ) → bit_and a 0 ≡ 0
bit_and-zero a = bit_and-zero_fuel a a (omega arith)

-- An even mask leaves the lowest digit out.
bit_and_even : (a m : ℕ) → bit_and a (2 * m) ≡ bit_and (a / 2) m * 2
bit_and_even a m = omega (
  arith,
  bit_and_step a (2 * m),
  ap (bit_and (a / 2)) (let half : 2 * m / 2 ≡ m = omega arith in half),
)

-- One bit: `a & (1 << k)`.
pub bit_and_bit : (k a : ℕ) → bit_and a (2 ^ k) ≡ a / 2 ^ k % 2 * 2 ^ k
bit_and_bit zero a = omega (arith, bit_and_step a 1, bit_and-zero (a / 2))
bit_and_bit (suc k) a =
    rw (pow-suc 2 k, mul_comm (2 ^ k) 2, bit_and_even a (2 ^ k), bit_and_bit k (a / 2))
      (rw (div-div-eq-div-mul a 2 (2 ^ k)) (omega arith))

-- `a / 2 ^ k * 2 ^ k + a % 2 ^ k` under a mask of `k` ones.
bit_and_fields : (k q r : ℕ) → r < 2 ^ k → bit_and (q * 2 ^ k + r) (2 ^ k - 1) ≡ r
bit_and_fields zero q r h = omega (arith, bit_and-zero (q * 1 + r))
bit_and_fields (suc k) q r h = ground (
  arith,
  bit_and_step (q * 2 ^ suc k + r) (2 ^ suc k - 1),
  pow-suc 2 k,
  ap (λ (t : ℕ). q * t) (pow-suc 2 k),
  bit_and_fields k q (r / 2) (omega (arith, pow-suc 2 k)),
)

-- The `k` low bits.
pub bit_and_mask : (k a : ℕ) → bit_and a (2 ^ k - 1) ≡ a % 2 ^ k
bit_and_mask k a = ground (arith, one-le-pow k 2, bit_and_fields k (a / 2 ^ k) (a % 2 ^ k))

-- Everything but the three low bits of a 64-bit word: `a & !7`.
pub bit_and_not7 : (a : ℕ) → a < 2 ^ 64 → bit_and a (2 ^ 64 - 8) ≡ a - a % 8
bit_and_not7 a h = omega (
  arith,
  bit_and_even a (2 * (2 * (2 ^ 61 - 1))),
  bit_and_even (a / 2) (2 * (2 ^ 61 - 1)),
  bit_and_even (a / 2 / 2) (2 ^ 61 - 1),
  bit_and_mask 61 (a / 2 / 2 / 2),
)

bit_or-zero_fuel : (n a : ℕ) → a ≤ n → bit_or a 0 ≡ a
bit_or-zero_fuel zero zero h = refl
bit_or-zero_fuel zero (suc a) h = absurd (omega arith)
bit_or-zero_fuel (suc n) a h =
    omega (arith, bit_or_step a 0, bit_or-zero_fuel n (a / 2) (omega arith))

bit_or-zero : (a : ℕ) → bit_or a 0 ≡ a
bit_or-zero a = bit_or-zero_fuel a a (omega arith)

-- Digits above bit `k` joined with digits below it.
pub bit_or_fields : (k q r : ℕ) → r < 2 ^ k → bit_or (q * 2 ^ k) r ≡ q * 2 ^ k + r
bit_or_fields zero q r h =
    let empty : r ≡ 0 = omega arith in
    omega (arith, ap (bit_or (q * 2 ^ 0)) empty, bit_or-zero (q * 2 ^ 0))
bit_or_fields (suc k) q r h = ground (
  arith,
  bit_or_step (q * 2 ^ suc k) r,
  pow-suc 2 k,
  ap (λ (t : ℕ). q * t) (pow-suc 2 k),
  bit_or_fields k q (r / 2) (omega (arith, pow-suc 2 k)),
)

-- The digit at `k`.
unfoldable pub digit : ℕ → ℕ → ℕ
digit k a = a / 2 ^ k % 2

pub digit-lt : (k a : ℕ) → digit k a < 2
unfolding digit
digit-lt k a = omega arith

digit-suc : (k a : ℕ) → digit (suc k) a ≡ digit k (a / 2)
unfolding digit
digit-suc k a = rw (pow-suc 2 k, mul_comm (2 ^ k) 2, ← div-div-eq-div-mul a 2 (2 ^ k)) refl

digit-zero : (a : ℕ) → digit 0 a ≡ a % 2
unfolding digit
digit-zero a = omega arith

pub digit-none : (k : ℕ) → digit k 0 ≡ 0
digit-none zero = digit-zero 0
digit-none (suc k) = let half : 0 / 2 ≡ 0 = omega arith in rw (digit-suc k 0, half) (digit-none k)

-- The digits of `|`.
pub digit-bit_or : (k a b : ℕ) → digit k (bit_or a b) ≡ max (digit k a) (digit k b)
digit-bit_or zero a b =
    omega (arith, digit-zero (bit_or a b), digit-zero a, digit-zero b, bit_or_step a b)
digit-bit_or (suc k) a b =
    let half : bit_or a b / 2 ≡ bit_or (a / 2) (b / 2) = omega (arith, bit_or_step a b) in
    rw (digit-suc k (bit_or a b), digit-suc k a, digit-suc k b, half)
      (digit-bit_or k (a / 2) (b / 2))

-- The digits of one bit.
pub digit-bit : (k : ℕ) → digit k (2 ^ k) ≡ 1
digit-bit zero = digit-zero 1
digit-bit (suc k) =
    let half : 2 ^ suc k / 2 ≡ 2 ^ k = omega (arith, pow-suc 2 k) in
    rw (digit-suc k (2 ^ suc k), half) (digit-bit k)

pub digit-other : (k i : ℕ) → k ≢ i → digit k (2 ^ i) ≡ 0
digit-other zero zero h = absurd (h refl)
digit-other zero (suc i) h = omega (arith, digit-zero (2 ^ suc i), pow-suc 2 i)
digit-other (suc k) zero h =
    let half : 1 / 2 ≡ 0 = omega arith in rw (digit-suc k 1, half) (digit-none k)
digit-other (suc k) (suc i) h =
    let half : 2 ^ suc i / 2 ≡ 2 ^ i = omega (arith, pow-suc 2 i) in
    rw (digit-suc k (2 ^ suc i), half) (digit-other k i (λ e. h (ap suc e)))

-- The digits of `&`.
pub digit-bit_and : (k a b : ℕ) → digit k (bit_and a b) ≡ min (digit k a) (digit k b)
digit-bit_and zero a b =
    omega (arith, digit-zero (bit_and a b), digit-zero a, digit-zero b, bit_and_step a b)
digit-bit_and (suc k) a b =
    let half : bit_and a b / 2 ≡ bit_and (a / 2) (b / 2) = omega (arith, bit_and_step a b) in
    rw (digit-suc k (bit_and a b), digit-suc k a, digit-suc k b, half)
      (digit-bit_and k (a / 2) (b / 2))
