-- ===== src/Base/Bits/Step.antt =====
-- `bit_and` and `bit_or` by their lowest digit. The library defines them by a recursion on digits with fuel,
-- which is dropped here.
use Prim.Native.Nat.{ℕ, zero, suc, ◌+◌, ◌*◌, ◌/◌, ◌%◌, ◌≤◌, min, max, bit_and, bit_or, digits}
use Prim.Native.Nat.{bit_and-bitwise, bit_or-bitwise}
use mathlib.Core.Path.{◌≡◌, refl}
use native.Mathlib.Nat.{le_refl}
use native.Mathlib.Omega.{arith}

module _ (bottom : ℕ → ℕ) (digit : ℕ → ℕ → ℕ) where
  -- The fuel is enough when it covers the first number; more of it changes nothing.
  digits-fuel :
      (k : ℕ) (b a l : ℕ) (covers : a ≤ k) (covers' : a ≤ l)
      → digits bottom digit k a b ≡ digits bottom digit l a b
  digits-fuel (suc k) b (suc a) (suc l) covers covers' =
      let half : suc a / 2 ≤ k = omega arith in
      rw (digits-fuel k (b / 2) (suc a / 2) l half (omega arith))
  digits-fuel k b (suc a) zero covers covers' = absurd (omega arith)
  digits-fuel zero b (suc a) (suc l) covers covers' = absurd (omega arith)
  digits-fuel (suc k) b zero (suc l) covers covers' = refl
  digits-fuel (suc k) b zero zero covers covers' = refl
  digits-fuel zero b zero (suc l) covers covers' = refl
  digits-fuel zero b zero zero covers covers' = refl

-- The lowest digit is the conjunction of the lowest digits.
pub bit_and_step : (m k : ℕ) → bit_and m k ≡ min (m % 2) (k % 2) + 2 * bit_and (m / 2) (k / 2)
bit_and_step (suc m) k =
    let more =
      digits-fuel (λ y. 0) min m (k / 2) (suc m / 2) (suc m / 2) (omega arith) (le_refl _) in
    simp bit_and-bitwise (omega (arith, more))
bit_and_step zero k = simp bit_and-bitwise (omega arith)

-- The lowest digit is the disjunction of the lowest digits.
pub bit_or_step : (m k : ℕ) → bit_or m k ≡ max (m % 2) (k % 2) + 2 * bit_or (m / 2) (k / 2)
bit_or_step (suc m) k =
    let more =
      digits-fuel (λ y. y) max m (k / 2) (suc m / 2) (suc m / 2) (omega arith) (le_refl _) in
    simp bit_or-bitwise (omega (arith, more))
bit_or_step zero k = simp bit_or-bitwise (omega arith)
