-- ===== src/Abi/Features.antt =====
-- The builds of fuse-abi/src/lib.rs: which `abi-7-n` features of fuse-abi/Cargo.toml are on, and whether
-- the target is macOS. Outside this folder, Request/Granted and the modules named `Macos` the development
-- is about the default build, with no feature, not on macOS.
pub mod Version
pub mod Opcode
pub mod Notify
pub mod Structs
pub mod Layouts
pub mod Flags
pub mod Packed
use fuse_rs.Base.{
  ℕ, zero, suc, ◌-◌, ◌+◌, ◌≤◌, ◌<◌, ◌≡◌, refl, sym, ap, ◌∙◌, Bool, true, false, ◌||◌, arith,
  Bool-cases, inl, inr,
}

-- The features that are asked for, by their `n`.
pub record Build : Type 0 where
  pub asked : ℕ → Bool
  pub macos : Bool

-- Each feature turns on the one before it, from `abi-7-19` down: feature 19 - k.
unfoldable pub below_top : Build → ℕ → Bool
below_top b zero = b.asked 19
below_top b (suc k) = b.asked (18 - k) || below_top b k

-- Whether `feature = "abi-7-n"` holds.
unfoldable pub feature : Build → ℕ → Bool
unfolding below_top
feature b n = below_top b (19 - n)

abbrev pub default_build : Build
default_build = record { asked = λ _. false; macos = false }

or_right : (x y : Bool) → y ≡ true → (x || y) ≡ true
or_right true y h = refl
or_right false y h = h

pub feature-suc : (b : Build) (n : ℕ) → n < 19 → feature b (suc n) ≡ true → feature b n ≡ true
unfolding feature below_top
feature-suc b n h on =
    let step : 19 - n ≡ suc (19 - suc n) = omega arith in
    ap (below_top b) step ∙ or_right (b.asked (18 - (19 - suc n))) (below_top b (19 - suc n)) on

-- A feature turns on all before it.
pub feature-before :
    (b : Build) (n k : ℕ) → n + k ≤ 19 → feature b (n + k) ≡ true → feature b n ≡ true
feature-before b n zero h on = let e : n ≡ n + 0 = omega arith in ap (feature b) e ∙ on
feature-before b n (suc k) h on =
    let e : suc (n + k) ≡ n + suc k = omega arith in
    feature-before b n k (omega arith) (feature-suc b (n + k) (omega arith) (ap (feature b) e ∙ on))

below_top-default : (k : ℕ) → below_top default_build k ≡ false
unfolding below_top
below_top-default zero = refl
below_top-default (suc k) = below_top-default k

pub feature-default : (n : ℕ) → feature default_build n ≡ false
unfolding feature
feature-default n = below_top-default (19 - n)
