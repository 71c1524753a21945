-- ===== src/Ll/Argument.antt =====
-- src/ll/argument.rs: typed arguments out of a byte slice. A slice is the list of its bytes; that
-- the memory behind a reference is aligned for its type is outside the model.
pub mod Laws
use fuse_rs.Base.{
  ℕ, zero, suc, List, [], ◌∷◌, Option, none, some, ltb, ◌==◌, if◌then◌else◌, length, take, drop,
}
use fuse_rs.Abi.Layout.{Struct, size_of, of_bytes}
use mathlib.Core.Option

-- The field `data` of the source.
pub record ArgumentIterator : Type 0 where
  pub bytes : List ℕ

-- A method on `&mut self` that may fail; a failure leaves what was fetched before it fetched.
abbrev pub Fetch : Type 0 → Type 0
Fetch A = ArgumentIterator → Option A × ArgumentIterator

abbrev pub and_then :
    {A B : Type 0} → Option A × ArgumentIterator → (A → Fetch B) → Option B × ArgumentIterator
and_then (none, it) f = (none, it)
and_then (some a, it) f = f a it

infixl 5 ◌>>=◌
abbrev pub ◌>>=◌ : {A B : Type 0} → Fetch A → (A → Fetch B) → Fetch B
◌>>=◌ m f it = and_then (m it) f

abbrev pub pure : {A : Type 0} → A → Fetch A
pure a it = (some a, it)

unfoldable pub new : List ℕ → ArgumentIterator
new bytes = record { bytes = bytes }

unfoldable pub len : ArgumentIterator → ℕ
len it = length it.bytes

unfoldable pub fetch_all : Fetch (List ℕ)
fetch_all it = (some it.bytes, record { bytes = [] })

unfoldable pub fetch_bytes : ℕ → Fetch (List ℕ)
fetch_bytes amt it =
    if ltb (length it.bytes) amt
    then (none, it)
    else (some (take amt it.bytes), record { bytes = drop amt it.bytes })

unfoldable pub fetch : {T : Type 0} ⦃s : Struct T⦄ → Fetch T
fetch ⦃s⦄ = do bytes ← fetch_bytes (size_of s.layout); pure (of_bytes ⦃s = s⦄ bytes)

-- `iter().position(|&c| c == 0)`.
unfoldable pub position : List ℕ → Option ℕ
position [] = none
position (c ∷ cs) = if c == 0 then some 0 else Option.map suc (position cs)

abbrev pub find_zero : Fetch ℕ
find_zero it = (position it.bytes, it)

unfoldable pub fetch_str : Fetch (List ℕ)
fetch_str = do n ← find_zero; bytes ← fetch_bytes n; _zero ← fetch_bytes 1; pure bytes
