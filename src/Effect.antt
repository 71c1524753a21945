-- ===== src/Effect.antt =====
-- Running code: what it sends to the kernel driver, and whether it returns or panics. A panic unwinds,
-- so values that are dropped on the way may still send.
use fuse_rs.Base.{◌≡◌, refl, ℕ, ℤ, List, [], ◌++◌, Option, none, some}

-- `ChannelSender` of src/channel.rs.
pub record ChannelSender : Type 0 where
  pub fd : ℤ

-- One `writev`: the slices that are sent, in order.
pub record Packet : Type 0 where
  pub fd : ℤ
  pub slices : List (List ℕ)

pub data Outcome (A : Type 0) : Type 0 where
  done : A → List Packet → Outcome A
  panicked : List Packet → Outcome A

abbrev pub after : {A : Type 0} → List Packet → Outcome A → Outcome A
after sent (done a more) = done a (sent ++ more)
after sent (panicked more) = panicked (sent ++ more)

infixl 5 ◌>>=◌ ◌>>◌
abbrev pub ◌>>=◌ : {A B : Type 0} → Outcome A → (A → Outcome B) → Outcome B
done a sent >>= f = after sent (f a)
panicked sent >>= f = panicked sent

abbrev pub ◌>>◌ : {B : Type 0} → Outcome (Unit {0}) → Outcome B → Outcome B
m >> k = m >>= λ _. k

abbrev pub pure : {A : Type 0} → A → Outcome A
pure a = done a []

-- `unwrap()` while a value is owned whose drop is `unwind`: a panic drops it.
abbrev pub unwrap : {A : Type 0} → Option A → Outcome (Unit {0}) → Outcome A
unwrap (some a) unwind = pure a
unwrap none (done _ sent) = panicked sent
unwrap none (panicked sent) = panicked sent

pub after_nil : {A : Type 0} (o : Outcome A) → after [] o ≡ o
after_nil (done a sent) = refl
after_nil (panicked sent) = refl
