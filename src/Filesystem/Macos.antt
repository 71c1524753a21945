-- ===== src/Filesystem/Macos.antt =====
-- The methods of the trait `Filesystem` of src/lib.rs that only macOS has. Of the request a method can
-- read the header.
use fuse_rs.Base.{ℕ, List}
use fuse_rs.Abi.Structs.{FuseInHeader}
use fuse_rs.Platform.{Libc, SystemTime}
use fuse_rs.Effect.{Outcome}
use fuse_rs.Reply.Macos.{ReplyXTimes, xtimes}
use fuse_rs.Filesystem.{Answer}

-- The arguments of `ReplyXTimes::xtimes`.
pub record XTimesAnswer : Type 0 where
  pub bkuptime : SystemTime
  pub crtime : SystemTime

pub record MacosFilesystem (S : Type 0) : Type 0 where
  pub setvolname : FuseInHeader → List ℕ → S → S × Answer (Unit {0})
  pub exchange : FuseInHeader → ℕ → List ℕ → ℕ → List ℕ → ℕ → S → S × Answer (Unit {0})
  pub getxtimes : FuseInHeader → ℕ → S → S × Answer XTimesAnswer

module _ (c : Libc) where
  unfoldable pub give_xtimes : ReplyXTimes → XTimesAnswer → Outcome (Unit {0})
  give_xtimes r a = xtimes c r a.bkuptime a.crtime

  -- The default methods.
  unfoldable pub default_macos : {S : Type 0} → MacosFilesystem S
  default_macos = record {
    setvolname = λ _ _ s. (s, Answer.error c.enosys);
    exchange = λ _ _ _ _ _ _ s. (s, Answer.error c.enosys);
    getxtimes = λ _ _ s. (s, Answer.error c.enosys);
  }
