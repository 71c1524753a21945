-- ===== src/Reply/Macos/Laws.antt =====
-- What `ReplyXTimes::xtimes` of src/reply.rs sends, panics included.
use fuse_rs.Base.{ℕ}
use fuse_rs.Platform.{Libc, SystemTime}
use fuse_rs.Effect.{ChannelSender}
use fuse_rs.Abi.Features.Structs.{fuse_getxtimes_out_struct}
use fuse_rs.Reply.Types.{create}
use fuse_rs.Reply.Attr.{time_from_system_time}
use fuse_rs.Reply.Typed.Laws.{AnswersOnce, unwrap-AnswersOnce, ok-AnswersOnce}
use fuse_rs.Reply.Macos.{xtimes, reply_xtimes}

-- `xtimes` on a new reply sends one packet and returns, or, where a time is before the epoch, panics
-- with only the error EIO sent.
pub xtimes-AnswersOnce :
    (c : Libc) (s : ChannelSender) (unique : ℕ) (bkuptime crtime : SystemTime)
    → AnswersOnce c s unique (xtimes c (create unique s) bkuptime crtime)
unfolding xtimes
xtimes-AnswersOnce c s unique bkuptime crtime =
    unwrap-AnswersOnce c s unique (time_from_system_time bkuptime) _ (λ bkup.
      unwrap-AnswersOnce c s unique (time_from_system_time crtime) _
        (λ cr. ok-AnswersOnce c s unique ⦃l = fuse_getxtimes_out_struct⦄ _))
