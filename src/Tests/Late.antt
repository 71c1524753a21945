-- ===== src/Tests/Late.antt =====
-- A file system that keeps the reply to MKNOD, which another thread drops behind the run, and behind
-- the end of the session.
use fuse_rs.Base.{ℕ, ◌≡◌, ◌≢◌, refl, ap, arith, List, [], ◌∷◌, pos, none, some}
use mathlib.Core.Option
use fuse_rs.Base.Result.{ok}
use mathlib.Core.Path.{subst, sym}
use fuse_rs.Effect.{Packet}
use fuse_rs.Channel.{Channel, Read, got, failed}
use fuse_rs.Channel.Mount
use fuse_rs.Channel.Mount.{with_fuse_args, send_reply}
use fuse_rs.Channel.Mount.Args.{mount_args}
use fuse_rs.Ll.Argument.{position}
use fuse_rs.Os.{Os, History, fuse_mount, writev}
use fuse_rs.Reply.Raw.Laws.{packet}
use fuse_rs.Reply.Raw
use fuse_rs.Reply.Raw.{ReplyRaw}
use fuse_rs.Reply.Types.{reply_entry}
use fuse_rs.Filesystem.{Filesystem, Answer, give_entry, perform}
use fuse_rs.Session.Loop.{Run, waiting, returned_ok, run}
use fuse_rs.Session.Loop.Answers.{requests}
use fuse_rs.Session.Late.{Later, no_more, uses, as_entry, sent_of}
use fuse_rs.Session.Late.Accounts.{IsAccounted, run-IsAccounted}
use fuse_rs.Session.Mount.Descriptors.{open_descriptors, Holds, remove}
use fuse_rs.Session.Late.Closed.{over, late-stray, late-reused}
use fuse_rs.Tests.Mounting.{user, mnt, options}
use fuse_rs.Tests.{linux, channel, sender_3, no_files, mknod_bytes}
use fuse_rs.Tests.Sessions.{mounted}

abbrev pub keeper : Filesystem ℕ
keeper = record no_files { mknod = λ _ _ _ _ _ s. (s, Answer.kept) }

abbrev one_read : List Read
one_read = got mknod_bytes ∷ []

abbrev pub kept_reply : ReplyRaw
kept_reply = Raw.new 16045690984229367821 sender_3

keeper_runs :
    run linux keeper mounted one_read
    ≡ record { session = mounted; kept = kept_reply ∷ []; sent = []; ended = waiting }
unfolding run fuse_rs.Abi.Layout.of_bytes fuse_rs.Abi.Layout.size_of fuse_rs.Abi.Opcode.try_from
    fuse_rs.Channel.receive fuse_rs.Ll.Argument.fetch fuse_rs.Ll.Argument.fetch_bytes
    fuse_rs.Ll.Argument.fetch_str fuse_rs.Ll.Argument.new fuse_rs.Ll.Argument.position
    fuse_rs.Ll.Operation.parse fuse_rs.Ll.Request.try_from fuse_rs.Request.Dispatch.dispatch
    fuse_rs.Request.Dispatch.handle fuse_rs.Request.new fuse_rs.Session.Loop.retries
    fuse_rs.Session.Loop.round fuse_rs.Session.Loop.round_of_dispatch
    fuse_rs.Session.Loop.round_of_request fuse_rs.Session.Loop.round_of_result
    fuse_rs.Session.Loop.run_from Raw.drop Raw.send_all Raw.error
    fuse_rs.Request.Dispatch.reply_error Raw.send Raw.new perform
    fuse_rs.Request.Dispatch.handle_initialized fuse_rs.Request.Dispatch.handle_mounted
    fuse_rs.Request.Dispatch.call fuse_rs.Channel.sender fuse_rs.Ll.Request.unique
keeper_runs = refl

abbrev late_packets : List Packet
late_packets =
    sent_of (perform linux (give_entry linux) (record { reply = kept_reply }) Answer.dropped)

late : Later linux (kept_reply ∷ [], []) ([], late_packets)
unfolding perform Raw.drop Raw.new Raw.send
late = uses [] [] kept_reply _ (as_entry Answer.dropped) no_more

run-IsAccounted_example : IsAccounted (requests linux channel one_read) [] late_packets
run-IsAccounted_example =
    run-IsAccounted linux keeper mounted one_read [] late_packets
      (λ e. absurd (ground (arith, ap (λ (m : Run ℕ). m.ended) keeper_runs, e)))
      (subst (λ (m : Run ℕ). Later linux (m.kept, m.sent) ([], late_packets)) (sym keeper_runs)
        late)

-- The file system is unmounted behind that read, and the next mount gets the same descriptor.
abbrev pub ended_reads : List Read
ended_reads = got mknod_bytes ∷ failed (pos 19) ∷ []

keeper_ends : (run linux keeper mounted ended_reads).ended ≡ returned_ok
unfolding run fuse_rs.Abi.Layout.of_bytes fuse_rs.Abi.Layout.size_of fuse_rs.Abi.Opcode.try_from
    fuse_rs.Channel.receive fuse_rs.Ll.Argument.fetch fuse_rs.Ll.Argument.fetch_bytes
    fuse_rs.Ll.Argument.fetch_str fuse_rs.Ll.Argument.new fuse_rs.Ll.Argument.position
    fuse_rs.Ll.Operation.parse fuse_rs.Ll.Request.try_from fuse_rs.Request.Dispatch.dispatch
    fuse_rs.Request.Dispatch.handle fuse_rs.Request.new fuse_rs.Session.Loop.retries
    fuse_rs.Session.Loop.round fuse_rs.Session.Loop.round_of_dispatch
    fuse_rs.Session.Loop.round_of_request fuse_rs.Session.Loop.round_of_result
    fuse_rs.Session.Loop.run_from Raw.drop Raw.send_all Raw.error
    fuse_rs.Request.Dispatch.reply_error Raw.send Raw.new perform
    fuse_rs.Request.Dispatch.handle_initialized fuse_rs.Request.Dispatch.handle_mounted
    fuse_rs.Request.Dispatch.call fuse_rs.Channel.sender fuse_rs.Ll.Request.unique
keeper_ends = refl

keeper_is_over : (run linux keeper mounted ended_reads).ended ≢ waiting
keeper_is_over h = absurd (ground (arith, keeper_ends))

-- What the thread then drops the reply with.
abbrev late_slices : List (List ℕ)
late_slices = (packet sender_3 16045690984229367821 linux.eio []).slices

abbrev same_number : Os
same_number = record user { mounted = λ h path args. pos 3 }

abbrev first_mount : History
first_mount = fuse_mount mnt (mount_args options) ∷ []

abbrev after_keeper : History
after_keeper = over same_number linux keeper [] mounted ended_reads first_mount

abbrev next_mount : History
next_mount = (Mount.new same_number mnt options after_keeper).1

abbrev next_channel : Channel
next_channel = record { mountpoint = mnt; fd = pos 3 }

next_mounts : Mount.new same_number mnt options after_keeper ≡ (some (ok next_channel), next_mount)
unfolding Mount.new with_fuse_args Mount.c_strings Mount.c_string position Mount.open_at
next_mounts = refl

first_mounts : Holds same_number (pos 3 ∷ []) first_mount
unfolding open_descriptors Option.bind
first_mounts = refl

late-stray_example :
    (open_descriptors same_number after_keeper ≡ some [])
    × (open_descriptors same_number (send_reply same_number sender_3 late_slices after_keeper).1
        ≡ none)
unfolding remove
late-stray_example =
    late-stray same_number linux keeper [] mounted ended_reads [] late_slices first_mount
      first_mounts keeper_is_over refl

late-reused_example :
    ((send_reply same_number sender_3 late_slices next_mount).1
      ≡ writev (pos 3) late_slices ∷ next_mount)
    × Holds same_number (pos 3 ∷ []) (writev (pos 3) late_slices ∷ next_mount)
late-reused_example =
    late-reused same_number linux keeper [] mounted ended_reads [] late_slices first_mount
      next_mount mnt options next_channel first_mounts keeper_is_over next_mounts refl
