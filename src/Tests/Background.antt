-- ===== src/Tests/Background.antt =====
-- A background session whose file system keeps the reply to MKNOD in its state: the handle is dropped,
-- then the thread ends.
use fuse_rs.Base.{ℕ, ◌≡◌, refl, arith, true, [], ◌∷◌, none, pos}
use fuse_rs.Os.{History, close}
use fuse_rs.Channel.{got, failed}
use fuse_rs.Channel.Mount.{unmount}
use fuse_rs.Reply.Raw
use fuse_rs.Filesystem.{perform}
use fuse_rs.Session.Loop.{Run, again, stop, returned_ok, started, advance, halt, round, run}
use fuse_rs.Session.Mount.{send_all}
use fuse_rs.Session.Mount.Last.{last_packets}
use fuse_rs.Session.Loop.Keeps.{refusals}
use fuse_rs.Session.Background.{
  Background, Steps, goes_on, leaves, unmounts, drops, nothing, «then», finished, new,
}
use fuse_rs.Session.Background.Calls.{Made, Steps-Made}
use fuse_rs.Tests.{linux, channel, mknod_bytes}
use fuse_rs.Tests.Sessions.{mounted}
use fuse_rs.Tests.Mounting.{user}
use fuse_rs.Tests.Late.{keeper, kept_reply, ended_reads}

keeps : round linux keeper mounted (got mknod_bytes) ≡ again mounted (kept_reply ∷ []) []
unfolding fuse_rs.Abi.Layout.of_bytes fuse_rs.Abi.Layout.size_of fuse_rs.Abi.Opcode.try_from
    fuse_rs.Channel.receive fuse_rs.Ll.Argument.fetch fuse_rs.Ll.Argument.fetch_bytes
    fuse_rs.Ll.Argument.fetch_str fuse_rs.Ll.Argument.new fuse_rs.Ll.Argument.position
    fuse_rs.Ll.Operation.parse fuse_rs.Ll.Request.try_from fuse_rs.Request.Dispatch.dispatch
    fuse_rs.Request.Dispatch.handle fuse_rs.Request.new fuse_rs.Session.Loop.retries round
    fuse_rs.Session.Loop.round_of_dispatch fuse_rs.Session.Loop.round_of_request
    fuse_rs.Session.Loop.round_of_result fuse_rs.Session.Loop.run_from Raw.drop Raw.send_all
    Raw.error fuse_rs.Request.Dispatch.reply_error Raw.send Raw.new perform
    fuse_rs.Request.Dispatch.handle_initialized fuse_rs.Request.Dispatch.handle_mounted
    fuse_rs.Request.Dispatch.call fuse_rs.Channel.sender fuse_rs.Ll.Request.unique
keeps = refl

ends : round linux keeper mounted (failed (pos 19)) ≡ stop returned_ok []
unfolding round fuse_rs.Session.Loop.round_of_result fuse_rs.Session.Loop.retries
    fuse_rs.Channel.receive
ends = refl

abbrev kept_one : Run ℕ
kept_one = advance (started linux keeper mounted) mounted (kept_reply ∷ []) []

abbrev calls : History
calls =
    (unmount user channel.mountpoint (
      close channel.fd
      ∷ (send_all user (last_packets linux (true ∷ []) (kept_reply ∷ []))
          (unmount user channel.mountpoint []).1).1)).1

abbrev ended : Background ℕ × History
ended = ((finished (halt kept_one returned_ok []), none), calls)

steps : Steps user linux keeper (true ∷ []) ended_reads (new user linux keeper mounted, []) ended
unfolding new send_all
steps =
    «then» (goes_on (got mknod_bytes) mounted (kept_reply ∷ []) [] keeps) (
      «then» drops
        («then» (leaves (failed (pos 19)) returned_ok [] ends) («then» unmounts nothing)))

Steps-Made_example :
    Made
      (refusals linux channel.fd (true ∷ []) (run linux keeper mounted ended_reads).kept)
      channel
      []
      (run linux keeper mounted ended_reads)
      ended
Steps-Made_example =
    Steps-Made user linux keeper (true ∷ []) mounted [] ended_reads ended (omega arith, tt) steps
