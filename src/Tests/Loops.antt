-- ===== src/Tests/Loops.antt =====
-- The session loop on the reads of a short mount: interrupted, one request, unmounted.
use fuse_rs.Base.{◌≡◌, arith, refl}
use fuse_rs.Channel.{got, failed}
use fuse_rs.Session.Loop.{run, returned_ok}
use fuse_rs.Session.Loop.Answers.{AllSettled, requests, run-AllSettled}
use fuse_rs.Session.Loop.Ending.{WhyEnded, run-WhyEnded}
use fuse_rs.Tests.{linux, channel, no_files}
use fuse_rs.Tests.Sessions.{fresh, reads}

run-WhyEnded_example : WhyEnded linux reads (run linux no_files fresh reads).ended
run-WhyEnded_example = run-WhyEnded linux no_files fresh reads

-- Interrupted, one request, unmounted.
reads_end : (run linux no_files fresh reads).ended ≡ returned_ok
unfolding run fuse_rs.Abi.Layout.of_bytes fuse_rs.Abi.Layout.size_of fuse_rs.Abi.Opcode.try_from
    fuse_rs.Channel.receive fuse_rs.Ll.Argument.fetch fuse_rs.Ll.Argument.fetch_bytes
    fuse_rs.Ll.Argument.fetch_str fuse_rs.Ll.Argument.new fuse_rs.Ll.Argument.position
    fuse_rs.Ll.Operation.parse fuse_rs.Ll.Request.try_from fuse_rs.Request.Dispatch.dispatch
    fuse_rs.Request.Dispatch.handle fuse_rs.Request.new fuse_rs.Session.Loop.retries
    fuse_rs.Session.Loop.round fuse_rs.Session.Loop.round_of_dispatch
    fuse_rs.Session.Loop.round_of_request fuse_rs.Session.Loop.round_of_result
    fuse_rs.Session.Loop.run_from fuse_rs.Reply.Raw.drop fuse_rs.Reply.Raw.send_all
    fuse_rs.Reply.Raw.error fuse_rs.Request.Dispatch.reply_error fuse_rs.Reply.Raw.send
    fuse_rs.Reply.Raw.new
reads_end = refl

run-AllSettled_example :
    AllSettled
      (requests linux channel reads)
      (run linux no_files fresh reads).kept
      (run linux no_files fresh reads).sent
run-AllSettled_example =
    run-AllSettled linux no_files fresh reads (λ e. absurd (ground (arith, reads_end, e)))
