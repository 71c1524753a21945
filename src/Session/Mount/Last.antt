-- ===== src/Session/Mount/Last.antt =====
-- What is sent when the file system of a session of src/session.rs is dropped: a reply that it has in its
-- state is dropped with it.
use fuse_rs.Base.{Bool, true, false, List, [], ◌∷◌, ◌++◌}
use fuse_rs.Platform.{Libc}
use fuse_rs.Effect.{Packet, Outcome, done, panicked}
use fuse_rs.Reply.Raw.{ReplyRaw, drop}

abbrev pub packets_of : Outcome (Unit {0}) → List Packet
packets_of (done _ sent) = sent
packets_of (panicked sent) = sent

-- Of each kept reply the list `held` says whether the state has it, or, as behind the end of the list,
-- another thread.
unfoldable pub last_packets : Libc → List Bool → List ReplyRaw → List Packet
last_packets c [] kept = []
last_packets c (b ∷ held) [] = []
last_packets c (true ∷ held) (r ∷ kept) = packets_of (drop c r) ++ last_packets c held kept
last_packets c (false ∷ held) (r ∷ kept) = last_packets c held kept
