-- ===== src/Lib.antt =====
-- fuse-rs: a FUSE library. The kernel driver writes requests to a channel; a session reads them one by
-- one, parses each, calls the method of a file system that it asks for, and the method answers by a
-- reply, which is one packet back to the driver.
--
-- Which file models which part (the parent of a directory of files names its children):
--   Abi         fuse-abi/src/lib.rs: `Abi.Structs` has the structs of the protocol, `Abi.Opcode` the
--               opcodes and their `try_from`, `Abi.Consts` the flags. `Abi.Layout` is `repr(C)`: where
--               a field lies, and a value as bytes; a reference into a buffer is `of_bytes`, a memory
--               copy `to_bytes`. `Abi.Features` has the builds with `abi-7-n` features or on macOS:
--               their version, opcodes, notify codes, flags and layouts.
--   Ll          src/ll: `Ll.Argument` is `ArgumentIterator`, `Ll.Operation` the enum `Operation` and its
--               `parse`, `Ll.Request` is `Request` and `RequestError`. `Ll.Operation.Grammar` says what
--               the bytes of an operation are without an iterator; `Sound` and `Complete` relate `parse`
--               to it; `Wire` writes an operation as the kernel does. `Ll.Request.Spec` is the same for
--               whole packets. `Ll.Macos` has the operations that only macOS has.
--   Reply       src/reply.rs: `Reply.Raw` is `ReplyRaw` with its `Drop`, `Reply.Types` the trait `Reply`
--               as a record of operations and laws, with the reply types that implement it,
--               `Reply.Typed` their methods, `Reply.Directory` is `ReplyDirectory`, `Reply.Attr` the
--               attributes and modes, `Reply.Macos` what macOS sends beside them. Modules named `Readback`
--               have the kernel reading what is sent.
--   Filesystem  the trait of src/lib.rs, as a record of methods over the state of an implementation. A
--               method returns its new state and what becomes of its reply: answered, refused with an
--               error, dropped, kept for later, or lost in a panic of the method.
--               `Filesystem.Default` has the default methods, `Filesystem.Macos` the methods of macOS.
--   Request     src/request.rs: `Request.Dispatch` is `dispatch`, `Request.Args` the arguments that it
--               computes from flags. `Request.Lifecycle` has the steps of a session, `Request.Replies`
--               and `Request.Answered` what is sent, `Request.Negotiation` what INIT agrees on,
--               `Request.Granted` the flags of that in every build,
--               `Request.Handled` and `Request.Settling` have rules for what holds of every dispatch,
--               `Request.Crashing` is about the requests that panic, `Request.Cookie` about the offsets of
--               READDIR, `Request.Listing` has the kernel listing a directory,
--               `Request.Unsupported` is about the default methods, `Request.Macos` about the
--               operations of macOS, `Request.Args.Macos` about its arguments of SETATTR.
--   Examples    examples/hello.rs: `Examples.Hello` is `HelloFS`; examples/null.rs: `Examples.Null` is
--               `NullFS`.
--   Os          what the code asks of the system and of libfuse, recorded as a history of calls, and
--               `fuse_args` of fuse-sys/src/lib.rs.
--   Channel     src/channel.rs: the sender, and `receive` on what `read` returned; `Channel.Mount` has
--               `with_fuse_args`, `Channel::new`, `send`, `unmount` and `drop`.
--   Session     src/session.rs: the session, and in `Session.Loop` its `run` on a list of reads;
--               `Session.Mount` is `mount` of src/lib.rs, `Session.Mount.Last` the replies that are
--               dropped with a file system, `Session.Mount.Descriptors` the descriptors that a
--               history leaves open and `Session.Mount.Kinds` its calls by kind;
--               `Session.Background` is `BackgroundSession` and `spawn_mount`, as steps of the
--               thread and of its handle;
--               `Session.Late` has other threads using the replies that a file system kept,
--               and `Session.Late.Closed` their use when the session is over.
--   Effect, Platform   what running code sends and whether it panics; the constants of libc and the
--               times of the standard library.
--   Base        numbers, bytes and lists that the parts share. Tests has runs at concrete inputs, those
--               of the repository's tests among them.
--
-- Conventions. Bytes, u32, u64 and usize are natural numbers, c_int and i64 integers; casts that cut
-- are written out. The build is the default one, but in `Abi.Features` and in the
-- modules named `Macos`: ABI 7.8, not macOS, 64 bits, little endian. The
-- constants of libc and the capacity that `Vec::with_capacity` gives are the parameter `Libc`. Code
-- that sends returns an `Outcome`: the packets that were sent, and a value or a panic; a panic runs
-- the drops on its way. No loop of the code runs on fuel: every one goes over a list, and a run of
-- the session ends when it does or when the reads are used up. Of the kernel's side, reading
-- directory entries runs on the length of the buffer, and `listing` on how many READDIRs may be sent.
-- In the history of calls of `mount` the packets of a run stand behind each other, since reads are
-- not in it. Padding bytes are zeros.
--
-- Not modelled: what the system calls do (their answers are the parameter `Os`); the Display and Debug
-- implementations and the log; a session on macOS as a whole, where the arms that both builds have are
-- joined with those of macOS; the operations of later versions (the library's `parse` and `dispatch`
-- have none of them), and the single flags of some requests that no code reads;
-- the alignment of the references that a fetch makes; panics of the methods init, destroy and
-- forget, and of a method that has answered or kept its reply; the build script of fuse-sys and `main` of the examples.
mod Base
pub mod Abi
pub mod Ll
pub mod Platform
pub mod Effect
pub mod Os
pub mod Reply
pub mod Filesystem
pub mod Channel
pub mod Session
pub mod Request
pub mod Examples
mod Tests
