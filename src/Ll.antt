-- ===== src/Ll.antt =====
-- src/ll: low-level kernel communication, from bytes to requests.
pub mod Argument
pub mod Operation
pub mod Macos
pub mod Request
