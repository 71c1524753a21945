-- ===== src/Reply.antt =====
-- src/reply.rs: replies to requests, and the bytes that they send.
pub mod Raw
pub mod Types
pub mod Attr
pub mod Typed
pub mod Macos
pub mod Directory
