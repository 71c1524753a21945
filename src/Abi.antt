-- ===== src/Abi.antt =====
-- fuse-abi/src/lib.rs: the kernel interface. The build, but in `Abi.Features`, is the default one: no `abi-7-x` feature (so
-- ABI 7.8), a target that is not macOS, 64-bit and little-endian.
pub mod Layout
pub mod Structs
pub mod Opcode
pub mod Features
pub mod Consts
