-- ===== src/Abi/Features/Structs.antt =====
-- The `#[repr(C)]` structs of fuse-abi/src/lib.rs that only builds with features or on macOS have.
mod Poll
mod Notices
mod Files
mod Cuse
mod Macos
pub use Poll.*
pub use Notices.*
pub use Files.*
pub use Cuse.*
pub use Macos.*
