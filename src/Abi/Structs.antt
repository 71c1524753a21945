-- ===== src/Abi/Structs.antt =====
-- The `#[repr(C)]` structs of fuse-abi/src/lib.rs that the default build has.
pub mod Header
pub mod Attr
pub mod Names
pub mod File
pub mod Xattr
pub mod Volume
pub use Header.*
pub use Attr.*
pub use Names.*
pub use File.*
pub use Xattr.*
pub use Volume.*
