-- ===== src/Examples.antt =====
-- The file systems of the folder examples.
pub mod Hello
pub mod Null
