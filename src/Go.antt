-- ===== src/Go.antt =====
-- What the source uses of Go's standard library on text.
pub mod Strings
pub mod Trim
pub mod Split
