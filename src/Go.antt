-- ===== src/Go.antt =====
-- What the source uses of Go and its standard library: signed 64-bit integers, error values and
-- the text functions of `strings`.
pub mod Int64
pub mod Errors
pub mod Action
pub mod Strings
pub mod Json
pub mod Text
pub mod Numbers
pub mod Flags
