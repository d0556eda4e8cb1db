-- ===== src/Strings.antt =====
-- The functions of Go's package strings that the router calls, over strings as lists of bytes.
mod Defs
pub mod Split
pub mod Trim
unfoldable pub use Defs.{
  Bytes, Bytes-discrete, bytes, first_is, last_is, split, join, cut, trim_left, trim_right, trim,
  has_prefix,
}
