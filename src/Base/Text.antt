-- ===== src/Base/Text.antt =====
-- Rust's `str` and `String`: the bytes of the UTF-8 encoding. Byte order is the order of `Ord for
-- str`. The literals below are ASCII.
mod Defs
mod Laws
unfoldable pub use Defs.{
  Text, text, starts_with, strip_prefix, ends_with_byte, contains_text, lines, split_on, join,
  replace, is_utf8, from_utf8_lossy, trim_start, trim, first_word,
}
pub use Laws.*
