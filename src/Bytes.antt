-- ===== src/Bytes.antt =====
-- Go strings: lists of bytes, with the operations of package strings that the sources use.
mod Text
mod Trim
unfoldable pub use Text.*
unfoldable pub use Trim.*
