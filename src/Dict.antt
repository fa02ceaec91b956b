-- ===== src/Dict.antt =====
-- Go's map[K]V: an association list that holds a key once. What a range over a map yields is left
-- to the caller, which passes the order on; the program never relies on the list's own order.
mod Defs
mod Laws
pub mod Sort
pub use Defs.{Dict, empty, has, IsMap}
unfoldable pub use Defs.{get, put, delete, keys, values, size}
pub use Laws.*
