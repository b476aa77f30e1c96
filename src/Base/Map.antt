-- ===== src/Base/Map.antt =====
-- Rust's `BTreeMap` and `BTreeSet` as sequences of entries in the order of their keys.
mod Defs
mod Laws
mod Sets
unfoldable pub use Defs.{BTreeMap, BTreeSet, insert, get, contains_key, keys, add, from_list}
unfoldable pub use Sets.{add_all}
pub use Sets.{
  get-keys, get-add_all, add_all-IsSorted, add_all-keys, mem-keys, contains_key-add, get-of_member,
  add_comm,
}
pub use Laws.*
