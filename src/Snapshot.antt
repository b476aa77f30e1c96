-- ===== src/Snapshot.antt =====
-- crates/musts-core/src/snapshot/: the bytes that a scope hash and a task's snapshot hash are taken
-- of. The hash itself is blake3's, the parameter `digest` (the hexadecimal text of the hash).
mod Defs
pub mod Sorting
pub mod Encoding
pub mod Hash
mod Examples
pub use Defs.{FileFingerprint, ScopeInput, hash_or_empty}
unfoldable pub use Defs.{
  cached_hash, field_bytes, fields_bytes, pairs_bytes, insert_sorted, sort, scope_bytes,
  compute_scope_hash, compute_task_snapshot_hash, recompute_task_snapshot_hash, current_pairs,
}
