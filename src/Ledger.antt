-- ===== src/Ledger.antt =====
-- crates/musts-core/src/state/lock.rs: the committed ledger of satisfied checks.
mod Defs
pub mod Quote
pub mod Reader
pub mod Conflict
mod Examples
pub mod Disk
pub mod Laws
pub use Defs.{LedgerLock}
unfoldable pub use Defs.{
  decimal, SatisfiedEntry, entry, supported_version, default, contains, record_entry, yaml_quote,
  entry_line, entry_lines, satisfied_line, save_body, has_conflict_markers, is_marker,
}
