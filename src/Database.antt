-- ===== src/Database.antt =====
-- crates/musts-core/src/state/db.rs and evidence/ledger.rs: the SQLite tables as sequences of rows,
-- with the constraints of schema.rs, and the statements that the program runs.
mod Defs
pub mod Laws
pub use Defs.{Codec, Serde, EvidenceRow, StoredTask, NoteRow, FingerprintRow, Db}
unfoldable pub use Defs.{
  same_key, conflicts, insert_rows, insert_atomic, is_green_in, is_green, fetch_task,
  find_task_for_check, find_task_in, fingerprint_for, upsert_fingerprint,
}
