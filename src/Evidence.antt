-- ===== src/Evidence.antt =====
-- crates/musts-core/src/evidence/submit.rs: recording the evidence for a task.
mod Defs
mod Submit
pub mod Rows
pub mod Persist
pub mod Reload
pub mod Safety
pub mod Freshness
pub mod Success
pub mod Refusal
mod Examples
pub use Submit.{stored_satisfies, stored_hashes}
pub use Defs.{Env, SubmissionInputs, EvidenceSubmissionResult, AcceptedEvidence}
unfoldable pub use Defs.{
  evidence_rows, record_all, save_changed, persist_accepted, stored_hash, with_hashes,
  record_rejection, missing_evidence_message, rejection_message, describe_all,
}
unfoldable pub use Submit.{split_claims, judge, accept, reject, conclude, submit_stored, submit}
