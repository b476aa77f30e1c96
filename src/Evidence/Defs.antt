-- ===== src/Evidence/Defs.antt =====
-- The pipeline of `musts evidence`.
use musts.Base.{
  ℕ, Bool, true, false, ◌||◌, Option, none, some, List, [], ◌∷◌, ◌++◌, map, if◌then◌else◌,
}
use musts.Base.Order.{nat_ord, list_ord}
use musts.Base.Text.{Text, text, join}
use musts.Base.Lists.{is_empty}
use musts.Base.Map.{BTreeMap, get}
use musts.Base.Result
use musts.Base.Result.{
  Error, db, missing_extension, task_not_found, evidence_stale, evidence_overclaim,
  evidence_rejected, Result, ok, err,
}
use musts.Protocol.{
  EvidenceAsset, EvidenceValidationRequest, EvidenceValidationResponse, MissingEvidence,
}
use musts.Ledger.{LedgerLock, record_entry}
use musts.Ledger.Disk.{load, save}
use musts.Database.{Serde, EvidenceRow, insert_atomic}
use musts.Extension.{ExtensionDescriptor, Capability, BuiltinCapability}
use musts.Session.{Exec, pure, on_db, on_dir, ◌>>=◌, ◌>>◌}

-- What a submission takes from the rest of the program and from the machine: the digest, the JSON
-- and YAML libraries, the clock, the files of the workspace, and the processes of extensions.
pub record Env : Type 0 where
  pub digest : Text → Text
  pub serde : Serde
  pub from_slice : Text → Option LedgerLock
  pub workspace_root : Text
  pub now_unix : ℕ
  pub submission_id : Text
  pub descriptors : Result (List ExtensionDescriptor)
  pub registry : List BuiltinCapability
  pub run_evidence :
      ExtensionDescriptor
      → Capability
      → EvidenceValidationRequest
      → Result EvidenceValidationResponse
  pub describe_asset : Text → Result EvidenceAsset
  pub compute_current_scope_hashes : Exec (BTreeMap Text Text)

pub record SubmissionInputs : Type 0 where
  pub task_id : Text
  pub text : Option Text
  pub asset_paths : List Text

pub record EvidenceSubmissionResult : Type 0 where
  pub task_id : Text
  pub submission_id : Text
  pub satisfied : List Text
  pub summary : Option Text

pub record AcceptedEvidence : Type 0 where
  pub task_id : Text
  pub submission_id : Text
  pub checks : List (Text × Text)
  pub summary : Option Text
  pub submission_json : Text
  pub result_json : Text

-- One row for each check, all alike but for the check and its hash.
unfoldable pub evidence_rows : ℕ → Bool → AcceptedEvidence → List (Text × Text) → List EvidenceRow
evidence_rows now accepted e [] = []
evidence_rows now accepted e ((check_id, scope_hash) ∷ cs) =
    record {
      task_id = e.task_id;
      submission_id = e.submission_id;
      check_id = check_id;
      scope_hash = scope_hash;
      accepted = accepted;
      summary = e.summary;
      submission_json = e.submission_json;
      result_json = e.result_json;
      submitted_at = now;
    }
    ∷ evidence_rows now accepted e cs

-- the loop over `lock.record`, and whether any entry was new
unfoldable pub record_all : List (Text × Text) → LedgerLock → LedgerLock × Bool
record_all [] lock = (lock, false)
record_all ((check, scope_hash) ∷ cs) lock =
    let (lock', new) = record_entry lock check scope_hash in
    let (final, changed) = record_all cs lock' in (final, new || changed)

unfoldable pub save_changed : LedgerLock × Bool → Exec (Unit {0})
save_changed (lock, true) = on_dir (save lock)
save_changed (lock, false) = pure tt

unfoldable pub persist_accepted : Env → AcceptedEvidence → Exec (Unit {0})
persist_accepted env evidence = do
  on_db (insert_atomic (evidence_rows env.now_unix true evidence evidence.checks))
  lock ← λ s. (load env.from_slice s.musts_dir, s)
  save_changed (record_all evidence.checks lock)

-- `stored_scope_hashes.get(cid).cloned().unwrap_or_default()`
unfoldable pub stored_hash : BTreeMap Text Text → Text → Text
stored_hash hashes check = elim (get check hashes) [ none ↦ [] | some h ↦ h ]

unfoldable pub with_hashes : BTreeMap Text Text → List Text → List (Text × Text)
with_hashes hashes = map (λ check. (check, stored_hash hashes check))

-- Best effort: an error of the database is dropped.
unfoldable pub record_rejection : Env → AcceptedEvidence → Exec (Unit {0})
record_rejection env evidence s =
    (ok tt, (on_db (insert_atomic (evidence_rows env.now_unix false evidence evidence.checks)) s).1)

missing_items : List MissingEvidence → List Text
unfolding text
missing_items [] = []
missing_items (m ∷ ms) = (m.kind ++ 32 ∷ 226 ∷ 128 ∷ 148 ∷ 32 ∷ m.message) ∷ missing_items ms

unfoldable pub missing_evidence_message : List MissingEvidence → Text
unfolding text missing_items join
missing_evidence_message [] = text "rejected with no further detail"
missing_evidence_message (m ∷ ms) = text "missing: " ++ join (text "; ") (missing_items (m ∷ ms))

message_part : Option Text → List Text
message_part none = []
message_part (some m) = m ∷ []

missing_part : List MissingEvidence → List Text
missing_part [] = []
missing_part (m ∷ ms) = missing_evidence_message (m ∷ ms) ∷ []

unfoldable pub rejection_message : EvidenceValidationResponse → Text
unfolding message_part missing_part text join
rejection_message response =
    let parts = message_part response.message ++ missing_part response.missing in
    if is_empty parts
    then text "rejected by extension"
    else join (32 ∷ 226 ∷ 128 ∷ 148 ∷ 32 ∷ []) parts

unfoldable pub describe_all :
    (Text → Result EvidenceAsset) → List Text → Result (List EvidenceAsset)
describe_all describe [] = ok []
describe_all describe (p ∷ ps) =
    Result.◌>>=◌ (describe p) λ a. Result.◌>>=◌ (describe_all describe ps) λ rest. ok (a ∷ rest)
