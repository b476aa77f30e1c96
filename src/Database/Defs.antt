-- ===== src/Database/Defs.antt =====
-- Tables and statements. A statement fails only on a constraint: other errors of SQLite (a full
-- disk, a locked file) are not modelled. Columns of JSON hold the text that `serde_json` makes,
-- which is the parameter `Serde`.
use musts.Base.Int.{ℤ}
use musts.Base.{ℕ, Bool, ◌&&◌, Option, none, some, List, [], ◌∷◌, ◌++◌, if◌then◌else◌}
use musts.Base.Order.{◌==◌, nat_ord, list_ord}
use musts.Base.Text.{Text}
use musts.Base.Lists.{any, contains}
use musts.Base.Map.{BTreeMap, get, insert}
use musts.Base.Result.{Result, ok, err, db}
use musts.Protocol.{Task, EvidenceSubmission, EvidenceValidationResponse}

-- `serde_json::to_string` and `from_str` at a type.
pub record Codec (A : Type 0) : Type 0 where
  pub encode : A → Text
  pub decode : Text → Option A

pub record Serde : Type 0 where
  pub texts : Codec (List Text)
  pub hashes : Codec (BTreeMap Text Text)
  pub task : Codec Task
  pub submission : EvidenceSubmission → Text
  pub response : EvidenceValidationResponse → Text

pub record EvidenceRow : Type 0 where
  pub task_id : Text
  pub submission_id : Text
  pub check_id : Text
  pub scope_hash : Text
  pub accepted : Bool
  pub summary : Option Text
  pub submission_json : Text
  pub result_json : Text
  pub submitted_at : ℕ

-- A row of `tasks`, without its key.
pub record StoredTask : Type 0 where
  pub capability : Text
  pub title : Text
  pub satisfies_json : Text
  pub scope_hashes_json : Text
  pub task_snapshot_hash : Text
  pub payload_json : Text
  pub created_at : ℕ

pub record NoteRow : Type 0 where
  pub capability : Text
  pub note : Text
  pub created_at : ℕ

-- A row of `file_fingerprints`, without its key. The time is an `i64`; the size is written as an `i64`
-- and read back as the `u64` that it was.
pub record FingerprintRow : Type 0 where
  pub mtime_ns : ℤ
  pub size_bytes : ℕ
  pub content_hash : Text
  pub last_seen_at : ℕ

-- `tasks` is ordered by its primary key, as `ORDER BY task_id` lists it.
pub record Db : Type 0 where
  pub file_fingerprints : BTreeMap Text FingerprintRow
  pub scope_snapshots : BTreeMap Text (Text × ℕ)
  pub tasks : BTreeMap Text StoredTask
  pub resolve_notes : List NoteRow
  pub evidence_records : List EvidenceRow

-- `UNIQUE(task_id, submission_id, check_id)`
unfoldable pub same_key : EvidenceRow → EvidenceRow → Bool
same_key r s =
    r.task_id == s.task_id && r.submission_id == s.submission_id && r.check_id == s.check_id

unfoldable pub conflicts : List EvidenceRow → EvidenceRow → Bool
unfolding any same_key
conflicts table r = any (same_key r) table

unfoldable pub insert_rows : List EvidenceRow → List EvidenceRow → Option (List EvidenceRow)
insert_rows table [] = some table
insert_rows table (r ∷ rs) =
    let rest = insert_rows (table ++ r ∷ []) rs in if conflicts table r then none else rest

commit_rows : Option (List EvidenceRow) → Db → Result (Unit {0}) × Db
commit_rows none d = (err db, d)
commit_rows (some rows) d = (ok tt, record d { evidence_records = rows })

-- One transaction: the first row that breaks the constraint rolls all of them back.
unfoldable pub insert_atomic : List EvidenceRow → Db → Result (Unit {0}) × Db
unfolding commit_rows
insert_atomic rows d = commit_rows (insert_rows d.evidence_records rows) d

unfoldable pub is_green_in : Text → Text → List EvidenceRow → Bool
unfolding any
is_green_in check_id scope_hash table =
    any (λ r. r.check_id == check_id && r.scope_hash == scope_hash && r.accepted) table

unfoldable pub is_green : Db → Text → Text → Bool
unfolding is_green_in
is_green d check_id scope_hash = is_green_in check_id scope_hash d.evidence_records

unfoldable pub fetch_task : Text → Db → Option StoredTask
fetch_task task_id d = get task_id d.tasks

-- `serde_json::from_str(..).unwrap_or_default()`
abbrev texts_or_default : Option (List Text) → List Text
texts_or_default none = []
texts_or_default (some ts) = ts

module _ (serde : Serde) where
  unfoldable pub find_task_in : Text → BTreeMap Text StoredTask → Option Text
  find_task_in check_id [] = none
  find_task_in check_id ((task_id, row) ∷ rows) =
      if contains check_id (texts_or_default (serde.texts.decode row.satisfies_json))
      then some task_id
      else find_task_in check_id rows

  unfoldable pub find_task_for_check : Text → Db → Option Text
  unfolding find_task_in
  find_task_for_check check_id d = find_task_in check_id d.tasks

unfoldable pub fingerprint_for : Text → Db → Option FingerprintRow
fingerprint_for rel_path d = get rel_path d.file_fingerprints

unfoldable pub upsert_fingerprint : Text → FingerprintRow → Db → Db
upsert_fingerprint rel_path row d = record d {
  file_fingerprints = insert rel_path row d.file_fingerprints;
}
