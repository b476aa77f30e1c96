-- ===== src/Validate/AgainExamples.antt =====
-- A submission for the check `root/c`, and the preparation of the next run.
use musts.Base.{◌≡◌, refl, true, Option, none, some, List, [], ◌∷◌, ◌++◌}
use musts.Base.Order.{nat_ord, list_ord}
use musts.Base.Text.{Text, text, join}
use musts.Base.Lists
use musts.Base.Lists.{All, find, any, filter}
use musts.Base.Map.{get, insert, from_list}
use musts.Base.Result.{Error, ok, err}
use musts.Json.{Json}
use musts.Protocol.{Task}
use musts.Snapshot.{pairs_bytes, field_bytes, recompute_task_snapshot_hash, current_pairs}
use musts.Extension.{BuiltinCapability, lookup, find_capability}
use musts.Ledger.{LedgerLock, record_entry}
use musts.Ledger.Disk.{absent, load, save}
use musts.Database.{
  Serde, StoredTask, is_green, is_green_in, fetch_task, insert_atomic, insert_rows, conflicts,
  same_key,
}
use musts.Session.{Session}
use musts.Evidence.{
  Env, SubmissionInputs, EvidenceSubmissionResult, submit, stored_hash, stored_hashes,
  submit_stored, describe_all, judge, conclude, split_claims, accept, with_hashes, persist_accepted,
  evidence_rows, record_all, save_changed,
}
use musts.Validate.Scope.{
  Check, LoadedManifest, joined, normalise_rel_path, is_active, filter_effective_files,
  effective_files_for, rel_starts_with_dir, strip_scope_prefix, normalise_prefix,
  descendant_prefixes, is_descendant, prefix_is_strict_ancestor,
}
use musts.Validate.Tasks.{PreparedCheck, persist_tasks}
use musts.Validate.Checks.{
  legacy_scope_hash, ValidateEnv, validate_check, capability_implemented, compile_path_filter,
  compile_glob_set, effective_files, already_green, persist_scope_snapshot,
}
use musts.Validate.Run.{
  is_already_green, Workspace, ValidateReport, or_empty, all_checks, validate_checks, prepare,
  prepare_checks, group_by_capability, finish, run,
}
use musts.Validate.Files.{WalkedFile, compute_scope_file_inputs, add_files, add_file, content_hash}
use musts.Validate.Declaration.{build_capability_index}
use musts.Ledger.{save_body}
use musts.Validate.Run.Again.{IsOther, AsksFor, submit-IsOther}

abbrev root_c : Text
root_c = text "root/c"

abbrev hash : Text
hash = text "h"

abbrev task : Task
task = record {
  id = text "t";
  extension = text "b";
  title = [];
  satisfies = root_c ∷ [];
  parallelizable = true;
  instructions = [];
  evidence_contract = record { text = record { required = true; description = none }; assets = [] };
  command = none;
}

abbrev serde : Serde
serde = record {
  texts = record { encode = join (text ","); decode = λ t. some (root_c ∷ []) };
  hashes = record { encode = λ m. []; decode = λ t. some ((root_c, hash) ∷ []) };
  task = record { encode = λ t. t.id; decode = λ t. some task };
  submission = λ s. [];
  response = λ r. [];
}

abbrev accepting : BuiltinCapability
accepting = record {
  uses = text "b";
  schema = Json.null;
  resolve = λ r. ok (record { protocol_version = 1; tasks = []; ignored_checks = []; notes = [] });
  evidence = λ r. ok (record {
    protocol_version = 1;
    accepted = true;
    satisfies = root_c ∷ [];
    summary = none;
    normalized_assets = [];
    missing = [];
    message = none;
  });
}

-- the parser, at the one text that it is asked to read here
abbrev recorded : LedgerLock
recorded = record { version = 1; satisfied = ((root_c, hash), tt) ∷ [] }

abbrev from_slice : Text → Option LedgerLock
from_slice bytes = some recorded

abbrev evidence_env : Env
evidence_env = record {
  digest = λ t. t;
  serde = serde;
  from_slice = from_slice;
  workspace_root = [];
  now_unix = 7;
  submission_id = text "s";
  descriptors = ok [];
  registry = accepting ∷ [];
  run_evidence = λ d c r. err Error.io;
  describe_asset = λ p. err Error.io;
  compute_current_scope_hashes = λ s. (ok ((root_c, hash) ∷ []), s);
}

abbrev inputs : SubmissionInputs
inputs = record { task_id = text "t"; text = none; asset_paths = [] }

abbrev row : StoredTask
row = record {
  capability = text "b";
  title = [];
  satisfies_json = [];
  scope_hashes_json = [];
  task_snapshot_hash = root_c ++ 0 ∷ hash ++ 0 ∷ [];
  payload_json = [];
  created_at = 0;
}

abbrev before : Session
before = record {
  db = record {
    file_fingerprints = [];
    scope_snapshots = [];
    tasks = (text "t", row) ∷ [];
    resolve_notes = [];
    evidence_records = [];
  };
  musts_dir = record {
    lock_file = absent;
    lock_writable = true;
    gitattributes = absent;
    gitattributes_writable = true;
  };
}

abbrev after : Session
after = (submit evidence_env inputs before).1

abbrev result : EvidenceSubmissionResult
result = record {
  task_id = text "t";
  submission_id = text "s";
  satisfied = root_c ∷ [];
  summary = none;
}

submits : submit evidence_env inputs before ≡ (ok result, after)
unfolding submit fetch_task get list_ord submit_stored recompute_task_snapshot_hash current_pairs
    from_list insert pairs_bytes field_bytes describe_all find_capability lookup find judge conclude
    split_claims Lists.contains accept with_hashes stored_hash persist_accepted insert_atomic
    insert_rows conflicts same_key any evidence_rows record_all record_entry load save_changed save
    text
submits = refl

reported : Lists.contains root_c result.satisfied ≡ true
unfolding Lists.contains list_ord text
reported = refl

-- every scope hashes as `h`
abbrev validate_env : ValidateEnv
validate_env = record {
  digest = λ t. hash;
  serde = serde;
  normalise = λ t. t;
  printer = record { debug = λ t. t; literal = λ t. t };
  glob_set = λ field patterns. err Error.io;
  schema_error = λ schema payload. none;
  registry = accepting ∷ [];
  run_resolve = λ d c r. err Error.io;
  inapplicable_reason = λ check prefix files. [];
  workspace_root = [];
}

abbrev declared : Text → Check
declared id = record {
  local_id = id;
  uses = text "b";
  with_payload = Json.null;
  paths = [];
  exclude_paths = [];
}

abbrev manifest : LoadedManifest
manifest = record {
  rel_path = text "MUSTS.yml" ∷ [];
  bytes = ok [];
  checks = (text "c", declared (text "c")) ∷ (text "d", declared (text "d")) ∷ [];
  scope_prefix = [];
}

abbrev file : WalkedFile
file = record {
  rel_path = text "a" ∷ [];
  metadata = ok (record { mtime_ns = 1; size_bytes = 2 });
  hash_file = ok (text "x");
}

abbrev workspace : Workspace
workspace = record { manifests = manifest ∷ []; descriptors = []; files = file ∷ []; now = 8 }

abbrev report : ValidateReport
report = record { tasks = []; ignored_checks = []; notes = []; repeated_task_ids = [] }

abbrev left : Session
left = (run validate_env workspace from_slice after).1

runs : run validate_env workspace from_slice after ≡ (ok report, left)
unfolding run validate_checks validate_check capability_implemented compute_scope_file_inputs
    add_files add_file content_hash normalise_rel_path joined join get insert
    musts.Database.fingerprint_for prepare_checks compile_path_filter compile_glob_set is_active
    persist_scope_snapshot effective_files filter_effective_files effective_files_for filter any
    rel_starts_with_dir strip_scope_prefix normalise_prefix descendant_prefixes is_descendant
    prefix_is_strict_ancestor list_ord prepare is_already_green legacy_scope_hash already_green
    is_green is_green_in finish text musts.Validate.Run.report all_checks build_capability_index
    load group_by_capability lookup musts.Validate.Run.resolve_all musts.Validate.Run.resolve
    persist_tasks submit fetch_task submit_stored recompute_task_snapshot_hash current_pairs
    from_list pairs_bytes field_bytes describe_all find_capability find judge conclude split_claims
    Lists.contains accept with_hashes stored_hash persist_accepted insert_atomic insert_rows
    conflicts same_key evidence_rows record_all record_entry save_changed save musts.Ledger.contains
    musts.Ledger.decimal musts.Ledger.satisfied_line musts.Ledger.entry_lines
    musts.Ledger.entry_line musts.Ledger.yaml_quote musts.Base.Text.lines musts.Base.Text.replace
    musts.Base.Text.starts_with musts.Ledger.is_marker musts.Ledger.has_conflict_markers
    musts.Base.Text.is_utf8 musts.Ledger.Disk.ensure_union_merge_attribute save_body
    musts.Validate.Checks.validate_with_payload musts.Validate.Checks.capability_schema
    musts.Validate.Scope.check_id musts.Validate.Scope.scope_path_for
    musts.Validate.Scope.root_scope musts.Validate.Checks.scope_hash_of
    musts.Validate.Tasks.insert_tasks musts.Validate.Tasks.commit_tasks
    musts.Validate.Tasks.ingest_resolve_response
    musts.Validate.Tasks.load_prior_task_snapshot_hashes musts.Validate.Tasks.repeated_task_ids
    musts.Snapshot.compute_scope_hash musts.Validate.Tasks.by_id musts.Database.upsert_fingerprint
runs = refl

submit-IsOther_example :
    (stored : StoredTask) × (fetch_task (text "t") before.db ≡ some stored)
    × (per_check : List PreparedCheck) × AsksFor validate_env workspace from_slice after per_check
    × ((capability : Text)
        → All
            (IsOther root_c (stored_hash (stored_hashes evidence_env stored) root_c))
            (or_empty (get capability (group_by_capability per_check []))))
submit-IsOther_example =
    submit-IsOther validate_env workspace evidence_env inputs from_slice before after left result
      report root_c submits reported runs
