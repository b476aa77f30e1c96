-- ===== src/Evidence/Examples.antt =====
-- A submission on a small workspace, and the theorems at it.
use musts.Base.{arith, subst, ◌≡◌, refl, true, false, none, some, List, [], ◌∷◌}
use musts.Base.Order.{nat_ord, pair_ord, list_ord}
use musts.Base.Text.{Text, join}
use musts.Base.Lists
use musts.Base.Lists.{any, find}
use musts.Base.Map.{get, insert, from_list}
use musts.Base.Result.{Error, ok, err}
use musts.Json.{Json}
use musts.Protocol.{Task, EvidenceValidationResponse}
use musts.Ledger.{entry, record_entry}
use musts.Ledger.Reader.{read_lock}
use musts.Ledger.Disk.{absent, load, save}
use musts.Database.{
  Serde, StoredTask, is_green_in, is_green, fetch_task, insert_atomic, insert_rows, conflicts,
  same_key,
}
use musts.Snapshot.{recompute_task_snapshot_hash, current_pairs, pairs_bytes, field_bytes}
use musts.Extension.{BuiltinCapability, lookup, find_capability}
use musts.Session.{Session}
use musts.Evidence.Defs.{
  AcceptedEvidence, Env, SubmissionInputs, EvidenceSubmissionResult, persist_accepted,
  evidence_rows, record_all, save_changed, describe_all, rejection_message, stored_hash,
  with_hashes,
}
use musts.Evidence.Submit.{
  stored_satisfies, stored_hashes, judge, split_claims, accept, conclude, submit_stored, submit,
}
use musts.Evidence.Reload.{persist_accepted-Loads}
use musts.Ledger.Disk.Parser.{read_lock-IsLedgerParser}
use musts.Ledger.Disk.Plain.{AllStorable}
use musts.Ledger.{LedgerLock, default}
use musts.Evidence.Persist.{Loads, Recorded, persist_accepted-Recorded}
use musts.Evidence.Freshness.{IsScopeHasher, Fresh, submit-only_claims}
use musts.Evidence.Success.{submit-Recorded}
use musts.Evidence.Refusal.{conclude-overclaim, conclude-rejected}

abbrev sample_task : Task
sample_task = record {
  id = 116 ∷ [];
  extension = 98 ∷ [];
  title = [];
  satisfies = (99 ∷ []) ∷ [];
  parallelizable = true;
  instructions = [];
  evidence_contract = record { text = record { required = true; description = none }; assets = [] };
  command = none;
}

-- the checks column holds one check, and the hashes column the hash of the check `c`
abbrev sample_serde : Serde
sample_serde = record {
  texts = record { encode = join (44 ∷ []); decode = λ t. some (t ∷ []) };
  hashes = record { encode = λ m. []; decode = λ t. some ((99 ∷ [], t) ∷ []) };
  task = record { encode = λ t. t.id; decode = λ t. some sample_task };
  submission = λ s. [];
  response = λ r. [];
}

abbrev accepting : BuiltinCapability
accepting = record {
  uses = 98 ∷ [];
  schema = Json.null;
  resolve = λ r. err Error.io;
  evidence = λ r. ok (record {
    protocol_version = 1;
    accepted = true;
    satisfies = (99 ∷ []) ∷ [];
    summary = none;
    normalized_assets = [];
    missing = [];
    message = none;
  });
}

abbrev sample_env : Env
sample_env = record {
  digest = λ t. t;
  serde = sample_serde;
  from_slice = read_lock;
  workspace_root = [];
  now_unix = 7;
  submission_id = 115 ∷ [];
  descriptors = ok [];
  registry = accepting ∷ [];
  run_evidence = λ d c r. err Error.io;
  describe_asset = λ p. err Error.io;
  compute_current_scope_hashes = λ s. (ok ((99 ∷ [], 104 ∷ []) ∷ []), s);
}

abbrev sample_inputs : SubmissionInputs
sample_inputs = record { task_id = 116 ∷ []; text = none; asset_paths = [] }

abbrev sample_row : StoredTask
sample_row = record {
  capability = 98 ∷ [];
  title = [];
  satisfies_json = 99 ∷ [];
  scope_hashes_json = 104 ∷ [];
  task_snapshot_hash = 99 ∷ 0 ∷ 104 ∷ 0 ∷ [];
  payload_json = [];
  created_at = 0;
}

abbrev before : Session
before = record {
  db = record {
    file_fingerprints = [];
    scope_snapshots = [];
    tasks = (116 ∷ [], sample_row) ∷ [];
    resolve_notes = [];
    evidence_records = [];
  };
  musts_dir = record {
    lock_file = absent;
    lock_writable = true;
    gitattributes = absent;
    gitattributes_writable = true;
  };
}

abbrev after : Session
after = (submit sample_env sample_inputs before).1

abbrev sample_result : EvidenceSubmissionResult
sample_result = record {
  task_id = 116 ∷ [];
  submission_id = 115 ∷ [];
  satisfied = (99 ∷ []) ∷ [];
  summary = none;
}

sample-IsScopeHasher : IsScopeHasher sample_env
sample-IsScopeHasher = record {
  evidence_records = λ s. refl;
  tasks = λ s. refl;
  musts_dir = λ s. refl;
}

sample_runs : submit sample_env sample_inputs before ≡ (ok sample_result, after)
unfolding submit fetch_task get list_ord submit_stored recompute_task_snapshot_hash current_pairs
    from_list insert pairs_bytes field_bytes describe_all find_capability lookup find judge conclude
    split_claims Lists.contains accept with_hashes stored_hash persist_accepted insert_atomic
    insert_rows conflicts same_key any evidence_rows record_all record_entry load save_changed save
sample_runs = refl

was_open : is_green before.db (99 ∷ []) (104 ∷ []) ≡ false
unfolding is_green is_green_in any
was_open = refl

turns_green : is_green after.db (99 ∷ []) (104 ∷ []) ≡ true
unfolding is_green is_green_in submit fetch_task get list_ord submit_stored
    recompute_task_snapshot_hash current_pairs from_list insert pairs_bytes field_bytes describe_all
    find_capability lookup find judge conclude split_claims Lists.contains accept with_hashes
    stored_hash persist_accepted insert_atomic insert_rows conflicts same_key any evidence_rows
    record_all record_entry load save_changed save
turns_green = refl

submit-only_claims_example :
    (stored : StoredTask) × (fetch_task (116 ∷ []) before.db ≡ some stored)
    × (Lists.contains (99 ∷ []) (stored_satisfies sample_env stored) ≡ true)
    × ((104 ∷ []) ≡ stored_hash (stored_hashes sample_env stored) (99 ∷ []))
    × Fresh sample_env before stored
submit-only_claims_example =
    submit-only_claims sample_env sample_inputs sample-IsScopeHasher before (99 ∷ []) (104 ∷ [])
      was_open turns_green

reported : Lists.contains (99 ∷ []) sample_result.satisfied ≡ true
unfolding Lists.contains list_ord
reported = refl

submit-Recorded_example :
    (stored : StoredTask) × (fetch_task (116 ∷ []) before.db ≡ some stored)
    × (Lists.contains (99 ∷ []) (stored_satisfies sample_env stored) ≡ true)
    × (is_green after.db (99 ∷ []) (stored_hash (stored_hashes sample_env stored) (99 ∷ [])) ≡ true)
    × Recorded sample_env after (99 ∷ []) (stored_hash (stored_hashes sample_env stored) (99 ∷ []))
submit-Recorded_example =
    submit-Recorded sample_env sample_inputs before after sample_result (99 ∷ []) sample_runs
      reported

-- claims the check of the task and another one
abbrev greedy : EvidenceValidationResponse
greedy = record {
  protocol_version = 1;
  accepted = true;
  satisfies = (99 ∷ []) ∷ (100 ∷ []) ∷ [];
  summary = none;
  normalized_assets = [];
  missing = [];
  message = none;
}

abbrev declining : EvidenceValidationResponse
declining = record greedy { accepted = false; satisfies = [] }

claims_foreign :
    (Lists.contains (100 ∷ []) greedy.satisfies ≡ true)
    × (Lists.contains (100 ∷ []) (stored_satisfies sample_env sample_row) ≡ false)
unfolding Lists.contains list_ord
claims_foreign = (refl, refl)

conclude-overclaim_example :
    (unexpected : List Text) × (Lists.contains (100 ∷ []) unexpected ≡ true)
    × (conclude sample_env sample_inputs sample_row [] greedy before
        ≡ (err (Error.evidence_overclaim (116 ∷ []) (98 ∷ []) unexpected), before))
conclude-overclaim_example =
    conclude-overclaim sample_env sample_inputs sample_row [] greedy before (100 ∷ []) refl
      claims_foreign.0 claims_foreign.1

conclude-rejected_example :
    ((conclude sample_env sample_inputs sample_row [] declining after).0
      ≡ err (Error.evidence_rejected (116 ∷ []) (98 ∷ []) (rejection_message declining)))
    × ((conclude sample_env sample_inputs sample_row [] declining after).1.musts_dir
        ≡ after.musts_dir)
    × ((c h : Text)
        → is_green (conclude sample_env sample_inputs sample_row [] declining after).1.db c h
          ≡ is_green after.db c h)
conclude-rejected_example =
    conclude-rejected sample_env sample_inputs sample_row [] declining after refl

abbrev sample_evidence : AcceptedEvidence
sample_evidence = record {
  task_id = 116 ∷ [];
  submission_id = 115 ∷ [];
  checks = (99 ∷ [], 104 ∷ []) ∷ [];
  summary = none;
  submission_json = [];
  result_json = [];
}

abbrev persisted : Session
persisted = (persist_accepted sample_env sample_evidence before).1

persists : persist_accepted sample_env sample_evidence before ≡ (ok tt, persisted)
unfolding persist_accepted insert_atomic insert_rows conflicts any evidence_rows record_all
    record_entry get list_ord load save_changed save
persists = refl

persist_accepted-Recorded_example :
    (Lists.contains (entry (99 ∷ []) (104 ∷ [])) sample_evidence.checks ≡ true
      → (is_green persisted.db (99 ∷ []) (104 ∷ []) ≡ true)
        × Recorded sample_env persisted (99 ∷ []) (104 ∷ []))
    × (Loads sample_env before (99 ∷ []) (104 ∷ [])
        → Recorded sample_env persisted (99 ∷ []) (104 ∷ []))
persist_accepted-Recorded_example =
    persist_accepted-Recorded sample_env sample_evidence before persisted (99 ∷ []) (104 ∷ [])
      persists

storable :
    (lock : LedgerLock)
    → load read_lock before.musts_dir ≡ ok lock
    → AllStorable (record_all sample_evidence.checks lock).0
unfolding load record_all record_entry insert
storable lock loads =
    let same : default ≡ lock = ground arith in
    subst (λ (l : LedgerLock). AllStorable (record_all sample_evidence.checks l).0) same
      (((refl, tt), (refl, tt)), tt)

persist_accepted-Loads_example :
    (Lists.contains (entry (99 ∷ []) (104 ∷ [])) sample_evidence.checks ≡ true
      → Loads sample_env persisted (99 ∷ []) (104 ∷ []))
    × (Loads sample_env before (99 ∷ []) (104 ∷ [])
        → Loads sample_env persisted (99 ∷ []) (104 ∷ []))
persist_accepted-Loads_example =
    persist_accepted-Loads sample_env read_lock-IsLedgerParser sample_evidence before persisted
      (99 ∷ []) (104 ∷ []) storable persists
