-- ===== src/Execute/Examples.antt =====
-- A run of a command that turns a check green, and the theorem at it.
use musts.Base.{◌≡◌, refl, true, none, some, [], ◌∷◌}
use musts.Base.Order.{nat_ord, pair_ord, list_ord}
use musts.Base.Int.{ℤ}
use musts.Base.Text.{join}
use musts.Base.Lists
use musts.Base.Lists.{any, find}
use musts.Base.Map.{get, insert, from_list}
use musts.Base.Result.{Error, ok, err}
use musts.Json.{Json}
use musts.Protocol.{Task}
use musts.Ledger.{record_entry}
use musts.Ledger.Reader.{read_lock}
use musts.Ledger.Disk.{absent, load, save}
use musts.Database.{Serde, StoredTask, fetch_task, insert_atomic, insert_rows, conflicts, same_key}
use musts.Snapshot.{recompute_task_snapshot_hash, current_pairs, pairs_bytes, field_bytes}
use musts.Extension.{BuiltinCapability, lookup, find_capability}
use musts.Session.{Session}
use musts.Evidence.{
  Env, persist_accepted, evidence_rows, record_all, save_changed, describe_all, stored_hash,
  with_hashes, judge, split_claims, accept, conclude, submit_stored, submit,
}
use musts.Execute.{
  RunOutcome, Output, RunEnv, runnable, is_overridden, code_of, was_spawned, is_zero, succeeded,
  inputs_of, submit_log, conclude_run, run_argv, run_trusted, run_known, run_task, execute,
}
use musts.Execute.Allowed.{IsAllowed, execute-IsAllowed}

abbrev sample_task : Task
sample_task = record {
  id = 116 ∷ [];
  extension = 98 ∷ [];
  title = [];
  satisfies = (99 ∷ []) ∷ [];
  parallelizable = true;
  instructions = [];
  evidence_contract = record { text = record { required = true; description = none }; assets = [] };
  command = some ((116 ∷ []) ∷ []);
}

-- the checks column holds one check, and the hashes column the hash of the check `c`
abbrev sample_serde : Serde
sample_serde = record {
  texts = record { encode = join (44 ∷ []); decode = λ t. some (t ∷ []) };
  hashes = record { encode = λ m. []; decode = λ t. some ((99 ∷ [], t) ∷ []) };
  task = record { encode = λ t. t.id; decode = λ t. some sample_task };
  submission = λ s. [];
  response = λ r. [];
}

abbrev accepting : BuiltinCapability
accepting = record {
  uses = 98 ∷ [];
  schema = Json.null;
  resolve = λ r. err Error.io;
  evidence = λ r. ok (record {
    protocol_version = 1;
    accepted = true;
    satisfies = (99 ∷ []) ∷ [];
    summary = none;
    normalized_assets = [];
    missing = [];
    message = none;
  });
}

abbrev sample_env : Env
sample_env = record {
  digest = λ t. t;
  serde = sample_serde;
  from_slice = read_lock;
  workspace_root = [];
  now_unix = 7;
  submission_id = 115 ∷ [];
  descriptors = ok [];
  registry = accepting ∷ [];
  run_evidence = λ d c r. err Error.io;
  describe_asset = λ p. ok (record { path = p; mime = []; size = 1 });
  compute_current_scope_hashes = λ s. (ok ((99 ∷ [], 104 ∷ []) ∷ []), s);
}

abbrev sample_row : StoredTask
sample_row = record {
  capability = 98 ∷ [];
  title = [];
  satisfies_json = 99 ∷ [];
  scope_hashes_json = 104 ∷ [];
  task_snapshot_hash = 99 ∷ 0 ∷ 104 ∷ 0 ∷ [];
  payload_json = [];
  created_at = 0;
}

abbrev before : Session
before = record {
  db = record {
    file_fingerprints = [];
    scope_snapshots = [];
    tasks = (116 ∷ [], sample_row) ∷ [];
    resolve_notes = [];
    evidence_records = [];
  };
  musts_dir = record {
    lock_file = absent;
    lock_writable = true;
    gitattributes = absent;
    gitattributes_writable = true;
  };
}

abbrev run_env : RunEnv
run_env = record {
  before = sample_env;
  output = λ argv. Output.exited [] [] (some (ℤ.pos 0));
  meanwhile = λ s. s;
  relock = ok tt;
  write_log = λ path body. ok tt;
  after = λ path body. sample_env;
  in_temp_dir = λ name. name;
  process_id = 1;
}

abbrev done : Session
done = (execute run_env (116 ∷ []) before).1

abbrev outcome : RunOutcome
outcome = RunOutcome.recorded (116 ∷ []) (record {
  task_id = 116 ∷ [];
  submission_id = 115 ∷ [];
  satisfied = (99 ∷ []) ∷ [];
  summary = none;
})

executes : execute run_env (116 ∷ []) before ≡ (ok outcome, done)
unfolding execute runnable run_task run_known run_trusted is_overridden run_argv succeeded
    was_spawned is_zero code_of conclude_run submit_log inputs_of join submit fetch_task get
    list_ord submit_stored recompute_task_snapshot_hash current_pairs from_list insert pairs_bytes
    field_bytes describe_all find_capability lookup find judge conclude split_claims Lists.contains
    accept with_hashes stored_hash persist_accepted insert_atomic insert_rows conflicts same_key any
    evidence_rows record_all record_entry load save_changed save
executes = refl

execute-IsAllowed_example : IsAllowed run_env (116 ∷ []) before done outcome
execute-IsAllowed_example = execute-IsAllowed run_env (116 ∷ []) before done outcome executes
