-- ===== src/Record/Examples.antt =====
-- A recording that turns one check green, and the theorem at it.
use musts.Base.{ℕ, ◌≡◌, refl, true, false, Option, inr, none, some, [], ◌∷◌, if◌then◌else◌}
use musts.Base.Order.{◌==◌, nat_ord, pair_ord, list_ord}
use musts.Base.Text.{Text, text, join}
use musts.Base.Lists.{any, find}
use musts.Base.Map.{BTreeMap, get, insert}
use musts.Base.Result.{Error, ok, err}
use musts.Json.{Json, Items, Fields}
use musts.Protocol.{Task}
use musts.Ledger.{record_entry}
use musts.Ledger.Reader.{read_lock}
use musts.Ledger.Disk.{absent, load, save}
use musts.Database.{
  Serde, StoredTask, is_green_in, is_green, fetch_task, insert_atomic, insert_rows, conflicts,
  same_key,
}
use musts.Session.{Session}
use musts.Evidence.{Env, evidence_rows, record_all, save_changed, persist_accepted, stored_hashes}
use musts.Validate.Run.{CurrentScope}
use musts.Bazel.Events.{Invocation, EventLibrary, parse_events}
use musts.Bazel.Problem.{invocation_problem}
use musts.Bazel.Targets.{targets_proven}
use musts.Record.{
  RecordEnv, IsRecordEnv, judge_all, judge_check, targets_of, persist_proven, record_checks,
  record_invocation, accepted_evidence, read_invocation, resolve_id, record_run, provides, newer,
}
use musts.Record.Proven.{IsProven}
use musts.Record.Safety.{record_run-only_judged}

abbrev sample_task : Task
sample_task = record {
  id = 116 ∷ [];
  extension = 98 ∷ [];
  title = [];
  satisfies = (99 ∷ []) ∷ [];
  parallelizable = true;
  instructions = [];
  evidence_contract = record { text = record { required = true; description = none }; assets = [] };
  command = none;
}

abbrev serde : Serde
serde = record {
  texts = record { encode = join (44 ∷ []); decode = λ t. some (t ∷ []) };
  hashes = record { encode = λ m. []; decode = λ t. some ((99 ∷ [], t) ∷ []) };
  task = record { encode = λ t. t.id; decode = λ t. some sample_task };
  submission = λ s. [];
  response = λ r. [];
}

abbrev evidence_env : Env
evidence_env = record {
  digest = λ t. t;
  serde = serde;
  from_slice = read_lock;
  workspace_root = [];
  now_unix = 7;
  submission_id = 115 ∷ [];
  descriptors = ok [];
  registry = [];
  run_evidence = λ d c r. err Error.io;
  describe_asset = λ p. err Error.io;
  compute_current_scope_hashes = λ s. (ok ((99 ∷ [], 104 ∷ []) ∷ []), s);
}

-- `{ key: v }`
abbrev object_of : Text → Json → Json
object_of key v = Json.object (Fields.field key v Fields.end)

-- `{ id: { kind: id }, kind: body }`
abbrev event_of : Text → Json → Json → Json
event_of kind id body =
    Json.object (Fields.field (text "id") (object_of kind id) (Fields.field kind body Fields.end))

-- the events of `bazel test //a:t`, stamped with the hash `h` for the check `c`, which a byte stands for
abbrev event_at : ℕ → Option Json
event_at b =
    if b == 49
    then some (
        event_of (text "started") Json.null (
          Json.object (
            Fields.field (text "command") (Json.string (text "test")) (
              Fields.field (text "startTimeMillis") (Json.string (text "5"))
                (Fields.field (text "uuid") (Json.string (text "u1")) Fields.end)))))
    else if b == 50
    then some (
        event_of (text "workspaceStatus") Json.null (
          object_of (text "item") (
            Json.array (
              Items.cons
                (Json.object (
                  Fields.field (text "key") (Json.string (text "MUSTS_SCOPES"))
                    (Fields.field (text "value") (Json.string []) Fields.end)))
                Items.nil))))
    else if b == 51
    then some (
        event_of (text "testSummary") (object_of (text "label") (Json.string (text "//a:t")))
          (object_of (text "overallStatus") (Json.string (text "PASSED"))))
    else if b == 52
    then some (
        Json.object (
          Fields.field (text "id") (object_of (text "buildFinished") Json.null)
            (Fields.field (text "lastMessage") (Json.boolean true) Fields.end)))
    else none

abbrev event_line : Text → Option Json
event_line [] = none
event_line (b ∷ s) = event_at b

abbrev event_library : EventLibrary
event_library = record {
  from_str = event_line;
  stamp_from_str = λ t. some ((99 ∷ [], 104 ∷ []) ∷ []);
  rfc3339_ms = λ t. none;
}

abbrev env : RecordEnv
env = record {
  evidence = evidence_env;
  compute_current_scopes = λ s. (
    ok (
        (99 ∷ [], record { hash = 104 ∷ []; files = record { rel_path = []; mtime_ns = 4 } ∷ [] })
        ∷ []),
    s,
  );
  declared_checks = ok (
      (
        99 ∷ [],
        (
          [],
          Json.object (
              Fields.field (text "targets")
                (Json.array (Items.cons (Json.string (text "//a:t")) Items.nil)) Fields.end),
        ),
      )
      ∷ []);
  bep_path = text "/e";
  read = λ path. some (text "1\n2\n3\n4\n");
  event_library = event_library;
  in_workspace = λ path. true;
  print = λ j. [];
}

env-IsRecordEnv : IsRecordEnv env
env-IsRecordEnv = record { evidence_records = λ s. refl }

abbrev before : Session
before = record {
  db = record {
    file_fingerprints = [];
    scope_snapshots = [];
    tasks =
        (
          116 ∷ [],
          record {
            capability = text "bazel/test";
            title = [];
            satisfies_json = 99 ∷ [];
            scope_hashes_json = 104 ∷ [];
            task_snapshot_hash = [];
            payload_json = [];
            created_at = 0;
          },
        )
        ∷ [];
    resolve_notes = [];
    evidence_records = [];
  };
  musts_dir = record {
    lock_file = absent;
    lock_writable = true;
    gitattributes = absent;
    gitattributes_writable = true;
  };
}

was_open : is_green before.db (99 ∷ []) (104 ∷ []) ≡ false
unfolding is_green is_green_in any
was_open = refl

turns_green : is_green (record_run env (116 ∷ []) before).1.db (99 ∷ []) (104 ∷ []) ≡ true
unfolding is_green is_green_in record_run resolve_id fetch_task get list_ord text record_invocation
    record_checks judge_all judge_check targets_of persist_proven persist_accepted insert_atomic
    insert_rows conflicts same_key any evidence_rows record_all record_entry load save_changed save
    provides parse_events find invocation_problem targets_proven insert newer accepted_evidence
turns_green = refl

record_run-only_judged_example :
    (inv : Invocation) × (read_invocation env ≡ inr inv)
    × (invocation_problem env.in_workspace inv ≡ none)
    × (task_id : Text) × (stored : StoredTask) × (declared : BTreeMap Text (Text × Json))
    × (current : BTreeMap Text CurrentScope) × (fetch_task task_id before.db ≡ some stored)
    × (stored.capability ≡ text "bazel/test")
    × (env.declared_checks ≡ ok declared)
    × ((env.compute_current_scopes before).0 ≡ ok current)
    × IsProven declared inv (stored_hashes env.evidence stored) current (99 ∷ []) (104 ∷ [])
record_run-only_judged_example =
    record_run-only_judged env env-IsRecordEnv (116 ∷ []) before (99 ∷ []) (104 ∷ []) was_open
      turns_green
