-- ===== src/Validate/RunExamples.antt =====
-- A run over one file and one check, and the theorems on files, tasks and runs at it.
use mathlib.Core.List.{Memᴰ}
use mathlib.Core.List.Memᴰ.{head, tail}
use musts.Base.{
  ℕ, ◌≡◌, ◌≢◌, refl, sym, ◌∙◌, ap, true, false, ◌&&◌, none, some, List, [], ◌∷◌, ◌++◌, ◌⊎◌,
}
use musts.Base.Order.{◌==◌, nat_ord, pair_ord, list_ord}
use musts.Base.Text.{Text, join}
use musts.Base.Lists
use musts.Base.Lists.{All, filter, any}
use musts.Base.Map.{BTreeMap, get, insert, from_list}
use musts.Base.Result.{Error, db, ok, err}
use musts.Json.{Json}
use musts.Protocol.{Task, ResolveResponse}
use musts.Ledger.{default}
use musts.Ledger.Reader.{read_lock}
use musts.Ledger.Disk.{absent}
use musts.Database.{Serde, Db, StoredTask, fetch_task, is_green, is_green_in}
use musts.Snapshot.{current_pairs, recompute_task_snapshot_hash}
use musts.Session.{Session}
use musts.Validate.Scope.{
  Check, LoadedManifest, joined, normalise_rel_path, is_active, filter_effective_files,
  effective_files_for, rel_starts_with_dir, strip_scope_prefix, normalise_prefix,
  descendant_prefixes, is_descendant, prefix_is_strict_ancestor,
}
use musts.Validate.Files.{WalkedFile, compute_scope_file_inputs, add_files, add_file, content_hash}
use musts.Validate.Files.Contents.{Current, IsWalk, compute_scope_file_inputs-Current}
use musts.Validate.Tasks.{
  PreparedCheck, PersistedTask, Collected, by_id, scope_hashes_of, persisted,
  ingest_resolve_response, persist_tasks,
}
use musts.Validate.Tasks.Commands.{HasNoCommand, HoldsNoCommand, ingest-HasNoCommand}
use musts.Validate.Tasks.Hashes.{persisted-stale}
use musts.Validate.Tasks.Storage.{has_repeat, row_of, persist_tasks-cases}
use musts.Validate.Checks.{
  legacy_scope_hash, ValidateEnv, compile_path_filter, compile_glob_set, persist_scope_snapshot,
  effective_files, already_green,
}
use musts.Validate.Run.{
  is_already_green, compute_current_scope_hashes, Workspace, or_empty, group_by_capability, prepare,
  prepare_checks, run,
}
use musts.Validate.Run.Rerun.{group_by_capability_lem}
use musts.Validate.Run.ReadOnly.{run-Keeps, scope_hashes-WritesCache}
use musts.Validate.Run.Rerun.{WritesCache}
use musts.Evidence.{Env}
use musts.Evidence.Freshness.{IsScopeHasher}
use musts.Validate.Run.Green.{CleanWhenGreen, prepare_checks-CleanWhenGreen}

abbrev plain : Text → Text
plain t = t

-- the file `x`
abbrev source : WalkedFile
source = record {
  rel_path = (120 ∷ []) ∷ [];
  metadata = ok (record { mtime_ns = 5; size_bytes = 1 });
  hash_file = ok (49 ∷ []);
}

abbrev empty : Session
empty = record {
  db = record {
    file_fingerprints = [];
    scope_snapshots = [];
    tasks = [];
    resolve_notes = [];
    evidence_records = [];
  };
  musts_dir = record {
    lock_file = absent;
    lock_writable = true;
    gitattributes = absent;
    gitattributes_writable = true;
  };
}

abbrev read : Session
read = (compute_scope_file_inputs plain 7 (source ∷ []) empty).1

abbrev found : BTreeMap Text Text × BTreeMap Text (Text × ℕ)
found = ((120 ∷ [], 49 ∷ []) ∷ [], (120 ∷ [], (120 ∷ [], 5)) ∷ [])

reads : compute_scope_file_inputs plain 7 (source ∷ []) empty ≡ (ok found, read)
unfolding compute_scope_file_inputs add_files add_file content_hash normalise_rel_path joined join
    get insert musts.Database.fingerprint_for
reads = refl

source-IsWalk : IsWalk plain 7 (source ∷ [])
source-IsWalk = record { once = only; readable = reading }
  where
    only :
        (f g : WalkedFile)
        → Memᴰ f (source ∷ [])
        → Memᴰ g (source ∷ [])
        → joined f.rel_path ≡ joined g.rel_path
        → f ≡ g
    only f g (head e) (head e') h = e ∙ sym e'
    only f g (tail d) m h = elim d [ ]
    only f g m (tail d) h = elim d [ ]

    reading : (f : WalkedFile) → Memᴰ f (source ∷ []) → (h : Text) × (f.hash_file ≡ ok h)
    reading f (head e) = (49 ∷ [], ap (λ (x : WalkedFile). x.hash_file) e)
    reading f (tail d) = elim d [ ]

nothing_cached : (g : WalkedFile) → Memᴰ g (source ∷ []) → Current empty.db g
unfolding musts.Database.fingerprint_for get
nothing_cached g d row m found known mtime size = cc

compute_scope_file_inputs-Current_example :
    get (normalise_rel_path plain source.rel_path) found.0 ≡ some (49 ∷ [])
compute_scope_file_inputs-Current_example =
    compute_scope_file_inputs-Current plain 7 (source ∷ []) empty read found source (49 ∷ [])
      source-IsWalk nothing_cached reads (head refl) refl

abbrev sample_task : Task
sample_task = record {
  id = 116 ∷ [];
  extension = 98 ∷ [];
  title = [];
  satisfies = (99 ∷ []) ∷ [];
  parallelizable = true;
  instructions = [];
  evidence_contract = record { text = record { required = true; description = none }; assets = [] };
  command = some ((114 ∷ 109 ∷ []) ∷ []);
}

abbrev serde : Serde
serde = record {
  texts = record { encode = join (44 ∷ []); decode = λ t. some (t ∷ []) };
  hashes = record { encode = λ m. []; decode = λ t. some [] };
  task = record { encode = λ t. t.id; decode = λ t. some sample_task };
  submission = λ s. [];
  response = λ r. [];
}

abbrev dirty_check : PreparedCheck
dirty_check = record {
  check_id = 99 ∷ [];
  local_id = 99 ∷ [];
  manifest_rel = [];
  scope_path = [];
  depth = 0;
  capability = 98 ∷ [];
  with_payload = Json.null;
  scope_hash = 104 ∷ [];
  dirty = true;
  effective_files = [];
}

abbrev answer : ResolveResponse
answer = record { protocol_version = 1; tasks = sample_task ∷ []; ignored_checks = []; notes = [] }

abbrev nothing : Collected
nothing = record { tasks = []; ignored_checks = []; notes = []; tasks_to_persist = [] }

ingest-HasNoCommand_example :
    All HasNoCommand
      (ingest_resolve_response plain serde answer (98 ∷ []) false (dirty_check ∷ []) nothing).tasks
    × All
        (HoldsNoCommand serde)
        (ingest_resolve_response plain serde answer
          (98 ∷ [])
          false
          (dirty_check ∷ [])
          nothing).tasks_to_persist
ingest-HasNoCommand_example =
    ingest-HasNoCommand plain serde answer (98 ∷ []) (dirty_check ∷ []) nothing tt tt

abbrev current : BTreeMap Text Text
current = (99 ∷ [], 104 ∷ []) ∷ []

asked_for :
    (get (99 ∷ []) (by_id (dirty_check ∷ [])) ≡ some dirty_check)
    × (get (99 ∷ []) current ≡ some dirty_check.scope_hash)
unfolding get by_id from_list insert list_ord
asked_for = (refl, refl)

-- satisfies a check that nobody asked for
abbrev stray_task : Task
stray_task = record sample_task { satisfies = (120 ∷ []) ∷ [] }

abbrev stored_task : PersistedTask
stored_task = persisted plain serde (98 ∷ []) (by_id (dirty_check ∷ [])) sample_task

persist_tasks-cases_example :
    ((has_repeat (stored_task ∷ []) ≡ false)
      × ((persist_tasks (stored_task ∷ []) [] 7 empty.db).0 ≡ ok tt)
      × ((id : Text)
          → fetch_task id (persist_tasks (stored_task ∷ []) [] 7 empty.db).1
            ≡ row_of 7 id (stored_task ∷ []))
      × ((persist_tasks (stored_task ∷ []) [] 7 empty.db).1.evidence_records
          ≡ empty.db.evidence_records))
    ⊎ ((has_repeat (stored_task ∷ []) ≡ true)
        × (persist_tasks (stored_task ∷ []) [] 7 empty.db ≡ (err db, empty.db)))
persist_tasks-cases_example = persist_tasks-cases (stored_task ∷ []) [] 7 empty.db

group_by_capability_lem_example :
    or_empty (get dirty_check.capability (group_by_capability (dirty_check ∷ []) []))
    ≡ or_empty (get dirty_check.capability [])
      ++ filter (λ c. c.dirty && c.capability == dirty_check.capability) (dirty_check ∷ [])
group_by_capability_lem_example =
    group_by_capability_lem (dirty_check ∷ []) [] dirty_check.capability

abbrev env : ValidateEnv
env = record {
  digest = plain;
  serde = serde;
  normalise = plain;
  printer = record { debug = plain; literal = plain };
  glob_set = λ field patterns. err Error.io;
  schema_error = λ schema payload. none;
  registry = [];
  run_resolve = λ d c r. err Error.io;
  inapplicable_reason = λ check prefix files. [];
  workspace_root = [];
}

abbrev declared : Check
declared = record {
  local_id = 99 ∷ [];
  uses = 98 ∷ [];
  with_payload = Json.null;
  paths = [];
  exclude_paths = [];
}

abbrev manifest : LoadedManifest
manifest = record {
  rel_path = (77 ∷ []) ∷ [];
  bytes = ok [];
  checks = (99 ∷ [], declared) ∷ [];
  scope_prefix = [];
}

abbrev workspace : Workspace
workspace = record { manifests = manifest ∷ []; descriptors = []; files = source ∷ []; now = 7 }

run-Keeps_example :
    ((run env workspace read_lock empty).1.db.evidence_records ≡ empty.db.evidence_records)
    × ((run env workspace read_lock empty).1.musts_dir ≡ empty.musts_dir)
run-Keeps_example = run-Keeps env workspace read_lock empty

abbrev prepared : List PreparedCheck
prepared = prepare env workspace [] manifest declared found.0 false ∷ []

prepares : prepare_checks env workspace [] default found.0 ((manifest, declared) ∷ []) empty ≡ (
  ok (prepared, []),
  (prepare_checks env workspace [] default found.0 ((manifest, declared) ∷ []) empty).1,
)
unfolding prepare_checks compile_path_filter compile_glob_set is_active persist_scope_snapshot
    effective_files filter_effective_files effective_files_for filter any rel_starts_with_dir
    strip_scope_prefix normalise_prefix descendant_prefixes is_descendant prefix_is_strict_ancestor
    list_ord prepare is_already_green legacy_scope_hash already_green is_green is_green_in
    musts.Ledger.contains
prepares = refl

prepare_checks-CleanWhenGreen_example : All (CleanWhenGreen empty default) prepared
prepare_checks-CleanWhenGreen_example =
    prepare_checks-CleanWhenGreen env workspace [] default found.0 ((manifest, declared) ∷ []) empty
      (prepare_checks env workspace [] default found.0 ((manifest, declared) ∷ []) empty).1 prepared
      [] prepares

-- a submission whose scope hasher is the run's
abbrev submission_env : Env
submission_env = record {
  digest = plain;
  serde = serde;
  from_slice = read_lock;
  workspace_root = [];
  now_unix = 7;
  submission_id = [];
  descriptors = ok [];
  registry = [];
  run_evidence = λ d c r. err Error.io;
  describe_asset = λ p. err Error.io;
  compute_current_scope_hashes = compute_current_scope_hashes env workspace;
}

scope_hashes-WritesCache_example :
    ((s : Session) → WritesCache s (submission_env.compute_current_scope_hashes s).1)
    × IsScopeHasher submission_env
scope_hashes-WritesCache_example = scope_hashes-WritesCache env workspace submission_env refl

persisted-stale_example :
    recompute_task_snapshot_hash plain stray_task.satisfies current
    ≢ (persisted plain serde (98 ∷ []) (by_id (dirty_check ∷ [])) stray_task).task_snapshot_hash
unfolding get by_id from_list insert list_ord Lists.contains current_pairs scope_hashes_of
persisted-stale_example =
    persisted-stale plain serde (98 ∷ []) (dirty_check ∷ []) stray_task current (120 ∷ [])
      (λ x y e. e) refl refl (((refl, tt), tt), tt) tt
