-- ===== src/Validate/Tasks.antt =====
-- What a run asks of an implementor, what it takes from the answer, and what it stores.
pub mod Commands
pub mod Hashes
pub mod Storage
use musts.Base.{
  ℕ, Bool, true, false, not, Option, none, some, List, [], ◌∷◌, ◌++◌, map, if◌then◌else◌,
}
use musts.Base.Order.{◌==◌, nat_ord, list_ord}
use musts.Base.Text.{Text, text}
use musts.Base.Lists.{filter}
use musts.Base.Map.{BTreeMap, BTreeSet, insert, get, contains_key, keys, add, add_all, from_list}
use musts.Base.Result.{Result, ok, err, db}
use musts.Json.{Json}
use musts.Protocol.{
  Task, IgnoredCheck, ResolveCheck, ResolveRequest, ResolveResponse, SnapshotHandle,
  protocol_version,
}
use musts.Database.{Serde, StoredTask, NoteRow, Db}
use musts.Snapshot.{compute_task_snapshot_hash}
use musts.Validate.Scope.{RelPath, joined}

pub record PreparedCheck : Type 0 where
  pub check_id : Text
  pub local_id : Text
  pub manifest_rel : RelPath
  pub scope_path : Text
  pub depth : ℕ
  pub capability : Text
  pub with_payload : Json
  pub scope_hash : Text
  pub dirty : Bool
  pub effective_files : List Text

pub record CapabilityNote : Type 0 where
  pub capability : Text
  pub note : Text

pub record PersistedTask : Type 0 where
  pub id : Text
  pub capability : Text
  pub title : Text
  pub satisfies_json : Text
  pub scope_hashes_json : Text
  pub task_snapshot_hash : Text
  pub payload_json : Text

-- the four vectors that the answers are collected in
pub record Collected : Type 0 where
  pub tasks : List Task
  pub ignored_checks : List IgnoredCheck
  pub notes : List CapabilityNote
  pub tasks_to_persist : List PersistedTask

all_files : List PreparedCheck → BTreeSet Text → BTreeSet Text
all_files [] s = s
all_files (c ∷ cs) s = all_files cs (add_all c.effective_files s)

resolve_check : PreparedCheck → ResolveCheck
unfolding joined
resolve_check c = record {
  id = c.check_id;
  local_id = c.local_id;
  manifest_path = joined c.manifest_rel;
  scope_path = c.scope_path;
  depth = c.depth;
  with_payload = c.with_payload;
}

unfoldable pub build_resolve_request : Text → Text → List PreparedCheck → ResolveRequest
unfolding all_files resolve_check text
build_resolve_request workspace_root capability dirty = record {
  protocol_version = protocol_version;
  workspace_root = workspace_root;
  capability = capability;
  changed_files = keys (all_files dirty []);
  checks = map resolve_check dirty;
  snapshot = record {
    handle = text "v1:" ++ capability;
    dirty_scopes = keys (add_all (map (λ c. c.scope_path) dirty) []);
  };
}

-- `by_id`
unfoldable pub by_id : List PreparedCheck → BTreeMap Text PreparedCheck
unfolding from_list
by_id dirty = from_list [] (map (λ c. (c.check_id, c)) dirty)

abbrev pub record_hash : Text → Option PreparedCheck → BTreeMap Text Text → BTreeMap Text Text
record_hash s none hashes = hashes
record_hash s (some c) hashes = insert s c.scope_hash hashes

-- the loop that fills `scope_hashes`
unfoldable pub scope_hashes_of :
    BTreeMap Text PreparedCheck → List Text → BTreeMap Text Text → BTreeMap Text Text
unfolding get
scope_hashes_of checks [] hashes = hashes
scope_hashes_of checks (s ∷ ss) hashes =
    scope_hashes_of checks ss (record_hash s (get s checks) hashes)

-- Only the command of a built-in capability is kept.
unfoldable pub strip_command : Bool → Task → Task
strip_command command_trusted task =
    if command_trusted then task else record task { command = none }

module _ (digest : Text → Text) (serde : Serde) where
  unfoldable pub persisted : Text → BTreeMap Text PreparedCheck → Task → PersistedTask
  unfolding scope_hashes_of compute_task_snapshot_hash
  persisted capability checks task =
      let hashes = scope_hashes_of checks task.satisfies [] in
      record {
        id = task.id;
        capability = capability;
        title = task.title;
        satisfies_json = serde.texts.encode task.satisfies;
        scope_hashes_json = serde.hashes.encode hashes;
        task_snapshot_hash = compute_task_snapshot_hash digest hashes;
        payload_json = serde.task.encode task;
      }

  unfoldable pub ingest_resolve_response :
      ResolveResponse → Text → Bool → List PreparedCheck → Collected → Collected
  unfolding strip_command persisted by_id
  ingest_resolve_response response capability command_trusted dirty so_far =
      let tasks = map (strip_command command_trusted) response.tasks in
      record {
        tasks = so_far.tasks ++ tasks;
        ignored_checks = so_far.ignored_checks ++ response.ignored_checks;
        notes =
            so_far.notes ++ map (λ n. record { capability = capability; note = n }) response.notes;
        tasks_to_persist =
            so_far.tasks_to_persist ++ map (persisted capability (by_id dirty)) tasks;
      }

abbrev pub stored_row : ℕ → PersistedTask → StoredTask
stored_row now t = record {
  capability = t.capability;
  title = t.title;
  satisfies_json = t.satisfies_json;
  scope_hashes_json = t.scope_hashes_json;
  task_snapshot_hash = t.task_snapshot_hash;
  payload_json = t.payload_json;
  created_at = now;
}

-- The rows of `tasks`, whose primary key is the id.
unfoldable pub insert_tasks :
    ℕ → List PersistedTask → BTreeMap Text StoredTask → Option (BTreeMap Text StoredTask)
unfolding get insert
insert_tasks now [] table = some table
insert_tasks now (t ∷ ts) table =
    let rest = insert_tasks now ts (insert t.id (stored_row now t) table) in
    if contains_key t.id table then none else rest

abbrev pub note_rows : ℕ → List CapabilityNote → List NoteRow
note_rows now = map (λ n. record { capability = n.capability; note = n.note; created_at = now })

unfoldable pub commit_tasks :
    ℕ → List CapabilityNote → Option (BTreeMap Text StoredTask) → Db → Result (Unit {0}) × Db
commit_tasks now notes none d = (err db, d)
commit_tasks now notes (some table) d =
    (ok tt, record d { tasks = table; resolve_notes = note_rows now notes })

-- One transaction: the tables are emptied and filled again, or left as they were.
unfoldable pub persist_tasks :
    List PersistedTask → List CapabilityNote → ℕ → Db → Result (Unit {0}) × Db
unfolding commit_tasks
persist_tasks tasks notes now d = commit_tasks now notes (insert_tasks now tasks []) d

unfoldable pub load_prior_task_snapshot_hashes : Db → BTreeMap Text Text
load_prior_task_snapshot_hashes d = map (λ e. (e.0, e.1.task_snapshot_hash)) d.tasks

abbrev same_hash : Text → Option Text → Bool
same_hash hash none = false
same_hash hash (some h) = h == hash

unfoldable pub repeated_task_ids : BTreeMap Text Text → List PersistedTask → List Text
unfolding get filter
repeated_task_ids prior tasks =
    map (λ t. t.id) (filter (λ t. same_hash t.task_snapshot_hash (get t.id prior)) tasks)
