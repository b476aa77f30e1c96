-- ===== src/Validate/Run.antt =====
-- `run`: the whole of `musts validate`, and `compute_current_scope_hashes`. Warnings are not modelled.
pub mod Rerun
pub mod ReadOnly
pub mod Green
pub mod Again
use musts.Base.{
  ℕ, Bool, true, false, not, ◌&&◌, ◌||◌, Option, none, some, List, [], ◌∷◌, ◌++◌, map,
  if◌then◌else◌,
}
use musts.Base.Order.{◌==◌, nat_ord, list_ord}
use musts.Base.Text.{Text}
use musts.Base.Lists.{is_empty}
use musts.Base.Map.{BTreeMap, insert, get, contains_key}
use musts.Base.Result.{Error, missing_extension, Result, ok, err}
use musts.Json.{Json}
use musts.Protocol.{Task, IgnoredCheck, ResolveRequest, ResolveResponse}
use musts.Ledger.{LedgerLock}
use musts.Ledger.Disk.{load}
use musts.Database.{Db}
use musts.Extension.{Capability, ExtensionDescriptor, BuiltinCapability, lookup}
use musts.Session.{Session, Exec, pure, raise, lift, gets, on_db, ◌>>=◌, ◌>>◌}
use musts.Validate.Scope.{
  RelPath, Check, LoadedManifest, PathFilter, is_active, scope_path_for, check_id, scope_depth,
  normalise_prefix,
}
use musts.Validate.Files.{WalkedFile, compute_scope_file_inputs}
use musts.Validate.Tasks.{
  PreparedCheck, CapabilityNote, Collected, build_resolve_request, ingest_resolve_response,
  persist_tasks, load_prior_task_snapshot_hashes, repeated_task_ids,
}
use musts.Validate.Declaration.{CapabilityIndex, build_capability_index}
use musts.Validate.Checks.{
  ValidateEnv, compile_path_filter, effective_files, scope_hash_of, legacy_scope_hash,
  already_green, persist_scope_snapshot, validate_check,
}

-- what step 1 and step 2 find, the files, and the time
pub record Workspace : Type 0 where
  pub manifests : List LoadedManifest
  pub descriptors : List ExtensionDescriptor
  pub files : List WalkedFile
  pub now : ℕ

pub record ValidateReport : Type 0 where
  pub tasks : List Task
  pub ignored_checks : List IgnoredCheck
  pub notes : List CapabilityNote
  pub repeated_task_ids : List Text

pub record ScopeFile : Type 0 where
  pub rel_path : Text
  pub mtime_ns : ℕ

pub record CurrentScope : Type 0 where
  pub hash : Text
  pub files : List ScopeFile

-- `for m in &manifests { for (_, check) in &m.parsed.checks { .. } }`
checks_of : LoadedManifest → BTreeMap Text Check → List (LoadedManifest × Check)
checks_of m [] = []
checks_of m ((_, c) ∷ cs) = (m, c) ∷ checks_of m cs

unfoldable pub all_checks : List LoadedManifest → List (LoadedManifest × Check)
unfolding checks_of
all_checks [] = []
all_checks (m ∷ ms) = checks_of m m.checks ++ all_checks ms

abbrev pub or_empty : Option (List PreparedCheck) → List PreparedCheck
or_empty none = []
or_empty (some cs) = cs

-- `by_capability`
unfoldable pub group_by_capability :
    List PreparedCheck → BTreeMap Text (List PreparedCheck) → BTreeMap Text (List PreparedCheck)
group_by_capability [] groups = groups
group_by_capability (c ∷ cs) groups = group_by_capability cs (
    if c.dirty
    then insert c.capability (or_empty (get c.capability groups) ++ c ∷ []) groups
    else groups)

module _ (env : ValidateEnv) (w : Workspace) where
  unfoldable pub validate_checks :
      CapabilityIndex → List (LoadedManifest × Check) → Result (Unit {0})
  validate_checks index [] = ok tt
  validate_checks index ((m, check) ∷ rest) =
      musts.Base.Result.◌>>◌ (validate_check env index m check) (validate_checks index rest)

  abbrev pub cid_of : LoadedManifest → Check → Text
  cid_of m check = check_id (scope_path_for m.rel_path) check.local_id

  -- `already_green`, for a check with its files
  unfoldable pub is_already_green :
      CapabilityIndex → LedgerLock → LoadedManifest → Check → List (Text × Text) → Db → Result Bool
  is_already_green index ledger_lock m check files d =
      already_green env d ledger_lock (cid_of m check)
        (scope_hash_of env w.manifests m check index files)
        (legacy_scope_hash env w.manifests m check w.descriptors files)

  unfoldable pub prepare :
      CapabilityIndex → LoadedManifest → Check → List (Text × Text) → Bool → PreparedCheck
  prepare index m check files green = record {
    check_id = cid_of m check;
    local_id = check.local_id;
    manifest_rel = m.rel_path;
    scope_path = scope_path_for m.rel_path;
    depth = scope_depth (scope_path_for m.rel_path);
    capability = check.uses;
    with_payload = check.with_payload;
    scope_hash = scope_hash_of env w.manifests m check index files;
    dirty = not green;
    effective_files = map (λ f. f.0) files;
  }

  skip_check :
      BTreeMap Text Text
      → LoadedManifest
      → Check
      → Exec (List PreparedCheck × List IgnoredCheck)
      → Exec (List PreparedCheck × List IgnoredCheck)
  skip_check scope_files m check others = do
    (per_check, inapplicable) ← others
    pure (
      per_check,
      record {
        id = cid_of m check;
        reason =
            env.inapplicable_reason check (normalise_prefix env.normalise m.scope_prefix)
              scope_files;
      }
          ∷ inapplicable,
    )

  keep_check :
      CapabilityIndex
      → LedgerLock
      → LoadedManifest
      → Check
      → List (Text × Text)
      → Exec (List PreparedCheck × List IgnoredCheck)
      → Exec (List PreparedCheck × List IgnoredCheck)
  keep_check index ledger_lock m check files others = do
    persist_scope_snapshot env (cid_of m check) (scope_hash_of env w.manifests m check index files)
        w.now
    green ← λ s. (is_already_green index ledger_lock m check files s.db, s)
    (per_check, inapplicable) ← others
    pure (prepare index m check files green ∷ per_check, inapplicable)

  -- Step 4: the prepared checks, and those that do not apply.
  unfoldable pub prepare_checks :
      CapabilityIndex
      → LedgerLock
      → BTreeMap Text Text
      → List (LoadedManifest × Check)
      → Exec (List PreparedCheck × List IgnoredCheck)
  unfolding skip_check keep_check
  prepare_checks index ledger_lock scope_files [] = pure ([], [])
  prepare_checks index ledger_lock scope_files ((m, check) ∷ rest) =
      let others = prepare_checks index ledger_lock scope_files rest in
      lift (compile_path_filter env check) >>= λ path_filter.
      let files = effective_files env w.manifests m check path_filter scope_files in
      if is_active path_filter && is_empty files
      then skip_check scope_files m check others
      else keep_check index ledger_lock m check files others

  -- `expect` panics where neither implements the capability, which step 3 has excluded.
  unfoldable pub resolve :
      Text
      → Option (ExtensionDescriptor × Capability)
      → Option BuiltinCapability
      → ResolveRequest
      → Result ResolveResponse
  resolve capability (some (d, cap)) builtin request = env.run_resolve d cap request
  resolve capability none (some b) request = b.resolve request
  resolve capability none none request = err (missing_extension [] capability)

  abbrev first : Option Error → Error → Option Error
  first none e = some e
  first (some earlier) e = some earlier

  abbrev is_external : Option (ExtensionDescriptor × Capability) → Bool
  is_external none = false
  is_external (some _) = true

  absorb :
      Result ResolveResponse
      → Text
      → Bool
      → List PreparedCheck
      → Collected × Option Error
      → Collected × Option Error
  absorb (ok response) capability trusted checks (c, first_error) = (
    ingest_resolve_response env.digest env.serde response capability trusted checks c,
    first_error,
  )
  absorb (err e) capability trusted checks (c, first_error) = (c, first first_error e)

  -- step 5: each capability is asked, and the first error is kept
  unfoldable pub resolve_all :
      CapabilityIndex
      → BTreeMap Text (List PreparedCheck)
      → Collected × Option Error
      → Collected × Option Error
  unfolding absorb
  resolve_all index [] so_far = so_far
  resolve_all index ((capability, checks) ∷ groups) so_far = resolve_all index groups (
      absorb
        (resolve capability (get capability index) (lookup env.registry capability)
          (build_resolve_request env.workspace_root capability checks))
        capability (not (is_external (get capability index))) checks so_far)

  unfoldable pub report :
      Option Error → Collected → List IgnoredCheck → List Text → Exec ValidateReport
  report (some e) c inapplicable repeated = raise e
  report none c inapplicable repeated = pure (record {
    tasks = c.tasks;
    ignored_checks = inapplicable ++ c.ignored_checks;
    notes = c.notes;
    repeated_task_ids = repeated;
  })

  abbrev nothing_collected : Collected
  nothing_collected = record { tasks = []; ignored_checks = []; notes = []; tasks_to_persist = [] }

  -- what follows once the checks are prepared
  unfoldable pub finish :
      CapabilityIndex → List PreparedCheck → List IgnoredCheck → Exec ValidateReport
  unfolding report
  finish index per_check inapplicable =
      let (c, first_error) =
        resolve_all index (group_by_capability per_check []) (nothing_collected, none) in
      do
        prior ← gets (λ s. load_prior_task_snapshot_hashes s.db)
        on_db (persist_tasks c.tasks_to_persist c.notes w.now)
        report first_error c inapplicable (repeated_task_ids prior c.tasks_to_persist)

  module _ (from_slice : Text → Option LedgerLock) where
    unfoldable pub run : Exec ValidateReport
    run = do
      ledger_lock ← λ s. (load from_slice s.musts_dir, s)
      lift (validate_checks (build_capability_index w.descriptors) (all_checks w.manifests))
      (scope_files, _) ← compute_scope_file_inputs env.normalise w.now w.files
      (per_check, inapplicable) ←
          prepare_checks (build_capability_index w.descriptors) ledger_lock scope_files
            (all_checks w.manifests)
      finish (build_capability_index w.descriptors) per_check inapplicable

  -- the files of a scope that the inputs know, with their real case
  unfoldable pub scope_files_of : BTreeMap Text (Text × ℕ) → List (Text × Text) → List ScopeFile
  unfolding get
  scope_files_of meta [] = []
  scope_files_of meta ((rel, _) ∷ files) =
      let rest = scope_files_of meta files in
      elim (get rel meta) [
        | none ↦ rest
        | some (rel_path, mtime_ns) ↦ record { rel_path = rel_path; mtime_ns = mtime_ns } ∷ rest
      ]

  -- the loop of `compute_current_scopes`
  unfoldable pub current_scopes :
      CapabilityIndex
      → BTreeMap Text Text
      → BTreeMap Text (Text × ℕ)
      → List (LoadedManifest × Check)
      → BTreeMap Text CurrentScope
      → Result (BTreeMap Text CurrentScope)
  current_scopes index scope_files meta [] out = ok out
  current_scopes index scope_files meta ((m, check) ∷ rest) out =
      musts.Base.Result.◌>>=◌ (compile_path_filter env check) λ path_filter.
        let files = effective_files env w.manifests m check path_filter scope_files in
        let scope : CurrentScope = record {
          hash = scope_hash_of env w.manifests m check index files;
          files = scope_files_of meta files;
        } in
        current_scopes index scope_files meta rest (
          if is_active path_filter && is_empty files
          then out
          else insert (cid_of m check) scope out)

  unfoldable pub compute_current_scopes : Exec (BTreeMap Text CurrentScope)
  compute_current_scopes = do
    (scope_files, meta) ← compute_scope_file_inputs env.normalise w.now w.files
    lift (
        current_scopes (build_capability_index w.descriptors) scope_files meta
          (all_checks w.manifests) [])

  unfoldable pub compute_current_scope_hashes : Exec (BTreeMap Text Text)
  compute_current_scope_hashes = do
    scopes ← compute_current_scopes
    pure (map (λ e. (e.0, e.1.hash)) scopes)

  -- the loop of `declared_checks`
  unfoldable pub declared_from :
      List (LoadedManifest × Check) → BTreeMap Text (Text × Json) → BTreeMap Text (Text × Json)
  unfolding insert
  declared_from [] out = out
  declared_from ((m, check) ∷ rest) out =
      declared_from rest (insert (cid_of m check) (check.uses, check.with_payload) out)

  unfoldable pub declared_checks : BTreeMap Text (Text × Json)
  unfolding declared_from
  declared_checks = declared_from (all_checks w.manifests) []
