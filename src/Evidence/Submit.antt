-- ===== src/Evidence/Submit.antt =====
-- `submit`: the whole of `musts evidence`, in the order of the source.
use musts.Base.{Option, none, some, List, [], ◌∷◌, ◌++◌, if◌then◌else◌}
use musts.Base.Order.{◌==◌, nat_ord, list_ord}
use musts.Base.Text.{Text, text}
use musts.Base.Lists.{contains, is_empty}
use musts.Base.Map.{BTreeMap}
use musts.Base.Result.{
  db, missing_extension, task_not_found, evidence_stale, evidence_overclaim, evidence_rejected,
  Result, err,
}
use musts.Protocol.{
  Task, EvidenceAsset, EvidenceValidationRequest, EvidenceValidationResponse, protocol_version,
}
use musts.Database.{StoredTask, fetch_task}
use musts.Snapshot.{recompute_task_snapshot_hash}
use musts.Extension.{ExtensionDescriptor, Capability, BuiltinCapability, lookup, find_capability}
use musts.Session.{Exec, pure, raise, lift, ok_or, ensure, ◌>>=◌, ◌>>◌}
use musts.Evidence.Defs.{
  Env, SubmissionInputs, EvidenceSubmissionResult, AcceptedEvidence, persist_accepted, with_hashes,
  record_rejection, rejection_message, describe_all,
}

-- `from_str(..).unwrap_or_default()`
abbrev pub or_default {ℓ} : {A : Type ℓ} → List A → Option (List A) → List A
or_default d none = d
or_default d (some a) = a

abbrev pub stored_satisfies : Env → StoredTask → List Text
stored_satisfies env stored = or_default [] (env.serde.texts.decode stored.satisfies_json)

abbrev pub stored_hashes : Env → StoredTask → BTreeMap Text Text
stored_hashes env stored = or_default [] (env.serde.hashes.decode stored.scope_hashes_json)

-- The claims of a response: those of the task, and the others.
unfoldable pub split_claims : List Text → List Text → List Text × List Text
split_claims stored [] = ([], [])
split_claims stored (id ∷ ids) =
    let (accepted_now, unexpected) = split_claims stored ids in
    if contains id stored then (id ∷ accepted_now, unexpected) else (accepted_now, id ∷ unexpected)

module _ (env : Env) (inputs : SubmissionInputs) where
  -- the implementor: an installed extension before a built-in
  unfoldable pub judge :
      Text
      → Option (ExtensionDescriptor × Capability)
      → Option BuiltinCapability
      → EvidenceValidationRequest
      → Result EvidenceValidationResponse
  judge capability (some (d, c)) builtin request = env.run_evidence d c request
  judge capability none (some b) request = b.evidence request
  judge capability none none request = err (missing_extension inputs.task_id capability)

  unfoldable pub evidence_request :
      StoredTask → Task → List EvidenceAsset → EvidenceValidationRequest
  unfolding text
  evidence_request stored task assets = record {
    protocol_version = protocol_version;
    workspace_root = env.workspace_root;
    task = record {
      id = task.id;
      extension = task.extension;
      satisfies = stored_satisfies env stored;
      evidence_contract = task.evidence_contract;
    };
    submission = record { text = inputs.text; assets = assets };
    snapshot = record { handle = text "v1:" ++ stored.capability; dirty_scopes = [] };
  }

  abbrev pub evidence_of :
      List (Text × Text)
      → Option Text
      → List EvidenceAsset
      → EvidenceValidationResponse
      → AcceptedEvidence
  evidence_of checks summary assets response = record {
    task_id = inputs.task_id;
    submission_id = env.submission_id;
    checks = checks;
    summary = summary;
    submission_json = env.serde.submission (record { text = inputs.text; assets = assets });
    result_json = env.serde.response response;
  }

  unfoldable pub reject :
      StoredTask → List EvidenceAsset → EvidenceValidationResponse → Exec EvidenceSubmissionResult
  reject stored assets response = do
    record_rejection env (
        evidence_of (with_hashes (stored_hashes env stored) (stored_satisfies env stored))
          response.message assets response)
    raise (evidence_rejected inputs.task_id stored.capability (rejection_message response))

  unfoldable pub accept :
      StoredTask
      → List EvidenceAsset
      → EvidenceValidationResponse
      → List Text × List Text
      → Exec EvidenceSubmissionResult
  accept stored assets response (accepted_now, unexpected) = do
    ensure (is_empty unexpected) (evidence_overclaim inputs.task_id stored.capability unexpected)
    persist_accepted env (
        evidence_of (with_hashes (stored_hashes env stored) accepted_now) response.summary assets
          response)
    pure (record {
      task_id = inputs.task_id;
      submission_id = env.submission_id;
      satisfied = accepted_now;
      summary = response.summary;
    })

  -- what happens once the implementor has answered
  unfoldable pub conclude :
      StoredTask → List EvidenceAsset → EvidenceValidationResponse → Exec EvidenceSubmissionResult
  conclude stored assets response =
      if response.accepted
      then accept stored assets response
          (split_claims (stored_satisfies env stored) response.satisfies)
      else reject stored assets response

  unfoldable pub submit_stored : StoredTask → Exec EvidenceSubmissionResult
  submit_stored stored = do
    task ← ok_or (env.serde.task.decode stored.payload_json) db
    current ← env.compute_current_scope_hashes
    ensure
        (recompute_task_snapshot_hash env.digest (stored_satisfies env stored) current
          == stored.task_snapshot_hash)
        (evidence_stale inputs.task_id)
    assets ← lift (describe_all env.describe_asset inputs.asset_paths)
    descriptors ← lift env.descriptors
    response ← lift (
        judge stored.capability (find_capability descriptors stored.capability)
          (lookup env.registry stored.capability) (evidence_request stored task assets))
    conclude stored assets response

  unfoldable pub submit : Exec EvidenceSubmissionResult
  submit = do
    stored ← λ s. ok_or (fetch_task inputs.task_id s.db) (task_not_found inputs.task_id) s
    submit_stored stored
