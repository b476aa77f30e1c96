-- ===== src/Record.antt =====
-- crates/musts-core/src/record.rs: evidence from a bazel invocation that has already run. The
-- wordings of a reason are constructors.
pub mod Proven
pub mod Safety
mod Examples
use musts.Base.{
  ℕ, ◌+◌, ◌*◌, ◌≡◌, Bool, true, false, not, ◌||◌, ◌⊎◌, inl, inr, Option, none, some, List, [], ◌∷◌,
  ◌++◌, map, if◌then◌else◌, ltb,
}
use musts.Base.Order.{◌==◌, nat_ord, list_ord}
use musts.Base.Text.{Text, text}
use musts.Base.Lists.{any, find, is_empty}
use musts.Base.Map.{BTreeMap, BTreeSet, get}
use musts.Base.Int.{ℤ, exceeds, scale}
use musts.Base.Result
use musts.Base.Result.{Error, task_not_found, evidence_stale, record_unsupported, Result, ok, err}
use musts.Json
use musts.Json.{Json, Items, Fields, as_array, strings_in}
use musts.Bazel.Events.{Invocation, EventLibrary, Unreadable, parse_events}
use musts.Bazel.Problem.{InvocationProblem, invocation_problem, short_uuid}
use musts.Bazel.Targets.{Unproven, targets_proven}
use musts.Database.{StoredTask, Db, fetch_task, find_task_for_check}
use musts.Protocol.{EvidenceAsset}
use musts.Ledger.{decimal}
use musts.Extension.Descriptor.{join_path}
use musts.Extension.{Capability, ExtensionDescriptor}
use musts.Session.{Session, Exec, pure, raise, lift, ok_or, ensure, ◌>>=◌, ◌>>◌}
use musts.Evidence.{Env, AcceptedEvidence, persist_accepted, stored_satisfies, stored_hashes}
use musts.Validate.Run.{ScopeFile, CurrentScope}

-- why no check of an invocation can be recorded
pub data Unusable : Type 0 where
  unreadable : Unreadable → Unusable
  problem : InvocationProblem → Unusable

-- why a check stays pending
pub data Reason : Type 0 where
  no_stamp : Reason
  not_stamped no_scope no_targets : Text → Reason
  tree_changed : Text → Text → Text → Reason
  modified : ScopeFile → ℤ → Reason
  unproven : Unproven → Reason
  unusable : Unusable → Reason

pub data Outcome : Type 0 where
  recorded : ℕ → Outcome
  pending : Reason → Outcome

pub record CheckVerdict : Type 0 where
  pub check_id : Text
  pub outcome : Outcome

pub record RecordOutcome : Type 0 where
  pub task_id : Text
  pub invocation : Text
  pub verdicts : List CheckVerdict

-- What recording takes from the rest of the program and from the machine: `declared_checks` and
-- `compute_current_scopes` of a run, the path of the build event file as it is given, the reading of a
-- file, whether a canonical path is the workspace's, and the printing of a JSON value.
pub record RecordEnv : Type 0 where
  pub evidence : Env
  pub compute_current_scopes : Exec (BTreeMap Text CurrentScope)
  pub declared_checks : Result (BTreeMap Text (Text × Json))
  pub bep_path : Text
  pub read : Text → Option Text
  pub event_library : EventLibrary
  pub in_workspace : Text → Bool
  pub print : Json → Text

-- The scope hasher writes no evidence.
pub record IsRecordEnv (env : RecordEnv) : Type 0 where
  pub evidence_records :
      (s : Session) → (env.compute_current_scopes s).1.db.evidence_records ≡ s.db.evidence_records

-- the targets of the payload, where it has an array of them
unfoldable pub targets_of : Option (Text × Json) → Option (List Text)
unfolding Json.get as_array strings_in text
targets_of none = none
targets_of (some (_, payload)) = elim (Json.get (text "targets") payload) [
  | none ↦ none
  | some t ↦ elim (as_array t) [ none ↦ none | some items ↦ some (strings_in items) ]
]

outcome_of : Unproven ⊎ ℕ → Outcome
outcome_of (inl why) = pending (unproven why)
outcome_of (inr passed) = recorded passed

abbrev pub now_hash : Option CurrentScope → Text
now_hash none = []
now_hash (some scope) = scope.hash

-- `stored_hashes.get(check) == Some(&now)`
abbrev pub stored_is : Option Text → Text → Bool
stored_is none now = false
stored_is (some h) now = h == now

unfoldable pub provides : Text → BTreeMap Text Capability → Bool
provides uses [] = false
provides uses ((_, c) ∷ cs) = c.uses == uses || provides uses cs

abbrev pub checks_of : Option Text → List Text → List Text
checks_of none satisfies = satisfies
checks_of (some check) satisfies = check ∷ []

-- a file of the scope that is newer than the start of the invocation
unfoldable pub newer : CurrentScope → Option ℤ → Option (ScopeFile × ℤ)
unfolding find exceeds scale
newer scope none = none
newer scope (some start_ms) =
    elim (find (λ f. exceeds f.mtime_ns (scale 1000000 start_ms)) scope.files) [
      | none ↦ none
      | some file ↦ some (file, scale 1000000 start_ms)
    ]

module _ (declared : BTreeMap Text (Text × Json)) where
  judge_targets : Invocation → Text → Option (List Text) → Outcome
  unfolding outcome_of targets_proven
  judge_targets inv check none = pending (no_targets check)
  judge_targets inv check (some targets) = outcome_of (targets_proven inv targets)

  judge_times : Invocation → Text → Option (ScopeFile × ℤ) → Outcome
  unfolding judge_targets targets_of get
  judge_times inv check (some (file, start_ns)) = pending (modified file start_ns)
  judge_times inv check none = judge_targets inv check (targets_of (get check declared))

  judge_scope : Invocation → Text → Text → Option CurrentScope → Outcome
  unfolding newer judge_times
  judge_scope inv check then_hash none = pending (no_scope check)
  judge_scope inv check then_hash (some scope) =
      if then_hash == scope.hash
      then judge_times inv check (newer scope inv.start_ms)
      else pending (tree_changed check then_hash scope.hash)

  judge_stamped : Invocation → Text → BTreeMap Text CurrentScope → Option Text → Outcome
  unfolding judge_scope
  judge_stamped inv check current none = pending (not_stamped check)
  judge_stamped inv check current (some then_hash) =
      judge_scope inv check then_hash (get check current)

  unfoldable pub judge_check : Invocation → Text → BTreeMap Text CurrentScope → Outcome
  unfolding judge_stamped
  judge_check inv check current = elim inv.stamp [
    | none ↦ pending no_stamp
    | some stamp ↦ judge_stamped inv check current (get check stamp)
  ]

  abbrev with_verdict :
      CheckVerdict
      → List (Text × Text)
      → List CheckVerdict × List (Text × Text)
      → List CheckVerdict × List (Text × Text)
  with_verdict v new (verdicts, proven) = (v ∷ verdicts, new ++ proven)

  -- The loop over the checks: a proven check whose hash is not the stored one ends it.
  unfoldable pub judge_all :
      Text
      → Invocation
      → BTreeMap Text Text
      → BTreeMap Text CurrentScope
      → List Text
      → Result (List CheckVerdict × List (Text × Text))
  judge_all task_id inv stored current [] = ok ([], [])
  judge_all task_id inv stored current (check ∷ checks) =
      let rest = judge_all task_id inv stored current checks in
      let outcome = judge_check inv check current in
      let now = now_hash (get check current) in
      let verdict : CheckVerdict = record { check_id = check; outcome = outcome } in
      elim outcome [
        | pending why ↦ musts.Base.Result.◌>>=◌ rest λ r. ok (with_verdict verdict [] r)
        | recorded passed ↦
            if stored_is (get check stored) now
            then (musts.Base.Result.◌>>=◌ rest λ r. ok (with_verdict verdict ((check, now) ∷ []) r))
            else err (evidence_stale task_id)
      ]

-- the number of tests of the recorded verdicts
unfoldable pub tests_passed : List CheckVerdict → ℕ
tests_passed [] = 0
tests_passed (v ∷ vs) = elim v.outcome [
  | recorded passed ↦ passed + tests_passed vs
  | pending why ↦ tests_passed vs
]

-- `summary`
unfoldable pub summary_of : Text → ℕ → Text
unfolding text decimal
summary_of uuid tests =
    text "Recorded from bazel invocation "
    ++ uuid
    ++ text ": "
    ++ decimal tests
    ++ text " test"
    ++ (if tests == 1 then [] else text "s")
    ++ text " passed on the stamped tree."

check_items : List (Text × Text) → Items
check_items [] = Items.nil
check_items ((check, _) ∷ proven) = Items.cons (Json.string check) (check_items proven)

-- `result`: the keys in their order
unfoldable pub result_of : Text → Text → List (Text × Text) → Json
unfolding text check_items
result_of uuid shown proven = Json.object (
    Fields.field (text "build_event_file") (Json.string shown) (
      Fields.field (text "checks") (Json.array (check_items proven)) (
        Fields.field (text "invocation_id") (Json.string uuid)
          (Fields.field (text "recorded_by") (Json.string (text "musts record")) Fields.end))))

-- `describe_asset(&absolute).into_iter().collect()`
abbrev asset_list : Result EvidenceAsset → List EvidenceAsset
asset_list (ok asset) = asset ∷ []
asset_list (err e) = []

module _ (env : RecordEnv) where
  unfoldable pub resolve_id : Text → Exec (Text × Option Text)
  resolve_id id s = elim (fetch_task id s.db) [
    | some _ ↦ (ok (id, none), s)
    | none ↦ elim (find_task_for_check env.evidence.serde id s.db) [
      | some task_id ↦ (ok (task_id, some id), s)
      | none ↦ (err (task_not_found id), s)
    ]
  ]

  unfoldable pub rejected_all : Text → Text → List Text → Reason → RecordOutcome
  rejected_all task_id invocation checks why = record {
    task_id = task_id;
    invocation = invocation;
    verdicts = map (λ c. record { check_id = c; outcome = pending why }) checks;
  }

  -- `absolute`
  unfoldable pub absolute : Text
  unfolding join_path
  absolute = join_path env.evidence.workspace_root env.bep_path

  -- the evidence that is accepted of the proven checks
  unfoldable pub accepted_evidence :
      Invocation → Text → List CheckVerdict → List (Text × Text) → AcceptedEvidence
  unfolding tests_passed summary_of result_of absolute
  accepted_evidence inv task_id verdicts proven =
      let summary = summary_of inv.uuid (tests_passed verdicts) in
      record {
        task_id = task_id;
        submission_id = env.evidence.submission_id;
        checks = proven;
        summary = some summary;
        submission_json = env.evidence.serde.submission (record {
          text = some summary;
          assets = asset_list (env.evidence.describe_asset absolute);
        });
        result_json = env.print (result_of inv.uuid env.bep_path proven);
      }

  -- `persist_accepted` where something is proven
  unfoldable pub persist_proven :
      Invocation → Text → List CheckVerdict → List (Text × Text) → Exec (Unit {0})
  unfolding accepted_evidence
  persist_proven inv task_id verdicts [] = pure tt
  persist_proven inv task_id verdicts (p ∷ ps) =
      persist_accepted env.evidence (accepted_evidence inv task_id verdicts (p ∷ ps))

  unfoldable pub record_checks : Text → Invocation → StoredTask → List Text → Exec RecordOutcome
  unfolding persist_proven
  record_checks task_id inv stored checks = do
    declared ← lift env.declared_checks
    current ← env.compute_current_scopes
    (verdicts, proven) ←
        lift (judge_all declared task_id inv (stored_hashes env.evidence stored) current checks)
    persist_proven inv task_id verdicts proven
    pure (record { task_id = task_id; invocation = short_uuid inv; verdicts = verdicts })

  -- the build events, read and parsed
  unfoldable pub read_invocation : Unreadable ⊎ Invocation
  unfolding parse_events absolute
  read_invocation = elim (env.read absolute) [
    | none ↦ inl Unreadable.cannot_read
    | some bytes ↦ parse_events env.event_library bytes
  ]

  unfoldable pub record_invocation :
      Text → StoredTask → List Text → Unreadable ⊎ Invocation → Exec RecordOutcome
  record_invocation task_id stored checks (inl why) =
      pure (rejected_all task_id [] checks (unusable (Unusable.unreadable why)))
  record_invocation task_id stored checks (inr inv) =
      elim (invocation_problem env.in_workspace inv) [
        | some why ↦
            pure (rejected_all task_id (short_uuid inv) checks (unusable (Unusable.problem why)))
        | none ↦ record_checks task_id inv stored checks
      ]

  unfoldable pub record_run : Text → Exec RecordOutcome
  unfolding provides text any read_invocation
  record_run id = do
    (task_id, requested) ← resolve_id id
    stored ← λ s. ok_or (fetch_task task_id s.db) (task_not_found task_id) s
    ensure (stored.capability == text "bazel/test") (record_unsupported task_id)
    descriptors ← lift env.evidence.descriptors
    ensure (not (any (λ d. provides stored.capability d.capabilities) descriptors))
        (record_unsupported task_id)
    record_invocation task_id stored (checks_of requested (stored_satisfies env.evidence stored))
        read_invocation
