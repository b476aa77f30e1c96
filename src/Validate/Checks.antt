-- ===== src/Validate/Checks.antt =====
-- The checks of a run: the files, the hash and the state of each one.
use musts.Base.{ℕ, Bool, true, false, ◌||◌, Option, none, some, List, [], ◌∷◌, if◌then◌else◌}
use musts.Base.Order.{nat_ord, list_ord}
use musts.Base.Text.{Text, text}
use musts.Base.Map.{BTreeMap, insert, get, contains_key}
use musts.Base.Result
use musts.Base.Result.{Error, with_schema, missing_extension, Result, ok, err, ◌>>=◌}
use musts.Json.{Json}
use musts.Protocol.{ResolveRequest, ResolveResponse}
use musts.Ledger.{LedgerLock, contains}
use musts.Database.{Serde, Db, is_green}
use musts.Snapshot.{compute_scope_hash, pairs_bytes}
use musts.Extension.{Capability, ExtensionDescriptor, BuiltinCapability, lookup}
use musts.Session.{Exec}
use musts.Validate.Scope.{
  Check, LoadedManifest, PathFilter, scope_path_for, check_id, normalise_prefix,
  descendant_prefixes, descendant_same_capability_manifest_paths, effective_files_for,
  filter_effective_files,
}
use musts.Validate.Declaration.{
  CapabilityIndex, Printer, check_declaration_hash, capability_descriptor_hash,
}

-- What a run takes from elsewhere: the digest, the JSON, Unicode, glob and schema libraries, the built-in
-- capabilities, the processes of extensions, and the wording of why a check does not apply.
pub record ValidateEnv : Type 0 where
  pub digest : Text → Text
  pub serde : Serde
  pub normalise : Text → Text
  pub printer : Printer
  pub glob_set : Text → List Text → Result (Text → Bool)
  pub schema_error : Json → Json → Option Text
  pub registry : List BuiltinCapability
  pub run_resolve : ExtensionDescriptor → Capability → ResolveRequest → Result ResolveResponse
  pub inapplicable_reason : Check → Text → BTreeMap Text Text → Text
  pub workspace_root : Text

module _ (env : ValidateEnv) where
  -- `None` where there is no pattern
  unfoldable pub compile_glob_set : Text → List Text → Result (Option (Text → Bool))
  compile_glob_set field [] = ok none
  compile_glob_set field (p ∷ ps) = Result.◌>>=◌ (env.glob_set field (p ∷ ps)) λ set. ok (some set)

  unfoldable pub compile_path_filter : Check → Result PathFilter
  unfolding compile_glob_set text
  compile_path_filter check = Result.◌>>=◌ (compile_glob_set (text "paths") check.paths) λ include.
      Result.◌>>=◌ (compile_glob_set (text "exclude_paths") check.exclude_paths)
        λ exclude. ok (record { include = include; exclude = exclude })

  -- the files of a check, before its hash
  unfoldable pub effective_files :
      List LoadedManifest
      → LoadedManifest
      → Check
      → PathFilter
      → BTreeMap Text Text
      → List (Text × Text)
  effective_files manifests m check path_filter scope_files =
      filter_effective_files
        (effective_files_for scope_files (normalise_prefix env.normalise m.scope_prefix)
          (descendant_prefixes env.normalise manifests m check.uses))
        path_filter (normalise_prefix env.normalise m.scope_prefix)

  unfoldable pub scope_hash_of :
      List LoadedManifest → LoadedManifest → Check → CapabilityIndex → List (Text × Text) → Text
  scope_hash_of manifests m check cap_index files = compute_scope_hash env.digest (record {
    files = files;
    manifest_hash = check_declaration_hash env.printer env.digest check;
    ext_descriptor_hash = capability_descriptor_hash env.digest check.uses cap_index;
    descendant_manifest_paths = descendant_same_capability_manifest_paths manifests m check.uses;
  })

  -- the pairs of name and bytes, by name: `sort_by` is stable
  insert_descriptor : ExtensionDescriptor → List (Text × Text) → List (Text × Text)
  insert_descriptor d [] = (d.name, d.descriptor_bytes) ∷ []
  insert_descriptor d (e ∷ es) = elim (list_ord.cmp d.name e.0) [
    | Prim.Native.Nat.Ordering.gt ↦ e ∷ insert_descriptor d es
    | _ ↦ (d.name, d.descriptor_bytes) ∷ e ∷ es
  ]

  sorted_descriptors : List ExtensionDescriptor → List (Text × Text)
  sorted_descriptors [] = []
  sorted_descriptors (d ∷ ds) = insert_descriptor d (sorted_descriptors ds)

  unfoldable pub legacy_aggregate_descriptor_hash : List ExtensionDescriptor → Text
  unfolding sorted_descriptors insert_descriptor
  legacy_aggregate_descriptor_hash descriptors =
      env.digest (pairs_bytes (sorted_descriptors descriptors))

  -- The hash of an older version, over the whole manifest and all of the extensions.
  unfoldable pub legacy_scope_hash :
      List LoadedManifest
      → LoadedManifest
      → Check
      → List ExtensionDescriptor
      → List (Text × Text)
      → Result Text
  legacy_scope_hash manifests m check descriptors files = m.bytes >>= λ bytes. ok (
      compute_scope_hash env.digest (record {
        files = files;
        manifest_hash = env.digest bytes;
        ext_descriptor_hash = legacy_aggregate_descriptor_hash descriptors;
        descendant_manifest_paths =
            descendant_same_capability_manifest_paths manifests m check.uses;
      }))

  -- The manifest is read again for the older hash only where the current one is not found.
  unfoldable pub already_green : Db → LedgerLock → Text → Text → Result Text → Result Bool
  already_green d ledger_lock cid scope_hash legacy_hash =
      let by_legacy =
        legacy_hash >>= λ legacy. ok (is_green d cid legacy || contains ledger_lock cid legacy) in
      if is_green d cid scope_hash || contains ledger_lock cid scope_hash
      then ok true
      else by_legacy

  -- `persist_scope_snapshot`
  unfoldable pub persist_scope_snapshot : Text → Text → ℕ → Exec (Unit {0})
  persist_scope_snapshot cid scope_hash now s = (
    ok tt,
    record s {
      db = record s.db { scope_snapshots = insert cid (scope_hash, now) s.db.scope_snapshots };
    },
  )

  -- `capability_implemented`
  unfoldable pub capability_implemented : CapabilityIndex → Text → Bool
  unfolding get lookup
  capability_implemented index uses =
      contains_key uses index || (elim (lookup env.registry uses) [ none ↦ false | some _ ↦ true ])

  abbrev schema_of :
      Option (ExtensionDescriptor × Capability) → Option BuiltinCapability → Option Json
  schema_of (some (_, cap)) builtin = cap.schema
  schema_of none (some b) = some b.schema
  schema_of none none = none

  -- `capability_schema`
  unfoldable pub capability_schema : CapabilityIndex → Text → Option Json
  unfolding get lookup
  capability_schema index uses = schema_of (get uses index) (lookup env.registry uses)

  abbrev schema_result : Text → Option Text → Result (Unit {0})
  schema_result cid none = ok tt
  schema_result cid (some message) = err (with_schema cid message)

  unfoldable pub validate_with_payload : Text → Option Json → Json → Result (Unit {0})
  validate_with_payload cid none payload = ok tt
  validate_with_payload cid (some schema) payload =
      schema_result cid (env.schema_error schema payload)

  -- step 3, for one check
  unfoldable pub validate_check : CapabilityIndex → LoadedManifest → Check → Result (Unit {0})
  validate_check index m check =
      let cid = check_id (scope_path_for m.rel_path) check.local_id in
      let valid =
        validate_with_payload cid (capability_schema index check.uses) check.with_payload in
      if capability_implemented index check.uses
      then valid
      else err (missing_extension cid check.uses)
