-- ===== src/Validate/Run/ReadOnly.antt =====
-- A run leaves the evidence and the ledger as they are, on every path, and so does the scope hasher that
-- a submission uses.
use musts.Base.{
  ℕ, ◌≡◌, refl, sym, Bool, subst, true, false, ◌&&◌, Option, List, [], ◌∷◌, arith, inl, inr,
  Bool-cases,
}
use musts.Base.Order.{nat_ord, list_ord}
use musts.Base.Text.{Text}
use musts.Base.Lists.{is_empty}
use musts.Base.Map.{BTreeMap}
use musts.Base.Result.{Error, ok, err, Result-cases}
use musts.Protocol.{IgnoredCheck}
use musts.Ledger.{LedgerLock}
use musts.Ledger.Disk.{load}
use musts.Session.{Session, Exec, ◌>>=◌}
use musts.Evidence.{Env}
use musts.Evidence.Freshness.{IsScopeHasher}
use musts.Validate.Scope.{Check, LoadedManifest, PathFilter, is_active}
use musts.Validate.Files.{compute_scope_file_inputs}
use musts.Validate.Tasks.{PreparedCheck, persist_tasks}
use musts.Validate.Declaration.{CapabilityIndex, build_capability_index}
use musts.Validate.Checks.{
  ValidateEnv, compile_path_filter, effective_files, persist_scope_snapshot, scope_hash_of,
}
use musts.Validate.Run.{
  compute_current_scopes, Workspace, cid_of, ValidateReport, all_checks, is_already_green,
  prepare_checks, report, finish, run, validate_checks, compute_current_scope_hashes,
}
use musts.Validate.Run.Rerun.{
  Keeps, same-Keeps, Keeps-trans, compute_scope_file_inputs-Keeps, WritesCache,
  compute_scope_file_inputs-WritesCache,
}

module _ (env : ValidateEnv) (w : Workspace) where
  -- Computing the current scopes writes nothing but the cache of fingerprints.
  pub compute_current_scopes-WritesCache :
      (s : Session) → WritesCache s (compute_current_scopes env w s).1
  unfolding compute_current_scopes
  compute_current_scopes-WritesCache s =
      subst (WritesCache s) (sym same)
        (compute_scope_file_inputs-WritesCache env.normalise w.now w.files s)
    where
      same :
          (compute_current_scopes env w s).1
          ≡ (compute_scope_file_inputs env.normalise w.now w.files s).1
      same = ground arith

  compute_current_scope_hashes-WritesCache :
      (s : Session) → WritesCache s (compute_current_scope_hashes env w s).1
  unfolding compute_current_scope_hashes
  compute_current_scope_hashes-WritesCache s =
      subst (WritesCache s) (sym same) (compute_current_scopes-WritesCache s)
    where
      same : (compute_current_scope_hashes env w s).1 ≡ (compute_current_scopes env w s).1
      same = ground arith

  -- A submission whose scope hasher is the one of a run: the hasher writes nothing but the cache of
  -- fingerprints, on every path. The evidence rows, the stored tasks, the scope snapshots, the
  -- notes and the ledger on disk are as they were, so the hasher meets its interface.
  pub scope_hashes-WritesCache :
      (e : Env)
      → e.compute_current_scope_hashes ≡ compute_current_scope_hashes env w
      → ((s : Session) → WritesCache s (e.compute_current_scope_hashes s).1) × IsScopeHasher e
  scope_hashes-WritesCache e same = (
    writes,
    record {
      evidence_records = λ s. (writes s).evidence_records;
      tasks = λ s. (writes s).tasks;
      musts_dir = λ s. (writes s).musts_dir;
    },
  )
    where
      writes : (s : Session) → WritesCache s (e.compute_current_scope_hashes s).1
      writes s =
          subst (λ (f : Exec (BTreeMap Text Text)). WritesCache s (f s).1) (sym same)
            (compute_current_scope_hashes-WritesCache s)

  snapshot-Keeps :
      (cid hash : Text) (now : ℕ) (s : Session)
      → Keeps s (persist_scope_snapshot env cid hash now s).1
  unfolding persist_scope_snapshot
  snapshot-Keeps cid hash now s = record { evidence_records = refl; tasks = refl; musts_dir = refl }

  prepare_checks-Keeps :
      (index : CapabilityIndex) (lock : LedgerLock) (scope_files : BTreeMap Text Text)
      (cs : List (LoadedManifest × Check)) (s : Session)
      → Keeps s (prepare_checks env w index lock scope_files cs s).1
  unfolding prepare_checks persist_scope_snapshot
  prepare_checks-Keeps index lock scope_files [] s = same-Keeps refl
  prepare_checks-Keeps index lock scope_files ((m, check) ∷ rest) s =
      elim (Result-cases (compile_path_filter env check)) [
        | inr (x, failed) ↦ same-Keeps (ground (arith, failed))
        | inl (path_filter, compiled) ↦
            let files = effective_files env w.manifests m check path_filter scope_files in
            elim (Bool-cases (is_active path_filter && is_empty files)) [
              | inl skipped ↦
                  subst (Keeps s) (sym (skips path_filter compiled skipped))
                    (prepare_checks-Keeps index lock scope_files rest s)
              | inr kept ↦
                  let t = snapshot m check files s in
                  elim (Result-cases (is_already_green env w index lock m check files t.db)) [
                    | inr (x, failed) ↦
                        subst (Keeps s) (sym (stops path_filter x compiled kept failed))
                          (snapshot-Keeps _ _ w.now s)
                    | inl (already, found) ↦
                        subst (Keeps s) (sym (goes_on path_filter already compiled kept found)) (
                          Keeps-trans (snapshot-Keeps _ _ w.now s)
                            (prepare_checks-Keeps index lock scope_files rest t))
                  ]
            ]
      ]
    where
      snapshot : LoadedManifest → Check → List (Text × Text) → Session → Session
      snapshot m check files s =
          (persist_scope_snapshot env (cid_of env w m check)
            (scope_hash_of env w.manifests m check index files) w.now s).1

      skips :
          (path_filter : PathFilter)
          → compile_path_filter env check ≡ ok path_filter
          → (is_active path_filter
              && is_empty (effective_files env w.manifests m check path_filter scope_files))
            ≡ true
          → (prepare_checks env w index lock scope_files ((m, check) ∷ rest) s).1
            ≡ (prepare_checks env w index lock scope_files rest s).1
      skips path_filter compiled skipped = ground (arith, compiled, skipped)

      stops :
          (path_filter : PathFilter) (x : Error)
          → compile_path_filter env check ≡ ok path_filter
          → (is_active path_filter
              && is_empty (effective_files env w.manifests m check path_filter scope_files))
            ≡ false
          → is_already_green env w index lock m check
              (effective_files env w.manifests m check path_filter scope_files)
              (snapshot m check
                (effective_files env w.manifests m check path_filter scope_files)
                s).db
            ≡ err x
          → (prepare_checks env w index lock scope_files ((m, check) ∷ rest) s).1
            ≡ snapshot m check (effective_files env w.manifests m check path_filter scope_files) s
      stops path_filter x compiled kept failed = ground (arith, compiled, kept, failed)

      goes_on :
          (path_filter : PathFilter) (already : Bool)
          → compile_path_filter env check ≡ ok path_filter
          → (is_active path_filter
              && is_empty (effective_files env w.manifests m check path_filter scope_files))
            ≡ false
          → is_already_green env w index lock m check
              (effective_files env w.manifests m check path_filter scope_files)
              (snapshot m check
                (effective_files env w.manifests m check path_filter scope_files)
                s).db
            ≡ ok already
          → (prepare_checks env w index lock scope_files ((m, check) ∷ rest) s).1
            ≡ (prepare_checks env w index lock scope_files rest (
                snapshot m check
                  (effective_files env w.manifests m check path_filter scope_files)
                  s)).1
      goes_on path_filter already compiled kept found = ground (arith, compiled, kept, found)

  finish-keeps :
      (index : CapabilityIndex) (per_check : List PreparedCheck) (inapplicable : List IgnoredCheck)
      (s : Session)
      → ((finish env w index per_check inapplicable s).1.db.evidence_records
          ≡ s.db.evidence_records)
        × ((finish env w index per_check inapplicable s).1.musts_dir ≡ s.musts_dir)
  unfolding finish persist_tasks report
  finish-keeps index per_check inapplicable s = (ground arith, ground arith)

  -- the run once the inputs are there
  unfoldable run_from : LedgerLock → BTreeMap Text Text → Exec ValidateReport
  run_from lock scope_files = do
    (per_check, inapplicable) ←
        prepare_checks env w (build_capability_index w.descriptors) lock scope_files
          (all_checks w.manifests)
    finish env w (build_capability_index w.descriptors) per_check inapplicable

  run_from-keeps :
      (lock : LedgerLock) (scope_files : BTreeMap Text Text) (s : Session)
      → ((run_from lock scope_files s).1.db.evidence_records ≡ s.db.evidence_records)
        × ((run_from lock scope_files s).1.musts_dir ≡ s.musts_dir)
  unfolding run_from
  run_from-keeps lock scope_files s =
      let index = build_capability_index w.descriptors in
      let cs = all_checks w.manifests in
      let k = prepare_checks-Keeps index lock scope_files cs s in
      elim (Result-cases (prepare_checks env w index lock scope_files cs s).0) [
        | inr (x, failed) ↦
            (ground (arith, failed, k.evidence_records), ground (arith, failed, k.musts_dir))
        | inl ((per_check, inapplicable), prepared) ↦
            let t = (prepare_checks env w index lock scope_files cs s).1 in
            let f = finish-keeps index per_check inapplicable t in
            (
              ground (arith, prepared, k.evidence_records, f.0),
              ground (arith, prepared, k.musts_dir, f.1),
            )
      ]

  -- Whatever a run returns, the evidence rows and the ledger on disk are as they were.
  pub run-Keeps :
      (from_slice : Text → Option LedgerLock) (s : Session)
      → ((run env w from_slice s).1.db.evidence_records ≡ s.db.evidence_records)
        × ((run env w from_slice s).1.musts_dir ≡ s.musts_dir)
  unfolding run run_from
  run-Keeps from_slice s =
      let k = compute_scope_file_inputs-Keeps env.normalise w.now w.files s in
      elim (Result-cases (load from_slice s.musts_dir)) [
        | inr (x, failed) ↦ (ground (arith, failed), ground (arith, failed))
        | inl (lock, loaded) ↦
            elim (Result-cases (
              validate_checks env w (build_capability_index w.descriptors)
                (all_checks w.manifests))) [
                  | inr (x, failed) ↦
                      (ground (arith, loaded, failed), ground (arith, loaded, failed))
                  | inl (u, valid) ↦
                      elim (Result-cases
                        (compute_scope_file_inputs env.normalise w.now w.files s).0) [
                          | inr (x, failed) ↦ (
                            ground (arith, loaded, valid, failed, k.evidence_records),
                            ground (arith, loaded, valid, failed, k.musts_dir),
                          )
                          | inl ((scope_files, meta), read) ↦
                              let t = (compute_scope_file_inputs env.normalise w.now w.files s).1 in
                              let r = run_from-keeps lock scope_files t in
                              (
                                ground (arith, loaded, valid, read, k.evidence_records, r.0),
                                ground (arith, loaded, valid, read, k.musts_dir, r.1),
                              )
                        ]
                ]
      ]
