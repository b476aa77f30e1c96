-- ===== src/Validate/Run/Again.antt =====
-- The way round from `submit` to the next run.
use musts.Base.{
  ℕ, ◌≡◌, sym, ◌∙◌, ap, subst, true, false, ◌&&◌, Option, some, List, [], ◌∷◌, arith, inl, inr,
  Bool-cases, &&-eq-true,
}
use musts.Base.Order.{◌==◌, ==_iff, nat_ord, list_ord}
use musts.Base.Text.{Text}
use musts.Base.Lists
use musts.Base.Lists.{All, filter}
use musts.Base.Map.{BTreeMap, get}
use musts.Base.Result.{ok, Result-cases}
use musts.Protocol.{IgnoredCheck}
use musts.Ledger.{LedgerLock}
use musts.Ledger.Disk.{load}
use musts.Database.{StoredTask, is_green_in, is_green, fetch_task}
use musts.Session.{Session}
use musts.Evidence.{
  Env, SubmissionInputs, EvidenceSubmissionResult, submit, stored_hash, stored_hashes,
}
use musts.Evidence.Success.{submit-Recorded}
use musts.Validate.Files.{compute_scope_file_inputs}
use musts.Validate.Tasks.{PreparedCheck}
use musts.Validate.Declaration.{build_capability_index}
use musts.Validate.Checks.{ValidateEnv}
use musts.Validate.Run.{
  Workspace, ValidateReport, or_empty, all_checks, validate_checks, prepare_checks,
  group_by_capability, finish, run,
}
use musts.Validate.Run.Rerun.{compute_scope_file_inputs-Keeps, group_by_capability_lem}
use musts.Validate.Run.Green.{CleanWhenGreen, prepare_checks-CleanWhenGreen}

-- not the check `c` at the hash `h`
abbrev pub IsOther : Text → Text → PreparedCheck → Type 0
IsOther c h p = (p.check_id == c && p.scope_hash == h) ≡ false

clean-IsOther :
    (s : Session) (lock : LedgerLock) (c h capability : Text) (p : PreparedCheck)
    → is_green s.db c h ≡ true
    → CleanWhenGreen s lock p
    → (p.dirty && p.capability == capability) ≡ true
    → IsOther c h p
clean-IsOther s lock c h capability p green clean asked =
    elim (Bool-cases (p.check_id == c && p.scope_hash == h)) [
      | inr other ↦ other
      | inl same ↦
          let (id, hash) = &&-eq-true (p.check_id == c) (p.scope_hash == h) same in
          let here : is_green s.db p.check_id p.scope_hash ≡ true =
            ap (λ x. is_green s.db x p.scope_hash) ((==_iff p.check_id c).0 id)
            ∙ ap (is_green s.db c) ((==_iff p.scope_hash h).0 hash)
            ∙ green in
          ground (arith, asked, clean (ground (arith, here)))
    ]

filter-IsOther :
    (s : Session) (lock : LedgerLock) (c h capability : Text) (ps : List PreparedCheck)
    → is_green s.db c h ≡ true
    → All (CleanWhenGreen s lock) ps
    → All (IsOther c h) (filter (λ p. p.dirty && p.capability == capability) ps)
unfolding filter
filter-IsOther s lock c h capability [] green clean = tt
filter-IsOther s lock c h capability (p ∷ ps) green clean =
    elim (Bool-cases (p.dirty && p.capability == capability)) [
      | inl asked ↦ rw asked (
        clean-IsOther s lock c h capability p green clean.0 asked,
        filter-IsOther s lock c h capability ps green clean.1,
      )
      | inr kept ↦ rw kept (filter-IsOther s lock c h capability ps green clean.1)
    ]

-- what the run does once its inputs are read: the checks it prepares, and the groups it resolves
module _ (validate_env : ValidateEnv) (w : Workspace) where
  -- A run that starts in the session asks for these groups of checks: the ledger loads, the files
  -- are read, the checks are prepared, and they are grouped by capability.
  abbrev pub AsksFor : (Text → Option LedgerLock) → Session → List PreparedCheck → Type 0
  AsksFor from_slice s per_check =
      (lock : LedgerLock) × (scope_files : BTreeMap Text Text) × (meta : BTreeMap Text (Text × ℕ))
      × (inapplicable : List IgnoredCheck) × (t : Session) × (u : Session) × (load from_slice
            s.musts_dir
          ≡ ok lock)
      × (compute_scope_file_inputs validate_env.normalise w.now w.files s
          ≡ (ok (scope_files, meta), t))
      × (prepare_checks validate_env w (build_capability_index w.descriptors) lock scope_files
            (all_checks w.manifests) t
          ≡ (ok (per_check, inapplicable), u))
      × (run validate_env w from_slice s
          ≡ finish validate_env w (build_capability_index w.descriptors) per_check inapplicable u)

  run-AsksFor :
      (from_slice : Text → Option LedgerLock) (s s' : Session) (report : ValidateReport)
      → run validate_env w from_slice s ≡ (ok report, s')
      → (per_check : List PreparedCheck) × AsksFor from_slice s per_check
  unfolding run
  run-AsksFor from_slice s s' report done = elim (Result-cases (load from_slice s.musts_dir)) [
    | inr (x, failed) ↦ absurd (ground (arith, failed, done))
    | inl (lock, loaded) ↦
        elim (Result-cases (
          validate_checks validate_env w (build_capability_index w.descriptors)
            (all_checks w.manifests))) [
              | inr (x, failed) ↦ absurd (ground (arith, loaded, failed, done))
              | inl (u, valid) ↦
                  elim (Result-cases
                    (compute_scope_file_inputs validate_env.normalise w.now w.files s).0) [
                      | inr (x, failed) ↦ absurd (ground (arith, loaded, valid, failed, done))
                      | inl ((scope_files, meta), read) ↦
                          let t =
                            (compute_scope_file_inputs validate_env.normalise w.now w.files s).1 in
                          elim (Result-cases
                            (prepare_checks validate_env w (build_capability_index w.descriptors)
                              lock scope_files (all_checks w.manifests) t).0) [
                                | inr (x, failed) ↦
                                    absurd (ground (arith, loaded, valid, read, failed, done))
                                | inl ((per_check, inapplicable), prepared) ↦ (
                                  per_check,
                                  (
                                    lock,
                                    scope_files,
                                    meta,
                                    inapplicable,
                                    t,
                                    (prepare_checks validate_env w
                                        (build_capability_index w.descriptors) lock scope_files
                                        (all_checks w.manifests) t).1,
                                    loaded,
                                    ground (arith, read),
                                    ground (arith, prepared),
                                    ground (arith, loaded, valid, read, prepared),
                                  ),
                                )
                              ]
                    ]
            ]
  ]

  -- Once a submission has succeeded, a run that starts in the session it left and succeeds does
  -- not ask again for what the submission reports satisfied: the run loads the ledger, reads the
  -- files, prepares the checks and finishes with them, and no capability's group of checks to
  -- resolve has the check at the hash that was stored with the task of the submission.
  pub submit-IsOther :
      (env : Env) (inputs : SubmissionInputs) (from_slice : Text → Option LedgerLock)
      (s s' s'' : Session) (result : EvidenceSubmissionResult) (report : ValidateReport) (c : Text)
      → submit env inputs s ≡ (ok result, s')
      → Lists.contains c result.satisfied ≡ true
      → run validate_env w from_slice s' ≡ (ok report, s'')
      → (stored : StoredTask) × (fetch_task inputs.task_id s.db ≡ some stored)
        × (per_check : List PreparedCheck) × AsksFor from_slice s' per_check
        × ((capability : Text)
            → All
                (IsOther c (stored_hash (stored_hashes env stored) c))
                (or_empty (get capability (group_by_capability per_check []))))
  unfolding get filter is_green
  submit-IsOther env inputs from_slice s s' s'' result report c done listed runs =
      let (stored, found, mine, green, recorded) =
        submit-Recorded env inputs s s' result c done listed in
      let (per_check, asks) = run-AsksFor from_slice s' s'' report runs in
      let (lock, scope_files, meta, inapplicable, t, u, loaded, read, prepared, finishes) = asks in
      let h = stored_hash (stored_hashes env stored) c in
      let kept : t.db.evidence_records ≡ s'.db.evidence_records =
        subst (λ (x : Session). x.db.evidence_records ≡ s'.db.evidence_records) (ap (λ p. p.1) read)
          (compute_scope_file_inputs-Keeps validate_env.normalise w.now w.files
            s').evidence_records in
      let still : is_green t.db c h ≡ true = ap (is_green_in c h) kept ∙ green in
      let clean =
        prepare_checks-CleanWhenGreen validate_env w (build_capability_index w.descriptors) lock
          scope_files (all_checks w.manifests) t u per_check inapplicable prepared in
      (
        stored,
        found,
        per_check,
        asks,
        λ capability.
            subst (All (IsOther c h)) (sym (group_by_capability_lem per_check [] capability))
              (filter-IsOther t lock c h capability per_check still clean),
      )
