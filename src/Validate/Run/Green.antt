-- ===== src/Validate/Run/Green.antt =====
-- A check whose scope hash is in the evidence, or in the committed ledger, is not asked for again.
use musts.Base.{
  ◌≡◌, refl, ap, subst, Bool, true, false, ◌&&◌, ◌||◌, List, [], ◌∷◌, arith, inl, inr, Bool-cases,
}
use musts.Base.Order.{nat_ord, list_ord}
use musts.Base.Text.{Text}
use musts.Base.Lists.{All, is_empty}
use musts.Base.Map.{BTreeMap}
use musts.Base.Result.{ok, Result-cases}
use musts.Protocol.{IgnoredCheck}
use musts.Ledger.{LedgerLock, contains}
use musts.Database.{is_green_in, is_green}
use musts.Session.{Session}
use musts.Validate.Scope.{Check, LoadedManifest, PathFilter, is_active}
use musts.Validate.Tasks.{PreparedCheck}
use musts.Validate.Declaration.{CapabilityIndex}
use musts.Validate.Checks.{
  ValidateEnv, compile_path_filter, effective_files, scope_hash_of, already_green,
  persist_scope_snapshot,
}
use musts.Validate.Run.{Workspace, cid_of, is_already_green, prepare, prepare_checks}

-- green rows of the start make the check clean
abbrev pub CleanWhenGreen : Session → LedgerLock → PreparedCheck → Type 0
CleanWhenGreen s lock p =
    (is_green s.db p.check_id p.scope_hash || contains lock p.check_id p.scope_hash) ≡ true
    → p.dirty ≡ false

module _ (env : ValidateEnv) (w : Workspace) (index : CapabilityIndex) (lock : LedgerLock) where
  prepare-CleanWhenGreen :
      (m : LoadedManifest) (check : Check) (files : List (Text × Text)) (s t : Session)
      (already : Bool)
      → t.db.evidence_records ≡ s.db.evidence_records
      → is_already_green env w index lock m check files t.db ≡ ok already
      → CleanWhenGreen s lock (prepare env w index m check files already)
  unfolding prepare is_already_green already_green is_green
  prepare-CleanWhenGreen m check files s t already same found green = ground (
    arith,
    green,
    found,
    ap (is_green_in (cid_of env w m check) (scope_hash_of env w.manifests m check index files))
        same,
  )

  loop-CleanWhenGreen :
      (scope_files : BTreeMap Text Text) (cs : List (LoadedManifest × Check)) (start s s' : Session)
      (per_check : List PreparedCheck) (inapplicable : List IgnoredCheck)
      → s.db.evidence_records ≡ start.db.evidence_records
      → prepare_checks env w index lock scope_files cs s ≡ (ok (per_check, inapplicable), s')
      → All (CleanWhenGreen start lock) per_check
  unfolding prepare_checks persist_scope_snapshot
  loop-CleanWhenGreen scope_files [] start s s' per_check inapplicable same done =
      subst (All (CleanWhenGreen start lock)) (nothing done) tt
    where
      nothing :
          prepare_checks env w index lock scope_files [] s ≡ (ok (per_check, inapplicable), s')
          → [] ≡ per_check
      nothing e = ground (arith, e)
  loop-CleanWhenGreen scope_files ((m, check) ∷ rest) start s s' per_check inapplicable same done =
      elim (Result-cases (compile_path_filter env check)) [
        | inr (x, failed) ↦ absurd (ground (arith, failed, done))
        | inl (path_filter, compiled) ↦
            let files = effective_files env w.manifests m check path_filter scope_files in
            elim (Bool-cases (is_active path_filter && is_empty files)) [
              | inl skipped ↦
                  elim (Result-cases (prepare_checks env w index lock scope_files rest s).0) [
                    | inr (x, failed) ↦ absurd (ground (arith, compiled, skipped, failed, done))
                    | inl ((per, others), prepared) ↦
                        loop-CleanWhenGreen scope_files rest start s s' per_check others same
                          (ground (arith, compiled, skipped, prepared, done))
                  ]
              | inr kept ↦
                  let t =
                    (persist_scope_snapshot env (cid_of env w m check)
                      (scope_hash_of env w.manifests m check index files) w.now s).1 in
                  elim (Result-cases (is_already_green env w index lock m check files t.db)) [
                    | inr (x, failed) ↦ absurd (ground (arith, compiled, kept, failed, done))
                    | inl (already, found) ↦
                        elim (Result-cases (prepare_checks env w index lock scope_files rest t).0) [
                          | inr (x, failed) ↦
                              absurd (ground (arith, compiled, kept, found, failed, done))
                          | inl ((per, others), prepared) ↦
                              subst (All (CleanWhenGreen start lock))
                                (with_first path_filter t already per others compiled kept refl
                                  found prepared)
                                (
                                  prepare-CleanWhenGreen m check files start t already same found,
                                  loop-CleanWhenGreen scope_files rest start t s' per others same
                                      (ground (arith, compiled, kept, found, prepared, done)),
                                )
                        ]
                  ]
            ]
      ]
    where
      with_first :
          (path_filter : PathFilter) (t : Session) (already : Bool) (per : List PreparedCheck)
          (others : List IgnoredCheck)
          → compile_path_filter env check ≡ ok path_filter
          → (is_active path_filter
              && is_empty (effective_files env w.manifests m check path_filter scope_files))
            ≡ false
          → t
            ≡ (persist_scope_snapshot env
                (cid_of env w m check)
                (scope_hash_of env w.manifests m check index
                  (effective_files env w.manifests m check path_filter scope_files))
                w.now
                s).1
          → is_already_green env w index lock m check
              (effective_files env w.manifests m check path_filter scope_files)
              t.db
            ≡ ok already
          → (prepare_checks env w index lock scope_files rest t).0 ≡ ok (per, others)
          → prepare env w index m check
                (effective_files env w.manifests m check path_filter scope_files)
                already
              ∷ per
            ≡ per_check
      with_first path_filter t already per others compiled kept at found prepared =
          ground (arith, compiled, kept, at, found, prepared, done)

  -- Where the preparation of the checks succeeds: each prepared check that the evidence, as it was
  -- at the start, or the committed ledger holds at its scope hash is not dirty.
  pub prepare_checks-CleanWhenGreen :
      (scope_files : BTreeMap Text Text) (cs : List (LoadedManifest × Check)) (s s' : Session)
      (per_check : List PreparedCheck) (inapplicable : List IgnoredCheck)
      → prepare_checks env w index lock scope_files cs s ≡ (ok (per_check, inapplicable), s')
      → All (CleanWhenGreen s lock) per_check
  prepare_checks-CleanWhenGreen scope_files cs s s' per_check inapplicable done =
      loop-CleanWhenGreen scope_files cs s s s' per_check inapplicable refl done
