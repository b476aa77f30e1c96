-- ===== src/Evidence/Freshness.antt =====
-- `submit` as a whole: it accepts only while the scopes are as the task found them.
use musts.Base.{
  ◌≡◌, sym, ◌∙◌, ap, true, false, none, some, List, arith, ◌⊎◌, inl, inr, Bool-cases, Option-cases,
}
use musts.Base.Order.{◌==◌, ==_iff, nat_ord, list_ord}
use musts.Base.Text.{Text}
use musts.Base.Lists
use musts.Base.Map.{BTreeMap}
use musts.Base.Result.{Error, ok, err, db, evidence_stale, Result-cases}
use musts.Protocol.{EvidenceAsset, EvidenceValidationResponse}
use musts.Database.{StoredTask, is_green_in, is_green, fetch_task}
use musts.Snapshot.{recompute_task_snapshot_hash}
use musts.Extension.{find_capability, lookup}
use musts.Session.{Session}
use musts.Evidence.Defs.{Env, SubmissionInputs, stored_hash, describe_all}
use musts.Evidence.Submit.{
  stored_satisfies, stored_hashes, judge, evidence_request, conclude, submit_stored, submit,
}
use musts.Evidence.Safety.{conclude-green}

-- The interface to the scope hasher: what a submission relies on. It leaves the evidence rows, the
-- stored tasks and the ledger on disk as they are.
pub record IsScopeHasher (env : Env) : Type 0 where
  pub evidence_records :
      (s : Session)
      → (env.compute_current_scope_hashes s).1.db.evidence_records ≡ s.db.evidence_records
  pub tasks : (s : Session) → (env.compute_current_scope_hashes s).1.db.tasks ≡ s.db.tasks
  pub musts_dir : (s : Session) → (env.compute_current_scope_hashes s).1.musts_dir ≡ s.musts_dir

-- The scopes of the task hash, now, to what was stored with it.
abbrev pub Fresh : Env → Session → StoredTask → Type 0
Fresh env s stored =
    (current : BTreeMap Text Text) × ((env.compute_current_scope_hashes s).0 ≡ ok current)
    × (recompute_task_snapshot_hash env.digest (stored_satisfies env stored) current
        ≡ stored.task_snapshot_hash)

module _ (env : Env) (inputs : SubmissionInputs) where
  -- Where a submission of a stored task stops.
  pub submit_stored-cases :
      (stored : StoredTask) (s : Session)
      → ((x : Error) × (submit_stored env inputs stored s ≡ (err x, s)))
        ⊎ ((x : Error) × (submit_stored env inputs stored s
              ≡ (err x, (env.compute_current_scope_hashes s).1)))
        ⊎ (Fresh env s stored
            × ((assets : List EvidenceAsset) × (response : EvidenceValidationResponse)
                × (submit_stored env inputs stored s
                    ≡ conclude env inputs stored assets response
                        (env.compute_current_scope_hashes s).1)))
  unfolding submit_stored
  submit_stored-cases stored s = elim (Option-cases (env.serde.task.decode stored.payload_json)) [
    | inl undecoded ↦ inl (db, ground (arith, undecoded))
    | inr (task, decoded) ↦ elim (Result-cases (env.compute_current_scope_hashes s).0) [
      | inr (x, failed) ↦ inr (inl (x, ground (arith, decoded, failed)))
      | inl (current, hashed) ↦
          elim (Bool-cases (
            recompute_task_snapshot_hash env.digest (stored_satisfies env stored) current
            == stored.task_snapshot_hash)) [
              | inr stale ↦
                  inr (inl (evidence_stale inputs.task_id, ground (arith, decoded, hashed, stale)))
              | inl same ↦
                  let fresh =
                    (==_iff
                        (recompute_task_snapshot_hash env.digest (stored_satisfies env stored)
                          current)
                        stored.task_snapshot_hash).0
                      same in
                  elim (Result-cases (describe_all env.describe_asset inputs.asset_paths)) [
                    | inr (x, failed) ↦ inr (inl (x, ground (arith, decoded, hashed, same, failed)))
                    | inl (assets, described) ↦ elim (Result-cases env.descriptors) [
                      | inr (x, failed) ↦
                          inr (inl (x, ground (arith, decoded, hashed, same, described, failed)))
                      | inl (descriptors, found) ↦
                          elim (Result-cases (
                            judge env inputs stored.capability
                              (find_capability descriptors stored.capability)
                              (lookup env.registry stored.capability)
                              (evidence_request env inputs stored task assets))) [
                                | inr (x, failed) ↦ inr (
                                    inl (
                                      x,
                                      ground
                                          (arith, decoded, hashed, same, described, found, failed),
                                    ))
                                | inl (response, answered) ↦ inr (
                                    inr (
                                      (current, hashed, fresh),
                                      (
                                        assets,
                                        response,
                                        ground (
                                          arith, decoded, hashed, same, described, found, answered,
                                        ),
                                      ),
                                    ))
                              ]
                    ]
                  ]
            ]
    ]
  ]

  pub submit-eq-submit_stored :
      (stored : StoredTask) (s : Session)
      → fetch_task inputs.task_id s.db ≡ some stored
      → submit env inputs s ≡ submit_stored env inputs stored s
  unfolding submit
  submit-eq-submit_stored stored s e = ground (arith, e)

  -- the task behind a pair that a submission of it turned green
  submit_stored-only_claims :
      IsScopeHasher env
      → (stored : StoredTask) (s : Session) (c h : Text) → is_green s.db c h ≡ false
      → is_green (submit_stored env inputs stored s).1.db c h ≡ true
      → (Lists.contains c (stored_satisfies env stored) ≡ true)
        × (h ≡ stored_hash (stored_hashes env stored) c)
        × Fresh env s stored
  unfolding is_green
  submit_stored-only_claims hasher stored s c h before after = elim (submit_stored-cases stored s) [
    | inl (x, same) ↦ absurd (ground (arith, before, after, ap (λ p. is_green p.1.db c h) same))
    | inr (inl (x, hashed)) ↦
        absurd (ground (arith, before, after, ap (λ p. is_green p.1.db c h) hashed, kept))
    | inr (inr (fresh, (assets, response, concluded))) ↦
        elim (conclude-green env inputs stored assets response
          (env.compute_current_scope_hashes s).1 c h
          (sym (ap (λ p. is_green p.1.db c h) concluded) ∙ after)) [
            | inl old ↦ absurd (ground (arith, before, old, kept))
            | inr (listed, hash) ↦ (listed, hash, fresh)
          ]
  ]
    where
      kept : is_green (env.compute_current_scope_hashes s).1.db c h ≡ is_green s.db c h
      kept = ap (λ rows. is_green_in c h rows) (hasher.evidence_records s)

  -- Where the scope hasher leaves the evidence rows, the stored tasks and the ledger on disk as they
  -- are, and whatever a submission returns: a pair of check and hash that was not green before it and is green after it belongs to the stored
  -- task of the submission. The check is one that the task satisfies, the hash is the one stored
  -- for it, and the scopes of the task hash now to what was stored with it.
  pub submit-only_claims :
      IsScopeHasher env
      → (s : Session) (c h : Text) → is_green s.db c h ≡ false
      → is_green (submit env inputs s).1.db c h ≡ true
      → (stored : StoredTask) × (fetch_task inputs.task_id s.db ≡ some stored)
        × (Lists.contains c (stored_satisfies env stored) ≡ true)
        × (h ≡ stored_hash (stored_hashes env stored) c)
        × Fresh env s stored
  unfolding submit
  submit-only_claims hasher s c h before after =
      elim (Option-cases (fetch_task inputs.task_id s.db)) [
        | inl missing ↦
            absurd (ground (arith, before, after, ap (λ t. is_green t.db c h) (unknown missing)))
        | inr (stored, found) ↦
            let (listed, hash, fresh) = submit_stored-only_claims hasher stored s c h before (
              sym (ap (λ p. is_green p.1.db c h) (submit-eq-submit_stored stored s found))
              ∙ after) in
            (stored, found, listed, hash, fresh)
      ]
    where
      unknown : fetch_task inputs.task_id s.db ≡ none → (submit env inputs s).1 ≡ s
      unknown missing = ground (arith, missing)
