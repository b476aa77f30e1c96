-- ===== src/Evidence/Success.antt =====
-- What a submission that succeeds has recorded.
use musts.Base.{
  ◌≡◌, refl, sym, ◌∙◌, ap, true, ◌&&◌, some, List, [], ◌∷◌, arith, inl, inr, Bool-cases,
  Option-cases,
}
use musts.Base.Order.{◌==◌, ==_iff, nat_ord, pair_ord, list_ord}
use musts.Base.Text.{Text}
use musts.Base.Lists
use musts.Base.Map.{BTreeMap}
use musts.Base.Result.{ok, Result-cases}
use musts.Protocol.{EvidenceAsset, EvidenceValidationResponse}
use musts.Ledger.{entry}
use musts.Database.{StoredTask, is_green, fetch_task}
use musts.Session.{Session}
use musts.Evidence.Defs.{
  Env, SubmissionInputs, EvidenceSubmissionResult, persist_accepted, stored_hash, with_hashes,
}
use musts.Evidence.Submit.{
  stored_satisfies, stored_hashes, evidence_of, split_claims, accept, reject, conclude,
  submit_stored, submit,
}
use musts.Evidence.Persist.{Recorded, persist_accepted-Recorded}
use musts.Evidence.Freshness.{submit_stored-cases, submit-eq-submit_stored}

-- Each listed check is paired with its stored hash.
with_hashes_complete :
    (hashes : BTreeMap Text Text) (ids : List Text) (c : Text)
    → Lists.contains c ids ≡ true
    → Lists.contains (entry c (stored_hash hashes c)) (with_hashes hashes ids) ≡ true
unfolding with_hashes Lists.contains
with_hashes_complete hashes [] c m = cc
with_hashes_complete hashes (id ∷ ids) c m = elim (Bool-cases (c == id)) [
  | inl same ↦ ground (
    arith,
    (==_iff (entry c (stored_hash hashes c)) (entry id (stored_hash hashes id))).1
        (ap (λ x. entry x (stored_hash hashes x)) ((==_iff c id).0 same)),
  )
  | inr other ↦ ground (arith, other, m, with_hashes_complete hashes ids c)
]

-- Accepted and unexpected claims are the claims, told apart by the task.
split_claims-accepted :
    (stored ids : List Text) (c : Text)
    → Lists.contains c (split_claims stored ids).0
      ≡ (Lists.contains c ids && Lists.contains c stored)
unfolding split_claims Lists.contains
split_claims-accepted stored [] c = refl
split_claims-accepted stored (id ∷ ids) c = elim (Bool-cases (c == id)) [
  | inl same ↦ ground (
    arith,
    same,
    split_claims-accepted stored ids c,
    ap (λ x. Lists.contains x stored) ((==_iff c id).0 same),
  )
  | inr other ↦ ground (arith, other, split_claims-accepted stored ids c)
]

module _ (env : Env) (inputs : SubmissionInputs) where
  accept-success :
      (stored : StoredTask) (assets : List EvidenceAsset) (response : EvidenceValidationResponse)
      (claims : List Text × List Text) (s s' : Session) (result : EvidenceSubmissionResult)
      → accept env inputs stored assets response claims s ≡ (ok result, s')
      → (result.satisfied ≡ claims.0)
        × (claims.1 ≡ [])
        × (persist_accepted env
              (evidence_of env inputs
                (with_hashes (stored_hashes env stored) claims.0)
                response.summary
                assets
                response)
              s
            ≡ (ok tt, s'))
  unfolding accept
  accept-success stored assets response (accepted_now, x ∷ xs) s s' result done =
      absurd (ground arith)
  accept-success stored assets response (accepted_now, []) s s' result done =
      elim (Result-cases
        (persist_accepted env
          (evidence_of env inputs (with_hashes (stored_hashes env stored) accepted_now)
            response.summary assets response)
          s).0) [
            | inl (u, p) ↦ ground (arith, p, done)
            | inr (x, p) ↦ absurd (ground (arith, p, done))
          ]

  conclude-success :
      (stored : StoredTask) (assets : List EvidenceAsset) (response : EvidenceValidationResponse)
      (s s' : Session) (result : EvidenceSubmissionResult)
      → conclude env inputs stored assets response s ≡ (ok result, s')
      → accept env inputs stored assets response
          (split_claims (stored_satisfies env stored) response.satisfies)
          s
        ≡ (ok result, s')
  unfolding conclude reject
  conclude-success stored assets response s s' result done = elim (Bool-cases response.accepted) [
    | inl taken ↦ ground (arith, taken, done)
    | inr declined ↦ absurd (ground (arith, declined, done))
  ]

  submit_stored-success :
      (stored : StoredTask) (s s' : Session) (result : EvidenceSubmissionResult)
      → submit_stored env inputs stored s ≡ (ok result, s')
      → (assets : List EvidenceAsset) × (response : EvidenceValidationResponse) × (t : Session)
        × (conclude env inputs stored assets response t ≡ (ok result, s'))
  submit_stored-success stored s s' result done = elim (submit_stored-cases env inputs stored s) [
    | inl (x, failed) ↦ absurd (ground (arith, done, failed))
    | inr (inl (x, failed)) ↦ absurd (ground (arith, done, failed))
    | inr (inr (fresh, (assets, response, concluded))) ↦
        (assets, response, (env.compute_current_scope_hashes s).1, sym concluded ∙ done)
  ]

  stored-Recorded :
      (stored : StoredTask) (s s' : Session) (result : EvidenceSubmissionResult) (c : Text)
      → submit_stored env inputs stored s ≡ (ok result, s')
      → Lists.contains c result.satisfied ≡ true
      → (Lists.contains c (stored_satisfies env stored) ≡ true)
        × (is_green s'.db c (stored_hash (stored_hashes env stored) c) ≡ true)
        × Recorded env s' c (stored_hash (stored_hashes env stored) c)
  stored-Recorded stored s s' result c done listed =
      let (assets, response, t, concluded) = submit_stored-success stored s s' result done in
      let claims = split_claims (stored_satisfies env stored) response.satisfies in
      let (reported, none_else, persisted) =
        accept-success stored assets response claims t s' result
          (conclude-success stored assets response t s' result concluded) in
      let here : Lists.contains c claims.0 ≡ true = ap (Lists.contains c) (sym reported) ∙ listed in
      let (green, recorded) =
        (persist_accepted-Recorded env
            (evidence_of env inputs (with_hashes (stored_hashes env stored) claims.0)
              response.summary assets response)
            t s' c (stored_hash (stored_hashes env stored) c) persisted).0
          (with_hashes_complete (stored_hashes env stored) claims.0 c here) in
      (
        ground
            (arith, here, split_claims-accepted (stored_satisfies env stored) response.satisfies c),
        green,
        recorded,
      )

  -- Once a submission succeeds, its task is stored, and each check that it reports satisfied is
  -- one of the task, is green in the database for the hash that was stored with the task, and is
  -- recorded on disk for that hash: the ledger file loads to a ledger with the pair, or is what
  -- `save` writes of one.
  pub submit-Recorded :
      (s s' : Session) (result : EvidenceSubmissionResult) (c : Text)
      → submit env inputs s ≡ (ok result, s')
      → Lists.contains c result.satisfied ≡ true
      → (stored : StoredTask) × (fetch_task inputs.task_id s.db ≡ some stored)
        × (Lists.contains c (stored_satisfies env stored) ≡ true)
        × (is_green s'.db c (stored_hash (stored_hashes env stored) c) ≡ true)
        × Recorded env s' c (stored_hash (stored_hashes env stored) c)
  unfolding submit
  submit-Recorded s s' result c done listed = elim (Option-cases (fetch_task inputs.task_id s.db)) [
    | inl missing ↦ absurd (ground (arith, missing, done))
    | inr (stored, found) ↦
        let (mine, green, recorded) =
          stored-Recorded stored s s' result c
            (sym (submit-eq-submit_stored env inputs stored s found) ∙ done) listed in
        (stored, found, mine, green, recorded)
  ]
