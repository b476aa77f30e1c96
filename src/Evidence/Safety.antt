-- ===== src/Evidence/Safety.antt =====
-- What a submission can do, on every path: only a check of the task turns green, only for the hash
-- that was stored with the task, and only while the scopes are as they were.
use musts.Base.{
  ◌≡◌, refl, sym, ◌∙◌, ap, true, false, List, [], ◌∷◌, arith, ◌⊎◌, inl, inr, Bool-cases,
}
use musts.Base.Order.{◌==◌, ==_iff, nat_ord, pair_ord, list_ord}
use musts.Base.Text.{Text}
use musts.Base.Lists
use musts.Base.Lists.{is_empty}
use musts.Base.Map.{BTreeMap}
use musts.Protocol.{EvidenceAsset, EvidenceValidationResponse}
use musts.Ledger.{entry}
use musts.Database.{StoredTask, is_green}
use musts.Database.Laws.{insert_atomic_lem, is_green_in-append}
use musts.Session.{Session}
use musts.Evidence.Defs.{
  Env, SubmissionInputs, AcceptedEvidence, evidence_rows, persist_accepted, record_rejection,
  stored_hash, with_hashes,
}
use musts.Evidence.Submit.{
  stored_satisfies, stored_hashes, evidence_of, split_claims, accept, reject, conclude,
}
use musts.Evidence.Rows.{is_green_in-evidence_rows, persist_accepted-green}

-- The pairs of `with_hashes` are the listed checks with their stored hashes.
contains-with_hashes :
    (hashes : BTreeMap Text Text) (ids : List Text) (c h : Text)
    → Lists.contains (entry c h) (with_hashes hashes ids) ≡ true
    → (Lists.contains c ids ≡ true) × (h ≡ stored_hash hashes c)
unfolding with_hashes Lists.contains
contains-with_hashes hashes [] c h m = cc
contains-with_hashes hashes (id ∷ ids) c h m =
    elim (Bool-cases (entry c h == entry id (stored_hash hashes id))) [
      | inl same ↦
          let eq = (==_iff (entry c h) (entry id (stored_hash hashes id))).0 same in
          let here : c ≡ id = ap (λ (p : Text × Text). p.0) eq in
          (
            ground (arith, (==_iff c id).1 here),
            ap (λ (p : Text × Text). p.1) eq ∙ ap (stored_hash hashes) (sym here),
          )
      | inr other ↦
          let (there, hash) = contains-with_hashes hashes ids c h (ground (arith, other, m)) in
          (ground (arith, there), hash)
    ]

-- The accepted claims are claims of the task.
split_claims-stored :
    (stored ids : List Text) (c : Text)
    → Lists.contains c (split_claims stored ids).0 ≡ true
    → Lists.contains c stored ≡ true
unfolding split_claims Lists.contains
split_claims-stored stored [] c m = cc
split_claims-stored stored (id ∷ ids) c m = elim (Bool-cases (c == id)) [
  | inl same ↦ elim (Bool-cases (Lists.contains id stored)) [
    | inl known ↦ ap (λ x. Lists.contains x stored) ((==_iff c id).0 same) ∙ known
    | inr unknown ↦ ground (arith, unknown, m, split_claims-stored stored ids c)
  ]
  | inr other ↦ ground (arith, other, m, split_claims-stored stored ids c)
]

module _ (env : Env) (inputs : SubmissionInputs) where
  -- Rows of a rejection make nothing green.
  pub record_rejection-green :
      (e : AcceptedEvidence) (s : Session) (c h : Text)
      → is_green (record_rejection env e s).1.db c h ≡ is_green s.db c h
  unfolding record_rejection is_green
  record_rejection-green e s c h =
      elim (insert_atomic_lem (evidence_rows env.now_unix false e e.checks) s.db) [
        | inl q ↦ ground (
          arith,
          is_green_in-append c h s.db.evidence_records
              (evidence_rows env.now_unix false e e.checks),
          is_green_in-evidence_rows env.now_unix false e e.checks c h,
        )
        | inr failed ↦ ap (λ p. is_green p.1 c h) failed
      ]

  accept-state :
      (stored : StoredTask) (assets : List EvidenceAsset) (response : EvidenceValidationResponse)
      (claims : List Text × List Text) (s : Session)
      → ((accept env inputs stored assets response claims s).1 ≡ s)
        ⊎ ((accept env inputs stored assets response claims s).1
            ≡ (persist_accepted env
                (evidence_of env inputs
                  (with_hashes (stored_hashes env stored) claims.0)
                  response.summary
                  assets
                  response)
                s).1)
  unfolding accept
  accept-state stored assets response (accepted_now, []) s = inr (ground arith)
  accept-state stored assets response (accepted_now, x ∷ xs) s = inl refl

  -- What an answer of the implementor makes green is a check of the task at its stored hash.
  pub conclude-green :
      (stored : StoredTask) (assets : List EvidenceAsset) (response : EvidenceValidationResponse)
      (s : Session) (c h : Text)
      → is_green (conclude env inputs stored assets response s).1.db c h ≡ true
      → (is_green s.db c h ≡ true)
        ⊎ ((Lists.contains c (stored_satisfies env stored) ≡ true)
            × (h ≡ stored_hash (stored_hashes env stored) c))
  unfolding conclude reject
  conclude-green stored assets response s c h g = elim (Bool-cases response.accepted) [
    | inl taken ↦
        let claims = split_claims (stored_satisfies env stored) response.satisfies in
        elim (accept-state stored assets response claims s) [
          | inl same ↦ inl (ground (arith, taken, g, ap (λ t. is_green t.db c h) same))
          | inr persisted ↦
              elim (persist_accepted-green env
                (evidence_of env inputs (with_hashes (stored_hashes env stored) claims.0)
                  response.summary assets response)
                s c h (ground (arith, taken, g, ap (λ t. is_green t.db c h) persisted))) [
                  | inl old ↦ inl old
                  | inr new ↦
                      let (listed, hash) =
                        contains-with_hashes (stored_hashes env stored) claims.0 c h new in
                      inr (
                        split_claims-stored (stored_satisfies env stored) response.satisfies c
                            listed,
                        hash,
                      )
                ]
        ]
    | inr declined ↦ inl (
        ground (
          arith,
          declined,
          g,
          record_rejection-green
              (evidence_of env inputs
                (with_hashes (stored_hashes env stored) (stored_satisfies env stored))
                response.message assets response)
              s c h,
        ))
  ]
