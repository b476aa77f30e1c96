-- ===== src/Evidence/Refusal.antt =====
-- The two refusals of a submission: an implementor that rejects, and one that claims too much.
use musts.Base.{◌≡◌, refl, true, false, not, ◌&&◌, List, [], ◌∷◌, arith, Bool-cases, inl, inr, ap}
use musts.Base.Order.{◌==◌, ==_iff, nat_ord, list_ord}
use musts.Base.Text.{Text}
use musts.Base.Lists
use musts.Base.Lists.{is_empty}
use musts.Base.Result.{err, evidence_overclaim, evidence_rejected}
use musts.Protocol.{EvidenceAsset, EvidenceValidationResponse}
use musts.Database.{StoredTask, is_green}
use musts.Session.{Session}
use musts.Evidence.Defs.{Env, SubmissionInputs, with_hashes, record_rejection, rejection_message}
use musts.Evidence.Submit.{
  stored_satisfies, stored_hashes, split_claims, evidence_of, accept, reject, conclude,
}
use musts.Evidence.Safety.{record_rejection-green}

-- A claim that the task does not list is unexpected.
split_claims-unexpected :
    (stored ids : List Text) (c : Text)
    → Lists.contains c (split_claims stored ids).1
      ≡ (Lists.contains c ids && not (Lists.contains c stored))
unfolding split_claims Lists.contains
split_claims-unexpected stored [] c = refl
split_claims-unexpected stored (id ∷ ids) c = elim (Bool-cases (c == id)) [
  | inl same ↦ ground (
    arith,
    same,
    split_claims-unexpected stored ids c,
    ap (λ x. Lists.contains x stored) ((==_iff c id).0 same),
  )
  | inr other ↦ ground (arith, other, split_claims-unexpected stored ids c)
]

module _ (env : Env) (inputs : SubmissionInputs) where
  accept-unexpected :
      (stored : StoredTask) (assets : List EvidenceAsset) (response : EvidenceValidationResponse)
      (claims : List Text × List Text) (s : Session) (c : Text)
      → Lists.contains c claims.1 ≡ true
      → accept env inputs stored assets response claims s
        ≡ (err (evidence_overclaim inputs.task_id stored.capability claims.1), s)
  unfolding accept Lists.contains
  accept-unexpected stored assets response (accepted_now, []) s c m = cc
  accept-unexpected stored assets response (accepted_now, x ∷ xs) s c m = refl

  -- An implementor that accepts and claims a check that the task does not satisfy fails the
  -- submission: the error lists the check, and the session is left as it was.
  pub conclude-overclaim :
      (stored : StoredTask) (assets : List EvidenceAsset) (response : EvidenceValidationResponse)
      (s : Session) (c : Text)
      → response.accepted ≡ true
      → Lists.contains c response.satisfies ≡ true
      → Lists.contains c (stored_satisfies env stored) ≡ false
      → (unexpected : List Text) × (Lists.contains c unexpected ≡ true)
        × (conclude env inputs stored assets response s
            ≡ (err (evidence_overclaim inputs.task_id stored.capability unexpected), s))
  unfolding conclude
  conclude-overclaim stored assets response s c taken claimed foreign =
      let claims = split_claims (stored_satisfies env stored) response.satisfies in
      let listed : Lists.contains c claims.1 ≡ true = ground (
        arith,
        claimed,
        foreign,
        split_claims-unexpected (stored_satisfies env stored) response.satisfies c,
      ) in
      (
        claims.1,
        listed,
        ground (arith, taken, accept-unexpected stored assets response claims s c listed),
      )

  -- A rejection is an error with the implementor's reasons; no pair turns green or stops being green,
  -- and the ledger on disk is left as it was.
  pub conclude-rejected :
      (stored : StoredTask) (assets : List EvidenceAsset) (response : EvidenceValidationResponse)
      (s : Session)
      → response.accepted ≡ false
      → ((conclude env inputs stored assets response s).0
          ≡ err (evidence_rejected inputs.task_id stored.capability (rejection_message response)))
        × ((conclude env inputs stored assets response s).1.musts_dir ≡ s.musts_dir)
        × ((c h : Text)
            → is_green (conclude env inputs stored assets response s).1.db c h ≡ is_green s.db c h)
  unfolding conclude reject record_rejection
  conclude-rejected stored assets response s declined = (
    ground (arith, declined),
    ground (arith, declined),
    λ c h. ground (
      arith,
      declined,
      record_rejection-green env inputs
          (evidence_of env inputs
            (with_hashes (stored_hashes env stored) (stored_satisfies env stored)) response.message
            assets response)
          s c h,
    ),
  )
