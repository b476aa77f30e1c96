-- ===== src/Builtin/Accepted.antt =====
-- What an accepted submission of a log shows.
use musts.Base.{
  ◌≡◌, refl, true, false, ◌⊎◌, inl, inr, Option, none, List, [], ◌∷◌, Bool-cases, Option-cases,
  arith,
}
use musts.Base.Order.{◌==◌, nat_ord}
use musts.Base.Text.{Text, trim}
use musts.Base.Lists.{is_empty, filter, find, All}
use musts.Protocol.{EvidenceAsset, EvidenceValidationRequest}
use musts.Builtin.{
  Wording, is_log_or_text, or_empty, incomplete, inspect, missing_of, respond, log_evidence,
}

none_empty :
    (assets : List EvidenceAsset)
    → find (λ a. a.size == 0) assets ≡ none
    → All (λ a. (a.size == 0) ≡ false) assets
unfolding find
none_empty [] h = tt
none_empty (a ∷ assets) h = elim (Bool-cases (a.size == 0)) [
  | inl e ↦ ground (arith, e, h)
  | inr e ↦ (e, none_empty assets (ground (arith, e, h)))
]

-- a text, and logs of which none is empty
abbrev IsComplete : Text → List EvidenceAsset → Type 0
IsComplete submitted log_assets =
    (is_empty (trim submitted) ≡ false)
    × (is_empty log_assets ≡ false)
    × All (λ a. (a.size == 0) ≡ false) log_assets

incomplete-none :
    (wording : Wording) (submitted : Text) (log_assets : List EvidenceAsset)
    → incomplete wording submitted log_assets ≡ []
    → IsComplete submitted log_assets
unfolding incomplete
incomplete-none wording submitted log_assets h =
    elim (Option-cases (find (λ a. a.size == 0) log_assets)) [
      | inr (a, e) ↦ ground (arith, e, h)
      | inl e ↦ (ground (arith, e, h), ground (arith, e, h), none_empty log_assets e)
    ]

module _ (read_to_string : Text → Text → Text ⊎ Text) where
  -- The first log could be read, and has the property.
  abbrev pub IsRead : (Text → Type 0) → Text → List EvidenceAsset → Type 0
  IsRead P workspace_root log_assets =
      (log : EvidenceAsset) × (rest : List EvidenceAsset) × (contents : Text) × (log_assets
        ≡ log ∷ rest)
      × (read_to_string workspace_root log.path ≡ inr contents)
      × P contents

  inspect-IsRead :
      (failure : Text → Option Text) (workspace_root : Text) (log_assets : List EvidenceAsset)
      → inspect read_to_string failure workspace_root log_assets ≡ []
      → is_empty log_assets ≡ false
      → All (λ a. (a.size == 0) ≡ false) log_assets
      → IsRead (λ contents. failure contents ≡ none) workspace_root log_assets
  unfolding inspect find
  inspect-IsRead failure workspace_root [] h e a = cc
  inspect-IsRead failure workspace_root (log ∷ rest) h e a =
      elim (outcome (read_to_string workspace_root log.path)) [
        | inl (error, r) ↦ ground (arith, h, a.0, r)
        | inr (contents, r) ↦ elim (Option-cases (failure contents)) [
          | inl f ↦ (log, rest, contents, refl, r, f)
          | inr (message, f) ↦ ground (arith, h, a.0, r, f)
        ]
      ]
    where
      outcome : (x : Text ⊎ Text) → ((t : Text) × (x ≡ inl t)) ⊎ ((t : Text) × (x ≡ inr t))
      outcome (inl t) = inl (t, refl)
      outcome (inr t) = inr (t, refl)

  -- what an accepted response means
  abbrev pub IsProven : (Text → Type 0) → EvidenceValidationRequest → List Text → Type 0
  IsProven P request satisfies =
      let log_assets = filter is_log_or_text request.submission.assets in
      (satisfies ≡ request.task.satisfies)
      × (is_empty (trim (or_empty request.submission.text)) ≡ false)
      × All (λ a. (a.size == 0) ≡ false) log_assets
      × IsRead P request.workspace_root log_assets

  missing_of-none :
      (wording : Wording) (failure : Text → Option Text) (workspace_root submitted : Text)
      (log_assets : List EvidenceAsset)
      → missing_of read_to_string wording failure workspace_root submitted log_assets ≡ []
      → IsComplete submitted log_assets
        × IsRead (λ contents. failure contents ≡ none) workspace_root log_assets
  unfolding missing_of
  missing_of-none wording failure workspace_root submitted log_assets h =
      let none_missing : incomplete wording submitted log_assets ≡ [] = ground (arith, h) in
      let c = incomplete-none wording submitted log_assets none_missing in
      (
        c,
        inspect-IsRead failure workspace_root log_assets (ground (arith, h, none_missing)) c.1 c.2,
      )

  pub log_evidence-IsProven :
      (wording : Wording) (failure : Text → Option Text) (request : EvidenceValidationRequest)
      (P : Text → Type 0)
      → ((contents : Text) → failure contents ≡ none → P contents)
      → (log_evidence read_to_string wording failure request).accepted ≡ true
      → IsProven P request (log_evidence read_to_string wording failure request).satisfies
  unfolding log_evidence respond
  log_evidence-IsProven wording failure request P shows h =
      let log_assets = filter is_log_or_text request.submission.assets in
      let submitted = or_empty request.submission.text in
      let all =
        missing_of read_to_string wording failure request.workspace_root submitted log_assets in
      let nothing : all ≡ [] = ground (arith, h) in
      let (c, (log, rest, contents, e, r, clean)) =
        missing_of-none wording failure request.workspace_root submitted log_assets nothing in
      (ground (arith, nothing), c.0, c.2, (log, rest, contents, e, r, shows contents clean))

  -- A response that does not accept satisfies nothing, and says what is missing.
  pub log_evidence-refused :
      (wording : Wording) (failure : Text → Option Text) (request : EvidenceValidationRequest)
      → (log_evidence read_to_string wording failure request).accepted ≡ false
      → ((log_evidence read_to_string wording failure request).satisfies ≡ [])
        × (is_empty (log_evidence read_to_string wording failure request).missing ≡ false)
  unfolding log_evidence respond
  log_evidence-refused wording failure request h = (ground (arith, h), ground (arith, h))
