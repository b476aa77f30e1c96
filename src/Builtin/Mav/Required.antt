-- ===== src/Builtin/Mav/Required.antt =====
-- What accepted evidence of `mav/expect` holds for the required kinds.
use musts.Base.{
  ◌≡◌, refl, ap, sym, ◌∙◌, true, false, inl, inr, Option, none, some, List, [], ◌∷◌, ◌++◌,
  Bool-cases, Option-cases, arith,
}
use musts.Base.Order.{◌==◌, nat_ord, list_ord}
use musts.Base.Text.{Text, text, trim}
use musts.Base.Lists.{is_empty, find, All}
use musts.Base.Map.{BTreeMap, insert, get, get-insert}
use musts.Protocol.{EvidenceAsset, EvidenceValidationRequest, MissingEvidence}
use musts.Builtin.{or_empty}
use musts.Builtin.Mav.Judgement.{
  JsonFile, json_problem, is_json_kind, json_problems, kind_problems, problems_of, required_kinds,
  missing_text, or_no_assets, classify_asset, classify_one, classify, classified_for, respond_mav,
  evidence,
}

append-nil : (xs ys : List MissingEvidence) → xs ++ ys ≡ [] → (xs ≡ []) × (ys ≡ [])
append-nil [] ys h = (refl, h)
append-nil (x ∷ xs) ys h = cc

find-none :
    (assets : List EvidenceAsset)
    → find (λ a. a.size == 0) assets ≡ none
    → All (λ a. (a.size == 0) ≡ false) assets
unfolding find
find-none [] h = tt
find-none (a ∷ assets) h = elim (Bool-cases (a.size == 0)) [
  | inl e ↦ ground (arith, e, h)
  | inr e ↦ (e, find-none assets (ground (arith, e, h)))
]

-- no list of the map is empty
abbrev IsFull : BTreeMap Text (List EvidenceAsset) → Type 0
IsFull m =
    (kind : Text) (assets : List EvidenceAsset) → get kind m ≡ some assets → is_empty assets ≡ false

full_append :
    (assets : List EvidenceAsset) (a : EvidenceAsset) → is_empty (assets ++ a ∷ []) ≡ false
full_append [] a = refl
full_append (x ∷ assets) a = refl

insert-IsFull :
    (kind : Text) (a : EvidenceAsset) (m : BTreeMap Text (List EvidenceAsset))
    → IsFull m
    → IsFull (insert kind (or_no_assets (get kind m) ++ a ∷ []) m)
insert-IsFull kind a m full k assets h =
    let new = or_no_assets (get kind m) ++ a ∷ [] in
    elim (Bool-cases (k == kind)) [
      | inl e ↦
          let same : new ≡ assets = ground (arith, get-insert k kind new m, e, h) in
          ap is_empty (sym same) ∙ full_append (or_no_assets (get kind m)) a
      | inr e ↦ full k assets (ground (arith, get-insert k kind new m, e, h))
    ]

classify_one-IsFull :
    (a : EvidenceAsset) (kind : Option Text) (m : BTreeMap Text (List EvidenceAsset))
    → IsFull m
    → IsFull (classify_one a kind m)
unfolding classify_one
classify_one-IsFull a none m full = full
classify_one-IsFull a (some kind) m full = insert-IsFull kind a m full

classify-IsFull :
    (assets : List EvidenceAsset) (m : BTreeMap Text (List EvidenceAsset))
    → IsFull m
    → IsFull (classify assets m)
unfolding classify
classify-IsFull [] m full = full
classify-IsFull (a ∷ assets) m full =
    classify-IsFull assets (classify_one a (classify_asset a) m)
      (classify_one-IsFull a (classify_asset a) m full)

classified_for-full :
    (m : BTreeMap Text (List EvidenceAsset)) (kind : Text) (assets : List EvidenceAsset)
    → IsFull m
    → classified_for m kind ≡ some assets
    → is_empty assets ≡ false
unfolding classified_for text
classified_for-full m kind assets full h = elim (Option-cases (get kind m)) [
  | inr (found, e) ↦ full kind assets (ground (arith, e, h))
  | inl e ↦ elim (Bool-cases (kind == text "accessibility-tree")) [
    | inl t ↦ full (text "mav-report") assets (ground (arith, e, t, h))
    | inr t ↦ absurd (ground (arith, e, t, h))
  ]
]

module _ (open_json : Text → Text → JsonFile) (workspace_root : Text) where
  json_problems-none :
      (kind : Text) (assets : List EvidenceAsset)
      → json_problems open_json workspace_root kind assets ≡ []
      → All (λ (a : EvidenceAsset). open_json workspace_root a.path ≡ JsonFile.parsed) assets
  unfolding json_problems
  json_problems-none kind [] h = tt
  json_problems-none kind (a ∷ assets) h =
      let (first, rest) =
        append-nil (json_problem kind a (open_json workspace_root a.path))
          (json_problems open_json workspace_root kind assets) h in
      (
        only_parsed kind a (open_json workspace_root a.path) first,
        json_problems-none kind assets rest,
      )
    where
      only_parsed :
          (k : Text) (b : EvidenceAsset) (file : JsonFile)
          → json_problem k b file ≡ []
          → file ≡ JsonFile.parsed
      only_parsed k b (JsonFile.unreadable error) h =
          absurd (unfold json_problem in ground (arith, h))
      only_parsed k b (JsonFile.not_json error) h =
          absurd (unfold json_problem in ground (arith, h))
      only_parsed k b JsonFile.parsed h = refl

  -- There are assets of the kind, none of them is empty, and where the kind asks for JSON, each is JSON.
  abbrev pub IsMet : BTreeMap Text (List EvidenceAsset) → Text → Type 0
  IsMet classified kind =
      (assets : List EvidenceAsset) × (classified_for classified kind ≡ some assets)
      × (is_empty assets ≡ false)
      × All (λ a. (a.size == 0) ≡ false) assets
      × (is_json_kind kind ≡ true
          → All (λ (a : EvidenceAsset). open_json workspace_root a.path ≡ JsonFile.parsed) assets)

  kind_problems-none :
      (kind : Text) (classified : BTreeMap Text (List EvidenceAsset))
      → IsFull classified
      → kind_problems open_json workspace_root kind (classified_for classified kind) ≡ []
      → IsMet classified kind
  unfolding kind_problems
  kind_problems-none kind classified full h = elim (Option-cases (classified_for classified kind)) [
    | inl e ↦ absurd (ground (arith, e, h))
    | inr (assets, e) ↦ elim (Option-cases (find (λ a. a.size == 0) assets)) [
      | inr (a, f) ↦ absurd (ground (arith, e, f, h))
      | inl f ↦ (
        assets,
        e,
        classified_for-full classified kind assets full e,
        find-none assets f,
        λ j. json_problems-none kind assets (ground (arith, e, f, j, h)),
      )
    ]
  ]

  problems_of-none :
      (classified : BTreeMap Text (List EvidenceAsset)) (kinds : List Text)
      → IsFull classified
      → problems_of open_json workspace_root classified kinds ≡ []
      → All (IsMet classified) kinds
  unfolding problems_of
  problems_of-none classified [] full h = tt
  problems_of-none classified (kind ∷ kinds) full h =
      let (first, rest) =
        append-nil (kind_problems open_json workspace_root kind (classified_for classified kind))
          (problems_of open_json workspace_root classified kinds) h in
      (kind_problems-none kind classified full first, problems_of-none classified kinds full rest)

-- Where evidence of `mav/expect` is accepted, it satisfies the checks of the task, the text is not blank,
-- and for each kind that the contract requires there are assets, none of them empty, and each parseable
-- where the kind is a report or an accessibility tree.
pub evidence-IsMet :
    (open_json : Text → Text → JsonFile) (request : EvidenceValidationRequest)
    → (evidence open_json request).accepted ≡ true
    → ((evidence open_json request).satisfies ≡ request.task.satisfies)
      × (is_empty (trim (or_empty request.submission.text)) ≡ false)
      × All
          (IsMet open_json request.workspace_root (classify request.submission.assets []))
          (required_kinds request.task.evidence_contract.assets)
unfolding evidence respond_mav missing_text get
evidence-IsMet open_json request h =
    let classified = classify request.submission.assets [] in
    let kinds = required_kinds request.task.evidence_contract.assets in
    let problems = problems_of open_json request.workspace_root classified kinds in
    let all = missing_text (or_empty request.submission.text) ++ problems in
    let nothing : all ≡ [] = ground (arith, h) in
    let (no_text, no_kind) =
      append-nil (missing_text (or_empty request.submission.text)) problems nothing in
    (
      ground (arith, nothing),
      ground (arith, no_text),
      problems_of-none open_json request.workspace_root classified kinds
          (classify-IsFull request.submission.assets [] (λ k assets e. cc)) no_kind,
    )
