-- ===== src/Builtin/Mav/Judgement.antt =====
-- crates/musts-core/src/builtin/mav_expect.rs: the judgement of evidence. Opening and parsing a JSON file is
-- a parameter.
use musts.Base.{
  Bool, true, false, ◌||◌, Option, none, some, List, [], ◌∷◌, ◌++◌, map, if◌then◌else◌,
}
use musts.Base.Order.{◌==◌, nat_ord, list_ord}
use musts.Base.Text.{Text, text, trim}
use musts.Base.Lists.{length, is_empty, find, filter}
use musts.Base.Map.{BTreeMap, insert, get}
use musts.Ledger.{decimal}
use musts.Protocol.{
  AssetContract, EvidenceAsset, EvidenceValidationRequest, EvidenceValidationResponse,
  MissingEvidence, NormalizedAsset, protocol_version,
}
use musts.Builtin.{plural, or_empty, is_image, is_video, is_json, is_log_or_text}

unfoldable pub classify_asset : EvidenceAsset → Option Text
unfolding is_image is_video is_json is_log_or_text text
classify_asset asset =
    if is_image asset
    then some (text "screenshot")
    else if is_video asset
    then some (text "video")
    else if is_json asset
    then some (text "mav-report")
    else if is_log_or_text asset
    then some (text "logs")
    else none

abbrev pub or_no_assets : Option (List EvidenceAsset) → List EvidenceAsset
or_no_assets none = []
or_no_assets (some assets) = assets

-- one asset of the loop, with its kind
unfoldable pub classify_one :
    EvidenceAsset
    → Option Text
    → BTreeMap Text (List EvidenceAsset)
    → BTreeMap Text (List EvidenceAsset)
unfolding insert get
classify_one asset none out = out
classify_one asset (some kind) out = insert kind (or_no_assets (get kind out) ++ asset ∷ []) out

unfoldable pub classify :
    List EvidenceAsset → BTreeMap Text (List EvidenceAsset) → BTreeMap Text (List EvidenceAsset)
unfolding classify_one classify_asset
classify [] out = out
classify (asset ∷ assets) out = classify assets (classify_one asset (classify_asset asset) out)

-- an alias is looked up where there is nothing of the kind
unfoldable pub classified_for :
    BTreeMap Text (List EvidenceAsset) → Text → Option (List EvidenceAsset)
unfolding get text list_ord
classified_for classified required = elim (get required classified) [
  | some assets ↦ some assets
  | none ↦
      if required == text "accessibility-tree" then get (text "mav-report") classified else none
]

-- what opening and parsing a JSON file gives, with the words of an error
pub data JsonFile : Type 0 where
  unreadable not_json : Text → JsonFile
  parsed : JsonFile

unfoldable pub human_kind : Text → Text
unfolding text list_ord
human_kind kind =
    if kind == text "screenshot"
    then text "Screenshot"
    else if kind == text "video"
    then text "Video"
    else if kind == text "mav-report"
    then text "MAV report"
    else if kind == text "accessibility-tree"
    then text "Accessibility tree"
    else if kind == text "logs"
    then text "Log"
    else text "Asset"

unfoldable pub json_problem : Text → EvidenceAsset → JsonFile → List MissingEvidence
unfolding human_kind text
json_problem kind asset (JsonFile.unreadable error) =
    record {
      kind = kind;
      message =
          text "could not read "
          ++ human_kind kind
          ++ text " asset `"
          ++ asset.path
          ++ text "`: "
          ++ error;
    }
    ∷ []
json_problem kind asset (JsonFile.not_json error) =
    record {
      kind = kind;
      message =
          human_kind kind
          ++ text " asset `"
          ++ asset.path
          ++ text "` is not parseable JSON: "
          ++ error;
    }
    ∷ []
json_problem kind asset JsonFile.parsed = []

-- `kind == "mav-report" || kind == "accessibility-tree"`
unfoldable pub is_json_kind : Text → Bool
unfolding text list_ord
is_json_kind kind = kind == text "mav-report" || kind == text "accessibility-tree"

unfoldable pub required_kinds : List AssetContract → List Text
unfolding filter
required_kinds contracts = map (λ c. c.kind) (filter (λ c. c.required) contracts)

module _ (open_json : Text → Text → JsonFile) (workspace_root : Text) where
  -- `check_json_asset` on each
  unfoldable pub json_problems : Text → List EvidenceAsset → List MissingEvidence
  unfolding json_problem
  json_problems kind [] = []
  json_problems kind (asset ∷ assets) =
      json_problem kind asset (open_json workspace_root asset.path) ++ json_problems kind assets

  unfoldable pub kind_problems : Text → Option (List EvidenceAsset) → List MissingEvidence
  unfolding find json_problems is_json_kind human_kind text
  kind_problems kind none =
      record { kind = kind; message = text "No `" ++ kind ++ text "` asset was submitted." } ∷ []
  kind_problems kind (some assets) = elim (find (λ a. a.size == 0) assets) [
    | some asset ↦
        record {
          kind = kind;
          message = human_kind kind ++ text " asset `" ++ asset.path ++ text "` is empty.";
        }
        ∷ []
    | none ↦ if is_json_kind kind then json_problems kind assets else []
  ]

  -- the loop over the required kinds
  unfoldable pub problems_of : BTreeMap Text (List EvidenceAsset) → List Text → List MissingEvidence
  unfolding kind_problems classified_for
  problems_of classified [] = []
  problems_of classified (kind ∷ kinds) =
      kind_problems kind (classified_for classified kind) ++ problems_of classified kinds

unfoldable pub missing_text : Text → List MissingEvidence
unfolding trim text
missing_text submitted =
    if is_empty (trim submitted)
    then record { kind = text "text"; message = text "Provide a text summary of the MAV session." }
      ∷ []
    else []

unfoldable pub normalize : BTreeMap Text (List EvidenceAsset) → List NormalizedAsset
normalize [] = []
normalize ((kind, assets) ∷ rest) =
    map (λ (a : EvidenceAsset). record { kind = kind; path = a.path }) assets ++ normalize rest

unfoldable pub respond_mav :
    List Text → List NormalizedAsset → List MissingEvidence → EvidenceValidationResponse
unfolding text decimal
respond_mav satisfies normalized (problem ∷ problems) = record {
  protocol_version = protocol_version;
  accepted = false;
  satisfies = [];
  summary = none;
  normalized_assets = [];
  missing = problem ∷ problems;
  message = some (text "Evidence is incomplete.");
}
respond_mav satisfies normalized [] = record {
  protocol_version = protocol_version;
  accepted = true;
  satisfies = satisfies;
  summary = some (
      text "MAV evidence accepted ("
      ++ decimal (length normalized)
      ++ text " asset"
      ++ plural (length normalized)
      ++ text ").");
  normalized_assets = normalized;
  missing = [];
  message = none;
}

unfoldable pub evidence :
    (Text → Text → JsonFile) → EvidenceValidationRequest → EvidenceValidationResponse
unfolding classify missing_text problems_of required_kinds normalize respond_mav
evidence open_json request =
    let classified = classify request.submission.assets [] in
    respond_mav request.task.satisfies (normalize classified) (
      missing_text (or_empty request.submission.text)
      ++ problems_of open_json request.workspace_root classified
          (required_kinds request.task.evidence_contract.assets))
