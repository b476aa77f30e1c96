-- ===== src/Builtin.antt =====
-- crates/musts-core/src/builtin/util.rs, and the judgement of a captured log, which `evidence` of cargo.rs,
-- bazel_build.rs and bazel_test.rs have in common. Reading a file is a parameter.
pub mod Cargo
pub mod BazelBuild
pub mod BazelTest
pub mod Agent
pub mod Jev
pub mod Mav
pub mod Registry
pub mod Accepted
mod Examples
use musts.Base.{
  ℕ, Bool, true, false, ◌||◌, ◌⊎◌, inl, inr, Option, none, some, List, [], ◌∷◌, ◌++◌, map,
  if◌then◌else◌, ltb,
}
use musts.Base.Order.{◌==◌, nat_ord, list_ord}
use musts.Base.Text.{Text, text, starts_with, replace, trim}
use musts.Base.Lists.{length, is_empty, filter, find}
use musts.Ledger.{decimal}
use musts.Protocol.{
  EvidenceAsset, EvidenceValidationRequest, EvidenceValidationResponse, MissingEvidence,
  NormalizedAsset, protocol_version,
}

-- `scope_slug`, where `to_lowercase` is Unicode's
unfoldable pub scope_slug : (Text → Text) → Text → Text
unfolding replace text list_ord
scope_slug to_lowercase scope =
    if is_empty scope || scope == text "root"
    then text "root"
    else to_lowercase (replace 47 (text "-") scope)

unfoldable pub is_log_or_text : EvidenceAsset → Bool
unfolding starts_with text list_ord
is_log_or_text asset =
    starts_with (text "text/") asset.mime || asset.mime == text "application/octet-stream"

unfoldable pub is_image : EvidenceAsset → Bool
unfolding starts_with text
is_image asset = starts_with (text "image/") asset.mime

unfoldable pub is_video : EvidenceAsset → Bool
unfolding starts_with text
is_video asset = starts_with (text "video/") asset.mime

unfoldable pub is_json : EvidenceAsset → Bool
unfolding text list_ord
is_json asset = asset.mime == text "application/json"

-- the character U+2014
abbrev pub em_dash : Text
em_dash = 0xe2 ∷ 0x80 ∷ 0x94 ∷ []

-- the character U+2026
abbrev pub ellipsis : Text
ellipsis = 0xe2 ∷ 0x80 ∷ 0xa6 ∷ []

-- `if n == 1 { "" } else { "s" }`
abbrev pub plural : ℕ → Text
unfolding text
plural n = if n == 1 then [] else text "s"

-- what the three capabilities say where they differ
pub record Wording : Type 0 where
  pub no_text : Text
  pub no_log : Text
  pub real : Text
  pub name : Text

abbrev pub or_empty : Option Text → Text
or_empty none = []
or_empty (some t) = t

unfoldable pub of_log : Text → MissingEvidence
unfolding text
of_log message = record { kind = text "log"; message = message }

-- what is missing before the log is read
unfoldable pub incomplete : Wording → Text → List EvidenceAsset → List MissingEvidence
unfolding trim text of_log find
incomplete wording submitted log_assets =
    (if is_empty (trim submitted)
      then record { kind = text "text"; message = wording.no_text } ∷ []
      else [])
    ++ (if is_empty log_assets then of_log wording.no_log ∷ [] else [])
    ++ elim (find (λ a. a.size == 0) log_assets) [
      | none ↦ []
      | some empty ↦
          of_log (
            text "Log asset `"
            ++ empty.path
            ++ text "` is empty; record the real "
            ++ wording.real
            ++ text " output.")
          ∷ []
    ]

-- `std::fs::read_to_string` of a path under the root: the words of an error, or the contents
module _ (read_to_string : Text → Text → Text ⊎ Text) where
  unfoldable pub inspect : (Text → Option Text) → Text → List EvidenceAsset → List MissingEvidence
  unfolding find of_log text
  inspect failure workspace_root log_assets = elim (find (λ a. ltb 0 a.size) log_assets) [
    | none ↦ []
    | some log ↦ elim (read_to_string workspace_root log.path) [
      | inl error ↦
          of_log (text "Could not read log asset `" ++ log.path ++ text "`: " ++ error) ∷ []
      | inr contents ↦ elim (failure contents) [ none ↦ [] | some message ↦ of_log message ∷ [] ]
    ]
  ]

  unfoldable pub missing_of :
      Wording → (Text → Option Text) → Text → Text → List EvidenceAsset → List MissingEvidence
  unfolding incomplete inspect
  missing_of wording failure workspace_root submitted log_assets =
      elim (incomplete wording submitted log_assets) [
        | [] ↦ inspect failure workspace_root log_assets
        | problem ∷ problems ↦ problem ∷ problems
      ]

  unfoldable pub respond :
      Wording → List Text → List EvidenceAsset → List MissingEvidence → EvidenceValidationResponse
  unfolding text decimal
  respond wording satisfies log_assets (problem ∷ problems) = record {
    protocol_version = protocol_version;
    accepted = false;
    satisfies = [];
    summary = none;
    normalized_assets = [];
    missing = problem ∷ problems;
    message = some (text "Evidence is incomplete.");
  }
  respond wording satisfies log_assets [] = record {
    protocol_version = protocol_version;
    accepted = true;
    satisfies = satisfies;
    summary = some (
        wording.name
        ++ text " evidence accepted ("
        ++ decimal (length log_assets)
        ++ text " log asset"
        ++ plural (length log_assets)
        ++ text ").");
    normalized_assets =
        map (λ (a : EvidenceAsset). record { kind = text "log"; path = a.path }) log_assets;
    missing = [];
    message = none;
  }

  unfoldable pub log_evidence :
      Wording → (Text → Option Text) → EvidenceValidationRequest → EvidenceValidationResponse
  unfolding missing_of respond filter is_log_or_text
  log_evidence wording failure request =
      let log_assets = filter is_log_or_text request.submission.assets in
      respond wording request.task.satisfies log_assets (
        missing_of wording failure request.workspace_root (or_empty request.submission.text)
          log_assets)
