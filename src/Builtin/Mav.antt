-- ===== src/Builtin/Mav.antt =====
-- crates/musts-core/src/builtin/mav_expect.rs: `mav/expect`. The reader of a `with` payload, which serde derives,
-- is a parameter. Builtin.Mav.Judgement has the judgement of evidence.
pub mod Judgement
pub mod Required
use musts.Base.{
  ℕ, Bool, true, false, not, ◌&&◌, ◌||◌, Option, none, some, List, [], ◌∷◌, ◌++◌, map,
  if◌then◌else◌,
}
use musts.Base.Order.{◌==◌, nat_ord, list_ord}
use musts.Base.Text.{Text, text, trim}
use musts.Base.Lists.{length, is_empty, any, contains, find, filter}
use musts.Base.Map.{BTreeMap, BTreeSet, insert, get, keys, add_all}
use musts.Json.{Json}
use musts.Ledger.{decimal}
use musts.Protocol.{
  AssetContract, Task, ResolveCheck, ResolveRequest, IgnoredCheck, ResolveResponse, EvidenceAsset,
  EvidenceValidationRequest, EvidenceValidationResponse, MissingEvidence, NormalizedAsset,
  protocol_version,
}
use musts.Builtin.{scope_slug, plural, or_empty, is_image, is_video, is_json, is_log_or_text}

pub record ExpectWith : Type 0 where
  pub expectations : List Text
  pub evidence : List Text

-- `VALID_KINDS`
unfoldable pub valid_kinds : List Text
unfolding text
valid_kinds =
    text "screenshot"
    ∷ text "video"
    ∷ text "mav-report"
    ∷ text "accessibility-tree"
    ∷ text "logs"
    ∷ []

unfoldable pub has_unknown_kind : ExpectWith → Bool
unfolding any contains valid_kinds
has_unknown_kind payload = any (λ k. not (contains k valid_kinds)) payload.evidence

pub record BucketAccum : Type 0 where
  pub satisfies : List Text
  pub expectations : BTreeSet Text
  pub kinds : BTreeSet Text

-- `BucketAccum::default()`
abbrev pub or_nothing_yet : Option BucketAccum → BucketAccum
or_nothing_yet none = record { satisfies = []; expectations = []; kinds = [] }
or_nothing_yet (some bucket) = bucket

-- one check of the loop, with its payload
unfoldable pub accumulate :
    ResolveCheck → Option ExpectWith → BTreeMap Text BucketAccum → BTreeMap Text BucketAccum
unfolding insert get has_unknown_kind add_all
accumulate check none out = out
accumulate check (some payload) out =
    if has_unknown_kind payload
    then out
    else (let bucket = or_nothing_yet (get check.scope_path out) in
        insert check.scope_path
          (record {
            satisfies = bucket.satisfies ++ check.id ∷ [];
            expectations = add_all payload.expectations bucket.expectations;
            kinds = add_all payload.evidence bucket.kinds;
          })
          out)

module _ (from_value : Json → Option ExpectWith) where
  unfoldable pub accumulate_all :
      List ResolveCheck → BTreeMap Text BucketAccum → BTreeMap Text BucketAccum
  unfolding accumulate
  accumulate_all [] out = out
  accumulate_all (check ∷ checks) out =
      accumulate_all checks (accumulate check (from_value check.with_payload) out)

  unfoldable pub ignored_checks_of : List ResolveCheck → List IgnoredCheck
  unfolding has_unknown_kind text
  ignored_checks_of [] = []
  ignored_checks_of (check ∷ checks) =
      let rest = ignored_checks_of checks in
      elim (from_value check.with_payload) [
        | none ↦
            record {
              id = check.id;
              reason = text "with-payload does not match the mav/expect schema";
            }
            ∷ rest
        | some payload ↦
            if has_unknown_kind payload
            then record {
              id = check.id;
              reason = text "evidence list contains an unknown asset kind";
            }
              ∷ rest
            else rest
      ]

module _ (to_lowercase : Text → Text) where
  unfoldable pub task_of : Text × BucketAccum → Task
  unfolding scope_slug text
  task_of (scope, bucket) =
      let task_id = text "mav-expect-" ++ scope_slug to_lowercase scope in
      record {
        id = task_id;
        extension = text "mav/expect";
        title = text "Validate MAV expectations for " ++ scope;
        satisfies = bucket.satisfies;
        parallelizable = false;
        instructions =
            text "Use MAV to validate:"
            ∷ (map (λ (e : Text). text "  - " ++ e) (keys bucket.expectations)
                ++ (if is_empty (keys bucket.kinds)
                    then []
                    else text "Capture the required evidence:"
                      ∷ map (λ (k : Text). text "  - " ++ k) (keys bucket.kinds))
                ++ (text "Record evidence with `musts evidence "
                    ++ task_id
                    ++ text " --text \"<summary>\" --asset <path>`.")
                  ∷ []);
        evidence_contract = record {
          text = record {
            required = true;
            description = some (text "Summarise which expectations passed and any deviations.");
          };
          assets =
              map (λ (k : Text). record { kind = k; required = true; description = none })
                (keys bucket.kinds);
        };
        command = none;
      }

  unfoldable pub resolve : (Json → Option ExpectWith) → ResolveRequest → ResolveResponse
  unfolding accumulate_all ignored_checks_of task_of
  resolve from_value request = record {
    protocol_version = protocol_version;
    tasks = map task_of (accumulate_all from_value request.checks []);
    ignored_checks = ignored_checks_of from_value request.checks;
    notes = [];
  }
