-- ===== src/Builtin/Agent.antt =====
-- crates/musts-core/src/builtin/agent.rs: `agent`. The reader of a `with` payload, which serde derives, is the
-- parameter `from_value`.
use musts.Base.{true, false, Option, none, some, List, [], ◌∷◌, ◌++◌, map, if◌then◌else◌}
use musts.Base.Order.{◌==◌, nat_ord, list_ord}
use musts.Base.Text.{Text, text, trim}
use musts.Base.Lists.{length, is_empty}
use musts.Base.Map.{BTreeMap, insert, get}
use musts.Json.{Json}
use musts.Ledger.{decimal}
use musts.Protocol.{
  Task, ResolveCheck, ResolveRequest, IgnoredCheck, ResolveResponse, EvidenceAsset,
  EvidenceValidationRequest, EvidenceValidationResponse, protocol_version,
}
use musts.Builtin.{scope_slug, plural, or_empty, is_image, is_video, is_json, is_log_or_text}

pub record Facts : Type 0 where
  pub satisfies : List Text
  pub facts : List Text

-- `Bucket::default()`
abbrev pub or_no_facts : Option Facts → Facts
or_no_facts none = record { satisfies = []; facts = [] }
or_no_facts (some bucket) = bucket

-- one check of the loop, with the facts that it declares
unfoldable pub add_facts :
    ResolveCheck → Option (List Text) → BTreeMap Text Facts → BTreeMap Text Facts
unfolding insert get
add_facts check none out = out
add_facts check (some facts) out =
    let bucket = or_no_facts (get check.scope_path out) in
    insert check.scope_path
      (record { satisfies = bucket.satisfies ++ check.id ∷ []; facts = bucket.facts ++ facts }) out

module _ (from_value : Json → Option (List Text)) where
  unfoldable pub facts_of : List ResolveCheck → BTreeMap Text Facts → BTreeMap Text Facts
  unfolding add_facts
  facts_of [] out = out
  facts_of (check ∷ checks) out =
      facts_of checks (add_facts check (from_value check.with_payload) out)

  unfoldable pub unreadable : List ResolveCheck → List IgnoredCheck
  unfolding text
  unreadable [] = []
  unreadable (check ∷ checks) =
      let rest = unreadable checks in
      elim (from_value check.with_payload) [
        | none ↦
            record { id = check.id; reason = text "with-payload does not match the agent schema" }
            ∷ rest
        | some facts ↦ rest
      ]

module _ (to_lowercase : Text → Text) where
  unfoldable pub task_of : Text × Facts → Task
  unfolding scope_slug text list_ord
  task_of (scope, bucket) = record {
    id = text "agent-" ++ scope_slug to_lowercase scope;
    extension = text "agent";
    title =
        if scope == text "root"
        then text "Agent: verify facts at the workspace root"
        else text "Agent: verify facts under " ++ scope;
    satisfies = bucket.satisfies;
    parallelizable = true;
    instructions =
        text "Verify each of these facts about the current workspace state:"
        ∷ (map (λ (f : Text). text "  - " ++ f) bucket.facts
            ++ (text "Record evidence with `musts evidence agent-"
                ++ scope_slug to_lowercase scope
                ++ text
                    " --text \"<summary>\"`; attach any screenshots, logs, or other assets that support your conclusion.")
              ∷ []);
    evidence_contract = record {
      text = record {
        required = true;
        description =
            some (text "Summarise which facts you verified and how (one paragraph is plenty).");
      };
      assets = [];
    };
    command = none;
  }

  unfoldable pub resolve : (Json → Option (List Text)) → ResolveRequest → ResolveResponse
  unfolding facts_of unreadable task_of
  resolve from_value request = record {
    protocol_version = protocol_version;
    tasks = map task_of (facts_of from_value request.checks []);
    ignored_checks = unreadable from_value request.checks;
    notes = [];
  }

unfoldable pub classify_asset : EvidenceAsset → Text
unfolding is_image is_video is_json is_log_or_text text
classify_asset asset =
    if is_image asset
    then text "screenshot"
    else if is_video asset
    then text "video"
    else if is_json asset
    then text "json"
    else if is_log_or_text asset
    then text "log"
    else text "asset"

unfoldable pub evidence : EvidenceValidationRequest → EvidenceValidationResponse
unfolding trim text classify_asset decimal
evidence request =
    if is_empty (trim (or_empty request.submission.text))
    then record {
      protocol_version = protocol_version;
      accepted = false;
      satisfies = [];
      summary = none;
      normalized_assets = [];
      missing =
          record {
            kind = text "text";
            message = text "Provide a text summary of which facts you verified.";
          }
          ∷ [];
      message = some (text "Evidence is incomplete.");
    }
    else record {
      protocol_version = protocol_version;
      accepted = true;
      satisfies = request.task.satisfies;
      summary = some (
          text "Agent verification accepted ("
          ++ decimal (length request.submission.assets)
          ++ text " asset"
          ++ plural (length request.submission.assets)
          ++ text ").");
      normalized_assets =
          map (λ (a : EvidenceAsset). record { kind = classify_asset a; path = a.path })
            request.submission.assets;
      missing = [];
      message = none;
    }
