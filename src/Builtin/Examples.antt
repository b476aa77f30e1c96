-- ===== src/Builtin/Examples.antt =====
-- Requests and submissions of the built-in capabilities, and the theorems at them.
use mathlib.Core.List.{Memᴰ}
use mathlib.Core.List.Memᴰ.{head, tail}
use musts.Base.{List, false, ◌≡◌, refl, true, inr, ◌⊎◌, none, some, [], ◌∷◌}
use musts.Base.Text.{Text, text, trim}
use musts.Base.Order.{nat_ord, pair_ord, list_ord}
use musts.Base.Lists.{is_empty, All, all, contains}
use musts.Json.{Json}
use musts.Protocol.{
  Task, ResolveCheck, ResolveRequest, EvidenceValidationRequest, EvidenceValidationResponse,
}
use musts.Builtin.{or_empty, inspect, log_evidence, missing_of, incomplete, respond}
use musts.Builtin.Accepted.{IsProven}
use musts.Builtin.Jev
use musts.Builtin.Jev.{JevEnv}
use musts.Builtin.Jev.Samples.{AreJudged, AreTasks, check_tasks-AreJudged}
use musts.Builtin.Mav.Judgement
use musts.Builtin.Mav.Judgement.{JsonFile, classify, required_kinds}
use musts.Builtin.Mav.Required.{IsMet, evidence-IsMet}
use musts.Builtin.Cargo
use musts.Builtin.Cargo.{Capability}
use musts.Builtin.Cargo.Clean.{IsClean, evidence-IsClean}
use musts.Builtin.BazelBuild
use musts.Builtin.BazelBuild.Covered.{resolve-covers}
use musts.Builtin.BazelTest
use musts.Builtin.BazelTest.Targets.{IsRun, resolve-IsRun}

abbrev check : Text → Text → ResolveCheck
check id scope = record {
  id = id;
  local_id = [];
  manifest_path = [];
  scope_path = scope;
  depth = 0;
  with_payload = Json.null;
}

-- two checks at the root and one below it
abbrev request : ResolveRequest
request = record {
  protocol_version = 1;
  workspace_root = [];
  capability = [];
  changed_files = [];
  checks = check (97 ∷ []) [] ∷ check (98 ∷ []) [] ∷ check (99 ∷ []) (120 ∷ []) ∷ [];
  snapshot = record { handle = []; dirty_scopes = [] };
}

abbrev to_lowercase : Text → Text
to_lowercase t = t

resolve-covers_example :
    (task : Task) × Memᴰ task (BazelBuild.resolve to_lowercase (λ j. some (116 ∷ [])) request).tasks
    × (contains (97 ∷ []) task.satisfies ≡ true)
resolve-covers_example =
    resolve-covers (λ j. some (116 ∷ [])) to_lowercase request (check (97 ∷ []) []) (116 ∷ [])
      (head refl) refl

resolve-IsRun_example :
    (task : Task) × Memᴰ task
      (BazelTest.resolve to_lowercase (λ j. some ((116 ∷ []) ∷ [] ∷ [])) request).tasks
    × IsRun (check (98 ∷ []) []) ((116 ∷ []) ∷ [] ∷ []) task
unfolding all BazelTest.is_blank trim
resolve-IsRun_example =
    resolve-IsRun (λ j. some ((116 ∷ []) ∷ [] ∷ [])) to_lowercase request (check (98 ∷ []) [])
      ((116 ∷ []) ∷ [] ∷ []) (tail (head refl)) refl refl

abbrev submission : EvidenceValidationRequest
unfolding text
submission = record {
  protocol_version = 1;
  workspace_root = [];
  task = record {
    id = [];
    extension = text "cargo/test";
    satisfies = (97 ∷ []) ∷ [];
    evidence_contract = record {
      text = record { required = true; description = none };
      assets = [];
    };
  };
  submission = record {
    text = some (text "green");
    assets = record { path = text "log"; mime = text "text/plain"; size = 16 } ∷ [];
  };
  snapshot = record { handle = []; dirty_scopes = [] };
}

abbrev read_to_string : Text → Text → Text ⊎ Text
unfolding text
read_to_string root path = inr (text "test result: ok.")

-- the response to it
abbrev response : EvidenceValidationResponse
response =
    log_evidence read_to_string (Cargo.wording Capability.test)
      (Cargo.capability_failure Capability.test) submission

evidence-IsClean_example :
    (capability : Capability) × (Cargo.parse submission.task.extension ≡ some capability)
    × IsProven read_to_string (IsClean capability) submission response.satisfies
unfolding Cargo.evidence Cargo.parse log_evidence respond missing_of incomplete inspect
    Cargo.capability_failure
evidence-IsClean_example = evidence-IsClean read_to_string submission response refl refl

abbrev jev_env : JevEnv
jev_env = record {
  to_lowercase = λ t. t;
  slug = λ t. t;
  print = λ j. [];
  git_diff = λ root since dir. none;
}

-- two changed files, one of them in the folder of the third check
abbrev changed : ResolveRequest
changed = record request { changed_files = (121 ∷ []) ∷ (120 ∷ 47 ∷ 122 ∷ []) ∷ [] }

check_tasks-AreJudged_example :
    (files : List Text) × AreJudged jev_env changed (check (99 ∷ []) (120 ∷ [])) files
    × AreTasks jev_env changed
        (check (99 ∷ []) (120 ∷ []))
        files
        (Jev.check_tasks jev_env changed (check (99 ∷ []) (120 ∷ [])))
check_tasks-AreJudged_example = check_tasks-AreJudged jev_env changed (check (99 ∷ []) (120 ∷ []))

-- a picture, which the contract requires
abbrev pictured : EvidenceValidationRequest
unfolding text
pictured = record submission {
  task = record {
    id = [];
    extension = text "mav/expect";
    satisfies = (97 ∷ []) ∷ [];
    evidence_contract = record {
      text = record { required = true; description = none };
      assets = record { kind = text "screenshot"; required = true; description = none } ∷ [];
    };
  };
  submission = record {
    text = some (text "seen");
    assets = record { path = text "p"; mime = text "image/png"; size = 3 } ∷ [];
  };
}

abbrev open_json : Text → Text → JsonFile
open_json root path = JsonFile.parsed

evidence-IsMet_example :
    ((Judgement.evidence open_json pictured).satisfies ≡ (97 ∷ []) ∷ [])
    × (is_empty (trim (or_empty pictured.submission.text)) ≡ false)
    × All
        (IsMet open_json [] (classify pictured.submission.assets []))
        (required_kinds pictured.task.evidence_contract.assets)
unfolding Judgement.evidence pictured
evidence-IsMet_example = evidence-IsMet open_json pictured refl
