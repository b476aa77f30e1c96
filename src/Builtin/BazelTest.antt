-- ===== src/Builtin/BazelTest.antt =====
-- crates/musts-core/src/builtin/bazel_test.rs: `bazel/test`. The reader of a `with` payload, which serde
-- derives, is the parameter `from_value`.
pub mod Targets
pub mod Clean
use musts.Base.{
  ℕ, Bool, true, false, not, ◌&&◌, ◌||◌, ◌⊎◌, Option, none, some, List, [], ◌∷◌, ◌++◌, map,
  if◌then◌else◌,
}
use musts.Base.Order.{◌==◌, nat_ord, list_ord}
use musts.Base.Text.{
  Text, text, starts_with, contains_text, lines, join, trim, trim_start, first_word,
}
use musts.Base.Lists.{length, is_empty, all, filter}
use musts.Base.Map.{BTreeMap, BTreeSet, insert, get, keys, add_all}
use musts.Json.{Json}
use musts.Ledger.{decimal}
use musts.Protocol.{
  Task, ResolveCheck, ResolveRequest, IgnoredCheck, ResolveResponse, EvidenceValidationRequest,
  EvidenceValidationResponse, protocol_version,
}
use musts.Builtin.{Wording, scope_slug, em_dash, ellipsis, plural, log_evidence}

pub record Bucket : Type 0 where
  pub targets : BTreeSet Text
  pub satisfies : List Text

-- `Bucket::default()`
abbrev pub or_default : Option Bucket → Bucket
or_default none = record { targets = []; satisfies = [] }
or_default (some bucket) = bucket

unfoldable pub is_blank : Text → Bool
unfolding trim
is_blank target = is_empty (trim target)

unfoldable pub extend : ResolveCheck → List Text → Bucket → Bucket
unfolding filter is_blank add_all
extend check targets bucket = record {
  targets = add_all (filter (λ t. not (is_blank t)) targets) bucket.targets;
  satisfies = bucket.satisfies ++ check.id ∷ [];
}

-- one check of the loop, with the targets that it declares
unfoldable pub add_check :
    ResolveCheck → Option (List Text) → BTreeMap Text Bucket → BTreeMap Text Bucket
unfolding insert get all is_blank extend
add_check check none out = out
add_check check (some targets) out =
    if all is_blank targets
    then out
    else insert check.scope_path (extend check targets (or_default (get check.scope_path out))) out

module _ (from_value : Json → Option (List Text)) where
  -- the loop over the checks: the buckets, and what is ignored
  unfoldable pub bucket_of : List ResolveCheck → BTreeMap Text Bucket → BTreeMap Text Bucket
  unfolding add_check
  bucket_of [] out = out
  bucket_of (check ∷ checks) out =
      bucket_of checks (add_check check (from_value check.with_payload) out)

  unfoldable pub ignored_of : List ResolveCheck → List IgnoredCheck
  unfolding all is_blank text
  ignored_of [] = []
  ignored_of (check ∷ checks) =
      let rest = ignored_of checks in
      elim (from_value check.with_payload) [
        | none ↦
            record {
              id = check.id;
              reason = text "with-payload does not match the bazel/test schema";
            }
            ∷ rest
        | some targets ↦
            if all is_blank targets
            then record { id = check.id; reason = text "no non-empty bazel/test targets declared" }
              ∷ rest
            else rest
      ]

unfoldable pub argv_of : Bucket → List Text
unfolding text
argv_of bucket =
    text "bazel" ∷ text "test" ∷ (keys bucket.targets ++ text "--test_output=errors" ∷ [])

module _ (to_lowercase : Text → Text) where
  unfoldable pub task_of : Text × Bucket → Task
  unfolding argv_of scope_slug text decimal join
  task_of (scope, bucket) =
      let targets = keys bucket.targets in
      record {
        id = text "bazel-test-" ++ scope_slug to_lowercase scope;
        extension = text "bazel/test";
        title =
            text "Test " ++ decimal (length targets) ++ text " target" ++ plural (length targets);
        satisfies = bucket.satisfies;
        parallelizable = true;
        instructions =
            (text "Run `" ++ join (text " ") (argv_of bucket) ++ text "`.")
            ∷ text "Capture stdout/stderr as a log asset."
            ∷ (text "Record the result with `musts evidence <task-id> --text \""
                ++ ellipsis
                ++ text "\" --asset <log>`.")
            ∷ text
                "If you already ran these tests with the musts stamp, record them with `musts record <task-id>` instead of re-running (docs/record.md)."
            ∷ [];
        evidence_contract = record {
          text = record {
            required = true;
            description =
                some (text "State the command that was run and whether every test passed.");
          };
          assets =
              record {
                kind = text "log";
                required = true;
                description = some (text "bazel test stdout/stderr log.");
              }
              ∷ [];
        };
        command = some (argv_of bucket);
      }

  unfoldable pub resolve : (Json → Option (List Text)) → ResolveRequest → ResolveResponse
  unfolding bucket_of ignored_of task_of
  resolve from_value request = record {
    protocol_version = protocol_version;
    tasks = map task_of (bucket_of from_value request.checks []);
    ignored_checks = ignored_of from_value request.checks;
    notes = [];
  }

-- `MARKERS`
unfoldable pub markers : List (Text × Text)
unfolding text
markers =
    (text "Build did NOT complete successfully", text "the build under test failed")
    ∷ (text "FAILED TO BUILD", text "a test target failed to build")
    ∷ (text "Executed 0 out of 0 tests", text "no tests ran at all")
    ∷ []

-- the loop over the markers
unfoldable pub find_marker : List (Text × Text) → Text → Option Text
unfolding contains_text text
find_marker [] log = none
find_marker ((marker, why) ∷ ms) log =
    if contains_text marker log
    then some (
        text "Log contains `"
        ++ marker
        ++ text "` "
        ++ em_dash
        ++ text " "
        ++ why
        ++ text ". Fix it and re-capture.")
    else find_marker ms log

unfoldable pub failed_target : Text → Text → Text
unfolding text first_word
failed_target status trimmed =
    text "Log records a `"
    ++ status
    ++ text "` test target ("
    ++ first_word trimmed
    ++ text "). Fix it and re-capture."

unfoldable pub bad_status : Text → Option Text
unfolding contains_text text
bad_status trimmed =
    if contains_text (text "FAILED") trimmed
    then some (text "FAILED")
    else if contains_text (text "TIMEOUT") trimmed
    then some (text "TIMEOUT")
    else none

unfoldable pub find_failed : List Text → Option Text
unfolding trim_start starts_with text bad_status failed_target
find_failed [] = none
find_failed (line ∷ ls) =
    let rest = find_failed ls in
    let trimmed = trim_start line in
    if starts_with (text "//") trimmed
    then elim (bad_status trimmed) [
      | none ↦ rest
      | some status ↦ some (failed_target status trimmed)
    ]
    else rest

unfoldable pub test_log_failure : Text → Option Text
unfolding markers find_marker find_failed lines
test_log_failure log = elim (find_marker markers log) [
  | some message ↦ some message
  | none ↦ find_failed (lines log)
]

unfoldable pub wording : Wording
unfolding text
wording = record {
  no_text = text "Provide a text summary stating the test command and whether every test passed.";
  no_log =
      text
        "Attach the bazel test stdout/stderr as a log file (`text/*` or `application/octet-stream`).";
  real = text "test";
  name = text "bazel/test";
}

unfoldable pub evidence :
    (Text → Text → Text ⊎ Text) → EvidenceValidationRequest → EvidenceValidationResponse
unfolding log_evidence wording test_log_failure
evidence read_to_string request = log_evidence read_to_string wording test_log_failure request
