-- ===== src/Builtin/BazelBuild.antt =====
-- crates/musts-core/src/builtin/bazel_build.rs: `bazel/build`. The reader of a `with` payload, which serde
-- derives, is the parameter `from_value`.
pub mod Deeper
pub mod Covered
pub mod Clean
use musts.Base.{
  ℕ, Bool, true, false, not, ◌&&◌, ◌||◌, ◌⊎◌, Option, none, some, List, [], ◌∷◌, ◌++◌, map,
  if◌then◌else◌, ltb,
}
use musts.Base.Order.{◌==◌, nat_ord, pair_ord, list_ord}
use musts.Base.Text.{Text, text, starts_with, strip_prefix, contains_text, replace}
use musts.Base.Lists.{length, is_empty, any, filter}
use musts.Base.Map.{BTreeMap, insert, get}
use musts.Json.{Json}
use musts.Protocol.{
  Task, ResolveCheck, ResolveRequest, IgnoredCheck, ResolveResponse, EvidenceValidationRequest,
  EvidenceValidationResponse, protocol_version,
}
use musts.Builtin.{Wording, scope_slug, em_dash, ellipsis, log_evidence}

-- a scope and a target
abbrev pub Key : Type 0
Key = Text × Text

-- the checks of a bucket
abbrev pub Buckets : Type 0
Buckets = BTreeMap Key (List Text)

abbrev pub or_new : Option (List Text) → List Text
or_new none = []
or_new (some ids) = ids

-- `s.starts_with(p)`, and what follows has the byte 47 first
unfoldable pub is_under : Text → Text → Bool
unfolding strip_prefix
is_under candidate scope = elim (strip_prefix scope candidate) [
  | none ↦ false
  | some [] ↦ false
  | some (c ∷ rest) ↦ c == 47
]

unfoldable pub is_root : Text → Bool
unfolding text list_ord
is_root scope = is_empty scope || scope == text "root"

unfoldable pub is_deeper : Text → Text → Bool
unfolding is_root is_under list_ord
is_deeper candidate scope =
    if candidate == scope
    then false
    else if is_root scope
    then not (is_root candidate)
    else is_under candidate scope

-- `target.trim_start_matches("//")`
unfoldable pub trim_slashes : Text → Text
trim_slashes [] = []
trim_slashes (c ∷ []) = c ∷ []
trim_slashes (c ∷ d ∷ s) =
    let rest = trim_slashes s in if (c == 47) && (d == 47) then rest else c ∷ d ∷ s

-- one check of the first loop, with the target that it declares
unfoldable pub add_check : ResolveCheck → Option Text → Buckets → Buckets
unfolding insert get
add_check check none out = out
add_check check (some target) out =
    insert (check.scope_path, target) (or_new (get (check.scope_path, target) out) ++ check.id ∷ [])
      out

module _ (from_value : Json → Option Text) where
  -- the first loop: the buckets, and the malformed checks
  unfoldable pub bucket : List ResolveCheck → Buckets → Buckets
  unfolding add_check
  bucket [] out = out
  bucket (check ∷ checks) out = bucket checks (add_check check (from_value check.with_payload) out)

  unfoldable pub malformed : List ResolveCheck → List Text
  malformed [] = []
  malformed (check ∷ checks) =
      let rest = malformed checks in
      elim (from_value check.with_payload) [ none ↦ check.id ∷ rest | some target ↦ rest ]

-- `scope_paths.iter().any(|other| is_deeper(other, scope))`, over the buckets' scopes
unfoldable pub is_subsumed : Buckets → Key → Bool
unfolding any is_deeper
is_subsumed buckets key = any (λ (b : Key × List Text). is_deeper b.0.0 key.0) buckets

unfoldable pub winners : Buckets → List (Key × List Text)
unfolding filter is_subsumed
winners buckets = filter (λ b. not (is_subsumed buckets b.0)) buckets

unfoldable pub ignored_id : Text → Text → IgnoredCheck
ignored_id reason id = record { id = id; reason = reason }

-- the checks of the scopes that are not winners
unfoldable pub subsumed_in : Buckets → Buckets → List IgnoredCheck
unfolding is_subsumed ignored_id text
subsumed_in buckets [] = []
subsumed_in buckets ((key, ids) ∷ rest) =
    let more = subsumed_in buckets rest in
    if is_subsumed buckets key
    then map (ignored_id (text "subsumed by a deeper bazel/build target in the same run")) ids
      ++ more
    else more

-- the checks of every shallower scope
unfoldable pub ancestors_in : Text → Buckets → List Text
unfolding is_deeper
ancestors_in scope [] = []
ancestors_in scope ((key, ids) ∷ rest) =
    let more = ancestors_in scope rest in if is_deeper scope key.0 then ids ++ more else more

-- `winners_per_scope[&scope]`
unfoldable pub winners_at : Text → List (Key × List Text) → ℕ
unfolding filter list_ord
winners_at scope ws = length (filter (λ w. w.0.0 == scope) ws)

module _ (to_lowercase : Text → Text) where
  unfoldable pub target_slug : Text → Text
  unfolding trim_slashes replace text
  target_slug target =
      to_lowercase (replace 58 (text "-") (replace 47 (text "-") (trim_slashes target)))

  unfoldable pub task_id : Buckets → Key → Text
  unfolding winners_at winners scope_slug target_slug text
  task_id buckets (scope, target) =
      if ltb 1 (winners_at scope (winners buckets))
      then text "bazel-build-" ++ scope_slug to_lowercase scope ++ text "-" ++ target_slug target
      else text "bazel-build-" ++ scope_slug to_lowercase scope

  unfoldable pub task_of : Buckets → Key × List Text → Task
  unfolding task_id ancestors_in text
  task_of buckets ((scope, target), ids) = record {
    id = task_id buckets (scope, target);
    extension = text "bazel/build";
    title = text "Build " ++ target;
    satisfies = ids ++ ancestors_in scope buckets;
    parallelizable = true;
    instructions =
        (text "Run `bazel build " ++ target ++ text "`.")
        ∷ text "Capture stdout/stderr as a log asset."
        ∷ (text "Record the result with `musts evidence <task-id> --text \""
            ++ ellipsis
            ++ text "\" --asset <log>`.")
        ∷ [];
    evidence_contract = record {
      text = record {
        required = true;
        description = some (text "State the command that was run and whether it succeeded.");
      };
      assets =
          record {
            kind = text "log";
            required = true;
            description = some (text "Bazel stdout/stderr log.");
          }
          ∷ [];
    };
    command = some (text "bazel" ∷ text "build" ∷ target ∷ []);
  }

  unfoldable pub resolve : (Json → Option Text) → ResolveRequest → ResolveResponse
  unfolding bucket malformed winners subsumed_in task_of ignored_id text
  resolve from_value request =
      let buckets = bucket from_value request.checks [] in
      record {
        protocol_version = protocol_version;
        tasks = map (task_of buckets) (winners buckets);
        ignored_checks =
            subsumed_in buckets buckets
            ++ map (ignored_id (text "with-payload does not match the bazel/build schema"))
                (malformed from_value request.checks);
        notes = [];
      }

unfoldable pub build_log_failure : Text → Option Text
unfolding contains_text text
build_log_failure log =
    if contains_text (text "Build did NOT complete successfully") log
    then some (
        text "Log contains `Build did NOT complete successfully` "
        ++ em_dash
        ++ text " the build failed. Fix it and re-capture.")
    else none

unfoldable pub wording : Wording
unfolding text
wording = record {
  no_text = text "Provide a text summary stating the build command and whether it succeeded.";
  no_log =
      text "Attach the bazel stdout/stderr as a log file (`text/*` or `application/octet-stream`).";
  real = text "build";
  name = text "Build";
}

unfoldable pub evidence :
    (Text → Text → Text ⊎ Text) → EvidenceValidationRequest → EvidenceValidationResponse
unfolding log_evidence wording build_log_failure
evidence read_to_string request = log_evidence read_to_string wording build_log_failure request
