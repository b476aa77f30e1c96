-- ===== src/Builtin/Cargo.antt =====
-- crates/musts-core/src/builtin/cargo.rs: `cargo/fmt`, `cargo/clippy` and `cargo/test`.
pub mod Clean
use musts.Base.{
  Bool, true, false, ◌||◌, ◌⊎◌, inl, inr, Option, none, some, List, [], ◌∷◌, ◌++◌, if◌then◌else◌,
}
use musts.Base.Order.{◌==◌, nat_ord, list_ord}
use musts.Base.Text.{Text, text, starts_with, contains_text, lines, trim}
use musts.Base.Lists.{find}
use musts.Json.{Json, Fields}
use musts.Protocol.{
  Task, ResolveCheck, ResolveRequest, IgnoredCheck, ResolveResponse, EvidenceValidationRequest,
  EvidenceValidationResponse, protocol_version,
}
use musts.Builtin.{Wording, scope_slug, em_dash, ellipsis, log_evidence}

pub data Capability : Type 0 where
  fmt clippy test : Capability

-- `Capability::parse`
unfoldable pub parse : Text → Option Capability
unfolding text list_ord
parse uses =
    if uses == text "cargo/fmt"
    then some Capability.fmt
    else if uses == text "cargo/clippy"
    then some Capability.clippy
    else if uses == text "cargo/test"
    then some Capability.test
    else none

unfoldable pub slug : Capability → Text
unfolding text
slug Capability.fmt = text "fmt"
slug Capability.clippy = text "clippy"
slug Capability.test = text "test"

unfoldable pub command : Capability → Text
unfolding text
command Capability.fmt = text "cargo fmt --check"
command Capability.clippy = text "cargo clippy --workspace --all-targets -- -D warnings"
command Capability.test = text "cargo test --workspace"

unfoldable pub command_argv : Capability → List Text
unfolding text
command_argv Capability.fmt = text "cargo" ∷ text "fmt" ∷ text "--check" ∷ []
command_argv Capability.clippy =
    text "cargo"
    ∷ text "clippy"
    ∷ text "--workspace"
    ∷ text "--all-targets"
    ∷ text "--"
    ∷ text "-D"
    ∷ text "warnings"
    ∷ []
command_argv Capability.test = text "cargo" ∷ text "test" ∷ text "--workspace" ∷ []

unfoldable pub text_description : Capability → Text
unfolding text
text_description Capability.fmt = text "State whether `cargo fmt --check` reported any diffs."
text_description Capability.clippy =
    text "State whether `cargo clippy --workspace --all-targets -- -D warnings` was clean."
text_description Capability.test = text "State whether `cargo test --workspace` was green."

unfoldable pub log_description : Capability → Text
unfolding text
log_description Capability.fmt = text "Stdout/stderr from `cargo fmt --check`."
log_description Capability.clippy = text "Stdout/stderr from `cargo clippy`."
log_description Capability.test = text "Stdout/stderr from `cargo test`."

unfoldable pub is_empty_object : Json → Bool
is_empty_object (Json.object Fields.end) = true
is_empty_object (Json.object (Fields.field key value rest)) = false
is_empty_object Json.null = true
is_empty_object _ = false

module _ (to_lowercase : Text → Text) where
  unfoldable pub task_of : Text → Capability → ResolveCheck → Task
  unfolding text slug command command_argv text_description log_description scope_slug
  task_of uses capability check =
      let scope = scope_slug to_lowercase check.scope_path in
      record {
        id = text "cargo-" ++ slug capability ++ text "-" ++ scope;
        extension = uses;
        title = text "Run `" ++ command capability ++ text "`";
        satisfies = check.id ∷ [];
        parallelizable = true;
        instructions =
            (text "Run `" ++ command capability ++ text "` from the workspace root.")
            ∷ text
                "Capture combined stdout/stderr to a file (outside the workspace so the snapshot hash does not change while you submit)."
            ∷ (text "Record the result with `musts evidence cargo-"
                ++ slug capability
                ++ text "-"
                ++ scope
                ++ text " --text \""
                ++ ellipsis
                ++ text "\" --asset <log>`.")
            ∷ [];
        evidence_contract = record {
          text = record { required = true; description = some (text_description capability) };
          assets =
              record {
                kind = text "log";
                required = true;
                description = some (log_description capability);
              }
              ∷ [];
        };
        command = some (command_argv capability);
      }

  -- the loop over the checks
  unfoldable pub resolve_checks :
      Text → Capability → List ResolveCheck → List Task × List IgnoredCheck
  unfolding task_of is_empty_object slug text
  resolve_checks uses capability [] = ([], [])
  resolve_checks uses capability (check ∷ checks) =
      let rest = resolve_checks uses capability checks in
      if is_empty_object check.with_payload
      then (task_of uses capability check ∷ rest.0, rest.1)
      else (
        rest.0,
        record {
          id = check.id;
          reason = text "cargo/" ++ slug capability ++ text " takes no `with` parameters";
        }
            ∷ rest.1,
      )

  -- `resolve`, where an unknown capability is an error
  unfoldable pub resolve : ResolveRequest → Option ResolveResponse
  unfolding parse resolve_checks
  resolve request = elim (parse request.capability) [
    | none ↦ none
    | some capability ↦
        let r = resolve_checks request.capability capability request.checks in
        some (record {
          protocol_version = protocol_version;
          tasks = r.0;
          ignored_checks = r.1;
          notes = [];
        })
  ]

-- `line.starts_with("error:") || line.starts_with("warning:")`
unfoldable pub is_diagnostic : Text → Bool
unfolding starts_with text
is_diagnostic line = starts_with (text "error:") line || starts_with (text "warning:") line

unfoldable pub capability_failure : Capability → Text → Option Text
unfolding contains_text text find lines is_diagnostic trim
capability_failure Capability.fmt log =
    if contains_text (text "Diff in ") log
    then some (
        text "Log contains `Diff in ` markers "
        ++ em_dash
        ++ text " `cargo fmt --check` reported diffs. Run `cargo fmt` and re-capture.")
    else none
capability_failure Capability.clippy log = elim (find is_diagnostic (lines log)) [
  | none ↦ none
  | some line ↦ some (
      text "Log contains a clippy diagnostic ("
      ++ trim line
      ++ text "). With `-D warnings` this must be resolved before evidence is accepted.")
]
capability_failure Capability.test log =
    if contains_text (text "test result: FAILED") log
    then some (text "Log contains `test result: FAILED`. Fix the failing tests and re-capture.")
    else if contains_text (text "test result: ok.") log
    then none
    else some (
        text
          "Log is missing the `test result: ok.` summary line; the run may have been truncated or never reached the end.")

unfoldable pub wording : Capability → Wording
unfolding text command slug
wording capability = record {
  no_text = text "Provide a one-line summary stating whether the command succeeded.";
  no_log =
      text "Attach the stdout/stderr of `"
      ++ command capability
      ++ text "` as a `text/*` or `application/octet-stream` asset.";
  real = text "command";
  name = text "cargo/" ++ slug capability;
}

-- `evidence`, where an unknown capability is an error
unfoldable pub evidence :
    (Text → Text → Text ⊎ Text) → EvidenceValidationRequest → Option EvidenceValidationResponse
unfolding parse log_evidence wording capability_failure
evidence read_to_string request = elim (parse request.task.extension) [
  | none ↦ none
  | some capability ↦
      some
        (log_evidence read_to_string (wording capability) (capability_failure capability) request)
]
