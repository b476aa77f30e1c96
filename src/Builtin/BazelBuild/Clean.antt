-- ===== src/Builtin/BazelBuild/Clean.antt =====
-- What accepted evidence of a build shows.
use musts.Base.{◌≡◌, true, false, ◌⊎◌, inl, inr, none, Bool-cases, arith}
use musts.Base.Text.{Text, text, contains_text}
use musts.Protocol.{EvidenceValidationRequest}
use musts.Builtin.Accepted.{IsProven, log_evidence-IsProven}
use musts.Builtin.BazelBuild.{build_log_failure, wording, evidence}

-- a log without the line of a failed build
abbrev pub IsBuilt : Text → Type 0
unfolding text
IsBuilt log = contains_text (text "Build did NOT complete successfully") log ≡ false

build_log_failure-IsBuilt : (log : Text) → build_log_failure log ≡ none → IsBuilt log
unfolding build_log_failure text
build_log_failure-IsBuilt log h =
    elim (Bool-cases (contains_text (text "Build did NOT complete successfully") log)) [
      | inl e ↦ ground (arith, e, h)
      | inr e ↦ e
    ]

-- Where evidence of a build is accepted, it satisfies the checks of the task, the text is not blank, no
-- log is empty, and the first log could be read and does not say that the build failed.
pub evidence-IsBuilt :
    (read_to_string : Text → Text → Text ⊎ Text) (request : EvidenceValidationRequest)
    → (evidence read_to_string request).accepted ≡ true
    → IsProven read_to_string IsBuilt request (evidence read_to_string request).satisfies
unfolding evidence
evidence-IsBuilt read_to_string request h =
    log_evidence-IsProven read_to_string wording build_log_failure request IsBuilt
      build_log_failure-IsBuilt h
