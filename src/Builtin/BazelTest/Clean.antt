-- ===== src/Builtin/BazelTest/Clean.antt =====
-- What accepted evidence of a test run shows.
use musts.Base.{
  ◌≡◌, true, false, ◌⊎◌, inl, inr, none, List, [], ◌∷◌, Bool-cases, Option-cases, arith,
}
use musts.Base.Text.{Text, text, contains_text, starts_with, trim_start, lines}
use musts.Base.Lists.{All}
use musts.Protocol.{EvidenceValidationRequest}
use musts.Builtin.Accepted.{IsProven, log_evidence-IsProven}
use musts.Builtin.BazelTest.{
  markers, find_marker, find_failed, bad_status, test_log_failure, wording, evidence,
}

-- a line that is not of a target with a bad status
abbrev pub IsFine : Text → Type 0
unfolding text
IsFine line = starts_with (text "//") (trim_start line) ≡ true → bad_status (trim_start line) ≡ none

abbrev pub IsPassed : Text → Type 0
IsPassed log =
    All (λ (m : Text × Text). contains_text m.0 log ≡ false) markers × All IsFine (lines log)

find_marker-none :
    (ms : List (Text × Text)) (log : Text)
    → find_marker ms log ≡ none
    → All (λ (m : Text × Text). contains_text m.0 log ≡ false) ms
unfolding find_marker
find_marker-none [] log h = tt
find_marker-none ((marker, why) ∷ ms) log h = elim (Bool-cases (contains_text marker log)) [
  | inl e ↦ ground (arith, e, h)
  | inr e ↦ (e, find_marker-none ms log (ground (arith, e, h)))
]

find_failed-none : (ls : List Text) → find_failed ls ≡ none → All IsFine ls
unfolding find_failed text
find_failed-none [] h = tt
find_failed-none (line ∷ ls) h = elim (Bool-cases (starts_with (text "//") (trim_start line))) [
  | inr e ↦ ((λ k. ground (arith, e, k)), find_failed-none ls (ground (arith, e, h)))
  | inl e ↦ elim (Option-cases (bad_status (trim_start line))) [
    | inl f ↦ ((λ k. f), find_failed-none ls (ground (arith, e, f, h)))
    | inr (status, f) ↦ ground (arith, e, f, h)
  ]
]

test_log_failure-IsPassed : (log : Text) → test_log_failure log ≡ none → IsPassed log
unfolding test_log_failure
test_log_failure-IsPassed log h = elim (Option-cases (find_marker markers log)) [
  | inl e ↦ (find_marker-none markers log e, find_failed-none (lines log) (ground (arith, e, h)))
  | inr (message, e) ↦ ground (arith, e, h)
]

-- Where evidence of a test run is accepted, it satisfies the checks of the task, the text is not blank, no
-- log is empty, and the first log could be read, has none of the three markers of a failure, and has
-- no line of a target with a bad status.
pub evidence-IsPassed :
    (read_to_string : Text → Text → Text ⊎ Text) (request : EvidenceValidationRequest)
    → (evidence read_to_string request).accepted ≡ true
    → IsProven read_to_string IsPassed request (evidence read_to_string request).satisfies
unfolding evidence
evidence-IsPassed read_to_string request h =
    log_evidence-IsProven read_to_string wording test_log_failure request IsPassed
      test_log_failure-IsPassed h
