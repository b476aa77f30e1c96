-- ===== src/Builtin/Cargo/Clean.antt =====
-- What accepted evidence of a cargo command shows.
use musts.Base.{
  ◌≡◌, ◌∙◌, ap, subst, true, false, ◌⊎◌, inl, inr, none, some, List, [], ◌∷◌, Bool-cases,
  Option-cases, arith,
}
use musts.Base.Text.{Text, text, contains_text, lines}
use musts.Base.Lists.{find, All}
use musts.Protocol.{EvidenceValidationRequest, EvidenceValidationResponse}
use musts.Builtin.{log_evidence}
use musts.Builtin.Accepted.{IsProven, log_evidence-IsProven}
use musts.Builtin.Cargo.{Capability, parse, is_diagnostic, capability_failure, wording, evidence}

-- what a clean log of each command is
abbrev pub IsClean : Capability → Text → Type 0
unfolding text
IsClean Capability.fmt log = contains_text (text "Diff in ") log ≡ false
IsClean Capability.clippy log = All (λ line. is_diagnostic line ≡ false) (lines log)
IsClean Capability.test log =
    (contains_text (text "test result: ok.") log ≡ true)
    × (contains_text (text "test result: FAILED") log ≡ false)

none_diagnostic :
    (ls : List Text) → find is_diagnostic ls ≡ none → All (λ line. is_diagnostic line ≡ false) ls
unfolding find
none_diagnostic [] h = tt
none_diagnostic (line ∷ ls) h = elim (Bool-cases (is_diagnostic line)) [
  | inl e ↦ ground (arith, e, h)
  | inr e ↦ (e, none_diagnostic ls (ground (arith, e, h)))
]

capability_failure-IsClean :
    (capability : Capability) (log : Text)
    → capability_failure capability log ≡ none
    → IsClean capability log
unfolding capability_failure text
capability_failure-IsClean Capability.fmt log h =
    elim (Bool-cases (contains_text (text "Diff in ") log)) [
      | inl e ↦ ground (arith, e, h)
      | inr e ↦ e
    ]
capability_failure-IsClean Capability.clippy log h =
    elim (Option-cases (find is_diagnostic (lines log))) [
      | inl e ↦ none_diagnostic (lines log) e
      | inr (line, e) ↦ ground (arith, e, h)
    ]
capability_failure-IsClean Capability.test log h =
    elim (Bool-cases (contains_text (text "test result: FAILED") log)) [
      | inl e ↦ ground (arith, e, h)
      | inr e ↦ elim (Bool-cases (contains_text (text "test result: ok.") log)) [
        | inl f ↦ (f, e)
        | inr f ↦ ground (arith, e, f, h)
      ]
    ]

-- Where a cargo capability accepts evidence, it is one of the three, it satisfies the checks of the task,
-- the text is not blank, no log is empty, and the first log could be read and is clean: without a diff
-- for `fmt`, without a line that begins with `error:` or `warning:` for `clippy`, and with
-- `test result: ok.` and without `test result: FAILED` for `test`.
pub evidence-IsClean :
    (read_to_string : Text → Text → Text ⊎ Text) (request : EvidenceValidationRequest)
    (response : EvidenceValidationResponse)
    → evidence read_to_string request ≡ some response
    → response.accepted ≡ true
    → (capability : Capability) × (parse request.task.extension ≡ some capability)
      × IsProven read_to_string (IsClean capability) request response.satisfies
unfolding evidence
evidence-IsClean read_to_string request response h accepted =
    elim (Option-cases (parse request.task.extension)) [
      | inl e ↦ ground (arith, e, h)
      | inr (capability, e) ↦
          let out =
            log_evidence read_to_string (wording capability) (capability_failure capability)
              request in
          let same : out ≡ response = ground (arith, e, h) in
          (
            capability,
            e,
            subst
                (λ (r : EvidenceValidationResponse).
                  IsProven read_to_string (IsClean capability) request r.satisfies)
                same
                (log_evidence-IsProven read_to_string (wording capability)
                  (capability_failure capability) request (IsClean capability)
                  (capability_failure-IsClean capability)
                  (ap (λ (r : EvidenceValidationResponse). r.accepted) same ∙ accepted)),
          )
    ]
