-- ===== src/Bazel/Targets.antt =====
-- `targets_proven` (builtin/bazel_bep.rs): whether an invocation proves the targets of a check. The texts
-- of the errors are constructors.
use musts.Base.{
  ℕ, suc, Bool, true, false, not, ◌&&◌, ◌||◌, Option, none, some, List, [], ◌∷◌, ◌++◌, ◌⊎◌, inl,
  inr, if◌then◌else◌,
}
use musts.Base.Order.{◌==◌, nat_ord, list_ord}
use musts.Base.Text.{Text, text, strip_prefix, trim}
use musts.Base.Lists.{length, is_empty, any, find}
use musts.Base.Map.{BTreeSet, keys, get, contains_key, add}
use musts.Bazel.{Pattern, parse, contains_label, Unasked, require_requested}
use musts.Bazel.Events.{Invocation}

pub data Unproven : Type 0 where
  unreadable no_test_passed : Text → Unproven
  was_aborted : Text → Text → Unproven
  excluded_by_filter not_a_test not_in_invocation flaky : Text → Unproven
  failed : Text → Text → Unproven
  unasked : Text → Unasked → Unproven

-- the first loop: the targets that a check asks for, with their texts, and those that it takes out
unfoldable pub read_targets : List Text → Unproven ⊎ (List (Text × Pattern) × List Pattern)
unfolding strip_prefix parse trim
read_targets [] = inr ([], [])
read_targets (target ∷ targets) =
    let raw = trim target in
    let rest = read_targets targets in
    if is_empty raw then rest else elim (strip_prefix (45 ∷ []) raw) [
      | some body ↦ elim (parse body) [
        | none ↦ inl (Unproven.unreadable raw)
        | some p ↦ elim rest [ inl e ↦ inl e | inr (ps, es) ↦ inr (ps, p ∷ es) ]
      ]
      | none ↦ elim (parse raw) [
        | none ↦ inl (Unproven.unreadable raw)
        | some p ↦ elim rest [ inl e ↦ inl e | inr (ps, es) ↦ inr ((raw, p) ∷ ps, es) ]
      ]
    ]

unfoldable pub is_excluded : List Pattern → Text → Bool
unfolding any
is_excluded exclusions test = any (λ e. contains_label e test) exclusions

unfoldable pub judge_status : Text → Option Text → Option Unproven
unfolding text
judge_status test none = none
judge_status test (some s) =
    if s == text "FLAKY" then some (Unproven.flaky test) else some (Unproven.failed test s)

unfoldable pub require_passed : Invocation → Text → Option Unproven
unfolding judge_status get find text
require_passed inv test = elim (get test inv.summaries) [
  | some statuses ↦ judge_status test (find (λ s. not (s == text "PASSED")) statuses)
  | none ↦ elim (get test inv.aborted) [
    | some reason ↦ some (Unproven.was_aborted test reason)
    | none ↦
        if contains_key test inv.configured
        then if contains_key test inv.test_targets
          then some (Unproven.excluded_by_filter test)
          else some (Unproven.not_a_test test)
        else some (Unproven.not_in_invocation test)
  ]
]

unfoldable pub was_skipped : Invocation → Text → Bool
unfolding get text
was_skipped inv test = elim (get test inv.aborted) [
  | none ↦ false
  | some reason ↦ reason == text "SKIPPED"
]

-- the tests of a named label, or of a suite
unfoldable pub prove_named :
    Invocation → List Pattern → List Text → BTreeSet Text → Unproven ⊎ BTreeSet Text
unfolding is_excluded require_passed
prove_named inv exclusions [] passed = inr passed
prove_named inv exclusions (test ∷ tests) passed = elim (is_excluded exclusions test) [
  | true ↦ prove_named inv exclusions tests passed
  | false ↦ elim (require_passed inv test) [
    | some why ↦ inl why
    | none ↦ prove_named inv exclusions tests (add test passed)
  ]
]

-- the tests under a wildcard, with the count of those that were skipped
unfoldable pub prove_matching :
    Invocation
    → List Pattern
    → Pattern
    → List Text
    → ℕ
    → BTreeSet Text
    → Unproven ⊎ (ℕ × BTreeSet Text)
unfolding is_excluded contains_label require_passed was_skipped
prove_matching inv exclusions p [] skipped passed = inr (skipped, passed)
prove_matching inv exclusions p (test ∷ tests) skipped passed =
    elim (not (contains_label p test) || is_excluded exclusions test) [
      | true ↦ prove_matching inv exclusions p tests skipped passed
      | false ↦ elim (was_skipped inv test) [
        | true ↦ prove_matching inv exclusions p tests (suc skipped) passed
        | false ↦ elim (require_passed inv test) [
          | some why ↦ inl why
          | none ↦ prove_matching inv exclusions p tests skipped (add test passed)
        ]
      ]
    ]

unfoldable pub suite_tests : Invocation → Text → List Text
unfolding get
suite_tests inv label = elim (get label inv.suites) [ some tests ↦ tests | none ↦ label ∷ [] ]

unfoldable pub after_matching :
    Invocation → Text → Pattern → ℕ → BTreeSet Text → Unproven ⊎ BTreeSet Text
unfolding contains_label find any text
after_matching inv raw p skipped passed =
    elim (find (λ e. contains_label p e.0 && not (e.1 == text "SKIPPED")) inv.aborted) [
      | some (label, reason) ↦ inl (Unproven.was_aborted label reason)
      | none ↦
          if not (skipped == 0) && not (any (contains_label p) (keys inv.summaries))
          then inl (Unproven.no_test_passed raw)
          else inr passed
    ]

unfoldable pub prove_wildcard :
    Invocation → List Pattern → Text → Pattern → BTreeSet Text → Unproven ⊎ BTreeSet Text
unfolding require_requested prove_matching after_matching
prove_wildcard inv exclusions raw p passed =
    elim (require_requested inv.requested_patterns p exclusions) [
      | some why ↦ inl (Unproven.unasked raw why)
      | none ↦
          elim (prove_matching inv exclusions p (keys inv.test_targets ++ keys inv.summaries) 0
            passed) [
              | inl why ↦ inl why
              | inr (skipped, passed_now) ↦ after_matching inv raw p skipped passed_now
            ]
    ]

unfoldable pub prove_target :
    Invocation → List Pattern → Text → Pattern → BTreeSet Text → Unproven ⊎ BTreeSet Text
unfolding prove_named suite_tests prove_wildcard
prove_target inv exclusions raw (Pattern.label l) passed =
    prove_named inv exclusions (suite_tests inv l) passed
prove_target inv exclusions raw (Pattern.recursive r) passed =
    prove_wildcard inv exclusions raw (Pattern.recursive r) passed
prove_target inv exclusions raw (Pattern.in_package p) passed =
    prove_wildcard inv exclusions raw (Pattern.in_package p) passed

unfoldable pub prove_all :
    Invocation → List Pattern → List (Text × Pattern) → BTreeSet Text → Unproven ⊎ BTreeSet Text
unfolding prove_target
prove_all inv exclusions [] passed = inr passed
prove_all inv exclusions ((raw, p) ∷ positives) passed =
    elim (prove_target inv exclusions raw p passed) [
      | inl why ↦ inl why
      | inr passed_now ↦ prove_all inv exclusions positives passed_now
    ]

unfoldable pub targets_proven : Invocation → List Text → Unproven ⊎ ℕ
unfolding read_targets prove_all
targets_proven inv targets = elim (read_targets targets) [
  | inl why ↦ inl why
  | inr (positives, exclusions) ↦ elim (prove_all inv exclusions positives []) [
    | inl why ↦ inl why
    | inr passed ↦ inr (length passed)
  ]
]
