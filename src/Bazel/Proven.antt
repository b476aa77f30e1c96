-- ===== src/Bazel/Proven.antt =====
-- `targets_proven` (builtin/bazel_bep.rs) against the statuses of the tests.
use musts.Base.{
  ◌≡◌, refl, ℕ, suc, Bool, true, false, not, ◌||◌, Option, none, some, List, [], ◌∷◌, ◌++◌, arith,
  ◌⊎◌, inl, inr, Bool-cases, Option-cases,
}
use musts.Base.Order.{◌==◌, nat_ord, list_ord}
use musts.Base.Text.{Text, text}
use musts.Base.Lists.{All, all, find}
use musts.Base.Map.{BTreeSet, keys, get, add}
use musts.Bazel.{Pattern, contains_label, require_requested}
use musts.Bazel.Targets.{
  judge_status, require_passed, is_excluded, was_skipped, prove_named, prove_matching, suite_tests,
  prove_wildcard, prove_target, prove_all, targets_proven, read_targets,
}
use musts.Bazel.Events.{Invocation}

-- The invocation has a result of the test, and each of its statuses is PASSED.
unfoldable pub has_passed : Invocation → Text → Bool
unfolding get all text
has_passed inv test = elim (get test inv.summaries) [
  | none ↦ false
  | some statuses ↦ all (λ s. s == text "PASSED") statuses
]

-- A test that a pattern of the check names has passed. Tests that the check takes out are left aside, and
-- under a wildcard those that bazel skipped.
unfoldable pub settled_label : Invocation → List Pattern → Text → Bool
unfolding has_passed is_excluded
settled_label inv exclusions test = is_excluded exclusions test || has_passed inv test

unfoldable pub settled_match : Invocation → List Pattern → Pattern → Text → Bool
unfolding contains_label is_excluded was_skipped has_passed
settled_match inv exclusions p test =
    (not (contains_label p test) || is_excluded exclusions test)
    || (was_skipped inv test || has_passed inv test)

unfoldable pub IsSettled : Invocation → List Pattern → Pattern → Type 0
unfolding settled_label settled_match suite_tests
IsSettled inv exclusions (Pattern.label l) =
    All (λ t. settled_label inv exclusions t ≡ true) (suite_tests inv l)
IsSettled inv exclusions p =
    All (λ t. settled_match inv exclusions p t ≡ true) (keys inv.test_targets ++ keys inv.summaries)

find-none :
    (statuses : List Text)
    → find (λ s. not (s == text "PASSED")) statuses ≡ none
    → all (λ s. s == text "PASSED") statuses ≡ true
unfolding find all
find-none [] h = ground arith
find-none (s ∷ statuses) h = ground (arith, find-none statuses)

judge_status-none : (test : Text) (s : Option Text) → judge_status test s ≡ none → s ≡ none
unfolding judge_status
judge_status-none test none h = ground arith
judge_status-none test (some s) h = ground arith

require_passed-has_passed :
    (inv : Invocation) (test : Text) → require_passed inv test ≡ none → has_passed inv test ≡ true
unfolding require_passed has_passed
require_passed-has_passed inv test h = elim (Option-cases (get test inv.summaries)) [
  | inl e ↦ ground (arith, e)
  | inr (statuses, e) ↦ ground (
    arith,
    e,
    find-none statuses,
    judge_status-none test (find (λ s. not (s == text "PASSED")) statuses),
  )
]

prove_named-settled :
    (inv : Invocation) (ps : List Pattern) (tests : List Text) (passed : BTreeSet Text)
    (r : BTreeSet Text)
    → prove_named inv ps tests passed ≡ inr r
    → All (λ t. settled_label inv ps t ≡ true) tests
unfolding prove_named settled_label
prove_named-settled inv ps [] passed r h = tt
prove_named-settled inv ps (t ∷ ts) passed r h = elim (Bool-cases (is_excluded ps t)) [
  | inl e ↦ (ground (arith, e), prove_named-settled inv ps ts passed r (ground (arith, e, h)))
  | inr e ↦ elim (Option-cases (require_passed inv t)) [
    | inl q ↦ (
      ground (arith, require_passed-has_passed inv t q),
      prove_named-settled inv ps ts (add t passed) r (ground (arith, e, q, h)),
    )
    | inr (why, q) ↦ ground (arith, e, q, h)
  ]
]

prove_matching-settled :
    (inv : Invocation) (ps : List Pattern) (p : Pattern) (tests : List Text) (n : ℕ)
    (passed : BTreeSet Text) (r : ℕ × BTreeSet Text)
    → prove_matching inv ps p tests n passed ≡ inr r
    → All (λ t. settled_match inv ps p t ≡ true) tests
unfolding prove_matching settled_match
prove_matching-settled inv ps p [] n passed r h = tt
prove_matching-settled inv ps p (t ∷ ts) n passed r h =
    elim (Bool-cases (not (contains_label p t) || is_excluded ps t)) [
      | inl e ↦
          (ground (arith, e), prove_matching-settled inv ps p ts n passed r (ground (arith, e, h)))
      | inr e ↦ elim (Bool-cases (was_skipped inv t)) [
        | inl w ↦ (
          ground (arith, w),
          prove_matching-settled inv ps p ts (suc n) passed r (ground (arith, e, w, h)),
        )
        | inr w ↦ elim (Option-cases (require_passed inv t)) [
          | inl q ↦ (
            ground (arith, require_passed-has_passed inv t q),
            prove_matching-settled inv ps p ts n (add t passed) r (ground (arith, e, w, q, h)),
          )
          | inr (why, q) ↦ ground (arith, e, w, q, h)
        ]
      ]
    ]

Sum-cases : {A B : Type 0} (x : A ⊎ B) → ((a : A) × (x ≡ inl a)) ⊎ ((b : B) × (x ≡ inr b))
Sum-cases (inl a) = inl (a, refl)
Sum-cases (inr b) = inr (b, refl)

prove_wildcard-settled :
    (inv : Invocation) (ps : List Pattern) (raw : Text) (p : Pattern) (passed : BTreeSet Text)
    (r : BTreeSet Text)
    → prove_wildcard inv ps raw p passed ≡ inr r
    → All (λ t. settled_match inv ps p t ≡ true) (keys inv.test_targets ++ keys inv.summaries)
unfolding prove_wildcard
prove_wildcard-settled inv ps raw p passed r h =
    elim (Option-cases (require_requested inv.requested_patterns p ps)) [
      | inr (why, e) ↦ ground (arith, e, h)
      | inl e ↦
          elim (Sum-cases
            (prove_matching inv ps p (keys inv.test_targets ++ keys inv.summaries) 0 passed)) [
              | inl (why, q) ↦ ground (arith, e, q, h)
              | inr (now, q) ↦
                  prove_matching-settled inv ps p (keys inv.test_targets ++ keys inv.summaries) 0
                    passed now q
            ]
    ]

prove_target-IsSettled :
    (inv : Invocation) (ps : List Pattern) (raw : Text) (p : Pattern) (passed : BTreeSet Text)
    (r : BTreeSet Text)
    → prove_target inv ps raw p passed ≡ inr r
    → IsSettled inv ps p
unfolding prove_target IsSettled
prove_target-IsSettled inv ps raw (Pattern.label l) passed r h =
    prove_named-settled inv ps (suite_tests inv l) passed r h
prove_target-IsSettled inv ps raw (Pattern.recursive p) passed r h =
    prove_wildcard-settled inv ps raw (Pattern.recursive p) passed r h
prove_target-IsSettled inv ps raw (Pattern.in_package p) passed r h =
    prove_wildcard-settled inv ps raw (Pattern.in_package p) passed r h

prove_all-IsSettled :
    (inv : Invocation) (ps : List Pattern) (positives : List (Text × Pattern))
    (passed : BTreeSet Text) (r : BTreeSet Text)
    → prove_all inv ps positives passed ≡ inr r
    → All (λ e. IsSettled inv ps e.1) positives
unfolding prove_all
prove_all-IsSettled inv ps [] passed r h = tt
prove_all-IsSettled inv ps ((raw, p) ∷ es) passed r h =
    elim (Sum-cases (prove_target inv ps raw p passed)) [
      | inl (why, q) ↦ ground (arith, q, h)
      | inr (now, q) ↦ (
        prove_target-IsSettled inv ps raw p passed now q,
        prove_all-IsSettled inv ps es now r (ground (arith, q, h)),
      )
    ]

-- Where `targets_proven` succeeds, the targets of the check can be read, and each of them is settled: all
-- tests of a label or a suite have a result with PASSED in every attempt, but for those that the check
-- takes out, and so have all tests and all results under a wildcard, but for those skipped as well.
pub targets_proven-IsSettled :
    (inv : Invocation) (targets : List Text) (n : ℕ)
    → targets_proven inv targets ≡ inr n
    → (r : List (Text × Pattern) × List Pattern) × (read_targets targets ≡ inr r)
      × All (λ e. IsSettled inv r.1 e.1) r.0
unfolding targets_proven
targets_proven-IsSettled inv targets n h = elim (Sum-cases (read_targets targets)) [
  | inl (why, e) ↦ ground (arith, e, h)
  | inr ((positives, ps), e) ↦ elim (Sum-cases (prove_all inv ps positives [])) [
    | inl (why, q) ↦ ground (arith, e, q, h)
    | inr (passed, q) ↦ ((positives, ps), e, prove_all-IsSettled inv ps positives [] passed q)
  ]
]
