-- ===== src/Record/Proven.antt =====
-- What recording from an invocation can do: only a check that the invocation proves, at the hash that
-- it was stamped with, and that the scope and the task still have, turns green.
use musts.Base.{
  ℕ, ◌≡◌, refl, sym, ◌∙◌, ap, subst, true, ◌⊎◌, inl, inr, Option, none, some, List, [], ◌∷◌, arith,
  Bool-cases, Option-cases,
}
use musts.Base.Order.{◌==◌, ==_iff, nat_ord, pair_ord, list_ord}
use musts.Base.Text.{Text}
use musts.Base.Lists
use musts.Base.Map.{BTreeMap, get}
use musts.Json.{Json}
use musts.Base.Result.{Error, ok, err, Result-cases}
use musts.Ledger.{entry}
use musts.Validate.Run.{ScopeFile, CurrentScope}
use musts.Bazel.Events.{Invocation}
use musts.Bazel.Targets.{Unproven, targets_proven}
use musts.Base.Int.{ℤ}
use musts.Record.{
  Reason, Outcome, recorded, pending, CheckVerdict, judge_check, judge_all, now_hash, stored_is,
  newer, targets_of, judge_targets, judge_times, outcome_of,
}

-- the invocation was stamped with this hash for the check
abbrev pub Stamped : Invocation → Text → Text → Type 0
Stamped inv c h = (stamp : BTreeMap Text Text) × (inv.stamp ≡ some stamp) × (get c stamp ≡ some h)

Outcome-cases :
    (o : Outcome) → ((passed : ℕ) × (o ≡ recorded passed)) ⊎ ((why : Reason) × (o ≡ pending why))
Outcome-cases (recorded passed) = inl (passed, refl)
Outcome-cases (pending why) = inr (why, refl)

stored_is-some : (o : Option Text) (now : Text) → stored_is o now ≡ true → o ≡ some now
stored_is-some none now h = absurd (ground arith)
stored_is-some (some x) now h = ap (λ y. some y) ((==_iff x now).0 h)

module _ (declared : BTreeMap Text (Text × Json)) where
  -- No file of the scope is newer than the invocation, and it proves the targets that the check declares.
  abbrev pub Shows : Invocation → BTreeMap Text CurrentScope → Text → Type 0
  Shows inv current c =
      (scope : CurrentScope) × (targets : List Text) × (passed : ℕ) × (get c current ≡ some scope)
      × (newer scope inv.start_ms ≡ none)
      × (targets_of (get c declared) ≡ some targets)
      × (targets_proven inv targets ≡ inr passed)

  judge_targets-proven :
      (inv : Invocation) (c : Text) (named : Option (List Text)) (passed : ℕ)
      → judge_targets declared inv c named ≡ recorded passed
      → (targets : List Text) × (named ≡ some targets) × (targets_proven inv targets ≡ inr passed)
  unfolding judge_targets
  judge_targets-proven inv c none passed done = ground arith
  judge_targets-proven inv c (some targets) passed done =
      (targets, refl, outcome_of-inr (targets_proven inv targets) passed done)
    where
      outcome_of-inr :
          (r : Unproven ⊎ ℕ) (passed : ℕ) → outcome_of r ≡ recorded passed → r ≡ inr passed
      outcome_of-inr (inl why) passed done = ground arith
      outcome_of-inr (inr n) passed done = ground arith

  judge_times-proven :
      (inv : Invocation) (c : Text) (late : Option (ScopeFile × ℤ)) (passed : ℕ)
      → judge_times declared inv c late ≡ recorded passed
      → (targets : List Text) × (late ≡ none)
        × (targets_of (get c declared) ≡ some targets)
        × (targets_proven inv targets ≡ inr passed)
  unfolding judge_times
  judge_times-proven inv c (some (file, start)) passed done = ground arith
  judge_times-proven inv c none passed done =
      let (targets, e, p) = judge_targets-proven inv c (targets_of (get c declared)) passed done in
      (targets, refl, e, p)

  -- A check is recorded at the hash that the invocation was stamped with, which is that of its scope
  -- now, and by what the invocation shows.
  judge_check-Stamped :
      (inv : Invocation) (c : Text) (current : BTreeMap Text CurrentScope) (passed : ℕ)
      → judge_check declared inv c current ≡ recorded passed
      → Stamped inv c (now_hash (get c current)) × Shows inv current c
  unfolding judge_check
  judge_check-Stamped inv c current passed done = elim (Option-cases inv.stamp) [
    | inl none_there ↦ absurd (ground (arith, none_there, done))
    | inr (stamp, there) ↦ elim (Option-cases (get c stamp)) [
      | inl missing ↦ absurd (ground (arith, there, missing, done))
      | inr (then_hash, found) ↦ elim (Option-cases (get c current)) [
        | inl gone ↦ absurd (ground (arith, there, found, gone, done))
        | inr (scope, known) ↦ elim (Bool-cases (then_hash == scope.hash)) [
          | inr changed ↦ absurd (ground (arith, there, found, known, changed, done))
          | inl same ↦
              let (targets, late, named, proves) =
                judge_times-proven inv c (newer scope inv.start_ms) passed
                  (ground (arith, there, found, known, same, done)) in
              (
                (
                  stamp,
                  there,
                  found
                      ∙ ap (λ h. some h)
                          ((==_iff then_hash scope.hash).0 same ∙ sym (ap now_hash known)),
                ),
                (scope, targets, passed, known, late, named, proves),
              )
        ]
      ]
    ]
  ]

  -- what the loop has proven is stamped, current and stored
  abbrev pub IsProven :
      Invocation → BTreeMap Text Text → BTreeMap Text CurrentScope → Text → Text → Type 0
  IsProven inv stored current c h =
      Stamped inv c h
      × (get c stored ≡ some h)
      × (now_hash (get c current) ≡ h)
      × Shows inv current c

  pub judge_all-IsProven :
      (task_id : Text) (inv : Invocation) (stored : BTreeMap Text Text)
      (current : BTreeMap Text CurrentScope) (checks : List Text) (verdicts : List CheckVerdict)
      (proven : List (Text × Text)) (c h : Text)
      → judge_all declared task_id inv stored current checks ≡ ok (verdicts, proven)
      → Lists.contains (entry c h) proven ≡ true
      → IsProven inv stored current c h
  unfolding judge_all Lists.contains
  judge_all-IsProven task_id inv stored current [] verdicts proven c h done listed =
      absurd (ground (arith, done, listed))
  judge_all-IsProven task_id inv stored current (check ∷ checks) verdicts proven c h done listed =
      elim (Result-cases (judge_all declared task_id inv stored current checks)) [
        | inr (x, failed) ↦
            absurd (no_rest x failed (Outcome-cases (judge_check declared inv check current)))
        | inl ((others, ps), rest) ↦ elim (Outcome-cases (judge_check declared inv check current)) [
          | inr (why, stays) ↦
              judge_all-IsProven task_id inv stored current checks others ps c h rest
                (sym (ap (Lists.contains (entry c h)) (kept others ps rest why stays)) ∙ listed)
          | inl (passed, proves) ↦ elim (Bool-cases (stored_is (get check stored) now)) [
            | inr stale ↦ absurd (ground (arith, proves, stale, done))
            | inl same ↦
                let all = added others ps rest passed proves same in
                elim (Bool-cases (entry c h == entry check now)) [
                  | inl first ↦
                      let eq = (==_iff (entry c h) (entry check now)).0 first in
                      subst (λ (p : Text × Text). IsProven inv stored current p.0 p.1) (sym eq)
                        (
                          (judge_check-Stamped inv check current passed proves).0,
                          stored_is-some (get check stored) now same,
                          refl,
                          (judge_check-Stamped inv check current passed proves).1,
                        )
                  | inr other ↦
                      judge_all-IsProven task_id inv stored current checks others ps c h rest
                        (ground (arith, other, ap (Lists.contains (entry c h)) all, listed))
                ]
          ]
        ]
      ]
    where
      now : Text
      now = now_hash (get check current)

      no_rest :
          (x : Error)
          → judge_all declared task_id inv stored current checks ≡ err x
          → ((passed : ℕ) × (judge_check declared inv check current ≡ recorded passed))
            ⊎ ((why : Reason) × (judge_check declared inv check current ≡ pending why))
          → ⊥
      no_rest x failed (inl (passed, proves)) = ground (arith, failed, proves, done)
      no_rest x failed (inr (why, stays)) = ground (arith, failed, stays, done)

      kept :
          (others : List CheckVerdict) (ps : List (Text × Text))
          → judge_all declared task_id inv stored current checks ≡ ok (others, ps)
          → (why : Reason) → judge_check declared inv check current ≡ pending why
          → proven ≡ ps
      kept others ps rest why stays = ground (arith, rest, stays, done)

      added :
          (others : List CheckVerdict) (ps : List (Text × Text))
          → judge_all declared task_id inv stored current checks ≡ ok (others, ps)
          → (passed : ℕ) → judge_check declared inv check current ≡ recorded passed
          → stored_is (get check stored) now ≡ true
          → proven ≡ entry check now ∷ ps
      added others ps rest passed proves same = ground (arith, rest, proves, same, done)
