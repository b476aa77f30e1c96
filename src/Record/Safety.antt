-- ===== src/Record/Safety.antt =====
-- `record` as a whole.
use musts.Base.{
  ◌≡◌, refl, ◌∙◌, ap, true, false, ◌⊎◌, inl, inr, none, some, List, [], ◌∷◌, arith, Bool-cases,
  Option-cases,
}
use musts.Base.Order.{◌==◌, ==_iff, nat_ord, pair_ord, list_ord}
use musts.Base.Text.{Text, text}
use musts.Base.Lists
use musts.Base.Lists.{any}
use musts.Base.Map.{BTreeMap}
use musts.Base.Result.{ok, Result-cases}
use musts.Ledger.{entry}
use musts.Database.{StoredTask, is_green_in, is_green, fetch_task}
use musts.Session.{Session, Exec}
use musts.Validate.Checks.{ValidateEnv}
use musts.Validate.Run.ReadOnly.{compute_current_scopes-WritesCache}
use musts.Evidence.{stored_hashes, stored_satisfies}
use musts.Evidence.Rows.{persist_accepted-green}
use musts.Validate.Run.{CurrentScope, Workspace, compute_current_scopes}
use musts.Bazel.Events.{Invocation, Unreadable}
use musts.Bazel.Problem.{invocation_problem}
use musts.Record.{
  RecordEnv, IsRecordEnv, judge_all, accepted_evidence, persist_proven, record_checks,
  record_invocation, read_invocation, CheckVerdict, resolve_id, record_run, provides, checks_of,
}
use musts.Json.{Json}
use musts.Record.Proven.{IsProven, judge_all-IsProven}

module _ (env : RecordEnv) (law : IsRecordEnv env) where
  persist_proven-green :
      (inv : Invocation) (task_id : Text) (verdicts : List CheckVerdict)
      (proven : List (Text × Text)) (s : Session) (c h : Text)
      → is_green (persist_proven env inv task_id verdicts proven s).1.db c h ≡ true
      → (is_green s.db c h ≡ true) ⊎ (Lists.contains (entry c h) proven ≡ true)
  unfolding persist_proven accepted_evidence
  persist_proven-green inv task_id verdicts [] s c h green = inl green
  persist_proven-green inv task_id verdicts (p ∷ ps) s c h green =
      persist_accepted-green env.evidence (accepted_evidence env inv task_id verdicts (p ∷ ps)) s c
        h green

  -- what the newly green pair of an invocation has behind it
  abbrev Behind : Invocation → StoredTask → Session → Text → Text → Type 0
  Behind inv stored s c h =
      (declared : BTreeMap Text (Text × Json)) × (current : BTreeMap Text CurrentScope)
      × (env.declared_checks ≡ ok declared)
      × ((env.compute_current_scopes s).0 ≡ ok current)
      × IsProven declared inv (stored_hashes env.evidence stored) current c h

  -- the new pair is among the proven ones
  proven-only :
      (task_id : Text) (inv : Invocation) (stored : StoredTask) (checks : List Text) (s : Session)
      (c h : Text) (declared : BTreeMap Text (Text × Json)) (current : BTreeMap Text CurrentScope)
      (verdicts : List CheckVerdict) (proven : List (Text × Text))
      → is_green s.db c h ≡ false
      → is_green (record_checks env task_id inv stored checks s).1.db c h ≡ true
      → env.declared_checks ≡ ok declared
      → (env.compute_current_scopes s).0 ≡ ok current
      → judge_all declared task_id inv (stored_hashes env.evidence stored) current checks
        ≡ ok (verdicts, proven)
      → Lists.contains (entry c h) proven ≡ true
  unfolding record_checks is_green
  proven-only task_id inv stored checks s c h declared current verdicts proven before after named
        hashed judged =
      elim (persist_proven-green inv task_id verdicts proven t c h persisted) [
        | inl old ↦
            absurd (ground (arith, ap (is_green_in c h) (law.evidence_records s), before, old))
        | inr new ↦ new
      ]
    where
      t : Session
      t = (env.compute_current_scopes s).1

      persisted : is_green (persist_proven env inv task_id verdicts proven t).1.db c h ≡ true
      persisted = elim (Result-cases (persist_proven env inv task_id verdicts proven t).0) [
        | inl (u, r) ↦ ground (arith, named, hashed, judged, r, after)
        | inr (x, r) ↦ ground (arith, named, hashed, judged, r, after)
      ]

  record_checks-only :
      (task_id : Text) (inv : Invocation) (stored : StoredTask) (checks : List Text) (s : Session)
      (c h : Text)
      → is_green s.db c h ≡ false
      → is_green (record_checks env task_id inv stored checks s).1.db c h ≡ true
      → Behind inv stored s c h
  unfolding record_checks is_green
  record_checks-only task_id inv stored checks s c h before after =
      let kept = ap (is_green_in c h) (law.evidence_records s) in
      elim (Result-cases env.declared_checks) [
        | inr (x, failed) ↦ absurd (ground (arith, failed, before, after))
        | inl (declared, named) ↦ elim (Result-cases (env.compute_current_scopes s).0) [
          | inr (x, failed) ↦ absurd (ground (arith, named, failed, kept, before, after))
          | inl (current, hashed) ↦
              elim (Result-cases (
                judge_all declared task_id inv (stored_hashes env.evidence stored) current
                  checks)) [
                    | inr (x, failed) ↦
                        absurd (ground (arith, named, hashed, failed, kept, before, after))
                    | inl ((verdicts, proven), judged) ↦ (
                      declared,
                      current,
                      named,
                      hashed,
                      judge_all-IsProven declared task_id inv (stored_hashes env.evidence stored)
                          current checks verdicts proven c h judged
                          (proven-only task_id inv stored checks s c h declared current verdicts
                            proven before after named hashed judged),
                    )
                  ]
        ]
      ]

  record_invocation-only :
      (task_id : Text) (stored : StoredTask) (checks : List Text) (read : Unreadable ⊎ Invocation)
      (s : Session) (c h : Text)
      → is_green s.db c h ≡ false
      → is_green (record_invocation env task_id stored checks read s).1.db c h ≡ true
      → (inv : Invocation) × (read ≡ inr inv)
        × (invocation_problem env.in_workspace inv ≡ none)
        × Behind inv stored s c h
  unfolding record_invocation
  record_invocation-only task_id stored checks (inl why) s c h before after =
      absurd (ground (arith, before, after))
  record_invocation-only task_id stored checks (inr inv) s c h before after =
      elim (Option-cases (invocation_problem env.in_workspace inv)) [
        | inr (why, bad) ↦ absurd (ground (arith, bad, before, after))
        | inl good ↦ (
          inv,
          refl,
          good,
          record_checks-only task_id inv stored checks s c h before (ground (arith, good, after)),
        )
      ]

  resolve_id-state : (id : Text) (s : Session) → (resolve_id env id s).1 ≡ s
  unfolding resolve_id
  resolve_id-state id s = ground arith

  -- Where the scope hasher writes no evidence, and whatever recording returns: a pair of check and hash
  -- that was not green before it and is green after it is proven by the invocation. The invocation could
  -- be read and has no problem, it was stamped with the hash for the check, the task stored the hash for
  -- the check, and the check's scope has the hash now, with no file newer than the start of the
  -- invocation; and the invocation proves the targets that the check declares.
  pub record_run-only_judged :
      (id : Text) (s : Session) (c h : Text)
      → is_green s.db c h ≡ false
      → is_green (record_run env id s).1.db c h ≡ true
      → (inv : Invocation) × (read_invocation env ≡ inr inv)
        × (invocation_problem env.in_workspace inv ≡ none)
        × (task_id : Text) × (stored : StoredTask) × (declared : BTreeMap Text (Text × Json))
        × (current : BTreeMap Text CurrentScope) × (fetch_task task_id s.db ≡ some stored)
        × (stored.capability ≡ text "bazel/test")
        × (env.declared_checks ≡ ok declared)
        × ((env.compute_current_scopes s).0 ≡ ok current)
        × IsProven declared inv (stored_hashes env.evidence stored) current c h
  unfolding record_run
  record_run-only_judged id s c h before after =
      let same = resolve_id-state id s in
      elim (Result-cases (resolve_id env id s).0) [
        | inr (x, failed) ↦ absurd (ground (arith, failed, same, before, after))
        | inl ((task_id, requested), resolved) ↦ elim (Option-cases (fetch_task task_id s.db)) [
          | inl missing ↦ absurd (ground (arith, resolved, same, missing, before, after))
          | inr (stored, found) ↦ elim (Bool-cases (stored.capability == text "bazel/test")) [
            | inr foreign ↦ absurd (ground (arith, resolved, same, found, foreign, before, after))
            | inl ours ↦ elim (Result-cases env.evidence.descriptors) [
              | inr (x, failed) ↦
                  absurd (ground (arith, resolved, same, found, ours, failed, before, after))
              | inl (descriptors, listed) ↦
                  elim (Bool-cases
                    (any (λ d. provides stored.capability d.capabilities) descriptors)) [
                      | inl overridden ↦ absurd (
                          ground
                            (arith, resolved, same, found, ours, listed, overridden, before, after))
                      | inr free ↦
                          let (inv, read, good, (declared, current, named, hashed, proves)) =
                            record_invocation-only task_id stored
                              (checks_of requested (stored_satisfies env.evidence stored))
                              (read_invocation env) s c h before
                              (ground (arith, resolved, same, found, ours, listed, free, after)) in
                          (
                            inv,
                            read,
                            good,
                            task_id,
                            stored,
                            declared,
                            current,
                            found,
                            (==_iff stored.capability (text "bazel/test")).0 ours,
                            named,
                            hashed,
                            proves,
                          )
                    ]
            ]
          ]
        ]
      ]

-- The scope hasher of a run is as recording takes it.
pub compute_current_scopes-IsRecordEnv :
    (env : RecordEnv) (validate_env : ValidateEnv) (w : Workspace)
    → env.compute_current_scopes ≡ compute_current_scopes validate_env w
    → IsRecordEnv env
compute_current_scopes-IsRecordEnv env validate_env w same = record {
  evidence_records = λ s.
      ap (λ (f : Exec (BTreeMap Text CurrentScope)). (f s).1.db.evidence_records) same
      ∙ (compute_current_scopes-WritesCache validate_env w s).evidence_records;
}
