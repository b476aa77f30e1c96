-- ===== src/Execute/Allowed.antt =====
-- Which commands `musts run` executes, and what it records of them.
use musts.Base.{
  ◌≡◌, refl, sym, subst, Bool, true, false, none, some, List, inl, inr, ◌⊎◌, Bool-cases,
  Option-cases, arith,
}
use musts.Base.Text.{Text, text, join}
use musts.Base.Result.{ok, Result-cases}
use musts.Protocol.{Task}
use musts.Database.{StoredTask, fetch_task}
use musts.Extension.{ExtensionDescriptor, BuiltinCapability, lookup}
use musts.Session.{Session, pure}
use musts.Evidence.{EvidenceSubmissionResult, submit}
use musts.Execute.{
  RunOutcome, RunEnv, runnable, is_overridden, succeeded, code_of, temp_log_path, inputs_of,
  submit_log, conclude_run, log_body_of, run_argv, run_trusted, run_known, run_task, execute,
  not_builtin, overridden, no_command,
}

module _ (env : RunEnv) (task_id : Text) where
  -- The command is that of the stored task, whose capability is a built-in that no extension overrides.
  abbrev pub IsTrusted : Session → StoredTask → List Text → Type 0
  IsTrusted s stored argv =
      (task : Task) × (capability : BuiltinCapability) × (descriptors : List ExtensionDescriptor)
      × (fetch_task task_id s.db ≡ some stored)
      × (env.before.serde.task.decode stored.payload_json ≡ some task)
      × (runnable task.command ≡ some argv)
      × (lookup env.before.registry stored.capability ≡ some capability)
      × (env.before.descriptors ≡ ok descriptors)
      × (is_overridden descriptors stored.capability ≡ false)

  -- what a run with this outcome has done
  abbrev pub HasRun : StoredTask → List Text → Session → Session → RunOutcome → Type 0
  HasRun stored argv s s' (RunOutcome.not_runnable reason) = s' ≡ s
  HasRun stored argv s s' (RunOutcome.failed display code log_body log_path) =
      (succeeded stored.capability argv (env.output argv) ≡ false) × (s' ≡ env.meanwhile s)
  HasRun stored argv s s' (RunOutcome.recorded display result) =
      (succeeded stored.capability argv (env.output argv) ≡ true)
      × (submit
            (env.after (temp_log_path env task_id) (log_body_of env task_id argv (env.output argv)))
            (inputs_of task_id display (temp_log_path env task_id)) (env.meanwhile s)
          ≡ (ok result, s'))

  submit_log-recorded :
      (display log_path log_body : Text) (t s' : Session) (outcome : RunOutcome)
      → submit_log env task_id display log_path log_body t ≡ (ok outcome, s')
      → (result : EvidenceSubmissionResult) × (outcome ≡ RunOutcome.recorded display result)
        × (submit (env.after log_path log_body) (inputs_of task_id display log_path) t
            ≡ (ok result, s'))
  unfolding submit_log
  submit_log-recorded display log_path log_body t s' outcome h =
      elim (Result-cases
        (submit (env.after log_path log_body) (inputs_of task_id display log_path) t).0) [
          | inl (result, p) ↦ (result, ground (arith, p, h), ground (arith, p, h))
          | inr (x, p) ↦ absurd (ground (arith, p, h))
        ]

  conclude_run-HasRun :
      (stored : StoredTask) (argv : List Text) (s s' : Session) (outcome : RunOutcome) (good : Bool)
      → succeeded stored.capability argv (env.output argv) ≡ good
      → conclude_run env task_id good
          (join (text " ") argv)
          (code_of (env.output argv))
          (temp_log_path env task_id)
          (log_body_of env task_id argv (env.output argv))
          (env.meanwhile s)
        ≡ (ok outcome, s')
      → HasRun stored argv s s' outcome
  unfolding conclude_run submit_log
  conclude_run-HasRun stored argv s s' outcome false e h =
      let (same, last) : (actual_failed ≡ outcome) × (env.meanwhile s ≡ s') = ground (arith, h) in
      subst (HasRun stored argv s s') same (e, sym last)
    where
      actual_failed : RunOutcome
      actual_failed =
          RunOutcome.failed (join (text " ") argv) (code_of (env.output argv))
            (log_body_of env task_id argv (env.output argv)) (temp_log_path env task_id)
  conclude_run-HasRun stored argv s s' outcome true e h =
      let (result, same, done) =
        submit_log-recorded (join (text " ") argv) (temp_log_path env task_id)
          (log_body_of env task_id argv (env.output argv)) (env.meanwhile s) s' outcome h in
      subst (HasRun stored argv s s') (sym same) (e, done)

  run_argv-HasRun :
      (stored : StoredTask) (argv : List Text) (s s' : Session) (outcome : RunOutcome)
      → run_argv env task_id stored argv s ≡ (ok outcome, s')
      → HasRun stored argv s s' outcome
  unfolding run_argv
  run_argv-HasRun stored argv s s' outcome h = elim (Result-cases env.relock) [
    | inr (x, e) ↦ absurd (ground (arith, e, h))
    | inl (u, e) ↦
        elim (Result-cases (
          env.write_log (temp_log_path env task_id)
            (log_body_of env task_id argv (env.output argv)))) [
              | inr (x, f) ↦ absurd (ground (arith, e, f, h))
              | inl (v, f) ↦
                  conclude_run-HasRun stored argv s s' outcome
                    (succeeded stored.capability argv (env.output argv)) refl
                    (ground (arith, e, f, h))
            ]
  ]

  -- An outcome other than `not_runnable` comes from a trusted command.
  abbrev pub IsAllowed : Session → Session → RunOutcome → Type 0
  IsAllowed s s' outcome =
      ((reason : Text) × (outcome ≡ RunOutcome.not_runnable reason) × (s' ≡ s))
      ⊎ ((stored : StoredTask) × (argv : List Text) × IsTrusted s stored argv
          × HasRun stored argv s s' outcome)

  not_runnable-IsAllowed :
      (reason : Text) (s s' : Session) (outcome : RunOutcome)
      → pure (RunOutcome.not_runnable reason) s ≡ (ok outcome, s')
      → IsAllowed s s' outcome
  not_runnable-IsAllowed reason s s' outcome h = inl (reason, ground (arith, h), ground (arith, h))

  run_known-IsAllowed :
      (stored : StoredTask) (task : Task) (argv : List Text) (s s' : Session) (outcome : RunOutcome)
      → fetch_task task_id s.db ≡ some stored
      → env.before.serde.task.decode stored.payload_json ≡ some task
      → runnable task.command ≡ some argv
      → run_task env task_id stored (some argv) s ≡ (ok outcome, s')
      → IsAllowed s s' outcome
  unfolding run_task run_known run_trusted
  run_known-IsAllowed stored task argv s s' outcome found decoded command h =
      elim (Option-cases (lookup env.before.registry stored.capability)) [
        | inl none_known ↦
            not_runnable-IsAllowed (not_builtin stored.capability) s s' outcome
              (ground (arith, none_known, h))
        | inr (capability, known) ↦ elim (Result-cases env.before.descriptors) [
          | inr (x, e) ↦ absurd (ground (arith, known, e, h))
          | inl (descriptors, e) ↦ elim (Bool-cases (is_overridden descriptors stored.capability)) [
            | inl o ↦
                not_runnable-IsAllowed (overridden stored.capability) s s' outcome
                  (ground (arith, known, e, o, h))
            | inr o ↦ inr (
              stored,
              argv,
              (task, capability, descriptors, found, decoded, command, known, e, o),
              run_argv-HasRun stored argv s s' outcome (ground (arith, known, e, o, h)),
            )
          ]
        ]
      ]

  -- Where `musts run` has an outcome, either the task was not runnable and nothing has changed; or the
  -- command is the one stored with the task, for a capability that is a built-in and that no installed
  -- extension provides, and: a failure is reported where the process did not succeed, with nothing
  -- written; and evidence is recorded where it did, by the submission of its log, in the state that
  -- other processes left meanwhile.
  pub execute-IsAllowed :
      (s s' : Session) (outcome : RunOutcome)
      → execute env task_id s ≡ (ok outcome, s')
      → IsAllowed s s' outcome
  unfolding execute
  execute-IsAllowed s s' outcome h = elim (Option-cases (fetch_task task_id s.db)) [
    | inl missing ↦ absurd (ground (arith, missing, h))
    | inr (stored, found) ↦ elim (Option-cases (env.before.serde.task.decode stored.payload_json)) [
      | inl unread ↦ absurd (ground (arith, found, unread, h))
      | inr (task, decoded) ↦ elim (Option-cases (runnable task.command)) [
        | inl nothing ↦
            not_runnable-IsAllowed (no_command task_id) s s' outcome
              (no_command_run stored task found decoded nothing)
        | inr (argv, command) ↦
            run_known-IsAllowed stored task argv s s' outcome found decoded command
              (ground (arith, found, decoded, command, h))
      ]
    ]
  ]
    where
      no_command_run :
          (stored : StoredTask) (task : Task)
          → fetch_task task_id s.db ≡ some stored
          → env.before.serde.task.decode stored.payload_json ≡ some task
          → runnable task.command ≡ none
          → pure (RunOutcome.not_runnable (no_command task_id)) s ≡ (ok outcome, s')
      no_command_run stored task found decoded nothing =
          unfold run_task in ground (arith, found, decoded, nothing, h)
