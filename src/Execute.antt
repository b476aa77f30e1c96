-- ===== src/Execute.antt =====
-- crates/musts-core/src/run.rs: `musts run`, which executes the command of a task and submits its output.
-- The process, the lock that is given up for it, and the log file are parameters.
pub mod Allowed
mod Examples
use musts.Base.{
  ℕ, Bool, true, false, not, ◌&&◌, ◌||◌, Option, none, some, List, [], ◌∷◌, ◌++◌, if◌then◌else◌,
  leb,
}
use musts.Base.Order.{◌==◌, nat_ord, list_ord}
use musts.Base.Int.{ℤ}
use musts.Base.Text.{Text, text, join, ends_with_byte, from_utf8_lossy}
use musts.Base.Lists.{is_empty, any}
use musts.Base.Result.{Error, Result, ok, err}
use musts.Base.Result.Error.{db, task_not_found}
use musts.Protocol.{Task}
use musts.Ledger.{decimal}
use musts.Database.{StoredTask, fetch_task}
use musts.Extension.{ExtensionDescriptor, BuiltinCapability, lookup}
use musts.Session.{Session, Exec, pure, lift, ok_or, ◌>>=◌, ◌>>◌, continue}
use musts.Evidence.{Env, SubmissionInputs, EvidenceSubmissionResult, submit}
use musts.Bazel.Problem.{no_tests_is_vacuous}
use musts.Builtin.{em_dash, ellipsis}

pub data RunOutcome : Type 0 where
  not_runnable : Text → RunOutcome
  failed : Text → Option ℤ → Text → Text → RunOutcome
  recorded : Text → EvidenceSubmissionResult → RunOutcome

-- what `Command::output` gives: the two streams and the code, or the words of an error
pub data Output : Type 0 where
  exited : Text → Text → Option ℤ → Output
  not_spawned : Text → Output

-- `before` is the environment up to the process, `meanwhile` is what other processes do to the state while
-- the lock is not held, `relock` takes it back, and `after` is the environment once a log is written.
pub record RunEnv : Type 0 where
  pub before : Env
  pub output : List Text → Output
  pub meanwhile : Session → Session
  pub relock : Result (Unit {0})
  pub write_log : Text → Text → Result (Unit {0})
  pub after : Text → Text → Env
  pub in_temp_dir : Text → Text
  pub process_id : ℕ

-- `task.command.filter(|c| !c.is_empty())`
unfoldable pub runnable : Option (List Text) → Option (List Text)
runnable none = none
runnable (some []) = none
runnable (some (program ∷ args)) = some (program ∷ args)

unfoldable pub is_overridden : List ExtensionDescriptor → Text → Bool
unfolding any list_ord
is_overridden descriptors uses =
    any (λ (d : ExtensionDescriptor). any (λ c. c.1.uses == uses) d.capabilities) descriptors

-- the standard output, and the standard error from a new line on
unfoldable pub combine : Text → Text → Text
unfolding ends_with_byte
combine out error =
    if is_empty error
    then out
    else if is_empty out || ends_with_byte 10 out
    then out ++ error
    else out ++ 10 ∷ error

unfoldable pub combined_of : Text → Output → Text
unfolding combine from_utf8_lossy text
combined_of program (Output.exited out error code) =
    combine (from_utf8_lossy out) (from_utf8_lossy error)
combined_of program (Output.not_spawned error) =
    text "failed to spawn `" ++ program ++ text "`: " ++ error

unfoldable pub code_of : Output → Option ℤ
code_of (Output.exited out error code) = code
code_of (Output.not_spawned error) = none

unfoldable pub was_spawned : Output → Bool
was_spawned (Output.exited out error code) = true
was_spawned (Output.not_spawned error) = false

unfoldable pub is_zero : Option ℤ → Bool
is_zero (some (ℤ.pos n)) = n == 0
is_zero _ = false

-- `succeeded`
unfoldable pub succeeded : Text → List Text → Output → Bool
unfolding was_spawned is_zero code_of no_tests_is_vacuous text list_ord
succeeded capability argv out =
    was_spawned out
    && (is_zero (code_of out)
        || (capability == text "bazel/test" && no_tests_is_vacuous argv (code_of out)))

-- A character that is no ASCII letter or digit becomes 45; of those with several bytes, the first counts.
unfoldable pub slug_bytes : Text → Text
slug_bytes [] = []
slug_bytes (c ∷ s) =
    let rest = slug_bytes s in
    if (leb 48 c && leb c 57) || (leb 65 c && leb c 90) || (leb 97 c && leb c 122)
    then c ∷ rest
    else if leb 0x80 c && leb c 0xbf
    then rest
    else 45 ∷ rest

-- `temp_log_path`
unfoldable pub temp_log_path : RunEnv → Text → Text
unfolding slug_bytes text decimal
temp_log_path env task_id =
    env.in_temp_dir
      (text "musts-run-" ++ slug_bytes task_id ++ text "-" ++ decimal env.process_id ++ text ".log")

abbrev pub first_of : List Text → Text
first_of [] = []
first_of (program ∷ args) = program

unfoldable pub no_command : Text → Text
unfolding text
no_command task_id =
    text "task `"
    ++ task_id
    ++ text "` has no runnable command "
    ++ em_dash
    ++ text
        " it needs agent-produced evidence. Do the validation and submit it with `musts evidence "
    ++ task_id
    ++ text " "
    ++ ellipsis
    ++ text "`."

unfoldable pub not_builtin : Text → Text
unfolding text
not_builtin capability =
    text "`musts run` only executes built-in deterministic checks (cargo/*, bazel/build); `"
    ++ capability
    ++ text "` is not one. Use `musts evidence`."

unfoldable pub overridden : Text → Text
unfolding text
overridden capability =
    text "capability `"
    ++ capability
    ++ text
        "` is provided by an installed extension, so `musts run` will not execute it. Validate it yourself and use `musts evidence`."

unfoldable pub inputs_of : Text → Text → Text → SubmissionInputs
unfolding text
inputs_of task_id display log_path = record {
  task_id = task_id;
  text = some (text "`" ++ display ++ text "` exited 0 (executed by `musts run`).");
  asset_paths = log_path ∷ [];
}

-- what the process gave, where the lock could be taken back
abbrev pub once_locked : Result (Unit {0}) → Output → Result Output
once_locked (err e) out = err e
once_locked (ok _) out = ok out

module _ (env : RunEnv) (task_id : Text) where
  -- `session.unlocked(...)`
  abbrev pub unlocked : List Text → Exec Output
  unlocked argv s = (once_locked env.relock (env.output argv), env.meanwhile s)

  unfoldable pub submit_log : Text → Text → Text → Exec RunOutcome
  unfolding submit inputs_of
  submit_log display log_path log_body = do
    result ← submit (env.after log_path log_body) (inputs_of task_id display log_path)
    pure (RunOutcome.recorded display result)

  unfoldable pub conclude_run : Bool → Text → Option ℤ → Text → Text → Exec RunOutcome
  unfolding submit_log
  conclude_run true display code log_path log_body = submit_log display log_path log_body
  conclude_run false display code log_path log_body =
      pure (RunOutcome.failed display code log_body log_path)

  -- `log_body`
  unfoldable pub log_body_of : List Text → Output → Text
  unfolding combined_of text join
  log_body_of argv out = text "$ " ++ join (text " ") argv ++ 10 ∷ combined_of (first_of argv) out

  -- from the process on
  unfoldable pub run_argv : StoredTask → List Text → Exec RunOutcome
  unfolding log_body_of conclude_run succeeded temp_log_path text join
  run_argv stored argv = do
    out ← unlocked argv
    lift (env.write_log (temp_log_path env task_id) (log_body_of argv out))
    conclude_run (succeeded stored.capability argv out) (join (text " ") argv) (code_of out)
        (temp_log_path env task_id) (log_body_of argv out)

  unfoldable pub run_trusted : StoredTask → List Text → Bool → Exec RunOutcome
  unfolding run_argv overridden
  run_trusted stored argv true = pure (RunOutcome.not_runnable (overridden stored.capability))
  run_trusted stored argv false = run_argv stored argv

  unfoldable pub run_known : StoredTask → List Text → Option BuiltinCapability → Exec RunOutcome
  unfolding run_trusted is_overridden not_builtin
  run_known stored argv none = pure (RunOutcome.not_runnable (not_builtin stored.capability))
  run_known stored argv (some capability) = do
    descriptors ← lift env.before.descriptors
    run_trusted stored argv (is_overridden descriptors stored.capability)

  unfoldable pub run_task : StoredTask → Option (List Text) → Exec RunOutcome
  unfolding run_known lookup no_command
  run_task stored none = pure (RunOutcome.not_runnable (no_command task_id))
  run_task stored (some argv) = run_known stored argv (lookup env.before.registry stored.capability)

  unfoldable pub execute : Exec RunOutcome
  unfolding fetch_task runnable run_task
  execute = do
    stored ← λ s. ok_or (fetch_task task_id s.db) (task_not_found task_id) s
    task ← ok_or (env.before.serde.task.decode stored.payload_json) db
    run_task stored (runnable task.command)
