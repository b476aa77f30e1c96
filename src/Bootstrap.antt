-- ===== src/Bootstrap.antt =====
-- bootstrap.rs: the lock of a workspace. `acquire_lock` is the loop of one process; Bootstrap.Processes has
-- the processes that share one workspace. The file lock of the kernel, the clock and the
-- environment are parameters.
pub mod Waiting
pub mod Processes
mod Examples
use musts.Base.{
  ℕ, zero, suc, ◌+◌, ◌-◌, ◌/◌, ◌%◌, Bool, true, false, Option, none, some, List, [], ◌∷◌, ◌++◌,
  if◌then◌else◌, ltb, leb,
}
use musts.Base.Order.{◌==◌, nat_ord}
use musts.Base.Text.{Text, text}
use musts.Ledger.{decimal}

pub record LockOwner : Type 0 where
  pub pid : ℕ
  pub cwd : Text
  pub command : Text
  pub since_unix : ℕ

-- `(now - self.since_unix).max(0)`
unfoldable pub held_for_secs : ℕ → LockOwner → ℕ
held_for_secs now owner = now - owner.since_unix

-- the holder in the report of a busy lock: its record is stale, or it is named with its age
pub data Holder : Type 0 where
  unrecorded : ℕ → Holder
  named : ℕ → ℕ → Text → Text → Holder

-- `describe`, where `is_alive` is what the system says of the process
unfoldable pub describe : ℕ → Option Bool → LockOwner → Holder
unfolding held_for_secs
describe now (some false) owner = Holder.unrecorded owner.pid
describe now (some true) owner =
    Holder.named owner.pid (held_for_secs now owner) owner.cwd owner.command
describe now none owner = Holder.named owner.pid (held_for_secs now owner) owner.cwd owner.command

-- `{:02}`
unfoldable pub two_digits : ℕ → Text
unfolding decimal text
two_digits n = if ltb n 10 then text "0" ++ decimal n else decimal n

unfoldable pub format_duration : ℕ → Text
unfolding decimal two_digits text
format_duration s =
    if ltb s 60
    then decimal s ++ text "s"
    else if ltb s 3600
    then decimal (s / 60) ++ text "m " ++ two_digits (s % 60) ++ text "s"
    else decimal (s / 3600) ++ text "h " ++ two_digits ((s % 3600) / 60) ++ text "m"

-- how a call of the file system ends
pub data FileOutcome : Type 0 where
  done permission_denied other_error : FileOutcome

pub data StateDir : Type 0 where
  ready read_only io_error : StateDir

-- one call, and what comes after it where it succeeds
unfoldable pub then_dir : FileOutcome → StateDir → StateDir
then_dir FileOutcome.done next = next
then_dir FileOutcome.permission_denied next = StateDir.read_only
then_dir FileOutcome.other_error next = StateDir.io_error

-- `ensure_state_dir`: the folder is created, and a probe is written in it
unfoldable pub ensure_state_dir : FileOutcome → FileOutcome → StateDir
unfolding then_dir
ensure_state_dir create probe = then_dir create (then_dir probe StateDir.ready)

-- `LOCK_WAIT` and `LOCK_POLL`, in milliseconds
abbrev pub default_lock_wait : ℕ
default_lock_wait = 5000

abbrev pub lock_poll : ℕ
lock_poll = 20

-- `lock_wait`: the variable, where it holds a number
unfoldable pub lock_wait : Option ℕ → ℕ
lock_wait none = default_lock_wait
lock_wait (some ms) = ms

-- `try_lock_exclusive`
pub data Attempt : Type 0 where
  locked would_block failed : Attempt

pub data Acquired : Type 0 where
  held : ℕ → Acquired
  lock_busy : ℕ → Acquired
  io : Acquired
  out_of_fuel : Acquired

module _ (attempt : ℕ → Attempt) (now : ℕ → ℕ) (deadline : ℕ) where
  -- The loop, from its round `k` on: what each attempt gives, and the clock after it. The result
  -- tells the round.
  unfoldable pub acquire_from : ℕ → ℕ → Acquired
  acquire_from zero k = out_of_fuel
  acquire_from (suc fuel) k = elim (attempt k) [
    | locked ↦ held k
    | failed ↦ io
    | would_block ↦ elim (leb deadline (now k)) [
      | true ↦ lock_busy k
      | false ↦ acquire_from fuel (suc k)
    ]
  ]

-- One round more than fits into the wait is enough.
unfoldable pub rounds : ℕ → ℕ
rounds wait = wait / 20 + 2

unfoldable pub acquire_lock : (ℕ → Attempt) → (ℕ → ℕ) → ℕ → ℕ → Acquired
unfolding acquire_from rounds
acquire_lock attempt now start wait = acquire_from attempt now (start + wait) (rounds wait) 0
