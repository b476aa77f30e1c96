-- ===== src/Bootstrap/Examples.antt =====
-- A wait that gives up, and a process that dies with the lock.
use musts.Base.{
  ℕ, suc, ◌+◌, ◌*◌, ◌≤◌, ◌≡◌, refl, true, false, none, some, [], if◌then◌else◌, ltb, arith,
}
use musts.Base.Order.{nat_ord}
use musts.Bootstrap.{
  LockOwner, Holder, describe, Attempt, locked, would_block, held, lock_busy, acquire_lock, rounds,
}
use musts.Bootstrap.Waiting.{Ends, acquire_lock-Ends}
use musts.Bootstrap.Processes.{
  World, Phase, holds, set, enter, no_process, lock, write_owner, die, Reach, start, next,
}
use musts.Bootstrap.Processes.Owner.{owner-eq-holder}

-- The lock is free from round `free` on.
abbrev attempts : ℕ → ℕ → Attempt
attempts free k = if ltb k free then would_block else locked

abbrev ticks : ℕ → ℕ
ticks k = 100 + k * 25

gives_up : acquire_lock (attempts 9) ticks 100 40 ≡ lock_busy 2
unfolding acquire_lock
gives_up = refl

gets_it : acquire_lock (attempts 2) ticks 100 40 ≡ held 2
unfolding acquire_lock
gets_it = refl

at_once : acquire_lock (attempts 1) ticks 100 0 ≡ lock_busy 0
unfolding acquire_lock
at_once = refl

ticks-sleep : (k : ℕ) → ticks k + 20 ≤ ticks (suc k)
ticks-sleep k = omega arith

acquire_lock-Ends_example :
    Ends (attempts 9) ticks 100 (100 + 40) (rounds 40) 0 (acquire_lock (attempts 9) ticks 100 40)
acquire_lock-Ends_example = acquire_lock-Ends (attempts 9) ticks 100 40 ticks-sleep (omega arith)

abbrev owner_of : ℕ → LockOwner
owner_of p = record { pid = p; cwd = []; command = []; since_unix = 0 }

stale_test : describe 90 (some false) (owner_of 1) ≡ Holder.unrecorded 1
unfolding describe
stale_test = refl

named_test : describe 90 none (owner_of 1) ≡ Holder.named 1 90 [] []
unfolding describe
named_test = refl

-- The process 1 takes the lock, writes its record and dies; then the process 2 takes it and writes.
abbrev first : World
first = enter no_process 1 Phase.locked

abbrev recorded_by : World → ℕ → World
recorded_by w p = record w { phase = set w.phase p Phase.recorded; sidecar = some (owner_of p) }

abbrev died : World
died =
    let w = recorded_by first 1 in
    record w { phase = set w.phase 1 Phase.outside; dead = set w.dead 1 true }

abbrev second : World
second = recorded_by (enter died 2 Phase.locked) 2

free_at_first : (q : ℕ) → holds (no_process.phase q) ≡ false
unfolding holds
free_at_first q = refl

free_after : (q : ℕ) → holds (died.phase q) ≡ false
unfolding holds set enter
free_after q = ground arith

here : (w : World) (p : ℕ) → (enter w p Phase.locked).phase p ≡ Phase.locked
unfolding enter set
here w p = ground arith

alive : died.dead 2 ≡ false
unfolding set enter
alive = refl

second-Reach : Reach second
second-Reach =
    next
      (next
        (next
          (next (next start (lock 1 refl free_at_first))
            (write_owner 1 (owner_of 1) (here no_process 1) refl))
          (die 1))
        (lock 2 alive free_after))
      (write_owner 2 (owner_of 2) (here died 2) refl)

holds_two : holds (second.phase 2) ≡ true
unfolding holds set
holds_two = refl

alive_two : second.dead 2 ≡ false
unfolding set enter
alive_two = refl

kept_two : second.orphaned 2 ≡ false
unfolding set enter
kept_two = refl

owner-eq-holder_example : ◌≡◌ {A = ℕ} 2 2
owner-eq-holder_example =
    owner-eq-holder second-Reach (owner_of 2) 2 refl alive_two kept_two holds_two
