-- ===== src/Bootstrap/Processes.antt =====
-- The processes of one workspace, the lock file of the kernel and the record of its owner. A process takes
-- the lock, writes the record (`write_owner`), and on release (`Drop`, also in `unlocked`) removes the
-- record before the lock goes. The kernel lets one process have the lock, and takes it from a process that
-- dies. No process gets the id of one that has died.
pub mod Owner
use musts.Base.{
  ℕ, ◌≡◌, ◌≢◌, refl, sym, ◌∙◌, ap, Bool, true, false, ◌||◌, Option, none, some, arith,
  if◌then◌else◌, inl, inr, Bool-cases,
}
use musts.Base.Order.{◌==◌, ==_iff, nat_ord}
use musts.Bootstrap.{LockOwner}

-- where a process stands: before `write_owner`, after it, and after the removal of the record
pub data Phase : Type 0 where
  outside locked recorded removed : Phase

unfoldable pub holds : Phase → Bool
holds Phase.outside = false
holds Phase.locked = true
holds Phase.recorded = true
holds Phase.removed = true

-- `orphaned` marks a process whose record could not be removed.
pub record World : Type 0 where
  pub phase : ℕ → Phase
  pub sidecar : Option LockOwner
  pub dead : ℕ → Bool
  pub orphaned : ℕ → Bool

unfoldable pub set {ℓ} : {A : Type ℓ} → (ℕ → A) → ℕ → A → ℕ → A
set f p a q = if q == p then a else f q

abbrev pub no_process : World
no_process = record {
  phase = λ p. Phase.outside;
  sidecar = none;
  dead = λ p. false;
  orphaned = λ p. false;
}

unfoldable pub enter : World → ℕ → Phase → World
unfolding set
enter w p a = record w { phase = set w.phase p a }

pub data Step : World → World → Type 0 where
  lock :
      {w : World} (p : ℕ)
      → w.dead p ≡ false
      → ((q : ℕ) → holds (w.phase q) ≡ false)
      → Step w (enter w p Phase.locked)
  write_owner :
      {w : World} (p : ℕ) (owner : LockOwner)
      → w.phase p ≡ Phase.locked
      → owner.pid ≡ p
      → Step w (record w { phase = set w.phase p Phase.recorded; sidecar = some owner })
  write_fails : {w : World} (p : ℕ) → w.phase p ≡ Phase.locked → Step w (enter w p Phase.recorded)
  remove_owner :
      {w : World} (p : ℕ)
      → w.phase p ≡ Phase.recorded
      → Step w (record w { phase = set w.phase p Phase.removed; sidecar = none })
  remove_fails :
      {w : World} (p : ℕ)
      → w.phase p ≡ Phase.recorded
      → Step w (record w { phase = set w.phase p Phase.removed; orphaned = set w.orphaned p true })
  release : {w : World} (p : ℕ) → w.phase p ≡ Phase.removed → Step w (enter w p Phase.outside)
  die :
      {w : World} (p : ℕ)
      → Step w (record w { phase = set w.phase p Phase.outside; dead = set w.dead p true })

pub data Reach : World → Type 0 where
  start : Reach no_process
  next : {w w' : World} → Reach w → Step w w' → Reach w'
