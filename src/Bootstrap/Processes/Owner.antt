-- ===== src/Bootstrap/Processes/Owner.antt =====
-- The record of the owner against the lock, in every state that the processes reach.
use musts.Base.{
  ℕ, ◌≡◌, refl, ap, Bool, true, false, ◌||◌, some, arith, if◌then◌else◌, ◌⊎◌, inl, inr, Bool-cases,
}
use musts.Base.Order.{◌==◌, ==_iff, ==_self, nat_ord}
use musts.Bootstrap.{LockOwner}
use musts.Bootstrap.Processes.{
  Phase, holds, World, no_process, set, enter, Step, lock, write_owner, write_fails, remove_owner,
  remove_fails, release, die, Reach, start, next,
}

-- One process at most has the lock; the record names a dead process, one that has the lock, or one whose
-- record could not be removed; and no longer one that has the lock once this has removed its record.
pub record IsTruthful (w : World) : Type 0 where
  pub unique : (p q : ℕ) → holds (w.phase p) ≡ true → holds (w.phase q) ≡ true → p ≡ q
  pub named :
      (o : LockOwner)
      → w.sidecar ≡ some o
      → (w.dead o.pid || holds (w.phase o.pid) || w.orphaned o.pid) ≡ true
  pub cleared :
      (p : ℕ) (o : LockOwner)
      → w.phase p ≡ Phase.removed
      → w.sidecar ≡ some o
      → (w.dead o.pid || w.orphaned o.pid) ≡ true

set_self {ℓ} : {A : Type ℓ} (f : ℕ → A) (p : ℕ) (a : A) → set f p a p ≡ a
unfolding set
set_self f p a = ground (arith, ==_self p)

-- the holder, where a process that has the lock or takes it changes its phase
unique-set :
    (f : ℕ → Phase) (r : ℕ) (a : Phase)
    → ((p q : ℕ) → holds (f p) ≡ true → holds (f q) ≡ true → p ≡ q)
    → ((q : ℕ) → holds (f q) ≡ true → holds a ≡ true → r ≡ q)
    → (p q : ℕ) → holds (set f r a p) ≡ true
    → holds (set f r a q) ≡ true
    → p ≡ q
unfolding set
unique-set f r a unique mine p q h k =
    ground (arith, unique p q, mine p, mine q, ==_iff p r, ==_iff q r)

holds-set :
    (f : ℕ → Phase) (p : ℕ) (a : Phase) (q : ℕ)
    → holds (set f p a q) ≡ (if q == p then holds a else holds (f q))
unfolding set
holds-set f p a q = ground arith

set-cases :
    (f : ℕ → Phase) (p : ℕ) (a : Phase) (q : ℕ) (v : Phase) → set f p a q ≡ v → (a ≡ v) ⊎ (f q ≡ v)
unfolding set
set-cases f p a q v e = elim (Bool-cases (q == p)) [
  | inl same ↦ inl (ground (arith, same, e))
  | inr other ↦ inr (ground (arith, other, e))
]

set-mark : (f : ℕ → Bool) (p q : ℕ) → set f p true q ≡ (if q == p then true else f q)
unfolding set
set-mark f p q = refl

-- Nothing is removed while another process has the lock.
removed_unique :
    (w : World) (p q : ℕ)
    → IsTruthful w
    → holds (w.phase p) ≡ true
    → w.phase q ≡ Phase.removed
    → p ≡ q
unfolding holds
removed_unique w p q t h r = t.unique p q h (ground (arith, r))

Step-IsTruthful : {w w' : World} → Step w w' → IsTruthful w → IsTruthful w'
unfolding enter holds
Step-IsTruthful (lock {w} p alive free) t = record {
  unique = unique-set w.phase p Phase.locked t.unique (λ q h k. ground (arith, free q));
  named = λ o e. ground (arith, t.named o e, holds-set w.phase p Phase.locked o.pid);
  cleared = λ q o r e. elim (set-cases w.phase p Phase.locked q Phase.removed r) [
    | inl never ↦ ground (arith, never)
    | inr before ↦ ground (arith, free q, before)
  ];
}
Step-IsTruthful (write_owner {w} p owner here mine) t = record {
  unique =
      unique-set w.phase p Phase.recorded t.unique (λ q h k. t.unique p q (ground (arith, here)) h);
  named = λ o e. ground (arith, holds-set w.phase p Phase.recorded o.pid, ==_iff o.pid p);
  cleared = λ q o r e. elim (set-cases w.phase p Phase.recorded q Phase.removed r) [
    | inl never ↦ ground (arith, never)
    | inr before ↦
        let same = removed_unique w p q t (ground (arith, here)) before in
        ground (arith, before, here, ap w.phase same)
  ];
}
Step-IsTruthful (write_fails {w} p here) t = record {
  unique =
      unique-set w.phase p Phase.recorded t.unique (λ q h k. t.unique p q (ground (arith, here)) h);
  named = λ o e. ground (arith, t.named o e, holds-set w.phase p Phase.recorded o.pid);
  cleared = λ q o r e. elim (set-cases w.phase p Phase.recorded q Phase.removed r) [
    | inl never ↦ ground (arith, never)
    | inr before ↦ t.cleared q o before e
  ];
}
Step-IsTruthful (remove_owner {w} p here) t = record {
  unique =
      unique-set w.phase p Phase.removed t.unique (λ q h k. t.unique p q (ground (arith, here)) h);
  named = λ o e. ground arith;
  cleared = λ q o r e. ground arith;
}
Step-IsTruthful (remove_fails {w} p here) t = record {
  unique =
      unique-set w.phase p Phase.removed t.unique (λ q h k. t.unique p q (ground (arith, here)) h);
  named = λ o e.
      ground
        (arith, t.named o e, holds-set w.phase p Phase.removed o.pid, set-mark w.orphaned p o.pid);
  cleared = λ q o r e.
      ground
        (arith, t.named o e, t.unique p o.pid, set-mark w.orphaned p o.pid, ==_iff o.pid p, here);
}
Step-IsTruthful (release {w} p here) t = record {
  unique = unique-set w.phase p Phase.outside t.unique (λ q h k. ground arith);
  named = λ o e. ground (arith, t.cleared p o here e);
  cleared = λ q o r e. ground (arith, t.cleared p o here e);
}
Step-IsTruthful (die {w} p) t = record {
  unique = unique-set w.phase p Phase.outside t.unique (λ q h k. ground arith);
  named = λ o e.
      ground (arith, t.named o e, holds-set w.phase p Phase.outside o.pid, set-mark w.dead p o.pid);
  cleared = λ q o r e. elim (set-cases w.phase p Phase.outside q Phase.removed r) [
    | inl never ↦ ground (arith, never)
    | inr before ↦ ground (arith, t.cleared q o before e, set-mark w.dead p o.pid)
  ];
}

start-IsTruthful : IsTruthful no_process
unfolding holds
start-IsTruthful = record {
  unique = λ p q h k. ground arith;
  named = λ o e. ground arith;
  cleared = λ p o r e. ground arith;
}

Reach-IsTruthful : {w : World} → Reach w → IsTruthful w
Reach-IsTruthful start = start-IsTruthful
Reach-IsTruthful (next r step) = Step-IsTruthful step (Reach-IsTruthful r)

-- In every state that the processes reach: where a process has the lock, and the record names one that
-- is alive and whose record could not have stayed by a failed removal, the record names the process
-- that has the lock.
pub owner-eq-holder :
    {w : World}
    → Reach w
    → (o : LockOwner) (p : ℕ) → w.sidecar ≡ some o
    → w.dead o.pid ≡ false
    → w.orphaned o.pid ≡ false
    → holds (w.phase p) ≡ true
    → p ≡ o.pid
owner-eq-holder {w} r o p named alive kept here =
    let t = Reach-IsTruthful r in
    t.unique p o.pid here (ground (arith, t.named o named, alive, kept))
