-- ===== src/Validate/Tasks/Hashes.antt =====
-- The two snapshot hashes of a task: the one that a run stores, and the one that a submission computes
-- again.
use musts.Base.{
  ◌≡◌, ◌≢◌, refl, sym, ap, true, ◌||◌, none, some, List, [], ◌∷◌, map, arith, Option-cases, inl,
  inr,
}
use musts.Base.Order.{◌==◌, ==_iff, nat_ord, list_ord}
use musts.Base.Text.{Text}
use musts.Base.Lists
use musts.Base.Lists.{All}
use musts.Base.Map.{BTreeMap, insert, get, contains_key, get-insert, from_list}
use musts.Protocol.{Task}
use musts.Database.{Serde}
use musts.Snapshot.{
  hash_or_empty, pairs_bytes, current_pairs, compute_task_snapshot_hash,
  recompute_task_snapshot_hash,
}
use musts.Snapshot.Encoding.{NulFreePair, pairs_bytes_injective}
use musts.Validate.Tasks.{PreparedCheck, by_id, scope_hashes_of, persisted}

-- the check was asked for, and its scope still hashes to what it did
abbrev pub Unchanged : BTreeMap Text PreparedCheck → BTreeMap Text Text → Text → Type 0
Unchanged checks current s =
    (c : PreparedCheck) × (get s checks ≡ some c) × (get s current ≡ some c.scope_hash)

abbrev current_pair : BTreeMap Text Text → Text → Text × Text
current_pair current c = (c, hash_or_empty (get c current))

-- over checks that were asked for, the loop inserts what a submission looks up
scope_hashes_of-eq :
    (checks : BTreeMap Text PreparedCheck) (current : BTreeMap Text Text) (ss : List Text)
    (hashes : BTreeMap Text Text)
    → All (Unchanged checks current) ss
    → scope_hashes_of checks ss hashes ≡ from_list hashes (map (current_pair current) ss)
unfolding scope_hashes_of from_list
scope_hashes_of-eq checks current [] hashes h = refl
scope_hashes_of-eq checks current (s ∷ ss) hashes h =
    let (c, asked, same) = h.0 in
    rw (asked, same) (scope_hashes_of-eq checks current ss (insert s c.scope_hash hashes) h.1)

-- a check that was not asked for is not in the loop's result
scope_hashes_of-none :
    (checks : BTreeMap Text PreparedCheck) (ss : List Text) (hashes : BTreeMap Text Text) (s : Text)
    → get s checks ≡ none
    → get s hashes ≡ none
    → get s (scope_hashes_of checks ss hashes) ≡ none
unfolding scope_hashes_of
scope_hashes_of-none checks [] hashes s h k = k
scope_hashes_of-none checks (x ∷ ss) hashes s h k = elim (Option-cases (get x checks)) [
  | inl missing ↦ rw missing (scope_hashes_of-none checks ss hashes s h k)
  | inr (c, asked) ↦ rw asked (
      scope_hashes_of-none checks ss (insert x c.scope_hash hashes) s h (
        ground (
          arith,
          get-insert s x c.scope_hash hashes,
          h,
          k,
          asked,
          λ (same : (s == x) ≡ true). ap (λ y. get y checks) ((==_iff s x).0 same),
        )))
]

-- each listed check is in what a submission computes
from_list-listed :
    (current hashes : BTreeMap Text Text) (ss : List Text) (s : Text)
    → (contains_key s hashes || Lists.contains s ss) ≡ true
    → contains_key s (from_list hashes (map (current_pair current) ss)) ≡ true
unfolding from_list Lists.contains
from_list-listed current hashes [] s h = ground arith
from_list-listed current hashes (x ∷ ss) s h =
    from_list-listed current (insert x (hash_or_empty (get x current)) hashes) ss s
      (ground (arith, h, get-insert s x (hash_or_empty (get x current)) hashes))

module _ (digest : Text → Text) (serde : Serde) where
  -- A task whose checks were all asked for is fresh while their scopes hash to what they did: a
  -- submission computes the snapshot hash that the run stored.
  pub persisted-fresh :
      (capability : Text) (dirty : List PreparedCheck) (task : Task) (current : BTreeMap Text Text)
      → All (Unchanged (by_id dirty) current) task.satisfies
      → recompute_task_snapshot_hash digest task.satisfies current
        ≡ (persisted digest serde capability (by_id dirty) task).task_snapshot_hash
  unfolding persisted recompute_task_snapshot_hash compute_task_snapshot_hash current_pairs
  persisted-fresh capability dirty task current h =
      ap (λ m. digest (pairs_bytes m))
        (sym (scope_hashes_of-eq (by_id dirty) current task.satisfies [] h))

  -- A task that names a check which was not asked for is stale at once: without collisions of the
  -- digest, and with no NUL byte in the ids and the hashes, no state of the workspace gives the
  -- snapshot hash that the run stored.
  pub persisted-stale :
      (capability : Text) (dirty : List PreparedCheck) (task : Task) (current : BTreeMap Text Text)
      (s : Text)
      → ((x y : Text) → digest x ≡ digest y → x ≡ y)
      → Lists.contains s task.satisfies ≡ true
      → get s (by_id dirty) ≡ none
      → All NulFreePair (current_pairs task.satisfies current)
      → All NulFreePair (scope_hashes_of (by_id dirty) task.satisfies [])
      → recompute_task_snapshot_hash digest task.satisfies current
        ≢ (persisted digest serde capability (by_id dirty) task).task_snapshot_hash
  unfolding persisted recompute_task_snapshot_hash compute_task_snapshot_hash current_pairs get
  persisted-stale capability dirty task current s no_collision listed unasked n m same =
      let maps =
        pairs_bytes_injective (current_pairs task.satisfies current)
          (scope_hashes_of (by_id dirty) task.satisfies []) n m (no_collision _ _ same) in
      absurd (
        ground (
          arith,
          from_list-listed current [] task.satisfies s (ground (arith, listed)),
          scope_hashes_of-none (by_id dirty) task.satisfies [] s unasked refl,
          ap (contains_key s) maps,
        ))
