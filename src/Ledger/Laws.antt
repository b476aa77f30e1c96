-- ===== src/Ledger/Laws.antt =====
-- `LedgerLock::contains` and `LedgerLock::record`: the linear scan is membership in the set, and the
-- set only grows.
use musts.Base.{◌≡◌, refl, sym, ◌∙◌, ap, true, false, not, ◌&&◌, ◌||◌, List, [], ◌∷◌, arith}
use musts.Base.Order.{◌==◌, ==_iff, nat_ord, pair_ord, list_ord}
use musts.Base.Text.{Text}
use musts.Base.Lists.{any}
use musts.Base.Lists
use musts.Base.Map.{
  keys, contains_key, IsSorted, insert-IsSorted, insert_known, mem-keys, contains_key-add,
  get-of_member, add_comm,
}
use mathlib.Core.Path.{ap₂}
use musts.Ledger.Defs.{SatisfiedEntry, entry, LedgerLock, contains, record_entry}

scan-eq-contains :
    (check scope_hash : Text) (es : List SatisfiedEntry)
    → any (λ (e : SatisfiedEntry). (e.0 == check) && (e.1 == scope_hash)) es
      ≡ Lists.contains (entry check scope_hash) es
unfolding any Lists.contains pair_ord
scan-eq-contains check scope_hash [] = refl
scan-eq-contains check scope_hash (e ∷ es) = ground (
  arith,
  scan-eq-contains check scope_hash es,
  ==_iff e.0 check,
  ==_iff check e.0,
  ==_iff e.1 scope_hash,
  ==_iff scope_hash e.1,
)

-- The scan is membership in the set.
pub contains-eq-contains_key :
    (lock : LedgerLock) (check scope_hash : Text)
    → contains lock check scope_hash ≡ contains_key (entry check scope_hash) lock.satisfied
unfolding contains
contains-eq-contains_key lock check scope_hash =
    scan-eq-contains check scope_hash (keys lock.satisfied)
    ∙ mem-keys (entry check scope_hash) lock.satisfied

-- `record` adds its own pair and no other, and reports whether the pair was missing.
pub contains-record_entry :
    (lock : LedgerLock) (check scope_hash c h : Text)
    → (contains (record_entry lock check scope_hash).0 c h
        ≡ (entry c h == entry check scope_hash || contains lock c h))
      × ((record_entry lock check scope_hash).1 ≡ not (contains lock check scope_hash))
unfolding record_entry
contains-record_entry lock check scope_hash c h = (
  contains-eq-contains_key (record_entry lock check scope_hash).0 c h
      ∙ contains_key-add (entry c h) (entry check scope_hash) lock.satisfied
      ∙ ap (λ b. entry c h == entry check scope_hash || b)
          (sym (contains-eq-contains_key lock c h)),
  rw (contains-eq-contains_key lock check scope_hash),
)

-- Recording a pair that is there leaves the ledger as it is.
pub record_entry_known :
    (lock : LedgerLock) (check scope_hash : Text)
    → IsSorted lock.satisfied
    → contains lock check scope_hash ≡ true
    → record_entry lock check scope_hash ≡ (lock, false)
unfolding record_entry
record_entry_known lock check scope_hash s h =
    let there = sym (contains-eq-contains_key lock check scope_hash) ∙ h in
    let same =
      insert_known (entry check scope_hash) tt lock.satisfied s
        (get-of_member (entry check scope_hash) lock.satisfied there) in
    ap₂ (λ m b. (record lock { satisfied = m }, not b)) same there

-- In a ledger whose entries are in order, the order in which two more pairs are recorded does not
-- matter.
pub record_entry_comm :
    (lock : LedgerLock) (c h c' h' : Text)
    → IsSorted lock.satisfied
    → (record_entry (record_entry lock c h).0 c' h').0
      ≡ (record_entry (record_entry lock c' h').0 c h).0
unfolding record_entry
record_entry_comm lock c h c' h' s =
    ap (λ m. record lock { satisfied = m }) (add_comm (entry c' h') (entry c h) lock.satisfied s)

pub record_entry-IsSorted :
    (lock : LedgerLock) (c h : Text)
    → IsSorted lock.satisfied
    → IsSorted (record_entry lock c h).0.satisfied
unfolding record_entry
record_entry-IsSorted lock c h s = insert-IsSorted (entry c h) tt lock.satisfied s
