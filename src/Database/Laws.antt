-- ===== src/Database/Laws.antt =====
-- Evidence rows: a transaction inserts all of its rows or none, and only accepted rows make a check
-- green.
use musts.Base.{
  ◌≡◌, refl, ap, true, false, not, ◌||◌, some, List, [], ◌∷◌, ◌++◌, arith, ◌⊎◌, inl, inr,
  Option-cases,
}
use musts.Base.Order.{list_ord, nat_ord}
use musts.Base.Text.{Text}
use musts.Base.Lists.{all, any, any-append}
use musts.Base.Result.{ok, err, db}
use musts.Database.Defs.{EvidenceRow, Db, insert_rows, insert_atomic, is_green_in}
use mathlib.Core.List.{append-nil, append_assoc}

-- The rows that a successful run of inserts leaves.
insert_rows-eq-append :
    (table rows : List EvidenceRow) {t : List EvidenceRow}
    → insert_rows table rows ≡ some t
    → t ≡ table ++ rows
unfolding insert_rows
insert_rows-eq-append table [] h = ground (arith, append-nil table)
insert_rows-eq-append table (r ∷ rs) {t} h =
    ground
      (arith, insert_rows-eq-append (table ++ r ∷ []) rs {t = t}, append_assoc table (r ∷ []) rs)

-- A transaction either appends all of its rows, or reports the constraint and leaves the table.
pub insert_atomic_lem :
    (rows : List EvidenceRow) (d : Db)
    → (insert_atomic rows d ≡ (ok tt, record d { evidence_records = d.evidence_records ++ rows }))
      ⊎ (insert_atomic rows d ≡ (err db, d))
unfolding insert_atomic
insert_atomic_lem rows d = elim (Option-cases (insert_rows d.evidence_records rows)) [
  | inl e ↦ inr (rw e)
  | inr (t, e) ↦ inl (
      rw e (
        ap (λ (x : List EvidenceRow). (ok tt, record d { evidence_records = x }))
          (insert_rows-eq-append d.evidence_records rows e)))
]

pub is_green_in-append :
    (check_id scope_hash : Text) (table rows : List EvidenceRow)
    → is_green_in check_id scope_hash (table ++ rows)
      ≡ (is_green_in check_id scope_hash table || is_green_in check_id scope_hash rows)
unfolding is_green_in
is_green_in-append check_id scope_hash table rows = any-append _ table rows

-- Rows of rejected submissions make nothing green.
pub is_green_in-rejected :
    (check_id scope_hash : Text) (rows : List EvidenceRow)
    → all (λ r. not r.accepted) rows ≡ true
    → is_green_in check_id scope_hash rows ≡ false
unfolding is_green_in all any
is_green_in-rejected check_id scope_hash [] h = refl
is_green_in-rejected check_id scope_hash (r ∷ rs) h =
    ground (arith, is_green_in-rejected check_id scope_hash rs)
