-- ===== src/Evidence/Rows.antt =====
-- The rows that a submission writes, and what turns green with them.
use musts.Base.{ℕ, ◌≡◌, Bool, true, ◌&&◌, List, [], ◌∷◌, ◌++◌, arith, ◌⊎◌, inl, inr}
use musts.Base.Order.{==_iff, nat_ord, pair_ord, list_ord}
use musts.Base.Text.{Text}
use musts.Base.Lists
use musts.Ledger.{entry}
use musts.Database.{is_green_in, is_green}
use musts.Database.Laws.{insert_atomic_lem, is_green_in-append}
use musts.Session.{Session}
use musts.Evidence.Defs.{Env, AcceptedEvidence, evidence_rows, save_changed, persist_accepted}

-- The rows of accepted evidence make green the pairs that they are about, and no others.
pub is_green_in-evidence_rows :
    (now : ℕ) (accepted : Bool) (e : AcceptedEvidence) (cs : List (Text × Text)) (c h : Text)
    → is_green_in c h (evidence_rows now accepted e cs)
      ≡ (accepted && Lists.contains (entry c h) cs)
unfolding is_green_in evidence_rows Lists.any Lists.contains pair_ord
is_green_in-evidence_rows now accepted e [] c h = ground arith
is_green_in-evidence_rows now accepted e ((check, hash) ∷ cs) c h = ground (
  arith,
  is_green_in-evidence_rows now accepted e cs c h,
  ==_iff check c,
  ==_iff c check,
  ==_iff hash h,
  ==_iff h hash,
)

module _ (env : Env) where
  abbrev pub inserted : AcceptedEvidence → Session → Session
  inserted e s = record s {
    db = record s.db {
      evidence_records = s.db.evidence_records ++ evidence_rows env.now_unix true e e.checks;
    };
  }

  pub inserted-green :
      (e : AcceptedEvidence) (s : Session) (c h : Text)
      → Lists.contains (entry c h) e.checks ≡ true
      → is_green (inserted e s).db c h ≡ true
  unfolding is_green
  inserted-green e s c h m = ground (
    arith,
    is_green_in-append c h s.db.evidence_records (evidence_rows env.now_unix true e e.checks),
    is_green_in-evidence_rows env.now_unix true e e.checks c h,
  )

  -- Whatever `persist_accepted` returns, the database is as it was, or holds the rows as well.
  pub persist_accepted-db :
      (e : AcceptedEvidence) (s : Session)
      → ((persist_accepted env e s).1.db ≡ s.db)
        ⊎ ((persist_accepted env e s).1.db ≡ (inserted e s).db)
  unfolding persist_accepted save_changed
  persist_accepted-db e s =
      elim (insert_atomic_lem (evidence_rows env.now_unix true e e.checks) s.db) [
        | inr failed ↦ inl (ground arith)
        | inl q ↦ inr (ground arith)
      ]

  -- What it makes green is among its pairs.
  pub persist_accepted-green :
      (e : AcceptedEvidence) (s : Session) (c h : Text)
      → is_green (persist_accepted env e s).1.db c h ≡ true
      → (is_green s.db c h ≡ true) ⊎ (Lists.contains (entry c h) e.checks ≡ true)
  unfolding is_green
  persist_accepted-green e s c h g = elim (persist_accepted-db e s) [
    | inl same ↦ inl (ground arith)
    | inr more ↦ ground (
      arith,
      is_green_in-append c h s.db.evidence_records (evidence_rows env.now_unix true e e.checks),
      is_green_in-evidence_rows env.now_unix true e e.checks c h,
    )
  ]
