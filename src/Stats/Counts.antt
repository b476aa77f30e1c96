-- ===== src/Stats/Counts.antt =====
-- The numbers of the report against the ledger and the rows, each counted on its own.
use musts.Base.{
  ℕ, suc, ◌∙◌, ◌≢◌, ◌+◌, ◌-◌, ◌≡◌, refl, sym, ap, subst, Bool, true, false, not, Option, List, [],
  ◌∷◌, map, inl, inr, Bool-cases, if◌then◌else◌, arith,
}
use Prim.Native.Nat.Ordering.{lt}
use musts.Base.Order.{Ord, ◌==◌, ==_iff, ==_self, nat_ord, pair_ord, list_ord}
use musts.Base.Text.{Text}
use musts.Base.Lists.{length, contains, All}
use musts.Base.Map.{
  BTreeMap, BTreeSet, IsSorted, Above, insert, get, keys, contains_key, add, add_all, get-insert,
  contains_key-add, length-insert_new,
}
use musts.Json.{Json}
use musts.Ledger.{SatisfiedEntry, LedgerLock}
use musts.Database.{EvidenceRow, Db}
use musts.Stats.{
  CheckStats, LocalHistory, or_none, or_empty_set, satisfied_per_check, count_row,
  read_local_history, stats_of, insert_stats, sort_stats, all_ids, report_of, rows_of,
}

-- the scope hashes that the entries have for one check
unfoldable pub hashes_for : Text → List SatisfiedEntry → List Text
hashes_for id [] = []
hashes_for id ((check, hash) ∷ entries) =
    let rest = hashes_for id entries in if id == check then hash ∷ rest else rest

-- the rows of one check that `p` picks
unfoldable pub count_rows : (EvidenceRow → Bool) → Text → List EvidenceRow → ℕ
count_rows p id [] = 0
count_rows p id (row ∷ rows) =
    let rest = count_rows p id rows in
    if id == row.check_id then (if p row then suc rest else rest) else rest

-- The set of a check is what its hashes add.
satisfied-set :
    (id : Text) (entries : List SatisfiedEntry) (out : BTreeMap Text (BTreeSet Text))
    → or_empty_set (get id (satisfied_per_check entries out))
      ≡ add_all (hashes_for id entries) (or_empty_set (get id out))
unfolding satisfied_per_check hashes_for add_all
satisfied-set id [] out = refl
satisfied-set id ((check, hash) ∷ entries) out =
    let more = insert check (add hash (or_empty_set (get check out))) out in
    let e = satisfied-set id entries more in
    let g = get-insert id check (add hash (or_empty_set (get check out))) out in
    elim (Bool-cases (id == check)) [
      | inl h ↦ rw (e, g, h, ap (λ x. get x out) ((==_iff id check).0 h)) refl
      | inr h ↦ rw (e, g, h) refl
    ]

-- no element is in `ks` twice, or in `s`
abbrev Fresh : List Text → BTreeSet Text → Type 0
Fresh [] s = Unit {0}
Fresh (k ∷ ks) s = (contains k ks ≡ false) × (contains_key k s ≡ false) × Fresh ks s

Fresh-add :
    (k : Text) (ks : List Text) (s : BTreeSet Text)
    → contains k ks ≡ false
    → Fresh ks s
    → Fresh ks (add k s)
unfolding contains
Fresh-add k [] s h f = tt
Fresh-add k (j ∷ ks) s h f = (
  f.0,
  ground (arith, h, f.1, contains_key-add j k s, ==_iff j k, ==_iff k j, ==_self k),
  Fresh-add k ks s (ground (arith, h)) f.2,
)

length-add_all :
    (ks : List Text) (s : BTreeSet Text) → Fresh ks s → length (add_all ks s) ≡ length s + length ks
unfolding add_all
length-add_all [] s f = omega arith
length-add_all (k ∷ ks) s f =
    omega
      (arith, length-add_all ks (add k s) (Fresh-add k ks s f.0 f.2), length-insert_new k tt s f.1)

lt_ne {ℓ} : {K : Type ℓ} ⦃o : Ord K⦄ (a b : K) → o.cmp a b ≡ lt → a ≢ b
lt_ne ⦃o⦄ a b h e = ground (arith, h, o.cmp_self a, ap (o.cmp a) e)

hashes-Above :
    (id hash : Text) (s : BTreeSet SatisfiedEntry)
    → Above (id, hash) s
    → contains hash (hashes_for id (keys s)) ≡ false
unfolding hashes_for contains
hashes-Above id hash [] a = refl
hashes-Above id hash (((check, other), _) ∷ s) a = elim (Bool-cases (id == check)) [
  | inr e ↦ rw e (hashes-Above id hash s a.1)
  | inl e ↦ rw e (ground (arith, hashes-Above id hash s a.1, not_again ((==_iff id check).0 e)))
]
  where
    not_again : id ≡ check → (hash == other) ≡ false
    not_again e = elim (Bool-cases (hash == other)) [
      | inr h ↦ h
      | inl h ↦
          let q : Path SatisfiedEntry (id, hash) (check, other) = cc (e, (==_iff hash other).0 h) in
          elim (lt_ne (id, hash) (check, other) a.0 q) [ ]
    ]

hashes-Fresh :
    (id : Text) (s : BTreeSet SatisfiedEntry) → IsSorted s → Fresh (hashes_for id (keys s)) []
unfolding hashes_for get
hashes-Fresh id [] h = tt
hashes-Fresh id (((check, hash), _) ∷ s) h = elim (Bool-cases (id == check)) [
  | inr e ↦ rw e (hashes-Fresh id s h.1)
  | inl e ↦ rw e (
    subst (λ x. contains hash (hashes_for x (keys s)) ≡ false) (sym ((==_iff id check).0 e))
        (hashes-Above check hash s h.0),
    refl,
    hashes-Fresh id s h.1,
  )
]

-- The set of a check is as long as its hashes are many.
satisfied-length :
    (id : Text) (s : BTreeSet SatisfiedEntry)
    → IsSorted s
    → length (or_empty_set (get id (satisfied_per_check (keys s) [])))
      ≡ length (hashes_for id (keys s))
unfolding get
satisfied-length id s h = omega (
  arith,
  ap length (satisfied-set id (keys s) []),
  length-add_all (hashes_for id (keys s)) [] (hashes-Fresh id s h),
)

module _ (from_str : Text → Option Json) where
  abbrev history_of : Text → BTreeMap Text LocalHistory → LocalHistory
  history_of id m = or_none (get id m)

  -- the histories after one row
  history-row :
      (id : Text) (row : EvidenceRow) (out : BTreeMap Text LocalHistory)
      → history_of id
          (insert row.check_id (count_row from_str row (history_of row.check_id out)) out)
        ≡ (if id == row.check_id
            then count_row from_str row (history_of id out)
            else history_of id out)
  history-row id row out =
      let h = count_row from_str row (history_of row.check_id out) in
      elim (Bool-cases (id == row.check_id)) [
        | inl e ↦
            rw (get-insert id row.check_id h out, e)
              (ap (λ x. count_row from_str row (history_of x out))
                (sym ((==_iff id row.check_id).0 e)))
        | inr e ↦ rw (get-insert id row.check_id h out, e) refl
      ]

  history-submissions :
      (id : Text) (rows : List EvidenceRow) (out : BTreeMap Text LocalHistory)
      → (history_of id (read_local_history from_str rows out)).submissions
        ≡ (history_of id out).submissions + count_rows (λ row. true) id rows
  unfolding read_local_history count_rows count_row
  history-submissions id [] out = omega arith
  history-submissions id (row ∷ rows) out =
      let h = count_row from_str row (history_of row.check_id out) in
      ground (
        arith,
        history-submissions id rows (insert row.check_id h out),
        ap (λ x. x.submissions) (history-row id row out),
      )

  history-red :
      (id : Text) (rows : List EvidenceRow) (out : BTreeMap Text LocalHistory)
      → (history_of id (read_local_history from_str rows out)).red
        ≡ (history_of id out).red + count_rows (λ row. not row.accepted) id rows
  unfolding read_local_history count_rows count_row
  history-red id [] out = omega arith
  history-red id (row ∷ rows) out =
      let h = count_row from_str row (history_of row.check_id out) in
      ground (
        arith,
        history-red id rows (insert row.check_id h out),
        ap (λ x. x.red) (history-row id row out),
      )

-- the numbers of a check, each counted on its own
abbrev pub IsCount : LedgerLock → Option Db → CheckStats → Type 0
IsCount ledger state c =
    (c.satisfied_scopes ≡ length (hashes_for c.check_id (keys ledger.satisfied)))
    × (c.reopened ≡ c.satisfied_scopes - 1)
    × (c.submissions ≡ count_rows (λ row. true) c.check_id (rows_of state))
    × (c.red ≡ count_rows (λ row. not row.accepted) c.check_id (rows_of state))

All-insert_stats :
    (P : CheckStats → Type 0) (c : CheckStats) (cs : List CheckStats)
    → P c
    → All P cs
    → All P (insert_stats c cs)
unfolding insert_stats
All-insert_stats P c [] h k = (h, tt)
All-insert_stats P c (d ∷ ds) h k = ground (arith, All-insert_stats P c ds)

All-sort_stats :
    (P : CheckStats → Type 0) (f : Text → CheckStats) (ids : List Text)
    → ((id : Text) → P (f id))
    → All P (sort_stats (map f ids))
unfolding sort_stats
All-sort_stats P f [] h = tt
All-sort_stats P f (id ∷ ids) h =
    All-insert_stats P (f id) (sort_stats (map f ids)) (h id) (All-sort_stats P f ids h)

-- In the report on a ledger that is a set in the order of its entries, each check has as many satisfied
-- scopes as the ledger has entries of it, one reopening fewer, but not below none, as many submissions
-- as the database has rows of it, and as many red ones as rows of it that are not accepted.
pub report_of-IsCount :
    (from_str : Text → Option Json) (ledger : LedgerLock) (state : Option Db)
    (declared : BTreeMap Text Text)
    → IsSorted ledger.satisfied
    → All (IsCount ledger state) (report_of from_str ledger state declared).checks
unfolding report_of stats_of get
report_of-IsCount from_str ledger state declared s =
    let satisfied = satisfied_per_check (keys ledger.satisfied) [] in
    let history = read_local_history from_str (rows_of state) [] in
    All-sort_stats (IsCount ledger state) (stats_of satisfied history declared)
      (keys (all_ids satisfied history declared))
      (λ id. (
        satisfied-length id ledger.satisfied s,
        refl,
        history-submissions from_str id (rows_of state) [] ∙ omega arith,
        history-red from_str id (rows_of state) [] ∙ omega arith,
      ))
