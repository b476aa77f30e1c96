-- ===== src/Stats/Ordered.antt =====
-- The checks of the report: which they are, and in what order.
use Prim.Native.Nat.{Ordering}
use Prim.Native.Nat.Ordering.{lt, eq, gt}
use musts.Base.{◌≡◌, ◌≢◌, refl, ◌∙◌, ap, ◌||◌, Option, List, [], ◌∷◌, map, ◌⊎◌, ◌<◌, arith}
use musts.Base.Order.{◌==◌, nat_ord, list_ord, flip}
use musts.Base.Text.{Text}
use musts.Base.Lists.{contains}
use musts.Base.Map.{BTreeMap, BTreeSet, keys, get, contains_key, add_all, get-add_all, mem-keys}
use musts.Json.{Json}
use musts.Ledger.{LedgerLock}
use musts.Database.{Db}
use musts.Stats.{
  CheckStats, LocalHistory, cmp_stats, insert_stats, sort_stats, report_of, satisfied_per_check,
  read_local_history, all_ids, stats_of, rows_of,
}

-- `c` has cost more than `d`, or as much and has the lesser id, or the same id.
abbrev pub IsBefore : CheckStats → CheckStats → Type 0
IsBefore c d =
    (d.satisfied_scopes < c.satisfied_scopes)
    ⊎ ((c.satisfied_scopes ≡ d.satisfied_scopes) × (list_ord.cmp c.check_id d.check_id ≢ gt))

cmp_stats-IsBefore : (c d : CheckStats) → cmp_stats c d ≢ gt → IsBefore c d
unfolding cmp_stats list_ord
cmp_stats-IsBefore c d h = ground (arith, h)

cmp-flip : (x y : Text) → list_ord.cmp y x ≡ flip (list_ord.cmp x y)
cmp-flip x y = list_ord.cmp_flip x y

cmp_stats_after : (c d : CheckStats) → cmp_stats c d ≡ gt → IsBefore d c
unfolding cmp_stats list_ord
cmp_stats_after c d h = ground (arith, h, cmp-flip c.check_id d.check_id)

abbrev pub Heads : CheckStats → List CheckStats → Type 0
Heads c [] = Unit {0}
Heads c (d ∷ ds) = IsBefore c d

-- Each check stands before the next.
abbrev pub IsRanked : List CheckStats → Type 0
IsRanked [] = Unit {0}
IsRanked (c ∷ cs) = Heads c cs × IsRanked cs

Heads-insert_stats :
    (b c : CheckStats) (cs : List CheckStats)
    → IsBefore b c
    → Heads b cs
    → Heads b (insert_stats c cs)
unfolding insert_stats
Heads-insert_stats b c [] h k = h
Heads-insert_stats b c (d ∷ ds) h k = ground (arith, h, k)

insert_stats-IsRanked :
    (c : CheckStats) (cs : List CheckStats) → IsRanked cs → IsRanked (insert_stats c cs)
unfolding insert_stats
insert_stats-IsRanked c [] h = (tt, tt)
insert_stats-IsRanked c (d ∷ ds) h =
    placed (cmp_stats c d) (cmp_stats-IsBefore c d) (cmp_stats_after c d)
      (insert_stats-IsRanked c ds h.1)
  where
    placed :
        (o : Ordering)
        → (o ≢ gt → IsBefore c d)
        → (o ≡ gt → IsBefore d c)
        → IsRanked (insert_stats c ds)
        → IsRanked (elim o [ gt ↦ d ∷ insert_stats c ds | _ ↦ c ∷ d ∷ ds ])
    placed lt b a i = (b cc, h)
    placed eq b a i = (b cc, h)
    placed gt b a i = (Heads-insert_stats d c ds (a refl) h.0, i)

sort_stats-IsRanked : (cs : List CheckStats) → IsRanked (sort_stats cs)
unfolding sort_stats
sort_stats-IsRanked [] = tt
sort_stats-IsRanked (c ∷ cs) = insert_stats-IsRanked c (sort_stats cs) (sort_stats-IsRanked cs)

-- the ids of the checks, in their order
abbrev pub ids_of : List CheckStats → List Text
ids_of = map (λ c. c.check_id)

contains-insert_stats :
    (id : Text) (c : CheckStats) (cs : List CheckStats)
    → contains id (ids_of (insert_stats c cs)) ≡ (id == c.check_id || contains id (ids_of cs))
unfolding insert_stats contains
contains-insert_stats id c [] = refl
contains-insert_stats id c (d ∷ ds) = ground (arith, contains-insert_stats id c ds)

contains-sort_stats :
    (id : Text) (cs : List CheckStats)
    → contains id (ids_of (sort_stats cs)) ≡ contains id (ids_of cs)
unfolding sort_stats contains
contains-sort_stats id [] = refl
contains-sort_stats id (c ∷ cs) =
    ground (arith, contains-insert_stats id c (sort_stats cs), contains-sort_stats id cs)

contains-keys {ℓ} :
    {V : Type ℓ} (id : Text) (m : BTreeMap Text V) → contains id (keys m) ≡ contains_key id m
unfolding contains get
contains-keys id [] = refl
contains-keys id ((k, v) ∷ m) = ground (arith, contains-keys id m)

module _ (from_str : Text → Option Json) (ledger : LedgerLock) (state : Option Db)
    (declared : BTreeMap Text Text) where
  abbrev satisfied : BTreeMap Text (BTreeSet Text)
  satisfied = satisfied_per_check (keys ledger.satisfied) []

  abbrev history : BTreeMap Text LocalHistory
  history = read_local_history from_str (rows_of state) []

  ids_of-map : (ids : List Text) → ids_of (map (stats_of satisfied history declared) ids) ≡ ids
  unfolding stats_of
  ids_of-map [] = refl
  ids_of-map (id ∷ ids) = ap (λ (xs : List Text). id ∷ xs) (ids_of-map ids)

  contains-all_ids :
      (id : Text)
      → contains_key id (all_ids satisfied history declared)
        ≡ (contains_key id declared || (contains_key id history || contains_key id satisfied))
  unfolding all_ids get
  contains-all_ids id = ground (
    arith,
    get-add_all id (keys declared) (add_all (keys history) (add_all (keys satisfied) [])),
    get-add_all id (keys history) (add_all (keys satisfied) []),
    get-add_all id (keys satisfied) [],
    contains-keys id declared,
    contains-keys id history,
    contains-keys id satisfied,
  )

  -- In the report, the checks stand in the order of their cost, and of their ids where the cost is the
  -- same; and a check is in it exactly where the manifests declare it, or it has a local history or satisfied scopes.
  pub report_of-IsRanked :
      IsRanked (report_of from_str ledger state declared).checks
      × ((id : Text)
          → contains id (ids_of (report_of from_str ledger state declared).checks)
            ≡ (contains_key id declared || (contains_key id history || contains_key id satisfied)))
  unfolding report_of
  report_of-IsRanked =
      let ids = all_ids satisfied history declared in
      let checks = map (stats_of satisfied history declared) (keys ids) in
      (
        sort_stats-IsRanked checks,
        λ id.
            contains-sort_stats id checks
            ∙ ap (contains id) (ids_of-map (keys ids))
            ∙ mem-keys id ids
            ∙ contains-all_ids id,
      )
