-- ===== src/Base/Map/Defs.antt =====
-- `BTreeMap`: the entries, iterated in the order of their keys. `BTreeSet<K>` is `BTreeMap<K, ()>`.
use Prim.Native.Nat.Ordering.{lt, eq, gt}
use mathlib.Core.List.{List, [], ◌∷◌, map}
use mathlib.Core.Bool.{Bool, true, false}
use mathlib.Core.Option.{Option, none, some}
use musts.Base.Order.{Ord}

abbrev pub BTreeMap {ℓ κ} : Type ℓ → Type κ → Type (ℓ ⊔ κ)
BTreeMap K V = List (K × V)

abbrev pub BTreeSet {ℓ} : Type ℓ → Type ℓ
BTreeSet K = List (K × Unit {0})

abbrev pub keys {ℓ κ} : {K : Type ℓ} {V : Type κ} → BTreeMap K V → List K
keys = map (λ e. e.0)

module _ {ℓ κ} {K : Type ℓ} {V : Type κ} ⦃o : Ord K⦄ where
  -- `map.insert(k, v)`, which replaces the value of a key that is there
  unfoldable pub insert : K → V → BTreeMap K V → BTreeMap K V
  insert k v [] = (k, v) ∷ []
  insert k v ((j, w) ∷ m) = elim (o.cmp k j) [
    | lt ↦ (k, v) ∷ (j, w) ∷ m
    | eq ↦ (j, v) ∷ m
    | gt ↦ (j, w) ∷ insert k v m
  ]

  -- `map.get(&k)`
  unfoldable pub get : K → BTreeMap K V → Option V
  get k [] = none
  get k ((j, w) ∷ m) = elim (o.cmp k j) [ eq ↦ some w | _ ↦ get k m ]

  abbrev pub contains_key : K → BTreeMap K V → Bool
  contains_key k m = elim (get k m) [ none ↦ false | some _ ↦ true ]

  -- `iter.collect::<BTreeMap<_, _>>()`: a later entry of a key replaces an earlier one
  unfoldable pub from_list : BTreeMap K V → List (K × V) → BTreeMap K V
  unfolding insert
  from_list m [] = m
  from_list m ((k, v) ∷ es) = from_list (insert k v m) es

-- `set.insert(k)`
abbrev pub add {ℓ} : {K : Type ℓ} ⦃o : Ord K⦄ → K → BTreeSet K → BTreeSet K
add k s = insert k tt s
