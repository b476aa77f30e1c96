-- ===== src/Base/Map/Sets.antt =====
-- Sets: the insertion of several elements, and membership.
use mathlib.Core.Path.{◌≡◌, refl}
use mathlib.Core.Bool.{true, ◌||◌}
use mathlib.Core.List.{List, [], ◌∷◌}
use mathlib.Core.Option.{none, some}
use native.Mathlib.Omega.{arith}
use musts.Base.Tests.{if◌then◌else◌}
use musts.Base.Order.{Ord, ◌==◌}
use musts.Base.Lists.{contains}
use musts.Base.Map.Defs.{BTreeSet, keys, get, add, contains_key}
use musts.Base.Map.Laws.{IsSorted, insert-IsSorted, get-insert, map_ext}

module _ {ℓ} {K : Type ℓ} ⦃o : Ord K⦄ where
  -- `for k in ks { set.insert(k) }`
  unfoldable pub add_all : List K → BTreeSet K → BTreeSet K
  add_all [] s = s
  add_all (k ∷ ks) s = add_all ks (add k s)

  pub get-add_all :
      (i : K) (ks : List K) (s : BTreeSet K)
      → get i (add_all ks s) ≡ (if contains i ks then some tt else get i s)
  unfolding add_all contains
  get-add_all i [] s = refl
  get-add_all i (k ∷ ks) s = rw (get-add_all i ks (add k s), get-insert) (ground arith)

  pub add_all-IsSorted : (ks : List K) (s : BTreeSet K) → IsSorted s → IsSorted (add_all ks s)
  unfolding add_all
  add_all-IsSorted [] s h = h
  add_all-IsSorted (k ∷ ks) s h = add_all-IsSorted ks (add k s) (insert-IsSorted k tt s h)

  pub get-keys :
      (i : K) (s : BTreeSet K) → get i s ≡ (if contains i (keys s) then some tt else none)
  unfolding get contains
  get-keys i [] = refl
  get-keys i ((k, tt) ∷ s) = ground (arith, get-keys i s)

  -- membership after an insertion
  pub contains_key-add :
      (j k : K) (s : BTreeSet K) → contains_key j (add k s) ≡ (j == k || contains_key j s)
  contains_key-add j k s = ground (arith, get-insert j k tt s)

  pub get-of_member : (k : K) (s : BTreeSet K) → contains_key k s ≡ true → get k s ≡ some tt
  get-of_member k s h = ground arith

  pub add_comm : (j k : K) (s : BTreeSet K) → IsSorted s → add j (add k s) ≡ add k (add j s)
  add_comm j k s h =
      map_ext (add j (add k s)) (add k (add j s))
        (insert-IsSorted j tt (add k s) (insert-IsSorted k tt s h))
        (insert-IsSorted k tt (add j s) (insert-IsSorted j tt s h))
        λ i. ground (
          arith,
          get-insert i j tt (add k s),
          get-insert i k tt s,
          get-insert i k tt (add j s),
          get-insert i j tt s,
        )

  pub mem-keys : (i : K) (s : BTreeSet K) → contains i (keys s) ≡ contains_key i s
  mem-keys i s = ground (arith, get-keys i s)

  -- A set is rebuilt from its elements.
  pub add_all-keys : (s : BTreeSet K) → IsSorted s → add_all (keys s) [] ≡ s
  unfolding get
  add_all-keys s h =
      map_ext (add_all (keys s) []) s (add_all-IsSorted (keys s) [] tt) h
        λ i. rw (get-add_all i (keys s) [], get-keys i s)
