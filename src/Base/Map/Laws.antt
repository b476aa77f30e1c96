-- ===== src/Base/Map/Laws.antt =====
-- The laws of `BTreeMap`: look-ups after insertions, and that sorted maps are equal when their
-- look-ups are.
use Prim.Native.Nat.{suc}
use Prim.Native.Nat.Ordering.{lt}
use mathlib.Core.Path.{◌≡◌, refl, sym, ap}
use mathlib.Core.List.{[], ◌∷◌}
use mathlib.Core.Option.{none, some}
use mathlib.Core.Bool.{false}
use mathlib.Core.Logic.{◌≢◌, inl, inr}
use native.Mathlib.Omega.{arith}
use musts.Base.Tests.{if◌then◌else◌, Bool-cases}
use musts.Base.Order.{Ord, ◌==◌, ==_iff, ==_self}
use musts.Base.Lists.{length}
use musts.Base.Map.Defs.{BTreeMap, insert, get, contains_key}

module _ {ℓ κ} {K : Type ℓ} {V : Type κ} ⦃o : Ord K⦄ where
  pub get-insert :
      (j k : K) (v : V) (m : BTreeMap K V)
      → get j (insert k v m) ≡ (if j == k then some v else get j m)
  unfolding get insert
  get-insert j k v [] = ground arith
  get-insert j k v ((i, w) ∷ m) =
      ground (arith, get-insert j k v m, o.cmp_eq k i, o.cmp_eq j k, o.cmp_eq j i, o.cmp_flip j k)

  -- every key of `m` stands after `k`
  abbrev pub Above : K → BTreeMap K V → Type 0
  Above k [] = Unit {0}
  Above k ((j, _) ∷ m) = (o.cmp k j ≡ lt) × Above k m

  abbrev pub IsSorted : BTreeMap K V → Type 0
  IsSorted [] = Unit {0}
  IsSorted ((k, _) ∷ m) = Above k m × IsSorted m

  Above-trans : (i k : K) (m : BTreeMap K V) → o.cmp i k ≡ lt → Above k m → Above i m
  Above-trans i k [] h a = tt
  Above-trans i k ((j, w) ∷ m) h a = (o.cmp_trans i k j h a.0, Above-trans i k m h a.1)

  Above-insert :
      (i k : K) (v : V) (m : BTreeMap K V) → o.cmp i k ≡ lt → Above i m → Above i (insert k v m)
  unfolding insert
  Above-insert i k v [] h a = (h, tt)
  Above-insert i k v ((j, w) ∷ m) h a = ground (arith, Above-insert i k v m h)

  -- insertion keeps the order of the keys
  pub insert-IsSorted : (k : K) (v : V) (m : BTreeMap K V) → IsSorted m → IsSorted (insert k v m)
  unfolding insert
  insert-IsSorted k v [] s = (tt, tt)
  insert-IsSorted k v ((j, w) ∷ m) s =
      ground
        (arith, insert-IsSorted k v m s.1, Above-trans k j m, Above-insert j k v m, o.cmp_flip k j)

  get-Above : (k : K) (m : BTreeMap K V) → Above k m → get k m ≡ none
  unfolding get
  get-Above k [] a = refl
  get-Above k ((j, w) ∷ m) a = ground (arith, get-Above k m)

  get-head : (k : K) (v : V) (m : BTreeMap K V) → get k ((k, v) ∷ m) ≡ some v
  unfolding get
  get-head k v m = ground (arith, o.cmp_self k)

  get-tail :
      (i k : K) (v : V) (m : BTreeMap K V)
      → Above k m
      → get i m ≡ (if i == k then none else get i ((k, v) ∷ m))
  unfolding get
  get-tail i k v m a = ground (arith, o.cmp_eq i k, get-Above k m, get-Above i m)

  get_below :
      (i k : K) (v : V) (m : BTreeMap K V) → o.cmp i k ≡ lt → Above k m → get i ((k, v) ∷ m) ≡ none
  get_below i k v m h a = get-Above i ((k, v) ∷ m) (h, Above-trans i k m h a)

  heads_meet :
      (k j : K) (v w : V) (m n : BTreeMap K V)
      → IsSorted ((k, v) ∷ m)
      → IsSorted ((j, w) ∷ n)
      → ((i : K) → get i ((k, v) ∷ m) ≡ get i ((j, w) ∷ n))
      → k ≡ j
  heads_meet k j v w m n s t h = ground (
    arith,
    o.cmp_eq k j,
    o.cmp_flip k j,
    get_below k j w n,
    get_below j k v m,
    get-head k v m,
    get-head j w n,
    h k,
    h j,
  )

  -- sorted maps with the same look-ups are the same map
  pub map_ext :
      (m n : BTreeMap K V) → IsSorted m → IsSorted n → ((i : K) → get i m ≡ get i n) → m ≡ n
  map_ext [] [] s t h = refl
  map_ext [] ((j, w) ∷ n) s t h = unfold get in cc (h j, get-head j w n)
  map_ext ((k, v) ∷ m) [] s t h = unfold get in cc (h k, get-head k v m)
  map_ext ((k, v) ∷ m) ((j, w) ∷ n) s t h =
      let e = heads_meet k j v w m n s t h in
      let value : some v ≡ some w = cc (h k, get-head k v m, get-head j w n, e) in
      let rest = map_ext m n s.1 t.1 (λ i. tails_meet i e) in cc (e, value, rest)
    where
      tails_meet : (i : K) → k ≡ j → get i m ≡ get i n
      tails_meet i e =
          ground (arith, h i, e, get-tail i k v m s.0, get-tail i j w n t.0, ap (o.cmp i) e)

  -- the order of two insertions of different keys does not matter
  pub insert_comm :
      (k j : K) (v w : V) (m : BTreeMap K V)
      → IsSorted m
      → k ≢ j
      → insert k v (insert j w m) ≡ insert j w (insert k v m)
  insert_comm k j v w m s ne =
      map_ext (insert k v (insert j w m)) (insert j w (insert k v m))
        (insert-IsSorted k v _ (insert-IsSorted j w m s))
        (insert-IsSorted j w _ (insert-IsSorted k v m s))
        λ i. simp get-insert (ground (arith, o.cmp_eq i k, o.cmp_eq i j, ne))

  -- inserting an entry that is there changes nothing
  pub insert_known :
      (k : K) (v : V) (m : BTreeMap K V) → IsSorted m → get k m ≡ some v → insert k v m ≡ m
  insert_known k v m s h = map_ext (insert k v m) m (insert-IsSorted k v m s) s λ i.
      rw get-insert
        (elim (Bool-cases (i == k)) [ inl e ↦ rw (e, (==_iff i k).0 e) (sym h) | inr e ↦ rw e ])

  pub insert-insert :
      (k : K) (v w : V) (m : BTreeMap K V) → IsSorted m → insert k v (insert k w m) ≡ insert k v m
  insert-insert k v w m s =
      map_ext (insert k v (insert k w m)) (insert k v m)
        (insert-IsSorted k v _ (insert-IsSorted k w m s)) (insert-IsSorted k v m s)
        λ i. simp get-insert (ground arith)

  pub get-insert_self : (k : K) (v : V) (m : BTreeMap K V) → get k (insert k v m) ≡ some v
  get-insert_self k v m = rw (get-insert k k v m, ==_self k) refl

  -- a new key makes the map longer by one
  pub length-insert_new :
      (k : K) (v : V) (m : BTreeMap K V)
      → contains_key k m ≡ false
      → length (insert k v m) ≡ suc (length m)
  unfolding insert get
  length-insert_new k v [] h = refl
  length-insert_new k v ((j, w) ∷ m) h = ground (arith, length-insert_new k v m)
