-- ===== src/Builtin/BazelTest/Targets.antt =====
-- The tasks of `bazel/test` against the targets that the checks declare.
use mathlib.Core.List.{Memᴰ}
use mathlib.Core.List.Memᴰ.{head, tail}
use musts.Base.{
  ◌≡◌, refl, ap, sym, ◌∙◌, subst, true, false, not, ◌||◌, inl, inr, Option, none, some, List, [],
  ◌∷◌, map, Bool, Bool-cases, arith,
}
use musts.Base.Order.{◌==◌, ==_iff, ==_self, nat_ord, list_ord}
use musts.Base.Text.{Text, text}
use musts.Base.Lists.{contains-append, all, filter, contains}
use musts.Base.Map.{
  BTreeMap, BTreeSet, insert, get, keys, contains_key, add_all, get-add_all, mem-keys, get-insert,
  get-insert_self,
}
use musts.Json.{Json}
use musts.Protocol.{Task, ResolveCheck, ResolveRequest}
use musts.Builtin.BazelTest.{
  Bucket, add_check, or_default, is_blank, extend, bucket_of, argv_of, task_of, resolve,
}

abbrev pub or_nothing : Option (List Text) → List Text
or_nothing none = []
or_nothing (some argv) = argv

-- The task satisfies the check, and its command names each of the targets that is not blank.
abbrev pub IsRun : ResolveCheck → List Text → Task → Type 0
IsRun check targets task =
    (contains check.id task.satisfies ≡ true)
    × ((t : Text)
        → contains t targets ≡ true
        → is_blank t ≡ false
        → contains t (or_nothing task.command) ≡ true)

-- the same of a bucket
abbrev IsCollected : ResolveCheck → List Text → Bucket → Type 0
IsCollected check targets bucket =
    (contains check.id bucket.satisfies ≡ true)
    × ((t : Text)
        → contains t targets ≡ true
        → is_blank t ≡ false
        → contains_key t bucket.targets ≡ true)

contains-filter :
    (p : Text → Bool) (x : Text) (xs : List Text)
    → contains x xs ≡ true
    → p x ≡ true
    → contains x (filter p xs) ≡ true
unfolding contains filter
contains-filter p x [] h k = cc
contains-filter p x (y ∷ xs) h k =
    ground (arith, h, k, contains-filter p x xs, (==_iff x y).0, ap p)

contains_key-add_all :
    (t : Text) (ts : List Text) (s : BTreeSet Text)
    → contains_key t (add_all ts s) ≡ (contains t ts || contains_key t s)
unfolding get
contains_key-add_all t ts s = ground (arith, get-add_all t ts s)

-- What a bucket collects stays in it.
IsCollected-kept :
    (check other : ResolveCheck) (targets ts : List Text) (bucket : Bucket)
    → IsCollected check targets bucket
    → IsCollected check targets (extend other ts bucket)
unfolding extend
IsCollected-kept check other targets ts bucket h = (
  rw (contains-append check.id bucket.satisfies (other.id ∷ []), h.0) refl,
  λ t k b.
      ground (
        arith,
        contains_key-add_all t (filter (λ u. not (is_blank u)) ts) bucket.targets,
        h.1 t k b,
      ),
)

-- A check's own bucket collects its targets.
IsCollected-new :
    (check : ResolveCheck) (targets : List Text) (bucket : Bucket)
    → IsCollected check targets (extend check targets bucket)
unfolding extend contains
IsCollected-new check targets bucket = (
  ground (arith, contains-append check.id bucket.satisfies (check.id ∷ []), ==_self check.id),
  λ t k b. ground (
    arith,
    contains_key-add_all t (filter (λ u. not (is_blank u)) targets) bucket.targets,
    contains-filter (λ u. not (is_blank u)) t targets k (ground (arith, b)),
  ),
)

-- The bucket of the check's scope collects its targets.
abbrev IsHeld : ResolveCheck → List Text → BTreeMap Text Bucket → Type 0
IsHeld check targets out =
    (bucket : Bucket) × (get check.scope_path out ≡ some bucket) × IsCollected check targets bucket

IsHeld-extended :
    (check other : ResolveCheck) (targets ts : List Text) (out : BTreeMap Text Bucket)
    → IsHeld check targets out
    → IsHeld check targets
        (insert other.scope_path (extend other ts (or_default (get other.scope_path out))) out)
IsHeld-extended check other targets ts out (bucket, found, h) =
    elim (Bool-cases (check.scope_path == other.scope_path)) [
      | inr e ↦ (
        bucket,
        rw
            (
              get-insert check.scope_path other.scope_path
                  (extend other ts (or_default (get other.scope_path out))) out,
              e,
            )
            found,
        h,
      )
      | inl e ↦ (
        extend other ts bucket,
        rw
            (
              get-insert check.scope_path other.scope_path
                  (extend other ts (or_default (get other.scope_path out))) out,
              e,
            )
            (ap (λ (x : Option Bucket). some (extend other ts (or_default x)))
              (ap (λ k. get k out) (sym ((==_iff check.scope_path other.scope_path).0 e)) ∙ found)),
        IsCollected-kept check other targets ts bucket h,
      )
    ]

add_check-IsHeld :
    (check other : ResolveCheck) (targets : List Text) (declared : Option (List Text))
    (out : BTreeMap Text Bucket)
    → IsHeld check targets out
    → IsHeld check targets (add_check other declared out)
unfolding add_check
add_check-IsHeld check other targets none out h = h
add_check-IsHeld check other targets (some ts) out h = elim (Bool-cases (all is_blank ts)) [
  | inl b ↦ rw b h
  | inr b ↦ rw b (IsHeld-extended check other targets ts out h)
]

add_check-IsHeld_new :
    (check : ResolveCheck) (targets : List Text) (declared : Option (List Text))
    (out : BTreeMap Text Bucket)
    → declared ≡ some targets
    → all is_blank targets ≡ false
    → IsHeld check targets (add_check check declared out)
unfolding add_check
add_check-IsHeld_new check targets none out e b = cc
add_check-IsHeld_new check targets (some ts) out e b =
    let bucket = or_default (get check.scope_path out) in
    let same : ts ≡ targets = cc e in
    subst (λ x. IsHeld check targets (add_check check (some x) out)) (sym same)
      (rw b (
        extend check targets bucket,
        get-insert_self check.scope_path (extend check targets bucket) out,
        IsCollected-new check targets bucket,
      ))

-- A bucket of the map has its task.
task_of-IsRun :
    (to_lowercase : Text → Text) (check : ResolveCheck) (targets : List Text) (scope : Text)
    (bucket : Bucket)
    → IsCollected check targets bucket
    → IsRun check targets (task_of to_lowercase (scope, bucket))
unfolding task_of argv_of contains
task_of-IsRun to_lowercase check targets scope bucket h = (
  h.0,
  λ t k b. ground (
    arith,
    h.1 t k b,
    mem-keys t bucket.targets,
    contains-append t (keys bucket.targets) (text "--test_output=errors" ∷ []),
  ),
)

map-member {ℓ} :
    {B : Type ℓ} (f : Text × Bucket → B) (k : Text) (v : Bucket) (m : BTreeMap Text Bucket)
    → get k m ≡ some v
    → Memᴰ (f (k, v)) (map f m)
unfolding get
map-member f k v [] h = cc
map-member f k v ((j, w) ∷ m) h = elim (Bool-cases (k == j)) [
  | inl e ↦ let here : w ≡ v = ground (arith, e, h) in head (ap f (pairs ((==_iff k j).0 e) here))
  | inr e ↦ tail (map-member f k v m (ground (arith, e, h)))
]
  where
    pairs : k ≡ j → w ≡ v → Path (Text × Bucket) (k, v) (j, w)
    pairs p q = cc

module _ (from_value : Json → Option (List Text)) where
  bucket_of-IsHeld :
      (check : ResolveCheck) (targets : List Text) (checks : List ResolveCheck)
      (out : BTreeMap Text Bucket)
      → IsHeld check targets out
      → IsHeld check targets (bucket_of from_value checks out)
  unfolding bucket_of
  bucket_of-IsHeld check targets [] out h = h
  bucket_of-IsHeld check targets (other ∷ checks) out h =
      bucket_of-IsHeld check targets checks _
        (add_check-IsHeld check other targets (from_value other.with_payload) out h)

  bucket_of-IsHeld_member :
      (check : ResolveCheck) (targets : List Text) (checks : List ResolveCheck)
      (out : BTreeMap Text Bucket)
      → Memᴰ check checks
      → from_value check.with_payload ≡ some targets
      → all is_blank targets ≡ false
      → IsHeld check targets (bucket_of from_value checks out)
  unfolding bucket_of
  bucket_of-IsHeld_member check targets [] out m d b = elim m [ ]
  bucket_of-IsHeld_member check targets (other ∷ checks) out (head e) d b =
      subst
        (λ (c : ResolveCheck).
          IsHeld check targets
            (bucket_of from_value checks (add_check c (from_value c.with_payload) out)))
        e
        (bucket_of-IsHeld check targets checks _
          (add_check-IsHeld_new check targets (from_value check.with_payload) out d b))
  bucket_of-IsHeld_member check targets (other ∷ checks) out (tail m) d b =
      bucket_of-IsHeld_member check targets checks _ m d b

  -- Each check of a request with a payload that can be read and a target that is not blank has a task that
  -- satisfies it, and whose command names each of its targets that is not blank.
  pub resolve-IsRun :
      (to_lowercase : Text → Text) (request : ResolveRequest) (check : ResolveCheck)
      (targets : List Text)
      → Memᴰ check request.checks
      → from_value check.with_payload ≡ some targets
      → all is_blank targets ≡ false
      → (task : Task) × Memᴰ task (resolve to_lowercase from_value request).tasks
        × IsRun check targets task
  unfolding resolve
  resolve-IsRun to_lowercase request check targets m d b =
      let (bucket, found, h) = bucket_of-IsHeld_member check targets request.checks [] m d b in
      (
        task_of to_lowercase (check.scope_path, bucket),
        map-member (task_of to_lowercase) check.scope_path bucket
            (bucket_of from_value request.checks []) found,
        task_of-IsRun to_lowercase check targets check.scope_path bucket h,
      )
