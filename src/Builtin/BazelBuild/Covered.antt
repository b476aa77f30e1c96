-- ===== src/Builtin/BazelBuild/Covered.antt =====
-- The tasks of `bazel/build` against the checks of the request.
use mathlib.Core.List.{Memᴰ}
use mathlib.Core.List.Memᴰ.{head, tail}
use musts.Base.{
  ◌≡◌, refl, ap, sym, ◌∙◌, subst, true, false, not, inl, inr, Option, none, some, List, [], ◌∷◌,
  ◌++◌, map, Bool, Bool-cases, arith, ℕ, suc, zero, ◌+◌, ◌<◌, ◌≤◌,
}
use musts.Base.Order.{◌==◌, ==_iff, ==_self, nat_ord, pair_ord, list_ord}
use musts.Base.Text.{Text}
use musts.Base.Lists.{contains-append, any, filter, contains}
use musts.Base.Map.{insert, get, get-insert, get-insert_self}
use musts.Json.{Json}
use musts.Protocol.{Task, ResolveCheck, ResolveRequest}
use musts.Builtin.BazelBuild.{
  Key, Buckets, or_new, is_deeper, add_check, bucket, is_subsumed, winners, ancestors_in, task_of,
  resolve,
}
use musts.Builtin.BazelBuild.Deeper.{
  level, is_deeper-IsBelow, IsBelow-is_deeper, IsBelow-trans, IsBelow-level,
}

-- the levels of all scopes, so that none is above
unfoldable pub total : Buckets → ℕ
total [] = 0
total ((key, ids) ∷ rest) = let more = total rest in level key.0 + more

level-total :
    (b : Key × List Text) (buckets : Buckets) → Memᴰ b buckets → level b.0.0 ≤ total buckets
unfolding total
level-total b [] m = elim m [ ]
level-total b ((key, ids) ∷ rest) (head e) =
    omega (arith, ap (λ (x : Key × List Text). level x.0.0) e)
level-total b ((key, ids) ∷ rest) (tail m) = omega (arith, level-total b rest m)

any-member :
    (p : Key × List Text → Bool) (buckets : Buckets)
    → any p buckets ≡ true
    → (b : Key × List Text) × Memᴰ b buckets × (p b ≡ true)
unfolding any
any-member p [] h = cc
any-member p (x ∷ rest) h = elim (Bool-cases (p x)) [
  | inl e ↦ (x, head refl, e)
  | inr e ↦ let (b, m, k) = any-member p rest (ground (arith, e, h)) in (b, tail m, k)
]

-- a bucket that is not subsumed, and is below the scope
abbrev IsWon : Buckets → Text → Type 0
IsWon buckets scope =
    (w : Key × List Text) × Memᴰ w buckets
    × (is_subsumed buckets w.0 ≡ false)
    × (is_deeper w.0.0 scope ≡ true)

-- a bucket deeper than a subsumed one, and still below the scope
next_below :
    (buckets : Buckets) (scope : Text) (b : Key × List Text)
    → is_deeper b.0.0 scope ≡ true
    → is_subsumed buckets b.0 ≡ true
    → (c : Key × List Text) × Memᴰ c buckets
      × (is_deeper c.0.0 scope ≡ true)
      × (level b.0.0 < level c.0.0)
unfolding is_subsumed
next_below buckets scope b d e =
    let (c, mc, dc) = any-member (λ (x : Key × List Text). is_deeper x.0.0 b.0.0) buckets e in
    let under = is_deeper-IsBelow c.0.0 b.0.0 dc in
    (
      c,
      mc,
      IsBelow-is_deeper c.0.0 scope
          (IsBelow-trans c.0.0 b.0.0 scope under (is_deeper-IsBelow b.0.0 scope d)),
      IsBelow-level c.0.0 b.0.0 under,
    )

-- Below a scope with something below it, some bucket is not subsumed: the search goes deeper until
-- nothing is.
deepest :
    (n : ℕ) (buckets : Buckets) (scope : Text) (b : Key × List Text)
    → Memᴰ b buckets
    → is_deeper b.0.0 scope ≡ true
    → total buckets ≤ level b.0.0 + n
    → IsWon buckets scope
deepest zero buckets scope b m d bound = elim (Bool-cases (is_subsumed buckets b.0)) [
  | inr e ↦ (b, m, e, d)
  | inl e ↦
      let (c, mc, dc, l) = next_below buckets scope b d e in
      ground (arith, level-total c buckets mc, l, bound)
]
deepest (suc k) buckets scope b m d bound = elim (Bool-cases (is_subsumed buckets b.0)) [
  | inr e ↦ (b, m, e, d)
  | inl e ↦
      let (c, mc, dc, l) = next_below buckets scope b d e in
      deepest k buckets scope c mc dc (omega (arith, l, bound))
]

filter-member :
    (p : Key × List Text → Bool) (w : Key × List Text) (buckets : Buckets)
    → Memᴰ w buckets
    → p w ≡ true
    → Memᴰ w (filter p buckets)
unfolding filter
filter-member p w [] m h = elim m [ ]
filter-member p w (x ∷ rest) (head e) h =
    let kept : p x ≡ true = ap p (sym e) ∙ h in rw kept (head e)
filter-member p w (x ∷ rest) (tail m) h = elim (Bool-cases (p x)) [
  | inl e ↦ rw e (tail (filter-member p w rest m h))
  | inr e ↦ rw e (filter-member p w rest m h)
]

map-member {ℓ} :
    {B : Type ℓ} (f : Key × List Text → B) (w : Key × List Text) (xs : List (Key × List Text))
    → Memᴰ w xs
    → Memᴰ (f w) (map f xs)
map-member f w [] m = elim m [ ]
map-member f w (x ∷ xs) (head e) = head (ap f e)
map-member f w (x ∷ xs) (tail m) = tail (map-member f w xs m)

ancestors-contains :
    (id scope : Text) (b : Key × List Text) (buckets : Buckets)
    → Memᴰ b buckets
    → is_deeper scope b.0.0 ≡ true
    → contains id b.1 ≡ true
    → contains id (ancestors_in scope buckets) ≡ true
unfolding ancestors_in
ancestors-contains id scope b [] m d h = elim m [ ]
ancestors-contains id scope b ((key, ids) ∷ rest) (head e) d h = ground (
  arith,
  ap (λ (x : Key × List Text). is_deeper scope x.0.0) e,
  ap (λ (x : Key × List Text). contains id x.1) e,
  d,
  h,
  contains-append id ids (ancestors_in scope rest),
)
ancestors-contains id scope b ((key, ids) ∷ rest) (tail m) d h = ground (
  arith,
  ancestors-contains id scope b rest m d h,
  contains-append id ids (ancestors_in scope rest),
)

get-member :
    (key : Key) (ids : List Text) (buckets : Buckets)
    → get key buckets ≡ some ids
    → Memᴰ (key, ids) buckets
unfolding get
get-member key ids [] h = cc
get-member key ids ((j, w) ∷ rest) h = elim (Bool-cases (key == j)) [
  | inl e ↦ let here : w ≡ ids = ground (arith, e, h) in head (pairs ((==_iff key j).0 e) here)
  | inr e ↦ tail (get-member key ids rest (ground (arith, e, h)))
]
  where
    pairs : key ≡ j → w ≡ ids → Path (Key × List Text) (key, ids) (j, w)
    pairs p q = cc

-- The bucket of a key has the check.
abbrev IsHeld : Text → Key → Buckets → Type 0
IsHeld id key out = (ids : List Text) × (get key out ≡ some ids) × (contains id ids ≡ true)

insert-IsHeld :
    (id other : Text) (key k : Key) (out : Buckets)
    → IsHeld id key out
    → IsHeld id key (insert k (or_new (get k out) ++ other ∷ []) out)
insert-IsHeld id other key k out (ids, found, h) = elim (Bool-cases (key == k)) [
  | inr e ↦ (ids, rw (get-insert key k (or_new (get k out) ++ other ∷ []) out, e) found, h)
  | inl e ↦ (
    ids ++ other ∷ [],
    rw (get-insert key k (or_new (get k out) ++ other ∷ []) out, e)
        (ap (λ (x : Option (List Text)). some (or_new x ++ other ∷ []))
          (ap (λ j. get j out) (sym ((==_iff key k).0 e)) ∙ found)),
    rw (contains-append id ids (other ∷ []), h) refl,
  )
]

-- A bucket with the check leads to a task that satisfies it.
covered_task :
    (to_lowercase : Text → Text) (buckets : Buckets) (id : Text) (key : Key)
    → IsHeld id key buckets
    → (task : Task) × Memᴰ task (map (task_of to_lowercase buckets) (winners buckets))
      × (contains id task.satisfies ≡ true)
unfolding task_of winners is_subsumed
covered_task to_lowercase buckets id key (ids, found, h) =
    let m = get-member key ids buckets found in
    elim (Bool-cases (is_subsumed buckets key)) [
      | inr e ↦ (
        task_of to_lowercase buckets (key, ids),
        map-member (task_of to_lowercase buckets) (key, ids) (winners buckets)
            (filter-member (λ b. not (is_subsumed buckets b.0)) (key, ids) buckets m
              (ground (arith, e))),
        rw (contains-append id ids (ancestors_in key.0 buckets), h) refl,
      )
      | inl e ↦
          let (b, mb, db) = any-member (λ (x : Key × List Text). is_deeper x.0.0 key.0) buckets e in
          let (w, mw, nw, dw) = deepest (total buckets) buckets key.0 b mb db (omega arith) in
          (
            task_of to_lowercase buckets w,
            map-member (task_of to_lowercase buckets) w (winners buckets) (
                filter-member (λ x. not (is_subsumed buckets x.0)) w buckets mw
                  (ground (arith, nw))),
            ground (
              arith,
              contains-append id w.1 (ancestors_in w.0.0 buckets),
              ancestors-contains id w.0.0 (key, ids) buckets m dw h,
            ),
          )
    ]

module _ (from_value : Json → Option Text) where
  add_check-IsHeld :
      (id : Text) (key : Key) (other : ResolveCheck) (declared : Option Text) (out : Buckets)
      → IsHeld id key out
      → IsHeld id key (add_check other declared out)
  unfolding add_check
  add_check-IsHeld id key other none out h = h
  add_check-IsHeld id key other (some target) out h =
      insert-IsHeld id other.id key (other.scope_path, target) out h

  add_check-IsHeld_new :
      (check : ResolveCheck) (target : Text) (declared : Option Text) (out : Buckets)
      → declared ≡ some target
      → IsHeld check.id (check.scope_path, target) (add_check check declared out)
  unfolding add_check contains
  add_check-IsHeld_new check target none out e = cc
  add_check-IsHeld_new check target (some t) out e =
      let k : Key = (check.scope_path, t) in
      let ids = or_new (get k out) ++ check.id ∷ [] in
      let same : t ≡ target = cc e in
      subst (λ x. IsHeld check.id (check.scope_path, x) (insert k ids out)) same
        (
          ids,
          get-insert_self k ids out,
          ground (
            arith,
            contains-append check.id (or_new (get k out)) (check.id ∷ []),
            ==_self check.id,
          ),
        )

  bucket-IsHeld :
      (id : Text) (key : Key) (checks : List ResolveCheck) (out : Buckets)
      → IsHeld id key out
      → IsHeld id key (bucket from_value checks out)
  unfolding bucket
  bucket-IsHeld id key [] out h = h
  bucket-IsHeld id key (other ∷ checks) out h =
      bucket-IsHeld id key checks _
        (add_check-IsHeld id key other (from_value other.with_payload) out h)

  bucket-IsHeld_member :
      (check : ResolveCheck) (target : Text) (checks : List ResolveCheck) (out : Buckets)
      → Memᴰ check checks
      → from_value check.with_payload ≡ some target
      → IsHeld check.id (check.scope_path, target) (bucket from_value checks out)
  unfolding bucket
  bucket-IsHeld_member check target [] out m d = elim m [ ]
  bucket-IsHeld_member check target (other ∷ checks) out (head e) d =
      subst
        (λ (c : ResolveCheck).
          IsHeld check.id (check.scope_path, target)
            (bucket from_value checks (add_check c (from_value c.with_payload) out)))
        e
        (bucket-IsHeld check.id (check.scope_path, target) checks _
          (add_check-IsHeld_new check target (from_value check.with_payload) out d))
  bucket-IsHeld_member check target (other ∷ checks) out (tail m) d =
      bucket-IsHeld_member check target checks _ m d

  -- Each check of a request with a payload that can be read is satisfied by some task of the response, also
  -- where deeper scopes subsume the scope of the check.
  pub resolve-covers :
      (to_lowercase : Text → Text) (request : ResolveRequest) (check : ResolveCheck) (target : Text)
      → Memᴰ check request.checks
      → from_value check.with_payload ≡ some target
      → (task : Task) × Memᴰ task (resolve to_lowercase from_value request).tasks
        × (contains check.id task.satisfies ≡ true)
  unfolding resolve
  resolve-covers to_lowercase request check target m d =
      covered_task to_lowercase (bucket from_value request.checks []) check.id
        (check.scope_path, target) (bucket-IsHeld_member check target request.checks [] m d)
