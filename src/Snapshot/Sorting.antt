-- ===== src/Snapshot/Sorting.antt =====
-- The sort of the hashed lists: it forgets the order of the caller and keeps the elements.
use mathlib.Core.Path.{ap₂}
use mathlib.Core.List.{Perm, Permᴰ}
use mathlib.Core.Logic.{∥∥₁_elim}
use mathlib.Core.HLevel.{hedberg}
use musts.Base.{◌≡◌, refl, ◌∙◌, List, [], ◌∷◌, arith}
use musts.Base.Order.{Ord}
use musts.Base.Lists.{All}
use musts.Snapshot.Defs.{insert_sorted, sort}

module _ {A : Type 0} ⦃o : Ord A⦄ where
  list_set : Discrete A → IsSet (List A)
  list_set d = hlevel (hedberg d)

  All-insert_sorted {κ} :
      (P : A → Type κ) (x : A) (xs : List A) → P x → All P xs → All P (insert_sorted x xs)
  unfolding insert_sorted
  All-insert_sorted P x [] p h = (p, tt)
  All-insert_sorted P x (y ∷ ys) p h = ground (arith, All-insert_sorted P x ys p h.1)

  insert_sorted_comm :
      (a b : A) (l : List A)
      → insert_sorted a (insert_sorted b l) ≡ insert_sorted b (insert_sorted a l)
  unfolding insert_sorted
  insert_sorted_comm a b [] = ground (arith, o.cmp_eq a b, o.cmp_flip a b)
  insert_sorted_comm a b (c ∷ l) = ground (
    arith,
    insert_sorted_comm a b l,
    o.cmp_eq a b,
    o.cmp_eq a c,
    o.cmp_eq b c,
    o.cmp_flip a b,
    o.cmp_flip a c,
    o.cmp_flip b c,
    o.cmp_trans a b c,
    o.cmp_trans a c b,
    o.cmp_trans b a c,
    o.cmp_trans b c a,
    o.cmp_trans c a b,
    o.cmp_trans c b a,
  )

  sort-Permᴰ : {xs ys : List A} → Permᴰ xs ys → sort xs ≡ sort ys
  unfolding sort
  sort-Permᴰ Permᴰ.nil = refl
  sort-Permᴰ (Permᴰ.cons {a} {b} {l₁} {l₂} e p) = ap₂ insert_sorted e (sort-Permᴰ p)
  sort-Permᴰ (Permᴰ.swap {a} {b} {a'} {b'} {l} e f) =
      insert_sorted_comm a b (sort l) ∙ ap₂ (λ x y. insert_sorted x (insert_sorted y (sort l))) f e
  sort-Permᴰ (Permᴰ.trans p q) = sort-Permᴰ p ∙ sort-Permᴰ q

  -- sorting forgets the order, and only that
  pub sort-perm : Discrete A → (xs ys : List A) → Perm xs ys → sort xs ≡ sort ys
  sort-perm d xs ys p = ∥∥₁_elim p (list_set d (sort xs) (sort ys)) (λ q. sort-Permᴰ q)

  pub All-sort {κ} : (P : A → Type κ) (xs : List A) → All P xs → All P (sort xs)
  unfolding sort
  All-sort P [] h = h
  All-sort P (x ∷ xs) h = All-insert_sorted P x (sort xs) h.0 (All-sort P xs h.1)
