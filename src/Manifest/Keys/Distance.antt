-- ===== src/Manifest/Keys/Distance.antt =====
-- `edit_distance` against edit scripts.
use Prim.Native.Nat.{min}
use mathlib.Core.List.{reverse, reverse_aux, reverse-reverse}
use musts.Base.{
  ℕ, suc, ◌+◌, ◌≤◌, ◌≡◌, refl, sym, ap, ◌∙◌, subst, ◌⊎◌, inl, inr, List, [], ◌∷◌, arith, leb,
  Bool-cases,
}
use musts.Base.Order.{◌==◌, ==_iff, nat_ord}
use musts.Base.Text.{Text}
use musts.Base.Lists.{length}
use musts.Manifest.Keys.{
  differs, fill_row, fill_rows, first_row, last_cell, chars, edit_distance, edit_distance_chars,
}

-- `xs` becomes `ys` by `n` insertions, removals and replacements of a character.
pub data Edits : List ℕ → List ℕ → ℕ → Type 0 where
  done : Edits [] [] 0
  keep : {x y : ℕ} {xs ys : List ℕ} {n : ℕ} → x ≡ y → Edits xs ys n → Edits (x ∷ xs) (y ∷ ys) n
  replace : {xs ys : List ℕ} {n : ℕ} (x y : ℕ) → Edits xs ys n → Edits (x ∷ xs) (y ∷ ys) (suc n)
  remove : {xs ys : List ℕ} {n : ℕ} (x : ℕ) → Edits xs ys n → Edits (x ∷ xs) ys (suc n)
  insert : {xs ys : List ℕ} {n : ℕ} (y : ℕ) → Edits xs ys n → Edits xs (y ∷ ys) (suc n)

-- Levenshtein's recursion
levenshtein : List ℕ → List ℕ → ℕ
levenshtein [] ys = length ys
levenshtein (x ∷ xs) [] = suc (length xs)
levenshtein (x ∷ xs) (y ∷ ys) =
    min (min (levenshtein xs ys + differs x y) (levenshtein xs (y ∷ ys) + 1))
      (levenshtein (x ∷ xs) ys + 1)

levenshtein-nil : (xs : List ℕ) → levenshtein xs [] ≡ length xs
unfolding levenshtein
levenshtein-nil [] = refl
levenshtein-nil (x ∷ xs) = refl

-- No script is shorter.
levenshtein-le : {xs ys : List ℕ} {n : ℕ} → Edits xs ys n → levenshtein xs ys ≤ n
unfolding levenshtein differs
levenshtein-le done = omega arith
levenshtein-le (keep {x} {y} e s) = ground (arith, levenshtein-le s)
levenshtein-le (replace x y s) = ground (arith, levenshtein-le s)
levenshtein-le (remove {xs} {ys = []} x s) = omega (arith, levenshtein-le s, levenshtein-nil xs)
levenshtein-le (remove {xs} {ys = y ∷ ys} x s) = omega (arith, levenshtein-le s)
levenshtein-le (insert {xs = []} {ys} y s) = omega (arith, levenshtein-le s)
levenshtein-le (insert {xs = x ∷ xs} {ys} y s) = omega (arith, levenshtein-le s)

insert_all : (ys : List ℕ) → Edits [] ys (length ys)
insert_all [] = done
insert_all (y ∷ ys) = insert y (insert_all ys)

remove_all : (xs : List ℕ) → Edits xs [] (length xs)
remove_all [] = done
remove_all (x ∷ xs) = remove x (remove_all xs)

min-cases : (a b : ℕ) → (min a b ≡ a) ⊎ (min a b ≡ b)
min-cases a b = elim (Bool-cases (leb a b)) [
  | inl h ↦ inl (ground arith)
  | inr h ↦ inr (ground arith)
]

of_length : {xs ys : List ℕ} {m n : ℕ} → m ≡ n → Edits xs ys m → Edits xs ys n
of_length {xs} {ys} e s = subst (Edits xs ys) e s

-- The recursion's value is attained.
levenshtein-Edits : (xs ys : List ℕ) → Edits xs ys (levenshtein xs ys)
unfolding levenshtein differs
levenshtein-Edits [] ys = insert_all ys
levenshtein-Edits (x ∷ xs) [] = remove_all (x ∷ xs)
levenshtein-Edits (x ∷ xs) (y ∷ ys) =
    elim (min-cases (min (levenshtein xs ys + differs x y) (levenshtein xs (y ∷ ys) + 1))
      (levenshtein (x ∷ xs) ys + 1)) [
        | inr e ↦ of_length (omega (arith, e)) (insert y (levenshtein-Edits (x ∷ xs) ys))
        | inl e ↦ elim (min-cases (levenshtein xs ys + differs x y) (levenshtein xs (y ∷ ys) + 1)) [
          | inr f ↦ of_length (omega (arith, e, f)) (remove x (levenshtein-Edits xs (y ∷ ys)))
          | inl f ↦ elim (Bool-cases (x == y)) [
            | inl same ↦
                of_length (ground (arith, e, f, same))
                  (keep ((==_iff x y).0 same) (levenshtein-Edits xs ys))
            | inr other ↦
                of_length (ground (arith, e, f, other)) (replace x y (levenshtein-Edits xs ys))
          ]
        ]
      ]

Edits-reverse_aux :
    {xs ys : List ℕ} {m : ℕ} (rs ss : List ℕ) (n : ℕ)
    → Edits xs ys m
    → Edits rs ss n
    → Edits (reverse_aux xs rs) (reverse_aux ys ss) (m + n)
Edits-reverse_aux rs ss n done r = of_length (omega arith) r
Edits-reverse_aux rs ss n (keep {x} {y} e s) r = Edits-reverse_aux (x ∷ rs) (y ∷ ss) n s (keep e r)
Edits-reverse_aux rs ss n (replace x y s) r =
    of_length (omega arith) (Edits-reverse_aux (x ∷ rs) (y ∷ ss) (suc n) s (replace x y r))
Edits-reverse_aux rs ss n (remove x s) r =
    of_length (omega arith) (Edits-reverse_aux (x ∷ rs) ss (suc n) s (remove x r))
Edits-reverse_aux rs ss n (insert y s) r =
    of_length (omega arith) (Edits-reverse_aux rs (y ∷ ss) (suc n) s (insert y r))

-- A script runs backwards as well as forwards.
Edits-reverse : {xs ys : List ℕ} {n : ℕ} → Edits xs ys n → Edits (reverse xs) (reverse ys) n
Edits-reverse s = of_length (omega arith) (Edits-reverse_aux [] [] 0 s done)

unreversed : {xs ys : List ℕ} {n : ℕ} → Edits (reverse xs) (reverse ys) n → Edits xs ys n
unreversed {xs} {ys} {n} s =
    subst (λ zs. Edits zs ys n) (reverse-reverse xs)
      (subst (λ zs. Edits (reverse (reverse xs)) zs n) (reverse-reverse ys) (Edits-reverse s))

-- The row for the prefix that `ra` is backwards, from the column `rb` on.
cells : List ℕ → List ℕ → List ℕ → List ℕ
cells ra rb [] = levenshtein ra rb ∷ []
cells ra rb (b ∷ bs) = levenshtein ra rb ∷ cells ra (b ∷ rb) bs

fill_row-cells :
    (ac : ℕ) (ra rb bs : List ℕ)
    → fill_row ac bs (levenshtein (ac ∷ ra) rb) (cells ra rb bs) ≡ cells (ac ∷ ra) rb bs
unfolding fill_row cells levenshtein
fill_row-cells ac ra rb [] = refl
fill_row-cells ac ra rb (b ∷ []) = refl
fill_row-cells ac ra rb (b ∷ c ∷ bs) =
    ap (λ r. levenshtein (ac ∷ ra) rb ∷ r) (fill_row-cells ac ra (b ∷ rb) (c ∷ bs))

first_row-cells : (i : ℕ) (rb bs : List ℕ) → i ≡ length rb → first_row i bs ≡ cells [] rb bs
unfolding first_row cells levenshtein
first_row-cells i rb [] e = rw e
first_row-cells i rb (b ∷ bs) e = ground (arith, first_row-cells (i + 1) (b ∷ rb) bs)

fill_rows-cells :
    (bs : List ℕ) (i : ℕ) (text ra : List ℕ)
    → i ≡ length ra
    → fill_rows bs i text (cells ra [] bs) ≡ cells (reverse_aux text ra) [] bs
unfolding fill_rows
fill_rows-cells bs i [] ra e = refl
fill_rows-cells bs i (ac ∷ cs) ra e =
    ap (fill_rows bs (i + 1) cs) (
      ap (λ n. fill_row ac bs n (cells ra [] bs)) (first_column i ac ra e)
      ∙ fill_row-cells ac ra [] bs)
    ∙ fill_rows-cells bs (i + 1) cs (ac ∷ ra) (omega arith)
  where
    first_column : (i ac : ℕ) (ra : List ℕ) → i ≡ length ra → i + 1 ≡ levenshtein (ac ∷ ra) []
    first_column i ac ra e = omega (arith, levenshtein-nil (ac ∷ ra))

last_cell-cells :
    (ra rb bs : List ℕ) → last_cell (cells ra rb bs) ≡ levenshtein ra (reverse_aux bs rb)
unfolding last_cell cells
last_cell-cells ra rb [] = refl
last_cell-cells ra rb (b ∷ []) = refl
last_cell-cells ra rb (b ∷ c ∷ bs) = last_cell-cells ra (b ∷ rb) (c ∷ bs)

edit_distance_chars-eq-levenshtein :
    (a b : List ℕ) → edit_distance_chars a b ≡ levenshtein (reverse a) (reverse b)
unfolding edit_distance_chars
edit_distance_chars-eq-levenshtein a b =
    ap (λ r. last_cell (fill_rows b 0 a r)) (first_row-cells 0 [] b refl)
    ∙ ap last_cell (fill_rows-cells b 0 a [] refl)
    ∙ last_cell-cells (reverse a) [] b

-- The two rows give the length of a shortest script from `a` to `b`: there is a script of that length,
-- and no script is shorter.
pub edit_distance-IsLeast :
    (a b : Text) (n : ℕ)
    → Edits (chars a) (chars b) n
    → Edits (chars a) (chars b) (edit_distance a b) × (edit_distance a b ≤ n)
unfolding edit_distance
edit_distance-IsLeast a b n s =
    let e = edit_distance_chars-eq-levenshtein (chars a) (chars b) in
    let back = levenshtein-Edits (reverse (chars a)) (reverse (chars b)) in
    (of_length (sym e) (unreversed back), omega (arith, e, levenshtein-le (Edits-reverse s)))
