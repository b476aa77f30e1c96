-- ===== src/Base/Order.antt =====
-- Rust's `Ord` bound with the laws that the trait asks for; numbers, pairs and sequences have it.
use Prim.Native.Nat.{ℕ, compare, Ordering}
use Prim.Native.Nat.Ordering.{lt, eq, gt}
use mathlib.Core.Path.{◌≡◌, refl, ap}
use mathlib.Core.Logic.{◌↔◌}
use mathlib.Core.Bool.{Bool, true, false}
use mathlib.Core.List.{List, [], ◌∷◌}
use native.Mathlib.Omega.{arith}

abbrev pub flip : Ordering → Ordering
flip lt = gt
flip eq = eq
flip gt = lt

pub record Ord {ℓ} (K : Type ℓ) : Type ℓ where
  pub cmp : K → K → Ordering
  pub cmp_self : (a : K) → cmp a a ≡ eq
  pub cmp_eq : (a b : K) → cmp a b ≡ eq → a ≡ b
  pub cmp_flip : (a b : K) → cmp b a ≡ flip (cmp a b)
  pub cmp_trans : (a b c : K) → cmp a b ≡ lt → cmp b c ≡ lt → cmp a c ≡ lt

infix 50 ◌==◌
abbrev pub ◌==◌ {ℓ} : {K : Type ℓ} ⦃o : Ord K⦄ → K → K → Bool
◌==◌ ⦃o⦄ a b = elim (o.cmp a b) [ eq ↦ true | _ ↦ false ]

pub ==_iff {ℓ} : {K : Type ℓ} ⦃o : Ord K⦄ (a b : K) → ((a == b) ≡ true) ↔ (a ≡ b)
==_iff ⦃o⦄ a b =
    (λ h. o.cmp_eq a b (ground arith), λ e. ground (arith, o.cmp_self a, ap (o.cmp a) e))

pub ==_self {ℓ} : {K : Type ℓ} ⦃o : Ord K⦄ (a : K) → (a == a) ≡ true
==_self ⦃o⦄ a = ground (arith, o.cmp_self a)

pub compare_self : (a : ℕ) → compare a a ≡ eq
compare_self a = ground arith

pub compare-eq : (a b : ℕ) → compare a b ≡ eq → a ≡ b
compare-eq a b h = ground arith

pub compare-flip : (a b : ℕ) → compare b a ≡ flip (compare a b)
compare-flip a b = ground arith

pub compare_trans : (a b c : ℕ) → compare a b ≡ lt → compare b c ≡ lt → compare a c ≡ lt
compare_trans a b c h k = ground arith

-- `abbrev`, so that a test on numbers computes to `compare`.
instance abbrev pub nat_ord : Ord ℕ
nat_ord = record {
  cmp = compare;
  cmp_self = compare_self;
  cmp_eq = compare-eq;
  cmp_flip = compare-flip;
  cmp_trans = compare_trans;
}

-- The first difference decides.
abbrev pub or_else : Ordering → Ordering → Ordering
or_else lt q = lt
or_else eq q = q
or_else gt q = gt

module _ {ℓ κ} {A : Type ℓ} {B : Type κ} ⦃a : Ord A⦄ ⦃b : Ord B⦄ where
  abbrev pub cmp_pair : A × B → A × B → Ordering
  cmp_pair x y = or_else (a.cmp x.0 y.0) (b.cmp x.1 y.1)

  pub cmp_pair_self : (x : A × B) → cmp_pair x x ≡ eq
  cmp_pair_self x = ground (arith, a.cmp_self x.0, b.cmp_self x.1)

  pub cmp_pair-flip : (x y : A × B) → cmp_pair y x ≡ flip (cmp_pair x y)
  cmp_pair-flip x y = ground (arith, a.cmp_flip x.0 y.0, b.cmp_flip x.1 y.1)

  pub cmp_pair-eq : (x y : A × B) → cmp_pair x y ≡ eq → x ≡ y
  cmp_pair-eq x y h = ground (arith, a.cmp_eq x.0 y.0, b.cmp_eq x.1 y.1)

  pub cmp_pair_trans : (x y z : A × B) → cmp_pair x y ≡ lt → cmp_pair y z ≡ lt → cmp_pair x z ≡ lt
  cmp_pair_trans x y z h k =
      ground (
        arith,
        a.cmp_eq x.0 y.0,
        a.cmp_eq y.0 z.0,
        a.cmp_trans x.0 y.0 z.0,
        b.cmp_trans x.1 y.1 z.1,
      )

  -- `derive(Ord)` on a struct of two fields.
  instance unfoldable pub pair_ord : Ord (A × B)
  pair_ord = record {
    cmp = cmp_pair;
    cmp_self = cmp_pair_self;
    cmp_eq = cmp_pair-eq;
    cmp_flip = cmp_pair-flip;
    cmp_trans = cmp_pair_trans;
  }

module _ {ℓ} {A : Type ℓ} ⦃a : Ord A⦄ where
  abbrev pub cmp_list : List A → List A → Ordering
  cmp_list [] [] = eq
  cmp_list [] (y ∷ ys) = lt
  cmp_list (x ∷ xs) [] = gt
  cmp_list (x ∷ xs) (y ∷ ys) = or_else (a.cmp x y) (cmp_list xs ys)

  pub cmp_list_self : (xs : List A) → cmp_list xs xs ≡ eq
  cmp_list_self [] = refl
  cmp_list_self (x ∷ xs) = ground (arith, a.cmp_self x, cmp_list_self xs)

  pub cmp_list-eq : (xs ys : List A) → cmp_list xs ys ≡ eq → xs ≡ ys
  cmp_list-eq [] [] h = refl
  cmp_list-eq [] (y ∷ ys) h = cc
  cmp_list-eq (x ∷ xs) [] h = cc
  cmp_list-eq (x ∷ xs) (y ∷ ys) h = ground (arith, a.cmp_eq x y, cmp_list-eq xs ys)

  pub cmp_list-flip : (xs ys : List A) → cmp_list ys xs ≡ flip (cmp_list xs ys)
  cmp_list-flip [] [] = refl
  cmp_list-flip [] (y ∷ ys) = refl
  cmp_list-flip (x ∷ xs) [] = refl
  cmp_list-flip (x ∷ xs) (y ∷ ys) = ground (arith, a.cmp_flip x y, cmp_list-flip xs ys)

  pub cmp_list_trans :
      (xs ys zs : List A) → cmp_list xs ys ≡ lt → cmp_list ys zs ≡ lt → cmp_list xs zs ≡ lt
  cmp_list_trans [] [] zs h k = cc
  cmp_list_trans [] (y ∷ ys) [] h k = cc
  cmp_list_trans [] (y ∷ ys) (z ∷ zs) h k = refl
  cmp_list_trans (x ∷ xs) [] zs h k = cc
  cmp_list_trans (x ∷ xs) (y ∷ ys) [] h k = cc
  cmp_list_trans (x ∷ xs) (y ∷ ys) (z ∷ zs) h k =
      ground (arith, a.cmp_eq x y, a.cmp_eq y z, a.cmp_trans x y z, cmp_list_trans xs ys zs)

  instance unfoldable pub list_ord : Ord (List A)
  list_ord = record {
    cmp = cmp_list;
    cmp_self = cmp_list_self;
    cmp_eq = cmp_list-eq;
    cmp_flip = cmp_list-flip;
    cmp_trans = cmp_list_trans;
  }
