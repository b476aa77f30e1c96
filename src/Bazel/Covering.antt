-- ===== src/Bazel/Covering.antt =====
-- `covers` and `overlaps` (builtin/bazel_bep.rs) against the labels that two patterns name.
use musts.Base.{
  ◌≡◌, refl, sym, ◌∙◌, ap, true, ◌||◌, some, [], ◌∷◌, ◌++◌, arith, inl, inr, Option-cases,
}
use musts.Base.Order.{◌==◌, ==_iff, ==_self, nat_ord, list_ord}
use musts.Base.Text.{Text, starts_with}
use musts.Validate.Scope.Prefix.{in-eq-starts_with, starts_with-comparable}
use musts.Bazel.{Pattern, package_under, package_of, names, contains_label, covers, overlaps}

starts_with_trans :
    (a b s : Text) → starts_with a b ≡ true → starts_with b s ≡ true → starts_with a s ≡ true
unfolding starts_with
starts_with_trans [] b s h k = refl
starts_with_trans (c ∷ a) [] s h k = cc
starts_with_trans (c ∷ a) (d ∷ b) [] h k = cc
starts_with_trans (c ∷ a) (d ∷ b) (x ∷ s) h k =
    ground (arith, starts_with_trans a b s, ==_iff c d, ==_iff d x, ==_iff c x)

-- A package lies under another one where its path, with a slash, begins with the other's.
package_under-eq :
    (pkg : Text) (c : _) (r : Text)
    → package_under pkg (c ∷ r) ≡ starts_with (c ∷ r ++ 47 ∷ []) (pkg ++ 47 ∷ [])
unfolding package_under
package_under-eq pkg c r = in-eq-starts_with (c ∷ r) pkg

package_under_trans :
    (pkg o r : Text)
    → package_under o r ≡ true
    → package_under pkg o ≡ true
    → package_under pkg r ≡ true
unfolding package_under starts_with list_ord
package_under_trans pkg o [] h k = refl
package_under_trans pkg [] (c ∷ r) h k = cc
package_under_trans pkg (d ∷ o) (c ∷ r) h k =
    package_under-eq pkg c r
    ∙ starts_with_trans (c ∷ r ++ 47 ∷ []) (d ∷ o ++ 47 ∷ []) (pkg ++ 47 ∷ [])
        (sym (package_under-eq (d ∷ o) c r) ∙ h) (sym (package_under-eq pkg d o) ∙ k)

package_under-nested :
    (pkg o r : Text)
    → package_under pkg o ≡ true
    → package_under pkg r ≡ true
    → (package_under o r || package_under r o) ≡ true
unfolding package_under
package_under-nested pkg [] [] h k = refl
package_under-nested pkg (d ∷ o) [] h k = refl
package_under-nested pkg [] (c ∷ r) h k = ground arith
package_under-nested pkg (d ∷ o) (c ∷ r) h k =
    rw (package_under-eq (d ∷ o) c r, package_under-eq (c ∷ r) d o)
      (starts_with-comparable (c ∷ r ++ 47 ∷ []) (d ∷ o ++ 47 ∷ []) (pkg ++ 47 ∷ [])
        (sym (package_under-eq pkg c r) ∙ k) (sym (package_under-eq pkg d o) ∙ h))

contains_label-names :
    (p : Pattern) (l pkg : Text)
    → package_of l ≡ some pkg
    → contains_label p l ≡ true
    → names p pkg l ≡ true
unfolding contains_label
contains_label-names p l pkg e h = ground (arith, e)

contains_label-cases :
    (p : Pattern) (l : Text)
    → contains_label p l ≡ true
    → (pkg : Text) × (package_of l ≡ some pkg) × (names p pkg l ≡ true)
unfolding contains_label
contains_label-cases p l h = elim (Option-cases (package_of l)) [
  | inl e ↦ ground (arith, e)
  | inr (pkg, e) ↦ (pkg, e, contains_label-names p l pkg e h)
]

contains_label-of :
    (p : Pattern) (l pkg : Text)
    → package_of l ≡ some pkg
    → names p pkg l ≡ true
    → contains_label p l ≡ true
unfolding contains_label
contains_label-of p l pkg e h = rw e h

covers-label : (p : Pattern) (l : Text) → covers p (Pattern.label l) ≡ contains_label p l
unfolding covers
covers-label (Pattern.label m) l = refl
covers-label (Pattern.recursive r) l = refl
covers-label (Pattern.in_package p) l = refl

covers-names :
    (p q : Pattern) (pkg l : Text)
    → package_of l ≡ some pkg
    → covers p q ≡ true
    → names q pkg l ≡ true
    → names p pkg l ≡ true
unfolding covers names
covers-names p (Pattern.label o) pkg l e h k =
    contains_label-names p l pkg e
      (ap (contains_label p) (sym ((==_iff o l).0 k)) ∙ sym (covers-label p o) ∙ h)
covers-names (Pattern.label m) (Pattern.recursive o) pkg l e h k = ground arith
covers-names (Pattern.label m) (Pattern.in_package o) pkg l e h k = ground arith
covers-names (Pattern.in_package m) (Pattern.recursive o) pkg l e h k = ground arith
covers-names (Pattern.recursive r) (Pattern.recursive o) pkg l e h k =
    package_under_trans pkg o r h k
covers-names (Pattern.recursive r) (Pattern.in_package o) pkg l e h k =
    ap (λ x. package_under x r) (sym ((==_iff o pkg).0 k)) ∙ h
covers-names (Pattern.in_package p) (Pattern.in_package o) pkg l e h k =
    ap (λ x. p == x) (sym ((==_iff o pkg).0 k)) ∙ h

-- Every target that a covered pattern names is named by the pattern that covers it.
pub covers-contains_label :
    (p q : Pattern) (l : Text)
    → covers p q ≡ true
    → contains_label q l ≡ true
    → contains_label p l ≡ true
covers-contains_label p q l h k =
    let (pkg, e, n) = contains_label-cases q l k in
    contains_label-of p l pkg e (covers-names p q pkg l e h n)

names-overlaps :
    (p q : Pattern) (pkg l : Text)
    → package_of l ≡ some pkg
    → names p pkg l ≡ true
    → names q pkg l ≡ true
    → overlaps p q ≡ true
unfolding overlaps covers names
names-overlaps p (Pattern.label o) pkg l e h k = ground (
  arith,
  covers-label p o,
  ap (contains_label p) ((==_iff o l).0 k),
  contains_label-of p l pkg e h,
)
names-overlaps (Pattern.label m) q pkg l e h k = ground (
  arith,
  covers-label q m,
  ap (contains_label q) ((==_iff m l).0 h),
  contains_label-of q l pkg e k,
)
names-overlaps (Pattern.recursive r) (Pattern.recursive o) pkg l e h k =
    package_under-nested pkg o r k h
names-overlaps (Pattern.recursive r) (Pattern.in_package o) pkg l e h k =
    ground (arith, ap (λ x. package_under x r) ((==_iff o pkg).0 k), h)
names-overlaps (Pattern.in_package p) (Pattern.recursive o) pkg l e h k =
    ap (λ x. package_under x o) ((==_iff p pkg).0 h) ∙ k
names-overlaps (Pattern.in_package p) (Pattern.in_package o) pkg l e h k = ground (
  arith,
  ap (λ x. x == o) ((==_iff p pkg).0 h),
  ap (λ x. pkg == x) ((==_iff o pkg).0 k),
  ==_self pkg,
)

-- Two patterns that name one target overlap.
pub overlaps-contains_label :
    (p q : Pattern) (l : Text)
    → contains_label p l ≡ true
    → contains_label q l ≡ true
    → overlaps p q ≡ true
overlaps-contains_label p q l h k =
    let (pkg, e, n) = contains_label-cases p l h in
    names-overlaps p q pkg l e n (contains_label-names q l pkg e k)
