-- ===== src/Bazel/Requested.antt =====
-- The loop of `require_requested` (builtin/bazel_bep.rs) against the labels that patterns name.
use musts.Base.{
  ◌≡◌, refl, ap, Bool, true, false, not, ◌||◌, Option, none, some, List, [], ◌∷◌, arith, inl, inr,
  Option-cases,
}
use musts.Base.Text.{Text, trim}
use musts.Base.Lists.{any}
use musts.Bazel.{
  Pattern, contains_label, covers, excluded, scan_requested, requested_pattern, asked,
  require_requested,
}
use musts.Bazel.Covering.{covers-contains_label, overlaps-contains_label}

-- a requested pattern names a target, or takes it out
unfoldable pub asks : Text → Text → Bool
unfolding contains_label requested_pattern trim
asks l raw = elim (requested_pattern (trim raw)) [
  | none ↦ false
  | some (true, n) ↦ false
  | some (false, q) ↦ contains_label q l
]

unfoldable pub drops : Text → Text → Bool
unfolding contains_label requested_pattern trim
drops l raw = elim (requested_pattern (trim raw)) [
  | none ↦ false
  | some (true, n) ↦ contains_label n l
  | some (false, q) ↦ false
]

unfoldable pub names_any : Text → List Pattern → Bool
unfolding any
names_any l ps = any (λ p. contains_label p l) ps

excluded-names_any :
    (ps : List Pattern) (n : Pattern) (l : Text)
    → excluded ps n ≡ true
    → contains_label n l ≡ true
    → names_any l ps ≡ true
unfolding excluded names_any
excluded-names_any [] n l h k = cc
excluded-names_any (p ∷ ps) n l h k =
    ground (arith, covers-contains_label p n l, excluded-names_any ps n l)

scan_requested-asks :
    (pattern : Pattern) (ps : List Pattern) (covered : Bool) (raws : List Text) (l : Text)
    → scan_requested pattern ps covered raws ≡ (none, true)
    → contains_label pattern l ≡ true
    → ((covered || any (asks l) raws) ≡ true)
      × ((not (any (drops l) raws) || names_any l ps) ≡ true)
unfolding scan_requested asks drops any
scan_requested-asks pattern ps covered [] l h k = (ground (arith, ap (λ x. x.1) h), refl)
scan_requested-asks pattern ps covered (raw ∷ raws) l h k =
    elim (Option-cases (requested_pattern (trim raw))) [
      | inl e ↦ ground (arith, e, scan_requested-asks pattern ps covered raws l)
      | inr ((true, n), e) ↦ ground (
        arith,
        e,
        scan_requested-asks pattern ps covered raws l,
        overlaps-contains_label n pattern l,
        excluded-names_any ps n l,
      )
      | inr ((false, q), e) ↦ ground (
        arith,
        e,
        scan_requested-asks pattern ps (covered || covers q pattern) raws l,
        covers-contains_label q pattern l,
      )
    ]

asked-none :
    (requested : List Text) (r : Option Text × Bool) → asked requested r ≡ none → r ≡ (none, true)
unfolding asked
asked-none requested (some raw, covered) h = ground arith
asked-none requested (none, true) h = refl
asked-none requested (none, false) h = ground arith

-- Where `require_requested` accepts a wildcard of a check, every target that the wildcard names is named
-- by a pattern that the invocation requested, and a pattern that the invocation took out names it only
-- if a pattern that the check takes out names it as well.
pub require_requested-asks :
    (requested : List Text) (pattern : Pattern) (exclusions : List Pattern) (l : Text)
    → require_requested requested pattern exclusions ≡ none
    → contains_label pattern l ≡ true
    → (any (asks l) requested ≡ true)
      × ((not (any (drops l) requested) || names_any l exclusions) ≡ true)
unfolding require_requested
require_requested-asks requested pattern exclusions l h k =
    scan_requested-asks pattern exclusions false requested l
      (asked-none requested (scan_requested pattern exclusions false requested) h) k
