-- ===== src/Bazel.antt =====
-- Target patterns of bazel (builtin/bazel_bep.rs, `Pattern` and `require_requested`): which targets a
-- pattern names, and whether an invocation asked for all that a pattern names.
pub mod Covering
pub mod Requested
pub mod Events
pub mod Problem
pub mod Complete
pub mod Targets
pub mod Proven
mod Examples
use musts.Base.{
  ℕ, zero, suc, Bool, true, false, not, ◌&&◌, ◌||◌, Option, none, some, List, [], ◌∷◌, ◌++◌,
  if◌then◌else◌,
}
use mathlib.Core.List.{reverse}
use musts.Base.Order.{◌==◌, nat_ord, list_ord}
use musts.Base.Text.{Text, text, starts_with, strip_prefix, contains_text, split_on, trim}
use musts.Base.Lists.{is_empty, any}

pub data Pattern : Type 0 where
  label : Text → Pattern
  recursive : Text → Pattern
  in_package : Text → Pattern

-- `s.split_once(c)` for an ASCII character
unfoldable pub split_once : ℕ → Text → Option (Text × Text)
split_once b [] = none
split_once b (c ∷ s) =
    let rest = split_once b s in
    if c == b then some ([], s) else elim rest [ none ↦ none | some (p, q) ↦ some (c ∷ p, q) ]

-- `trim_end_matches("...")` and `trim_end_matches('/')`, of the reversed text
unfoldable pub drop_dots : Text → Text
drop_dots [] = []
drop_dots (a ∷ []) = a ∷ []
drop_dots (a ∷ b ∷ []) = a ∷ b ∷ []
drop_dots (a ∷ b ∷ c ∷ s) =
    let rest = drop_dots s in if (a == 46) && (b == 46) && (c == 46) then rest else a ∷ b ∷ c ∷ s

unfoldable pub drop_slashes : Text → Text
drop_slashes [] = []
drop_slashes (c ∷ s) = let rest = drop_slashes s in if c == 47 then rest else c ∷ s

-- `pkg.rsplit('/').next()`
unfoldable pub last_part : List Text → Text
last_part [] = []
last_part (p ∷ []) = p
last_part (p ∷ q ∷ ps) = last_part (q ∷ ps)

unfoldable pub strip_main_repo : Text → Option Text
unfolding strip_prefix starts_with text
strip_main_repo raw = elim (strip_prefix (text "@@") raw) [
  | some rest ↦ if starts_with (text "//") rest then some rest else none
  | none ↦ elim (strip_prefix (text "@") raw) [
    | some rest ↦ if starts_with (text "//") rest then some rest else none
    | none ↦ some raw
  ]
]

unfoldable pub is_wild_name : Text → Bool
unfolding text
is_wild_name n = (n == text "all") || (n == text "*") || (n == text "all-targets")

-- `rest.split_once(':')`, with the name that may be missing
unfoldable pub package_and_name : Text → Text × Option Text
unfolding split_once
package_and_name rest = elim (split_once 58 rest) [
  | some (pkg, name) ↦ (pkg, some name)
  | none ↦ (rest, none)
]

unfoldable pub named : Text → Option Text → Option Pattern
unfolding is_wild_name last_part split_on text
named pkg (some n) =
    if is_wild_name n
    then some (Pattern.in_package pkg)
    else some (Pattern.label (text "//" ++ pkg ++ 58 ∷ n))
named pkg none =
    let last = last_part (split_on 47 pkg) in
    if is_empty last then none else some (Pattern.label (text "//" ++ pkg ++ 58 ∷ last))

unfoldable pub is_other_name : Option Text → Bool
unfolding is_wild_name
is_other_name none = false
is_other_name (some n) = not (is_wild_name n)

unfoldable pub parse_rest : Text → Option Text → Option Pattern
unfolding named is_other_name drop_dots drop_slashes starts_with contains_text text
parse_rest pkg name =
    if (pkg == text "...") || starts_with (text ".../") (reverse pkg)
    then if is_other_name name
      then none
      else some (Pattern.recursive (reverse (drop_slashes (drop_dots (reverse pkg)))))
    else if contains_text (text "...") pkg
    then none
    else named pkg name

unfoldable pub parse : Text → Option Pattern
unfolding parse_rest package_and_name strip_main_repo strip_prefix trim text
parse raw = elim (strip_main_repo (trim raw)) [
  | none ↦ none
  | some unprefixed ↦ elim (strip_prefix (text "//") unprefixed) [
    | none ↦ none
    | some rest ↦ parse_rest (package_and_name rest).0 (package_and_name rest).1
  ]
]

unfoldable pub package_under : Text → Text → Bool
unfolding starts_with
package_under pkg root = is_empty root || pkg == root || starts_with (root ++ 47 ∷ []) pkg

-- the package of a label
unfoldable pub package_of : Text → Option Text
unfolding strip_prefix split_once text
package_of l = elim (strip_prefix (text "//") l) [
  | none ↦ none
  | some rest ↦ elim (split_once 58 rest) [ none ↦ none | some (pkg, name) ↦ some pkg ]
]

unfoldable pub names : Pattern → Text → Text → Bool
unfolding package_under
names (Pattern.label m) pkg l = m == l
names (Pattern.in_package p) pkg l = p == pkg
names (Pattern.recursive r) pkg l = package_under pkg r

unfoldable pub contains_label : Pattern → Text → Bool
unfolding package_of names
contains_label p l = elim (package_of l) [ none ↦ false | some pkg ↦ names p pkg l ]

unfoldable pub covers : Pattern → Pattern → Bool
unfolding contains_label package_under
covers (Pattern.recursive r) (Pattern.recursive o) = package_under o r
covers (Pattern.recursive r) (Pattern.in_package o) = package_under o r
covers (Pattern.in_package p) (Pattern.in_package o) = p == o
covers p (Pattern.label l) = contains_label p l
covers _ _ = false

unfoldable pub overlaps : Pattern → Pattern → Bool
unfolding covers
overlaps p q = covers p q || covers q p

unfoldable pub excluded : List Pattern → Pattern → Bool
unfolding any covers
excluded exclusions n = any (λ e. covers e n) exclusions

-- why a wildcard of a check is not proven to have been asked for
pub data Unasked : Type 0 where
  excluded_inside : Text → Unasked
  not_requested : List Text → Unasked

-- a requested pattern that can be read, and whether it takes targets out
unfoldable pub requested_pattern : Text → Option (Bool × Pattern)
unfolding strip_prefix parse
requested_pattern requested = elim (strip_prefix (45 ∷ []) requested) [
  | some negative ↦ elim (parse negative) [ none ↦ none | some n ↦ some (true, n) ]
  | none ↦ elim (parse requested) [ none ↦ none | some q ↦ some (false, q) ]
]

-- the loop over the requested patterns, with the variable `covered`
unfoldable pub scan_requested : Pattern → List Pattern → Bool → List Text → Option Text × Bool
unfolding requested_pattern covers overlaps excluded trim
scan_requested pattern exclusions covered [] = (none, covered)
scan_requested pattern exclusions covered (raw ∷ raws) = elim (requested_pattern (trim raw)) [
  | none ↦ scan_requested pattern exclusions covered raws
  | some (true, n) ↦ elim (overlaps n pattern && not (excluded exclusions n)) [
    | true ↦ (some (trim raw), covered)
    | false ↦ scan_requested pattern exclusions covered raws
  ]
  | some (false, q) ↦ scan_requested pattern exclusions (covered || covers q pattern) raws
]

unfoldable pub asked : List Text → Option Text × Bool → Option Unasked
asked requested (some raw, covered) = some (Unasked.excluded_inside raw)
asked requested (none, true) = none
asked requested (none, false) = some (Unasked.not_requested requested)

unfoldable pub require_requested : List Text → Pattern → List Pattern → Option Unasked
unfolding scan_requested asked
require_requested requested pattern exclusions =
    asked requested (scan_requested pattern exclusions false requested)
