-- ===== src/Manifest/Parser/Patterns.antt =====
-- The checks that `parse_check` makes: their ids and their patterns.
use musts.Base.{
  ◌≡◌, refl, subst, true, false, none, List, [], ◌∷◌, ◌⊎◌, inl, inr, arith, Option-cases,
}
use musts.Base.Order.{nat_ord, list_ord}
use musts.Base.Text.{Text, text, starts_with, trim, trim_start}
use musts.Base.Lists.{All, is_empty}
use musts.Json.{Json}
use musts.Manifest.Yaml.{Yaml, yaml_to_json}
use musts.Manifest.Parser.{
  RawCheck, Libraries, validate_pattern, validate_path_patterns, parse_fields, parse_check,
  into_vec, build_check,
}
use musts.Validate.Scope.{Check}

pub Sum-cases : {A B : Type 0} (x : A ⊎ B) → ((a : A) × (x ≡ inl a)) ⊎ ((b : B) × (x ≡ inr b))
Sum-cases (inl a) = inl (a, refl)
Sum-cases (inr b) = inr (b, refl)

module _ (libraries : Libraries) where
  -- not blank, without a leading `!`, and a glob
  abbrev pub IsPattern : Text → Type 0
  IsPattern pat =
      (is_empty (trim pat) ≡ false)
      × (starts_with (text "!") (trim_start pat) ≡ false)
      × (libraries.is_glob pat ≡ true)

  abbrev pub IsCheck : Text → Check → Type 0
  IsCheck id check =
      (check.local_id ≡ id) × All IsPattern check.paths × All IsPattern check.exclude_paths

  validate_pattern-IsPattern :
      (id field pat : Text) → validate_pattern libraries id field pat ≡ none → IsPattern pat
  unfolding validate_pattern
  validate_pattern-IsPattern id field pat h = ground arith

  patterns-All :
      (id field : Text) (pats : List Text)
      → validate_path_patterns libraries id field pats ≡ none
      → All IsPattern pats
  unfolding validate_path_patterns
  patterns-All id field [] h = tt
  patterns-All id field (pat ∷ pats) h =
      elim (Option-cases (validate_pattern libraries id field pat)) [
        | inl e ↦ (
          validate_pattern-IsPattern id field pat e,
          patterns-All id field pats (ground (arith, e, h)),
        )
        | inr (problem, e) ↦ ground (arith, e, h)
      ]

  parse_fields-IsCheck :
      (id : Text) (raw : RawCheck) (check : Check)
      → parse_fields libraries id raw ≡ inr check
      → IsCheck id check
  unfolding parse_fields build_check
  parse_fields-IsCheck id raw check h = elim (Sum-cases (yaml_to_json raw.with_value)) [
    | inl (problem, e) ↦ ground (arith, e, h)
    | inr (payload, e) ↦
        elim (Option-cases
          (validate_path_patterns libraries id (text "paths") (into_vec raw.paths))) [
            | inr (problem, f) ↦ ground (arith, e, f, h)
            | inl f ↦
                elim (Option-cases (
                  validate_path_patterns libraries id (text "exclude_paths")
                    (into_vec raw.exclude_paths))) [
                      | inr (problem, g) ↦ ground (arith, e, f, g, h)
                      | inl g ↦ subst (IsCheck id) (built id raw check payload e f g h) (
                        refl,
                        patterns-All id (text "paths") (into_vec raw.paths) f,
                        patterns-All id (text "exclude_paths") (into_vec raw.exclude_paths) g,
                      )
                    ]
          ]
  ]
    where
      built :
          (id : Text) (raw : RawCheck) (check : Check) (payload : Json)
          → yaml_to_json raw.with_value ≡ inr payload
          → validate_path_patterns libraries id (text "paths") (into_vec raw.paths) ≡ none
          → validate_path_patterns libraries id (text "exclude_paths") (into_vec raw.exclude_paths)
            ≡ none
          → parse_fields libraries id raw ≡ inr check
          → build_check id raw payload ≡ check
      built id raw check payload e f g h = ground (arith, e, f, g, h)

  pub parse_check-IsCheck :
      (id : Text) (value : Yaml) (check : Check)
      → parse_check libraries id value ≡ inr check
      → IsCheck id check
  unfolding parse_check
  parse_check-IsCheck id value check h = elim (Option-cases (libraries.raw_check value)) [
    | inl e ↦ ground (arith, e, h)
    | inr (raw, e) ↦ parse_fields-IsCheck id raw check (ground (arith, e, h))
  ]
