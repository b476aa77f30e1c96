-- ===== src/Manifest/Parser.antt =====
-- `parse` of manifest/parser.rs. What serde_yaml reads from the bytes, and what globset accepts, is a
-- parameter.
pub mod Patterns
pub mod Declared
mod Examples
use musts.Base.{
  ℕ, Bool, true, false, not, Option, none, some, List, [], ◌∷◌, ◌++◌, ◌⊎◌, inl, inr, if◌then◌else◌,
}
use musts.Base.Order.{◌==◌, nat_ord, list_ord}
use musts.Base.Text.{Text, text, starts_with, trim, trim_start}
use musts.Base.Lists.{is_empty}
use musts.Base.Map.{BTreeMap, insert, contains_key}
use musts.Json.{Json}
use musts.Manifest.Yaml.{Yaml, Mapping, as_str, YamlProblem, yaml_to_json}
use musts.Manifest.Keys.{ManifestWarning, unknown_keys, known_check_keys, known_top_keys}
use musts.Validate.Scope.{RelPath, Check}

-- `SUPPORTED_VERSION`
abbrev pub supported_version : ℕ
supported_version = 1

pub record Manifest : Type 0 where
  pub path : RelPath
  pub version : ℕ
  pub checks : BTreeMap Text Check
  pub warnings : List ManifestWarning

pub record ManifestFile : Type 0 where
  pub version : ℕ
  pub checks : Mapping

pub data RawPaths : Type 0 where
  absent : RawPaths
  one : Text → RawPaths
  many : List Text → RawPaths

pub record RawCheck : Type 0 where
  pub uses : Text
  pub with_value : Yaml
  pub paths : RawPaths
  pub exclude_paths : RawPaths

unfoldable pub into_vec : RawPaths → List Text
into_vec RawPaths.absent = []
into_vec (RawPaths.one s) = s ∷ []
into_vec (RawPaths.many v) = v

unfoldable pub build_check : Text → RawCheck → Json → Check
unfolding into_vec
build_check local_id raw payload = record {
  local_id = local_id;
  uses = raw.uses;
  with_payload = payload;
  paths = into_vec raw.paths;
  exclude_paths = into_vec raw.exclude_paths;
}

-- `Error::ManifestYaml` and the messages of `Error::Manifest`
pub data ManifestProblem : Type 0 where
  yaml : ManifestProblem
  unsupported_version : ℕ → ManifestProblem
  key_not_string : ManifestProblem
  with_payload : YamlProblem → ManifestProblem
  empty_pattern : Text → Text → ManifestProblem
  negated_pattern : Text → Text → Text → ManifestProblem
  invalid_glob : Text → Text → ManifestProblem
  duplicate_check : Text → ManifestProblem

-- `serde_yaml::from_slice` at the two types that `parse` reads, `serde_yaml::from_value` at `RawCheck`,
-- and `globset::Glob::new(pat).is_ok()`
pub record Libraries : Type 0 where
  pub manifest_file : Text → Option ManifestFile
  pub top_mapping : Text → Option Mapping
  pub raw_check : Yaml → Option RawCheck
  pub is_glob : Text → Bool

module _ (libraries : Libraries) where
  unfoldable pub validate_pattern : Text → Text → Text → Option ManifestProblem
  unfolding trim trim_start starts_with text
  validate_pattern local_id field pat =
      if is_empty (trim pat)
      then some (ManifestProblem.empty_pattern local_id field)
      else if starts_with (text "!") (trim_start pat)
      then some (ManifestProblem.negated_pattern local_id field pat)
      else if libraries.is_glob pat
      then none
      else some (ManifestProblem.invalid_glob local_id pat)

  unfoldable pub validate_path_patterns : Text → Text → List Text → Option ManifestProblem
  unfolding validate_pattern
  validate_path_patterns local_id field [] = none
  validate_path_patterns local_id field (pat ∷ pats) = elim (validate_pattern local_id field pat) [
    | some problem ↦ some problem
    | none ↦ validate_path_patterns local_id field pats
  ]

  -- The two lists of patterns of a check, and its `with`.
  unfoldable pub parse_fields : Text → RawCheck → ManifestProblem ⊎ Check
  unfolding yaml_to_json build_check into_vec validate_path_patterns text
  parse_fields local_id raw = elim (yaml_to_json raw.with_value) [
    | inl problem ↦ inl (ManifestProblem.with_payload problem)
    | inr payload ↦ elim (validate_path_patterns local_id (text "paths") (into_vec raw.paths)) [
      | some problem ↦ inl problem
      | none ↦
          elim (validate_path_patterns local_id (text "exclude_paths")
            (into_vec raw.exclude_paths)) [
              | some problem ↦ inl problem
              | none ↦ inr (build_check local_id raw payload)
            ]
    ]
  ]

  -- `if let Value::Mapping(map) = raw_value`
  unfoldable pub check_warnings : Text → Yaml → List ManifestWarning
  unfolding unknown_keys
  check_warnings local_id (Yaml.mapping m) = unknown_keys m known_check_keys (some local_id)
  check_warnings local_id _ = []

  unfoldable pub parse_check : Text → Yaml → ManifestProblem ⊎ Check
  unfolding parse_fields
  parse_check local_id value = elim (libraries.raw_check value) [
    | none ↦ inl ManifestProblem.yaml
    | some raw ↦ parse_fields local_id raw
  ]

  -- the loop over `file.checks`, with `checks` and `warnings`
  unfoldable pub parse_checks :
      Mapping
      → BTreeMap Text Check
      → List ManifestWarning
      → ManifestProblem ⊎ (BTreeMap Text Check × List ManifestWarning)
  unfolding as_str check_warnings parse_check insert
  parse_checks Mapping.end checks warnings = inr (checks, warnings)
  parse_checks (Mapping.entry key value rest) checks warnings = elim (as_str key) [
    | none ↦ inl ManifestProblem.key_not_string
    | some local_id ↦ elim (parse_check local_id value) [
      | inl problem ↦ inl problem
      | inr check ↦ elim (contains_key local_id checks) [
        | true ↦ inl (ManifestProblem.duplicate_check local_id)
        | false ↦
            parse_checks rest (insert local_id check checks)
              (warnings ++ check_warnings local_id value)
      ]
    ]
  ]

  unfoldable pub top_warnings : Text → List ManifestWarning
  unfolding unknown_keys
  top_warnings bytes = elim (libraries.top_mapping bytes) [
    | none ↦ []
    | some top ↦ unknown_keys top known_top_keys none
  ]

  unfoldable pub parse_file : RelPath → Text → ManifestFile → ManifestProblem ⊎ Manifest
  unfolding parse_checks top_warnings
  parse_file path bytes file =
      if not (file.version == supported_version)
      then inl (ManifestProblem.unsupported_version file.version)
      else elim (parse_checks file.checks [] (top_warnings bytes)) [
        | inl problem ↦ inl problem
        | inr (checks, warnings) ↦
            inr
              (record { path = path; version = file.version; checks = checks; warnings = warnings })
      ]

  unfoldable pub parse : RelPath → Text → ManifestProblem ⊎ Manifest
  unfolding parse_file
  parse path bytes = elim (libraries.manifest_file bytes) [
    | none ↦ inl ManifestProblem.yaml
    | some file ↦ parse_file path bytes file
  ]
