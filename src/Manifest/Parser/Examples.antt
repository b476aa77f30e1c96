-- ===== src/Manifest/Parser/Examples.antt =====
-- Manifests on concrete inputs.
use musts.Base.{◌≡◌, refl, none, some, [], ◌∷◌, ◌⊎◌, inl, inr, true}
use musts.Base.Order.{list_ord}
use musts.Base.Map.{insert, get}
use musts.Validate.Scope.{Check}
use musts.Base.Text.{Text, text}
use musts.Json.{Json, Fields}
use musts.Manifest.Yaml.{Yaml, Mapping}
use musts.Manifest.Parser.{
  Manifest, ManifestFile, ManifestProblem, RawPaths, RawCheck, Libraries, parse,
}
use musts.Manifest.Parser.Declared.{parse-IsManifest, IsManifest}

abbrev raw : RawCheck
raw = record {
  uses = text "bazel/test";
  with_value = Yaml.mapping (Mapping.entry (Yaml.string (text "targets")) Yaml.null Mapping.end);
  paths = RawPaths.one (text "**/*.rs");
  exclude_paths = RawPaths.absent;
}

-- `checks: { b: …, a: … }`, or the same check twice
abbrev two_checks : Mapping
two_checks =
    Mapping.entry (Yaml.string (text "b")) Yaml.null
      (Mapping.entry (Yaml.string (text "a")) Yaml.null Mapping.end)

abbrev same_twice : Mapping
same_twice =
    Mapping.entry (Yaml.string (text "b")) Yaml.null
      (Mapping.entry (Yaml.string (text "b")) Yaml.null Mapping.end)

abbrev libraries : Mapping → RawCheck → Libraries
libraries checks check = record {
  manifest_file = λ bytes. some (record { version = 1; checks = checks });
  top_mapping = λ bytes. none;
  raw_check = λ value. some check;
  is_glob = λ pat. true;
}

abbrev two_parsed : ManifestProblem ⊎ Manifest
two_parsed = parse (libraries two_checks raw) [] []

abbrev parsed_check : Text → Check
parsed_check id = record {
  local_id = id;
  uses = text "bazel/test";
  with_payload = Json.object (Fields.field (text "targets") Json.null Fields.end);
  paths = text "**/*.rs" ∷ [];
  exclude_paths = [];
}

abbrev two_manifest : Manifest
two_manifest = record {
  path = [];
  version = 1;
  checks = (text "a", parsed_check (text "a")) ∷ (text "b", parsed_check (text "b")) ∷ [];
  warnings = [];
}

two_test : parse (libraries two_checks raw) [] [] ≡ inr two_manifest
unfolding parse list_ord insert get
two_test = refl

duplicate_test :
    parse (libraries same_twice raw) [] [] ≡ inl (ManifestProblem.duplicate_check (text "b"))
unfolding parse list_ord insert get
duplicate_test = refl

negated_test :
    parse (libraries two_checks (record raw { exclude_paths = RawPaths.one (text " !a") })) [] []
    ≡ inl (ManifestProblem.negated_pattern (text "b") (text "exclude_paths") (text " !a"))
unfolding parse list_ord insert get
negated_test = refl

parse-IsManifest_example :
    (file : ManifestFile) × (some (record { version = 1; checks = two_checks }) ≡ some file)
    × IsManifest (libraries two_checks raw) file two_manifest
parse-IsManifest_example = parse-IsManifest (libraries two_checks raw) [] [] two_manifest two_test
