-- ===== src/Validate/Examples.antt =====
-- A workspace of two manifests, and the theorems on scopes, files and declarations at it.
use mathlib.Core.List.{Memᴰ}
use mathlib.Core.List.Perm
use mathlib.Core.List.Memᴰ.{head, tail}
use musts.Base.{◌≡◌, refl, sym, ◌∙◌, ap, true, List, [], ◌∷◌, arith}
use musts.Base.Order.{nat_ord, pair_ord, list_ord}
use musts.Base.Text.{Text, starts_with, join}
use musts.Base.Lists
use musts.Base.Map.{BTreeMap}
use musts.Json.{Json}
use musts.Base.Result.{ok}
use musts.Validate.Scope.{
  Check, LoadedManifest, scope_prefix_for, joined, rel_starts_with_dir, declares,
}
use musts.Validate.Scope.Partition.{owns, IsLayout, effective_files-partition}
use musts.Validate.Declaration.{Printer, check_declaration_hash}
use musts.Validate.Declaration.Order.{fields_of, check_declaration_hash-perm}

abbrev plain : Text → Text
plain t = t

abbrev build : Check
build = record {
  local_id = 99 ∷ [];
  uses = 98 ∷ [];
  with_payload = Json.null;
  paths = [];
  exclude_paths = [];
}

abbrev root_manifest : LoadedManifest
root_manifest = record {
  rel_path = (77 ∷ []) ∷ [];
  bytes = ok [];
  checks = (99 ∷ [], build) ∷ [];
  scope_prefix = [];
}

abbrev app_manifest : LoadedManifest
app_manifest = record {
  rel_path = (97 ∷ []) ∷ (77 ∷ []) ∷ [];
  bytes = ok [];
  checks = (99 ∷ [], build) ∷ [];
  scope_prefix = 97 ∷ [];
}

abbrev manifests : List LoadedManifest
manifests = root_manifest ∷ app_manifest ∷ []

-- `a/x` and `y`
abbrev app_file : Text × Text
app_file = (97 ∷ 47 ∷ 120 ∷ [], 49 ∷ [])

abbrev scope_files : BTreeMap Text Text
scope_files = app_file ∷ (121 ∷ [], 50 ∷ []) ∷ []

prefixes_agree :
    (k : LoadedManifest) → Memᴰ k manifests → k.scope_prefix ≡ scope_prefix_for k.rel_path
unfolding scope_prefix_for joined join
prefixes_agree k (head e) =
    ap (λ (m : LoadedManifest). m.scope_prefix) e
    ∙ sym (ap (λ (m : LoadedManifest). scope_prefix_for m.rel_path) e)
prefixes_agree k (tail (head e)) =
    ap (λ (m : LoadedManifest). m.scope_prefix) e
    ∙ sym (ap (λ (m : LoadedManifest). scope_prefix_for m.rel_path) e)
prefixes_agree k (tail (tail d)) = elim d [ ]

prefixes_differ :
    (k l : LoadedManifest)
    → Memᴰ k manifests
    → Memᴰ l manifests
    → k.scope_prefix ≡ l.scope_prefix
    → k ≡ l
prefixes_differ k l (head e) (head e') h = e ∙ sym e'
prefixes_differ k l (head e) (tail (head e')) h = absurd (
    ground (
      arith,
      sym (ap (λ (m : LoadedManifest). m.scope_prefix) e)
          ∙ h
          ∙ ap (λ (m : LoadedManifest). m.scope_prefix) e',
    ))
prefixes_differ k l (tail (head e)) (head e') h = absurd (
    ground (
      arith,
      sym (ap (λ (m : LoadedManifest). m.scope_prefix) e)
          ∙ h
          ∙ ap (λ (m : LoadedManifest). m.scope_prefix) e',
    ))
prefixes_differ k l (tail (head e)) (tail (head e')) h = e ∙ sym e'
prefixes_differ k l (tail (tail d)) m h = elim d [ ]
prefixes_differ k l m (tail (tail d)) h = elim d [ ]

manifests-IsLayout : IsLayout plain scope_files manifests (98 ∷ [])
manifests-IsLayout = record {
  normalised = λ k d. refl;
  prefixes = prefixes_agree;
  distinct = prefixes_differ;
}

root_holds :
    (declares (98 ∷ []) root_manifest.checks ≡ true)
    × (Lists.contains app_file scope_files ≡ true)
    × (rel_starts_with_dir app_file.0 root_manifest.scope_prefix ≡ true)
unfolding declares list_ord pair_ord Lists.contains rel_starts_with_dir
root_holds = (refl, refl, refl)

effective_files-partition_example :
    (k : LoadedManifest) × Memᴰ k manifests
    × (declares (98 ∷ []) k.checks ≡ true)
    × (owns plain scope_files manifests (98 ∷ []) k app_file ≡ true)
    × ((l : LoadedManifest)
        → Memᴰ l manifests
        → declares (98 ∷ []) l.checks ≡ true
        → owns plain scope_files manifests (98 ∷ []) l app_file ≡ true
        → l ≡ k)
effective_files-partition_example =
    effective_files-partition plain scope_files manifests (98 ∷ []) root_manifest app_file
      manifests-IsLayout (head refl) root_holds.0 root_holds.1 root_holds.2

inside_both :
    (rel_starts_with_dir (97 ∷ 47 ∷ 120 ∷ []) [] ≡ true)
    × (rel_starts_with_dir (97 ∷ 47 ∷ 120 ∷ []) (97 ∷ []) ≡ true)
unfolding rel_starts_with_dir starts_with list_ord
inside_both = (refl, refl)

abbrev app_scope : Text
app_scope = 97 ∷ []

-- `a/b`
abbrev nested : Text
nested = 97 ∷ 47 ∷ 98 ∷ []

abbrev printer : Printer
printer = record { debug = plain; literal = plain }

check_declaration_hash-perm_example :
    check_declaration_hash printer plain (record build {
      with_payload = Json.object (fields_of ((98 ∷ [], Json.null) ∷ (97 ∷ [], Json.null) ∷ []));
    })
    ≡ check_declaration_hash printer plain (record build {
      with_payload = Json.object (fields_of ((97 ∷ [], Json.null) ∷ (98 ∷ [], Json.null) ∷ []));
    })
check_declaration_hash-perm_example =
    check_declaration_hash-perm printer plain build
      ((98 ∷ [], Json.null) ∷ (97 ∷ [], Json.null) ∷ [])
      ((97 ∷ [], Json.null) ∷ (98 ∷ [], Json.null) ∷ [])
      (Perm.swap (97 ∷ [], Json.null) (98 ∷ [], Json.null) [])
