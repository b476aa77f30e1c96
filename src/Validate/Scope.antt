-- ===== src/Validate/Scope.antt =====
-- Scopes: the folder of a manifest, the check ids in it, and the files that belong to a check. Unicode
-- normalisation is the parameter `normalise`, which stands for `nfc` and `to_lowercase`.
pub mod Prefix
pub mod Partition
pub mod Ids
use musts.Base.{
  ℕ, zero, suc, ◌+◌, Bool, true, false, not, ◌&&◌, ◌||◌, Option, none, some, List, [], ◌∷◌, ◌++◌,
  map, if◌then◌else◌, ltb,
}
use musts.Base.Order.{◌==◌, nat_ord, list_ord}
use musts.Base.Text.{Text, text, starts_with, strip_prefix, join, is_utf8}
use musts.Base.Lists.{length, is_empty, any, filter}
use musts.Base.Map.{BTreeMap}
use musts.Base.Result.{Result}
use musts.Json.{Json}

-- `Path`, as its components
abbrev pub RelPath : Type 0
RelPath = List Text

pub record Check : Type 0 where
  pub local_id : Text
  pub uses : Text
  pub with_payload : Json
  pub paths : List Text
  pub exclude_paths : List Text

-- `LoadedManifest`, its entry and its parsed file together; `bytes` is what a later reading of the file
-- gives
pub record LoadedManifest : Type 0 where
  pub rel_path : RelPath
  pub bytes : Result Text
  pub checks : BTreeMap Text Check
  pub scope_prefix : Text

-- `rel_path.parent()`
abbrev pub parent : RelPath → RelPath
parent [] = []
parent (c ∷ []) = []
parent (c ∷ d ∷ cs) = c ∷ parent (d ∷ cs)

-- `components().filter_map(|c| c.as_os_str().to_str()).collect::<Vec<_>>().join("/")`: a component that
-- is not UTF-8 is left out
unfoldable pub joined : RelPath → Text
unfolding join filter is_utf8
joined cs = join (47 ∷ []) (filter is_utf8 cs)

unfoldable pub scope_prefix_for : RelPath → Text
unfolding joined
scope_prefix_for rel = if is_empty (parent rel) then [] else joined (parent rel)

-- `ROOT_SCOPE`
unfoldable pub root_scope : Text
unfolding text
root_scope = text "root"

unfoldable pub scope_path_for : RelPath → Text
unfolding joined root_scope
scope_path_for rel = if is_empty (parent rel) then root_scope else joined (parent rel)

unfoldable pub check_id : Text → Text → Text
check_id scope_path local_id = scope_path ++ 47 ∷ local_id

abbrev slashes : Text → ℕ
slashes [] = 0
slashes (c ∷ s) = if c == 47 then suc (slashes s) else slashes s

-- `scope_path.split('/').count()` is one more than the slashes
unfoldable pub scope_depth : Text → ℕ
unfolding root_scope
scope_depth scope_path = if scope_path == root_scope then 0 else suc (slashes scope_path)

unfoldable pub rel_starts_with_dir : Text → Text → Bool
unfolding starts_with
rel_starts_with_dir rel prefix =
    if is_empty prefix then true else rel == prefix || starts_with (prefix ++ 47 ∷ []) rel

-- `bytes.get(i) == Some(&b)`
abbrev pub byte_is : ℕ → ℕ → Text → Bool
byte_is b i [] = false
byte_is b zero (c ∷ s) = c == b
byte_is b (suc i) (c ∷ s) = byte_is b i s

unfoldable pub prefix_is_strict_ancestor : Text → Text → Bool
unfolding starts_with
prefix_is_strict_ancestor p child =
    if child == p
    then false
    else if is_empty p
    then not (is_empty child)
    else ltb (length p) (length child) && starts_with p child && byte_is 47 (length p) child

unfoldable pub strip_scope_prefix : Text → Text → Text
unfolding strip_prefix
strip_scope_prefix rel scope_prefix =
    if is_empty scope_prefix then rel else elim (strip_prefix scope_prefix rel) [
      | none ↦ rel
      | some rest ↦ elim (strip_prefix (47 ∷ []) rest) [ none ↦ rel | some local ↦ local ]
    ]

-- `parsed.checks.values().any(|c| c.uses == capability)`
unfoldable pub declares : Text → BTreeMap Text Check → Bool
declares capability [] = false
declares capability ((_, c) ∷ cs) = c.uses == capability || declares capability cs

-- a deeper manifest that declares a check of the capability
unfoldable pub is_descendant : LoadedManifest → Text → LoadedManifest → Bool
unfolding declares prefix_is_strict_ancestor
is_descendant current capability other =
    not (other.rel_path == current.rel_path)
    && prefix_is_strict_ancestor current.scope_prefix other.scope_prefix
    && declares capability other.checks

unfoldable pub descendant_same_capability_manifest_paths :
    List LoadedManifest → LoadedManifest → Text → List Text
unfolding is_descendant filter joined
descendant_same_capability_manifest_paths manifests current capability =
    map (λ m. joined m.rel_path) (filter (is_descendant current capability) manifests)

unfoldable pub effective_files_for : BTreeMap Text Text → Text → List Text → List (Text × Text)
unfolding rel_starts_with_dir any filter
effective_files_for scope_files manifest_prefix descendants =
    filter
      (λ f.
        rel_starts_with_dir f.0 manifest_prefix && not (any (rel_starts_with_dir f.0) descendants))
      scope_files

-- `PathFilter`: the compiled globs of the globset library, as tests on a path
pub record PathFilter : Type 0 where
  pub include : Option (Text → Bool)
  pub exclude : Option (Text → Bool)

abbrev is_some : Option (Text → Bool) → Bool
is_some none = false
is_some (some _) = true

unfoldable pub is_active : PathFilter → Bool
is_active f = is_some f.include || is_some f.exclude

abbrev matches_or : Bool → Option (Text → Bool) → Text → Bool
matches_or default none local = default
matches_or default (some matches) local = matches local

unfoldable pub filter_effective_files : List (Text × Text) → PathFilter → Text → List (Text × Text)
unfolding strip_scope_prefix filter
filter_effective_files files f scope_prefix =
    filter
      (λ e.
        let local = strip_scope_prefix e.0 scope_prefix in
        matches_or true f.include local && not (matches_or false f.exclude local))
      files

module _ (normalise : Text → Text) where
  unfoldable pub normalise_prefix : Text → Text
  normalise_prefix prefix = normalise prefix

  unfoldable pub normalise_rel_path : RelPath → Text
  unfolding joined
  normalise_rel_path rel_path = normalise (joined rel_path)

  unfoldable pub descendant_prefixes : List LoadedManifest → LoadedManifest → Text → List Text
  unfolding is_descendant filter normalise_prefix
  descendant_prefixes manifests current capability =
      map (λ m. normalise_prefix m.scope_prefix)
        (filter (is_descendant current capability) manifests)
