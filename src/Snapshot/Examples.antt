-- ===== src/Snapshot/Examples.antt =====
-- The hash theorems at two small scopes.
use musts.Base.{◌≡◌, refl, Bool, false, ◌||◌, List, [], ◌∷◌}
use musts.Base.Order.{◌==◌, nat_ord, pair_ord, list_ord}
use musts.Base.Text.{Text}
use musts.Snapshot.Defs.{ScopeInput, sort}
use musts.Snapshot.Encoding.{IsHashable}
use musts.Snapshot.Hash.{compute_scope_hash_injective}

abbrev input : ScopeInput
input = record {
  files = (97 ∷ [], 49 ∷ []) ∷ (98 ∷ [], 50 ∷ []) ∷ [];
  manifest_hash = 51 ∷ [];
  ext_descriptor_hash = 52 ∷ [];
  descendant_manifest_paths = (99 ∷ []) ∷ [];
}

abbrev swapped : List (Text × Text)
swapped = (98 ∷ [], 50 ∷ []) ∷ (97 ∷ [], 49 ∷ []) ∷ []

-- a hash here begins with a digit, and a path does not
abbrev looks : Text → Bool
looks [] = false
looks (c ∷ t) = c == 51 || c == 52

input-IsHashable : IsHashable looks input
input-IsHashable = record {
  files = (((refl, tt), (refl, tt)), (((refl, tt), (refl, tt)), tt));
  manifest_hash = (refl, tt);
  ext_descriptor_hash = (refl, tt);
  descendants = ((refl, tt), tt);
  digests = (refl, refl);
  paths = (refl, tt);
}

compute_scope_hash_injective_example :
    (sort input.files ≡ sort input.files)
    × (input.manifest_hash ≡ input.manifest_hash)
    × (input.ext_descriptor_hash ≡ input.ext_descriptor_hash)
    × (sort input.descendant_manifest_paths ≡ sort input.descendant_manifest_paths)
compute_scope_hash_injective_example =
    compute_scope_hash_injective (λ t. t) looks input input (λ x y h. h) input-IsHashable
      input-IsHashable refl
