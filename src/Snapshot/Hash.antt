-- ===== src/Snapshot/Hash.antt =====
-- `compute_scope_hash`: what moves it and what does not.
use mathlib.Core.List.{Perm}
use native.Mathlib.Decide.{ℕ_discrete}
use musts.Base.{◌≡◌, Bool, List}
use musts.Base.Order.{nat_ord, pair_ord, list_ord}
use musts.Base.Text.{Text}
use musts.Snapshot.Defs.{ScopeInput, sort, scope_bytes, compute_scope_hash}
use musts.Snapshot.Sorting.{sort-perm}
use musts.Snapshot.Encoding.{IsHashable, scope_bytes_injective}

text_discrete : Discrete Text
text_discrete = hlevel ℕ_discrete

pair_discrete : Discrete (Text × Text)
pair_discrete = hlevel ℕ_discrete

-- Listing the same files, or the same manifests below, in another order leaves the scope hash.
pub compute_scope_hash-perm :
    (digest : Text → Text) (i : ScopeInput) (files : List (Text × Text)) (paths : List Text)
    → Perm files i.files
    → Perm paths i.descendant_manifest_paths
    → compute_scope_hash digest (record i { files = files; descendant_manifest_paths = paths })
      ≡ compute_scope_hash digest i
unfolding compute_scope_hash scope_bytes
compute_scope_hash-perm digest i files paths p q = rw (
  sort-perm pair_discrete files i.files p,
  sort-perm text_discrete paths i.descendant_manifest_paths q,
)

-- Without collisions of the digest, and for inputs that hold no NUL byte and whose paths cannot be
-- taken for hashes: equal scope hashes have the same files with the same contents, the same
-- declaration, the same extension and the same manifests below.
pub compute_scope_hash_injective :
    (digest : Text → Text) (looks : Text → Bool) (i j : ScopeInput)
    → ((x y : Text) → digest x ≡ digest y → x ≡ y)
    → IsHashable looks i
    → IsHashable looks j
    → compute_scope_hash digest i ≡ compute_scope_hash digest j
    → (sort i.files ≡ sort j.files)
      × (i.manifest_hash ≡ j.manifest_hash)
      × (i.ext_descriptor_hash ≡ j.ext_descriptor_hash)
      × (sort i.descendant_manifest_paths ≡ sort j.descendant_manifest_paths)
unfolding compute_scope_hash
compute_scope_hash_injective digest looks i j no_collision v w h =
    scope_bytes_injective looks i j v w (no_collision (scope_bytes i) (scope_bytes j) h)
