-- ===== src/Snapshot/Defs.antt =====
-- The inputs of the hashes, as bytes.
use Prim.Native.Nat.Ordering.{gt}
use musts.Base.Int.{ℤ, equals}
use musts.Base.{ℕ, ◌&&◌, Option, none, some, List, [], ◌∷◌, ◌++◌, map, if◌then◌else◌}
use musts.Base.Order.{Ord, ◌==◌, nat_ord, pair_ord, list_ord}
use musts.Base.Text.{Text}
use musts.Base.Map.{BTreeMap, get, from_list}

-- `mtime_ns` is what the `i64` of a row reads as; that of a file is taken from
-- `duration_since(UNIX_EPOCH)`, so it is not negative.
pub record FileFingerprint : Type 0 where
  pub size_bytes : ℕ
  pub mtime_ns : ℤ
  pub content_hash : Text

unfoldable pub cached_hash : FileFingerprint → ℕ → ℕ → Option Text
unfolding equals
cached_hash previous size_bytes mtime_ns =
    if previous.size_bytes == size_bytes && equals previous.mtime_ns mtime_ns
    then some previous.content_hash
    else none

pub record ScopeInput : Type 0 where
  pub files : List (Text × Text)
  pub manifest_hash : Text
  pub ext_descriptor_hash : Text
  pub descendant_manifest_paths : List Text

-- A sort by comparison, as insertion sort: `sort` and `sort_by` are stable, and where two elements
-- compare as equal here they are the same element.
module _ {A : Type 0} ⦃o : Ord A⦄ where
  unfoldable pub insert_sorted : A → List A → List A
  insert_sorted a [] = a ∷ []
  insert_sorted a (b ∷ bs) = elim (o.cmp a b) [ gt ↦ b ∷ insert_sorted a bs | _ ↦ a ∷ b ∷ bs ]

  unfoldable pub sort : List A → List A
  sort [] = []
  sort (a ∷ rest) = insert_sorted a (sort rest)

-- `hasher.update(text); hasher.update(b"\0")`
unfoldable pub field_bytes : Text → Text
field_bytes t = t ++ 0 ∷ []

unfoldable pub fields_bytes : List Text → Text
unfolding field_bytes
fields_bytes [] = []
fields_bytes (t ∷ ts) = field_bytes t ++ fields_bytes ts

unfoldable pub pairs_bytes : List (Text × Text) → Text
unfolding field_bytes
pairs_bytes [] = []
pairs_bytes ((a, b) ∷ ps) = field_bytes a ++ (field_bytes b ++ pairs_bytes ps)

unfoldable pub scope_bytes : ScopeInput → Text
scope_bytes input =
    pairs_bytes (sort input.files)
    ++ (field_bytes input.manifest_hash
        ++ (field_bytes input.ext_descriptor_hash
            ++ fields_bytes (sort input.descendant_manifest_paths)))

-- `current_hashes.get(c).map(|s| s.as_str()).unwrap_or("")`
abbrev pub hash_or_empty : Option Text → Text
hash_or_empty none = []
hash_or_empty (some h) = h

unfoldable pub current_pairs : List Text → BTreeMap Text Text → BTreeMap Text Text
current_pairs satisfies current_hashes =
    from_list [] (map (λ c. (c, hash_or_empty (get c current_hashes))) satisfies)

module _ (digest : Text → Text) where
  unfoldable pub compute_scope_hash : ScopeInput → Text
  compute_scope_hash input = digest (scope_bytes input)

  unfoldable pub compute_task_snapshot_hash : BTreeMap Text Text → Text
  compute_task_snapshot_hash scope_hashes = digest (pairs_bytes scope_hashes)

  unfoldable pub recompute_task_snapshot_hash : List Text → BTreeMap Text Text → Text
  recompute_task_snapshot_hash satisfies current_hashes =
      digest (pairs_bytes (current_pairs satisfies current_hashes))
