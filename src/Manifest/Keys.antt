-- ===== src/Manifest/Keys.antt =====
-- The keys of a manifest that musts does not know, and the key that a warning suggests instead.
pub mod Distance
mod Examples
use Prim.Native.Nat.{min, compare, Ordering}
use Prim.Native.Nat.Ordering.{lt, eq, gt}
use musts.Base.{
  ℕ, zero, suc, ◌+◌, ◌-◌, ◌*◌, ◌%◌, Bool, true, false, not, ◌||◌, Option, none, some, List, [], ◌∷◌,
  ◌++◌, map, if◌then◌else◌, ltb, leb,
}
use musts.Base.Order.{or_else, ◌==◌, nat_ord, list_ord}
use musts.Base.Text.{Text, text}
use musts.Manifest.Yaml.{Yaml, Mapping, as_str}
use musts.Base.Lists.{length, filter, contains}

-- `s.chars()`: the code points. `k` continuation bytes are due, and `c` is what was read.
unfoldable pub chars_from : ℕ → ℕ → Text → List ℕ
chars_from k c [] = []
chars_from zero c (b ∷ s) = elim (ltb b 0x80) [
  | true ↦ b ∷ chars_from 0 0 s
  | false ↦ elim (ltb b 0xe0) [
    | true ↦ chars_from 1 (b % 32) s
    | false ↦ elim (ltb b 0xf0) [ true ↦ chars_from 2 (b % 16) s | false ↦ chars_from 3 (b % 8) s ]
  ]
]
chars_from (suc zero) c (b ∷ s) = (c * 64 + b % 64) ∷ chars_from 0 0 s
chars_from (suc (suc k)) c (b ∷ s) = chars_from (suc k) (c * 64 + b % 64) s

unfoldable pub chars : Text → List ℕ
unfolding chars_from
chars s = chars_from 0 0 s

-- `a.chars().zip(b.chars()).take_while(|(x, y)| x == y).count()`
unfoldable pub common_prefix : List ℕ → List ℕ → ℕ
common_prefix [] ys = 0
common_prefix (x ∷ xs) [] = 0
common_prefix (x ∷ xs) (y ∷ ys) = if x == y then suc (common_prefix xs ys) else 0

unfoldable pub common_prefix_len : Text → Text → ℕ
unfolding chars common_prefix
common_prefix_len a b = common_prefix (chars a) (chars b)

-- `usize::from(ac != *bc)`
unfoldable pub differs : ℕ → ℕ → ℕ
differs x y = if x == y then 0 else 1

-- The inner loop, from the cell `left` on: `cur[j]` is `left`, and `prev[j]`, `prev[j + 1]` are the next
-- two cells of the row before.
unfoldable pub fill_row : ℕ → List ℕ → ℕ → List ℕ → List ℕ
unfolding differs
fill_row ac [] left prev = left ∷ []
fill_row ac (bc ∷ bs) left [] = left ∷ []
fill_row ac (bc ∷ bs) left (diagonal ∷ []) = left ∷ []
fill_row ac (bc ∷ bs) left (diagonal ∷ above ∷ prev) =
    left
    ∷ fill_row ac bs (min (min (diagonal + differs ac bc) (above + 1)) (left + 1)) (above ∷ prev)

-- The outer loop over `a`, at index `i`.
unfoldable pub fill_rows : List ℕ → ℕ → List ℕ → List ℕ → List ℕ
unfolding fill_row
fill_rows bs i [] prev = prev
fill_rows bs i (ac ∷ cs) prev = fill_rows bs (i + 1) cs (fill_row ac bs (i + 1) prev)

-- `(0..=n).collect()`, from `i` on
unfoldable pub first_row : ℕ → List ℕ → List ℕ
first_row i [] = i ∷ []
first_row i (b ∷ bs) = i ∷ first_row (i + 1) bs

-- `row[n]`, the last of its `n + 1` cells
unfoldable pub last_cell : List ℕ → ℕ
last_cell [] = 0
last_cell (c ∷ []) = c
last_cell (c ∷ d ∷ cs) = last_cell (d ∷ cs)

unfoldable pub edit_distance_chars : List ℕ → List ℕ → ℕ
unfolding first_row fill_rows last_cell
edit_distance_chars a b = last_cell (fill_rows b 0 a (first_row 0 b))

unfoldable pub edit_distance : Text → Text → ℕ
unfolding chars edit_distance_chars
edit_distance a b = edit_distance_chars (chars a) (chars b)

-- a known key with its rank
pub record Candidate : Type 0 where
  pub prefix : ℕ
  pub distance : ℕ
  pub cand : Text

unfoldable pub candidate : Text → Text → Candidate
unfolding common_prefix_len edit_distance
candidate written cand = record {
  prefix = common_prefix_len written cand;
  distance = edit_distance written cand;
  cand = cand;
}

unfoldable pub is_close : Candidate → Bool
is_close c = leb 3 c.prefix || leb c.distance 2

-- `a.0.cmp(&b.0).then_with(|| b.1.cmp(&a.1))`
unfoldable pub rank : Candidate → Candidate → Ordering
rank a b = or_else (compare a.prefix b.prefix) (compare b.distance a.distance)

-- `iter.max_by(rank)`, from the first candidate on: the last of the greatest
unfoldable pub max_by : Candidate → List Candidate → Candidate
unfolding rank
max_by best [] = best
max_by best (c ∷ cs) = max_by (elim (rank best c) [ gt ↦ best | _ ↦ c ]) cs

unfoldable pub best_of : List Candidate → Option Text
unfolding max_by
best_of [] = none
best_of (c ∷ cs) = some (max_by c cs).cand

unfoldable pub nearest_key : Text → List Text → Option Text
unfolding candidate is_close best_of
nearest_key written known = best_of (filter is_close (map (candidate written) known))

pub record ManifestWarning : Type 0 where
  pub check_local_id : Option Text
  pub key : Text
  pub suggestion : Option Text

-- `mapping.keys().filter_map(Value::as_str)`
unfoldable pub string_keys : Mapping → List Text
unfolding as_str
string_keys Mapping.end = []
string_keys (Mapping.entry k v m) = elim (as_str k) [
  | none ↦ string_keys m
  | some s ↦ s ∷ string_keys m
]

unfoldable pub unknown_keys : Mapping → List Text → Option Text → List ManifestWarning
unfolding string_keys nearest_key contains filter
unknown_keys mapping known check_local_id =
    map (λ k. record { check_local_id = check_local_id; key = k; suggestion = nearest_key k known })
      (filter (λ k. not (contains k known)) (string_keys mapping))

-- `KNOWN_CHECK_KEYS`
abbrev pub known_check_keys : List Text
known_check_keys = text "uses" ∷ text "with" ∷ text "paths" ∷ text "exclude_paths" ∷ []

-- `KNOWN_TOP_KEYS`
abbrev pub known_top_keys : List Text
known_top_keys = text "version" ∷ text "checks" ∷ []
