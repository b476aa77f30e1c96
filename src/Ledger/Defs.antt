-- ===== src/Ledger/Defs.antt =====
-- The ledger, its operations, and the text that `save` writes.
use musts.Base.{
  ℕ, zero, suc, ◌+◌, ◌/◌, ◌%◌, Bool, not, ◌||◌, ◌&&◌, List, [], ◌∷◌, ◌++◌, if◌then◌else◌,
}
use musts.Base.Order.{◌==◌, nat_ord, pair_ord, list_ord}
use musts.Base.Text.{Text, text, replace, starts_with, lines, is_utf8}
use musts.Base.Map.{BTreeSet, contains_key, add, keys}
use musts.Base.Lists.{any}

-- `struct SatisfiedEntry`: the check and its scope hash, ordered in that order.
abbrev pub SatisfiedEntry : Type 0
SatisfiedEntry = Text × Text

abbrev pub entry : Text → Text → SatisfiedEntry
entry check scope_hash = (check, scope_hash)

pub record LedgerLock : Type 0 where
  pub version : ℕ
  pub satisfied : BTreeSet SatisfiedEntry

abbrev pub supported_version : ℕ
supported_version = 1

-- `LedgerLock::default`
abbrev pub default : LedgerLock
default = record { version = supported_version; satisfied = [] }

-- `LedgerLock::contains`: a linear scan
unfoldable pub contains : LedgerLock → Text → Text → Bool
unfolding any
contains lock check scope_hash =
    any (λ (e : SatisfiedEntry). (e.0 == check) && (e.1 == scope_hash)) (keys lock.satisfied)

-- `LedgerLock::record`: the new ledger, and whether the entry was new
unfoldable pub record_entry : LedgerLock → Text → Text → LedgerLock × Bool
record_entry lock check scope_hash = (
  record lock { satisfied = add (entry check scope_hash) lock.satisfied },
  not (contains_key (entry check scope_hash) lock.satisfied),
)

-- `{}` of a `u32`
unfoldable pub decimal_from : ℕ → ℕ → Text
decimal_from zero n = []
decimal_from (suc fuel) n =
    let more = decimal_from fuel (n / 10) in
    if n / 10 == 0 then (48 + n % 10) ∷ [] else more ++ (48 + n % 10) ∷ []

unfoldable pub decimal : ℕ → Text
unfolding decimal_from
decimal n = decimal_from (suc n) n

-- The five replacements, one after the other.
unfoldable pub yaml_quote : Text → Text
unfolding replace text
yaml_quote value =
    34
      ∷ replace 9 (text "\\t") (
          replace 13 (text "\\r")
            (replace 10 (text "\\n") (replace 34 (text "\\\"") (replace 92 (text "\\\\") value))))
    ++ 34 ∷ []

unfoldable pub entry_line : SatisfiedEntry → Text
unfolding text
entry_line e =
    text "- {check: " ++ yaml_quote e.0 ++ text ", scope_hash: " ++ yaml_quote e.1 ++ text "}"

-- The second line of the file, by whether there are entries.
unfoldable pub satisfied_line : BTreeSet SatisfiedEntry → Text
unfolding text
satisfied_line [] = text "satisfied: []"
satisfied_line (_ ∷ _) = text "satisfied:"

unfoldable pub entry_lines : List SatisfiedEntry → Text
entry_lines [] = []
entry_lines (e ∷ es) = entry_line e ++ 10 ∷ entry_lines es

-- The body that `save` writes.
unfoldable pub save_body : LedgerLock → Text
unfolding text
save_body lock =
    (text "version: " ++ decimal lock.version)
    ++ 10 ∷ (satisfied_line lock.satisfied ++ 10 ∷ entry_lines (keys lock.satisfied))

unfoldable pub is_marker : Text → Bool
unfolding starts_with text
is_marker l =
    starts_with (text "<<<<<<< ") l || starts_with (text ">>>>>>> ") l || l == text "======="

unfoldable pub has_conflict_markers : Text → Bool
has_conflict_markers bytes = is_utf8 bytes && any is_marker (lines bytes)
