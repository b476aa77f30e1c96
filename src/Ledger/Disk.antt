-- ===== src/Ledger/Disk.antt =====
-- The directory `.musts/`, and `load`, `save` and `ensure_union_merge_attribute` on it. YAML parsing
-- is `serde_yaml`'s: `from_slice` is a parameter.
pub mod Attributes
pub mod RoundTrip
pub mod Plain
pub mod Parser
use musts.Base.{
  ◌≡◌, Bool, true, false, not, ◌&&◌, ◌||◌, Option, none, some, List, [], ◌∷◌, ◌++◌, map,
  if◌then◌else◌,
}
use musts.Base.Order.{◌==◌, nat_ord}
use musts.Base.Text.{Text, text, starts_with, ends_with_byte, contains_text, lines, trim, is_utf8}
use musts.Base.Lists.{any, is_empty, filter}
use musts.Base.Result.{
  Error, io, ledger_lock, merge_conflict, invalid_yaml, unsupported_version, Result, ok, err,
}
use musts.Ledger.Defs.{LedgerLock, supported_version, default, save_body, has_conflict_markers}

-- What a read of a file finds. `unreadable` is any error other than `NotFound`.
pub data FileState : Type 0 where
  absent unreadable : FileState
  contents : Text → FileState

-- A write that fails is taken to leave the file as it was.
pub record MustsDir : Type 0 where
  pub lock_file : FileState
  pub lock_writable : Bool
  pub gitattributes : FileState
  pub gitattributes_writable : Bool

module _ (from_slice : Text → Option LedgerLock) where
  check_version : LedgerLock → Result LedgerLock
  check_version lock =
      if lock.version == supported_version
      then ok lock
      else err (ledger_lock (unsupported_version lock.version))

  load_bytes : Text → Result LedgerLock
  unfolding check_version
  load_bytes bytes =
      if has_conflict_markers bytes
      then err (ledger_lock merge_conflict)
      else elim (from_slice bytes) [
        | none ↦ err (ledger_lock invalid_yaml)
        | some lock ↦ check_version lock
      ]

  load_file : FileState → Result LedgerLock
  unfolding load_bytes
  load_file absent = ok default
  load_file unreadable = err io
  load_file (contents bytes) = load_bytes bytes

  unfoldable pub load : MustsDir → Result LedgerLock
  unfolding load_file
  load dir = load_file dir.lock_file

unfoldable pub lock_filename : Text
unfolding text
lock_filename = text "ledger.lock.yaml"

-- `GITATTRIBUTES_BODY`; the three numbers are its em dash.
unfoldable pub gitattributes_body : Text
unfolding text
gitattributes_body =
    text "# Managed by musts. The validated-state ledger is an append-only set, so"
    ++ 10 ∷ text "# taking both sides is always the right merge "
    ++ 226 ∷ 128 ∷ 148 ∷ text " a hand resolution would"
    ++ 10 ∷ text "# drop entries that were legitimately proven green on one branch."
    ++ 10 ∷ text "ledger.lock.yaml merge=union"
    ++ 10 ∷ []

unfoldable pub mentions_lock_file : Text → Bool
unfolding lock_filename
mentions_lock_file body =
    any (contains_text lock_filename)
      (filter (λ l. not (is_empty l) && not (starts_with (35 ∷ []) l)) (map trim (lines body)))

write_gitattributes : Text → MustsDir → MustsDir
write_gitattributes body dir =
    if dir.gitattributes_writable then record dir { gitattributes = contents body } else dir

abbrev separator : Text → Text
separator body = if is_empty body || ends_with_byte 10 body then [] else 10 ∷ []

ensure_from : FileState → MustsDir → MustsDir
unfolding write_gitattributes
ensure_from absent dir = write_gitattributes gitattributes_body dir
ensure_from unreadable dir = dir
ensure_from (contents body) dir =
    if not (is_utf8 body)
    then dir
    else if mentions_lock_file body
    then dir
    else write_gitattributes (body ++ separator body ++ gitattributes_body) dir

unfoldable pub ensure_union_merge_attribute : MustsDir → MustsDir
unfolding ensure_from
ensure_union_merge_attribute dir = ensure_from dir.gitattributes dir

-- the new directory, and the result
unfoldable pub save : LedgerLock → MustsDir → Result (Unit {0}) × MustsDir
save lock dir =
    if dir.lock_writable
    then (
      ok tt,
      ensure_union_merge_attribute (record dir { lock_file = contents (save_body lock) }),
    )
    else (err io, dir)
