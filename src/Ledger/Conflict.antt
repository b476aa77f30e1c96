-- ===== src/Ledger/Conflict.antt =====
-- `has_conflict_markers` on what `save` writes.
use musts.Base.{◌≡◌, refl, false, List, [], ◌∷◌, ◌++◌, map, arith}
use musts.Base.Order.{list_ord}
use musts.Base.Text.{Text, text}
use musts.Base.Lists.{any}
use musts.Base.Map.{BTreeSet, keys}
use musts.Ledger.Defs.{
  SatisfiedEntry, LedgerLock, decimal, entry_line, satisfied_line, save_body, is_marker,
  has_conflict_markers,
}
use musts.Ledger.Reader.RoundTrip.{lines-save_body}

entry_line-not_marker : (e : SatisfiedEntry) → is_marker (entry_line e) ≡ false
unfolding is_marker entry_line list_ord
entry_line-not_marker e = refl

entries-not_markers : (es : List SatisfiedEntry) → any is_marker (map entry_line es) ≡ false
unfolding any
entries-not_markers [] = refl
entries-not_markers (e ∷ es) = rw (entry_line-not_marker e, entries-not_markers es)

satisfied_line-not_marker : (s : BTreeSet SatisfiedEntry) → is_marker (satisfied_line s) ≡ false
unfolding is_marker satisfied_line list_ord
satisfied_line-not_marker [] = refl
satisfied_line-not_marker (_ ∷ _) = refl

version-not_marker : (d : Text) → is_marker (text "version: " ++ d) ≡ false
unfolding is_marker text list_ord
version-not_marker d = refl

-- No ledger that `save` writes looks like an unresolved merge.
pub has_conflict_markers-save_body :
    (lock : LedgerLock) → has_conflict_markers (save_body lock) ≡ false
unfolding has_conflict_markers any
has_conflict_markers-save_body lock = rw (lines-save_body lock) (
    ground (
      arith,
      version-not_marker (decimal lock.version),
      satisfied_line-not_marker lock.satisfied,
      entries-not_markers (keys lock.satisfied),
    ))
