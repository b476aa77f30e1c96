-- ===== src/Ledger/Examples.antt =====
-- Runs of the ledger's code on small inputs, and the theorems at inputs that meet their hypotheses.
use musts.Base.{◌≡◌, refl, true, false, ◌||◌, some, [], ◌∷◌, ◌++◌, arith}
use musts.Base.Order.{nat_ord, pair_ord, list_ord}
use musts.Base.Text.{Text, text, lines}
use musts.Base.Lists
use musts.Base.Lists.{any}
use musts.Base.Map.{keys, IsSorted, add_all, insert}
use musts.Base.Result.{ok}
use musts.Ledger.Defs.{
  SatisfiedEntry, entry, LedgerLock, decimal, yaml_quote, entry_line, entry_lines, satisfied_line,
  save_body, has_conflict_markers,
}
use musts.Ledger.Quote.{read_quoted}
use musts.Ledger.Reader.{read_lock, read_lines}
use musts.Ledger.Reader.RoundTrip.{lines-save_body}
use musts.Ledger.Reader.Union.{head_lines, lines_of_entries, read_lock-union}
use musts.Ledger.Disk.Plain.{AllStorable}
use musts.Ledger.Conflict.{has_conflict_markers-save_body}
use musts.Ledger.Disk.{MustsDir, absent, contents, load, save, ensure_union_merge_attribute}
use musts.Ledger.Disk.Parser.{read_lock-IsLedgerParser}
use musts.Ledger.Disk.RoundTrip.{load-save}
use musts.Ledger.Disk.Attributes.{ensure_idem}

abbrev fmt_entry : SatisfiedEntry
fmt_entry = entry (98 ∷ 34 ∷ []) (49 ∷ [])

abbrev clippy_entry : SatisfiedEntry
clippy_entry = entry (97 ∷ 10 ∷ []) (50 ∷ [])

-- two entries: the first check id holds a line feed, the second a quote
abbrev two : LedgerLock
two = record { version = 1; satisfied = (clippy_entry, tt) ∷ (fmt_entry, tt) ∷ [] }

abbrev one : LedgerLock
one = record { version = 1; satisfied = (fmt_entry, tt) ∷ [] }

abbrev fresh : MustsDir
fresh = record {
  lock_file = absent;
  lock_writable = true;
  gitattributes = contents (35 ∷ 120 ∷ []);
  gitattributes_writable = true;
}

two-IsSorted : IsSorted two.satisfied
unfolding pair_ord list_ord
two-IsSorted = ((refl, tt), (tt, tt))

one-IsSorted : IsSorted one.satisfied
one-IsSorted = (tt, tt)

saved_text :
    save_body one
    ≡ text "version: 1"
      ++ 10 ∷ text "satisfied:"
      ++ 10 ∷ text "- {check: \"b\\\"\", scope_hash: \"1\"}"
      ++ 10 ∷ []
unfolding save_body text decimal satisfied_line entry_lines entry_line yaml_quote
saved_text = refl

saved_reads : read_lock (save_body two) ≡ some two
unfolding read_lock save_body text decimal satisfied_line entry_lines entry_line yaml_quote pair_ord
    list_ord insert lines read_lines read_quoted
saved_reads = refl

two-AllStorable : AllStorable two
two-AllStorable = ground arith

load-save_example : ((save two fresh).0 ≡ ok tt) × (load read_lock (save two fresh).1 ≡ ok two)
load-save_example =
    load-save read_lock two fresh read_lock-IsLedgerParser two-IsSorted two-AllStorable refl refl

-- the file of the two entries, with the line of the other file's entry once more
merged_text :
    lines (save_body two ++ (entry_line fmt_entry ++ 10 ∷ []))
    ≡ head_lines (lines (save_body two))
      ++ (entry_line clippy_entry ∷ entry_line fmt_entry ∷ entry_line fmt_entry ∷ [])
unfolding save_body text decimal satisfied_line entry_lines entry_line yaml_quote lines
merged_text = refl

merged_lines :
    (l : Text)
    → Lists.contains l (entry_line clippy_entry ∷ entry_line fmt_entry ∷ entry_line fmt_entry ∷ [])
      ≡ (Lists.contains l (lines_of_entries (lines (save_body two)))
          || Lists.contains l (lines_of_entries (lines (save_body one))))
unfolding Lists.contains
merged_lines l = rw (lines-save_body two, lines-save_body one) (ground arith)

read_lock-union_example :
    read_lock (save_body two ++ (entry_line fmt_entry ++ 10 ∷ []))
    ≡ some (record two { satisfied = add_all (keys one.satisfied) two.satisfied })
read_lock-union_example =
    read_lock-union two one (save_body two ++ (entry_line fmt_entry ++ 10 ∷ []))
      (entry_line clippy_entry ∷ entry_line fmt_entry ∷ entry_line fmt_entry ∷ []) two-IsSorted refl
      merged_text merged_lines

has_conflict_markers-save_body_example : has_conflict_markers (save_body two) ≡ false
has_conflict_markers-save_body_example = has_conflict_markers-save_body two

ensure_idem_example :
    ensure_union_merge_attribute (ensure_union_merge_attribute fresh)
    ≡ ensure_union_merge_attribute fresh
ensure_idem_example = ensure_idem fresh
