-- ===== src/Ledger/Reader/RoundTrip.antt =====
-- What `save` writes reads back.
use mathlib.Core.Option
use musts.Base.{
  false, ℕ, zero, suc, ◌+◌, ◌*◌, ◌/◌, ◌%◌, ◌-◌, ◌<◌, ◌≡◌, refl, ◌∙◌, ap, some, List, [], ◌∷◌, ◌++◌,
  map, arith, Bool-cases, inl, inr,
}
use musts.Base.Order.{◌==◌, nat_ord, pair_ord, list_ord}
use musts.Base.Text.{Text, text, lines, lines-line, IsLine, IsLine-append}
use musts.Base.Map.{BTreeSet, keys, add, add_all, add_all-keys, IsSorted}
use musts.Base.Lists.{is_empty}
use musts.Ledger.Defs.{
  SatisfiedEntry, LedgerLock, decimal, decimal_from, entry_line, entry_lines, satisfied_line,
  save_body,
}
use musts.Ledger.Quote.{escape, escape-IsLine}
use musts.Ledger.Reader.{
  read_entry-entry_line, entry_line-flat, read_entries, read_digits, read_lock, read_lines,
}

read_digits-snoc :
    (a d : ℕ) (s : Text)
    → d < 10
    → read_digits a (s ++ (48 + d) ∷ []) ≡ Option.map (λ m. m * 10 + d) (read_digits a s)
unfolding read_digits
read_digits-snoc a d [] h = ground arith
read_digits-snoc a d (c ∷ s) h = ground (arith, read_digits-snoc (a * 10 + (c - 48)) d s h)

read_digits-decimal_from : (fuel n : ℕ) → n < fuel → read_digits 0 (decimal_from fuel n) ≡ some n
unfolding decimal_from read_digits
read_digits-decimal_from zero n h = absurd (omega arith)
read_digits-decimal_from (suc f) n h = ground (
  arith,
  read_digits-decimal_from f (n / 10),
  read_digits-snoc 0 (n % 10) (decimal_from f (n / 10)),
)

decimal_from-IsLine : (fuel n : ℕ) → IsLine (decimal_from fuel n)
unfolding decimal_from
decimal_from-IsLine zero n = tt
decimal_from-IsLine (suc f) n = elim (Bool-cases (n / 10 == 0)) [
  | inl e ↦ rw e (ground arith)
  | inr e ↦
      rw e
        (IsLine-append (decimal_from f (n / 10)) _ (decimal_from-IsLine f (n / 10)) (ground arith))
]

entry_line-IsLine : (e : SatisfiedEntry) → IsLine (entry_line e)
unfolding text
entry_line-IsLine e =
    let tail = IsLine-append (escape e.1) (34 ∷ text "}") (escape-IsLine e.1) (ground arith) in
    let middle =
      IsLine-append (34 ∷ text ", scope_hash: \"") (escape e.1 ++ 34 ∷ text "}") (ground arith)
        tail in
    let rest = IsLine-append (escape e.0) _ (escape-IsLine e.0) middle in
    rw (entry_line-flat e) (IsLine-append (text "- {check: \"") _ (ground arith) rest)

lines-entry_lines : (es : List SatisfiedEntry) → lines (entry_lines es) ≡ map entry_line es
unfolding entry_lines lines
lines-entry_lines [] = refl
lines-entry_lines (e ∷ es) =
    lines-line (entry_line e) (entry_lines es) (entry_line-IsLine e)
    ∙ ap (λ ls. entry_line e ∷ ls) (lines-entry_lines es)

pub read_entries-map :
    (es : List SatisfiedEntry) (s : BTreeSet SatisfiedEntry)
    → read_entries (map entry_line es) s ≡ some (add_all es s)
unfolding read_entries add_all
read_entries-map [] s = refl
read_entries-map (e ∷ es) s = rw read_entry-entry_line (read_entries-map es (add e s))

version-IsLine : (v : ℕ) → IsLine (text "version: " ++ decimal v)
unfolding decimal text
version-IsLine v =
    IsLine-append (text "version: ") (decimal v) (ground arith) (decimal_from-IsLine (suc v) v)

satisfied_line-IsLine : (s : BTreeSet SatisfiedEntry) → IsLine (satisfied_line s)
unfolding satisfied_line text
satisfied_line-IsLine [] = ground arith
satisfied_line-IsLine (_ ∷ _) = ground arith

-- The file that `save` writes has two lines of head, and exactly one line for each entry, in the
-- order of the set, whatever bytes the check ids and the hashes hold.
pub lines-save_body :
    (lock : LedgerLock)
    → lines (save_body lock)
      ≡ (text "version: " ++ decimal lock.version)
        ∷ satisfied_line lock.satisfied
        ∷ map entry_line (keys lock.satisfied)
unfolding save_body
lines-save_body lock =
    lines-line (text "version: " ++ decimal lock.version) _ (version-IsLine lock.version)
    ∙ ap (λ ls. (text "version: " ++ decimal lock.version) ∷ ls)
        (lines-line (satisfied_line lock.satisfied) _ (satisfied_line-IsLine lock.satisfied)
          ∙ ap (λ ls. satisfied_line lock.satisfied ∷ ls) (lines-entry_lines (keys lock.satisfied)))

pub read_lines-entries :
    (v : ℕ) (l : Text) (ls : List Text) (s : BTreeSet SatisfiedEntry)
    → l ≡ text "satisfied:"
    → is_empty ls ≡ false
    → read_entries ls [] ≡ some s
    → read_lines ((text "version: " ++ decimal v) ∷ l ∷ ls)
      ≡ some (record { version = v; satisfied = s })
unfolding read_lines decimal list_ord
read_lines-entries v l ls s e full h =
    rw (e, read_digits-decimal_from (suc v) v (omega arith), full, h)

read_lines-save :
    (v : ℕ) (s : BTreeSet SatisfiedEntry)
    → IsSorted s
    → read_lines ((text "version: " ++ decimal v) ∷ satisfied_line s ∷ map entry_line (keys s))
      ≡ some (record { version = v; satisfied = s })
unfolding satisfied_line read_lines decimal list_ord
read_lines-save v [] h = rw (read_digits-decimal_from (suc v) v (omega arith))
read_lines-save v (e ∷ s) h =
    read_lines-entries v (text "satisfied:") (map entry_line (keys (e ∷ s))) (e ∷ s) refl refl
      (read_entries-map (keys (e ∷ s)) [] ∙ ap some (add_all-keys (e ∷ s) h))

-- A saved ledger whose entries are in order reads back as itself.
pub read_lock-save_body :
    (lock : LedgerLock) → IsSorted lock.satisfied → read_lock (save_body lock) ≡ some lock
unfolding read_lock
read_lock-save_body lock h =
    rw (lines-save_body lock) (read_lines-save lock.version lock.satisfied h)
