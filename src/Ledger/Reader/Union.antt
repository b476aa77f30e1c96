-- ===== src/Ledger/Reader/Union.antt =====
-- The line merge that `merge=union` makes of two ledger files.
use musts.Base.{
  ◌≡◌, refl, sym, ◌∙◌, ap, true, false, ◌||◌, some, List, [], ◌∷◌, ◌++◌, map, arith, Bool-cases,
  inl, inr,
}
use musts.Base.Order.{◌==◌, ==_iff, ==_self, nat_ord, pair_ord, list_ord}
use musts.Base.Text.{Text, text, lines}
use musts.Base.Lists.{All, contains, is_empty}
use musts.Base.Map.{
  BTreeSet, keys, add_all, IsSorted, contains_key, get, map_ext, add_all-IsSorted, get-add_all,
  mem-keys,
}
use musts.Ledger.Defs.{SatisfiedEntry, LedgerLock, decimal, entry_line, satisfied_line, save_body}
use musts.Ledger.Reader.{read_entry, read_entry-entry_line, read_lock, read_lines}
use musts.Ledger.Reader.RoundTrip.{lines-save_body, read_entries-map, read_lines-entries}

-- the two lines before the entries, and the lines of the entries
abbrev pub head_lines : List Text → List Text
head_lines [] = []
head_lines (v ∷ []) = v ∷ []
head_lines (v ∷ l ∷ ls) = v ∷ l ∷ []

abbrev pub lines_of_entries : List Text → List Text
lines_of_entries [] = []
lines_of_entries (v ∷ []) = []
lines_of_entries (v ∷ l ∷ ls) = ls

-- Different entries have different lines.
entry_line_injective : (e x : SatisfiedEntry) → entry_line e ≡ entry_line x → e ≡ x
entry_line_injective e x h =
    let same : some e ≡ some x =
      sym (read_entry-entry_line e) ∙ ap read_entry h ∙ read_entry-entry_line x in
    cc

contains-entry_line :
    (e : SatisfiedEntry) (es : List SatisfiedEntry)
    → contains (entry_line e) (map entry_line es) ≡ contains e es
unfolding contains
contains-entry_line e [] = refl
contains-entry_line e (x ∷ es) = elim (Bool-cases (e == x)) [
  | inl same ↦
      ground (
        arith,
        same,
        (==_iff (entry_line e) (entry_line x)).1 (ap entry_line ((==_iff e x).0 same)),
      )
  | inr other ↦ elim (Bool-cases (entry_line e == entry_line x)) [
    | inr apart ↦ ground (arith, other, apart, contains-entry_line e es)
    | inl same ↦
        let eq = entry_line_injective e x ((==_iff (entry_line e) (entry_line x)).0 same) in
        absurd (ground (arith, other, (==_iff e x).1 eq))
  ]
]

abbrev IsEntryLine : Text → Type 0
IsEntryLine l = (e : SatisfiedEntry) × (l ≡ entry_line e)

contains-IsEntryLine :
    (l : Text) (es : List SatisfiedEntry) → contains l (map entry_line es) ≡ true → IsEntryLine l
unfolding contains
contains-IsEntryLine l [] h = cc
contains-IsEntryLine l (e ∷ es) h = elim (Bool-cases (l == entry_line e)) [
  | inl same ↦ (e, (==_iff l (entry_line e)).0 same)
  | inr other ↦ contains-IsEntryLine l es (ground (arith, other, h))
]

All-contains :
    (P : Text → Type 0) (ls : List Text) → ((l : Text) → contains l ls ≡ true → P l) → All P ls
unfolding contains
All-contains P [] h = tt
All-contains P (l ∷ ls) h =
    (h l (ground (arith, ==_self l)), All-contains P ls (λ x m. h x (ground (arith, m))))

-- the entries of the lines
entries_of :
    (ls : List Text) → All IsEntryLine ls → (es : List SatisfiedEntry) × (ls ≡ map entry_line es)
entries_of [] h = ([], refl)
entries_of (l ∷ ls) h = let (e, here) = h.0 in let (es, rest) = entries_of ls h.1 in (e ∷ es, cc)

read_lines-union :
    (a b : LedgerLock) (es : List SatisfiedEntry)
    → IsSorted a.satisfied
    → is_empty (map entry_line es) ≡ false
    → ((e : SatisfiedEntry)
        → contains e es ≡ (contains_key e a.satisfied || contains_key e b.satisfied))
    → read_lines ((text "version: " ++ decimal a.version) ∷ text "satisfied:" ∷ map entry_line es)
      ≡ some (record a { satisfied = add_all (keys b.satisfied) a.satisfied })
unfolding get
read_lines-union a b es h full both =
    read_lines-entries a.version (text "satisfied:") (map entry_line es) _ refl full (
      read_entries-map es []
      ∙ ap some (
          map_ext _ _ (add_all-IsSorted es [] tt)
            (add_all-IsSorted (keys b.satisfied) a.satisfied h) λ e. same e))
  where
    same :
        (e : SatisfiedEntry)
        → get e (add_all es []) ≡ get e (add_all (keys b.satisfied) a.satisfied)
    same e =
        rw (get-add_all e es, get-add_all e (keys b.satisfied), both e, mem-keys) (ground arith)

-- the lines of `save` are entries, in both directions
merged_entries :
    (a b : LedgerLock) (ls : List Text)
    → ((l : Text)
        → contains l ls ≡ (
            contains l (map entry_line (keys a.satisfied))
            || contains l (map entry_line (keys b.satisfied))))
    → (es : List SatisfiedEntry) × (ls ≡ map entry_line es)
      × ((e : SatisfiedEntry)
          → contains e es ≡ (contains_key e a.satisfied || contains_key e b.satisfied))
merged_entries a b ls both =
    let (es, eq) = entries_of ls (All-contains IsEntryLine ls λ l m. one_of l m) in
    (es, eq, λ e. same es eq e)
  where
    one_of : (l : Text) → contains l ls ≡ true → IsEntryLine l
    one_of l m = elim (Bool-cases (contains l (map entry_line (keys a.satisfied)))) [
      | inl here ↦ contains-IsEntryLine l (keys a.satisfied) here
      | inr other ↦ contains-IsEntryLine l (keys b.satisfied) (ground (arith, other, m, both l))
    ]

    same :
        (es : List SatisfiedEntry)
        → ls ≡ map entry_line es
        → (e : SatisfiedEntry)
        → contains e es ≡ (contains_key e a.satisfied || contains_key e b.satisfied)
    same es eq e =
        sym (contains-entry_line e es)
        ∙ sym (ap (contains (entry_line e)) eq)
        ∙ both (entry_line e)
        ∙ (rw
            (
              contains-entry_line e (keys a.satisfied),
              contains-entry_line e (keys b.satisfied),
              mem-keys e a.satisfied,
              mem-keys e b.satisfied,
            )
            refl)

heads :
    (v : Text) (s : BTreeSet SatisfiedEntry) (ls : List Text)
    → is_empty s ≡ false
    → Path (List Text) (v ∷ satisfied_line s ∷ ls) (v ∷ text "satisfied:" ∷ ls)
unfolding satisfied_line
heads v [] ls h = cc
heads v (_ ∷ _) ls h = refl

nonempty_lines :
    (s : BTreeSet SatisfiedEntry) (es : List SatisfiedEntry)
    → is_empty s ≡ false
    → ((e : SatisfiedEntry) → contains e (keys s) ≡ true → contains e es ≡ true)
    → is_empty (map entry_line es) ≡ false
unfolding contains
nonempty_lines [] es h k = cc
nonempty_lines ((e, _) ∷ s) [] h k = absurd (ground (arith, k e, ==_self e))
nonempty_lines (x ∷ s) (e ∷ es) h k = refl

-- the merge as two lines of head and lines of entries
read_lock-merged :
    (a b : LedgerLock) (body : Text) (es : List SatisfiedEntry)
    → IsSorted a.satisfied
    → is_empty a.satisfied ≡ false
    → lines body ≡ head_lines (lines (save_body a)) ++ map entry_line es
    → ((e : SatisfiedEntry)
        → contains e es ≡ (contains_key e a.satisfied || contains_key e b.satisfied))
    → read_lock body ≡ some (record a { satisfied = add_all (keys b.satisfied) a.satisfied })
unfolding read_lock
read_lock-merged a b body es sorted some_entry merged both =
    ap read_lines (
      merged
      ∙ ap (λ ls. head_lines ls ++ map entry_line es) (lines-save_body a)
      ∙ heads (text "version: " ++ decimal a.version) a.satisfied (map entry_line es) some_entry)
    ∙ read_lines-union a b es sorted
        (nonempty_lines a.satisfied es some_entry
          (λ e m. ground (arith, both e, m, mem-keys e a.satisfied)))
        both

-- A file that a line merge makes of two saved ledgers, the first of which has an entry: its head is
-- the head of the first file, and below it stand, in any order and as often as it likes, the lines
-- of entries that the two files hold, and no others. The line reader reads the ledger that holds
-- the entries of both, whatever bytes their check ids and hashes hold.
pub read_lock-union :
    (a b : LedgerLock) (body : Text) (ls : List Text)
    → IsSorted a.satisfied
    → is_empty a.satisfied ≡ false
    → lines body ≡ head_lines (lines (save_body a)) ++ ls
    → ((l : Text)
        → contains l ls ≡ (
            contains l (lines_of_entries (lines (save_body a)))
            || contains l (lines_of_entries (lines (save_body b)))))
    → read_lock body ≡ some (record a { satisfied = add_all (keys b.satisfied) a.satisfied })
read_lock-union a b body ls sorted some_entry merged both =
    let (es, eq, same) = merged_entries a b ls λ l.
      both l
      ∙ ap
          (λ xs.
            contains l (lines_of_entries xs) || contains l (lines_of_entries (lines (save_body b))))
          (lines-save_body a)
      ∙ ap
          (λ xs. contains l (map entry_line (keys a.satisfied)) || contains l (lines_of_entries xs))
          (lines-save_body b) in
    read_lock-merged a b body es sorted some_entry
      (merged ∙ ap (λ xs. head_lines (lines (save_body a)) ++ xs) eq) same
