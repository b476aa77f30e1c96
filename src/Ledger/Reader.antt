-- ===== src/Ledger/Reader.antt =====
-- A reader of the ledger's text, line by line, as an independent description of the format: what a
-- YAML parser makes of the lines that `save` writes. The round trip and the union merge are proved
-- against it.
pub mod RoundTrip
pub mod Union
use mathlib.Core.List.{append_assoc}
use mathlib.Core.Option
use musts.Base.{
  ℕ, zero, suc, ◌+◌, ◌*◌, ◌-◌, ◌≡◌, refl, ◌∙◌, ap, Bool, true, false, ◌&&◌, Option, none, some,
  List, [], ◌∷◌, ◌++◌, map, arith, if◌then◌else◌, leb,
}
use musts.Base.Order.{◌==◌, ==_self, nat_ord, pair_ord, list_ord}
use musts.Base.Text.{Text, text, strip_prefix, lines, lines-line, IsLine, IsLine-append}
use musts.Base.Map.{BTreeSet, keys, add, add_all, add_all-keys, IsSorted}
use musts.Base.Lists.{is_empty}
use musts.Ledger.Defs.{
  SatisfiedEntry, LedgerLock, supported_version, yaml_quote, entry_line, entry_lines, save_body,
}
use musts.Ledger.Quote.{
  escape, escape-IsLine, read_quoted, read_quoted-escape, yaml_quote-eq-escape,
}

infixl 5 ◌>>=◌
abbrev pub ◌>>=◌ : {A B : Type 0} → Option A → (A → Option B) → Option B
none >>= f = none
some a >>= f = f a

-- `- {check: "…", scope_hash: "…"}`
unfoldable pub read_entry : Text → Option SatisfiedEntry
unfolding strip_prefix text
read_entry l = do
  from_check ← strip_prefix (text "- {check: \"") l
  (check, after_check) ← read_quoted false from_check
  from_hash ← strip_prefix (text ", scope_hash: \"") after_check
  (scope_hash, after_hash) ← read_quoted false from_hash
  if after_hash == text "}" then some (check, scope_hash) else none

unfoldable pub read_entries : List Text → BTreeSet SatisfiedEntry → Option (BTreeSet SatisfiedEntry)
unfolding read_entry
read_entries [] s = some s
read_entries (l ∷ ls) s = read_entry l >>= λ e. read_entries ls (add e s)

unfoldable pub read_digits : ℕ → Text → Option ℕ
read_digits n [] = some n
read_digits n (c ∷ s) =
    let more = read_digits (n * 10 + (c - 48)) s in if leb 48 c && leb c 57 then more else none

unfoldable pub read_body : ℕ → Text → List Text → Option LedgerLock
unfolding read_entries text
read_body version l ls =
    if l == text "satisfied: []"
    then (if is_empty ls then some (record { version = version; satisfied = [] }) else none)
    else if l == text "satisfied:"
    then (if is_empty ls
        then none
        else Option.map (λ s. record { version = version; satisfied = s }) (read_entries ls []))
    else none

unfoldable pub read_lines : List Text → Option LedgerLock
unfolding read_body read_digits strip_prefix text
read_lines [] = none
read_lines (v ∷ []) = none
read_lines (v ∷ l ∷ ls) = do
  digits ← strip_prefix (text "version: ") v
  version ← read_digits 0 digits
  read_body version l ls

unfoldable pub read_lock : Text → Option LedgerLock
unfolding read_lines lines
read_lock body = read_lines (lines body)

pub entry_line-flat :
    (e : SatisfiedEntry)
    → entry_line e
      ≡ text "- {check: \""
        ++ (escape e.0 ++ 34 ∷ (text ", scope_hash: \"" ++ (escape e.1 ++ 34 ∷ text "}")))
unfolding entry_line
entry_line-flat e = rw (yaml_quote-eq-escape e.0, yaml_quote-eq-escape e.1) (simp append_assoc)

-- An entry's line reads back as the entry.
pub read_entry-entry_line : (e : SatisfiedEntry) → read_entry (entry_line e) ≡ some e
read_entry-entry_line e =
    rw (entry_line-flat e) (unfold read_entry in simp (read_quoted-escape, ==_self))
