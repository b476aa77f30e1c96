-- ===== src/Ledger/Disk/Plain.antt =====
-- The texts of printable ASCII that YAML reads as they stand, and the ledgers that `save` writes as
-- such texts.
use musts.Base.{ℕ, ◌≡◌, refl, subst, sym, true, ◌&&◌, ◌||◌, List, [], ◌∷◌, ◌++◌, arith, leb, Bool}
use musts.Base.Order.{◌==◌, nat_ord}
use musts.Base.Text.{Text, text}
use musts.Base.Lists.{All, All-append}
use musts.Base.Map.{BTreeSet, keys}
use musts.Ledger.Defs.{
  SatisfiedEntry, LedgerLock, supported_version, decimal, entry_line, entry_lines, satisfied_line,
  save_body,
}
use musts.Ledger.Quote.{escape, escape_byte}
use musts.Ledger.Reader.{entry_line-flat}

abbrev printable : ℕ → Bool
printable c = leb 32 c && leb c 126

-- printable ASCII and line feeds
abbrev pub IsPlain : Text → Type 0
IsPlain = All (λ c. (printable c || c == 10) ≡ true)

-- printable ASCII, and the three control characters that `yaml_quote` escapes
abbrev pub IsStorable : Text → Type 0
IsStorable = All (λ c. (printable c || c == 9 || c == 10 || c == 13) ≡ true)

-- every check id and every hash of the ledger is storable
abbrev pub AllStorable : LedgerLock → Type 0
AllStorable lock =
    All (λ (e : SatisfiedEntry). IsStorable e.0 × IsStorable e.1) (keys lock.satisfied)

IsPlain-append : (s t : Text) → IsPlain s → IsPlain t → IsPlain (s ++ t)
IsPlain-append = All-append (λ c. (printable c || c == 10) ≡ true)

escape_byte-IsPlain :
    (c : ℕ) → (printable c || c == 9 || c == 10 || c == 13) ≡ true → IsPlain (escape_byte c)
unfolding escape_byte text
escape_byte-IsPlain c h = ground arith

escape-IsPlain : (s : Text) → IsStorable s → IsPlain (escape s)
unfolding escape
escape-IsPlain [] h = tt
escape-IsPlain (c ∷ s) h =
    IsPlain-append (escape_byte c) (escape s) (escape_byte-IsPlain c h.0) (escape-IsPlain s h.1)

entry_line-IsPlain : (e : SatisfiedEntry) → IsStorable e.0 × IsStorable e.1 → IsPlain (entry_line e)
unfolding text
entry_line-IsPlain e h =
    let tail =
      IsPlain-append (escape e.1) (34 ∷ text "}") (escape-IsPlain e.1 h.1) (ground arith) in
    let middle =
      IsPlain-append (34 ∷ text ", scope_hash: \"") (escape e.1 ++ 34 ∷ text "}") (ground arith)
        tail in
    let rest = IsPlain-append (escape e.0) _ (escape-IsPlain e.0 h.0) middle in
    rw (entry_line-flat e) (IsPlain-append (text "- {check: \"") _ (ground arith) rest)

entry_lines-IsPlain :
    (es : List SatisfiedEntry)
    → All (λ (e : SatisfiedEntry). IsStorable e.0 × IsStorable e.1) es
    → IsPlain (entry_lines es)
unfolding entry_lines
entry_lines-IsPlain [] h = tt
entry_lines-IsPlain (e ∷ es) h =
    IsPlain-append (entry_line e) (10 ∷ entry_lines es) (entry_line-IsPlain e h.0)
      (refl, entry_lines-IsPlain es h.1)

satisfied_line-IsPlain : (s : BTreeSet SatisfiedEntry) → IsPlain (satisfied_line s)
unfolding satisfied_line text
satisfied_line-IsPlain [] = ground arith
satisfied_line-IsPlain (_ ∷ _) = ground arith

pub version_line :
    (v : ℕ) → v ≡ supported_version → text "version: " ++ decimal v ≡ text "version: 1"
unfolding text decimal
version_line v h = rw h refl

one-IsPlain : IsPlain (text "version: 1")
unfolding text
one-IsPlain = ground arith

-- The file of a ledger of the supported version whose ids and hashes are storable is plain.
pub save_body-IsPlain :
    (lock : LedgerLock)
    → lock.version ≡ supported_version
    → AllStorable lock
    → IsPlain (save_body lock)
unfolding save_body
save_body-IsPlain lock v h =
    IsPlain-append (text "version: " ++ decimal lock.version) _
      (subst IsPlain (sym (version_line lock.version v)) one-IsPlain)
      (
        refl,
        IsPlain-append (satisfied_line lock.satisfied) (10 ∷ entry_lines (keys lock.satisfied))
            (satisfied_line-IsPlain lock.satisfied)
            (refl, entry_lines-IsPlain (keys lock.satisfied) h),
      )
