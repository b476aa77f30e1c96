-- ===== src/Ledger/Disk/Parser.antt =====
-- What the program relies on of `serde_yaml` when it reads the ledger, and that the line reader has
-- it.
use mathlib.Core.Option
use musts.Base.Lists.{is_empty}
use musts.Base.{
  ℕ, ◌≡◌, refl, subst, Option-cases, inl, inr, Bool, true, false, Option, none, some, List, [], ◌∷◌,
  arith, if◌then◌else◌,
}
use musts.Base.Order.{◌==◌, nat_ord, pair_ord, list_ord}
use musts.Base.Text.{Text, text, lines, strip_prefix}
use musts.Base.Map.{BTreeSet, IsSorted, add, insert-IsSorted}
use musts.Base.Result.{ok}
use musts.Ledger.Defs.{SatisfiedEntry, LedgerLock, supported_version}
use musts.Ledger.Reader.{
  read_lock, read_lines, read_entries, read_entry, read_body, read_digits, ◌>>=◌,
}
use musts.Ledger.Disk.Plain.{IsPlain}
use musts.Ledger.Disk.{
  MustsDir, FileState, absent, unreadable, contents, load, load_file, load_bytes, check_version,
}

-- YAML, as far as the lines of `save` use it: in a text of printable ASCII and line feeds that begins
-- with the line `version: 1`, a sequence of the mappings that the line reader reads, one a line, is
-- read as the line reader does. Of other texts, such as one with a raw control character, nothing is
-- assumed. The entries are collected in a `BTreeSet`.
pub record IsLedgerParser (from_slice : Text → Option LedgerLock) : Type 0 where
  pub agrees :
      (body : Text) (ls : List Text) (l : LedgerLock)
      → IsPlain body
      → lines body ≡ text "version: 1" ∷ ls
      → read_lock body ≡ some l
      → from_slice body ≡ some l
  pub collects : (body : Text) (l : LedgerLock) → from_slice body ≡ some l → IsSorted l.satisfied

bind-eq-some :
    {A B : Type 0} (o : Option A) (f : A → Option B) {b : B}
    → (o >>= f) ≡ some b
    → (a : A) × (o ≡ some a) × (f a ≡ some b)
bind-eq-some none f h = cc
bind-eq-some (some a) f h = (a, refl, h)

read_entries-IsSorted :
    (ls : List Text) (s t : BTreeSet SatisfiedEntry)
    → IsSorted s
    → read_entries ls s ≡ some t
    → IsSorted t
unfolding read_entries
read_entries-IsSorted [] s t h e = let same : s ≡ t = cc in subst IsSorted same h
read_entries-IsSorted (l ∷ ls) s t h e =
    let (a, _, rest) = bind-eq-some (read_entry l) (λ a. read_entries ls (add a s)) e in
    read_entries-IsSorted ls (add a s) t (insert-IsSorted a tt s h) rest

-- any ledger that comes out has its entries in order
abbrev AllSorted : Option LedgerLock → Type 0
AllSorted o = (l : LedgerLock) → o ≡ some l → IsSorted l.satisfied

map-AllSorted :
    (v : ℕ) (o : Option (BTreeSet SatisfiedEntry))
    → ((s : BTreeSet SatisfiedEntry) → o ≡ some s → IsSorted s)
    → AllSorted (Option.map (λ s. record { version = v; satisfied = s }) o)
map-AllSorted v none k l e = cc
map-AllSorted v (some s) k l e =
    let same : record { version = v; satisfied = s } ≡ l = cc in
    subst (λ (r : LedgerLock). IsSorted r.satisfied) same (k s refl)

if-AllSorted :
    (b : Bool) (x y : Option LedgerLock)
    → AllSorted x
    → AllSorted y
    → AllSorted (if b then x else y)
if-AllSorted true x y h k = h
if-AllSorted false x y h k = k

none-AllSorted : AllSorted none
none-AllSorted l e = cc

empty-AllSorted : (v : ℕ) → AllSorted (some (record { version = v; satisfied = [] }))
empty-AllSorted v l e = ground arith

read_body-AllSorted : (v : ℕ) (l : Text) (ls : List Text) → AllSorted (read_body v l ls)
unfolding read_body
read_body-AllSorted v l ls =
    if-AllSorted (l == text "satisfied: []") _ _
      (if-AllSorted (is_empty ls) _ none (empty-AllSorted v) none-AllSorted)
      (if-AllSorted (l == text "satisfied:") _ none
        (if-AllSorted (is_empty ls) none _ none-AllSorted
          (map-AllSorted v (read_entries ls []) (λ s e. read_entries-IsSorted ls [] s tt e)))
        none-AllSorted)

read_lines-IsSorted :
    (ls : List Text) (lock : LedgerLock) → read_lines ls ≡ some lock → IsSorted lock.satisfied
unfolding read_lines
read_lines-IsSorted [] lock e = cc
read_lines-IsSorted (v ∷ []) lock e = cc
read_lines-IsSorted (v ∷ l ∷ ls) lock e =
    let (digits, _, rest) =
      bind-eq-some (strip_prefix (text "version: ") v)
        (λ d. read_digits 0 d >>= λ n. read_body n l ls) e in
    let (n, _, body) = bind-eq-some (read_digits 0 digits) (λ n. read_body n l ls) rest in
    read_body-AllSorted n l ls lock body

pub read_lock-IsLedgerParser : IsLedgerParser read_lock
read_lock-IsLedgerParser = record {
  agrees = λ body ls l plain head h. h;
  collects = λ body l h. read_lines-IsSorted (lines body) l (unfold read_lock in h);
}

check_version-valid :
    (from_slice : Text → Option LedgerLock) (bytes : Text) (l lock : LedgerLock)
    → IsLedgerParser from_slice
    → from_slice bytes ≡ some l
    → check_version from_slice l ≡ ok lock
    → IsSorted lock.satisfied × (lock.version ≡ supported_version)
unfolding check_version
check_version-valid from_slice bytes l lock p e h =
    let same : l ≡ lock = ground arith in
    (subst (λ (r : LedgerLock). IsSorted r.satisfied) same (p.collects bytes l e), ground arith)

load_bytes-valid :
    (from_slice : Text → Option LedgerLock) (bytes : Text) (lock : LedgerLock)
    → IsLedgerParser from_slice
    → load_bytes from_slice bytes ≡ ok lock
    → IsSorted lock.satisfied × (lock.version ≡ supported_version)
unfolding load_bytes
load_bytes-valid from_slice bytes lock p h = elim (Option-cases (from_slice bytes)) [
  | inl e ↦ absurd (ground arith)
  | inr (l, e) ↦ check_version-valid from_slice bytes l lock p e (ground arith)
]

load_file-valid :
    (from_slice : Text → Option LedgerLock) (f : FileState) (lock : LedgerLock)
    → IsLedgerParser from_slice
    → load_file from_slice f ≡ ok lock
    → IsSorted lock.satisfied × (lock.version ≡ supported_version)
unfolding load_file
load_file-valid from_slice absent lock p h = ground arith
load_file-valid from_slice unreadable lock p h = cc
load_file-valid from_slice (contents bytes) lock p h = load_bytes-valid from_slice bytes lock p h

-- A ledger that loads has its entries in order and the version that the program supports.
pub load-valid :
    (from_slice : Text → Option LedgerLock) (dir : MustsDir) (lock : LedgerLock)
    → IsLedgerParser from_slice
    → load from_slice dir ≡ ok lock
    → IsSorted lock.satisfied × (lock.version ≡ supported_version)
unfolding load
load-valid from_slice dir lock p h = load_file-valid from_slice dir.lock_file lock p h
