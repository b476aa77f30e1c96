-- ===== src/Ledger/Disk/RoundTrip.antt =====
-- `save` and then `load`.
use musts.Base.{◌≡◌, refl, ◌∙◌, ap, ◌∷◌, map, true, Option, some, arith}
use musts.Base.Order.{nat_ord, pair_ord, list_ord}
use musts.Base.Text.{Text}
use musts.Base.Map.{keys, IsSorted}
use musts.Base.Result.{ok}
use musts.Ledger.Defs.{entry_line, satisfied_line, LedgerLock, supported_version, save_body}
use musts.Ledger.Disk.Parser.{IsLedgerParser}
use musts.Ledger.Reader.RoundTrip.{lines-save_body, read_lock-save_body}
use musts.Ledger.Disk.Plain.{AllStorable, version_line, save_body-IsPlain}
use musts.Ledger.Conflict.{has_conflict_markers-save_body}
use musts.Ledger.Disk.{MustsDir, contents, load, load_file, save}
use musts.Ledger.Disk.Attributes.{ensure-lock_file}

-- What `load` makes of the file that `save` has written.
load_file-save_body :
    (from_slice : Text → Option LedgerLock) (lock : LedgerLock)
    → from_slice (save_body lock) ≡ some lock
    → lock.version ≡ supported_version
    → load_file from_slice (contents (save_body lock)) ≡ ok lock
unfolding load_file
load_file-save_body from_slice lock reads v = rw (has_conflict_markers-save_body lock, reads, v)

-- Where the YAML parser reads the lines that `save` writes in printable ASCII: a ledger of the
-- supported version whose entries are in order, and whose check ids and hashes are of printable
-- ASCII, tabs, line feeds and carriage returns, saved to a file that can be written, loads as
-- itself. None of its entries is taken for a conflict marker.
pub load-save :
    (from_slice : Text → Option LedgerLock) (lock : LedgerLock) (dir : MustsDir)
    → IsLedgerParser from_slice
    → IsSorted lock.satisfied
    → AllStorable lock
    → lock.version ≡ supported_version
    → dir.lock_writable ≡ true
    → ((save lock dir).0 ≡ ok tt) × (load from_slice (save lock dir).1 ≡ ok lock)
unfolding save load
load-save from_slice lock dir parser sorted storable v w =
    (rw w, rw (w, ensure-lock_file) (load_file-save_body from_slice lock reads v))
  where
    reads : from_slice (save_body lock) ≡ some lock
    reads =
        parser.agrees (save_body lock) _ lock (save_body-IsPlain lock v storable)
          (lines-save_body lock
            ∙ ap (λ l. l ∷ satisfied_line lock.satisfied ∷ map entry_line (keys lock.satisfied))
                (version_line lock.version v))
          (read_lock-save_body lock sorted)

-- a `save` that succeeds had a file that it could write
pub save-writable :
    (lock : LedgerLock) (dir : MustsDir) → (save lock dir).0 ≡ ok tt → dir.lock_writable ≡ true
unfolding save
save-writable lock dir h = ground arith

-- the file after a `save` that could write it
pub save-lock_file :
    (lock : LedgerLock) (dir : MustsDir)
    → dir.lock_writable ≡ true
    → (save lock dir).1.lock_file ≡ contents (save_body lock)
unfolding save
save-lock_file lock dir w = rw (w, ensure-lock_file) refl
