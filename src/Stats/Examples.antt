-- ===== src/Stats/Examples.antt =====
-- A report on two checks, and the theorems at it.
use musts.Base.{◌≡◌, refl, false, Option, none, some, [], ◌∷◌, ◌||◌}
use musts.Base.Order.{nat_ord, pair_ord, list_ord}
use musts.Base.Text.{Text, text}
use musts.Base.Lists.{All, contains}
use musts.Base.Map.{BTreeMap, contains_key, keys}
use musts.Json.{Json}
use musts.Ledger.{LedgerLock}
use musts.Database.{Db, EvidenceRow}
use musts.Stats.{satisfied_per_check, read_local_history, report_of}
use musts.Stats.Counts.{IsCount, report_of-IsCount}
use musts.Stats.Ordered.{IsRanked, ids_of, report_of-IsRanked}

-- two hashes of the check `a`, and one of `b`
abbrev ledger : LedgerLock
ledger = record {
  version = 1;
  satisfied = ((97 ∷ [], 49 ∷ []), tt) ∷ ((97 ∷ [], 50 ∷ []), tt) ∷ ((98 ∷ [], 49 ∷ []), tt) ∷ [];
}

abbrev row : EvidenceRow
row = record {
  task_id = 116 ∷ [];
  submission_id = 115 ∷ [];
  check_id = 98 ∷ [];
  scope_hash = 49 ∷ [];
  accepted = false;
  summary = none;
  submission_json = [];
  result_json = [];
  submitted_at = 7;
}

abbrev db : Db
db = record {
  file_fingerprints = [];
  scope_snapshots = [];
  tasks = [];
  resolve_notes = [];
  evidence_records = row ∷ [];
}

-- a parser that finds a text in every submission
abbrev from_str : Text → Option Json
from_str t = some (Json.string (104 ∷ 105 ∷ []))

abbrev declared : BTreeMap Text Text
declared = (99 ∷ [], text "builtin/agent") ∷ []

report_of-IsCount_example :
    All (IsCount ledger (some db)) (report_of from_str ledger (some db) declared).checks
unfolding pair_ord list_ord
report_of-IsCount_example =
    report_of-IsCount from_str ledger (some db) declared
      ((refl, (refl, tt)), ((refl, tt), (tt, tt)))

report_of-IsRanked_example :
    IsRanked (report_of from_str ledger (some db) declared).checks
    × ((id : Text)
        → contains id (ids_of (report_of from_str ledger (some db) declared).checks) ≡ (
            contains_key id declared
            || (contains_key id (read_local_history from_str (row ∷ []) [])
                || contains_key id (satisfied_per_check (keys ledger.satisfied) []))))
report_of-IsRanked_example = report_of-IsRanked from_str ledger (some db) declared

ids_of-report_of :
    ids_of (report_of from_str ledger (some db) declared).checks
    ≡ (97 ∷ []) ∷ (98 ∷ []) ∷ (99 ∷ []) ∷ []
unfolding report_of
ids_of-report_of = refl
