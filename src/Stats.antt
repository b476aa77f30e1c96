-- ===== src/Stats.antt =====
-- stats.rs: what each check has cost and caught, from the committed ledger and the local database. The
-- parser of a stored submission is a parameter, and the text of the report is left out.
pub mod Counts
pub mod Ordered
mod Examples
use Prim.Native.Nat.{compare, Ordering}
use Prim.Native.Nat.Ordering.{lt, eq, gt}
use musts.Base.{
  ℕ, ◌+◌, ◌-◌, ◌/◌, Bool, true, false, not, ◌&&◌, Option, none, some, List, [], ◌∷◌, ◌++◌, map, ◌⊎◌,
  inl, inr, if◌then◌else◌, ltb, leb,
}
use musts.Base.Order.{Ord, or_else, ◌==◌, nat_ord, pair_ord, list_ord}
use musts.Base.Text.{Text, text}
use musts.Base.Lists.{length}
use musts.Base.Map.{BTreeMap, BTreeSet, insert, get, keys, contains_key, add, add_all}
use musts.Base.Result
use musts.Base.Result.{Result, ok, err}
use musts.Json
use musts.Json.{Json, as_str}
use musts.Ledger.{SatisfiedEntry, LedgerLock}
use musts.Ledger.Disk.{MustsDir, load}
use musts.Database.{EvidenceRow, Db}
use musts.Manifest.Keys.{chars}
use musts.Manifest.Parser.{Manifest, Libraries, parse}
use musts.Validate.Scope.{RelPath, Check, scope_path_for, check_id}

-- the loop over the checks of one manifest
unfoldable pub declare_all : Text → BTreeMap Text Check → BTreeMap Text Text → BTreeMap Text Text
unfolding check_id insert
declare_all scope [] out = out
declare_all scope ((local_id, check) ∷ checks) out =
    declare_all scope checks (insert (check_id scope local_id) check.uses out)

-- `declared_checks`, over the manifests that `discover` finds, each with its bytes if they can be read
unfoldable pub declared_checks :
    Libraries → List (RelPath × Option Text) → BTreeMap Text Text → BTreeMap Text Text
unfolding declare_all scope_path_for parse
declared_checks libraries [] out = out
declared_checks libraries ((rel_path, none) ∷ entries) out = declared_checks libraries entries out
declared_checks libraries ((rel_path, some bytes) ∷ entries) out =
    declared_checks libraries entries (elim (parse libraries rel_path bytes) [
      | inl problem ↦ out
      | inr manifest ↦ declare_all (scope_path_for rel_path) manifest.checks out
    ])

pub record CheckStats : Type 0 where
  pub check_id : Text
  pub satisfied_scopes : ℕ
  pub reopened : ℕ
  pub submissions : ℕ
  pub red : ℕ
  pub mean_evidence_chars : Option ℕ
  pub declared : Bool
  pub capability : Option Text

-- `SUSPECT_REOPEN_THRESHOLD`
abbrev pub suspect_reopen_threshold : ℕ
suspect_reopen_threshold = 3

unfoldable pub is_suspect : CheckStats → Bool
is_suspect c = (c.red == 0) && leb suspect_reopen_threshold c.reopened

pub record StatsReport : Type 0 where
  pub checks : List CheckStats
  pub total_satisfied_entries : ℕ
  pub local_history_available : Bool

pub record LocalHistory : Type 0 where
  pub submissions : ℕ
  pub red : ℕ
  pub evidence_chars_total : ℕ
  pub evidence_text_count : ℕ

-- `LocalHistory::default()`
abbrev pub no_history : LocalHistory
no_history = record { submissions = 0; red = 0; evidence_chars_total = 0; evidence_text_count = 0 }

abbrev pub or_none : Option LocalHistory → LocalHistory
or_none none = no_history
or_none (some h) = h

unfoldable pub mean_evidence_chars : LocalHistory → Option ℕ
mean_evidence_chars h =
    if ltb 0 h.evidence_text_count
    then some (h.evidence_chars_total / h.evidence_text_count)
    else none

abbrev pub or_empty_set : Option (BTreeSet Text) → BTreeSet Text
or_empty_set none = []
or_empty_set (some s) = s

-- `satisfied_per_check`
unfoldable pub satisfied_per_check :
    List SatisfiedEntry → BTreeMap Text (BTreeSet Text) → BTreeMap Text (BTreeSet Text)
unfolding insert get
satisfied_per_check [] out = out
satisfied_per_check ((check, scope_hash) ∷ entries) out =
    satisfied_per_check entries (insert check (add scope_hash (or_empty_set (get check out))) out)

module _ (from_str : Text → Option Json) where
  unfoldable pub evidence_text_len : Text → Option ℕ
  unfolding Json.get as_str chars text
  evidence_text_len submission_json = elim (from_str submission_json) [
    | none ↦ none
    | some value ↦ elim (Json.get (text "text") value) [
      | none ↦ none
      | some t ↦ elim (as_str t) [ none ↦ none | some s ↦ some (length (chars s)) ]
    ]
  ]

  -- one row, on the history of its check
  unfoldable pub count_row : EvidenceRow → LocalHistory → LocalHistory
  unfolding evidence_text_len
  count_row row h =
      let len = evidence_text_len row.submission_json in
      record {
        submissions = h.submissions + 1;
        red = if row.accepted then h.red else h.red + 1;
        evidence_chars_total = elim len [
          | none ↦ h.evidence_chars_total
          | some n ↦ h.evidence_chars_total + n
        ];
        evidence_text_count = elim len [
          | none ↦ h.evidence_text_count
          | some n ↦ h.evidence_text_count + 1
        ];
      }

  unfoldable pub read_local_history :
      List EvidenceRow → BTreeMap Text LocalHistory → BTreeMap Text LocalHistory
  unfolding count_row insert get
  read_local_history [] out = out
  read_local_history (row ∷ rows) out =
      read_local_history rows
        (insert row.check_id (count_row row (or_none (get row.check_id out))) out)

unfoldable pub stats_of :
    BTreeMap Text (BTreeSet Text)
    → BTreeMap Text LocalHistory
    → BTreeMap Text Text
    → Text
    → CheckStats
unfolding mean_evidence_chars get
stats_of satisfied history declared id =
    let satisfied_scopes = length (or_empty_set (get id satisfied)) in
    record {
      check_id = id;
      satisfied_scopes = satisfied_scopes;
      reopened = satisfied_scopes - 1;
      submissions = (or_none (get id history)).submissions;
      red = (or_none (get id history)).red;
      mean_evidence_chars = elim (get id history) [ none ↦ none | some h ↦ mean_evidence_chars h ];
      declared = contains_key id declared;
      capability = get id declared;
    }

-- `b.satisfied_scopes.cmp(&a.satisfied_scopes).then_with(|| a.check_id.cmp(&b.check_id))`
unfoldable pub cmp_stats : CheckStats → CheckStats → Ordering
unfolding list_ord
cmp_stats a b =
    or_else (compare b.satisfied_scopes a.satisfied_scopes) (list_ord.cmp a.check_id b.check_id)

-- `sort_by` is stable
unfoldable pub insert_stats : CheckStats → List CheckStats → List CheckStats
unfolding cmp_stats
insert_stats c [] = c ∷ []
insert_stats c (d ∷ ds) = elim (cmp_stats c d) [ gt ↦ d ∷ insert_stats c ds | _ ↦ c ∷ d ∷ ds ]

unfoldable pub sort_stats : List CheckStats → List CheckStats
unfolding insert_stats
sort_stats [] = []
sort_stats (c ∷ cs) = insert_stats c (sort_stats cs)

-- the ids of the three maps, in their order
unfoldable pub all_ids :
    BTreeMap Text (BTreeSet Text) → BTreeMap Text LocalHistory → BTreeMap Text Text → BTreeSet Text
unfolding add_all
all_ids satisfied history declared =
    add_all (keys declared) (add_all (keys history) (add_all (keys satisfied) []))

-- `state.sqlite`: absent, or a database, which may fail to open
abbrev pub rows_of : Option Db → List EvidenceRow
rows_of none = []
rows_of (some d) = d.evidence_records

unfoldable pub report_of :
    (Text → Option Json) → LedgerLock → Option Db → BTreeMap Text Text → StatsReport
unfolding satisfied_per_check read_local_history all_ids stats_of sort_stats
report_of from_str ledger state declared =
    let satisfied = satisfied_per_check (keys ledger.satisfied) [] in
    let history = read_local_history from_str (rows_of state) [] in
    record {
      checks =
          sort_stats
            (map (stats_of satisfied history declared) (keys (all_ids satisfied history declared)));
      total_satisfied_entries = length ledger.satisfied;
      local_history_available = elim state [ none ↦ false | some d ↦ true ];
    }

unfoldable pub collect :
    (Text → Option LedgerLock)
    → (Text → Option Json)
    → MustsDir
    → Result (Option Db)
    → BTreeMap Text Text
    → Result StatsReport
unfolding load report_of
collect from_slice from_str musts_dir state declared = elim (load from_slice musts_dir) [
  | err e ↦ err e
  | ok ledger ↦ elim state [ err e ↦ err e | ok db ↦ ok (report_of from_str ledger db declared) ]
]
