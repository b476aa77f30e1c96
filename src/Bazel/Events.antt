-- ===== src/Bazel/Events.antt =====
-- `bazel_bep::parse`: the build events of one invocation, line by line. serde_json and the parser of
-- RFC 3339 are parameters.
use musts.Base.{
  Bool, true, false, ◌||◌, Option, none, some, List, [], ◌∷◌, ◌++◌, map, ◌⊎◌, inl, inr,
  if◌then◌else◌,
}
use musts.Base.Order.{◌==◌, nat_ord, list_ord}
use musts.Base.Int.{ℤ, parse_i64}
use musts.Base.Text.{Text, text, lines, trim, from_utf8_lossy, starts_with}
use musts.Base.Lists.{is_empty}
use musts.Base.Map.{BTreeMap, BTreeSet, insert, get, add}
use mathlib.Core.List.{reverse}
use musts.Json
use musts.Json.{Json, Items, at, as_str, as_bool, as_array, first_field, strings_in, str_or}
use musts.Bazel.{Pattern, parse}

pub record Invocation : Type 0 where
  pub uuid : Text
  pub command : Text
  pub workspace_directory : Text
  pub start_ms : Option ℤ
  pub last_message_seen : Bool
  pub finished : Bool
  pub cmd_line : List Text
  pub requested_patterns : List Text
  pub patterns_aborted : Option Text
  pub suites : BTreeMap Text (List Text)
  pub test_targets : BTreeSet Text
  pub configured : BTreeSet Text
  pub summaries : BTreeMap Text (List Text)
  pub aborted : BTreeMap Text Text
  pub stamp : Option (BTreeMap Text Text)

-- `Invocation::default()`
abbrev pub empty_invocation : Invocation
empty_invocation = record {
  uuid = [];
  command = [];
  workspace_directory = [];
  start_ms = none;
  last_message_seen = false;
  finished = false;
  cmd_line = [];
  requested_patterns = [];
  patterns_aborted = none;
  suites = [];
  test_targets = [];
  configured = [];
  summaries = [];
  aborted = [];
  stamp = none;
}

-- `serde_json::from_str` at a value and at a map, and the milliseconds of a time of RFC 3339
pub record EventLibrary : Type 0 where
  pub from_str : Text → Option Json
  pub stamp_from_str : Text → Option (BTreeMap Text Text)
  pub rfc3339_ms : Text → Option ℤ

-- `STAMP_KEY`
abbrev pub stamp_key : Text
stamp_key = text "MUSTS_SCOPES"

unfoldable pub normalise_label : Text → Text
unfolding parse trim
normalise_label raw = elim (parse raw) [
  | some (Pattern.label l) ↦ l
  | some (Pattern.recursive r) ↦ trim raw
  | some (Pattern.in_package p) ↦ trim raw
  | none ↦ trim raw
]

unfoldable pub str_field : Json → Text → Text
unfolding str_or
str_field v key = str_or [] (Json.get key v)

unfoldable pub as_int : Option Json → Option ℤ
unfolding parse_i64
as_int (some (Json.string s)) = parse_i64 s
as_int (some (Json.number n)) = parse_i64 n
as_int _ = none

unfoldable pub int_field : Json → Text → Option ℤ
unfolding as_int
int_field v key = as_int (Json.get key v)

unfoldable pub strings : Json → List Text
unfolding as_array strings_in
strings v = elim (as_array v) [ none ↦ [] | some items ↦ strings_in items ]

-- `event.get("aborted").map(...)`
unfoldable pub aborted_reason : Json → Option Text
unfolding str_or text
aborted_reason event = elim (Json.get (text "aborted") event) [
  | none ↦ none
  | some a ↦ some (str_or (text "UNKNOWN") (Json.get (text "reason") a))
]

unfoldable pub test_labels : Json → List Text
unfolding normalise_label strings
test_labels (Json.string s) = normalise_label s ∷ []
test_labels other = map normalise_label (strings other)

unfoldable pub add_suites : Items → BTreeMap Text (List Text) → BTreeMap Text (List Text)
unfolding normalise_label str_field test_labels at insert text
add_suites Items.nil suites = suites
add_suites (Items.cons e es) suites = add_suites es (
    insert (normalise_label (str_field e (text "suiteLabel")))
      (test_labels (at (text "testLabels") e)) suites)

-- the stamp of the last item with the key
unfoldable pub find_stamp :
    EventLibrary → Items → Option (BTreeMap Text Text) → Option (BTreeMap Text Text)
unfolding at as_str
find_stamp library Items.nil stamp = stamp
find_stamp library (Items.cons item items) stamp =
    find_stamp library items (elim (as_str (at (text "key") item)) [
      | none ↦ stamp
      | some key ↦
          if key == stamp_key
          then elim (as_str (at (text "value") item)) [
            | none ↦ none
            | some v ↦ library.stamp_from_str v
          ]
          else stamp
    ])

-- `ends_with("_test rule")`
unfoldable pub is_test_kind : Text → Bool
unfolding starts_with text
is_test_kind kind = starts_with (reverse (text "_test rule")) (reverse kind)

unfoldable pub or_default : Option (List Text) → List Text
or_default none = []
or_default (some statuses) = statuses

unfoldable pub on_started : EventLibrary → Json → Invocation → Invocation
unfolding str_field int_field as_str text
on_started library s inv = record inv {
  uuid = str_field s (text "uuid");
  command = str_field s (text "command");
  workspace_directory = str_field s (text "workspaceDirectory");
  start_ms = elim (int_field s (text "startTimeMillis")) [
    | some ms ↦ some ms
    | none ↦ elim (Json.get (text "startTime") s) [
      | none ↦ none
      | some t ↦ elim (as_str t) [ none ↦ none | some written ↦ library.rfc3339_ms written ]
    ]
  ];
}

unfoldable pub on_pattern : Json → Json → Invocation → Invocation
unfolding strings aborted_reason as_array at add_suites text
on_pattern event id inv = record inv {
  requested_patterns = strings (at (text "pattern") id);
  patterns_aborted = elim (aborted_reason event) [
    | some reason ↦ some reason
    | none ↦ inv.patterns_aborted
  ];
  suites = elim (as_array (at (text "testSuiteExpansions") (at (text "expanded") event))) [
    | none ↦ inv.suites
    | some expansions ↦ add_suites expansions inv.suites
  ];
}

unfoldable pub on_configured : Json → Json → Invocation → Invocation
unfolding normalise_label str_field is_test_kind str_or at insert text
on_configured event id inv =
    let label = normalise_label (str_field id (text "label")) in
    let kind = str_or [] (some (at (text "targetKind") (at (text "configured") event))) in
    record inv {
      test_targets = if is_test_kind kind then add label inv.test_targets else inv.test_targets;
      configured = add label inv.configured;
    }

unfoldable pub on_completed : Json → Json → Invocation → Invocation
unfolding normalise_label str_field aborted_reason insert text
on_completed event id inv = elim (aborted_reason event) [
  | none ↦ inv
  | some reason ↦ record inv {
    aborted = insert (normalise_label (str_field id (text "label"))) reason inv.aborted;
  }
]

unfoldable pub on_summary : Json → Json → Invocation → Invocation
unfolding normalise_label str_field str_or at insert get or_default text
on_summary event id inv =
    let label = normalise_label (str_field id (text "label")) in
    let status =
      str_or (text "NO_STATUS")
        (some (at (text "overallStatus") (at (text "testSummary") event))) in
    record inv {
      summaries = insert label (or_default (get label inv.summaries) ++ status ∷ []) inv.summaries;
    }

unfoldable pub on_status : EventLibrary → Json → Invocation → Invocation
unfolding as_array at find_stamp text
on_status library event inv =
    elim (as_array (at (text "item") (at (text "workspaceStatus") event))) [
      | none ↦ inv
      | some items ↦ record inv { stamp = find_stamp library items inv.stamp }
    ]

-- the kinds of events that the loop tells apart
pub data Kind : Type 0 where
  started options_parsed pattern target_configured target_completed test_summary : Kind
  workspace_status build_finished other : Kind

unfoldable pub kind_of : Text → Kind
unfolding text
kind_of kind =
    if kind == text "started"
    then Kind.started
    else if kind == text "optionsParsed"
    then Kind.options_parsed
    else if kind == text "pattern"
    then Kind.pattern
    else if kind == text "targetConfigured"
    then Kind.target_configured
    else if kind == text "targetCompleted"
    then Kind.target_completed
    else if kind == text "testSummary"
    then Kind.test_summary
    else if kind == text "workspaceStatus"
    then Kind.workspace_status
    else if kind == text "buildFinished"
    then Kind.build_finished
    else Kind.other

unfoldable pub on_event : EventLibrary → Json → Kind → Json → Invocation → Invocation
unfolding on_started on_pattern on_configured on_completed on_summary on_status strings at text
on_event library event Kind.started id inv = on_started library (at (text "started") event) inv
on_event library event Kind.options_parsed id inv = record inv {
  cmd_line = strings (at (text "cmdLine") (at (text "optionsParsed") event));
}
on_event library event Kind.pattern id inv = on_pattern event id inv
on_event library event Kind.target_configured id inv = on_configured event id inv
on_event library event Kind.target_completed id inv = on_completed event id inv
on_event library event Kind.test_summary id inv = on_summary event id inv
on_event library event Kind.workspace_status id inv = on_status library event inv
on_event library event Kind.build_finished id inv = record inv { finished = true }
on_event library event Kind.other id inv = inv

-- the variables of the loop: `inv` and `saw_started`
pub record Reading : Type 0 where
  pub inv : Invocation
  pub saw_started : Bool

unfoldable pub is_last_message : Json → Bool
unfolding as_bool text
is_last_message event = elim (Json.get (text "lastMessage") event) [
  | none ↦ false
  | some v ↦ elim (as_bool v) [ none ↦ false | some b ↦ b ]
]

unfoldable pub mark_last : Json → Invocation → Invocation
unfolding is_last_message
mark_last event inv = if is_last_message event then record inv { last_message_seen = true } else inv

unfoldable pub read_event : EventLibrary → Json → Reading → Reading
unfolding mark_last on_event kind_of first_field text
read_event library event r = elim (first_field (at (text "id") event)) [
  | none ↦ record r { inv = mark_last event r.inv }
  | some (kind, id) ↦ record {
    inv = on_event library event (kind_of kind) id (mark_last event r.inv);
    saw_started = r.saw_started || (kind == text "started");
  }
]

unfoldable pub read_lines : EventLibrary → List Text → Reading → Reading
unfolding read_event trim
read_lines library [] r = r
read_lines library (line ∷ rest) r = elim (is_empty (trim line)) [
  | true ↦ read_lines library rest r
  | false ↦ elim (library.from_str line) [
    | none ↦ record r { inv = record r.inv { last_message_seen = false } }
    | some event ↦ read_lines library rest (read_event library event r)
  ]
]

-- why a file is no usable stream
pub data Unreadable : Type 0 where
  not_json cannot_read : Unreadable

unfoldable pub parse_events : EventLibrary → Text → Unreadable ⊎ Invocation
unfolding read_lines lines from_utf8_lossy
parse_events library bytes =
    let r =
      read_lines library (lines (from_utf8_lossy bytes))
        (record { inv = empty_invocation; saw_started = false }) in
    if r.saw_started then inr r.inv else inl Unreadable.not_json
