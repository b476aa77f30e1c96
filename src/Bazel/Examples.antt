-- ===== src/Bazel/Examples.antt =====
-- Patterns on concrete inputs.
use musts.Base.{
  ◌≡◌, refl, true, false, if◌then◌else◌, not, ◌||◌, List, inr, inl, none, some, [], ◌∷◌,
}
use musts.Base.Order.{◌==◌, nat_ord, list_ord}
use musts.Base.Int.{ℤ}
use musts.Base.Text.{Text, text, lines, from_utf8_lossy}
use musts.Base.Lists.{any, All}
use musts.Base.Map.{insert}
use musts.Bazel.{Pattern, parse, covers, contains_label, require_requested, Unasked}
use musts.Bazel.Targets.{Unproven, targets_proven, read_targets}
use musts.Bazel.Proven.{targets_proven-IsSettled, IsSettled}
use musts.Json.{Json, Fields}
use musts.Bazel.Events.{Invocation, empty_invocation, EventLibrary, Unreadable, parse_events}
use musts.Bazel.Problem.{test_filter, no_tests_is_vacuous}
use musts.Bazel.Complete.{parse_events_complete, IsEvent, says_last}
use musts.Bazel.Requested.{require_requested-asks, asks, drops, names_any}

parse-Recursive_test : parse (text "@@//a/b/...:all ") ≡ some (Pattern.recursive (text "a/b"))
unfolding parse list_ord
parse-Recursive_test = refl

parse-root_test : parse (text "//...") ≡ some (Pattern.recursive [])
unfolding parse list_ord
parse-root_test = refl

parse-shorthand_test : parse (text " @//a/b") ≡ some (Pattern.label (text "//a/b:b"))
unfolding parse list_ord
parse-shorthand_test = refl

parse-Package_test : parse (text "//a:*") ≡ some (Pattern.in_package (text "a"))
unfolding parse list_ord
parse-Package_test = refl

parse-foreign_test : parse (text "@other//a") ≡ none
unfolding parse list_ord
parse-foreign_test = refl

abbrev under_a : Pattern
under_a = Pattern.recursive (text "a")

abbrev under_a_b : Pattern
under_a_b = Pattern.recursive (text "a/b")

abbrev in_a_b : Pattern
in_a_b = Pattern.in_package (text "a/b")

abbrev target_b : Text
target_b = text "//a/b:t"

abbrev target_c : Text
target_c = text "//a/c:t"

abbrev requested : List Text
requested = text "//a/..." ∷ text "-//a/b/..." ∷ []

under_a-covers : covers under_a in_a_b ≡ true
unfolding covers list_ord
under_a-covers = refl

in_a_b-target_b : contains_label in_a_b target_b ≡ true
unfolding contains_label list_ord
in_a_b-target_b = refl

under_a-target_b : contains_label under_a target_b ≡ true
unfolding contains_label list_ord
under_a-target_b = refl

under_a-target_c : contains_label under_a target_c ≡ true
unfolding contains_label list_ord
under_a-target_c = refl

requested-accepted : require_requested requested under_a (under_a_b ∷ []) ≡ none
unfolding require_requested list_ord
requested-accepted = refl

require_requested-asks_example :
    (any (asks target_c) requested ≡ true)
    × ((not (any (drops target_c) requested) || names_any target_c (under_a_b ∷ [])) ≡ true)
require_requested-asks_example =
    require_requested-asks requested under_a (under_a_b ∷ []) target_c requested-accepted
      under_a-target_c

-- two tests under `//a/...`, of which one passed and one was skipped, and a suite
abbrev invocation : Invocation
invocation = record {
  uuid = [];
  command = text "test";
  workspace_directory = [];
  start_ms = some (ℤ.pos 5);
  last_message_seen = true;
  finished = true;
  cmd_line = [];
  requested_patterns = requested;
  patterns_aborted = none;
  suites = (text "//s:suite", target_c ∷ []) ∷ [];
  test_targets = (target_c, tt) ∷ (text "//a/d:t", tt) ∷ [];
  configured = [];
  summaries = (target_c, text "PASSED" ∷ []) ∷ [];
  aborted = (text "//a/d:t", text "SKIPPED") ∷ [];
  stamp = none;
}

abbrev targets : List Text
targets = text "//a/..." ∷ text "-//a/b/..." ∷ text "//s:suite" ∷ []

targets-proven : targets_proven invocation targets ≡ inr 1
unfolding targets_proven list_ord insert
targets-proven = refl

unasked_test :
    targets_proven invocation (text "//a/..." ∷ [])
    ≡ inl (Unproven.unasked (text "//a/...") (Unasked.excluded_inside (text "-//a/b/...")))
unfolding targets_proven list_ord
unasked_test = refl

not_run_test :
    targets_proven invocation (text "//a/e:t" ∷ [])
    ≡ inl (Unproven.not_in_invocation (text "//a/e:t"))
unfolding targets_proven list_ord
not_run_test = refl

targets_proven-IsSettled_example :
    (r : List (Text × Pattern) × List Pattern) × (read_targets targets ≡ inr r)
    × All (λ e. IsSettled invocation r.1 e.1) r.0
targets_proven-IsSettled_example = targets_proven-IsSettled invocation targets 1 targets-proven

-- one line, which starts the invocation and says that it is the last
abbrev started_last : Json
started_last = Json.object (
    Fields.field (text "id") (Json.object (Fields.field (text "started") Json.null Fields.end))
      (Fields.field (text "lastMessage") (Json.boolean true) Fields.end))

abbrev one_event : EventLibrary
one_event = record {
  from_str = λ line. if line == text "{}" then some started_last else none;
  stamp_from_str = λ line. none;
  rfc3339_ms = λ line. none;
}

abbrev started_only : Invocation
started_only = record empty_invocation { last_message_seen = true }

started_only-parsed : parse_events one_event (text "{}\n\n") ≡ inr started_only
unfolding parse_events list_ord
started_only-parsed = refl

half_written_test :
    parse_events one_event (text "{}\n{\n{}")
    ≡ inr (record empty_invocation { last_message_seen = false })
unfolding parse_events list_ord
half_written_test = refl

not_json_test : parse_events one_event (text "x") ≡ inl Unreadable.not_json
unfolding parse_events list_ord
not_json_test = refl

-- a character that is cut off, and a byte that begins none
lossy_test :
    from_utf8_lossy (0x61 ∷ 0xe2 ∷ 0x82 ∷ 0x62 ∷ 0xff ∷ [])
    ≡ 0x61 ∷ 0xef ∷ 0xbf ∷ 0xbd ∷ 0x62 ∷ 0xef ∷ 0xbf ∷ 0xbd ∷ []
unfolding from_utf8_lossy
lossy_test = refl

filter_test :
    test_filter (text "test" ∷ text "--test_filter=" ∷ text "--test_filter" ∷ text "A*" ∷ [])
    ≡ some (text "A*")
unfolding test_filter list_ord
filter_test = refl

vacuous_test :
    no_tests_is_vacuous
      (text "bazel" ∷ text "test" ∷ text "-//a/..." ∷ text "--x" ∷ [])
      (some (ℤ.pos 4))
    ≡ true
unfolding no_tests_is_vacuous list_ord
vacuous_test = refl

parse_events_complete_example :
    All (IsEvent one_event) (lines (from_utf8_lossy (text "{}\n\n")))
    × (any (says_last one_event) (lines (from_utf8_lossy (text "{}\n\n"))) ≡ true)
parse_events_complete_example =
    parse_events_complete one_event (text "{}\n\n") started_only started_only-parsed refl
