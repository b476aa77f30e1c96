-- ===== src/Bazel/Complete.antt =====
-- The loop of `bazel_bep::parse` against the lines of the file.
use musts.Base.{
  ◌≡◌, refl, Bool, true, false, not, ◌&&◌, ◌||◌, none, some, List, [], ◌∷◌, ◌⊎◌, inl, inr, arith,
  Bool-cases, Option-cases,
}
use musts.Base.Order.{list_ord, nat_ord}
use musts.Base.Text.{Text, text, lines, trim, from_utf8_lossy}
use musts.Base.Lists.{All, any, is_empty}
use musts.Json.{Json, at, as_array, first_field}
use musts.Bazel.Events.{
  Invocation, Kind, kind_of, EventLibrary, Reading, on_completed, on_status, aborted_reason,
  on_event, mark_last, is_last_message, read_event, read_lines, parse_events, empty_invocation,
}

abbrev seen : Invocation → Bool
seen inv = inv.last_message_seen

seen-on_completed :
    (event id : Json) (inv : Invocation) → seen (on_completed event id inv) ≡ seen inv
unfolding on_completed
seen-on_completed event id inv = elim (Option-cases (aborted_reason event)) [
  | inl e ↦ ground (arith, e)
  | inr (reason, e) ↦ ground (arith, e)
]

seen-on_status :
    (library : EventLibrary) (event : Json) (inv : Invocation)
    → seen (on_status library event inv) ≡ seen inv
unfolding on_status
seen-on_status library event inv =
    elim (Option-cases (as_array (at (text "item") (at (text "workspaceStatus") event)))) [
      | inl e ↦ ground (arith, e)
      | inr (items, e) ↦ ground (arith, e)
    ]

seen-on_event :
    (library : EventLibrary) (event : Json) (kind : Kind) (id : Json) (inv : Invocation)
    → seen (on_event library event kind id inv) ≡ seen inv
unfolding on_event
seen-on_event library event Kind.started id inv = refl
seen-on_event library event Kind.options_parsed id inv = refl
seen-on_event library event Kind.pattern id inv = refl
seen-on_event library event Kind.target_configured id inv = refl
seen-on_event library event Kind.target_completed id inv = seen-on_completed event id inv
seen-on_event library event Kind.test_summary id inv = refl
seen-on_event library event Kind.workspace_status id inv = seen-on_status library event inv
seen-on_event library event Kind.build_finished id inv = refl
seen-on_event library event Kind.other id inv = refl

seen-mark_last :
    (event : Json) (inv : Invocation)
    → seen (mark_last event inv) ≡ (seen inv || is_last_message event)
unfolding mark_last
seen-mark_last event inv = ground arith

seen-read_event :
    (library : EventLibrary) (event : Json) (r : Reading)
    → seen (read_event library event r).inv ≡ (seen r.inv || is_last_message event)
unfolding read_event
seen-read_event library event r = elim (Option-cases (first_field (at (text "id") event))) [
  | inl e ↦ ground (arith, e, seen-mark_last event r.inv)
  | inr ((kind, id), e) ↦ ground (
    arith,
    e,
    seen-on_event library event (kind_of kind) id (mark_last event r.inv),
    seen-mark_last event r.inv,
  )
]

-- a line that the loop can pass: blank, or an event
abbrev pub IsEvent : EventLibrary → Text → Type 0
IsEvent library line =
    (is_empty (trim line) ≡ true) ⊎ ((event : Json) × (library.from_str line ≡ some event))

-- a line with the last message
unfoldable pub says_last : EventLibrary → Text → Bool
unfolding is_last_message
says_last library line = elim (library.from_str line) [
  | none ↦ false
  | some event ↦ not (is_empty (trim line)) && is_last_message event
]

read_lines_complete :
    (library : EventLibrary) (ls : List Text) (r : Reading)
    → seen (read_lines library ls r).inv ≡ true
    → All (IsEvent library) ls × ((seen r.inv || any (says_last library) ls) ≡ true)
unfolding read_lines any says_last
read_lines_complete library [] r h = (tt, ground arith)
read_lines_complete library (line ∷ ls) r h = elim (Bool-cases (is_empty (trim line))) [
  | inl blank ↦
      let (all, last) = read_lines_complete library ls r (ground (arith, blank, h)) in
      ((inl blank, all), ground (arith, blank, last))
  | inr full ↦ elim (Option-cases (library.from_str line)) [
    | inl broken ↦ ground (arith, full, broken, h)
    | inr (event, e) ↦
        let (all, last) =
          read_lines_complete library ls (read_event library event r)
            (ground (arith, full, e, h)) in
        ((inr (event, e), all), ground (arith, full, e, last, seen-read_event library event r))
  ]
]

-- Where `parse` succeeds and has seen the last message, every line of the file is blank or an event, and
-- one of them says that it is the last message: a file that bazel has not finished is not taken for a
-- complete one.
pub parse_events_complete :
    (library : EventLibrary) (bytes : Text) (inv : Invocation)
    → parse_events library bytes ≡ inr inv
    → inv.last_message_seen ≡ true
    → All (IsEvent library) (lines (from_utf8_lossy bytes))
      × (any (says_last library) (lines (from_utf8_lossy bytes)) ≡ true)
unfolding parse_events
parse_events_complete library bytes inv h k =
    read_lines_complete library (lines (from_utf8_lossy bytes))
      (record { inv = empty_invocation; saw_started = false }) (ground (arith, h, k))
