-- ===== src/Builtin/Jev.antt =====
-- crates/musts-core/src/builtin/jev.rs: `jev`. The answer of git, the printing of a payload, and Unicode's
-- lowercase and alphanumeric characters are parameters.
pub mod Samples
use musts.Base.{
  ℕ, suc, ◌+◌, Bool, true, false, not, ◌&&◌, ◌||◌, Option, none, some, List, [], ◌∷◌, ◌++◌, map,
  if◌then◌else◌, leb,
}
use musts.Base.Order.{◌==◌, nat_ord, list_ord}
use musts.Base.Text.{Text, text, starts_with, lines, join, trim, from_utf8_lossy}
use musts.Base.Lists.{length, is_empty, filter, all}
use musts.Json
use musts.Json.{Json, as_str, str_or}
use musts.Ledger.{decimal}
use musts.Protocol.{
  Task, ResolveCheck, ResolveRequest, ResolveResponse, EvidenceValidationRequest,
  EvidenceValidationResponse,
}
use musts.Snapshot.{sort}

-- `git_diff` gives the standard output of `git diff --name-only` in a folder since a revision, where git
-- succeeds.
pub record JevEnv : Type 0 where
  pub to_lowercase : Text → Text
  pub slug : Text → Text
  pub print : Json → Text
  pub git_diff : Text → Text → Text → Option Text

unfoldable pub scope_dir : Text → Text
unfolding text list_ord
scope_dir scope_path = if scope_path == text "root" then [] else scope_path

unfoldable pub in_folder : Text → Text → Bool
unfolding starts_with text list_ord
in_folder prefix f = is_empty prefix || f == prefix || starts_with (prefix ++ text "/") f

-- the line that `trim` leaves, where something is left
unfoldable pub file_names : Text → List Text
unfolding lines trim filter
file_names out = filter (λ l. not (is_empty l)) (map trim (lines out))

-- `as_u64`, printed: a number is kept as its digits
unfoldable pub printed_u64 : Option Json → Option Text
unfolding all
printed_u64 (some (Json.number [])) = none
printed_u64 (some (Json.number (d ∷ ds))) =
    if all (λ c. leb 48 c && leb c 57) (d ∷ ds) then some (d ∷ ds) else none
printed_u64 _ = none

abbrev pub str_of : Option Json → Option Text
str_of none = none
str_of (some v) = as_str v

-- an option of the command with its argument
unfoldable pub flag : Text → Option Text → List Text
flag name none = []
flag name (some argument) = name ∷ argument ∷ []

-- the first element, if there is one
abbrev pub take_one : List Text → List Text
take_one [] = []
take_one (f ∷ fs) = f ∷ []

unfoldable pub or_file : List Text → List Text
unfolding text
or_file [] = text "<file>" ∷ []
or_file (f ∷ fs) = f ∷ fs

-- the samples, and whether it is confirmed that nothing changed in the scope
unfoldable pub choose_samples : Option (List Text) → List Text → List Text × Bool
choose_samples none scope_files = (take_one scope_files, false)
choose_samples (some []) scope_files = (take_one scope_files, true)
choose_samples (some (f ∷ fs)) scope_files = (f ∷ fs, false)

module _ (env : JevEnv) where
  unfoldable pub files_in_scope : List Text → Text → List Text
  unfolding filter in_folder
  files_in_scope changed_files dir = filter (in_folder (env.to_lowercase dir)) changed_files

  unfoldable pub diffed_files_in_scope : Text → Text → Text → Option (List Text)
  unfolding sort file_names from_utf8_lossy text
  diffed_files_in_scope workspace_root since dir =
      elim (env.git_diff workspace_root since (if is_empty dir then text "." else dir)) [
        | none ↦ none
        | some out ↦ some (sort (file_names (from_utf8_lossy out)))
      ]

  -- asked of git for the state `diff` with a revision only
  unfoldable pub git_answer : Text → Text → Option Text → Text → Option (List Text)
  unfolding diffed_files_in_scope text list_ord
  git_answer workspace_root state none dir = none
  git_answer workspace_root state (some since) dir =
      if state == text "diff" then diffed_files_in_scope workspace_root since dir else none

  unfoldable pub samples_of : ResolveRequest → ResolveCheck → List Text × Bool
  unfolding choose_samples git_answer files_in_scope scope_dir Json.get str_or text
  samples_of request check =
      let dir = scope_dir check.scope_path in
      choose_samples
        (git_answer request.workspace_root
          (str_or (text "file") (Json.get (text "state") check.with_payload))
          (str_of (Json.get (text "changed_since") check.with_payload)) dir)
        (files_in_scope request.changed_files dir)

  unfoldable pub question_argv : Json → List Text
  unfolding Json.get str_or text
  question_argv w = elim (Json.get (text "question") w) [
    | some inline ↦ text "--question-json" ∷ env.print inline ∷ []
    | none ↦ text "--questions" ∷ str_or (text "?") (Json.get (text "questions") w) ∷ []
  ]

  -- the form that a person pastes into a shell
  unfoldable pub question : Json → Text
  unfolding Json.get str_or text
  question w = elim (Json.get (text "question") w) [
    | some inline ↦ text "--question-json '" ++ env.print inline ++ text "'"
    | none ↦ text "--questions " ++ str_or (text "?") (Json.get (text "questions") w)
  ]

  unfoldable pub narrowing : Json → List Text
  unfolding flag Json.get printed_u64 text
  narrowing w =
      flag (text "--state") (str_of (Json.get (text "state") w))
      ++ flag (text "--context-lines") (printed_u64 (Json.get (text "context_lines") w))
      ++ flag (text "--changed-since") (str_of (Json.get (text "changed_since") w))

  unfoldable pub narrowing_text : Json → Text
  unfolding narrowing join text
  narrowing_text w =
      let flags = narrowing w in if is_empty flags then [] else text " " ++ join (text " ") flags

  -- the command without the file
  unfoldable pub argv_before : ResolveCheck → List Text
  unfolding question_argv narrowing Json.get str_or text
  argv_before check =
      let w = check.with_payload in
      text "musts-jev"
      ∷ (question_argv w
          ++ (text "--ask"
              ∷ str_or (text "?") (Json.get (text "ask") w)
              ∷ text "--expect"
              ∷ str_or (text "yes") (Json.get (text "expect") w)
              ∷ text "--mode"
              ∷ str_or (text "shadow") (Json.get (text "mode") w)
              ∷ [])
          ++ narrowing w)

  unfoldable pub jev_task : ResolveCheck → Bool → ℕ → ℕ → Text → Task
  unfolding argv_before question narrowing_text Json.get str_or text decimal
  jev_task check confirmed_empty file_count i sample =
      let w = check.with_payload in
      let ask = str_or (text "?") (Json.get (text "ask") w) in
      let expect = str_or (text "yes") (Json.get (text "expect") w) in
      let mode = str_or (text "shadow") (Json.get (text "mode") w) in
      record {
        id =
            if file_count == 1
            then text "jev-" ++ env.slug check.id
            else text "jev-" ++ env.slug check.id ++ text "-" ++ decimal (i + 1);
        extension = text "jev";
        title =
            if confirmed_empty
            then text "Ask jev `" ++ ask ++ text "`: nothing changed in scope"
            else text "Ask jev `"
              ++ ask
              ++ text "` about "
              ++ decimal file_count
              ++ text " file(s)";
        satisfies = check.id ∷ [];
        parallelizable = true;
        instructions =
            (text "Run once per file in scope: `musts-jev "
              ++ question w
              ++ text " --ask "
              ++ ask
              ++ text " --expect "
              ++ expect
              ++ text " --mode "
              ++ mode
              ++ narrowing_text w
              ++ text " "
              ++ sample
              ++ text "`")
            ∷ (text
                  "Submit its output. The summary says how many files were judged and how many were not "
                ++ (0xe2 ∷ 0x80 ∷ 0x94 ∷ [])
                ++ text " a green with nothing judged proves nothing.")
            ∷ text "UNSURE is green: this reports what fired, never what is verified."
            ∷ [];
        evidence_contract = record {
          text = record { required = true; description = some (text "The run's summary line.") };
          assets = record { kind = text "log"; required = true; description = none } ∷ [];
        };
        command = some (argv_before check ++ sample ∷ []);
      }

  -- the loop over the samples, from the one with index `i`
  unfoldable pub sample_tasks : ResolveCheck → Bool → ℕ → ℕ → List Text → List Task
  unfolding jev_task
  sample_tasks check confirmed_empty file_count i [] = []
  sample_tasks check confirmed_empty file_count i (sample ∷ samples) =
      jev_task check confirmed_empty file_count i sample
      ∷ sample_tasks check confirmed_empty file_count (suc i) samples

  unfoldable pub check_tasks : ResolveRequest → ResolveCheck → List Task
  unfolding samples_of or_file sample_tasks
  check_tasks request check =
      let (found, confirmed_empty) = samples_of request check in
      let samples = or_file found in sample_tasks check confirmed_empty (length samples) 0 samples

  unfoldable pub tasks_from : ResolveRequest → List ResolveCheck → List Task
  unfolding check_tasks
  tasks_from request [] = []
  tasks_from request (check ∷ checks) = check_tasks request check ++ tasks_from request checks

  unfoldable pub resolve : ResolveRequest → ResolveResponse
  unfolding tasks_from text
  resolve request = record {
    protocol_version = 1;
    tasks = tasks_from request request.checks;
    ignored_checks = [];
    notes =
        text
          "uses: jev records a measured verdict, not an attestation. Its green means \"nothing fired\", never \"verified\"."
        ∷ [];
  }

unfoldable pub evidence : EvidenceValidationRequest → EvidenceValidationResponse
unfolding text
evidence request = record {
  protocol_version = 1;
  accepted = true;
  satisfies = request.task.satisfies;
  summary = some (text "jev verdicts recorded.");
  normalized_assets = [];
  missing = [];
  message = none;
}
