-- ===== src/Bazel/Problem.antt =====
-- `invocation_problem` and `no_tests_is_vacuous` (builtin/bazel_bep.rs). The comparison of two canonical
-- paths is a parameter.
use musts.Base.{
  ℕ, zero, suc, Bool, true, false, not, ◌&&◌, ◌||◌, Option, none, some, List, [], ◌∷◌, map,
  if◌then◌else◌, leb,
}
use musts.Base.Order.{◌==◌, nat_ord, list_ord}
use musts.Base.Int.{ℤ}
use musts.Base.Text.{Text, text, strip_prefix, starts_with}
use musts.Base.Lists.{is_empty, all}
use musts.Bazel.{Pattern, parse}
use musts.Bazel.Events.{Invocation}

-- `self.uuid.get(..8).unwrap_or(&self.uuid)`: the eighth byte must end a character.
unfoldable pub take : ℕ → Text → Text
take zero s = []
take (suc n) [] = []
take (suc n) (c ∷ s) = c ∷ take n s

unfoldable pub boundary_at : ℕ → Text → Bool
boundary_at zero [] = true
boundary_at zero (c ∷ s) = not (leb 0x80 c && leb c 0xbf)
boundary_at (suc n) [] = false
boundary_at (suc n) (c ∷ s) = boundary_at n s

unfoldable pub short_uuid : Invocation → Text
unfolding take boundary_at
short_uuid inv = if boundary_at 8 inv.uuid then take 8 inv.uuid else inv.uuid

-- `value.filter(|v| !v.is_empty())`
unfoldable pub filled : Text → Option Text
filled v = if is_empty v then none else some v

unfoldable pub test_filter : List Text → Option Text
unfolding strip_prefix filled text
test_filter [] = none
test_filter (arg ∷ []) = elim (strip_prefix (text "--test_filter=") arg) [
  | some v ↦ filled v
  | none ↦ none
]
test_filter (arg ∷ next ∷ args) = elim (strip_prefix (text "--test_filter=") arg) [
  | some v ↦ elim (filled v) [ some f ↦ some f | none ↦ test_filter (next ∷ args) ]
  | none ↦ elim (arg == text "--test_filter") [
    | true ↦ elim (filled next) [ some f ↦ some f | none ↦ test_filter args ]
    | false ↦ test_filter (next ∷ args)
  ]
]

pub data InvocationProblem : Type 0 where
  incomplete : InvocationProblem
  not_a_test elsewhere filtered patterns_failed : Text → InvocationProblem

-- `same_dir(workspace_directory, workspace_root)` is the parameter `in_workspace`.
unfoldable pub invocation_problem : (Text → Bool) → Invocation → Option InvocationProblem
unfolding test_filter text
invocation_problem in_workspace inv =
    if not inv.last_message_seen || not inv.finished
    then some InvocationProblem.incomplete
    else if not (inv.command == text "test")
    then some (InvocationProblem.not_a_test inv.command)
    else if not (in_workspace inv.workspace_directory)
    then some (InvocationProblem.elsewhere inv.workspace_directory)
    else elim (test_filter inv.cmd_line) [
      | some f ↦ some (InvocationProblem.filtered f)
      | none ↦ elim inv.patterns_aborted [
        | some reason ↦ some (InvocationProblem.patterns_failed reason)
        | none ↦ none
      ]
    ]

-- `NO_TESTS_FOUND_EXIT`
abbrev pub no_tests_found_exit : ℤ
no_tests_found_exit = ℤ.pos 4

-- `trim_start_matches('-')`
unfoldable pub drop_dashes : Text → Text
drop_dashes [] = []
drop_dashes (c ∷ s) = let rest = drop_dashes s in if c == 45 then rest else c ∷ s

unfoldable pub is_wildcard : Text → Bool
unfolding parse
is_wildcard t = elim (parse t) [
  | none ↦ false
  | some (Pattern.label l) ↦ false
  | some (Pattern.recursive r) ↦ true
  | some (Pattern.in_package p) ↦ true
]

-- `take_while(|a| !a.starts_with("--"))`
unfoldable pub before_options : List Text → List Text
unfolding starts_with text
before_options [] = []
before_options (a ∷ args) =
    let rest = before_options args in if starts_with (text "--") a then [] else a ∷ rest

unfoldable pub skip_two : List Text → List Text
skip_two (a ∷ b ∷ args) = args
skip_two _ = []

unfoldable pub is_exit : Option ℤ → Bool
is_exit (some (ℤ.pos n)) = n == 4
is_exit _ = false

unfoldable pub no_tests_is_vacuous : List Text → Option ℤ → Bool
unfolding is_exit before_options skip_two drop_dashes is_wildcard all
no_tests_is_vacuous argv code =
    let targets = map drop_dashes (before_options (skip_two argv)) in
    is_exit code && not (is_empty targets) && all is_wildcard targets
