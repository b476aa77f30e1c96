-- ===== src/Builtin/Jev/Samples.antt =====
-- Which files the tasks of `jev` judge.
use musts.Base.{
  ℕ, suc, ◌≡◌, ◌≢◌, refl, ap, ◌⊎◌, inl, inr, Option, none, some, List, [], ◌∷◌, ◌++◌, arith, Bool,
  Bool-cases, Option-cases,
}
use musts.Base.Text.{Text, text}
use musts.Base.Lists.{filter, find, length}
use musts.Json
use musts.Json.{str_or}
use musts.Protocol.{Task, ResolveCheck, ResolveRequest}
use musts.Builtin.Jev.{
  JevEnv, scope_dir, in_folder, str_of, take_one, or_file, choose_samples, files_in_scope,
  git_answer, samples_of, argv_before, jev_task, sample_tasks, check_tasks,
}

-- The first of the elements that are kept is the first element with the property.
take_one-filter-some :
    (p : Text → Bool) (xs : List Text) (f : Text)
    → find p xs ≡ some f
    → take_one (filter p xs) ≡ f ∷ []
unfolding filter find
take_one-filter-some p [] f h = cc
take_one-filter-some p (x ∷ xs) f h = elim (Bool-cases (p x)) [
  | inl e ↦ ground (arith, e, h)
  | inr e ↦ rw e (take_one-filter-some p xs f (ground (arith, e, h)))
]

take_one-filter-none :
    (p : Text → Bool) (xs : List Text)
    → find p xs ≡ none
    → Path (List Text) (take_one (filter p xs)) []
unfolding filter find
take_one-filter-none p [] h = refl
take_one-filter-none p (x ∷ xs) h = elim (Bool-cases (p x)) [
  | inl e ↦ absurd (ground (arith, e, h))
  | inr e ↦ rw e (take_one-filter-none p xs (ground (arith, e, h)))
]

module _ (env : JevEnv) (request : ResolveRequest) (check : ResolveCheck) where
  -- what git is asked for the check, and answers
  abbrev pub answer : Option (List Text)
  unfolding text
  answer =
      git_answer env request.workspace_root
        (str_or (text "file") (Json.get (text "state") check.with_payload))
        (str_of (Json.get (text "changed_since") check.with_payload)) (scope_dir check.scope_path)

  -- git is not asked or fails, or it names no file
  abbrev pub NamesNone : Type 0
  NamesNone = (answer ≡ none) ⊎ (answer ≡ some [])

  -- the first changed file of the request in the folder of the check
  abbrev pub first_changed : Option Text
  first_changed =
      find (in_folder (env.to_lowercase (scope_dir check.scope_path))) request.changed_files

  -- The files to judge: those that git names, if it names one; or else the first changed file in the
  -- folder; or else, if there is none, the text for no file.
  abbrev pub AreJudged : List Text → Type 0
  unfolding text
  AreJudged files =
      ((answer ≡ some files) × (files ≢ []))
      ⊎ ((NamesNone × (f : Text) × (first_changed ≡ some f) × (files ≡ f ∷ []))
          ⊎ (NamesNone × (first_changed ≡ none) × (files ≡ text "<file>" ∷ [])))

  -- One task for each file, in their order: it satisfies the check alone, and its command is that of
  -- the check with the file as its last argument.
  abbrev pub AreTasks : List Text → List Task → Type 0
  AreTasks [] [] = Unit {0}
  AreTasks [] (t ∷ ts) = ⊥
  AreTasks (f ∷ fs) [] = ⊥
  AreTasks (f ∷ fs) (t ∷ ts) =
      (t.satisfies ≡ check.id ∷ [])
      × (t.command ≡ some (argv_before env check ++ f ∷ []))
      × AreTasks fs ts

  in_scope : List Text
  in_scope = files_in_scope env request.changed_files (scope_dir check.scope_path)

  single-AreJudged : NamesNone → AreJudged (or_file (take_one in_scope))
  unfolding in_scope files_in_scope or_file AreJudged text
  single-AreJudged names_none = elim (Option-cases first_changed) [
    | inr (f, found) ↦ inr (inl (names_none, f, found, ap or_file (kept f found)))
    | inl missing ↦ inr (inr (names_none, missing, ap or_file (dropped missing)))
  ]
    where
      kept : (f : Text) → first_changed ≡ some f → take_one in_scope ≡ f ∷ []
      kept f found = take_one-filter-some _ request.changed_files f found

      dropped : first_changed ≡ none → Path (List Text) (take_one in_scope) []
      dropped missing = take_one-filter-none _ request.changed_files missing

  chosen-AreJudged :
      (given : Option (List Text))
      → answer ≡ given
      → AreJudged (or_file (choose_samples given in_scope).0)
  unfolding choose_samples or_file
  chosen-AreJudged none e = single-AreJudged (inl e)
  chosen-AreJudged (some []) e = single-AreJudged (inr e)
  chosen-AreJudged (some (g ∷ gs)) e = inl (e, λ q. cc)

  samples_of-AreJudged : AreJudged (or_file (samples_of env request check).0)
  unfolding samples_of in_scope text
  samples_of-AreJudged = chosen-AreJudged answer refl

  sample_tasks-AreTasks :
      (confirmed : Bool) (count i : ℕ) (samples : List Text)
      → AreTasks samples (sample_tasks env check confirmed count i samples)
  unfolding sample_tasks jev_task
  sample_tasks-AreTasks confirmed count i [] = tt
  sample_tasks-AreTasks confirmed count i (sample ∷ samples) =
      (refl, refl, sample_tasks-AreTasks confirmed count (suc i) samples)

  -- The tasks for a check are one for each file to judge, in their order; each satisfies that check
  -- alone, and its command ends with its file. Where git is asked and names a file, the files are
  -- those that git names. Where it is not asked, fails or names none, there is one file: the first
  -- changed file of the request in the folder of the check, or, without any, the text `<file>`.
  pub check_tasks-AreJudged :
      (files : List Text) × AreJudged files × AreTasks files (check_tasks env request check)
  unfolding check_tasks
  check_tasks-AreJudged = (
    or_file (samples_of env request check).0,
    samples_of-AreJudged,
    sample_tasks-AreTasks (samples_of env request check).1
        (length (or_file (samples_of env request check).0)) 0
        (or_file (samples_of env request check).0),
  )
