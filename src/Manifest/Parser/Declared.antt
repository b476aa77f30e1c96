-- ===== src/Manifest/Parser/Declared.antt =====
-- A parsed manifest against the entries that the file declares.
use musts.Base.{
  ◌≡◌, ◌∙◌, ap, subst, ℕ, suc, ◌+◌, true, false, some, List, [], ◌++◌, inl, inr, arith, Bool-cases,
  Option-cases,
}
use musts.Base.Order.{◌==◌, ==_iff, nat_ord, list_ord}
use musts.Base.Text.{Text}
use musts.Base.Lists.{length}
use musts.Base.Map.{
  BTreeMap, IsSorted, insert, get, contains_key, get-insert, insert-IsSorted, get-insert_self,
  length-insert_new,
}
use musts.Manifest.Yaml.{Yaml, Mapping, as_str}
use musts.Manifest.Keys.{ManifestWarning}
use musts.Manifest.Parser.{
  Manifest, ManifestFile, Libraries, parse_check, check_warnings, parse_checks, parse_file, parse,
  top_warnings,
}
use musts.Validate.Scope.{RelPath, Check}
use musts.Manifest.Parser.Patterns.{Sum-cases, IsCheck, parse_check-IsCheck}

get-insert_kept :
    (id j : Text) (check other : Check) (m : BTreeMap Text Check)
    → get id m ≡ some check
    → contains_key j m ≡ false
    → get id (insert j other m) ≡ some check
get-insert_kept id j check other m h k = rw (get-insert id j other m) (elim (Bool-cases (id == j)) [
  | inl e ↦ ground (arith, h, k, ap (λ x. get x m) ((==_iff id j).0 e))
  | inr e ↦ rw e h
])

unfoldable pub entries : Mapping → ℕ
entries Mapping.end = 0
entries (Mapping.entry key value rest) = suc (entries rest)

module _ (libraries : Libraries) where
  -- An entry of `checks:` has the check that it declares under its key.
  abbrev pub IsRead : Yaml → Yaml → BTreeMap Text Check → Type 0
  IsRead key value checks =
      (id : Text) × (check : Check) × (as_str key ≡ some id)
      × (parse_check libraries id value ≡ inr check)
      × (get id checks ≡ some check)
      × IsCheck libraries id check

  abbrev pub AllRead : Mapping → BTreeMap Text Check → Type 0
  AllRead Mapping.end checks = Unit {0}
  AllRead (Mapping.entry key value rest) checks = IsRead key value checks × AllRead rest checks

  -- what an entry of the loop does, where the loop succeeds
  parse_checks-entry :
      (key value : Yaml) (rest : Mapping) (checks : BTreeMap Text Check) (w : List ManifestWarning)
      (r : BTreeMap Text Check × List ManifestWarning)
      → parse_checks libraries (Mapping.entry key value rest) checks w ≡ inr r
      → (id : Text) × (check : Check) × (as_str key ≡ some id)
        × (parse_check libraries id value ≡ inr check)
        × (contains_key id checks ≡ false)
        × (parse_checks libraries rest
              (insert id check checks)
              (w ++ check_warnings libraries id value)
            ≡ inr r)
  unfolding parse_checks
  parse_checks-entry key value rest checks w r h = elim (Option-cases (as_str key)) [
    | inl e ↦ ground (arith, e, h)
    | inr (id, e) ↦ elim (Sum-cases (parse_check libraries id value)) [
      | inl (problem, f) ↦ ground (arith, e, f, h)
      | inr (check, f) ↦ elim (Bool-cases (contains_key id checks)) [
        | inl g ↦ ground (arith, e, f, g, h)
        | inr g ↦ (id, check, e, f, g, ground (arith, e, f, g, h))
      ]
    ]
  ]

  -- An id that has a check keeps it.
  parse_checks-get :
      (m : Mapping) (checks : BTreeMap Text Check) (w : List ManifestWarning)
      (r : BTreeMap Text Check × List ManifestWarning) (id : Text) (check : Check)
      → parse_checks libraries m checks w ≡ inr r
      → get id checks ≡ some check
      → get id r.0 ≡ some check
  unfolding parse_checks
  parse_checks-get Mapping.end checks w r id check h k = ground (arith, h, k)
  parse_checks-get (Mapping.entry key value rest) checks w r id check h k =
      let (j, c, e, f, g, next) = parse_checks-entry key value rest checks w r h in
      parse_checks-get rest (insert j c checks) (w ++ check_warnings libraries j value) r id check
        next (get-insert_kept id j check c checks k g)

  parse_checks-AllRead :
      (m : Mapping) (checks : BTreeMap Text Check) (w : List ManifestWarning)
      (r : BTreeMap Text Check × List ManifestWarning)
      → parse_checks libraries m checks w ≡ inr r
      → AllRead m r.0
  parse_checks-AllRead Mapping.end checks w r h = tt
  parse_checks-AllRead (Mapping.entry key value rest) checks w r h =
      let (id, c, e, f, g, next) = parse_checks-entry key value rest checks w r h in
      (
        (
          id,
          c,
          e,
          f,
          parse_checks-get rest (insert id c checks) (w ++ check_warnings libraries id value) r id c
              next (get-insert_self id c checks),
          parse_check-IsCheck libraries id value c f,
        ),
        parse_checks-AllRead rest (insert id c checks) (w ++ check_warnings libraries id value) r
            next,
      )

  end-checks :
      (checks : BTreeMap Text Check) (w : List ManifestWarning)
      (r : BTreeMap Text Check × List ManifestWarning)
      → parse_checks libraries Mapping.end checks w ≡ inr r
      → checks ≡ r.0
  unfolding parse_checks
  end-checks checks w r h = ground arith

  parse_checks-IsSorted :
      (m : Mapping) (checks : BTreeMap Text Check) (w : List ManifestWarning)
      (r : BTreeMap Text Check × List ManifestWarning)
      → parse_checks libraries m checks w ≡ inr r
      → IsSorted checks
      → IsSorted r.0
  unfolding parse_checks
  parse_checks-IsSorted Mapping.end checks w r h s =
      subst (λ (x : BTreeMap Text Check). IsSorted x) (end-checks checks w r h) s
  parse_checks-IsSorted (Mapping.entry key value rest) checks w r h s =
      let (id, c, e, f, g, next) = parse_checks-entry key value rest checks w r h in
      parse_checks-IsSorted rest (insert id c checks) (w ++ check_warnings libraries id value) r
        next (insert-IsSorted id c checks s)

  parse_checks-length :
      (m : Mapping) (checks : BTreeMap Text Check) (w : List ManifestWarning)
      (r : BTreeMap Text Check × List ManifestWarning)
      → parse_checks libraries m checks w ≡ inr r
      → length r.0 ≡ length checks + entries m
  unfolding parse_checks entries
  parse_checks-length Mapping.end checks w r h = omega (arith, ap length (end-checks checks w r h))
  parse_checks-length (Mapping.entry key value rest) checks w r h =
      let (id, c, e, f, g, next) = parse_checks-entry key value rest checks w r h in
      omega (
        arith,
        parse_checks-length rest (insert id c checks) (w ++ check_warnings libraries id value) r
            next,
        length-insert_new id c checks g,
      )

  -- `manifest` holds what `file` declares, and nothing else.
  abbrev pub IsManifest : ManifestFile → Manifest → Type 0
  IsManifest file manifest =
      (manifest.version ≡ 1)
      × (file.version ≡ 1)
      × AllRead file.checks manifest.checks
      × (length manifest.checks ≡ entries file.checks)
      × IsSorted manifest.checks

  parse_file-IsManifest :
      (path : RelPath) (bytes : Text) (file : ManifestFile) (manifest : Manifest)
      → parse_file libraries path bytes file ≡ inr manifest
      → IsManifest file manifest
  unfolding parse_file
  parse_file-IsManifest path bytes file manifest h = elim (Bool-cases (file.version == 1)) [
    | inr e ↦ ground (arith, e, h)
    | inl e ↦
        elim (Sum-cases (parse_checks libraries file.checks [] (top_warnings libraries bytes))) [
          | inl (problem, f) ↦ ground (arith, e, f, h)
          | inr (r, f) ↦ subst (IsManifest file) (built path bytes file manifest r e f h) (
            (==_iff file.version 1).0 e,
            (==_iff file.version 1).0 e,
            parse_checks-AllRead file.checks [] (top_warnings libraries bytes) r f,
            parse_checks-length file.checks [] (top_warnings libraries bytes) r f ∙ omega arith,
            parse_checks-IsSorted file.checks [] (top_warnings libraries bytes) r f tt,
          )
        ]
  ]
    where
      built :
          (path : RelPath) (bytes : Text) (file : ManifestFile) (manifest : Manifest)
          (r : BTreeMap Text Check × List ManifestWarning)
          → (file.version == 1) ≡ true
          → parse_checks libraries file.checks [] (top_warnings libraries bytes) ≡ inr r
          → parse_file libraries path bytes file ≡ inr manifest
          → record { path = path; version = file.version; checks = r.0; warnings = r.1 } ≡ manifest
      built path bytes file manifest r e f h = ground (arith, e, f, h)

  -- Where `parse` succeeds, the file could be read at version 1; each entry of `checks:` has a string
  -- key, under which the manifest has the check that the entry declares, with that key as its id and
  -- with patterns that are globs, not blank, and without a leading `!`; and there are as many checks as
  -- entries, in the order of their ids.
  pub parse-IsManifest :
      (path : RelPath) (bytes : Text) (manifest : Manifest)
      → parse libraries path bytes ≡ inr manifest
      → (file : ManifestFile) × (libraries.manifest_file bytes ≡ some file)
        × IsManifest file manifest
  unfolding parse
  parse-IsManifest path bytes manifest h = elim (Option-cases (libraries.manifest_file bytes)) [
    | inl e ↦ ground (arith, e, h)
    | inr (file, e) ↦
        (file, e, parse_file-IsManifest path bytes file manifest (ground (arith, e, h)))
  ]
