-- ===== src/Validate/Tasks/Storage.antt =====
-- `persist_tasks`: all of the tasks or none.
use musts.Base.{
  ℕ, ◌≡◌, refl, ◌∙◌, ap, Bool, true, false, ◌||◌, Option, none, some, List, [], ◌∷◌, map, arith,
  if◌then◌else◌, Bool-cases, ◌⊎◌, inl, inr,
}
use musts.Base.Order.{◌==◌, ==_iff, nat_ord, list_ord}
use musts.Base.Text.{Text}
use musts.Base.Lists
use musts.Base.Map.{BTreeMap, insert, get, contains_key, get-insert}
use musts.Base.Result.{ok, err, db}
use musts.Database.{StoredTask, Db, fetch_task}
use musts.Validate.Tasks.{
  PersistedTask, CapabilityNote, stored_row, insert_tasks, commit_tasks, persist_tasks,
}

-- two tasks of one id
unfoldable pub has_repeat : List PersistedTask → Bool
unfolding Lists.contains
has_repeat [] = false
has_repeat (t ∷ ts) = Lists.contains t.id (map (λ u. u.id) ts) || has_repeat ts

-- the row of the task of this id
unfoldable pub row_of : ℕ → Text → List PersistedTask → Option StoredTask
row_of now id [] = none
row_of now id (t ∷ ts) = if id == t.id then some (stored_row now t) else row_of now id ts

abbrev known : BTreeMap Text StoredTask → List PersistedTask → Bool
known table [] = false
known table (t ∷ ts) = contains_key t.id table || known table ts

known-insert :
    (now : ℕ) (t : PersistedTask) (ts : List PersistedTask) (table : BTreeMap Text StoredTask)
    → known (insert t.id (stored_row now t) table) ts
      ≡ (Lists.contains t.id (map (λ u. u.id) ts) || known table ts)
unfolding Lists.contains
known-insert now t [] table = refl
known-insert now t (u ∷ ts) table = ground (
  arith,
  known-insert now t ts table,
  get-insert u.id t.id (stored_row now t) table,
  ==_iff u.id t.id,
  ==_iff t.id u.id,
)

-- The rows go in exactly where no id is there twice, and no id is there already.
insert_tasks-fails :
    (now : ℕ) (ts : List PersistedTask) (table : BTreeMap Text StoredTask)
    → (has_repeat ts || known table ts) ≡ true
    → insert_tasks now ts table ≡ none
unfolding insert_tasks has_repeat
insert_tasks-fails now [] table h = ground arith
insert_tasks-fails now (t ∷ ts) table h = ground (
  arith,
  insert_tasks-fails now ts (insert t.id (stored_row now t) table),
  known-insert now t ts table,
)

row_of-none :
    (now : ℕ) (id : Text) (ts : List PersistedTask)
    → Lists.contains id (map (λ u. u.id) ts) ≡ false
    → row_of now id ts ≡ none
unfolding row_of Lists.contains
row_of-none now id [] h = refl
row_of-none now id (t ∷ ts) h = ground (arith, row_of-none now id ts)

insert_tasks-finds :
    (now : ℕ) (ts : List PersistedTask) (table : BTreeMap Text StoredTask)
    → (has_repeat ts || known table ts) ≡ false
    → (final : BTreeMap Text StoredTask) × (insert_tasks now ts table ≡ some final)
      × ((id : Text)
          → get id final ≡ elim (row_of now id ts) [ none ↦ get id table | some r ↦ some r ])
unfolding insert_tasks has_repeat row_of
insert_tasks-finds now [] table h = (table, refl, λ id. refl)
insert_tasks-finds now (t ∷ ts) table h =
    let below =
      insert_tasks-finds now ts (insert t.id (stored_row now t) table)
        (ground (arith, h, known-insert now t ts table)) in
    (
      below.0,
      ground (arith, h, below.1),
      λ id.
          below.2 id
          ∙ first id (elim (Bool-cases (id == t.id)) [
            | inl same ↦ ground (
              arith,
              ap (λ x. Lists.contains x (map (λ u. u.id) ts)) ((==_iff id t.id).0 same),
              row_of-none now id ts,
              h,
            )
            | inr other ↦ ground (arith, other)
          ]),
    )
  where
    first :
        (id : Text)
        → ((id == t.id) ≡ true → row_of now id ts ≡ none)
        → (elim (row_of now id ts) [
          | none ↦ get id (insert t.id (stored_row now t) table)
          | some r ↦ some r
        ])
          ≡ (elim (if id == t.id then some (stored_row now t) else row_of now id ts) [
            | none ↦ get id table
            | some r ↦ some r
          ])
    first id alone = ground (arith, alone, get-insert id t.id (stored_row now t) table)

known-empty : (ts : List PersistedTask) → known [] ts ≡ false
unfolding get
known-empty [] = refl
known-empty (t ∷ ts) = known-empty ts

-- A run's tasks are stored where their ids differ, each under its id, and no task of an earlier run
-- is left. Where an id is there twice, storing them is an error of the database, which stays as it
-- was.
pub persist_tasks-cases :
    (tasks : List PersistedTask) (notes : List CapabilityNote) (now : ℕ) (d : Db)
    → ((has_repeat tasks ≡ false)
        × ((persist_tasks tasks notes now d).0 ≡ ok tt)
        × ((id : Text) → fetch_task id (persist_tasks tasks notes now d).1 ≡ row_of now id tasks)
        × ((persist_tasks tasks notes now d).1.evidence_records ≡ d.evidence_records))
      ⊎ ((has_repeat tasks ≡ true) × (persist_tasks tasks notes now d ≡ (err db, d)))
unfolding persist_tasks fetch_task get
persist_tasks-cases tasks notes now d = elim (Bool-cases (has_repeat tasks)) [
  | inl repeat ↦ inr (
    repeat,
    ap (λ r. commit_tasks now notes r d) (insert_tasks-fails now tasks [] (ground (arith, repeat))),
  )
  | inr distinct ↦
      let (final, inserted, rows) =
        insert_tasks-finds now tasks [] (ground (arith, distinct, known-empty tasks)) in
      inl (
        distinct,
        ap (λ r. (commit_tasks now notes r d).0) inserted,
        λ id.
            ap (λ r. get id (commit_tasks now notes r d).1.tasks) inserted
            ∙ rows id
            ∙ row_or_none (row_of now id tasks),
        ap (λ r. (commit_tasks now notes r d).1.evidence_records) inserted,
      )
]
  where
    row_or_none : (r : Option StoredTask) → (elim r [ none ↦ none | some x ↦ some x ]) ≡ r
    row_or_none none = refl
    row_or_none (some x) = refl
