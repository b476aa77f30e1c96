-- ===== src/Evidence/Persist.antt =====
-- `persist_accepted`: what the database and the committed ledger hold once it returns.
use musts.Base.{
  ◌≡◌, refl, sym, ◌∙◌, ap, Bool, true, false, not, ◌||◌, ◌⊎◌, List, [], ◌∷◌, arith, inl, inr,
  Bool-cases,
}
use musts.Base.Order.{◌==◌, ==_iff, nat_ord, pair_ord, list_ord}
use musts.Base.Text.{Text}
use musts.Base.Lists
use musts.Base.Result.{ok, Result-cases}
use musts.Ledger.{LedgerLock, entry, contains, record_entry, save_body}
use musts.Ledger.Laws.{contains-record_entry}
use musts.Ledger.Disk.{MustsDir, contents, load, save}
use musts.Ledger.Disk.RoundTrip.{save-writable, save-lock_file}
use musts.Database.{is_green}
use musts.Database.Laws.{insert_atomic_lem}
use musts.Session.{Session}
use musts.Evidence.Rows.{inserted, inserted-green}
use musts.Evidence.Defs.{
  Env, AcceptedEvidence, evidence_rows, record_all, save_changed, persist_accepted,
}

-- The loop over `record` adds the listed pairs and no others.
pub contains-record_all :
    (cs : List (Text × Text)) (lock : LedgerLock) (c h : Text)
    → contains (record_all cs lock).0 c h ≡ (Lists.contains (entry c h) cs || contains lock c h)
unfolding record_all Lists.contains
contains-record_all [] lock c h = refl
contains-record_all ((check, hash) ∷ cs) lock c h = ground (
  arith,
  contains-record_all cs (record_entry lock check hash).0 c h,
  (contains-record_entry lock check hash c h).0,
)

-- A loop that reports no new entry was given known pairs only.
pub record_all_unchanged :
    (cs : List (Text × Text)) (lock : LedgerLock) (c h : Text)
    → (record_all cs lock).1 ≡ false
    → Lists.contains (entry c h) cs ≡ true
    → contains lock c h ≡ true
unfolding record_all Lists.contains
record_all_unchanged [] lock c h e m = cc
record_all_unchanged ((check, hash) ∷ cs) lock c h e m =
    let (adds, reports) = contains-record_entry lock check hash c h in
    elim (Bool-cases (entry c h == entry check hash)) [
      | inl same ↦
          ap (λ (p : Text × Text). contains lock p.0 p.1)
            ((==_iff (entry c h) (entry check hash)).0 same)
          ∙ known_of reports
      | inr other ↦
          ground (arith, record_all_unchanged cs (record_entry lock check hash).0 c h, adds, other)
    ]
  where
    known_of :
        (record_entry lock check hash).1 ≡ not (contains lock check hash)
        → contains lock check hash ≡ true
    known_of reports = ground (arith, reports)

module _ (env : Env) where
  -- The ledger on disk holds the pair: the file loads to a ledger with it, or it is, byte for byte,
  -- what `save` writes of a ledger with it.
  abbrev pub Recorded : Session → Text → Text → Type 0
  Recorded s c h =
      (lock : LedgerLock) × (contains lock c h ≡ true)
      × ((load env.from_slice s.musts_dir ≡ ok lock)
          ⊎ (s.musts_dir.lock_file ≡ contents (save_body lock)))

  -- the file loads to a ledger with the pair
  abbrev pub Loads : Session → Text → Text → Type 0
  Loads s c h =
      (lock : LedgerLock) × (load env.from_slice s.musts_dir ≡ ok lock) × (contains lock c h ≡ true)

  save_changed-Recorded :
      (cs : List (Text × Text)) (lock : LedgerLock) (s s' : Session) (c h : Text)
      → load env.from_slice s.musts_dir ≡ ok lock
      → save_changed (record_all cs lock) s ≡ (ok tt, s')
      → (Lists.contains (entry c h) cs || contains lock c h) ≡ true
      → Recorded s' c h
  unfolding save_changed
  save_changed-Recorded cs lock s s' c h loads e m = elim (Bool-cases (record_all cs lock).1) [
    | inl new ↦
        let all = (record_all cs lock).0 in
        let written : (save all s.musts_dir).0 ≡ ok tt = ground arith in
        let there : s'.musts_dir ≡ (save all s.musts_dir).1 = ground arith in
        (
          all,
          contains-record_all cs lock c h ∙ m,
          inr (
              ap (λ (d : MustsDir). d.lock_file) there
              ∙ save-lock_file all s.musts_dir (save-writable all s.musts_dir written)),
        )
    | inr old ↦ (
      lock,
      ground (arith, record_all_unchanged cs lock c h),
      inl (ap (λ (t : Session). load env.from_slice t.musts_dir) (unchanged old) ∙ loads),
    )
  ]
    where
      unchanged : (record_all cs lock).1 ≡ false → s' ≡ s
      unchanged old = ground arith

  -- the two steps after the rows are in the database
  pub persist_steps :
      (e : AcceptedEvidence) (s s' : Session)
      → persist_accepted env e s ≡ (ok tt, s')
      → (lock : LedgerLock) × (load env.from_slice s.musts_dir ≡ ok lock)
        × (save_changed (record_all e.checks lock) (inserted env e s) ≡ (ok tt, s'))
  unfolding persist_accepted
  persist_steps e s s' done =
      elim (insert_atomic_lem (evidence_rows env.now_unix true e e.checks) s.db) [
        | inr failed ↦ absurd (ground arith)
        | inl q ↦ elim (Result-cases (load env.from_slice s.musts_dir)) [
          | inr (x, l) ↦ absurd (ground arith)
          | inl (lock, l) ↦ (lock, l, ground arith)
        ]
      ]

  save_changed-db : (p : LedgerLock × Bool) (s : Session) → (save_changed p s).1.db ≡ s.db
  unfolding save_changed
  save_changed-db p s = ground arith

  carried :
      (s : Session) (cs : List (Text × Text)) (lock old : LedgerLock) (c h : Text)
      → load env.from_slice s.musts_dir ≡ ok lock
      → load env.from_slice s.musts_dir ≡ ok old
      → contains old c h ≡ true
      → (Lists.contains (entry c h) cs || contains lock c h) ≡ true
  carried s cs lock old c h loads old_loads has = ground arith

  -- Once `persist_accepted` returns, each of its pairs is green in the database and recorded on
  -- disk, and a pair of the ledger that the file on disk loaded to is still recorded: the file
  -- loads to a ledger with the pair, or is what `save` writes of one.
  pub persist_accepted-Recorded :
      (e : AcceptedEvidence) (s s' : Session) (c h : Text)
      → persist_accepted env e s ≡ (ok tt, s')
      → (Lists.contains (entry c h) e.checks ≡ true → (is_green s'.db c h ≡ true) × Recorded s' c h)
        × (Loads s c h → Recorded s' c h)
  persist_accepted-Recorded e s s' c h done =
      let (lock, loads, saved) = persist_steps e s s' done in
      let recorded = save_changed-Recorded e.checks lock (inserted env e s) s' c h loads saved in
      (
        λ m. (green lock saved m, recorded (ground arith)),
        λ (old, old_loads, old_has).
            recorded (carried s e.checks lock old c h loads old_loads old_has),
      )
    where
      green :
          (lock : LedgerLock)
          → save_changed (record_all e.checks lock) (inserted env e s) ≡ (ok tt, s')
          → Lists.contains (entry c h) e.checks ≡ true
          → is_green s'.db c h ≡ true
      green lock saved m =
          ap (λ d. is_green d c h)
            (sym (ap (λ p. p.1.db) saved)
              ∙ save_changed-db (record_all e.checks lock) (inserted env e s))
          ∙ inserted-green env e s c h m
