-- ===== src/Evidence/Reload.antt =====
-- The committed ledger after `persist_accepted`, as the next `load` reads it.
use musts.Base.{◌≡◌, refl, ◌∙◌, ap, true, false, ◌||◌, List, [], ◌∷◌, arith, inl, inr, Bool-cases}
use musts.Base.Order.{nat_ord, pair_ord, list_ord}
use musts.Base.Text.{Text}
use musts.Base.Lists
use musts.Base.Map.{IsSorted}
use musts.Base.Result.{ok}
use musts.Ledger.{LedgerLock, entry, contains, record_entry}
use musts.Ledger.Laws.{record_entry-IsSorted}
use musts.Ledger.Disk.{load, save}
use musts.Ledger.Disk.Parser.{IsLedgerParser, load-valid}
use musts.Ledger.Disk.Plain.{AllStorable}
use musts.Ledger.Disk.RoundTrip.{load-save, save-writable}
use musts.Session.{Session}
use musts.Evidence.Rows.{inserted}
use musts.Evidence.Defs.{Env, AcceptedEvidence, record_all, save_changed, persist_accepted}
use musts.Evidence.Persist.{Loads, contains-record_all, record_all_unchanged, persist_steps}

record_all-IsSorted :
    (cs : List (Text × Text)) (lock : LedgerLock)
    → IsSorted lock.satisfied
    → IsSorted (record_all cs lock).0.satisfied
unfolding record_all
record_all-IsSorted [] lock s = s
record_all-IsSorted ((check, hash) ∷ cs) lock s =
    record_all-IsSorted cs (record_entry lock check hash).0
      (record_entry-IsSorted lock check hash s)

record_all-version :
    (cs : List (Text × Text)) (lock : LedgerLock) → (record_all cs lock).0.version ≡ lock.version
unfolding record_all record_entry
record_all-version [] lock = refl
record_all-version ((check, hash) ∷ cs) lock =
    record_all-version cs (record_entry lock check hash).0

module _ (env : Env) where
  save_changed-Loads :
      (parser : IsLedgerParser env.from_slice) (cs : List (Text × Text)) (lock : LedgerLock)
      (s s' : Session) (c h : Text)
      → load env.from_slice s.musts_dir ≡ ok lock
      → AllStorable (record_all cs lock).0
      → save_changed (record_all cs lock) s ≡ (ok tt, s')
      → (Lists.contains (entry c h) cs || contains lock c h) ≡ true
      → Loads env s' c h
  unfolding save_changed
  save_changed-Loads parser cs lock s s' c h loads storable e m =
      elim (Bool-cases (record_all cs lock).1) [
        | inl new ↦
            let all = (record_all cs lock).0 in
            let valid = load-valid env.from_slice s.musts_dir lock parser loads in
            let written : (save all s.musts_dir).0 ≡ ok tt = ground arith in
            let there : s'.musts_dir ≡ (save all s.musts_dir).1 = ground arith in
            (
              all,
              ap (load env.from_slice) there
                  ∙ (load-save env.from_slice all s.musts_dir parser
                      (record_all-IsSorted cs lock valid.0) storable
                      (record_all-version cs lock ∙ valid.1)
                      (save-writable all s.musts_dir written)).1,
              contains-record_all cs lock c h ∙ m,
            )
        | inr old ↦ (
          lock,
          ap (λ (t : Session). load env.from_slice t.musts_dir) (unchanged old) ∙ loads,
          ground (arith, record_all_unchanged cs lock c h),
        )
      ]
    where
      unchanged : (record_all cs lock).1 ≡ false → s' ≡ s
      unchanged old = ground arith

  -- Where the YAML parser reads the lines that `save` writes in printable ASCII, and the pairs of
  -- the ledger on disk and those that are accepted are of printable ASCII, tabs, line feeds and
  -- carriage returns: once `persist_accepted` returns, the ledger on disk loads, and it holds each
  -- accepted pair and each pair that it held before.
  pub persist_accepted-Loads :
      (parser : IsLedgerParser env.from_slice) (e : AcceptedEvidence) (s s' : Session) (c h : Text)
      → ((lock : LedgerLock)
          → load env.from_slice s.musts_dir ≡ ok lock
          → AllStorable (record_all e.checks lock).0)
      → persist_accepted env e s ≡ (ok tt, s')
      → (Lists.contains (entry c h) e.checks ≡ true → Loads env s' c h)
        × (Loads env s c h → Loads env s' c h)
  persist_accepted-Loads parser e s s' c h storable done =
      let (lock, loads, saved) = persist_steps env e s s' done in
      let there =
        save_changed-Loads parser e.checks lock (inserted env e s) s' c h loads
          (storable lock loads) saved in
      (
        λ m. there (ground arith),
        λ (old, old_loads, old_has). there (carried lock old loads old_loads old_has),
      )
    where
      carried :
          (lock old : LedgerLock)
          → load env.from_slice s.musts_dir ≡ ok lock
          → load env.from_slice s.musts_dir ≡ ok old
          → contains old c h ≡ true
          → (Lists.contains (entry c h) e.checks || contains lock c h) ≡ true
      carried lock old loads old_loads has = ground arith
