-- ===== src/Validate/Run/Rerun.antt =====
-- A run reads evidence and never writes it, and it asks for the checks that have none.
use mathlib.Core.List.{append-nil, append_assoc}
use musts.Base.{
  ℕ, ◌≡◌, refl, sym, ◌∙◌, ap, subst, ◌&&◌, List, [], ◌∷◌, ◌++◌, arith, inl, inr, Bool-cases,
}
use musts.Base.Order.{◌==◌, ==_iff, nat_ord, list_ord}
use musts.Base.Text.{Text}
use musts.Base.Lists.{filter}
use musts.Base.Map.{BTreeMap, insert, get, get-insert}
use musts.Base.Result.{Error, ok, err, Result-cases}
use musts.Database.{upsert_fingerprint}
use musts.Session.{Session}
use musts.Validate.Files.{WalkedFile, Inputs, add_file, add_files, compute_scope_file_inputs}
use musts.Validate.Files.Collision.{no_inputs}
use musts.Validate.Tasks.{PreparedCheck}
use musts.Validate.Run.{or_empty, group_by_capability}

-- The evidence, the stored tasks and the ledger on disk are the same.
pub record Keeps (s s' : Session) : Type 0 where
  pub evidence_records : s'.db.evidence_records ≡ s.db.evidence_records
  pub tasks : s'.db.tasks ≡ s.db.tasks
  pub musts_dir : s'.musts_dir ≡ s.musts_dir

pub same-Keeps : {s s' : Session} → s' ≡ s → Keeps s s'
same-Keeps e = record {
  evidence_records = ap (λ (t : Session). t.db.evidence_records) e;
  tasks = ap (λ (t : Session). t.db.tasks) e;
  musts_dir = ap (λ (t : Session). t.musts_dir) e;
}

pub Keeps-trans : {s t u : Session} → Keeps s t → Keeps t u → Keeps s u
Keeps-trans h k = record {
  evidence_records = k.evidence_records ∙ h.evidence_records;
  tasks = k.tasks ∙ h.tasks;
  musts_dir = k.musts_dir ∙ h.musts_dir;
}

-- Nothing but the cache of fingerprints differs.
pub record WritesCache (s s' : Session) : Type 0 where
  pub evidence_records : s'.db.evidence_records ≡ s.db.evidence_records
  pub tasks : s'.db.tasks ≡ s.db.tasks
  pub scope_snapshots : s'.db.scope_snapshots ≡ s.db.scope_snapshots
  pub resolve_notes : s'.db.resolve_notes ≡ s.db.resolve_notes
  pub musts_dir : s'.musts_dir ≡ s.musts_dir

pub same-WritesCache : {s s' : Session} → s' ≡ s → WritesCache s s'
same-WritesCache e = record {
  evidence_records = ap (λ (t : Session). t.db.evidence_records) e;
  tasks = ap (λ (t : Session). t.db.tasks) e;
  scope_snapshots = ap (λ (t : Session). t.db.scope_snapshots) e;
  resolve_notes = ap (λ (t : Session). t.db.resolve_notes) e;
  musts_dir = ap (λ (t : Session). t.musts_dir) e;
}

WritesCache-trans : {s t u : Session} → WritesCache s t → WritesCache t u → WritesCache s u
WritesCache-trans h k = record {
  evidence_records = k.evidence_records ∙ h.evidence_records;
  tasks = k.tasks ∙ h.tasks;
  scope_snapshots = k.scope_snapshots ∙ h.scope_snapshots;
  resolve_notes = k.resolve_notes ∙ h.resolve_notes;
  musts_dir = k.musts_dir ∙ h.musts_dir;
}

module _ (normalise : Text → Text) (now : ℕ) where
  add_file-WritesCache :
      (f : WalkedFile) (inputs : Inputs) (s : Session)
      → WritesCache s (add_file normalise now f inputs s).1
  unfolding add_file upsert_fingerprint
  add_file-WritesCache f inputs s = record {
    evidence_records = ground arith;
    tasks = ground arith;
    scope_snapshots = ground arith;
    resolve_notes = ground arith;
    musts_dir = ground arith;
  }

  add_files-WritesCache :
      (fs : List WalkedFile) (inputs : Inputs) (s : Session)
      → WritesCache s (add_files normalise now fs inputs s).1
  unfolding add_files
  add_files-WritesCache [] inputs s = same-WritesCache refl
  add_files-WritesCache (f ∷ fs) inputs s =
      elim (Result-cases (add_file normalise now f inputs s).0) [
        | inl (more, r) ↦ subst (WritesCache s) (sym (next more r)) (
            WritesCache-trans (add_file-WritesCache f inputs s)
              (add_files-WritesCache fs more (add_file normalise now f inputs s).1))
        | inr (x, r) ↦ subst (WritesCache s) (sym (stops x r)) (add_file-WritesCache f inputs s)
      ]
    where
      next :
          (more : Inputs)
          → (add_file normalise now f inputs s).0 ≡ ok more
          → (add_files normalise now (f ∷ fs) inputs s).1
            ≡ (add_files normalise now fs more (add_file normalise now f inputs s).1).1
      next more r = ground (arith, r)

      stops :
          (x : Error)
          → (add_file normalise now f inputs s).0 ≡ err x
          → (add_files normalise now (f ∷ fs) inputs s).1 ≡ (add_file normalise now f inputs s).1
      stops x r = ground (arith, r)

  pub compute_scope_file_inputs-WritesCache :
      (fs : List WalkedFile) (s : Session)
      → WritesCache s (compute_scope_file_inputs normalise now fs s).1
  unfolding compute_scope_file_inputs
  compute_scope_file_inputs-WritesCache fs s =
      subst (WritesCache s) (sym same) (add_files-WritesCache fs no_inputs s)
    where
      same :
          (compute_scope_file_inputs normalise now fs s).1
          ≡ (add_files normalise now fs no_inputs s).1
      same = ground arith

  pub compute_scope_file_inputs-Keeps :
      (fs : List WalkedFile) (s : Session)
      → Keeps s (compute_scope_file_inputs normalise now fs s).1
  compute_scope_file_inputs-Keeps fs s =
      let w = compute_scope_file_inputs-WritesCache fs s in
      record { evidence_records = w.evidence_records; tasks = w.tasks; musts_dir = w.musts_dir }

abbrev pushed :
    PreparedCheck → BTreeMap Text (List PreparedCheck) → BTreeMap Text (List PreparedCheck)
pushed c groups = insert c.capability (or_empty (get c.capability groups) ++ c ∷ []) groups

-- For each capability, the grouping adds to what the groups held the dirty checks of the
-- capability, in their order, and no others.
pub group_by_capability_lem :
    (cs : List PreparedCheck) (groups : BTreeMap Text (List PreparedCheck)) (capability : Text)
    → or_empty (get capability (group_by_capability cs groups))
      ≡ or_empty (get capability groups) ++ filter (λ c. c.dirty && c.capability == capability) cs
unfolding group_by_capability filter
group_by_capability_lem [] groups capability = sym (append-nil (or_empty (get capability groups)))
group_by_capability_lem (c ∷ cs) groups capability =
    elim (Bool-cases (c.dirty && c.capability == capability)) [
      | inl mine ↦
          let same = (==_iff c.capability capability).0 (ground (arith, mine)) in
          ground (
            arith,
            mine,
            group_by_capability_lem cs (pushed c groups) capability,
            get-insert capability c.capability (or_empty (get c.capability groups) ++ c ∷ [])
                groups,
            ==_iff capability c.capability,
            ap (λ x. or_empty (get x groups)) same,
            same,
            append_assoc (or_empty (get capability groups)) (c ∷ [])
                (filter (λ x. x.dirty && x.capability == capability) cs),
          )
      | inr other ↦ ground (
        arith,
        other,
        group_by_capability_lem cs groups capability,
        group_by_capability_lem cs (pushed c groups) capability,
        get-insert capability c.capability (or_empty (get c.capability groups) ++ c ∷ []) groups,
        ==_iff capability c.capability,
        ==_iff c.capability capability,
      )
    ]
