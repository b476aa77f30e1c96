-- ===== src/Validate/Files/Collision.antt =====
-- Two files whose paths differ by case or by composition only are refused.
use mathlib.Core.List.{Memᴰ}
use mathlib.Core.List.Memᴰ.{head, tail}
use musts.Base.{
  ℕ, ◌≡◌, sym, ◌∙◌, ap, subst, false, some, List, [], ◌∷◌, arith, inl, inr, if◌then◌else◌,
  Bool-cases,
}
use musts.Base.Order.{◌==◌, ==_iff, ==_self, nat_ord, list_ord}
use musts.Base.Text.{Text}
use musts.Base.Int.{as_i64}
use musts.Base.Map.{BTreeMap, insert, get, get-insert}
use musts.Base.Result.{ok, Result-cases}
use musts.Database.{FingerprintRow, fingerprint_for, upsert_fingerprint}
use musts.Session.{Session}
use musts.Validate.Scope.{joined, normalise_rel_path}
use musts.Validate.Files.{
  Metadata, WalkedFile, Inputs, content_hash, collides, add_file, add_files,
  compute_scope_file_inputs,
}

-- the fingerprint that a turn stores
abbrev pub fingerprint : ℕ → Metadata → Text → FingerprintRow
fingerprint now m hash = record {
  mtime_ns = as_i64 m.mtime_ns;
  size_bytes = m.size_bytes;
  content_hash = hash;
  last_seen_at = now;
}

abbrev pub no_inputs : Inputs
no_inputs = record { out = []; meta = []; origin_of_normalised = [] }

module _ (normalise : Text → Text) (now : ℕ) where
  abbrev pub added : WalkedFile → Metadata → Text → Inputs → Inputs
  added f m hash inputs = record {
    out = insert (normalise_rel_path normalise f.rel_path) hash inputs.out;
    meta =
        insert (normalise_rel_path normalise f.rel_path) (joined f.rel_path, m.mtime_ns)
          inputs.meta;
    origin_of_normalised =
        insert (normalise_rel_path normalise f.rel_path) (joined f.rel_path)
          inputs.origin_of_normalised;
  }

  -- what a turn that succeeds has done
  pub add_file-ok :
      (f : WalkedFile) (inputs inputs' : Inputs) (s s' : Session)
      → add_file normalise now f inputs s ≡ (ok inputs', s')
      → (collides
            (get (normalise_rel_path normalise f.rel_path) inputs.origin_of_normalised)
            (joined f.rel_path)
          ≡ false)
        × ((m : Metadata) × (hash : Text) × (f.metadata ≡ ok m)
            × (content_hash (fingerprint_for (joined f.rel_path) s.db) m f.hash_file ≡ ok hash)
            × (inputs' ≡ added f m hash inputs)
            × (s' ≡ record s {
              db = upsert_fingerprint (joined f.rel_path) (fingerprint now m hash) s.db;
            }))
  unfolding add_file
  add_file-ok f inputs inputs' s s' done =
      elim (Bool-cases (
        collides (get (normalise_rel_path normalise f.rel_path) inputs.origin_of_normalised)
          (joined f.rel_path))) [
            | inl clash ↦ absurd (ground (arith, clash, done))
            | inr fits ↦ elim (Result-cases f.metadata) [
              | inr (x, failed) ↦ absurd (ground (arith, fits, failed, done))
              | inl (m, known) ↦
                  elim (Result-cases
                    (content_hash (fingerprint_for (joined f.rel_path) s.db) m f.hash_file)) [
                      | inr (x, failed) ↦ absurd (ground (arith, fits, known, failed, done))
                      | inl (hash, hashed) ↦ (
                        fits,
                        (
                          m,
                          hash,
                          known,
                          hashed,
                          ground (arith, fits, known, hashed, done),
                          ground (arith, fits, known, hashed, done),
                        ),
                      )
                    ]
            ]
          ]

  abbrev pub Registered : Inputs → WalkedFile → Type 0
  Registered inputs f =
      get (normalise_rel_path normalise f.rel_path) inputs.origin_of_normalised
      ≡ some (joined f.rel_path)

  -- A turn keeps the origins, and adds that of its file.
  pub add_file-origin :
      (f : WalkedFile) (inputs inputs' : Inputs) (s s' : Session)
      → add_file normalise now f inputs s ≡ (ok inputs', s')
      → Registered inputs' f
        × ((k raw : Text)
            → get k inputs.origin_of_normalised ≡ some raw
            → get k inputs'.origin_of_normalised ≡ some raw)
  add_file-origin f inputs inputs' s s' done =
      let (fits, (m, hash, known, hashed, result, state)) =
        add_file-ok f inputs inputs' s s' done in
      let n = normalise_rel_path normalise f.rel_path in
      let raw_f = joined f.rel_path in
      (
        ap (λ (i : Inputs). get n i.origin_of_normalised) result
            ∙ get-insert n n raw_f inputs.origin_of_normalised
            ∙ ground (arith, ==_self n),
        λ k raw h.
            ap (λ (i : Inputs). get k i.origin_of_normalised) result
            ∙ get-insert k n raw_f inputs.origin_of_normalised
            ∙ kept k raw h fits,
      )
    where
      kept :
          (k raw : Text)
          → get k inputs.origin_of_normalised ≡ some raw
          → collides
              (get (normalise_rel_path normalise f.rel_path) inputs.origin_of_normalised)
              (joined f.rel_path)
            ≡ false
          → (if k == normalise_rel_path normalise f.rel_path
              then some (joined f.rel_path)
              else get k inputs.origin_of_normalised)
            ≡ some raw
      kept k raw h fits = elim (Bool-cases (k == normalise_rel_path normalise f.rel_path)) [
        | inr other ↦ ground (arith, other, h)
        | inl same ↦
            let there =
              sym (
                ap (λ x. get x inputs.origin_of_normalised)
                  ((==_iff k (normalise_rel_path normalise f.rel_path)).0 same))
              ∙ h in
            rw same (
              ap (λ x. some x)
                (sym ((==_iff raw (joined f.rel_path)).0 (ground (arith, there, fits)))))
      ]

  pub add_files-cons :
      (f : WalkedFile) (fs : List WalkedFile) (inputs inputs' : Inputs) (s s' : Session)
      → add_files normalise now (f ∷ fs) inputs s ≡ (ok inputs', s')
      → (more : Inputs) × (t : Session) × (add_file normalise now f inputs s ≡ (ok more, t))
        × (add_files normalise now fs more t ≡ (ok inputs', s'))
  unfolding add_files
  add_files-cons f fs inputs inputs' s s' done =
      elim (Result-cases (add_file normalise now f inputs s).0) [
        | inl (more, r) ↦ (
          more,
          (add_file normalise now f inputs s).1,
          ground (arith, r),
          ground (arith, r, done),
        )
        | inr (x, failed) ↦ absurd (ground (arith, failed, done))
      ]

  -- The loop keeps the origins, and adds those of its files.
  pub add_files-origin :
      (fs : List WalkedFile) (inputs inputs' : Inputs) (s s' : Session)
      → add_files normalise now fs inputs s ≡ (ok inputs', s')
      → ((f : WalkedFile) → Memᴰ f fs → Registered inputs' f)
        × ((k raw : Text)
            → get k inputs.origin_of_normalised ≡ some raw
            → get k inputs'.origin_of_normalised ≡ some raw)
  unfolding add_files
  add_files-origin [] inputs inputs' s s' done =
      (λ f d. elim d [ ], λ k raw h. ground (arith, done, h))
  add_files-origin (f ∷ fs) inputs inputs' s s' done =
      let (more, t, first, rest) = add_files-cons f fs inputs inputs' s s' done in
      let (mine, kept) = add_file-origin f inputs more s t first in
      let (others, kept') = add_files-origin fs more inputs' t s' rest in
      (
        λ g d. elim d [
          | head e ↦ subst (Registered inputs') (sym e) (kept' _ _ mine)
          | tail d' ↦ others g d'
        ],
        λ k raw h. kept' k raw (kept k raw h),
      )

  -- the loop behind a computation that succeeds
  pub inputs-ok :
      (files : List WalkedFile) (s s' : Session) (r : BTreeMap Text Text × BTreeMap Text (Text × ℕ))
      → compute_scope_file_inputs normalise now files s ≡ (ok r, s')
      → (inputs : Inputs) × (add_files normalise now files no_inputs s ≡ (ok inputs, s'))
        × (r ≡ (inputs.out, inputs.meta))
  unfolding compute_scope_file_inputs
  inputs-ok files s s' r done = elim (Result-cases (add_files normalise now files no_inputs s).0) [
    | inl (inputs, k) ↦ (inputs, ground (arith, k, done), ground (arith, k, done))
    | inr (x, failed) ↦ absurd (ground (arith, failed, done))
  ]
