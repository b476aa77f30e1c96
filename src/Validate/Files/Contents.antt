-- ===== src/Validate/Files/Contents.antt =====
-- The cache of fingerprints gives the hashes that reading every file would give.
use mathlib.Core.List.{Memᴰ}
use mathlib.Core.List.Memᴰ.{head, tail}
use musts.Base.{
  ℕ, ◌≡◌, refl, sym, ◌∙◌, ap, subst, some, List, [], ◌∷◌, arith, inl, inr, Bool-cases, Option-cases,
}
use musts.Base.Order.{◌==◌, ==_iff, ==_self, nat_ord, list_ord}
use musts.Base.Text.{Text}
use musts.Base.Int.{ℤ, equals-eq-pos}
use musts.Base.Map.{BTreeMap, get, get-insert}
use musts.Base.Result.{ok}
use musts.Snapshot.{cached_hash}
use musts.Database.{FingerprintRow, Db, fingerprint_for, upsert_fingerprint}
use musts.Session.{Session, pure}
use musts.Validate.Scope.{joined, normalise_rel_path}
use musts.Validate.Files.{
  Metadata, WalkedFile, Inputs, content_hash, add_file, add_files, compute_scope_file_inputs,
}
use musts.Validate.Files.Collision.{
  fingerprint, no_inputs, add_file-ok, add_file-origin, add_files-cons, inputs-ok,
}

-- What the cache takes for granted: a row with the size and the time of the file as it is now holds
-- the hash of the file as it is now.
abbrev pub Current : Db → WalkedFile → Type 0
Current d f =
    (row : FingerprintRow) (m : Metadata)
    → fingerprint_for (joined f.rel_path) d ≡ some row
    → f.metadata ≡ ok m
    → row.mtime_ns ≡ ℤ.pos m.mtime_ns
    → row.size_bytes ≡ m.size_bytes
    → f.hash_file ≡ ok row.content_hash

-- A current cache and a readable file give the hash of the file.
content_hash-Current :
    (d : Db) (f : WalkedFile) (m : Metadata) (h hash : Text)
    → Current d f
    → f.metadata ≡ ok m
    → f.hash_file ≡ ok h
    → content_hash (fingerprint_for (joined f.rel_path) d) m f.hash_file ≡ ok hash
    → hash ≡ h
unfolding content_hash cached_hash
content_hash-Current d f m h hash current known readable hashed =
    elim (Option-cases (fingerprint_for (joined f.rel_path) d)) [
      | inl missing ↦ ground (arith, missing, readable, hashed)
      | inr (row, found) ↦ ground (
        arith,
        found,
        readable,
        hashed,
        current row m found known,
        ==_iff row.size_bytes m.size_bytes,
        equals-eq-pos row.mtime_ns m.mtime_ns,
      )
    ]

-- A turn leaves the cache current for its own file, and for the others.
upsert-Current :
    (d : Db) (now : ℕ) (f g : WalkedFile) (m : Metadata) (h : Text)
    → (joined f.rel_path ≡ joined g.rel_path → f ≡ g)
    → f.metadata ≡ ok m
    → f.hash_file ≡ ok h
    → Current d g
    → Current (upsert_fingerprint (joined f.rel_path) (fingerprint now m h) d) g
unfolding upsert_fingerprint fingerprint_for
upsert-Current d now f g m h one known readable current row m' found known' mtime size =
    elim (Bool-cases (joined g.rel_path == joined f.rel_path)) [
      | inl same ↦
          let fg = one (sym ((==_iff (joined g.rel_path) (joined f.rel_path)).0 same)) in
          ground (
            arith,
            same,
            found,
            readable,
            ap (λ (x : WalkedFile). x.hash_file) fg,
            get-insert (joined g.rel_path) (joined f.rel_path) (fingerprint now m h)
                d.file_fingerprints,
          )
      | inr other ↦
          current row m'
            (ground (
              arith,
              other,
              found,
              get-insert (joined g.rel_path) (joined f.rel_path) (fingerprint now m h)
                  d.file_fingerprints,
            ))
            known' mtime size
    ]

module _ (normalise : Text → Text) (now : ℕ) (all : List WalkedFile) where
  -- The walk lists a path once, and each file that it lists can be read.
  pub record IsWalk : Type 0 where
    pub once :
        (f g : WalkedFile) → Memᴰ f all → Memᴰ g all → joined f.rel_path ≡ joined g.rel_path → f ≡ g
    pub readable : (f : WalkedFile) → Memᴰ f all → (h : Text) × (f.hash_file ≡ ok h)

  -- the hash of the file is under its normalised path
  abbrev Hashed : Inputs → WalkedFile → Type 0
  Hashed inputs f =
      (get (normalise_rel_path normalise f.rel_path) inputs.origin_of_normalised
        ≡ some (joined f.rel_path))
      × ((h : Text)
          → f.hash_file ≡ ok h
          → get (normalise_rel_path normalise f.rel_path) inputs.out ≡ some h)

  abbrev AllCurrent : Session → Type 0
  AllCurrent s = (g : WalkedFile) → Memᴰ g all → Current s.db g

  turn-Current :
      (f : WalkedFile) (inputs inputs' : Inputs) (s s' : Session)
      → IsWalk
      → Memᴰ f all
      → AllCurrent s
      → add_file normalise now f inputs s ≡ (ok inputs', s')
      → AllCurrent s'
  turn-Current f inputs inputs' s s' walk f_in current done g g_in =
      let (fits, (m, hash, known, hashed, result, state)) =
        add_file-ok normalise now f inputs inputs' s s' done in
      let (h, readable) = walk.readable f f_in in
      let right = content_hash-Current s.db f m h hash (current f f_in) known readable hashed in
      subst (λ (t : Session). Current t.db g) (sym state)
        (upsert-Current s.db now f g m hash (walk.once f g f_in g_in) known
          (readable ∙ ap (λ x. ok x) (sym right)) (current g g_in))

  turn-own :
      (f : WalkedFile) (inputs inputs' : Inputs) (s s' : Session)
      → Memᴰ f all
      → AllCurrent s
      → add_file normalise now f inputs s ≡ (ok inputs', s')
      → Hashed inputs' f
  turn-own f inputs inputs' s s' f_in current done =
      let (fits, (m, hash, known, hashed, result, state)) =
        add_file-ok normalise now f inputs inputs' s s' done in
      let n = normalise_rel_path normalise f.rel_path in
      (
        (add_file-origin normalise now f inputs inputs' s s' done).0,
        λ h readable.
            ap (λ (i : Inputs). get n i.out) result
            ∙ get-insert n n hash inputs.out
            ∙ ground (
              arith,
              ==_self n,
              content_hash-Current s.db f m h hash (current f f_in) known readable hashed,
            ),
      )

  turn-others :
      (f g : WalkedFile) (inputs inputs' : Inputs) (s s' : Session)
      → IsWalk
      → Memᴰ f all
      → Memᴰ g all
      → AllCurrent s
      → add_file normalise now f inputs s ≡ (ok inputs', s')
      → Hashed inputs g
      → Hashed inputs' g
  turn-others f g inputs inputs' s s' walk f_in g_in current done had =
      let (fits, (m, hash, known, hashed, result, state)) =
        add_file-ok normalise now f inputs inputs' s s' done in
      let (mine, kept) = add_file-origin normalise now f inputs inputs' s s' done in
      let there = kept _ _ had.0 in
      elim (Bool-cases
        (normalise_rel_path normalise g.rel_path == normalise_rel_path normalise f.rel_path)) [
          | inl same ↦
              let paths : joined f.rel_path ≡ joined g.rel_path = ground (
                arith,
                mine,
                there,
                ap (λ n. get n inputs'.origin_of_normalised)
                    ((==_iff (normalise_rel_path normalise g.rel_path)
                        (normalise_rel_path normalise f.rel_path)).0
                      same),
              ) in
              subst (Hashed inputs') (walk.once f g f_in g_in paths)
                (turn-own f inputs inputs' s s' f_in current done)
          | inr other ↦ (
            there,
            λ h readable.
                ap (λ (i : Inputs). get (normalise_rel_path normalise g.rel_path) i.out) result
                ∙ get-insert (normalise_rel_path normalise g.rel_path)
                    (normalise_rel_path normalise f.rel_path) hash inputs.out
                ∙ ground (arith, other, had.1 h readable),
          )
        ]

  loop-Hashed :
      (fs : List WalkedFile) (inputs inputs' : Inputs) (s s' : Session)
      → IsWalk
      → ((f : WalkedFile) → Memᴰ f fs → Memᴰ f all)
      → AllCurrent s
      → add_files normalise now fs inputs s ≡ (ok inputs', s')
      → ((f : WalkedFile) → Memᴰ f fs → Hashed inputs' f)
        × ((g : WalkedFile) → Memᴰ g all → Hashed inputs g → Hashed inputs' g)
  unfolding add_files
  loop-Hashed [] inputs inputs' s s' walk among current done =
      (λ f d. elim d [ ], λ g g_in had. subst (λ i. Hashed i g) (same done) had)
    where
      same : (pure inputs s ≡ (ok inputs', s')) → inputs ≡ inputs'
      same e = ground (arith, e)
  loop-Hashed (f ∷ fs) inputs inputs' s s' walk among current done =
      let (more, t, first, rest) = add_files-cons normalise now f fs inputs inputs' s s' done in
      let f_in = among f (head refl) in
      let (others, kept) =
        loop-Hashed fs more inputs' t s' walk (λ g d. among g (tail d))
          (turn-Current f inputs more s t walk f_in current first) rest in
      (
        λ g d. elim d [
          | head e ↦
              subst (Hashed inputs') (sym e)
                (kept f f_in (turn-own f inputs more s t f_in current first))
          | tail d' ↦ others g d'
        ],
        λ g g_in had.
            kept g g_in (turn-others f g inputs more s t walk f_in g_in current first had),
      )

  -- Where the cache is current for the files that the walk lists, and all of them can be read, a
  -- computation that succeeds has under each normalised path the hash of the file that is there.
  pub compute_scope_file_inputs-Current :
      (s s' : Session) (r : BTreeMap Text Text × BTreeMap Text (Text × ℕ)) (f : WalkedFile)
      (h : Text)
      → IsWalk
      → ((g : WalkedFile) → Memᴰ g all → Current s.db g)
      → compute_scope_file_inputs normalise now all s ≡ (ok r, s')
      → Memᴰ f all
      → f.hash_file ≡ ok h
      → get (normalise_rel_path normalise f.rel_path) r.0 ≡ some h
  compute_scope_file_inputs-Current s s' r f h walk current done d readable =
      let (inputs, looped, result) = inputs-ok normalise now all s s' r done in
      ap
        (λ (p : BTreeMap Text Text × BTreeMap Text (Text × ℕ)).
          get (normalise_rel_path normalise f.rel_path) p.0)
        result
      ∙ ((loop-Hashed all no_inputs inputs s s' walk (λ g e. e) current looped).0 f d).1 h readable
