-- ===== src/Snapshot/Encoding.antt =====
-- What the hashed bytes forget and what they keep: the order in which the caller lists files is
-- forgotten, and with texts free of NUL bytes nothing else is.
use mathlib.Core.Path.{ap₂}
use mathlib.Core.List.{append_assoc}
use musts.Base.{◌≡◌, refl, sym, ◌∙◌, Bool, true, false, List, [], ◌∷◌, ◌++◌, arith}
use musts.Base.Order.{◌==◌, nat_ord, pair_ord, list_ord}
use musts.Base.Text.{Text}
use musts.Base.Lists.{All, All-append}
use musts.Snapshot.Sorting.{All-sort}
use musts.Snapshot.Defs.{ScopeInput, sort, field_bytes, fields_bytes, pairs_bytes, scope_bytes}

-- a text with no NUL byte
abbrev pub NulFree : Text → Type 0
NulFree = All (λ c. (c == 0) ≡ false)

-- the first field and what follows it
pub field_split :
    (s t x y : Text)
    → NulFree s
    → NulFree t
    → field_bytes s ++ x ≡ field_bytes t ++ y
    → (s ≡ t) × (x ≡ y)
unfolding field_bytes
field_split [] [] x y m n h = ground arith
field_split [] (d ∷ t) x y m n h = ground arith
field_split (c ∷ s) [] x y m n h = ground arith
field_split (c ∷ s) (d ∷ t) x y m n h = ground (arith, field_split s t x y m.1 n.1)

field_bytes-ne : (s x : Text) → ¬ ([] ≡ field_bytes s ++ x)
unfolding field_bytes
field_bytes-ne [] x h = cc
field_bytes-ne (c ∷ s) x h = cc

-- a list of texts with no NUL byte is determined by its bytes
pub fields_bytes_injective :
    (ts us : List Text)
    → All NulFree ts
    → All NulFree us
    → fields_bytes ts ≡ fields_bytes us
    → ts ≡ us
unfolding fields_bytes
fields_bytes_injective [] [] m n h = refl
fields_bytes_injective [] (u ∷ us) m n h = absurd (field_bytes-ne u (fields_bytes us) h)
fields_bytes_injective (t ∷ ts) [] m n h = absurd (field_bytes-ne t (fields_bytes ts) (sym h))
fields_bytes_injective (t ∷ ts) (u ∷ us) m n h =
    let (e, rest) = field_split t u (fields_bytes ts) (fields_bytes us) m.0 n.0 h in
    ap₂ ◌∷◌ e (fields_bytes_injective ts us m.1 n.1 rest)

abbrev pub flatten : List (Text × Text) → List Text
flatten [] = []
flatten ((a, b) ∷ ps) = a ∷ b ∷ flatten ps

fields_bytes-append :
    (ts us : List Text) → fields_bytes (ts ++ us) ≡ fields_bytes ts ++ fields_bytes us
unfolding fields_bytes
fields_bytes-append [] us = refl
fields_bytes-append (t ∷ ts) us =
    rw (fields_bytes-append ts us)
      (sym (append_assoc (field_bytes t) (fields_bytes ts) (fields_bytes us)))

pairs_bytes-eq-flatten : (ps : List (Text × Text)) → pairs_bytes ps ≡ fields_bytes (flatten ps)
unfolding pairs_bytes fields_bytes
pairs_bytes-eq-flatten [] = refl
pairs_bytes-eq-flatten ((a, b) ∷ ps) = rw (pairs_bytes-eq-flatten ps)

abbrev pub NulFreePair : Text × Text → Type 0
NulFreePair p = NulFree p.0 × NulFree p.1

All-flatten : (ps : List (Text × Text)) → All NulFreePair ps → All NulFree (flatten ps)
All-flatten [] h = tt
All-flatten ((a, b) ∷ ps) h = (h.0.0, (h.0.1, All-flatten ps h.1))

flatten_injective : (ps qs : List (Text × Text)) → flatten ps ≡ flatten qs → ps ≡ qs
flatten_injective [] [] h = refl
flatten_injective [] ((c, d) ∷ qs) h = cc
flatten_injective ((a, b) ∷ ps) [] h = cc
flatten_injective ((a, b) ∷ ps) ((c, d) ∷ qs) h = ground (arith, flatten_injective ps qs)

-- a list of pairs with no NUL byte is determined by its bytes
pub pairs_bytes_injective :
    (ps qs : List (Text × Text))
    → All NulFreePair ps
    → All NulFreePair qs
    → pairs_bytes ps ≡ pairs_bytes qs
    → ps ≡ qs
pairs_bytes_injective ps qs m n h = flatten_injective ps qs (
    fields_bytes_injective (flatten ps) (flatten qs) (All-flatten ps m) (All-flatten qs n)
      (sym (pairs_bytes-eq-flatten ps) ∙ h ∙ pairs_bytes-eq-flatten qs))

module _ (looks : Text → Bool) where
  -- The texts of the input hold no NUL byte. `looks` tells a digest from a manifest's path.
  pub record IsHashable (i : ScopeInput) : Type 0 where
    pub files : All NulFreePair i.files
    pub manifest_hash : NulFree i.manifest_hash
    pub ext_descriptor_hash : NulFree i.ext_descriptor_hash
    pub descendants : All NulFree i.descendant_manifest_paths
    pub digests : (looks i.manifest_hash ≡ true) × (looks i.ext_descriptor_hash ≡ true)
    pub paths : All (λ p. looks p ≡ false) i.descendant_manifest_paths

  hash_in_the_paths :
      (ds ds' : List Text) (qs : List (Text × Text)) (m e : Text)
      → All (λ p. looks p ≡ false) ds
      → looks e ≡ true
      → ¬ (ds ≡ flatten qs ++ m ∷ e ∷ ds')
  hash_in_the_paths [] ds' [] m e p l h = cc
  hash_in_the_paths [] ds' (q ∷ qs) m e p l h = cc
  hash_in_the_paths (d ∷ []) ds' [] m e p l h = cc
  hash_in_the_paths (d ∷ []) ds' (q ∷ qs) m e p l h = cc
  hash_in_the_paths (d ∷ d' ∷ ds) ds' [] m e p l h = ground arith
  hash_in_the_paths (d ∷ d' ∷ ds) ds' (q ∷ qs) m e p l h =
      hash_in_the_paths ds ds' qs m e p.1.1 l (ground arith)

  tokens_injective :
      (ps qs : List (Text × Text)) (m e m' e' : Text) (ds ds' : List Text)
      → All (λ p. looks p ≡ false) ds
      → All (λ p. looks p ≡ false) ds'
      → looks e ≡ true
      → looks e' ≡ true
      → flatten ps ++ m ∷ e ∷ ds ≡ flatten qs ++ m' ∷ e' ∷ ds'
      → (ps ≡ qs) × (m ≡ m') × (e ≡ e') × (ds ≡ ds')
  tokens_injective [] [] m e m' e' ds ds' p p' l l' h = ground arith
  tokens_injective [] (q ∷ qs) m e m' e' ds ds' p p' l l' h =
      absurd (hash_in_the_paths ds ds' qs m' e' p l' (ground arith))
  tokens_injective (q ∷ ps) [] m e m' e' ds ds' p p' l l' h =
      absurd (hash_in_the_paths ds' ds ps m e p' l (ground arith))
  tokens_injective (q ∷ ps) (q' ∷ qs) m e m' e' ds ds' p p' l l' h =
      ground (arith, tokens_injective ps qs m e m' e' ds ds' p p' l l')

  scope_bytes-eq-tokens :
      (i : ScopeInput)
      → scope_bytes i
        ≡ fields_bytes (
            flatten (sort i.files)
            ++ i.manifest_hash ∷ i.ext_descriptor_hash ∷ sort i.descendant_manifest_paths)
  unfolding scope_bytes fields_bytes
  scope_bytes-eq-tokens i =
      rw (pairs_bytes-eq-flatten (sort i.files), fields_bytes-append (flatten (sort i.files)))

  tokens_NulFree :
      (i : ScopeInput)
      → IsHashable i
      → All NulFree (
          flatten (sort i.files)
          ++ i.manifest_hash ∷ i.ext_descriptor_hash ∷ sort i.descendant_manifest_paths)
  tokens_NulFree i w =
      All-append NulFree (flatten (sort i.files)) _
        (All-flatten (sort i.files) (All-sort NulFreePair i.files w.files))
        (
          w.manifest_hash,
          (w.ext_descriptor_hash, All-sort NulFree i.descendant_manifest_paths w.descendants),
        )

  -- The bytes of a scope hash determine the files with their hashes, the declaration, the extension
  -- and the paths of the manifests below, up to the order in which they are listed.
  pub scope_bytes_injective :
      (i j : ScopeInput)
      → IsHashable i
      → IsHashable j
      → scope_bytes i ≡ scope_bytes j
      → (sort i.files ≡ sort j.files)
        × (i.manifest_hash ≡ j.manifest_hash)
        × (i.ext_descriptor_hash ≡ j.ext_descriptor_hash)
        × (sort i.descendant_manifest_paths ≡ sort j.descendant_manifest_paths)
  scope_bytes_injective i j v w h =
      tokens_injective (sort i.files) (sort j.files) i.manifest_hash i.ext_descriptor_hash
        j.manifest_hash j.ext_descriptor_hash (sort i.descendant_manifest_paths)
        (sort j.descendant_manifest_paths)
        (All-sort (λ p. looks p ≡ false) i.descendant_manifest_paths v.paths)
        (All-sort (λ p. looks p ≡ false) j.descendant_manifest_paths w.paths) v.digests.1
        w.digests.1
        (fields_bytes_injective _ _ (tokens_NulFree i v) (tokens_NulFree j w)
          (sym (scope_bytes-eq-tokens i) ∙ h ∙ scope_bytes-eq-tokens j))
