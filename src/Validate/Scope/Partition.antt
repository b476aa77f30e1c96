-- ===== src/Validate/Scope/Partition.antt =====
-- The carve-out: among the manifests that declare a capability, each file belongs to the check of the
-- nearest one, and to no other.
use mathlib.Core.List.{Memᴰ}
use mathlib.Core.List.Memᴰ.{head, tail}
use musts.Base.{
  ℕ, zero, suc, ◌+◌, ◌<◌, ◌≡◌, refl, sym, ◌∙◌, ap, Bool, true, false, not, ◌&&◌, List, [], ◌∷◌, map,
  arith, inl, inr, Bool-cases,
}
use musts.Base.Order.{◌==◌, ==_iff, nat_ord, pair_ord, list_ord}
use musts.Base.Text.{Text}
use musts.Base.Lists
use musts.Base.Lists.{length, any, filter}
use musts.Base.Map.{BTreeMap}
use musts.Validate.Scope.{
  LoadedManifest, scope_prefix_for, rel_starts_with_dir, prefix_is_strict_ancestor, declares,
  is_descendant, effective_files_for, normalise_prefix, descendant_prefixes,
}
use musts.Validate.Scope.Prefix.{
  dirs-nested, prefix_is_strict_ancestor-eq, dir-length, ancestor-length,
}

contains-filter :
    (p : Text × Text → Bool) (xs : List (Text × Text)) (x : Text × Text)
    → Lists.contains x (filter p xs) ≡ (Lists.contains x xs && p x)
unfolding Lists.contains filter
contains-filter p [] x = refl
contains-filter p (y ∷ ys) x = elim (Bool-cases (x == y)) [
  | inl same ↦ ground (arith, same, contains-filter p ys x, ap p ((==_iff x y).0 same))
  | inr other ↦ ground (arith, other, contains-filter p ys x)
]

-- an element of a filtered and mapped list, and one that is there
any-of_member :
    (q : Text → Bool) (g : LoadedManifest → Text) (p : LoadedManifest → Bool) {n : LoadedManifest}
    {ms : List LoadedManifest}
    → Memᴰ n ms
    → p n ≡ true
    → q (g n) ≡ true
    → any q (map g (filter p ms)) ≡ true
unfolding any filter
any-of_member q g p {ms = []} d h k = elim d [ ]
any-of_member q g p {n = n} {ms = m ∷ ms} (head e) h k =
    ground (arith, h, k, ap p e, ap (λ x. q (g x)) e)
any-of_member q g p {n = n} {ms = m ∷ ms} (tail d) h k = ground (arith, any-of_member q g p d h k)

member-of_any :
    (q : Text → Bool) (g : LoadedManifest → Text) (p : LoadedManifest → Bool)
    (ms : List LoadedManifest)
    → any q (map g (filter p ms)) ≡ true
    → (n : LoadedManifest) × Memᴰ n ms × (p n ≡ true) × (q (g n) ≡ true)
unfolding any filter
member-of_any q g p [] h = cc
member-of_any q g p (m ∷ ms) h = elim (Bool-cases (p m && q (g m))) [
  | inl here ↦ (m, head refl, ground (arith, here), ground (arith, here))
  | inr there ↦
      let (n, d, k, l) = member-of_any q g p ms (ground (arith, h, there)) in (n, tail d, k, l)
]

module _ (normalise : Text → Text) (files : BTreeMap Text Text) (ms : List LoadedManifest)
    (capability : Text) where
  -- The check of the capability in this manifest has the file in its effective scope.
  abbrev pub owns : LoadedManifest → Text × Text → Bool
  owns m f = Lists.contains f (
      effective_files_for files (normalise_prefix normalise m.scope_prefix)
        (descendant_prefixes normalise ms m capability))

  -- The manifests as discovery finds them: one for a folder, whose path is in normal form.
  pub record IsLayout : Type 0 where
    pub normalised : (k : LoadedManifest) → Memᴰ k ms → normalise k.scope_prefix ≡ k.scope_prefix
    pub prefixes : (k : LoadedManifest) → Memᴰ k ms → k.scope_prefix ≡ scope_prefix_for k.rel_path
    pub distinct :
        (k l : LoadedManifest) → Memᴰ k ms → Memᴰ l ms → k.scope_prefix ≡ l.scope_prefix → k ≡ l

  owns-eq :
      (m : LoadedManifest) (f : Text × Text)
      → owns m f ≡ (
          Lists.contains f files
          && (rel_starts_with_dir f.0 (normalise m.scope_prefix)
              && not
                  (any (rel_starts_with_dir f.0) (descendant_prefixes normalise ms m capability))))
  unfolding effective_files_for normalise_prefix
  owns-eq m f = contains-filter _ files f

  strict-is_descendant :
      (m n : LoadedManifest)
      → IsLayout
      → Memᴰ m ms
      → Memᴰ n ms
      → declares capability n.checks ≡ true
      → prefix_is_strict_ancestor m.scope_prefix n.scope_prefix ≡ true
      → is_descendant m capability n ≡ true
  unfolding is_descendant
  strict-is_descendant m n layout m_in n_in uses below =
      elim (Bool-cases (n.rel_path == m.rel_path)) [
        | inl same ↦ absurd (
            ground (
              arith,
              below,
              prefix_is_strict_ancestor-eq m.scope_prefix n.scope_prefix,
              (==_iff n.scope_prefix m.scope_prefix).1 (
                  layout.prefixes n n_in
                  ∙ ap scope_prefix_for ((==_iff n.rel_path m.rel_path).0 same)
                  ∙ sym (layout.prefixes m m_in)),
            ))
        | inr other ↦ ground (arith, other, uses, below)
      ]

  -- A file under a strict descendant's folder is carved out.
  carved :
      (m n : LoadedManifest) (f : Text × Text)
      → IsLayout
      → Memᴰ m ms
      → Memᴰ n ms
      → declares capability n.checks ≡ true
      → prefix_is_strict_ancestor m.scope_prefix n.scope_prefix ≡ true
      → rel_starts_with_dir f.0 n.scope_prefix ≡ true
      → owns m f ≡ false
  unfolding descendant_prefixes normalise_prefix
  carved m n f layout m_in n_in uses below inside =
      let listed =
        any-of_member (rel_starts_with_dir f.0) (λ k. normalise_prefix normalise k.scope_prefix)
          (is_descendant m capability) n_in (strict-is_descendant m n layout m_in n_in uses below)
          (ap (rel_starts_with_dir f.0) (layout.normalised n n_in) ∙ inside) in
      ground (arith, listed, owns-eq m f)

  owned-inside :
      (m : LoadedManifest) (f : Text × Text)
      → IsLayout
      → Memᴰ m ms
      → owns m f ≡ true
      → rel_starts_with_dir f.0 m.scope_prefix ≡ true
  owned-inside m f layout m_in owned =
      ground (arith, owned, owns-eq m f, ap (rel_starts_with_dir f.0) (layout.normalised m m_in))

  -- An owner of a file stands above no other manifest whose folder holds the file.
  owner_unique :
      (k l : LoadedManifest) (f : Text × Text)
      → IsLayout
      → Memᴰ k ms
      → Memᴰ l ms
      → declares capability k.checks ≡ true
      → declares capability l.checks ≡ true
      → owns k f ≡ true
      → owns l f ≡ true
      → l ≡ k
  owner_unique k l f layout k_in l_in uses uses' owned owned' =
      let in_k = owned-inside k f layout k_in owned in
      let in_l = owned-inside l f layout l_in owned' in
      elim (Bool-cases (l.scope_prefix == k.scope_prefix)) [
        | inl same ↦ layout.distinct l k l_in k_in ((==_iff l.scope_prefix k.scope_prefix).0 same)
        | inr other ↦ absurd (
            ground (
              arith,
              owned,
              owned',
              other,
              ==_iff k.scope_prefix l.scope_prefix,
              ==_iff l.scope_prefix k.scope_prefix,
              dirs-nested f.0 k.scope_prefix l.scope_prefix in_k in_l,
              prefix_is_strict_ancestor-eq k.scope_prefix l.scope_prefix,
              prefix_is_strict_ancestor-eq l.scope_prefix k.scope_prefix,
              λ (b : prefix_is_strict_ancestor k.scope_prefix l.scope_prefix ≡ true).
                  carved k l f layout k_in l_in uses' b in_l,
              λ (b : prefix_is_strict_ancestor l.scope_prefix k.scope_prefix ≡ true).
                  carved l k f layout l_in k_in uses b in_k,
            ))
      ]

  owner-exists :
      (fuel : ℕ) (m : LoadedManifest) (f : Text × Text)
      → length f.0 < length m.scope_prefix + fuel
      → IsLayout
      → Memᴰ m ms
      → declares capability m.checks ≡ true
      → Lists.contains f files ≡ true
      → rel_starts_with_dir f.0 m.scope_prefix ≡ true
      → (k : LoadedManifest) × Memᴰ k ms × (declares capability k.checks ≡ true) × (owns k f ≡ true)
  unfolding is_descendant descendant_prefixes normalise_prefix
  owner-exists zero m f enough layout m_in uses listed inside =
      absurd (ground (arith, dir-length f.0 m.scope_prefix inside))
  owner-exists (suc fuel) m f enough layout m_in uses listed inside =
      elim (Bool-cases
        (any (rel_starts_with_dir f.0) (descendant_prefixes normalise ms m capability))) [
          | inr none_below ↦ (
            m,
            m_in,
            uses,
            ground (
              arith,
              none_below,
              owns-eq m f,
              ap (rel_starts_with_dir f.0) (layout.normalised m m_in),
            ),
          )
          | inl below ↦
              let (n, n_in, descends, holds) =
                member-of_any (rel_starts_with_dir f.0)
                  (λ k. normalise_prefix normalise k.scope_prefix) (is_descendant m capability) ms
                  below in
              owner-exists fuel n f
                (ground (
                  arith,
                  ancestor-length m.scope_prefix n.scope_prefix (ground (arith, descends)),
                  enough,
                ))
                layout n_in (ground (arith, descends)) listed
                (sym (ap (rel_starts_with_dir f.0) (layout.normalised n n_in)) ∙ holds)
        ]

  -- Where the manifests lie in different folders, whose paths are in normal form: each file under
  -- the folder of a manifest that declares the capability is in the effective scope of exactly one
  -- of the manifests that declare it.
  pub effective_files-partition :
      (m : LoadedManifest) (f : Text × Text)
      → IsLayout
      → Memᴰ m ms
      → declares capability m.checks ≡ true
      → Lists.contains f files ≡ true
      → rel_starts_with_dir f.0 m.scope_prefix ≡ true
      → (k : LoadedManifest) × Memᴰ k ms
        × (declares capability k.checks ≡ true)
        × (owns k f ≡ true)
        × ((l : LoadedManifest)
            → Memᴰ l ms
            → declares capability l.checks ≡ true
            → owns l f ≡ true
            → l ≡ k)
  effective_files-partition m f layout m_in uses listed inside =
      let (k, k_in, uses_k, owned) =
        owner-exists (suc (length f.0)) m f (ground arith) layout m_in uses listed inside in
      (
        k,
        k_in,
        uses_k,
        owned,
        λ l l_in uses_l owned_l. owner_unique k l f layout k_in l_in uses_k uses_l owned owned_l,
      )
