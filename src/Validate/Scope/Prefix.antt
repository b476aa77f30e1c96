-- ===== src/Validate/Scope/Prefix.antt =====
-- Prefixes of paths: the two tests agree, and the folders of one file are nested.
use musts.Base.{
  ◌≤◌, ◌<◌, ◌≡◌, refl, sym, ◌∙◌, ap, true, not, ◌&&◌, ◌||◌, [], ◌∷◌, ◌++◌, arith, inl, inr, ltb,
  Bool-cases,
}
use musts.Base.Order.{◌==◌, ==_iff, nat_ord, list_ord}
use musts.Base.Text.{Text, starts_with}
use musts.Base.Lists.{length, is_empty, length-append}
use musts.Validate.Scope.{rel_starts_with_dir, byte_is, prefix_is_strict_ancestor}

ancestor-eq-starts_with :
    (p child : Text)
    → (ltb (length p) (length child) && starts_with p child && byte_is 47 (length p) child)
      ≡ starts_with (p ++ 47 ∷ []) child
unfolding starts_with
ancestor-eq-starts_with [] [] = ground arith
ancestor-eq-starts_with [] (c ∷ child) = ground (arith, ==_iff 47 c, ==_iff c 47)
ancestor-eq-starts_with (a ∷ p) [] = ground arith
ancestor-eq-starts_with (a ∷ p) (c ∷ child) = ground (arith, ancestor-eq-starts_with p child)

-- A path lies in a folder where the folder's path, with its slash, begins the path with its slash.
pub in-eq-starts_with :
    (p f : Text)
    → (f == p || starts_with (p ++ 47 ∷ []) f) ≡ starts_with (p ++ 47 ∷ []) (f ++ 47 ∷ [])
unfolding starts_with list_ord
in-eq-starts_with [] [] = refl
in-eq-starts_with [] (x ∷ f) = refl
in-eq-starts_with (c ∷ []) [] = ground arith
in-eq-starts_with (c ∷ d ∷ p) [] = ground arith
in-eq-starts_with (c ∷ p) (x ∷ f) = ground (arith, in-eq-starts_with p f, ==_iff c x, ==_iff x c)

pub starts_with-comparable :
    (a b s : Text)
    → starts_with a s ≡ true
    → starts_with b s ≡ true
    → (starts_with a b || starts_with b a) ≡ true
unfolding starts_with
starts_with-comparable [] b s h k = refl
starts_with-comparable (c ∷ a) [] s h k = refl
starts_with-comparable (c ∷ a) (d ∷ b) [] h k = cc
starts_with-comparable (c ∷ a) (d ∷ b) (x ∷ s) h k = ground (arith, starts_with-comparable a b s)

-- Of two folders that hold one file, one lies in the other.
pub dirs-nested :
    (f p q : Text)
    → rel_starts_with_dir f p ≡ true
    → rel_starts_with_dir f q ≡ true
    → (rel_starts_with_dir q p || rel_starts_with_dir p q) ≡ true
unfolding rel_starts_with_dir
dirs-nested f [] q h k = refl
dirs-nested f (c ∷ p) [] h k = ground arith
dirs-nested f (c ∷ p) (d ∷ q) h k =
    rw (in-eq-starts_with (c ∷ p) (d ∷ q), in-eq-starts_with (d ∷ q) (c ∷ p))
      (starts_with-comparable (c ∷ (p ++ 47 ∷ [])) (d ∷ (q ++ 47 ∷ [])) (f ++ 47 ∷ [])
        (sym (in-eq-starts_with (c ∷ p) f) ∙ h) (sym (in-eq-starts_with (d ∷ q) f) ∙ k))

empty_path : (s : Text) → (s == []) ≡ is_empty s
unfolding list_ord
empty_path [] = refl
empty_path (c ∷ s) = refl

-- A folder is a strict ancestor of another one exactly where the other one lies in it, by the test for
-- files, and is not the folder itself.
pub prefix_is_strict_ancestor-eq :
    (p child : Text)
    → prefix_is_strict_ancestor p child ≡ (not (child == p) && rel_starts_with_dir child p)
unfolding prefix_is_strict_ancestor rel_starts_with_dir
prefix_is_strict_ancestor-eq [] [] = ground (arith, empty_path [])
prefix_is_strict_ancestor-eq [] (c ∷ child) = ground (arith, empty_path (c ∷ child))
prefix_is_strict_ancestor-eq (a ∷ p) child = ground (arith, ancestor-eq-starts_with (a ∷ p) child)

starts_with-length : (p s : Text) → starts_with p s ≡ true → length p ≤ length s
unfolding starts_with
starts_with-length [] s h = ground arith
starts_with-length (c ∷ p) [] h = cc
starts_with-length (c ∷ p) (d ∷ s) h = ground (arith, starts_with-length p s)

-- a folder's path is no longer than that of a file in it
pub dir-length :
    (rel prefix : Text) → rel_starts_with_dir rel prefix ≡ true → length prefix ≤ length rel
unfolding rel_starts_with_dir
dir-length rel [] h = ground arith
dir-length rel (c ∷ p) h = elim (Bool-cases (rel == c ∷ p)) [
  | inl same ↦ ground (arith, ap length ((==_iff rel (c ∷ p)).0 same))
  | inr other ↦ ground (
    arith,
    starts_with-length (c ∷ (p ++ 47 ∷ [])) rel (ground (arith, other, h)),
    length-append p (47 ∷ []),
  )
]

-- a strict descendant's path is longer
pub ancestor-length :
    (p child : Text) → prefix_is_strict_ancestor p child ≡ true → length p < length child
unfolding prefix_is_strict_ancestor
ancestor-length [] [] h = ground (arith, empty_path [])
ancestor-length [] (c ∷ child) h = ground arith
ancestor-length (a ∷ p) child h = ground arith
