-- ===== src/Base/Text/Laws.antt =====
-- Laws of the functions of `str`.
use Prim.Native.Nat.{ℕ}
use mathlib.Core.Path.{◌≡◌, refl, ap}
use mathlib.Core.Bool.{true, false, ◌&&◌}
use mathlib.Core.List.{List, [], ◌∷◌, ◌++◌, append_assoc}
use native.Mathlib.Omega.{arith}
use mathlib.Core.Logic.{inl, inr}
use musts.Base.Tests.{Bool-cases}
use musts.Base.Order.{◌==◌, ==_iff, nat_ord}
use musts.Base.Lists.{All}
use musts.Base.Text.Defs.{
  Text, replace, starts_with, contains_text, lines, ends_with_byte, at_newline,
}

pub replace-append : (b : ℕ) (r s t : Text) → replace b r (s ++ t) ≡ replace b r s ++ replace b r t
unfolding replace
replace-append b r [] t = refl
replace-append b r (c ∷ s) t = rw (replace-append b r s t, append_assoc)

-- neither a line feed nor a carriage return
abbrev pub IsLine : Text → Type 0
IsLine = All (λ c. ((c == 10) ≡ false) × ((c == 13) ≡ false))

pub IsLine-append : (s t : Text) → IsLine s → IsLine t → IsLine (s ++ t)
IsLine-append [] t h k = k
IsLine-append (c ∷ s) t h k = (h.0, IsLine-append s t h.1 k)

pub lines-line : (l rest : Text) → IsLine l → lines (l ++ 10 ∷ rest) ≡ l ∷ lines rest
unfolding lines
lines-line [] rest h = refl
lines-line (c ∷ l) rest h = ground (arith, lines-line l rest h.1)

pub starts_with-append : (p s : Text) → starts_with p (p ++ s) ≡ true
unfolding starts_with
starts_with-append [] s = refl
starts_with-append (c ∷ p) s = ground (arith, starts_with-append p s)

contains_text-of_starts : (p s : Text) → starts_with p s ≡ true → contains_text p s ≡ true
unfolding contains_text
contains_text-of_starts p [] h = h
contains_text-of_starts p (c ∷ s) h = ground arith

pub contains_text-append : (p s t : Text) → contains_text p (s ++ p ++ t) ≡ true
unfolding contains_text
contains_text-append p [] t = contains_text-of_starts p (p ++ t) (starts_with-append p t)
contains_text-append p (c ∷ s) t = ground (arith, contains_text-append p s t)

-- a text with a line feed has a line
lines-line_feed :
    (s rest : Text) → (l : Text) × (ls : List Text) × (lines (s ++ 10 ∷ rest) ≡ l ∷ ls)
unfolding lines
lines-line_feed [] rest = ([], lines rest, refl)
lines-line_feed (c ∷ s) rest = elim (Bool-cases (c == 10)) [
  | inl e ↦ ([], lines (s ++ 10 ∷ rest), rw e)
  | inr e ↦ push_line c s rest e (lines-line_feed s rest)
]
  where
    push_line :
        (c : ℕ) (s rest : Text)
        → (c == 10) ≡ false
        → ((l : Text) × (ls : List Text) × (lines (s ++ 10 ∷ rest) ≡ l ∷ ls))
        → (l : Text) × (ls : List Text) × (lines (c ∷ s ++ 10 ∷ rest) ≡ l ∷ ls)
    push_line c s rest e (l, ls, h) = elim (Bool-cases ((c == 13) && at_newline (s ++ 10 ∷ rest))) [
      | inl r ↦ (l, ls, rw (e, r) h)
      | inr r ↦ (c ∷ l, ls, rw (e, r, h))
    ]

at_newline-append : (s t u : Text) → at_newline (s ++ 10 ∷ t) ≡ at_newline (s ++ 10 ∷ u)
at_newline-append [] t u = refl
at_newline-append (c ∷ s) t u = refl

-- The lines of a text that ends with a line feed stand apart from those of what follows.
pub lines-append : (s rest : Text) → lines (s ++ 10 ∷ rest) ≡ lines (s ++ 10 ∷ []) ++ lines rest
unfolding lines
lines-append [] rest = refl
lines-append (c ∷ s) rest =
    let (l, ls, h) = lines-line_feed s [] in
    ground (arith, lines-append s rest, at_newline-append s rest [], h)

-- a text that ends with a byte, cut before it
pub cut_last : (b : ℕ) (s : Text) → ends_with_byte b s ≡ true → (t : Text) × (s ≡ t ++ b ∷ [])
unfolding ends_with_byte
cut_last b [] h = cc
cut_last b (c ∷ []) h = ([], ap (λ (x : ℕ). x ∷ []) ((==_iff c b).0 h))
cut_last b (c ∷ d ∷ s) h = let (t, e) = cut_last b (d ∷ s) h in (c ∷ t, ap (λ (x : Text). c ∷ x) e)
