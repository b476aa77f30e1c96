-- ===== src/Validate/Scope/Ids.antt =====
-- Check ids: which declarations they tell apart.
use musts.Base.{◌≡◌, false, [], ◌∷◌, ◌++◌, arith}
use musts.Base.Order.{◌==◌, nat_ord}
use musts.Base.Text.{Text}
use musts.Base.Lists.{All}
use musts.Validate.Scope.{check_id}

abbrev pub HasNoSlash : Text → Type 0
HasNoSlash = All (λ c. (c == 47) ≡ false)

-- a text with no slash does not hold one
no_slash_inside : (t l m : Text) → HasNoSlash m → ¬ (m ≡ t ++ 47 ∷ l)
no_slash_inside [] l [] h e = cc
no_slash_inside [] l (c ∷ m) h e = absurd (ground arith)
no_slash_inside (a ∷ t) l [] h e = cc
no_slash_inside (a ∷ t) l (c ∷ m) h e = no_slash_inside t l m h.1 (ground arith)

-- Where neither local id holds a slash, equal check ids have the same scope path and the same local
-- id.
pub check_id_injective :
    (s t l m : Text) → HasNoSlash l → HasNoSlash m → check_id s l ≡ check_id t m → (s ≡ t) × (l ≡ m)
unfolding check_id
check_id_injective [] [] l m h k e = ground arith
check_id_injective [] (d ∷ t) l m h k e = absurd (no_slash_inside t m l h (ground arith))
check_id_injective (c ∷ s) [] l m h k e = absurd (no_slash_inside s l m k (ground arith))
check_id_injective (c ∷ s) (d ∷ t) l m h k e = ground (arith, check_id_injective s t l m h k)
