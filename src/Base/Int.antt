-- ===== src/Base/Int.antt =====
-- `i64`: an integer with its sign, and `str::parse::<i64>`.
use Prim.Native.Nat.{ℕ, ◌+◌, ◌-◌, ◌*◌, ◌^◌, ◌%◌}
use mathlib.Core.Bool.{Bool, true, false, ◌&&◌}
use mathlib.Core.Option.{Option, none, some}
use mathlib.Core.List.{[], ◌∷◌}
use musts.Base.Tests.{if◌then◌else◌, ltb, leb}
use musts.Base.Order.{◌==◌, ==_iff, nat_ord}
use mathlib.Core.Path.{◌≡◌, ap}
use musts.Base.Text.{Text}

-- `negsuc n` is -(n + 1).
pub data ℤ : Type 0 where
  pos : ℕ → ℤ
  negsuc : ℕ → ℤ

-- -n
unfoldable pub neg : ℕ → ℤ
neg n = if n == 0 then ℤ.pos 0 else ℤ.negsuc (n - 1)

-- `n > z`, for a number that is not negative
unfoldable pub exceeds : ℕ → ℤ → Bool
exceeds n (ℤ.pos m) = ltb m n
exceeds n (ℤ.negsuc m) = true

-- `z == n`, for a number that is not negative
unfoldable pub equals : ℤ → ℕ → Bool
equals (ℤ.pos m) n = m == n
equals (ℤ.negsuc m) n = false

-- A number as the integer that is equal to it.
pub equals-eq-pos : (z : ℤ) (n : ℕ) → equals z n ≡ true → z ≡ ℤ.pos n
unfolding equals
equals-eq-pos (ℤ.pos m) n h = ap ℤ.pos ((==_iff m n).0 h)
equals-eq-pos (ℤ.negsuc m) n h = cc

-- `n as i64`: it wraps around
unfoldable pub as_i64 : ℕ → ℤ
as_i64 n = let r = n % 2 ^ 64 in if ltb r (2 ^ 63) then ℤ.pos r else ℤ.negsuc (2 ^ 64 - 1 - r)

-- `z * k`
unfoldable pub scale : ℕ → ℤ → ℤ
unfolding neg
scale k (ℤ.pos m) = ℤ.pos (m * k)
scale k (ℤ.negsuc m) = neg ((m + 1) * k)

unfoldable pub digits_from : ℕ → Text → Option ℕ
digits_from n [] = some n
digits_from n (c ∷ s) =
    let rest = digits_from (n * 10 + (c - 48)) s in if leb 48 c && leb c 57 then rest else none

unfoldable pub digits : Text → Option ℕ
unfolding digits_from
digits [] = none
digits (c ∷ s) = digits_from 0 (c ∷ s)

unfoldable pub in_range : Bool → Option ℕ → Option ℤ
unfolding neg
in_range negative none = none
in_range true (some n) = if leb n (2 ^ 63) then some (neg n) else none
in_range false (some n) = if ltb n (2 ^ 63) then some (ℤ.pos n) else none

unfoldable pub parse_i64 : Text → Option ℤ
unfolding digits in_range
parse_i64 [] = none
parse_i64 (c ∷ s) =
    if c == 45
    then in_range true (digits s)
    else if c == 43
    then in_range false (digits s)
    else in_range false (digits (c ∷ s))
