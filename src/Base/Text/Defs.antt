-- ===== src/Base/Text/Defs.antt =====
-- The functions of `str` that the program calls.
use Prim.Native.Nat.{ℕ, zero, suc, ◌-◌}
use Prim.Native.Char.{code}
use Prim.Native.String.{String}
use mathlib.Core.Bool.{Bool, true, false, ◌&&◌, ◌||◌}
use mathlib.Core.Option.{Option, none, some}
use mathlib.Core.List.{List, [], ◌∷◌, ◌++◌, reverse}
use musts.Base.Tests.{if◌then◌else◌, leb}
use musts.Base.Order.{◌==◌, nat_ord}

abbrev pub Text : Type 0
Text = List ℕ

-- The bytes of an ASCII literal.
unfoldable pub text : String → Text
text String.[] = []
text (String.◌∷◌ c s) = code c ∷ text s

-- `s.strip_prefix(p)`
unfoldable pub strip_prefix : Text → Text → Option Text
strip_prefix [] s = some s
strip_prefix (c ∷ p) [] = none
strip_prefix (c ∷ p) (d ∷ s) = if c == d then strip_prefix p s else none

-- `s.starts_with(p)`
unfoldable pub starts_with : Text → Text → Bool
starts_with [] s = true
starts_with (c ∷ p) [] = false
starts_with (c ∷ p) (d ∷ s) = (c == d) && starts_with p s

-- `s.ends_with(c)` for an ASCII character
unfoldable pub ends_with_byte : ℕ → Text → Bool
ends_with_byte b [] = false
ends_with_byte b (c ∷ []) = c == b
ends_with_byte b (c ∷ d ∷ s) = ends_with_byte b (d ∷ s)

-- `s.contains(p)`
unfoldable pub contains_text : Text → Text → Bool
unfolding starts_with
contains_text p [] = starts_with p []
contains_text p (c ∷ s) = starts_with p (c ∷ s) || contains_text p s

abbrev pub push_byte : ℕ → List Text → List Text
push_byte c [] = (c ∷ []) ∷ []
push_byte c (l ∷ ls) = (c ∷ l) ∷ ls

abbrev pub at_newline : Text → Bool
at_newline [] = false
at_newline (c ∷ s) = c == 10

-- `s.lines()`: the line feed ends a line, with the carriage return before it; a last line that
-- nothing follows is not empty.
unfoldable pub lines : Text → List Text
lines [] = []
lines (c ∷ s) =
    let rest = lines s in
    if c == 10 then [] ∷ rest else if c == 13 && at_newline s then rest else push_byte c rest

-- `s.split(c)` for an ASCII character
unfoldable pub split_on : ℕ → Text → List Text
split_on b [] = [] ∷ []
split_on b (c ∷ s) = let rest = split_on b s in if c == b then [] ∷ rest else push_byte c rest

-- `parts.join(sep)`
unfoldable pub join : Text → List Text → Text
join sep [] = []
join sep (p ∷ []) = p
join sep (p ∷ q ∷ ps) = p ++ sep ++ join sep (q ∷ ps)

-- `s.replace(c, r)` for an ASCII character
unfoldable pub replace : ℕ → Text → Text → Text
replace b r [] = []
replace b r (c ∷ s) = (if c == b then r else c ∷ []) ++ replace b r s

-- `str::from_utf8(bytes).is_ok()`: `k` continuation bytes are due, the next in `lo..=hi`.
record Utf8 : Type 0 where
  due : ℕ
  lo : ℕ
  hi : ℕ

between : ℕ → ℕ → ℕ → Bool
between lo hi c = leb lo c && leb c hi

utf8_start : ℕ → Option Utf8
unfolding between
utf8_start c =
    if leb c 0x7f
    then some (record { due = 0; lo = 0x80; hi = 0xbf })
    else if between 0xc2 0xdf c
    then some (record { due = 1; lo = 0x80; hi = 0xbf })
    else if c == 0xe0
    then some (record { due = 2; lo = 0xa0; hi = 0xbf })
    else if c == 0xed
    then some (record { due = 2; lo = 0x80; hi = 0x9f })
    else if between 0xe1 0xef c
    then some (record { due = 2; lo = 0x80; hi = 0xbf })
    else if c == 0xf0
    then some (record { due = 3; lo = 0x90; hi = 0xbf })
    else if between 0xf1 0xf3 c
    then some (record { due = 3; lo = 0x80; hi = 0xbf })
    else if c == 0xf4
    then some (record { due = 3; lo = 0x80; hi = 0x8f })
    else none

utf8_step : Utf8 → ℕ → Option Utf8
unfolding utf8_start between
utf8_step u c =
    if u.due == 0
    then utf8_start c
    else if between u.lo u.hi c
    then some (record { due = u.due - 1; lo = 0x80; hi = 0xbf })
    else none

utf8_from : Option Utf8 → Text → Bool
unfolding utf8_step
utf8_from none s = false
utf8_from (some u) [] = u.due == 0
utf8_from (some u) (c ∷ s) = utf8_from (utf8_step u c) s

unfoldable pub is_utf8 : Text → Bool
unfolding utf8_from
is_utf8 s = utf8_from (some (record { due = 0; lo = 0x80; hi = 0xbf })) s

-- The bytes of U+FFFD.
replacement : Text
replacement = 0xef ∷ 0xbf ∷ 0xbd ∷ []

-- `String::from_utf8_lossy`: `pending` is the beginning of a character, backwards; each longest
-- beginning that does not go on to be a character is replaced.
lossy_start : ℕ → Text × Option (Utf8 × Text)
unfolding utf8_start replacement
lossy_start c = elim (utf8_start c) [
  | none ↦ (replacement, none)
  | some u ↦ if u.due == 0 then (c ∷ [], none) else ([], some (u, c ∷ []))
]

lossy_step : Option (Utf8 × Text) → ℕ → Text × Option (Utf8 × Text)
unfolding lossy_start between replacement
lossy_step none c = lossy_start c
lossy_step (some (u, pending)) c =
    if between u.lo u.hi c
    then if u.due == 1
      then (reverse (c ∷ pending), none)
      else ([], some (record { due = u.due - 1; lo = 0x80; hi = 0xbf }, c ∷ pending))
    else (replacement ++ (lossy_start c).0, (lossy_start c).1)

lossy_from : Option (Utf8 × Text) → Text → Text
unfolding lossy_step replacement
lossy_from none [] = []
lossy_from (some pending) [] = replacement
lossy_from state (c ∷ s) = (lossy_step state c).0 ++ lossy_from (lossy_step state c).1 s

unfoldable pub from_utf8_lossy : Text → Text
unfolding lossy_from
from_utf8_lossy s = lossy_from none s

-- The bytes of a character of Unicode's White_Space at the head of a text, or 0.
pub white_len : Text → ℕ
unfolding between
white_len [] = 0
white_len (c ∷ []) = if between 9 13 c || c == 32 then 1 else 0
white_len (c ∷ d ∷ []) =
    if between 9 13 c || c == 32 then 1 else if c == 0xc2 && (d == 0x85 || d == 0xa0) then 2 else 0
white_len (c ∷ d ∷ e ∷ s) =
    if between 9 13 c || c == 32
    then 1
    else if c == 0xc2 && (d == 0x85 || d == 0xa0)
    then 2
    else if (c == 0xe1 && d == 0x9a && e == 0x80)
        || (c == 0xe2 && d == 0x80 && (between 0x80 0x8a e || e == 0xa8 || e == 0xa9 || e == 0xaf))
        || (c == 0xe2 && d == 0x81 && e == 0x9f)
        || (c == 0xe3 && d == 0x80 && e == 0x80)
    then 3
    else 0

trim_skip : ℕ → Text → Text
unfolding white_len
trim_skip k [] = []
trim_skip zero (c ∷ s) = elim (white_len (c ∷ s)) [ zero ↦ c ∷ s | suc n ↦ trim_skip n s ]
trim_skip (suc k) (c ∷ s) = trim_skip k s

-- `s.trim_start()`
unfoldable pub trim_start : Text → Text
unfolding trim_skip
trim_start s = trim_skip 0 s

-- `s.trim()` removes the same characters at the end: a text that is white from here on is dropped.
drop_white_end : Text → Text
unfolding trim_skip
drop_white_end [] = []
drop_white_end (c ∷ s) = elim (trim_skip 0 (c ∷ s)) [ [] ↦ [] | _ ∷ _ ↦ c ∷ drop_white_end s ]

unfoldable pub trim : Text → Text
unfolding trim_start drop_white_end
trim s = drop_white_end (trim_start s)

take_word : Text → Text
unfolding white_len
take_word [] = []
take_word (c ∷ s) =
    let rest = take_word s in elim (white_len (c ∷ s)) [ zero ↦ c ∷ rest | suc n ↦ [] ]

-- `s.split_whitespace().next()`, where it gives a word
unfoldable pub first_word : Text → Text
unfolding trim_start take_word
first_word s = take_word (trim_start s)
