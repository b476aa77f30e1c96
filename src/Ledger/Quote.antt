-- ===== src/Ledger/Quote.antt =====
-- `yaml_quote`: the chain of replacements escapes byte by byte, and a reader of double-quoted
-- scalars reads the value back.
use musts.Base.{
  ℕ, Bool, true, false, Option, none, some, ◌≡◌, refl, ◌∙◌, [], ◌∷◌, ◌++◌, arith, if◌then◌else◌,
}
use musts.Base.Order.{◌==◌, nat_ord}
use musts.Base.Text.{Text, text, replace, replace-append, IsLine, IsLine-append}
use musts.Ledger.Defs.{yaml_quote}
use mathlib.Core.Path.{ap₂}
use mathlib.Core.List.{append_assoc}

-- What a double-quoted YAML scalar writes for a byte of the value.
unfoldable pub escape_byte : ℕ → Text
unfolding text
escape_byte c =
    if c == 92
    then text "\\\\"
    else if c == 34
    then text "\\\""
    else if c == 10
    then text "\\n"
    else if c == 13
    then text "\\r"
    else if c == 9
    then text "\\t"
    else c ∷ []

unfoldable pub escape : Text → Text
unfolding escape_byte
escape [] = []
escape (c ∷ s) = escape_byte c ++ escape s

abbrev replacements : Text → Text
replacements s = replace 9 (text "\\t") (
    replace 13 (text "\\r")
      (replace 10 (text "\\n") (replace 34 (text "\\\"") (replace 92 (text "\\\\") s))))

replacements-byte : (c : ℕ) → replacements (c ∷ []) ≡ escape_byte c
unfolding replace escape_byte
replacements-byte c = ground arith

replacements-append : (s t : Text) → replacements (s ++ t) ≡ replacements s ++ replacements t
replacements-append s t = simp replace-append

replacements-eq-escape : (s : Text) → replacements s ≡ escape s
unfolding replace escape
replacements-eq-escape [] = refl
replacements-eq-escape (c ∷ s) =
    replacements-append (c ∷ []) s ∙ ap₂ ◌++◌ (replacements-byte c) (replacements-eq-escape s)

-- The chain of replacements writes each byte's escape, between two quotes.
pub yaml_quote-eq-escape : (s : Text) → yaml_quote s ≡ 34 ∷ escape s ++ 34 ∷ []
unfolding yaml_quote
yaml_quote-eq-escape s = rw replacements-eq-escape

-- The escapes that a reader of double-quoted scalars undoes, as far as `save` writes them.
abbrev unescape : ℕ → Option ℕ
unescape c =
    if c == 92
    then some 92
    else if c == 34
    then some 34
    else if c == b'n'
    then some 10
    else if c == b'r'
    then some 13
    else if c == b't'
    then some 9
    else none

abbrev push : ℕ → Option (Text × Text) → Option (Text × Text)
push c none = none
push c (some (v, rest)) = some (c ∷ v, rest)

abbrev push? : Option ℕ → Option (Text × Text) → Option (Text × Text)
push? none r = none
push? (some c) r = push c r

-- Reads a scalar after its opening quote, and returns what follows the closing one. The flag says
-- that a backslash stands before the text.
unfoldable pub read_quoted : Bool → Text → Option (Text × Text)
read_quoted escaped [] = none
read_quoted true (c ∷ s) = push? (unescape c) (read_quoted false s)
read_quoted false (c ∷ s) =
    let after_backslash = read_quoted true s in
    let plain = push c (read_quoted false s) in
    if c == 34 then some ([], s) else if c == 92 then after_backslash else plain

read_quoted-escape_byte :
    (c : ℕ) (s : Text) → read_quoted false (escape_byte c ++ s) ≡ push c (read_quoted false s)
unfolding read_quoted escape_byte text
read_quoted-escape_byte c s = ground arith

-- A value comes back from its escaped bytes, with the text that follows.
pub read_quoted-escape :
    (v rest : Text) → read_quoted false (escape v ++ 34 ∷ rest) ≡ some (v, rest)
unfolding escape read_quoted
read_quoted-escape [] rest = refl
read_quoted-escape (c ∷ v) rest =
    rw (append_assoc, read_quoted-escape_byte, read_quoted-escape v rest)

escape_byte-IsLine : (c : ℕ) → IsLine (escape_byte c)
unfolding escape_byte text
escape_byte-IsLine c = ground arith

-- The escaped bytes hold no end of a line.
pub escape-IsLine : (s : Text) → IsLine (escape s)
unfolding escape
escape-IsLine [] = tt
escape-IsLine (c ∷ s) =
    IsLine-append (escape_byte c) (escape s) (escape_byte-IsLine c) (escape-IsLine s)
