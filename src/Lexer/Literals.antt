-- ===== src/Lexer/Literals.antt =====
-- internal/lexer/lexer.go: identifiers, numbers and bytes.
use slug.Prelude.{
  ℕ, zero, suc, ◌%◌, Bool, true, false, not, ◌&&◌, ◌||◌, leb, ◌==◌, if◌then◌else◌, Option, none,
  some, [], ◌∷◌, ◌++◌, length,
}
use slug.Prelude.Text.{Text, codes, size}
use slug.Lexer.{UnicodeTables, Lexer, ch, peek_char, read_char, rounds, first, last_byte}
use slug.Lexer.Skip.{Scanned, scanned, malformed}

unfoldable pub is_letter : UnicodeTables → ℕ → Bool
is_letter u c = c == b'_' || u.letter c || u.mark c

abbrev pub is_digit : UnicodeTables → ℕ → Bool
is_digit u c = u.decimal_digit c

unfoldable pub is_hex_digit : ℕ → Bool
is_hex_digit c = leb b'0' c && leb c b'9' || leb b'a' c && leb c b'f' || leb b'A' c && leb c b'F'

-- Reads while a test holds of the current code point, and returns what it read. The tests hold of
-- no code point 0, so they stop at the end of the input.
unfoldable pub read_while : (ℕ → Bool) → ℕ → Lexer → Text → Lexer × Text
unfolding read_char
read_while test zero l text = (l, text)
read_while test (suc f) l text =
    let rest = read_while test f (read_char l) (text ++ (ch l ∷ [])) in
    if test (ch l) then rest else (l, text)

unfoldable pub read_identifier : UnicodeTables → Lexer → Lexer × Text
unfolding read_while is_letter
read_identifier u l = read_while (λ c. is_letter u c || is_digit u c) (rounds l) l []

-- An underscore stands between digits: the byte before it, and the code point after it.
abbrev pub between : (ℕ → Bool) → Lexer → Bool
between test l = test (last_byte (first l.behind)) && test (peek_char l)

-- A run of digits and underscores in readNumber; the flag is false where an underscore is misplaced.
unfoldable pub read_digits : UnicodeTables → ℕ → Lexer → Text → Lexer × Text × Bool
unfolding read_char
read_digits u zero l text = (l, text, true)
read_digits u (suc f) l text =
    let after_underscore = read_digits u f (read_char l) text in
    let after_digit = read_digits u f (read_char l) (text ++ (ch l ∷ [])) in
    if not (is_digit u (ch l) || ch l == b'_')
    then (l, text, true)
    else (if ch l == b'_'
        then (if between u.decimal_digit l then after_underscore else (l, text, false))
        else after_digit)

-- The fraction, if a digit follows the point.
unfoldable pub read_fraction : UnicodeTables → Lexer → Text → Lexer × Text × Bool
unfolding read_digits
read_fraction u l text =
    if ch l == b'.' && is_digit u (peek_char l)
    then read_digits u (rounds l) (read_char l) (text ++ (b'.' ∷ []))
    else (l, text, true)

abbrev pub read_sign : Lexer × Text → Lexer × Text
read_sign (l, text) =
    if ch l == b'+' || ch l == b'-' then (read_char l, text ++ (ch l ∷ [])) else (l, text)

unfoldable pub read_exponent : UnicodeTables → Lexer → Text → Lexer × Text
unfolding read_while
read_exponent u l text =
    let (l', signed) = read_sign (read_char l, text ++ (ch l ∷ [])) in
    if ch l == b'e' || ch l == b'E'
    then read_while (is_digit u) (rounds l') l' signed
    else (l, text)

abbrev pub underscore_error : Text
underscore_error = codes "underscore must be between digits in number literal"

unfoldable pub read_number : UnicodeTables → Lexer → Lexer × Scanned
unfolding read_digits read_fraction read_exponent
read_number u l =
    let (l₁, digits, ok₁) = read_digits u (rounds l) l [] in
    let (l₂, fraction, ok₂) = read_fraction u l₁ digits in
    let (l₃, text) = read_exponent u l₂ fraction in
    if not ok₁
    then (l₁, malformed underscore_error)
    else (if not ok₂ then (l₂, malformed underscore_error) else (l₃, scanned text))

-- The loop of readHexLiteral stops at an underscore that is misplaced.
unfoldable pub read_hex_digits : ℕ → Lexer → Text → Lexer × Text
unfolding read_char is_hex_digit
read_hex_digits zero l text = (l, text)
read_hex_digits (suc f) l text =
    let after_underscore = read_hex_digits f (read_char l) text in
    let after_digit = read_hex_digits f (read_char l) (text ++ (ch l ∷ [])) in
    if not (is_hex_digit (ch l) || ch l == b'_')
    then (l, text)
    else (if ch l == b'_'
        then (if between is_hex_digit l then after_underscore else (l, text))
        else after_digit)

abbrev pub hex_error : Text
hex_error = codes "expected hex digit after '0x'"

-- The digits after `0x` and an underscore, with the check of the length of all of it.
unfoldable pub read_hex_rest : Lexer → Text → Lexer × Scanned
unfolding read_hex_digits is_hex_digit
read_hex_rest l text =
    let (l', hex) = read_hex_digits (rounds l) l text in
    if not (is_hex_digit (ch l))
    then (l, malformed hex_error)
    else (if length hex % 2 == 0
        then (l', scanned hex)
        else (l', malformed (codes "hex literal must have even length")))

unfoldable pub read_hex_literal : Lexer → Lexer × Scanned
read_hex_literal l =
    let l₁ = read_char l in
    let l₂ = read_char l₁ in
    let text = ch l ∷ ch l₁ ∷ [] in
    if not (ch l₁ == b'x')
    then (l₁, malformed (codes "expected 'x' after '0'"))
    else (if ch l₂ == b'_'
        then (if is_hex_digit (peek_char l₂)
            then read_hex_rest (read_char l₂) text
            else (l₂, malformed hex_error))
        else read_hex_rest l₂ text)

-- The loop of readByteArrayLiteral: it reads a code point before it looks at it, so the first is not
-- looked at. The flag is false at a code point that is no hex digit.
unfoldable pub read_byte_digits : ℕ → Lexer → Text → Lexer × Text × Bool
unfolding read_char is_hex_digit
read_byte_digits zero l text = (l, text, true)
read_byte_digits (suc f) l text =
    let next = read_char l in
    let read = text ++ (ch l ∷ []) in
    let rest = read_byte_digits f next read in
    if ch next == b'"' || ch next == 0
    then (next, read, true)
    else (if is_hex_digit (ch next) then rest else (next, read, false))

-- `0x""` is empty.
unfoldable pub bytes_from : Lexer → Lexer × Text × Bool
bytes_from l = if ch l == b'"' then (l, [], true) else read_byte_digits (rounds l) l []

-- The length is that in bytes.
unfoldable pub read_byte_array_literal : Lexer → Lexer × Option Text
read_byte_array_literal l =
    let (l', hex, ok) = bytes_from (read_char (read_char (read_char l))) in
    if not ok || not (ch l' == b'"')
    then (l', none)
    else (if size hex % 2 == 0 then (read_char l', some hex) else (l', none))
