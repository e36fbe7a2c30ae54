-- ===== src/Lexer/Strings.antt =====
-- internal/lexer/string_tokenizer.go and internal/lexer/multi_line_string_tokenizer.go.
use slug.Prelude.{
  ℕ, zero, suc, ◌+◌, ◌-◌, ◌*◌, Bool, false, not, ◌&&◌, ◌||◌, ltb, leb, ◌==◌, if◌then◌else◌, [], ◌∷◌,
  ◌++◌,
}
use slug.Prelude.Text.{Text}
use slug.Token.{Token, illegal, string_token, out_of_rounds, token}
use slug.Lexer.{
  Lexer, general, ch, peek_char, peek_two_chars, read_char, rounds, switch_mode, set_mode,
}
use slug.Lexer.Skip.{without_last, read_chars}

-- consumeOctal after its first digit, with the digits that it may still take.
unfoldable pub more_octal : ℕ → Lexer → ℕ → Lexer × ℕ
more_octal zero l value = (l, value)
more_octal (suc left) l value =
    let next = peek_char l in
    let rest = more_octal left (read_char l) (value * 8 + (next - b'0')) in
    if ltb next b'0' || ltb b'7' next then (l, value) else rest

unfoldable pub consume_octal : Lexer → Lexer × ℕ
consume_octal l = more_octal 2 l (ch l - b'0')

-- The letters that stand for one code point after a backslash.
unfoldable pub escape_of : ℕ → ℕ
escape_of c =
    if c == b'n' then b'\n' else (if c == b'r' then b'\r' else (if c == b't' then b'\t' else c))

abbrev pub is_simple_escape : ℕ → Bool
is_simple_escape c = c == b'n' || c == b'r' || c == b't' || c == b'\\' || c == b'"' || c == b'{'

-- The switch over the code point after the backslash, which is current here, and what it writes.
unfoldable pub read_escape : Lexer → Lexer × Text
read_escape l =
    let (l', value) = consume_octal l in
    if is_simple_escape (ch l)
    then (l, escape_of (ch l) ∷ [])
    else (if leb b'0' (ch l) && leb (ch l) b'7' then (l', value ∷ []) else (l, b'\\' ∷ ch l ∷ []))

abbrev pub quote_of : Bool → ℕ
quote_of raw = if raw then b'\'' else b'"'

abbrev pub starts_interpolation : Bool → Lexer → Bool
starts_interpolation raw l = not raw && ch l == b'{' && peek_char l == b'{'

-- What the loops write for the current code point, and where they go on.
unfoldable pub read_piece : Bool → Lexer → Lexer × Text
read_piece raw l =
    let (l', text) = read_escape (read_char l) in
    if not raw && ch l == b'\\' then (read_char l', text) else (read_char l, ch l ∷ [])

-- The loops take a round for each code point that they look at.
unfoldable pub single_line_loop : Bool → ℕ → Lexer → Text → ℕ → Lexer × Token
single_line_loop raw zero l text start = (l, token out_of_rounds [] start)
single_line_loop raw (suc f) l text start =
    let (next, piece) = read_piece raw l in
    let rest = single_line_loop raw f next (text ++ piece) start in
    let closed = set_mode (read_char l) general in
    if ch l == 0
    then (l, token illegal (ch l ∷ []) start)
    else (if starts_interpolation raw l
        then (switch_mode l general, token string_token text start)
        else (if ch l == quote_of raw then (closed, token string_token text start) else rest))

unfoldable pub single_line_token : Bool → Lexer → Lexer × Token
single_line_token raw l = single_line_loop raw (rounds l) l [] l.position

abbrev pub ends_in_newline : Text → Bool
ends_in_newline [] = false
ends_in_newline (c ∷ []) = c == b'\n'
ends_in_newline (c ∷ d ∷ cs) = ends_in_newline (d ∷ cs)

abbrev pub without_newline : Text → Text
without_newline text = if ends_in_newline text then without_last text else text

abbrev pub closes : ℕ → Lexer → Bool
closes quote l = ch l == quote && peek_char l == quote && peek_two_chars l == quote

unfoldable pub multi_line_loop : Bool → ℕ → Lexer → Text → ℕ → Lexer × Token
multi_line_loop raw zero l text start = (l, token out_of_rounds [] start)
multi_line_loop raw (suc f) l text start =
    let (next, piece) = read_piece raw l in
    let rest = multi_line_loop raw f next (text ++ piece) start in
    let closed = set_mode (read_chars 3 l) general in
    if ch l == 0
    then (l, token illegal (ch l ∷ []) start)
    else (if starts_interpolation raw l
        then (switch_mode l general, token string_token text start)
        else (if closes (quote_of raw) l
            then (closed, token string_token (without_newline text) start)
            else rest))

unfoldable pub multi_line_token : Bool → Lexer → Lexer × Token
multi_line_token raw l = multi_line_loop raw (rounds l) l [] l.position
