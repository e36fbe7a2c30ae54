-- ===== src/Lexer/General.antt =====
-- internal/lexer/general_tokenizer.go, and NextToken of internal/lexer/lexer.go.
use slug.Prelude.{
  ℕ, zero, suc, ◌-◌, Bool, true, false, ◌&&◌, ◌||◌, ltb, ◌==◌, if◌then◌else◌, Option, none, some,
  List, [], ◌∷◌,
}
use slug.Prelude.Text.{Text, codes}
use slug.Token.{
  TokenType, illegal, eof, newline, doc_comment, number, bytes, assign, plus, minus, bang, asterisk,
  slash, percent, underscore, at_sign, append_item, prepend_item, interpolation_start,
  interpolation_end, match_keys_exact, match_keys_close, lt, lt_eq, gt, gt_eq, complement,
  bitwise_and, bitwise_or, bitwise_xor, shift_left, shift_right, logical_and, logical_or, eq,
  not_eq, rocket, ellipsis, not_implemented, call_chain, period, comma, semicolon, colon, lparen,
  rparen, lbrace, rbrace, lbracket, rbracket, out_of_rounds, Token, token, lookup_ident,
}
use slug.Lexer.{
  UnicodeTables, Tokenizer, general, single_line, multi_line, Lexer, ch, peek_char, peek_two_chars,
  read_char, switch_mode, set_mode, push_interpolation_return_mode, pop_interpolation_return_mode,
  has_interpolation_return_mode, can_start_interpolation, push_delimiter_baseline,
  pop_delimiter_baseline, within_baseline, rounds, here, handle_compound_token,
  handle_compound_token2,
}
use slug.Lexer.Skip.{
  skip_whitespace, is_blank, skip_block_comment, Scanned, scanned, malformed, read_doc_comment,
  read_chars,
}
use slug.Lexer.Literals.{
  is_letter, is_digit, read_identifier, read_number, read_hex_literal, read_byte_array_literal,
}
use slug.Lexer.Strings.{single_line_token, multi_line_token}

-- How a case of the switch goes on: to the `readChar` at the end, to a return, or to another call.
pub data Outcome : Type 0 where
  consume : Lexer × Token → Outcome
  emit : Lexer × Token → Outcome
  again : Lexer → Outcome

-- The loop that collapses newlines, with their number.
unfoldable pub collapse : ℕ → Lexer → ℕ → Lexer × ℕ
collapse zero l count = (l, count)
collapse (suc f) l count =
    let next = read_char l in
    let after_newline = collapse f (skip_whitespace (rounds next) next) (suc count) in
    let after_blank = collapse f (skip_whitespace (rounds next) next) count in
    if ch l == b'\n' then after_newline else (if is_blank (ch l) then after_blank else (l, count))

abbrev pub newlines : ℕ → Text
newlines zero = []
newlines (suc n) = b'\n' ∷ newlines n

unfoldable pub scan_newline : Lexer → Outcome
scan_newline l =
    let (l', count) = collapse (rounds l) l 0 in
    if within_baseline l.delimiter_brace_baselines l.brace_depth
    then again (read_char l)
    else emit (l', token newline (newlines (if count == 0 then 1 else count)) l.position)

abbrev pub error_or : Lexer → TokenType → Lexer × Scanned → Outcome
error_or l kind (l', scanned text) = emit (l', token kind text l.position)
error_or l kind (l', malformed message) = emit (l', token illegal message l.position)

unfoldable pub scan_slash : UnicodeTables → Lexer → Outcome
scan_slash u l =
    let (l', closed) = skip_block_comment l in
    if peek_char l == b'>'
    then consume (read_char l, token call_chain (codes "/>") l.position)
    else (if peek_char l == b'*'
        then (if peek_two_chars l == b'*'
            then error_or l doc_comment (read_doc_comment u l)
            else (if closed
                then again l'
                else emit (l', token illegal (codes "unterminated block comment") l.position)))
        else consume (l, here slash l))

abbrev pub one_less : ℕ → ℕ
one_less n = if ltb 0 n then n - 1 else n

unfoldable pub scan_bar : Lexer → Outcome
scan_bar l =
    if peek_char l == b'|'
    then consume (read_char l, token logical_or (codes "||") l.position)
    else (if peek_char l == b'}'
        then consume (
          (let l' = read_char l in record l' { brace_depth = one_less l'.brace_depth }),
          token match_keys_close (codes "|}") l.position,
        )
        else consume (l, here bitwise_or l))

abbrev pub word : Lexer → Lexer × Text → Outcome
word l (l', text) = emit (l', token (lookup_ident text) text l.position)

unfoldable pub scan_underscore : UnicodeTables → Lexer → Outcome
scan_underscore u l =
    if is_letter u (peek_char l)
    then word l (read_identifier u l)
    else consume (l, here underscore l)

-- Three equal code points in a row.
abbrev pub tripled : Lexer → Bool
tripled l = peek_char l == ch l && peek_two_chars l == ch l

unfoldable pub scan_dots : Lexer → Outcome
scan_dots l =
    if tripled l
    then consume (read_chars 2 l, token ellipsis (codes "...") l.position)
    else consume (l, here period l)

unfoldable pub scan_question : Lexer → Outcome
scan_question l =
    if tripled l
    then consume (read_chars 2 l, token not_implemented (codes "???") l.position)
    else emit (l, here illegal l)

unfoldable pub scan_lbrace : Lexer → Outcome
scan_lbrace l =
    let next = read_char l in
    if peek_char l == b'{' && can_start_interpolation l
    then consume (
      push_interpolation_return_mode next next.prev_mode,
      token interpolation_start (codes "{{") l.position,
    )
    else (if peek_char l == b'|'
        then consume (
          record next { brace_depth = suc next.brace_depth },
          token match_keys_exact (codes "{|") l.position,
        )
        else consume (record l { brace_depth = suc l.brace_depth }, here lbrace l))

-- The mode after `}}`; a string that ends right there is left at once.
abbrev pub resumed : Lexer → Option Tokenizer → Lexer
resumed l none = l
resumed l (some general) = switch_mode l general
resumed l (some (single_line raw)) =
    if peek_char l == b'"' then set_mode (read_char l) general else switch_mode l (single_line raw)
resumed l (some (multi_line raw)) = switch_mode l (multi_line raw)

unfoldable pub scan_rbrace : Lexer → Outcome
scan_rbrace l =
    let (popped, mode) = pop_interpolation_return_mode (read_char l) in
    if has_interpolation_return_mode l && peek_char l == b'}'
    then consume (resumed popped mode, token interpolation_end (codes "}}") l.position)
    else consume (record l { brace_depth = one_less l.brace_depth }, here rbrace l)

unfoldable pub scan_delimiter : Lexer → Outcome
scan_delimiter l =
    let opened = push_delimiter_baseline l in
    let closed = pop_delimiter_baseline l in
    if ch l == b'('
    then consume (record opened { paren_depth = suc l.paren_depth }, here lparen l)
    else (if ch l == b')'
        then consume (record closed { paren_depth = one_less l.paren_depth }, here rparen l)
        else (if ch l == b'['
            then consume (record opened { bracket_depth = suc l.bracket_depth }, here lbracket l)
            else consume
                (record closed { bracket_depth = one_less l.bracket_depth }, here rbracket l)))

-- A newline right after the opening quotes of a multi-line string is not part of it.
abbrev pub past_newline : Lexer → Lexer
past_newline l = if ch l == b'\n' then read_char l else l

unfoldable pub scan_quote : Bool → Lexer → Outcome
scan_quote raw l =
    if tripled l
    then emit (multi_line_token raw (switch_mode (past_newline (read_chars 3 l)) (multi_line raw)))
    else emit (single_line_token raw (switch_mode (read_char l) (single_line raw)))

abbrev pub bytes_or : Lexer → Lexer × Option Text → Outcome
bytes_or l (l', some text) = emit (l', token bytes text l.position)
bytes_or l (l', none) = emit (l', token illegal (codes "invalid bytes literal") l.position)

unfoldable pub scan_digit : UnicodeTables → Lexer → Outcome
scan_digit u l =
    if ch l == b'0' && peek_char l == b'x' && peek_two_chars l == b'"'
    then bytes_or l (read_byte_array_literal l)
    else (if ch l == b'0' && peek_char l == b'x'
        then error_or l number (read_hex_literal l)
        else error_or l number (read_number u l))

unfoldable pub scan_word : UnicodeTables → Lexer → Outcome
scan_word u l =
    if is_letter u (ch l)
    then word l (read_identifier u l)
    else (if is_digit u (ch l) then scan_digit u l else consume (l, here illegal l))

-- The cases of one or two code points.
unfoldable pub scan_operator : Lexer → Outcome
scan_operator l =
    let c = ch l in
    if c == b'='
    then consume (handle_compound_token2 l assign b'=' eq b'>' rocket)
    else (if c == b'+'
        then consume (handle_compound_token l plus b':' prepend_item)
        else (if c == b'-'
            then consume (l, here minus l)
            else (if c == b'!'
                then consume (handle_compound_token l bang b'=' not_eq)
                else (if c == b'*'
                    then consume (l, here asterisk l)
                    else (if c == b'%'
                        then consume (l, here percent l)
                        else (if c == b'~'
                            then consume (l, here complement l)
                            else (if c == b'&'
                                then consume (handle_compound_token l bitwise_and b'&' logical_and)
                                else (if c == b'^'
                                    then consume (l, here bitwise_xor l)
                                    else (if c == b'<'
                                        then consume
                                            (handle_compound_token2 l lt b'=' lt_eq b'<' shift_left)
                                        else (if c == b'>'
                                            then consume (
                                                handle_compound_token2 l gt b'=' gt_eq b'>'
                                                  shift_right)
                                            else (if c == b';'
                                                then consume (l, here semicolon l)
                                                else (if c == b':'
                                                    then consume (
                                                        handle_compound_token l colon b'+'
                                                          append_item)
                                                    else (if c == b','
                                                        then consume (l, here comma l)
                                                        else consume
                                                            (l, here at_sign l))))))))))))))

abbrev pub one_of : Text → ℕ → Bool
one_of [] c = false
one_of (d ∷ ds) c = d == c || one_of ds c

-- The code points that each group of cases is for.
abbrev pub is_operator : ℕ → Bool
is_operator c = one_of (codes "=+-!*%~&^<>;:,@") c

abbrev pub is_delimiter : ℕ → Bool
is_delimiter c = one_of (codes "()[]") c

unfoldable pub scan : UnicodeTables → Lexer → Outcome
scan u l =
    let c = ch l in
    if c == b'\n'
    then scan_newline l
    else (if is_operator c
        then scan_operator l
        else (if c == b'/'
            then scan_slash u l
            else (if c == b'|'
                then scan_bar l
                else (if c == b'_'
                    then scan_underscore u l
                    else (if c == b'.'
                        then scan_dots l
                        else (if c == b'?'
                            then scan_question l
                            else (if c == b'{'
                                then scan_lbrace l
                                else (if c == b'}'
                                    then scan_rbrace l
                                    else (if is_delimiter c
                                        then scan_delimiter l
                                        else (if c == b'"'
                                            then scan_quote false l
                                            else (if c == b'\''
                                                then scan_quote true l
                                                else (if c == 0
                                                    then consume (l, token eof [] l.position)
                                                    else scan_word u l))))))))))))

-- NextToken of the general tokenizer; each call of itself is a round. Without a round left the token has
-- a kind of its own, which no other clause returns.
unfoldable pub general_token : UnicodeTables → ℕ → Lexer → Lexer × Token
general_token u zero l = (l, token out_of_rounds [] l.position)
general_token u (suc f) l = elim (scan u (skip_whitespace (rounds l) l)) [
  | consume out ↦ (read_char out.0, out.1)
  | emit out ↦ out
  | again next ↦ general_token u f next
]

abbrev pub token_in : UnicodeTables → Tokenizer → Lexer → Lexer × Token
token_in u general l = general_token u (rounds l) l
token_in u (single_line raw) l = single_line_token raw l
token_in u (multi_line raw) l = multi_line_token raw l

unfoldable pub next_token : UnicodeTables → Lexer → Lexer × Token
next_token u l = token_in u l.current_mode l

-- The first tokens of a lexer.
unfoldable pub tokens : UnicodeTables → ℕ → Lexer → List Token
tokens u zero l = []
tokens u (suc n) l = let (l', t) = next_token u l in t ∷ tokens u n l'
