-- ===== src/Lexer/Progress.antt =====
-- How far a call of NextToken, internal/lexer/lexer.go, reads.
pub mod Cases
pub mod Stream
use slug.Prelude.{
  ℕ, zero, suc, ◌+◌, ◌-◌, ◌*◌, ◌≤◌, ◌<◌, ◌≡◌, refl, ◌⊎◌, ◌∙◌, sym, ap, Bool, true, false, not, ◌&&◌,
  ◌||◌, ◌==◌, ==_iff, if◌then◌else◌, Option, none, some, List, [], ◌∷◌, ◌++◌, length, Bool-cases,
  Option-cases, inl, inr, arith,
}
use mathlib.Core.Bool.{true≢false}
use slug.Prelude.Text.{Text, codes}
use slug.Token.{Token, TokenType, number, illegal, eof, token}
use slug.Lexer.{
  UnicodeTables, Lexer, Tokenizer, general, single_line, multi_line, ch, peek_char, peek_two_chars,
  read_char, rounds, new_lexer, switch_mode, within_baseline,
}
use slug.Lexer.Skip.{
  Scanned, scanned, malformed, read_chars, skip_nested, skip_block_comment, skip_whitespace,
  is_blank, read_doc_content, read_doc_comment,
}
use slug.Lexer.Literals.{
  is_letter, is_digit, between, read_while, read_identifier, read_digits, read_fraction,
  read_exponent, read_number, read_hex_literal, read_byte_array_literal,
}
use slug.Lexer.Strings.{
  quote_of, starts_interpolation, single_line_loop, single_line_token, closes, multi_line_loop,
  multi_line_token,
}
use slug.Lexer.General.{
  Outcome, consume, emit, again, collapse, scan_newline, error_or, scan_slash, scan_bar, word,
  scan_underscore, tripled, scan_dots, scan_question, scan_lbrace, scan_rbrace, scan_delimiter,
  past_newline, scan_quote, bytes_or, scan_digit, scan_word, scan_operator, scan, general_token,
  token_in, next_token, tokens,
}
use slug.Lexer.Cursor.{After, After-trans, left, read-After, read_char-After, read_char-lt, ch_pos}
use slug.Lexer.Reading.{
  skip_nested-After, read_doc_content-After, read_fraction-After, read_exponent-After,
  skip_whitespace-After, read_chars-After, read_digits-After, read_while-After, read_number-After,
  read_hex_literal-After, read_byte_array_literal-After,
}
use slug.Lexer.Bounds.{Fits, single_line_token-Fits, multi_line_token-Fits}
use slug.Lexer.Bounds.Tokens.{scan-Fits, next_token-Fits}
use slug.Lexer.Bounds.Cases.{FitsOutcome, collapse-After, past_newline-After}

-- The kinds of token that the parser does not read past.
abbrev pub Stops : Token → Type 0
Stops t = (t.kind ≡ eof) ⊎ (t.kind ≡ illegal)

abbrev pub Falls : Lexer → Lexer × Token → Type 0
Falls l (k, t) = Stops t ⊎ (left k < left l)

-- Where a case ends in `consume` the code point read at the end makes the difference.
unfoldable pub FallsOutcome : Lexer → Outcome → Type 0
FallsOutcome l (consume out) = Unit
FallsOutcome l (emit out) = Falls l out
FallsOutcome l (again k) = left k < left l

pub consumed-Falls : (l : Lexer) (out : Lexer × Token) → FallsOutcome l (consume out)
unfolding FallsOutcome
consumed-Falls l out = record {}

-- What comes after the first `readChar`.
pub read-falls : (l k : Lexer) → 0 < left l → After (read_char l) k → left k < left l
read-falls l k h a = omega (arith, a.shorter, read_char-lt l h)
