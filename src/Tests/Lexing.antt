-- ===== src/Tests/Lexing.antt =====
-- Texts and their tokens, with the tables of ASCII.
use slug.Prelude.{ℕ, some, true, ◌≡◌, refl, false, ◌&&◌, ◌||◌, leb, ◌==◌, List, [], ◌∷◌}
use Prim.Native.String.{String}
use slug.Prelude.Text.{codes}
use slug.Token.{
  Token, token, illegal, ident, number, eof, assign, string_token, lparen, rparen,
  interpolation_start, interpolation_end, val_token, bytes, lookup_ident, doc_comment,
}
use slug.Lexer.{UnicodeTables, Lexer, ch, single_line, new_lexer, rounds}
use slug.Lexer.Spelling.Cases.{HasNoZero}
use slug.Lexer.Spelling.Tokens.{Laid, tokens-Laid}
use slug.Lexer.Stopping.{is_found}
use slug.Lexer.Stopping.Numbers.{digits_end, hex_digits_end, bytes_end, scanning_loops_stop}
use slug.Lexer.Stopping.Kinds.{is_kind}
use slug.Lexer.Stopping.Rounds.{next_token-kind}
use slug.Lexer.Skip.{
  skip_whitespace, skip_block_comment, read_doc_comment, skip_to_line_end, skip_nested,
  read_doc_content, is_blank, starts_line_comment,
}
use slug.Lexer.Literals.{
  is_letter, is_digit, read_digits, read_hex_digits, read_identifier, read_byte_digits, read_number,
  read_hex_rest, read_hex_literal, bytes_from, read_byte_array_literal,
}
use slug.Lexer.Strings.{
  consume_octal, read_escape, read_piece, single_line_loop, single_line_token, multi_line_loop,
  multi_line_token,
}
use slug.Lexer.General.{
  collapse, scan_newline, scan_slash, scan_bar, scan_underscore, scan_dots, scan_question,
  scan_lbrace, scan_rbrace, scan_delimiter, scan_quote, scan_digit, scan_word, scan_operator, scan,
  general_token, next_token, tokens,
}

abbrev pub ascii : UnicodeTables
ascii = record {
  letter = λ c. leb b'a' c && leb c b'z' || leb b'A' c && leb c b'Z';
  mark = λ c. false;
  decimal_digit = λ c. leb b'0' c && leb c b'9';
  white_space = λ c. c == b' ' || leb b'\t' c && leb c b'\r';
}

unfoldable lexed : ℕ → String → List Token
unfolding tokens next_token general_token scan skip_whitespace scan_word scan_underscore is_letter
    read_identifier scan_operator scan_digit read_hex_literal read_hex_rest read_number
    read_byte_array_literal bytes_from scan_delimiter scan_newline collapse scan_quote
    single_line_token single_line_loop multi_line_token multi_line_loop read_piece read_escape
    consume_octal scan_lbrace scan_rbrace scan_slash scan_bar scan_dots scan_question
    read_byte_digits read_doc_comment skip_block_comment lookup_ident new_lexer
lexed n text = tokens ascii n (new_lexer (codes text))

declaration :
    lexed 4 "val x = 0x1f # one\n"
    ≡ token val_token (codes "val") 0
      ∷ token ident (codes "x") 4
      ∷ token assign (codes "=") 6
      ∷ token number (codes "0x1f") 8
      ∷ []
unfolding lexed
declaration = refl

newline_in_parens :
    lexed 4 "(\n1_0.5e-3)"
    ≡ token lparen (codes "(") 0
      ∷ token number (codes "10.5e-3") 2
      ∷ token rparen (codes ")") 10
      ∷ token eof [] 11
      ∷ []
unfolding lexed
newline_in_parens = refl

interpolation :
    lexed 6 "\"a{{x}}b\" "
    ≡ token string_token (codes "a") 1
      ∷ token interpolation_start (codes "{{") 2
      ∷ token ident (codes "x") 4
      ∷ token interpolation_end (codes "}}") 5
      ∷ token string_token (codes "b") 7
      ∷ token eof [] 10
      ∷ []
unfolding lexed
interpolation = refl

doc : lexed 1 "/**\n * Adds.\n *\n */" ≡ token doc_comment (codes "Adds.\n") 0 ∷ []
unfolding lexed
doc = refl

-- The first code point of a bytes literal is not looked at, but counts with all its bytes.
bytes_unchecked : lexed 1 "0x\"z0\"" ≡ token bytes (codes "z0") 0 ∷ []
unfolding lexed
bytes_unchecked = refl

bytes_wide : lexed 1 "0x\"é0\"" ≡ token illegal (codes "invalid bytes literal") 0 ∷ []
unfolding lexed
bytes_wide = refl

ascii-HasNoZero : HasNoZero ascii
ascii-HasNoZero = record { no_letter = refl; no_mark = refl; no_digit = refl }

tokens-Laid_example :
    Laid (codes "(\nval_0 + 1_0.5)") 0 (tokens ascii 6 (new_lexer (codes "(\nval_0 + 1_0.5)")))
tokens-Laid_example = tokens-Laid ascii (codes "(\nval_0 + 1_0.5)") 6 ascii-HasNoZero

abbrev half_read : Lexer
half_read = record (new_lexer (codes "{{x}}")) {
  behind = codes "a\"";
  position = 2;
  prev_mode = some (single_line false);
}

next_token-kind_example : is_kind (next_token ascii half_read).1.kind ≡ true
next_token-kind_example = next_token-kind ascii half_read

-- A newline, a comment, blanks and a number.
abbrev commented : Lexer
commented = new_lexer (codes "\n  # one\n\n 1_0 /* two */")

scanning_loops_stop_example :
    let blanks = skip_whitespace (rounds commented) commented in
    let line = skip_to_line_end (rounds commented) commented in
    let lines = (collapse (rounds commented) commented 1).0 in
    let comment = skip_nested (rounds commented) 1 commented in
    let doc = read_doc_content (rounds commented) false (codes "a") commented in
    let digits = read_digits ascii (rounds commented) commented (codes "a") in
    let hex = (read_hex_digits (rounds commented) commented (codes "a")).0 in
    let bytes = read_byte_digits (rounds commented) commented (codes "a") in
    (((is_blank (ch blanks) ≡ false) × (starts_line_comment blanks ≡ false))
      × ((ch line == b'\n' || ch line == 0) ≡ true)
      × ((ch lines == b'\n' || is_blank (ch lines)) ≡ false)
      × ((is_letter ascii (ch (read_identifier ascii commented).0)
            || is_digit ascii (ch (read_identifier ascii commented).0))
          ≡ false))
    × (((comment.1 || ch comment.0 == 0) ≡ true) × ((is_found doc.1 || ch doc.0 == 0) ≡ true))
    × ((digits_end ascii digits.0 digits.2 ≡ true)
        × (hex_digits_end hex ≡ true)
        × (bytes_end bytes.0 bytes.2 ≡ true))
scanning_loops_stop_example =
    scanning_loops_stop ascii commented 1 false (codes "a") ascii-HasNoZero
