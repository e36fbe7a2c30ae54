-- ===== src/Lexer/Bounds.antt =====
-- Each case of internal/lexer/general_tokenizer.go, and the string tokenizers: where the lexer stands
-- afterwards, and where the token starts.
pub mod Cases
pub mod Tokens
use slug.Prelude.{
  ℕ, zero, suc, ◌+◌, ◌-◌, ◌*◌, ◌≤◌, ◌<◌, ◌≡◌, refl, Bool, true, false, not, ◌&&◌, ◌||◌, ◌==◌, ltb,
  leb, if◌then◌else◌, Option, none, some, List, [], ◌∷◌, ◌++◌, Bool-cases, inl, inr, arith,
}
use slug.Prelude.Text.{Text, codes}
use slug.Token.{Token, TokenType, token, illegal}
use slug.Lexer.{
  UnicodeTables, Lexer, Tokenizer, general, single_line, multi_line, ch, peek_char, peek_two_chars,
  read_char, rounds, here, within_baseline, has_interpolation_return_mode, can_start_interpolation,
  pop_interpolation_return_mode, push_interpolation_return_mode, handle_compound_token,
  handle_compound_token2, set_mode,
}
use slug.Lexer.Skip.{
  Scanned, scanned, malformed, read_chars, skip_block_comment, skip_whitespace, is_blank,
  read_doc_comment,
}
use slug.Lexer.Literals.{
  is_letter, is_digit, read_identifier, read_number, read_hex_literal, read_byte_array_literal,
}
use slug.Lexer.Strings.{
  more_octal, consume_octal, is_simple_escape, read_escape, quote_of, starts_interpolation,
  read_piece, single_line_loop, single_line_token, closes, multi_line_loop, multi_line_token,
}
use slug.Lexer.General.{
  Outcome, consume, emit, again, collapse, scan_newline, error_or, scan_slash, scan_bar, word,
  scan_underscore, tripled, scan_dots, scan_question, scan_lbrace, resumed, scan_rbrace,
  scan_delimiter, past_newline, scan_quote, bytes_or, scan_digit, scan_word, scan_operator,
  is_operator, is_delimiter, scan, general_token, token_in, next_token,
}
use slug.Lexer.Cursor.{
  left, read_char-lt, ch_pos, After, After-refl, After-trans, read_char-After, read-After,
  same-After,
}
use slug.Lexer.Reading.{
  skip_whitespace-After, read_chars-After, skip_block_comment-After, read_doc_comment-After,
  read_while-After, read_number-After, read_hex_literal-After, read_byte_array_literal-After,
}

-- The token starts between where the lexer stood and where it stands then.
pub record Fits (l : Lexer) (out : Lexer × Token) : Type 0 where
  pub forward : After l out.0
  pub from : l.position ≤ out.1.position
  pub upto : out.1.position ≤ out.0.position

-- A token that starts at the lexer's position.
pub starting :
    (l k : Lexer) (kind : TokenType) (text : Text)
    → After l k
    → Fits l (k, token kind text l.position)
starting l k kind text a = record { forward = a; from = omega arith; upto = a.moves }

more_octal-After : (n : ℕ) (l : Lexer) (value : ℕ) → After l (more_octal n l value).0
unfolding more_octal
more_octal-After zero l value = After-refl l
more_octal-After (suc n) l value =
    let next = peek_char l in
    elim (Bool-cases (ltb next b'0' || ltb b'7' next)) [
      | inl y ↦ rw y (After-refl l)
      | inr m ↦ rw m (read-After l _ (more_octal-After n (read_char l) _))
    ]

read_escape-After : (l : Lexer) → After l (read_escape l).0
unfolding read_escape consume_octal
read_escape-After l = elim (Bool-cases (is_simple_escape (ch l))) [
  | inl y ↦ rw y (After-refl l)
  | inr n ↦ elim (Bool-cases (leb b'0' (ch l) && leb (ch l) b'7')) [
    | inl y ↦ rw (n, y) (more_octal-After 2 l _)
    | inr m ↦ rw (n, m) (After-refl l)
  ]
]

pub read_piece-After : (raw : Bool) (l : Lexer) → After (read_char l) (read_piece raw l).0
unfolding read_piece
read_piece-After raw l =
    let next = read_char l in
    let (k, text) = read_escape next in
    elim (Bool-cases (not raw && ch l == b'\\')) [
      | inl y ↦ rw y (After-trans next k _ (read_escape-After next) (read_char-After k))
      | inr n ↦ rw n (After-refl next)
    ]

pub read_piece-lt :
    (raw : Bool) (l : Lexer) → (ch l == 0) ≡ false → left (read_piece raw l).0 < left l
read_piece-lt raw l n = omega (arith, (read_piece-After raw l).shorter, read_char-lt l (ch_pos l n))

-- The string tokenizers' result: further on, with a token that starts where the string does.
abbrev pub FitsFrom : ℕ → Lexer → Lexer × Token → Type 0
FitsFrom start l (k, t) = After l k × (t.position ≡ start)

piece-FitsFrom :
    (raw : Bool) (start : ℕ) (l : Lexer) (out : Lexer × Token)
    → FitsFrom start (read_piece raw l).0 out
    → FitsFrom start l out
piece-FitsFrom raw start l out (a, e) = (
  read-After l out.0
      (After-trans (read_char l) (read_piece raw l).0 out.0 (read_piece-After raw l) a),
  e,
)

single_line_loop-FitsFrom :
    (raw : Bool) (f : ℕ) (l : Lexer) (text : Text) (start : ℕ)
    → FitsFrom start l (single_line_loop raw f l text start)
unfolding single_line_loop
single_line_loop-FitsFrom raw zero l text start = (After-refl l, refl)
single_line_loop-FitsFrom raw (suc f) l text start =
    let (next, piece) = read_piece raw l in
    elim (Bool-cases (ch l == 0)) [
      | inl y ↦ rw y (After-refl l, refl)
      | inr n ↦ elim (Bool-cases (starts_interpolation raw l)) [
        | inl y ↦ rw (n, y) (same-After l l _ refl (After-refl l), refl)
        | inr m ↦ elim (Bool-cases (ch l == quote_of raw)) [
          | inl y ↦ rw (n, m, y) (same-After l (read_char l) _ refl (read_char-After l), refl)
          | inr o ↦
              rw (n, m, o)
                (piece-FitsFrom raw start l (single_line_loop raw f next (text ++ piece) start)
                  (single_line_loop-FitsFrom raw f next (text ++ piece) start))
        ]
      ]
    ]

multi_line_loop-FitsFrom :
    (raw : Bool) (f : ℕ) (l : Lexer) (text : Text) (start : ℕ)
    → FitsFrom start l (multi_line_loop raw f l text start)
unfolding multi_line_loop
multi_line_loop-FitsFrom raw zero l text start = (After-refl l, refl)
multi_line_loop-FitsFrom raw (suc f) l text start =
    let (next, piece) = read_piece raw l in
    elim (Bool-cases (ch l == 0)) [
      | inl y ↦ rw y (After-refl l, refl)
      | inr n ↦ elim (Bool-cases (starts_interpolation raw l)) [
        | inl y ↦ rw (n, y) (same-After l l _ refl (After-refl l), refl)
        | inr m ↦ elim (Bool-cases (closes (quote_of raw) l)) [
          | inl y ↦ rw (n, m, y) (same-After l (read_chars 3 l) _ refl (read_chars-After 3 l), refl)
          | inr o ↦
              rw (n, m, o)
                (piece-FitsFrom raw start l (multi_line_loop raw f next (text ++ piece) start)
                  (multi_line_loop-FitsFrom raw f next (text ++ piece) start))
        ]
      ]
    ]

from_start : (l : Lexer) (out : Lexer × Token) → FitsFrom l.position l out → Fits l out
from_start l out (a, e) = record {
  forward = a;
  from = omega (arith, e);
  upto = omega (arith, e, a.moves);
}

pub single_line_token-Fits : (raw : Bool) (l : Lexer) → Fits l (single_line_token raw l)
unfolding single_line_token
single_line_token-Fits raw l =
    from_start l _ (single_line_loop-FitsFrom raw (rounds l) l [] l.position)

pub multi_line_token-Fits : (raw : Bool) (l : Lexer) → Fits l (multi_line_token raw l)
unfolding multi_line_token
multi_line_token-Fits raw l =
    from_start l _ (multi_line_loop-FitsFrom raw (rounds l) l [] l.position)

pub moved-Fits : (l k : Lexer) (out : Lexer × Token) → After l k → Fits k out → Fits l out
moved-Fits l k out a b = record {
  forward = After-trans l k out.0 a b.forward;
  from = omega (arith, a.moves, b.from);
  upto = b.upto;
}
