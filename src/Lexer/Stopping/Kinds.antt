-- ===== src/Lexer/Stopping/Kinds.antt =====
-- The kinds of token that the cases of internal/lexer/general_tokenizer.go and the loops of the string
-- tokenizers give.
use slug.Prelude.{
  ℕ, zero, suc, ◌<◌, ◌≡◌, refl, Bool, true, false, ◌&&◌, ◌==◌, if◌then◌else◌, Option, none, some,
  List, [], ◌∷◌, Bool-cases, inl, inr, arith,
}
use Prim.Native.String.{String}
use slug.Prelude.Text.{Text, codes, text_eq}
use slug.Token.{
  TokenType, out_of_rounds, doc_comment, number, eof, illegal, underscore, token, keywords,
  lookup_in, lookup_ident,
}
use slug.Lexer.{UnicodeTables, Lexer, ch, peek_char, peek_two_chars, rounds, here}
use slug.Lexer.Skip.{Scanned, scanned, malformed, skip_block_comment, read_doc_comment}
use slug.Lexer.Literals.{read_identifier, read_number, read_hex_literal, read_byte_array_literal}
use slug.Lexer.Strings.{
  quote_of, starts_interpolation, single_line_loop, single_line_token, closes, multi_line_loop,
  multi_line_token,
}
use slug.Lexer.General.{
  Outcome, consume, emit, again, scan_newline, error_or, scan_slash, scan_bar, word,
  scan_underscore, scan_dots, scan_question, scan_lbrace, scan_rbrace, scan_delimiter, tripled,
  scan_quote, bytes_or, scan_digit, scan_word, scan_operator, scan,
}
use slug.Lexer.Cursor.{left}
use slug.Lexer.Bounds.{read_piece-lt}

-- A kind of the code.
abbrev pub is_kind : TokenType → Bool
is_kind out_of_rounds = false
is_kind _ = true

abbrev pub gives_kind : Outcome → Bool
gives_kind (consume out) = is_kind out.1.kind
gives_kind (emit out) = is_kind out.1.kind
gives_kind (again k) = true

unfoldable pub GivesKind : Outcome → Type 0
GivesKind o = gives_kind o ≡ true

here-GivesKind :
    (l : Lexer) (kind : TokenType) → is_kind kind ≡ true → GivesKind (consume (l, here kind l))
unfolding GivesKind
here-GivesKind l kind e = e

eof-GivesKind : (l : Lexer) → GivesKind (consume (l, token eof [] l.position))
unfolding GivesKind
eof-GivesKind l = refl

either-GivesKind :
    (b : Bool) (x y : Outcome) → GivesKind x → GivesKind y → GivesKind (if b then x else y)
either-GivesKind true x y hx hy = hx
either-GivesKind false x y hx hy = hy

abbrev all_kinds : List (String × TokenType) → Bool
all_kinds [] = true
all_kinds ((key, kind) ∷ words) = is_kind kind && all_kinds words

is_kind-lookup_in :
    (words : List (String × TokenType)) (text : Text)
    → all_kinds words ≡ true
    → is_kind (lookup_in words text) ≡ true
unfolding lookup_in
is_kind-lookup_in [] text h = refl
is_kind-lookup_in ((key, kind) ∷ words) text h = elim (Bool-cases (text_eq (codes key) text)) [
  | inl y ↦ rw y (ground (arith, h))
  | inr n ↦ rw n (is_kind-lookup_in words text (ground (arith, h)))
]

word-GivesKind : (u : UnicodeTables) (l : Lexer) → GivesKind (word l (read_identifier u l))
unfolding lookup_ident GivesKind
word-GivesKind u l = is_kind-lookup_in keywords (read_identifier u l).1 refl

error_or-GivesKind :
    (l : Lexer) (kind : TokenType) (out : Lexer × Scanned)
    → is_kind kind ≡ true
    → GivesKind (error_or l kind out)
unfolding GivesKind
error_or-GivesKind l kind (k, scanned text) h = h
error_or-GivesKind l kind (k, malformed message) h = refl

bytes_or-GivesKind : (l : Lexer) (out : Lexer × Option Text) → GivesKind (bytes_or l out)
unfolding GivesKind
bytes_or-GivesKind l (k, some text) = refl
bytes_or-GivesKind l (k, none) = refl

single_line_loop-kind :
    (raw : Bool) (f : ℕ) (l : Lexer) (text : Text) (start : ℕ)
    → left l < f
    → is_kind (single_line_loop raw f l text start).1.kind ≡ true
unfolding single_line_loop
single_line_loop-kind raw zero l text start h = absurd (omega (arith, h))
single_line_loop-kind raw (suc f) l text start h = elim (Bool-cases (ch l == 0)) [
  | inl y ↦ rw y refl
  | inr n ↦ elim (Bool-cases (starts_interpolation raw l)) [
    | inl y ↦ rw (n, y) refl
    | inr m ↦ elim (Bool-cases (ch l == quote_of raw)) [
      | inl y ↦ rw (n, m, y) refl
      | inr o ↦
          rw (n, m, o)
            (single_line_loop-kind raw f _ _ start (omega (arith, h, read_piece-lt raw l n)))
    ]
  ]
]

multi_line_loop-kind :
    (raw : Bool) (f : ℕ) (l : Lexer) (text : Text) (start : ℕ)
    → left l < f
    → is_kind (multi_line_loop raw f l text start).1.kind ≡ true
unfolding multi_line_loop
multi_line_loop-kind raw zero l text start h = absurd (omega (arith, h))
multi_line_loop-kind raw (suc f) l text start h = elim (Bool-cases (ch l == 0)) [
  | inl y ↦ rw y refl
  | inr n ↦ elim (Bool-cases (starts_interpolation raw l)) [
    | inl y ↦ rw (n, y) refl
    | inr m ↦ elim (Bool-cases (closes (quote_of raw) l)) [
      | inl y ↦ rw (n, m, y) refl
      | inr o ↦
          rw (n, m, o)
            (multi_line_loop-kind raw f _ _ start (omega (arith, h, read_piece-lt raw l n)))
    ]
  ]
]

pub single_line_token-kind :
    (raw : Bool) (l : Lexer) → is_kind (single_line_token raw l).1.kind ≡ true
unfolding single_line_token
single_line_token-kind raw l = single_line_loop-kind raw (rounds l) l [] l.position (omega arith)

pub multi_line_token-kind :
    (raw : Bool) (l : Lexer) → is_kind (multi_line_token raw l).1.kind ≡ true
unfolding multi_line_token
multi_line_token-kind raw l = multi_line_loop-kind raw (rounds l) l [] l.position (omega arith)

operator-GivesKind : (l : Lexer) → GivesKind (scan_operator l)
unfolding scan_operator GivesKind
operator-GivesKind l = ground arith

newline-GivesKind : (l : Lexer) → GivesKind (scan_newline l)
unfolding scan_newline GivesKind
newline-GivesKind l = ground arith

slash-GivesKind : (u : UnicodeTables) (l : Lexer) → GivesKind (scan_slash u l)
unfolding scan_slash GivesKind
slash-GivesKind u l = elim (Bool-cases (peek_char l == b'>')) [
  | inl y ↦ rw y refl
  | inr n ↦ elim (Bool-cases (peek_char l == b'*')) [
    | inr m ↦ rw (n, m) refl
    | inl y ↦ elim (Bool-cases (peek_two_chars l == b'*')) [
      | inl z ↦ rw (n, y, z) (error_or-GivesKind l doc_comment (read_doc_comment u l) refl)
      | inr z ↦ elim (Bool-cases (skip_block_comment l).1) [
        | inl w ↦ rw (n, y, z, w) refl
        | inr w ↦ rw (n, y, z, w) refl
      ]
    ]
  ]
]

bar-GivesKind : (l : Lexer) → GivesKind (scan_bar l)
unfolding scan_bar GivesKind
bar-GivesKind l = ground arith

underscore-GivesKind : (u : UnicodeTables) (l : Lexer) → GivesKind (scan_underscore u l)
unfolding scan_underscore
underscore-GivesKind u l =
    either-GivesKind _ _ _ (word-GivesKind u l) (here-GivesKind l underscore refl)

dots-GivesKind : (l : Lexer) → GivesKind (scan_dots l)
unfolding scan_dots GivesKind
dots-GivesKind l = ground arith

question-GivesKind : (l : Lexer) → GivesKind (scan_question l)
unfolding scan_question GivesKind
question-GivesKind l = ground arith

lbrace-GivesKind : (l : Lexer) → GivesKind (scan_lbrace l)
unfolding scan_lbrace GivesKind
lbrace-GivesKind l = ground arith

rbrace-GivesKind : (l : Lexer) → GivesKind (scan_rbrace l)
unfolding scan_rbrace GivesKind
rbrace-GivesKind l = ground arith

delimiter-GivesKind : (l : Lexer) → GivesKind (scan_delimiter l)
unfolding scan_delimiter GivesKind
delimiter-GivesKind l = ground arith

quote-GivesKind : (raw : Bool) (l : Lexer) → GivesKind (scan_quote raw l)
unfolding scan_quote GivesKind
quote-GivesKind raw l = elim (Bool-cases (tripled l)) [
  | inl y ↦ rw y (multi_line_token-kind raw _)
  | inr n ↦ rw n (single_line_token-kind raw _)
]

digit-GivesKind : (u : UnicodeTables) (l : Lexer) → GivesKind (scan_digit u l)
unfolding scan_digit
digit-GivesKind u l = either-GivesKind _ _ _ (bytes_or-GivesKind l (read_byte_array_literal l)) (
    either-GivesKind _ _ _ (error_or-GivesKind l number (read_hex_literal l) refl)
      (error_or-GivesKind l number (read_number u l) refl))

scan_word-GivesKind : (u : UnicodeTables) (l : Lexer) → GivesKind (scan_word u l)
unfolding scan_word
scan_word-GivesKind u l =
    either-GivesKind _ _ _ (word-GivesKind u l)
      (either-GivesKind _ _ _ (digit-GivesKind u l) (here-GivesKind l illegal refl))

pub scan-GivesKind : (u : UnicodeTables) (l : Lexer) → GivesKind (scan u l)
unfolding scan
scan-GivesKind u l = either-GivesKind _ _ _ (newline-GivesKind l) (
    either-GivesKind _ _ _ (operator-GivesKind l) (
      either-GivesKind _ _ _ (slash-GivesKind u l) (
        either-GivesKind _ _ _ (bar-GivesKind l) (
          either-GivesKind _ _ _ (underscore-GivesKind u l) (
            either-GivesKind _ _ _ (dots-GivesKind l) (
              either-GivesKind _ _ _ (question-GivesKind l) (
                either-GivesKind _ _ _ (lbrace-GivesKind l) (
                  either-GivesKind _ _ _ (rbrace-GivesKind l) (
                    either-GivesKind _ _ _ (delimiter-GivesKind l) (
                      either-GivesKind _ _ _ (quote-GivesKind false l) (
                        either-GivesKind _ _ _ (quote-GivesKind true l) (
                          either-GivesKind _ _ _ (eof-GivesKind l)
                            (scan_word-GivesKind u l)))))))))))))
