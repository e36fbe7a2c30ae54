-- ===== src/Lexer/Progress/Cases.antt =====
-- How far each case of internal/lexer/general_tokenizer.go reads.
use slug.Prelude.{
  ℕ, suc, ◌<◌, ◌≡◌, refl, ◌⊎◌, ◌∙◌, sym, Bool, true, false, ◌&&◌, ◌||◌, ◌==◌, if◌then◌else◌, Option,
  none, some, [], Bool-cases, inl, inr, arith,
}
use mathlib.Core.Bool.{true≢false}
use slug.Prelude.Text.{Text}
use slug.Token.{TokenType, number, eof, token}
use slug.Lexer.{
  UnicodeTables, Lexer, single_line, multi_line, ch, peek_char, peek_two_chars, read_char, rounds,
  switch_mode, within_baseline,
}
use slug.Lexer.Skip.{
  Scanned, scanned, malformed, read_chars, skip_block_comment, skip_whitespace, read_doc_comment,
}
use slug.Lexer.Literals.{
  is_letter, is_digit, between, read_while, read_identifier, read_digits, read_fraction,
  read_number,
}
use slug.Lexer.General.{
  Outcome, consume, emit, again, collapse, scan_newline, error_or, scan_slash, scan_bar, word,
  scan_underscore, tripled, scan_dots, scan_question, scan_lbrace, scan_rbrace, scan_delimiter,
  past_newline, scan_quote, bytes_or, scan_digit, scan_word, scan_operator, scan,
}
use slug.Lexer.Cursor.{After-trans, left, read-After, read_char-lt}
use slug.Lexer.Reading.{
  skip_nested-After, read_doc_content-After, read_fraction-After, read_exponent-After,
  skip_whitespace-After, read_chars-After, read_digits-After, read_while-After,
  read_hex_literal-After, read_byte_array_literal-After,
}
use slug.Lexer.Bounds.{single_line_token-Fits, multi_line_token-Fits}
use slug.Lexer.Bounds.Cases.{collapse-After, past_newline-After}
use slug.Lexer.Progress.{FallsOutcome, consumed-Falls, read-falls}

collapse-falls :
    (l : Lexer) (count : ℕ)
    → (ch l == b'\n') ≡ true
    → 0 < left l
    → left (collapse (rounds l) l count).0 < left l
unfolding collapse
collapse-falls l count e h =
    let next = read_char l in
    let k = skip_whitespace (rounds next) next in
    rw e (
      read-falls l _ h (
        After-trans next k _ (skip_whitespace-After (rounds next) next)
          (collapse-After (left l) k (suc count))))

scan_newline-Falls :
    (l : Lexer) → (ch l == b'\n') ≡ true → 0 < left l → FallsOutcome l (scan_newline l)
unfolding scan_newline FallsOutcome
scan_newline-Falls l e h =
    elim (Bool-cases (within_baseline l.delimiter_brace_baselines l.brace_depth)) [
      | inl y ↦ rw y (read_char-lt l h)
      | inr n ↦ rw n (inr (collapse-falls l 0 e h))
    ]

error_or-Falls :
    (l : Lexer) (kind : TokenType) (out : Lexer × Scanned)
    → left out.0 < left l
    → FallsOutcome l (error_or l kind out)
unfolding FallsOutcome
error_or-Falls l kind (k, scanned text) h = inr h
error_or-Falls l kind (k, malformed message) h = inl (inr refl)

-- A first step that reads on, and the loop after it.
first_round :
    (test : ℕ → Bool) (l : Lexer)
    → test (ch l) ≡ true
    → 0 < left l
    → left (read_while test (rounds l) l []).0 < left l
unfolding read_while
first_round test l e h = rw e (read-falls l _ h (read_while-After test (left l) (read_char l) _))

word-Falls :
    (u : UnicodeTables) (l : Lexer)
    → is_letter u (ch l) ≡ true
    → 0 < left l
    → FallsOutcome l (word l (read_identifier u l))
unfolding FallsOutcome read_identifier
word-Falls u l e h = inr (first_round (λ c. is_letter u c || is_digit u c) l (rw e refl) h)

scan_underscore-Falls :
    (u : UnicodeTables) (l : Lexer)
    → (ch l == b'_') ≡ true
    → 0 < left l
    → FallsOutcome l (scan_underscore u l)
unfolding scan_underscore is_letter
scan_underscore-Falls u l e h = elim (Bool-cases (is_letter u (peek_char l))) [
  | inl y ↦ rw y (word-Falls u l (rw e refl) h)
  | inr n ↦ rw n (consumed-Falls l _)
]

scan_question-Falls : (l : Lexer) → FallsOutcome l (scan_question l)
unfolding scan_question FallsOutcome
scan_question-Falls l = elim (Bool-cases (tripled l)) [
  | inl y ↦ rw y tt
  | inr n ↦ rw n (inl (inr refl))
]

read_chars-falls : (n : ℕ) (l : Lexer) → 0 < left l → left (read_chars (suc n) l) < left l
unfolding read_chars
read_chars-falls n l h = read-falls l _ h (read_chars-After n (read_char l))

read_doc_comment-falls :
    (u : UnicodeTables) (l : Lexer)
    → (ch l == b'/') ≡ true
    → (peek_char l == b'*') ≡ true
    → (peek_two_chars l == b'*') ≡ true
    → 0 < left l
    → left (read_doc_comment u l).0 < left l
unfolding read_doc_comment
read_doc_comment-falls u l d e f h =
    let k = read_chars 3 l in
    rw (d, e, f)
      (omega (arith, read_chars-falls 2 l h, (read_doc_content-After (rounds l) true [] k).shorter))

skip_block_comment-falls :
    (l : Lexer)
    → (ch l == b'/') ≡ true
    → (peek_char l == b'*') ≡ true
    → 0 < left l
    → left (skip_block_comment l).0 < left l
unfolding skip_block_comment
skip_block_comment-falls l d e h =
    let next = read_char l in
    rw (d, e)
      (read-falls l _ h (read-After next _ (skip_nested-After (rounds l) 1 (read_char next))))

scan_slash-Falls :
    (u : UnicodeTables) (l : Lexer)
    → (ch l == b'/') ≡ true
    → 0 < left l
    → FallsOutcome l (scan_slash u l)
unfolding scan_slash FallsOutcome
scan_slash-Falls u l e h = elim (Bool-cases (peek_char l == b'>')) [
  | inl y ↦ rw y tt
  | inr n ↦ elim (Bool-cases (peek_char l == b'*')) [
    | inr m ↦ rw (n, m) tt
    | inl y ↦ elim (Bool-cases (peek_two_chars l == b'*')) [
      | inl z ↦ rw (n, y, z) (error_or-Falls l _ _ (read_doc_comment-falls u l e y z h))
      | inr z ↦ elim (Bool-cases (skip_block_comment l).1) [
        | inl w ↦ rw (n, y, z, w) (skip_block_comment-falls l e y h)
        | inr w ↦ rw (n, y, z, w) (inl (inr refl))
      ]
    ]
  ]
]

scan_quote-Falls : (raw : Bool) (l : Lexer) → 0 < left l → FallsOutcome l (scan_quote raw l)
unfolding scan_quote FallsOutcome
scan_quote-Falls raw l h =
    let k = read_chars 3 l in
    let opened = switch_mode (past_newline k) (multi_line raw) in
    elim (Bool-cases (tripled l)) [
      | inl y ↦ rw y (
          inr (
            omega (
              arith,
              read_chars-falls 2 l h,
              (past_newline-After k).shorter,
              (multi_line_token-Fits raw opened).forward.shorter,
            )))
      | inr n ↦ rw n (
          inr (
            omega (
              arith,
              read_char-lt l h,
              (single_line_token-Fits raw
                  (switch_mode (read_char l) (single_line raw))).forward.shorter,
            )))
    ]

bytes_or-Falls :
    (l : Lexer) (out : Lexer × Option Text) → left out.0 < left l → FallsOutcome l (bytes_or l out)
unfolding FallsOutcome
bytes_or-Falls l (k, some text) h = inr h
bytes_or-Falls l (k, none) h = inr h

read_digits-falls :
    (u : UnicodeTables) (l : Lexer)
    → is_digit u (ch l) ≡ true
    → 0 < left l
    → ((read_digits u (rounds l) l []).2 ≡ false)
      ⊎ (left (read_digits u (rounds l) l []).0 < left l)
unfolding read_digits
read_digits-falls u l e h = elim (Bool-cases (ch l == b'_')) [
  | inr m ↦ rw (e, m) (inr (read-falls l _ h (read_digits-After u (left l) (read_char l) _)))
  | inl y ↦ elim (Bool-cases (between u.decimal_digit l)) [
    | inl b ↦ rw (e, y, b) (inr (read-falls l _ h (read_digits-After u (left l) (read_char l) [])))
    | inr b ↦ rw (e, y, b) (inl refl)
  ]
]

read_number-Falls :
    (u : UnicodeTables) (l : Lexer)
    → is_digit u (ch l) ≡ true
    → 0 < left l
    → FallsOutcome l (error_or l number (read_number u l))
unfolding read_number FallsOutcome
read_number-Falls u l e h =
    let (l₁, digits, ok₁) = read_digits u (rounds l) l [] in
    let (l₂, fraction, ok₂) = read_fraction u l₁ digits in
    elim (Bool-cases ok₁) [
      | inr n ↦ rw n (inl (inr refl))
      | inl y ↦ elim (Bool-cases ok₂) [
        | inr n ↦ rw (y, n) (inl (inr refl))
        | inl z ↦ elim (read_digits-falls u l e h) [
          | inl n ↦ absurd (true≢false (sym y ∙ n))
          | inr s ↦
              rw (y, z)
                (inr (
                  omega (
                    arith,
                    s,
                    (read_fraction-After u l₁ digits).shorter,
                    (read_exponent-After u l₂ fraction).shorter,
                  )))
        ]
      ]
    ]

scan_digit-Falls :
    (u : UnicodeTables) (l : Lexer)
    → is_digit u (ch l) ≡ true
    → 0 < left l
    → FallsOutcome l (scan_digit u l)
unfolding scan_digit
scan_digit-Falls u l e h =
    elim (Bool-cases (ch l == b'0' && peek_char l == b'x' && peek_two_chars l == b'"')) [
      | inl y ↦ rw y (bytes_or-Falls l _ (read-falls l _ h (read_byte_array_literal-After l)))
      | inr n ↦ elim (Bool-cases (ch l == b'0' && peek_char l == b'x')) [
        | inl y ↦ rw (n, y) (error_or-Falls l _ _ (read-falls l _ h (read_hex_literal-After l)))
        | inr m ↦ rw (n, m) (read_number-Falls u l e h)
      ]
    ]

scan_word-Falls : (u : UnicodeTables) (l : Lexer) → 0 < left l → FallsOutcome l (scan_word u l)
unfolding scan_word
scan_word-Falls u l h = elim (Bool-cases (is_letter u (ch l))) [
  | inl y ↦ rw y (word-Falls u l y h)
  | inr n ↦ elim (Bool-cases (is_digit u (ch l))) [
    | inl y ↦ rw (n, y) (scan_digit-Falls u l y h)
    | inr m ↦ rw (n, m) (consumed-Falls l _)
  ]
]

either-Falls :
    (l : Lexer) (b : Bool) (x y : Outcome)
    → (b ≡ true → FallsOutcome l x)
    → FallsOutcome l y
    → FallsOutcome l (if b then x else y)
either-Falls l true x y fx fy = fx refl
either-Falls l false x y fx fy = fy

-- The cases that always end in `consume`.
abbrev is_consume : Outcome → Bool
is_consume (consume out) = true
is_consume (emit out) = false
is_consume (again k) = false

consume-Falls : (l : Lexer) (o : Outcome) → is_consume o ≡ true → FallsOutcome l o
unfolding FallsOutcome
consume-Falls l (consume out) e = tt
consume-Falls l (emit out) e = absurd (true≢false (sym e))
consume-Falls l (again k) e = absurd (true≢false (sym e))

is_consume-scan_operator : (l : Lexer) → is_consume (scan_operator l) ≡ true
unfolding scan_operator
is_consume-scan_operator l = ground arith

is_consume-scan_bar : (l : Lexer) → is_consume (scan_bar l) ≡ true
unfolding scan_bar
is_consume-scan_bar l = ground arith

is_consume-scan_dots : (l : Lexer) → is_consume (scan_dots l) ≡ true
unfolding scan_dots
is_consume-scan_dots l = ground arith

is_consume-scan_lbrace : (l : Lexer) → is_consume (scan_lbrace l) ≡ true
unfolding scan_lbrace
is_consume-scan_lbrace l = ground arith

is_consume-scan_rbrace : (l : Lexer) → is_consume (scan_rbrace l) ≡ true
unfolding scan_rbrace
is_consume-scan_rbrace l = ground arith

is_consume-scan_delimiter : (l : Lexer) → is_consume (scan_delimiter l) ≡ true
unfolding scan_delimiter
is_consume-scan_delimiter l = ground arith

pub scan-Falls : (u : UnicodeTables) (l : Lexer) → 0 < left l → FallsOutcome l (scan u l)
unfolding scan
scan-Falls u l h =
    either-Falls l _ _ _ (λ e. scan_newline-Falls l e h)
      (either-Falls l _ _ _ (λ e. consume-Falls l _ (is_consume-scan_operator l))
        (either-Falls l _ _ _ (λ e. scan_slash-Falls u l e h)
          (either-Falls l _ _ _ (λ e. consume-Falls l _ (is_consume-scan_bar l))
            (either-Falls l _ _ _ (λ e. scan_underscore-Falls u l e h)
              (either-Falls l _ _ _ (λ e. consume-Falls l _ (is_consume-scan_dots l))
                (either-Falls l _ _ _ (λ e. scan_question-Falls l)
                  (either-Falls l _ _ _ (λ e. consume-Falls l _ (is_consume-scan_lbrace l))
                    (either-Falls l _ _ _ (λ e. consume-Falls l _ (is_consume-scan_rbrace l))
                      (either-Falls l _ _ _ (λ e. consume-Falls l _ (is_consume-scan_delimiter l))
                        (either-Falls l _ _ _ (λ e. scan_quote-Falls false l h)
                          (either-Falls l _ _ _ (λ e. scan_quote-Falls true l h)
                            (either-Falls l _ _ _
                              (λ e. consumed-Falls l (l, token eof [] l.position))
                              (scan_word-Falls u l h)))))))))))))
