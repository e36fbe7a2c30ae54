-- ===== src/Lexer/Spelling/Words.antt =====
-- The cases of internal/lexer/general_tokenizer.go for braces, delimiters, strings and words.
use slug.Prelude.{
  ℕ, zero, suc, ◌≡◌, refl, sym, ap, ◌∙◌, Bool, true, false, ◌&&◌, ◌||◌, ◌==◌, ==_iff, [], ◌∷◌, ◌++◌,
  Bool-cases, inl, inr, arith, append_assoc, Option, none, some,
}
use mathlib.Core.Bool.{true≢false}
use slug.Prelude.Text.{Text}
use slug.Token.{
  token, ellipsis, period, not_implemented, interpolation_start, match_keys_exact, lbrace, rbrace,
  lparen, rparen, lbracket, rbracket, underscore, number, illegal, eof,
}
use slug.Lexer.{
  UnicodeTables, Lexer, Tokenizer, ch, peek_char, peek_two_chars, read_char, rounds, here,
  can_start_interpolation, push_interpolation_return_mode, has_interpolation_return_mode,
}
use slug.Lexer.Skip.{read_chars}
use slug.Lexer.Literals.{
  is_letter, is_digit, read_while, read_identifier, read_number, read_hex_literal,
  read_byte_array_literal,
}
use slug.Lexer.Strings.{
  quote_of, starts_interpolation, single_line_loop, single_line_token, closes, multi_line_loop,
  multi_line_token,
}
use slug.Lexer.General.{
  consume, word, scan_underscore, tripled, scan_dots, scan_question, scan_lbrace, scan_rbrace,
  scan_delimiter, scan_quote, bytes_or, scan_digit, scan_word, scan, is_operator, is_delimiter,
}
use slug.Lexer.Spelling.{
  is_verbatim, SpellsOutcome, read_char-tail, read_two-tail, cut_first, one_at, two_at, one_spelled,
  three_spelled,
}
use slug.Lexer.Spelling.Cases.{
  HasNoZero, either-Spells, nonzero, error_or-Spells, scan_newline-Spells, scan_operator-Spells,
  scan_slash-Spells, scan_bar-Spells,
}

tripled_chars :
    (l : Lexer) (c : ℕ) → ch l ≡ c → tripled l ≡ true → (peek_char l ≡ c) × (peek_two_chars l ≡ c)
tripled_chars l c e h = ground (arith, e, h)

dots-Spells : (l : Lexer) → (ch l == b'.') ≡ true → SpellsOutcome l (scan_dots l)
unfolding scan_dots
dots-Spells l e = elim (Bool-cases (tripled l)) [
  | inl y ↦
      let at = (==_iff (ch l) b'.').0 e in
      let (second, third) = tripled_chars l b'.' at y in
      rw y (three_spelled l (read_chars 2 l) ellipsis b'.' at second third refl (read_two-tail l))
  | inr n ↦ rw n (one_spelled l l period (nonzero (ch l) b'.' e refl) refl)
]

question-Spells : (l : Lexer) → (ch l == b'?') ≡ true → SpellsOutcome l (scan_question l)
unfolding scan_question SpellsOutcome
question-Spells l e = elim (Bool-cases (tripled l)) [
  | inl y ↦
      let at = (==_iff (ch l) b'?').0 e in
      let (second, third) = tripled_chars l b'?' at y in
      rw y (
        three_spelled l (read_chars 2 l) not_implemented b'?' at second third refl
          (read_two-tail l))
  | inr n ↦ rw n (λ v. absurd (true≢false (sym v)))
]

push-ahead :
    (k : Lexer) (mode : Option Tokenizer) → (push_interpolation_return_mode k mode).ahead ≡ k.ahead
push-ahead k none = refl
push-ahead k (some mode) = refl

lbrace-Spells : (l : Lexer) → (ch l == b'{') ≡ true → SpellsOutcome l (scan_lbrace l)
unfolding scan_lbrace SpellsOutcome
lbrace-Spells l e =
    let at = (==_iff (ch l) b'{').0 e in
    let next = read_char l in
    elim (Bool-cases (peek_char l == b'{' && can_start_interpolation l)) [
      | inl y ↦
          let second : peek_char l ≡ b'{' = ground (arith, y) in
          rw y (
            two_at l interpolation_start b'{' b'{' _ at second refl refl
              (push-ahead next next.prev_mode ∙ read_char-tail l))
      | inr n ↦ elim (Bool-cases (peek_char l == b'|')) [
        | inl y ↦
            rw (n, y)
              (two_at l match_keys_exact b'{' b'|' _ at ((==_iff (peek_char l) b'|').0 y) refl refl
                (read_char-tail l))
        | inr m ↦ rw (n, m) (one_at l lbrace (nonzero (ch l) b'{' e refl))
      ]
    ]

rbrace-Spells : (l : Lexer) → (ch l == b'}') ≡ true → SpellsOutcome l (scan_rbrace l)
unfolding scan_rbrace SpellsOutcome
rbrace-Spells l e = elim (Bool-cases (has_interpolation_return_mode l && peek_char l == b'}')) [
  | inl y ↦ rw y (λ v. absurd (true≢false (sym v)))
  | inr n ↦ rw n (one_at l rbrace (nonzero (ch l) b'}' e refl))
]

delimiter-Spells : (l : Lexer) → (ch l == 0) ≡ false → SpellsOutcome l (scan_delimiter l)
unfolding scan_delimiter SpellsOutcome
delimiter-Spells l m = elim (Bool-cases (ch l == b'(')) [
  | inl y ↦ rw y (one_at l lparen m)
  | inr n ↦ elim (Bool-cases (ch l == b')')) [
    | inl y ↦ rw (n, y) (one_at l rparen m)
    | inr o ↦ elim (Bool-cases (ch l == b'[')) [
      | inl y ↦ rw (n, o, y) (one_at l lbracket m)
      | inr p ↦ rw (n, o, p) (one_at l rbracket m)
    ]
  ]
]

single_line_loop-unspelled :
    (raw : Bool) (f : ℕ) (l : Lexer) (text : Text) (start : ℕ)
    → is_verbatim (single_line_loop raw f l text start).1.kind ≡ false
unfolding single_line_loop
single_line_loop-unspelled raw zero l text start = refl
single_line_loop-unspelled raw (suc f) l text start = elim (Bool-cases (ch l == 0)) [
  | inl y ↦ rw y refl
  | inr n ↦ elim (Bool-cases (starts_interpolation raw l)) [
    | inl y ↦ rw (n, y) refl
    | inr m ↦ elim (Bool-cases (ch l == quote_of raw)) [
      | inl y ↦ rw (n, m, y) refl
      | inr o ↦ rw (n, m, o) (single_line_loop-unspelled raw f _ _ start)
    ]
  ]
]

multi_line_loop-unspelled :
    (raw : Bool) (f : ℕ) (l : Lexer) (text : Text) (start : ℕ)
    → is_verbatim (multi_line_loop raw f l text start).1.kind ≡ false
unfolding multi_line_loop
multi_line_loop-unspelled raw zero l text start = refl
multi_line_loop-unspelled raw (suc f) l text start = elim (Bool-cases (ch l == 0)) [
  | inl y ↦ rw y refl
  | inr n ↦ elim (Bool-cases (starts_interpolation raw l)) [
    | inl y ↦ rw (n, y) refl
    | inr m ↦ elim (Bool-cases (closes (quote_of raw) l)) [
      | inl y ↦ rw (n, m, y) refl
      | inr o ↦ rw (n, m, o) (multi_line_loop-unspelled raw f _ _ start)
    ]
  ]
]

pub single_line_token-unspelled :
    (raw : Bool) (l : Lexer) → is_verbatim (single_line_token raw l).1.kind ≡ false
unfolding single_line_token
single_line_token-unspelled raw l = single_line_loop-unspelled raw (rounds l) l [] l.position

pub multi_line_token-unspelled :
    (raw : Bool) (l : Lexer) → is_verbatim (multi_line_token raw l).1.kind ≡ false
unfolding multi_line_token
multi_line_token-unspelled raw l = multi_line_loop-unspelled raw (rounds l) l [] l.position

quote-Spells : (raw : Bool) (l : Lexer) → SpellsOutcome l (scan_quote raw l)
unfolding scan_quote SpellsOutcome
quote-Spells raw l = elim (Bool-cases (tripled l)) [
  | inl y ↦ rw y (λ v. absurd (true≢false (sym v ∙ multi_line_token-unspelled raw _)))
  | inr n ↦ rw n (λ v. absurd (true≢false (sym v ∙ single_line_token-unspelled raw _)))
]

-- A run of code points that a test holds of, which it does not of 0.
read_while-spells :
    (test : ℕ → Bool) (f : ℕ) (l : Lexer) (text : Text)
    → test 0 ≡ false
    → text ++ l.ahead ≡ (read_while test f l text).1 ++ (read_while test f l text).0.ahead
unfolding read_while
read_while-spells test zero l text z = refl
read_while-spells test (suc f) l text z = elim (Bool-cases (test (ch l))) [
  | inr n ↦ rw n refl
  | inl y ↦ elim (Bool-cases (ch l == 0)) [
    | inl e ↦ absurd (true≢false (sym y ∙ ap test ((==_iff (ch l) 0).0 e) ∙ z))
    | inr n ↦ rw y (
        ap (λ t. text ++ t) (cut_first l.ahead n ∙ ap (λ t. ch l ∷ t) (sym (read_char-tail l)))
        ∙ sym (append_assoc text (ch l ∷ []) (read_char l).ahead)
        ∙ read_while-spells test f (read_char l) (text ++ (ch l ∷ [])) z)
  ]
]

word-Spells :
    (u : UnicodeTables) (l : Lexer) → HasNoZero u → SpellsOutcome l (word l (read_identifier u l))
unfolding SpellsOutcome read_identifier is_letter
word-Spells u l z = λ _. (
  refl,
  read_while-spells (λ c. is_letter u c || is_digit u c) (rounds l) l []
      (rw (z.no_letter, z.no_mark, z.no_digit) refl),
)

bytes_or-Spells : (l : Lexer) (out : Lexer × Option Text) → SpellsOutcome l (bytes_or l out)
unfolding SpellsOutcome
bytes_or-Spells l (k, some text) = λ v. absurd (true≢false (sym v))
bytes_or-Spells l (k, none) = λ v. absurd (true≢false (sym v))

digit-Spells : (u : UnicodeTables) (l : Lexer) → SpellsOutcome l (scan_digit u l)
unfolding scan_digit
digit-Spells u l =
    either-Spells l _ _ _ (λ e. bytes_or-Spells l (read_byte_array_literal l))
      (either-Spells l _ _ _ (λ e. error_or-Spells l number (read_hex_literal l) refl)
        (error_or-Spells l number (read_number u l) refl))

illegal-Spells : (l : Lexer) → SpellsOutcome l (consume (l, here illegal l))
unfolding SpellsOutcome
illegal-Spells l = λ v. absurd (true≢false (sym v))

eof-Spells : (l : Lexer) → SpellsOutcome l (consume (l, token eof [] l.position))
unfolding SpellsOutcome
eof-Spells l = λ v. absurd (true≢false (sym v))

scan_word-Spells : (u : UnicodeTables) (l : Lexer) → HasNoZero u → SpellsOutcome l (scan_word u l)
unfolding scan_word
scan_word-Spells u l z =
    either-Spells l _ _ _ (λ e. word-Spells u l z)
      (either-Spells l _ _ _ (λ e. digit-Spells u l) (illegal-Spells l))

underscore-Spells :
    (u : UnicodeTables) (l : Lexer)
    → HasNoZero u
    → (ch l == 0) ≡ false
    → SpellsOutcome l (scan_underscore u l)
unfolding scan_underscore
underscore-Spells u l z m =
    either-Spells l _ _ _ (λ e. word-Spells u l z) (one_spelled l l underscore m refl)

operator_pos : (c : ℕ) → is_operator c ≡ true → (c == 0) ≡ false
operator_pos c h = ground arith

delimiter_pos : (c : ℕ) → is_delimiter c ≡ true → (c == 0) ≡ false
delimiter_pos c h = ground arith

pub scan-Spells : (u : UnicodeTables) (l : Lexer) → HasNoZero u → SpellsOutcome l (scan u l)
unfolding scan
scan-Spells u l z =
    either-Spells l _ _ _ (λ e. scan_newline-Spells l)
      (either-Spells l _ _ _ (λ e. scan_operator-Spells l (operator_pos (ch l) e))
        (either-Spells l _ _ _ (λ e. scan_slash-Spells u l e)
          (either-Spells l _ _ _ (λ e. scan_bar-Spells l e)
            (either-Spells l _ _ _ (λ e. underscore-Spells u l z (nonzero (ch l) b'_' e refl))
              (either-Spells l _ _ _ (λ e. dots-Spells l e)
                (either-Spells l _ _ _ (λ e. question-Spells l e)
                  (either-Spells l _ _ _ (λ e. lbrace-Spells l e)
                    (either-Spells l _ _ _ (λ e. rbrace-Spells l e)
                      (either-Spells l _ _ _ (λ e. delimiter-Spells l (delimiter_pos (ch l) e))
                        (either-Spells l _ _ _ (λ e. quote-Spells false l)
                          (either-Spells l _ _ _ (λ e. quote-Spells true l)
                            (either-Spells l _ _ _ (λ e. eof-Spells l)
                              (scan_word-Spells u l z)))))))))))))
