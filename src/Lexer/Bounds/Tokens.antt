-- ===== src/Lexer/Bounds/Tokens.antt =====
-- The switch of internal/lexer/general_tokenizer.go and NextToken of internal/lexer/lexer.go: where the
-- tokens start.
use slug.Prelude.{
  ℕ, zero, suc, ◌+◌, ◌≡◌, Bool, true, false, ◌==◌, if◌then◌else◌, [], ◌∷◌, Bool-cases, inl, inr,
  arith,
}
use slug.Prelude.Text.{Text, size}
use slug.Token.{
  TokenType, assign, eq, rocket, plus, prepend_item, minus, bang, not_eq, asterisk, percent,
  complement, bitwise_and, logical_and, bitwise_xor, lt, lt_eq, shift_left, gt, gt_eq, shift_right,
  semicolon, colon, append_item, comma, at_sign,
}
use slug.Lexer.{
  UnicodeTables, Lexer, Tokenizer, general, single_line, multi_line, peek_char, read_char, rounds,
  here, handle_compound_token, handle_compound_token2,
}
use slug.Lexer.Skip.{skip_whitespace}
use slug.Lexer.General.{
  Outcome, consume, emit, again, scan_operator, scan, general_token, token_in, next_token,
}
use slug.Lexer.Cursor.{spelled, After-refl, After-trans, read_char-After}
use slug.Lexer.Reading.{skip_whitespace-After}
use slug.Lexer.Bounds.{Fits, starting, moved-Fits, single_line_token-Fits, multi_line_token-Fits}
use slug.Lexer.Bounds.Cases.{
  FitsOutcome, consumed-Fits, scan_newline-Fits, scan_slash-Fits, scan_bar-Fits,
  scan_underscore-Fits, scan_dots-Fits, scan_question-Fits, scan_lbrace-Fits, scan_rbrace-Fits,
  scan_delimiter-Fits, scan_quote-Fits, scan_word-Fits,
}

either-Fits :
    (l : Lexer) (b : Bool) (x y : Outcome)
    → FitsOutcome l x
    → FitsOutcome l y
    → FitsOutcome l (if b then x else y)
either-Fits l true x y fx fy = fx
either-Fits l false x y fx fy = fy

handle_compound_token2-Fits :
    (l : Lexer) (t : TokenType) (ch₁ : ℕ) (t₁ : TokenType) (ch₂ : ℕ) (t₂ : TokenType)
    → Fits l (handle_compound_token2 l t ch₁ t₁ ch₂ t₂)
handle_compound_token2-Fits l t ch₁ t₁ ch₂ t₂ = elim (Bool-cases (peek_char l == ch₁)) [
  | inl y ↦ rw y (starting l _ _ _ (read_char-After l))
  | inr n ↦ elim (Bool-cases (peek_char l == ch₂)) [
    | inl y ↦ rw (n, y) (starting l _ _ _ (read_char-After l))
    | inr m ↦ rw (n, m) (starting l _ _ _ (After-refl l))
  ]
]

handle_compound_token-Fits :
    (l : Lexer) (t : TokenType) (ch₁ : ℕ) (t₁ : TokenType)
    → Fits l (handle_compound_token l t ch₁ t₁)
handle_compound_token-Fits l t ch₁ t₁ = elim (Bool-cases (peek_char l == ch₁)) [
  | inl y ↦ rw y (starting l _ _ _ (read_char-After l))
  | inr n ↦ rw n (starting l _ _ _ (After-refl l))
]

scan_operator-Fits : (l : Lexer) → FitsOutcome l (scan_operator l)
unfolding scan_operator
scan_operator-Fits l =
    let stay =
      λ (kind : TokenType). consumed-Fits l (l, here kind l) (starting l l kind _ (After-refl l)) in
    let one = λ (t : TokenType) (ch₁ : ℕ) (t₁ : TokenType).
      consumed-Fits l (handle_compound_token l t ch₁ t₁) (handle_compound_token-Fits l t ch₁ t₁) in
    let two = λ (t : TokenType) (ch₁ : ℕ) (t₁ : TokenType) (ch₂ : ℕ) (t₂ : TokenType).
      consumed-Fits l (handle_compound_token2 l t ch₁ t₁ ch₂ t₂)
        (handle_compound_token2-Fits l t ch₁ t₁ ch₂ t₂) in
    either-Fits l _ _ _ (two assign b'=' eq b'>' rocket) (
      either-Fits l _ _ _ (one plus b':' prepend_item) (
        either-Fits l _ _ _ (stay minus) (
          either-Fits l _ _ _ (one bang b'=' not_eq) (
            either-Fits l _ _ _ (stay asterisk) (
              either-Fits l _ _ _ (stay percent) (
                either-Fits l _ _ _ (stay complement) (
                  either-Fits l _ _ _ (one bitwise_and b'&' logical_and) (
                    either-Fits l _ _ _ (stay bitwise_xor) (
                      either-Fits l _ _ _ (two lt b'=' lt_eq b'<' shift_left) (
                        either-Fits l _ _ _ (two gt b'=' gt_eq b'>' shift_right) (
                          either-Fits l _ _ _ (stay semicolon) (
                            either-Fits l _ _ _ (one colon b'+' append_item)
                              (either-Fits l _ _ _ (stay comma) (stay at_sign))))))))))))))

pub scan-Fits : (u : UnicodeTables) (l : Lexer) → FitsOutcome l (scan u l)
unfolding scan
scan-Fits u l = either-Fits l _ _ _ (scan_newline-Fits l) (
    either-Fits l _ _ _ (scan_operator-Fits l) (
      either-Fits l _ _ _ (scan_slash-Fits u l) (
        either-Fits l _ _ _ (scan_bar-Fits l) (
          either-Fits l _ _ _ (scan_underscore-Fits u l) (
            either-Fits l _ _ _ (scan_dots-Fits l) (
              either-Fits l _ _ _ (scan_question-Fits l) (
                either-Fits l _ _ _ (scan_lbrace-Fits l) (
                  either-Fits l _ _ _ (scan_rbrace-Fits l) (
                    either-Fits l _ _ _ (scan_delimiter-Fits l) (
                      either-Fits l _ _ _ (scan_quote-Fits false l) (
                        either-Fits l _ _ _ (scan_quote-Fits true l) (
                          either-Fits l _ _ _ (consumed-Fits l _ (starting l l _ _ (After-refl l)))
                            (scan_word-Fits u l)))))))))))))

outcome-Fits :
    (u : UnicodeTables) (f : ℕ) (step : (l : Lexer) → Fits l (general_token u f l)) (l : Lexer)
    (o : Outcome)
    → FitsOutcome l o
    → Fits l (elim o [
      | consume out ↦ (read_char out.0, out.1)
      | emit out ↦ out
      | again next ↦ general_token u f next
    ])
unfolding FitsOutcome
outcome-Fits u f step l (consume out) fits = record {
  forward = After-trans l out.0 _ fits.forward (read_char-After out.0);
  from = fits.from;
  upto = omega (arith, fits.upto, (read_char-After out.0).moves);
}
outcome-Fits u f step l (emit out) fits = fits
outcome-Fits u f step l (again next) fits = moved-Fits l next _ fits (step next)

general_token-Fits : (u : UnicodeTables) (f : ℕ) (l : Lexer) → Fits l (general_token u f l)
unfolding general_token
general_token-Fits u zero l = starting l l _ _ (After-refl l)
general_token-Fits u (suc f) l =
    let k = skip_whitespace (rounds l) l in
    moved-Fits l k _ (skip_whitespace-After (rounds l) l)
      (outcome-Fits u f (general_token-Fits u f) k (scan u k) (scan-Fits u k))

token_in-Fits : (u : UnicodeTables) (mode : Tokenizer) (l : Lexer) → Fits l (token_in u mode l)
token_in-Fits u general l = general_token-Fits u (rounds l) l
token_in-Fits u (single_line raw) l = single_line_token-Fits raw l
token_in-Fits u (multi_line raw) l = multi_line_token-Fits raw l

pub next_token-Fits : (u : UnicodeTables) (l : Lexer) → Fits l (next_token u l)
unfolding next_token
next_token-Fits u l = token_in-Fits u l.current_mode l

-- The bytes behind the lexer are among those of the input.
pub size-spelled : (behind ahead : Text) → size (spelled behind ahead) ≡ size behind + size ahead
size-spelled [] ahead = omega arith
size-spelled (c ∷ behind) ahead = omega (arith, size-spelled behind (c ∷ ahead))
