-- ===== src/Lexer/Spelling/Cases.antt =====
-- The cases of internal/lexer/general_tokenizer.go for words, operators and delimiters.
use slug.Prelude.{
  ℕ, ◌≡◌, refl, sym, ◌∙◌, Bool, true, false, ◌==◌, ==_iff, [], ◌∷◌, if◌then◌else◌, Bool-cases, inl,
  inr, arith,
}
use mathlib.Core.Bool.{true≢false}
use slug.Token.{
  TokenType, assign, eq, rocket, plus, prepend_item, minus, bang, not_eq, asterisk, percent,
  complement, bitwise_and, logical_and, bitwise_xor, lt, lt_eq, shift_left, gt, gt_eq, shift_right,
  semicolon, colon, append_item, comma, at_sign, call_chain, slash, logical_or, match_keys_close,
  bitwise_or, doc_comment, token,
}
use slug.Lexer.{
  UnicodeTables, Lexer, ch, peek_char, peek_two_chars, read_char, handle_compound_token,
  handle_compound_token2, within_baseline,
}
use slug.Lexer.Skip.{Scanned, scanned, malformed, skip_block_comment, read_doc_comment}
use slug.Lexer.General.{
  Outcome, consume, scan_newline, error_or, scan_slash, scan_bar, scan_operator,
}
use slug.Lexer.Spelling.{is_verbatim, SpellsOutcome, read_char-tail, one_spelled, two_spelled}

-- What the code relies on: the code point 0 is no letter, no mark and no digit.
pub record HasNoZero (u : UnicodeTables) : Type 0 where
  pub no_letter : u.letter 0 ≡ false
  pub no_mark : u.mark 0 ≡ false
  pub no_digit : u.decimal_digit 0 ≡ false

pub either-Spells :
    (l : Lexer) (b : Bool) (x y : Outcome)
    → (b ≡ true → SpellsOutcome l x)
    → SpellsOutcome l y
    → SpellsOutcome l (if b then x else y)
either-Spells l true x y fx fy = fx refl
either-Spells l false x y fx fy = fy

pub nonzero : (c d : ℕ) → (c == d) ≡ true → (d == 0) ≡ false → (c == 0) ≡ false
nonzero c d h k = ground arith

pair_spelled :
    (l : Lexer) (kind : TokenType) (d : ℕ)
    → (ch l == 0) ≡ false
    → (peek_char l == d) ≡ true
    → (d == 0) ≡ false
    → SpellsOutcome l (consume (read_char l, token kind (ch l ∷ peek_char l ∷ []) l.position))
pair_spelled l kind d m h n =
    two_spelled l (read_char l) kind (ch l) (peek_char l) refl refl m (nonzero (peek_char l) d h n)
      (read_char-tail l)

compound-Spells :
    (l : Lexer) (t : TokenType) (ch₁ : ℕ) (t₁ : TokenType)
    → (ch l == 0) ≡ false
    → (ch₁ == 0) ≡ false
    → SpellsOutcome l (consume (handle_compound_token l t ch₁ t₁))
compound-Spells l t ch₁ t₁ m n = elim (Bool-cases (peek_char l == ch₁)) [
  | inl y ↦ rw y (pair_spelled l t₁ ch₁ m y n)
  | inr o ↦ rw o (one_spelled l l t m refl)
]

compound2-Spells :
    (l : Lexer) (t : TokenType) (ch₁ : ℕ) (t₁ : TokenType) (ch₂ : ℕ) (t₂ : TokenType)
    → (ch l == 0) ≡ false
    → (ch₁ == 0) ≡ false
    → (ch₂ == 0) ≡ false
    → SpellsOutcome l (consume (handle_compound_token2 l t ch₁ t₁ ch₂ t₂))
compound2-Spells l t ch₁ t₁ ch₂ t₂ m n n₂ = elim (Bool-cases (peek_char l == ch₁)) [
  | inl y ↦ rw y (pair_spelled l t₁ ch₁ m y n)
  | inr o ↦ elim (Bool-cases (peek_char l == ch₂)) [
    | inl y ↦ rw (o, y) (pair_spelled l t₂ ch₂ m y n₂)
    | inr p ↦ rw (o, p) (one_spelled l l t m refl)
  ]
]

pub scan_operator-Spells : (l : Lexer) → (ch l == 0) ≡ false → SpellsOutcome l (scan_operator l)
unfolding scan_operator
scan_operator-Spells l m =
    let stay = λ (kind : TokenType). one_spelled l l kind m refl in
    let one = λ (t : TokenType) (c : ℕ) (t₁ : TokenType) (n : (c == 0) ≡ false).
      compound-Spells l t c t₁ m n in
    let two =
      λ (t : TokenType) (c : ℕ) (t₁ : TokenType) (d : ℕ) (t₂ : TokenType) (n : (c == 0) ≡ false)
          (o : (d == 0) ≡ false).
        compound2-Spells l t c t₁ d t₂ m n o in
    either-Spells l _ _ _ (λ e. two assign b'=' eq b'>' rocket refl refl)
      (either-Spells l _ _ _ (λ e. one plus b':' prepend_item refl)
        (either-Spells l _ _ _ (λ e. stay minus)
          (either-Spells l _ _ _ (λ e. one bang b'=' not_eq refl)
            (either-Spells l _ _ _ (λ e. stay asterisk)
              (either-Spells l _ _ _ (λ e. stay percent)
                (either-Spells l _ _ _ (λ e. stay complement)
                  (either-Spells l _ _ _ (λ e. one bitwise_and b'&' logical_and refl)
                    (either-Spells l _ _ _ (λ e. stay bitwise_xor)
                      (either-Spells l _ _ _ (λ e. two lt b'=' lt_eq b'<' shift_left refl refl)
                        (either-Spells l _ _ _ (λ e. two gt b'=' gt_eq b'>' shift_right refl refl)
                          (either-Spells l _ _ _ (λ e. stay semicolon)
                            (either-Spells l _ _ _ (λ e. one colon b'+' append_item refl)
                              (either-Spells l _ _ _ (λ e. stay comma) (stay at_sign))))))))))))))

pub scan_newline-Spells : (l : Lexer) → SpellsOutcome l (scan_newline l)
unfolding scan_newline SpellsOutcome
scan_newline-Spells l =
    elim (Bool-cases (within_baseline l.delimiter_brace_baselines l.brace_depth)) [
      | inl y ↦ rw y tt
      | inr n ↦ rw n (λ v. absurd (true≢false (sym v)))
    ]

pub error_or-Spells :
    (l : Lexer) (kind : TokenType) (out : Lexer × Scanned)
    → is_verbatim kind ≡ false
    → SpellsOutcome l (error_or l kind out)
unfolding SpellsOutcome
error_or-Spells l kind (k, scanned text) e = λ v. absurd (true≢false (sym v ∙ e))
error_or-Spells l kind (k, malformed message) e = λ v. absurd (true≢false (sym v))

pub scan_slash-Spells :
    (u : UnicodeTables) (l : Lexer) → (ch l == b'/') ≡ true → SpellsOutcome l (scan_slash u l)
unfolding scan_slash SpellsOutcome
scan_slash-Spells u l e =
    let at = (==_iff (ch l) b'/').0 e in
    elim (Bool-cases (peek_char l == b'>')) [
      | inl y ↦ rw y (
          two_spelled l (read_char l) call_chain b'/' b'>' at ((==_iff (peek_char l) b'>').0 y) refl
            refl (read_char-tail l))
      | inr n ↦ elim (Bool-cases (peek_char l == b'*')) [
        | inr m ↦ rw (n, m) (one_spelled l l slash (nonzero (ch l) b'/' e refl) refl)
        | inl y ↦ elim (Bool-cases (peek_two_chars l == b'*')) [
          | inl z ↦ rw (n, y, z) (error_or-Spells l doc_comment (read_doc_comment u l) refl)
          | inr z ↦ elim (Bool-cases (skip_block_comment l).1) [
            | inl w ↦ rw (n, y, z, w) tt
            | inr w ↦ rw (n, y, z, w) (λ v. absurd (true≢false (sym v)))
          ]
        ]
      ]
    ]

pub scan_bar-Spells : (l : Lexer) → (ch l == b'|') ≡ true → SpellsOutcome l (scan_bar l)
unfolding scan_bar SpellsOutcome
scan_bar-Spells l e =
    let at = (==_iff (ch l) b'|').0 e in
    elim (Bool-cases (peek_char l == b'|')) [
      | inl y ↦ rw y (
          two_spelled l (read_char l) logical_or b'|' b'|' at ((==_iff (peek_char l) b'|').0 y) refl
            refl (read_char-tail l))
      | inr n ↦ elim (Bool-cases (peek_char l == b'}')) [
        | inl y ↦
            rw (n, y)
              (two_spelled l (read_char l) match_keys_close b'|' b'}' at
                ((==_iff (peek_char l) b'}').0 y) refl refl (read_char-tail l))
        | inr m ↦ rw (n, m) (one_spelled l l bitwise_or (nonzero (ch l) b'|' e refl) refl)
      ]
    ]
