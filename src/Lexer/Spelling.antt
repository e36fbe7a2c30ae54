-- ===== src/Lexer/Spelling.antt =====
-- The general tokenizer, internal/lexer/general_tokenizer.go: the literals of words, operators and
-- delimiters.
pub mod Cases
pub mod Words
pub mod Tokens
use slug.Prelude.{
  ℕ, zero, suc, ◌≡◌, refl, sym, ap, ◌∙◌, Bool, true, false, ◌==◌, ==_iff, List, [], ◌∷◌, ◌++◌,
  if◌then◌else◌, arith,
}
use mathlib.Core.Bool.{true≢false}
use slug.Prelude.Text.{Text}
use slug.Token.{
  Token, TokenType, illegal, eof, newline, doc_comment, number, string_token, bytes,
  interpolation_end, out_of_rounds, token,
}
use slug.Lexer.{Lexer, ch, peek_char, peek_two_chars, first, tail, advance, read_char, here}
use slug.Lexer.Skip.{read_chars}
use slug.Lexer.General.{Outcome, consume, emit, again}

-- The kinds whose literal is what stands in the input, all of what the token takes up: words,
-- operators and delimiters. `}}` is not among them, as a quote right after it is read with it.
abbrev pub is_verbatim : TokenType → Bool
is_verbatim illegal = false
is_verbatim eof = false
is_verbatim newline = false
is_verbatim doc_comment = false
is_verbatim number = false
is_verbatim string_token = false
is_verbatim bytes = false
is_verbatim interpolation_end = false
is_verbatim out_of_rounds = false
is_verbatim _ = true

-- The token's literal stands where the lexer is, with the rest after it.
abbrev pub Spells : Lexer → Text → Token → Type 0
Spells l rest t =
    is_verbatim t.kind ≡ true → (t.position ≡ l.position) × (l.ahead ≡ t.literal ++ rest)

unfoldable pub SpellsOutcome : Lexer → Outcome → Type 0
SpellsOutcome l (consume out) = Spells l (tail out.0.ahead) out.1
SpellsOutcome l (emit out) = Spells l out.0.ahead out.1
SpellsOutcome l (again k) = Unit

advance-tail : (t : Text) (l : Lexer) → l.ahead ≡ t → (advance t l).ahead ≡ tail t
unfolding advance
advance-tail [] l e = e
advance-tail (c ∷ cs) l e = refl

pub read_char-tail : (l : Lexer) → (read_char l).ahead ≡ tail l.ahead
unfolding read_char
read_char-tail l = advance-tail l.ahead l refl

pub read_two-tail : (l : Lexer) → (read_chars 2 l).ahead ≡ tail (tail l.ahead)
unfolding read_chars
read_two-tail l = read_char-tail (read_char l) ∙ ap tail (read_char-tail l)

pub cut_first : (t : Text) → (first t == 0) ≡ false → t ≡ first t ∷ tail t
cut_first [] h = absurd (true≢false h)
cut_first (c ∷ cs) h = refl

-- Literals of one, two and three code points.
pub one_spelled :
    (l k : Lexer) (kind : TokenType)
    → (ch l == 0) ≡ false
    → k.ahead ≡ l.ahead
    → SpellsOutcome l (consume (k, here kind l))
unfolding SpellsOutcome
one_spelled l k kind h e = λ _. (refl, cut_first l.ahead h ∙ ap (λ t. ch l ∷ tail t) (sym e))

pub one_at :
    (l : Lexer) (kind : TokenType) → (ch l == 0) ≡ false → Spells l (tail l.ahead) (here kind l)
one_at l kind h = λ _. (refl, cut_first l.ahead h)

pub two_at :
    (l : Lexer) (kind : TokenType) (c d : ℕ) (rest : Text)
    → ch l ≡ c
    → peek_char l ≡ d
    → (c == 0) ≡ false
    → (d == 0) ≡ false
    → rest ≡ tail l.ahead
    → Spells l (tail rest) (token kind (c ∷ d ∷ []) l.position)
two_at l kind c d rest p q m n e = λ _. (
  refl,
  cut_first l.ahead (ap (λ c. c == 0) p ∙ m)
      ∙ ap (λ t. ch l ∷ t) (cut_first (tail l.ahead) (ap (λ d. d == 0) q ∙ n))
      ∙ ap (λ c. c ∷ peek_char l ∷ tail (tail l.ahead)) p
      ∙ ap (λ d. c ∷ d ∷ tail (tail l.ahead)) q
      ∙ ap (λ t. c ∷ d ∷ tail t) (sym e),
)

pub two_spelled :
    (l k : Lexer) (kind : TokenType) (c d : ℕ)
    → ch l ≡ c
    → peek_char l ≡ d
    → (c == 0) ≡ false
    → (d == 0) ≡ false
    → k.ahead ≡ tail l.ahead
    → SpellsOutcome l (consume (k, token kind (c ∷ d ∷ []) l.position))
unfolding SpellsOutcome
two_spelled l k kind c d p q m n e = two_at l kind c d k.ahead p q m n e

pub three_spelled :
    (l k : Lexer) (kind : TokenType) (c : ℕ)
    → ch l ≡ c
    → peek_char l ≡ c
    → peek_two_chars l ≡ c
    → (c == 0) ≡ false
    → k.ahead ≡ tail (tail l.ahead)
    → SpellsOutcome l (consume (k, token kind (c ∷ c ∷ c ∷ []) l.position))
unfolding SpellsOutcome
three_spelled l k kind c p q r m e = λ _. (
  refl,
  cut_first l.ahead (ap (λ c. c == 0) p ∙ m)
      ∙ ap (λ t. ch l ∷ t) (cut_first (tail l.ahead) (ap (λ d. d == 0) q ∙ m))
      ∙ ap (λ t. ch l ∷ peek_char l ∷ t) (cut_first (tail (tail l.ahead)) (ap (λ d. d == 0) r ∙ m))
      ∙ ap (λ c. c ∷ peek_char l ∷ peek_two_chars l ∷ tail (tail (tail l.ahead))) p
      ∙ ap (λ d. c ∷ d ∷ peek_two_chars l ∷ tail (tail (tail l.ahead))) q
      ∙ ap (λ d. c ∷ c ∷ d ∷ tail (tail (tail l.ahead))) r
      ∙ ap (λ t. c ∷ c ∷ c ∷ tail t) (sym e),
)

pub unspelled :
    (l : Lexer) (out : Lexer × Token) → is_verbatim out.1.kind ≡ false → Spells l out.0.ahead out.1
unspelled l out h = λ v. absurd (true≢false (sym v ∙ h))
