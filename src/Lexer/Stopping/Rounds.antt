-- ===== src/Lexer/Stopping/Rounds.antt =====
-- The calls of NextToken of itself, internal/lexer/general_tokenizer.go: their rounds.
use slug.Prelude.{ℕ, zero, suc, ◌<◌, ◌≡◌, refl, true, ◌==◌, ==_iff, Bool-cases, inl, inr, arith}
use slug.Token.{Token}
use slug.Lexer.{
  UnicodeTables, Lexer, Tokenizer, general, single_line, multi_line, ch, read_char, rounds,
}
use slug.Lexer.Skip.{skip_whitespace}
use slug.Lexer.General.{Outcome, consume, emit, again, scan, general_token, token_in, next_token}
use slug.Lexer.Cursor.{left, ch_pos}
use slug.Lexer.Reading.{skip_whitespace-After}
use slug.Lexer.Progress.{FallsOutcome}
use slug.Lexer.Progress.Cases.{scan-Falls}
use slug.Lexer.Progress.Stream.{scan-at_end}
use slug.Lexer.Stopping.Kinds.{
  is_kind, GivesKind, single_line_token-kind, multi_line_token-kind, scan-GivesKind,
}

outcome-kind :
    (u : UnicodeTables) (f : ℕ)
    (step : (l : Lexer) → left l < f → is_kind (general_token u f l).1.kind ≡ true) (l : Lexer)
    (o : Outcome)
    → left l < suc f
    → FallsOutcome l o
    → GivesKind o
    → is_kind
        (elim o as (λ o. Lexer × Token) [
          | consume out ↦ (read_char out.0, out.1)
          | emit out ↦ out
          | again next ↦ general_token u f next
        ]).1.kind
      ≡ true
unfolding FallsOutcome GivesKind
outcome-kind u f step l (consume out) enough falls e = e
outcome-kind u f step l (emit out) enough falls e = e
outcome-kind u f step l (again next) enough falls e = step next (omega (arith, enough, falls))

general_token-kind :
    (u : UnicodeTables) (f : ℕ) (l : Lexer)
    → left l < f
    → is_kind (general_token u f l).1.kind ≡ true
unfolding general_token
general_token-kind u zero l enough = absurd (omega (arith, enough))
general_token-kind u (suc f) l enough =
    let k = skip_whitespace (rounds l) l in
    let a = skip_whitespace-After (rounds l) l in
    elim (Bool-cases (ch k == 0)) [
      | inl y ↦ rw (general_token, scan-at_end u k ((==_iff (ch k) 0).0 y)) refl
      | inr n ↦
          outcome-kind u f (general_token-kind u f) k (scan u k) (omega (arith, enough, a.shorter))
            (scan-Falls u k (ch_pos k n)) (scan-GivesKind u k)
    ]

token_in-kind :
    (u : UnicodeTables) (mode : Tokenizer) (l : Lexer) → is_kind (token_in u mode l).1.kind ≡ true
token_in-kind u general l = general_token-kind u (rounds l) l (omega arith)
token_in-kind u (single_line raw) l = single_line_token-kind raw l
token_in-kind u (multi_line raw) l = multi_line_token-kind raw l

-- In every state of the lexer and in every mode, the calls of NextToken of itself and the loops
-- of the string tokenizers end: they return before they have no round left, so that the token has
-- a kind of the code.
pub next_token-kind : (u : UnicodeTables) (l : Lexer) → is_kind (next_token u l).1.kind ≡ true
unfolding next_token
next_token-kind u l = token_in-kind u l.current_mode l
