-- ===== src/Lexer/Spelling/Tokens.antt =====
-- NextToken of internal/lexer/lexer.go: where the literals of its tokens stand.
use slug.Prelude.{
  ℕ, zero, suc, ◌+◌, ◌≤◌, ◌≡◌, refl, sym, ap, ◌∙◌, Bool, true, false, List, [], ◌∷◌, ◌++◌,
  if◌then◌else◌, Bool-cases, inl, inr, append_assoc, arith,
}
use slug.Prelude.Text.{Text, size}
use slug.Token.{Token}
use slug.Lexer.{
  UnicodeTables, Lexer, Tokenizer, general, single_line, multi_line, read_char, rounds, new_lexer,
}
use slug.Lexer.Skip.{skip_whitespace}
use slug.Lexer.Strings.{single_line_token, multi_line_token}
use slug.Lexer.General.{
  Outcome, consume, emit, again, scan, general_token, token_in, next_token, tokens,
}
use slug.Lexer.Cursor.{spelled, After, After-refl, After-trans, read_char-After}
use slug.Lexer.Reading.{skip_whitespace-After}
use slug.Lexer.Bounds.{single_line_token-Fits, multi_line_token-Fits}
use slug.Lexer.Bounds.Cases.{FitsOutcome}
use slug.Lexer.Bounds.Tokens.{scan-Fits, next_token-Fits, size-spelled}
use slug.Lexer.Spelling.{is_verbatim, Spells, SpellsOutcome, read_char-tail, unspelled}
use slug.Lexer.Spelling.Cases.{HasNoZero}
use slug.Lexer.Spelling.Words.{scan-Spells, single_line_token-unspelled, multi_line_token-unspelled}

-- Past white space and comments, the lexer stands where the token's literal does.
record Spans (l : Lexer) (out : Lexer × Token) : Type 0 where
  start : Lexer
  reached : After l start
  onward : After start out.0
  spells : Spells start out.0.ahead out.1

outcome-Spans :
    (u : UnicodeTables) (f : ℕ) (step : (l : Lexer) → Spans l (general_token u f l)) (l : Lexer)
    (o : Outcome)
    → FitsOutcome l o
    → SpellsOutcome l o
    → Spans l (elim o [
      | consume out ↦ (read_char out.0, out.1)
      | emit out ↦ out
      | again next ↦ general_token u f next
    ])
unfolding FitsOutcome SpellsOutcome
outcome-Spans u f step l (consume out) fits spells = record {
  start = l;
  reached = After-refl l;
  onward = After-trans l out.0 _ fits.forward (read_char-After out.0);
  spells = λ v.
      let (placed, e) = spells v in
      (placed, e ∙ ap (λ (r : Text). out.1.literal ++ r) (sym (read_char-tail out.0)));
}
outcome-Spans u f step l (emit out) fits spells = record {
  start = l;
  reached = After-refl l;
  onward = fits.forward;
  spells = spells;
}
outcome-Spans u f step l (again next) fits spells =
    let s = step next in
    record {
      start = s.start;
      reached = After-trans l next s.start fits s.reached;
      onward = s.onward;
      spells = s.spells;
    }

general_token-Spans :
    (u : UnicodeTables) (f : ℕ) (l : Lexer) → HasNoZero u → Spans l (general_token u f l)
unfolding general_token
general_token-Spans u zero l z = record {
  start = l;
  reached = After-refl l;
  onward = After-refl l;
  spells = unspelled l (general_token u zero l) refl;
}
general_token-Spans u (suc f) l z =
    let k = skip_whitespace (rounds l) l in
    let s =
      outcome-Spans u f (λ l. general_token-Spans u f l z) k (scan u k) (scan-Fits u k)
        (scan-Spells u k z) in
    record {
      start = s.start;
      reached = After-trans l k s.start (skip_whitespace-After (rounds l) l) s.reached;
      onward = s.onward;
      spells = s.spells;
    }

token_in-Spans :
    (u : UnicodeTables) (mode : Tokenizer) (l : Lexer) → HasNoZero u → Spans l (token_in u mode l)
token_in-Spans u general l z = general_token-Spans u (rounds l) l z
token_in-Spans u (single_line raw) l z = record {
  start = l;
  reached = After-refl l;
  onward = (single_line_token-Fits raw l).forward;
  spells = unspelled l (single_line_token raw l) (single_line_token-unspelled raw l);
}
token_in-Spans u (multi_line raw) l z = record {
  start = l;
  reached = After-refl l;
  onward = (multi_line_token-Fits raw l).forward;
  spells = unspelled l (multi_line_token raw l) (multi_line_token-unspelled raw l);
}

next_token-Spans : (u : UnicodeTables) (l : Lexer) → HasNoZero u → Spans l (next_token u l)
unfolding next_token
next_token-Spans u l z = token_in-Spans u l.current_mode l z

-- The token's literal stands in the input, with as many bytes before it as the token's position.
pub record StandsIn (input : Text) (t : Token) : Type 0 where
  pub before : Text
  pub rest : Text
  pub spells : before ++ (t.literal ++ rest) ≡ input
  pub places : size before ≡ t.position

-- The bytes that a token is known to take up.
abbrev pub width : Token → ℕ
width t = if is_verbatim t.kind then size t.literal else 0

-- The tokens stand one behind the other, none before the bound, and all within the input; those with
-- a verbatim literal stand where it stands in the input.
abbrev pub Laid : Text → ℕ → List Token → Type 0
Laid input low [] = low ≤ size input
Laid input low (t ∷ ts) =
    (low ≤ t.position)
    × (if is_verbatim t.kind then StandsIn input t else Unit)
    × Laid input (t.position + width t) ts

Laid-from :
    (input : Text) (low mid : ℕ) (ts : List Token)
    → low ≤ mid
    → Laid input mid ts
    → Laid input low ts
Laid-from input low mid [] h a = omega (arith, h, a)
Laid-from input low mid (t ∷ ts) h (a, there, rest) = (omega (arith, h, a), there, rest)

spelled-append : (behind ahead : Text) → spelled behind ahead ≡ spelled behind [] ++ ahead
spelled-append [] ahead = refl
spelled-append (c ∷ behind) ahead =
    spelled-append behind (c ∷ ahead)
    ∙ sym (append_assoc (spelled behind []) (c ∷ []) ahead)
    ∙ ap (λ t. t ++ ahead) (sym (spelled-append behind (c ∷ [])))

size-append : (s t : Text) → size (s ++ t) ≡ size s + size t
size-append [] t = omega arith
size-append (c ∷ s) t = omega (arith, size-append s t)

standing :
    (input : Text) (out : Lexer × Token) (m : Lexer)
    → After (new_lexer input) m
    → Spells m out.0.ahead out.1
    → is_verbatim out.1.kind ≡ true
    → StandsIn input out.1
unfolding new_lexer
standing input out m a spells v =
    let (placed, e) = spells v in
    record {
      before = spelled m.behind [];
      rest = out.0.ahead;
      spells =
          ap (λ (t : Text). spelled m.behind [] ++ t) (sym e)
          ∙ sym (spelled-append m.behind m.ahead)
          ∙ a.spells;
      places = omega (arith, size-spelled m.behind [], a.counts, placed);
    }

-- The lexer stands right behind the literal.
width-le :
    (l m : Lexer) (out : Lexer × Token)
    → out.1.position ≤ out.0.position
    → After m out.0
    → Spells m out.0.ahead out.1
    → out.1.position + width out.1 ≤ out.0.position
width-le l m out h onward spells = elim (Bool-cases (is_verbatim out.1.kind)) [
  | inr n ↦ rw n (omega (arith, h))
  | inl v ↦
      let (placed, e) = spells v in
      rw v (
        omega (
          arith,
          placed,
          onward.counts,
          ap size e,
          size-append out.1.literal out.0.ahead,
          size-spelled m.behind m.ahead,
          size-spelled out.0.behind out.0.ahead,
          ap size onward.spells,
        ))
]

when_true : (b : Bool) (P : Type 0) → (b ≡ true → P) → if b then P else Unit
when_true true P h = h refl
when_true false P h = tt

lexer-Laid :
    (u : UnicodeTables) (input : Text) (n : ℕ) (l : Lexer)
    → HasNoZero u
    → After (new_lexer input) l
    → Laid input l.position (tokens u n l)
unfolding tokens new_lexer
lexer-Laid u input zero l z a =
    omega (arith, a.counts, size-spelled l.behind l.ahead, ap size a.spells)
lexer-Laid u input (suc n) l z a =
    let out = next_token u l in
    let fits = next_token-Fits u l in
    let s = next_token-Spans u l z in
    let started = After-trans (new_lexer input) l s.start a s.reached in
    let rest =
      lexer-Laid u input n out.0 z (After-trans (new_lexer input) l out.0 a fits.forward) in
    (
      fits.from,
      when_true (is_verbatim out.1.kind) (StandsIn input out.1)
          (standing input out s.start started s.spells),
      Laid-from input (out.1.position + width out.1) out.0.position (tokens u n out.0)
          (width-le l s.start out fits.upto s.onward s.spells) rest,
    )

-- Where the code point 0 is no letter, mark or digit, the tokens of a text stand in it one behind
-- the other. The literal of each word, operator or delimiter, apart from `}}`, is found in the
-- text at the byte position of the token, and the next token does not start before its end; after
-- a token of another kind the next does not start before it. None starts behind the end of the
-- text.
pub tokens-Laid :
    (u : UnicodeTables) (input : Text) (n : ℕ)
    → HasNoZero u
    → Laid input 0 (tokens u n (new_lexer input))
unfolding new_lexer
tokens-Laid u input n z = lexer-Laid u input n (new_lexer input) z (After-refl (new_lexer input))
