-- ===== src/Lexer/RoundTrip.antt =====
-- internal/lexer/string_tokenizer.go on a string that is written between double quotes.
use slug.Prelude.{
  ℕ, zero, suc, ◌<◌, ◌≡◌, refl, sym, ap, ◌∙◌, Bool, true, false, not, ◌&&◌, ◌==◌, [], ◌∷◌, ◌++◌,
  length, Bool-cases, inl, inr, arith, append-nil, append_assoc,
}
use slug.Prelude.Text.{Text}
use slug.Token.{Token, token, string_token}
use slug.Lexer.{
  UnicodeTables, Lexer, general, single_line, read_char, advance, first, rounds, set_mode,
  switch_mode,
}
use slug.Lexer.Skip.{skip_whitespace}
use slug.Lexer.Strings.{
  is_simple_escape, escape_of, read_escape, read_piece, single_line_loop, single_line_token,
}
use slug.Lexer.General.{tripled, scan, scan_quote, general_token, token_in, next_token}

advance-ahead : (c : ℕ) (xs t : Text) (l : Lexer) → t ≡ c ∷ xs → (advance t l).ahead ≡ xs
unfolding advance
advance-ahead c xs t l e = rw e refl

pub read_char-ahead : (c : ℕ) (xs : Text) (l : Lexer) → l.ahead ≡ c ∷ xs → (read_char l).ahead ≡ xs
unfolding read_char
read_char-ahead c xs l e = advance-ahead c xs l.ahead l e

advance-mode : (t : Text) (l : Lexer) → (advance t l).current_mode ≡ l.current_mode
unfolding advance
advance-mode [] l = refl
advance-mode (c ∷ cs) l = refl

pub read_char-mode : (l : Lexer) → (read_char l).current_mode ≡ l.current_mode
unfolding read_char
read_char-mode l = advance-mode l.ahead l

-- One round of the loop at a code point that stands for itself, and at one behind a backslash.
round_plain :
    (c : ℕ) (xs : Text) (f : ℕ) (l : Lexer) (text : Text) (start : ℕ)
    → l.ahead ≡ c ∷ xs
    → (c == 0) ≡ false
    → (c == b'"') ≡ false
    → (c == b'\\') ≡ false
    → (c == b'{' && first xs == b'{') ≡ false
    → single_line_loop false (suc f) l text start
      ≡ single_line_loop false f (read_char l) (text ++ (c ∷ [])) start
unfolding single_line_loop read_piece
round_plain c xs f l text start e zero? quote? slash? brace? =
    rw (e, zero?, brace?, quote?, slash?) refl

escape_read :
    (d : ℕ) (xs : Text) (l : Lexer)
    → l.ahead ≡ d ∷ xs
    → is_simple_escape d ≡ true
    → read_escape l ≡ (l, escape_of d ∷ [])
unfolding read_escape
escape_read d xs l e simple = rw (e, simple) refl

round_escape :
    (d : ℕ) (xs : Text) (f : ℕ) (l : Lexer) (text : Text) (start : ℕ)
    → l.ahead ≡ b'\\' ∷ d ∷ xs
    → is_simple_escape d ≡ true
    → single_line_loop false (suc f) l text start
      ≡ single_line_loop false f (read_char (read_char l)) (text ++ (escape_of d ∷ [])) start
unfolding single_line_loop read_piece
round_escape d xs f l text start e simple =
    rw (escape_read d xs (read_char l) (read_char-ahead b'\\' (d ∷ xs) l e) simple, e) refl

round_quote :
    (xs : Text) (f : ℕ) (l : Lexer) (text : Text) (start : ℕ)
    → l.ahead ≡ b'"' ∷ xs
    → single_line_loop false (suc f) l text start
      ≡ (set_mode (read_char l) general, token string_token text start)
unfolding single_line_loop
round_quote xs f l text start e = rw e refl

-- How a code point may be written: as itself, or as a letter behind a backslash.
pub data Spelling (c : ℕ) : Text → Type 0 where
  plain : (c == 0) ≡ false → (c == b'"') ≡ false → (c == b'\\') ≡ false → Spelling c (c ∷ [])
  escape : (d : ℕ) → is_simple_escape d ≡ true → escape_of d ≡ c → Spelling c (b'\\' ∷ d ∷ [])

-- No `{{` in a text.
abbrev pub opens_no_braces : Text → Bool
opens_no_braces [] = true
opens_no_braces (c ∷ cs) = not (c == b'{' && first cs == b'{') && opens_no_braces cs

Spelling-lt : (c : ℕ) (s xs : Text) → Spelling c s → length xs < length (s ++ xs)
Spelling-lt c s xs (plain zero? quote? slash?) = omega arith
Spelling-lt c s xs (escape d simple same) = omega arith

round :
    (c : ℕ) (s xs : Text) (f : ℕ) (l : Lexer) (text : Text) (start : ℕ)
    → Spelling c s
    → l.ahead ≡ s ++ xs
    → (c == b'{' && first xs == b'{') ≡ false
    → (k : Lexer) × (k.ahead ≡ xs)
      × (single_line_loop false (suc f) l text start
          ≡ single_line_loop false f k (text ++ (c ∷ [])) start)
round c s xs f l text start (plain zero? quote? slash?) e brace? = (
  read_char l,
  read_char-ahead c xs l e,
  round_plain c xs f l text start e zero? quote? slash? brace?,
)
round c s xs f l text start (escape d simple same) e brace? = (
  read_char (read_char l),
  read_char-ahead d xs (read_char l) (read_char-ahead b'\\' (d ∷ xs) l e),
  rw⁻¹ same (round_escape d xs f l text start e simple),
)

not_quote : (c : ℕ) (s xs rest : Text) → Spelling c s → (first ((s ++ xs) ++ rest) == b'"') ≡ false
not_quote c s xs rest (plain zero? quote? slash?) = quote?
not_quote c s xs rest (escape d simple same) = refl

skip_whitespace-quote :
    (xs : Text) (f : ℕ) (l : Lexer) → l.ahead ≡ b'"' ∷ xs → skip_whitespace (suc f) l ≡ l
unfolding skip_whitespace
skip_whitespace-quote xs f l e = rw e refl

scan-quote :
    (u : UnicodeTables) (xs : Text) (l : Lexer)
    → l.ahead ≡ b'"' ∷ xs
    → scan u l ≡ scan_quote false l
unfolding scan
scan-quote u xs l e = rw e refl

next_token-quote :
    (u : UnicodeTables) (xs : Text) (l : Lexer)
    → l.current_mode ≡ general
    → l.ahead ≡ b'"' ∷ xs
    → tripled l ≡ false
    → next_token u l ≡ single_line_token false (switch_mode (read_char l) (single_line false))
unfolding next_token general_token scan_quote
next_token-quote u xs l mode e single =
    ap (λ m. token_in u m l) mode
    ∙ (rw
        (general_token, skip_whitespace-quote xs (length l.ahead) l e, scan-quote u xs l e, single)
        refl)

module _ (spell : ℕ → Text) where
  abbrev pub spelling : Text → Text
  spelling [] = []
  spelling (c ∷ cs) = spell c ++ spelling cs

  abbrev pub Spells : Text → Type 0
  Spells [] = Unit
  Spells (c ∷ cs) = Spelling c (spell c) × Spells cs

  first_brace :
      (c : ℕ) (s rest : Text)
      → Spelling c s
      → (first (s ++ rest) == b'{') ≡ true
      → (c == b'{') ≡ true
  first_brace c s rest (plain zero? quote? slash?) h = h
  first_brace c s rest (escape d simple same) h = ground arith

  -- No `{{` comes up in what is written either.
  next_brace :
      (cs rest : Text)
      → Spells cs
      → (first (spelling cs ++ (b'"' ∷ rest)) == b'{') ≡ true
      → (first cs == b'{') ≡ true
  next_brace [] rest spells h = ground arith
  next_brace (c ∷ cs) rest (spells, others) h =
      first_brace c (spell c) (spelling cs ++ (b'"' ∷ rest)) spells
        (rw⁻¹ (append_assoc (spell c) (spelling cs) (b'"' ∷ rest)) h)

  no_brace :
      (c : ℕ) (cs rest : Text)
      → Spells cs
      → opens_no_braces (c ∷ cs) ≡ true
      → (c == b'{' && first (spelling cs ++ (b'"' ∷ rest)) == b'{') ≡ false
  no_brace c cs rest spells none =
      elim (Bool-cases (first (spelling cs ++ (b'"' ∷ rest)) == b'{')) [
        | inr n ↦ ground (arith, n)
        | inl y ↦ ground (arith, next_brace cs rest spells y, none)
      ]

  abbrev pub Read : Text → Text → ℕ → Lexer × Token → Type 0
  Read text rest start (k, t) =
      (t ≡ token string_token text start) × (k.ahead ≡ rest) × (k.current_mode ≡ general)

  loop_lem :
      (cs rest : Text) (f : ℕ) (l : Lexer) (text : Text) (start : ℕ)
      → l.ahead ≡ spelling cs ++ (b'"' ∷ rest)
      → Spells cs
      → opens_no_braces cs ≡ true
      → length l.ahead < f
      → Read (text ++ cs) rest start (single_line_loop false f l text start)
  loop_lem cs rest zero l text start e spells none enough = absurd (omega (arith, enough))
  loop_lem [] rest (suc f) l text start e spells none enough =
      rw (round_quote rest f l text start e, append-nil text)
        (refl, read_char-ahead b'"' rest l e, refl)
  loop_lem (c ∷ cs) rest (suc f) l text start e (spells, others) none enough =
      let xs = spelling cs ++ (b'"' ∷ rest) in
      let (k, e', same) =
        round c (spell c) xs f l text start spells
          (e ∙ append_assoc (spell c) (spelling cs) (b'"' ∷ rest))
          (no_brace c cs rest others none) in
      rw (same, sym (append_assoc text (c ∷ []) cs))
        (loop_lem cs rest f k (text ++ (c ∷ [])) start e' others (ground (arith, none)) (
          omega (
            arith,
            enough,
            ap (λ (t : Text). length t) e',
            ap (λ (t : Text). length t) (e ∙ append_assoc (spell c) (spelling cs) (b'"' ∷ rest)),
            Spelling-lt c (spell c) xs spells,
          )))

  not_tripled :
      (cs rest : Text) (l : Lexer)
      → l.ahead ≡ b'"' ∷ (spelling cs ++ (b'"' ∷ rest))
      → Spells cs
      → (first rest == b'"') ≡ false
      → tripled l ≡ false
  not_tripled [] rest l e spells after = rw (e, after) refl
  not_tripled (c ∷ cs) rest l e (spells, others) after =
      rw (e, not_quote c (spell c) (spelling cs) (b'"' ∷ rest) spells) refl

  pub next_token-spelling :
      (u : UnicodeTables) (cs rest : Text) (l : Lexer)
      → l.current_mode ≡ general
      → l.ahead ≡ b'"' ∷ (spelling cs ++ (b'"' ∷ rest))
      → Spells cs
      → opens_no_braces cs ≡ true
      → (first rest == b'"') ≡ false
      → Read cs rest (read_char l).position (next_token u l)
  unfolding single_line_token
  next_token-spelling u cs rest l mode e spells none after =
      let k = switch_mode (read_char l) (single_line false) in
      let inside = read_char-ahead b'"' (spelling cs ++ (b'"' ∷ rest)) l e in
      let done = loop_lem cs rest (rounds k) k [] k.position inside spells none (omega arith) in
      rw
        (next_token-quote u (spelling cs ++ (b'"' ∷ rest)) l mode e
          (not_tripled cs rest l e spells after))
        done
