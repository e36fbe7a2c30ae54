-- ===== src/Symbols/Parsing.antt =====
-- Reading what `Symbol.Inspect`, internal/object/symbol.go, prints, by the lexer and
-- `parseSymbolLiteralFromColon`, internal/parser/parser.go.
use slug.Prelude.{
  ℕ, ◌≡◌, refl, sym, ap, ◌∙◌, Bool, true, false, not, ◌&&◌, ◌==◌, ==_iff, if◌then◌else◌, Option,
  none, some, [], ◌∷◌, ◌++◌, Bool-cases, inl, inr, arith,
}
use mathlib.Core.Bool.{true≢false}
use slug.Prelude.Text.{Text, codes, text_eq}
use slug.Token.{Token, TokenType, token, string_token, colon, lookup_ident}
use slug.Lexer.{UnicodeTables, Lexer, general, read_char, new_lexer}
use slug.Lexer.Skip.{skip_whitespace}
use slug.Lexer.Literals.{is_letter}
use slug.Lexer.Strings.{escape_of}
use slug.Lexer.General.{scan, scan_operator, general_token, token_in, next_token}
use slug.Lexer.RoundTrip.{
  Spelling, plain, escape, Spells, spelling, opens_no_braces, next_token-spelling, read_char-ahead,
  read_char-mode,
}
use slug.Symbols.{
  is_symbol_ident, is_symbol_rest, escape_symbol, escape_symbol_label, inspect,
  token_is_symbol_name, parse_symbol_literal_from_colon,
}
use slug.Symbols.Words.{
  IsAscii, read_identifier_whole, is_word, next_token-word, not_plus, parse_word,
}

-- The parser at a symbol: the colon is its current token.
abbrev pub is_colon : TokenType → Bool
is_colon colon = true
is_colon _ = false

abbrev pub read_symbol : UnicodeTables → Text → Option Text
read_symbol u input =
    let (l, cur) = next_token u (new_lexer input) in
    if is_colon cur.kind then parse_symbol_literal_from_colon (next_token u l).1 else none

scan-colon :
    (u : UnicodeTables) (x : ℕ) (xs : Text) (l : Lexer)
    → l.current_mode ≡ general
    → l.ahead ≡ b':' ∷ x ∷ xs
    → (x == b'+') ≡ false
    → next_token u l ≡ (read_char l, token colon (b':' ∷ []) l.position)
unfolding next_token general_token scan scan_operator skip_whitespace
scan-colon u x xs l mode e plus? =
    ap (λ m. token_in u m l) mode ∙ (rw (general_token, e, plus?) refl)

-- A quoted label.
escape_symbol-Spelling : (c : ℕ) → (c == 0) ≡ false → Spelling c (escape_symbol c)
unfolding escape_symbol escape_of
escape_symbol-Spelling c zero? = elim (Bool-cases (c == b'\\')) [
  | inl y ↦ rw y (escape b'\\' refl (sym ((==_iff c b'\\').0 y)))
  | inr slash? ↦ elim (Bool-cases (c == b'"')) [
    | inl y ↦ rw (slash?, y) (escape b'"' refl (sym ((==_iff c b'"').0 y)))
    | inr quote? ↦ elim (Bool-cases (c == b'\n')) [
      | inl y ↦ rw (slash?, quote?, y) (escape b'n' refl (sym ((==_iff c b'\n').0 y)))
      | inr n ↦ elim (Bool-cases (c == b'\r')) [
        | inl y ↦ rw (slash?, quote?, n, y) (escape b'r' refl (sym ((==_iff c b'\r').0 y)))
        | inr m ↦ elim (Bool-cases (c == b'\t')) [
          | inl y ↦ rw (slash?, quote?, n, m, y) (escape b't' refl (sym ((==_iff c b'\t').0 y)))
          | inr o ↦ rw (slash?, quote?, n, m, o) (plain zero? quote? slash?)
        ]
      ]
    ]
  ]
]

abbrev pub has_no_zero : Text → Bool
has_no_zero [] = true
has_no_zero (c ∷ cs) = not (c == 0) && has_no_zero cs

escape_symbol-Spells : (name : Text) → has_no_zero name ≡ true → Spells escape_symbol name
escape_symbol-Spells [] h = tt
escape_symbol-Spells (c ∷ cs) h =
    (escape_symbol-Spelling c (ground (arith, h)), escape_symbol-Spells cs (ground (arith, h)))

escape_symbol_label-spelling :
    (name : Text) → escape_symbol_label name ≡ spelling escape_symbol name
unfolding escape_symbol_label
escape_symbol_label-spelling [] = refl
escape_symbol_label-spelling (c ∷ cs) =
    ap (λ t. escape_symbol c ++ t) (escape_symbol_label-spelling cs)

parse_string :
    (text : Text) (t : Token) (start : ℕ)
    → t ≡ token string_token text start
    → parse_symbol_literal_from_colon t ≡ some text
unfolding parse_symbol_literal_from_colon token_is_symbol_name
parse_string text t start e = rw e refl

read_symbol-quoted :
    (u : UnicodeTables) (name : Text)
    → has_no_zero name ≡ true
    → opens_no_braces name ≡ true
    → read_symbol u (b':' ∷ b'"' ∷ (spelling escape_symbol name ++ (b'"' ∷ []))) ≡ some name
unfolding new_lexer
read_symbol-quoted u name zeros braces =
    let text = spelling escape_symbol name ++ (b'"' ∷ []) in
    let l = new_lexer (b':' ∷ b'"' ∷ text) in
    let done =
      next_token-spelling escape_symbol u name [] (read_char l) (read_char-mode l)
        (read_char-ahead b':' (b'"' ∷ text) l refl) (escape_symbol-Spells name zeros) braces refl in
    rw (scan-colon u b'"' text l refl refl refl) (parse_string name _ _ done.0)

is_symbol_rest_of :
    (u : UnicodeTables) (c : ℕ) (cs : Text)
    → is_symbol_ident u (c ∷ cs) ≡ true
    → is_symbol_rest u (c ∷ cs) ≡ true
unfolding is_symbol_ident is_symbol_rest
is_symbol_rest_of u c cs h = ground (arith, h)

read_symbol-ident :
    (u : UnicodeTables) (name : Text)
    → IsAscii u
    → is_symbol_ident u name ≡ true
    → is_word u name ≡ true
    → text_eq (codes "select") name ≡ false
    → read_symbol u (b':' ∷ name) ≡ some name
unfolding new_lexer is_symbol_ident
read_symbol-ident u [] a h is_one other = absurd (true≢false (sym h))
read_symbol-ident u (c ∷ cs) a h is_one other =
    let l = new_lexer (b':' ∷ c ∷ cs) in
    let next = read_char l in
    let inside = read_char-ahead b':' (c ∷ cs) l refl in
    let letter : is_letter u c ≡ true = ground (arith, h) in
    let whole = read_identifier_whole u (c ∷ cs) next a inside (is_symbol_rest_of u c cs h) in
    let t = next_token-word u c cs next a (read_char-mode l) inside letter is_one in
    rw (scan-colon u c cs l refl refl (not_plus u c a letter)) (
      parse_word (c ∷ cs) (next_token u next).1 next.position
        (t ∙ ap (λ n. token (lookup_ident n) n next.position) whole) other)

-- The names that are read back: identifiers that the lexer takes for a word other than `select`, and
-- quoted labels with no 0 and no `{{`.
abbrev pub is_readable : UnicodeTables → Text → Bool
is_readable u name =
    if is_symbol_ident u name
    then is_word u name && not (text_eq (codes "select") name)
    else has_no_zero name && opens_no_braces name

-- What Symbol.Inspect prints for a name is read back as that name by the lexer and the parser,
-- for tables that agree with ASCII, where the name is an identifier that the lexer takes for one
-- word other than select, or a label with no code point 0 and no two opening braces in a row.
pub read_symbol-inspect :
    (u : UnicodeTables) (name : Text)
    → IsAscii u
    → is_readable u name ≡ true
    → read_symbol u (inspect u name) ≡ some name
unfolding inspect
read_symbol-inspect u name a h = elim (Bool-cases (is_symbol_ident u name)) [
  | inl y ↦
      rw (inspect, y) (read_symbol-ident u name a y (ground (arith, h, y)) (ground (arith, h, y)))
  | inr n ↦
      rw (inspect, n, escape_symbol_label-spelling name)
        (read_symbol-quoted u name (ground (arith, h, n)) (ground (arith, h, n)))
]
