-- ===== src/Symbols/Words.antt =====
-- Words in internal/lexer and the names that internal/parser/parser.go takes for a symbol.
use slug.Prelude.{
  ℕ, zero, suc, ◌<◌, ◌≡◌, refl, sym, ap, ◌∙◌, Bool, true, false, ◌&&◌, ◌||◌, leb, ◌==◌, ==_iff,
  if◌then◌else◌, some, List, [], ◌∷◌, ◌++◌, length, Bool-cases, inl, inr, arith, append-nil,
  append_assoc, All,
}
use Prim.Native.String.{String}
use mathlib.Core.Bool.{true≢false}
use slug.Prelude.Text.{Text, codes, text_eq, text_eq_iff}
use slug.Token.{Token, TokenType, token, keywords, lookup_in, lookup_ident}
use slug.Lexer.{UnicodeTables, Lexer, general, read_char, first, tail, rounds}
use slug.Lexer.Skip.{skip_whitespace, is_blank}
use slug.Lexer.Literals.{is_letter, is_digit, read_while, read_identifier}
use slug.Lexer.General.{
  is_operator, is_delimiter, scan, scan_word, scan_underscore, word, general_token, token_in,
  next_token,
}
use slug.Lexer.RoundTrip.{read_char-ahead}
use slug.Symbols.{is_symbol_rest, token_is_symbol_name, parse_symbol_literal_from_colon}

-- What the package unicode says of ASCII.
pub record IsAscii (u : UnicodeTables) : Type 0 where
  pub letters :
      (c : ℕ) → c < 128 → u.letter c ≡ (leb b'a' c && leb c b'z' || leb b'A' c && leb c b'Z')
  pub marks : (c : ℕ) → c < 128 → u.mark c ≡ false
  pub digits : (c : ℕ) → c < 128 → u.decimal_digit c ≡ (leb b'0' c && leb c b'9')

-- A label that is an identifier.
abbrev keyword_names : List (String × TokenType) → Bool
keyword_names [] = true
keyword_names ((key, kind) ∷ words) =
    (text_eq (codes key) (codes "select") || token_is_symbol_name kind) && keyword_names words

lookup_in-names :
    (words : List (String × TokenType)) (name : Text)
    → keyword_names words ≡ true
    → text_eq (codes "select") name ≡ false
    → token_is_symbol_name (lookup_in words name) ≡ true
unfolding lookup_in token_is_symbol_name
lookup_in-names [] name names other = refl
lookup_in-names ((key, kind) ∷ words) name names other =
    elim (Bool-cases (text_eq (codes key) name)) [
      | inr n ↦ rw n (lookup_in-names words name (ground (arith, names)) other)
      | inl y ↦ elim (Bool-cases (text_eq (codes key) (codes "select"))) [
        | inr m ↦ rw y (ground (arith, names, m))
        | inl z ↦
            let same =
              sym ((text_eq_iff (codes key) (codes "select")).0 z)
              ∙ (text_eq_iff (codes key) name).0 y in
            absurd (true≢false (sym ((text_eq_iff (codes "select") name).1 same) ∙ other))
      ]
    ]

lookup_ident-names :
    (name : Text)
    → text_eq (codes "select") name ≡ false
    → token_is_symbol_name (lookup_ident name) ≡ true
unfolding lookup_ident token_is_symbol_name text_eq
lookup_ident-names name other = lookup_in-names keywords name refl other

read_while_whole :
    (test : ℕ → Bool) (cs : Text) (f : ℕ) (l : Lexer) (text : Text)
    → l.ahead ≡ cs
    → All (λ c. test c ≡ true) cs
    → test 0 ≡ false
    → length cs < f
    → (read_while test f l text).1 ≡ text ++ cs
unfolding read_while
read_while_whole test cs zero l text e all end enough = absurd (omega (arith, enough))
read_while_whole test [] (suc f) l text e all end enough = rw (e, end, append-nil text) refl
read_while_whole test (c ∷ cs) (suc f) l text e (holds, all) end enough =
    let rest =
      read_while_whole test cs f (read_char l) (text ++ (c ∷ [])) (read_char-ahead c cs l e) all end
        (omega (arith, enough)) in
    rw (ap first e, holds) (rest ∙ append_assoc text (c ∷ []) cs)

rest-All :
    (u : UnicodeTables) (name : Text)
    → is_symbol_rest u name ≡ true
    → All (λ c. (is_letter u c || is_digit u c) ≡ true) name
unfolding is_symbol_rest
rest-All u [] h = tt
rest-All u (c ∷ cs) h = (ground (arith, h), rest-All u cs (ground (arith, h)))

end_of : (u : UnicodeTables) → IsAscii u → (is_letter u 0 || is_digit u 0) ≡ false
unfolding is_letter
end_of u a = rw (a.letters 0 (omega arith), a.marks 0 (omega arith), a.digits 0 (omega arith)) refl

pub read_identifier_whole :
    (u : UnicodeTables) (name : Text) (l : Lexer)
    → IsAscii u
    → l.ahead ≡ name
    → is_symbol_rest u name ≡ true
    → (read_identifier u l).1 ≡ name
unfolding read_identifier
read_identifier_whole u name l a e all =
    read_while_whole (λ c. is_letter u c || is_digit u c) name (rounds l) l [] e
      (rest-All u name all) (end_of u a) (omega (arith, ap (λ (t : Text). length t) e))

-- A letter is none of the code points that other cases of the switch are for.
abbrev starts : ℕ → Bool
starts c = leb 128 c || leb b'a' c && leb c b'z' || leb b'A' c && leb c b'Z'

is_letter-starts :
    (u : UnicodeTables) (c : ℕ)
    → IsAscii u
    → is_letter u c ≡ true
    → (c == b'_') ≡ false
    → starts c ≡ true
unfolding is_letter
is_letter-starts u c a letter underscore? = elim (Bool-cases (leb 128 c)) [
  | inl y ↦ rw y refl
  | inr n ↦
      let small : c < 128 = ground (arith, n) in
      ground (arith, letter, underscore?, a.letters c small, a.marks c small)
]

scan-starts :
    (u : UnicodeTables) (c : ℕ) (xs : Text) (l : Lexer)
    → starts c ≡ true
    → l.ahead ≡ c ∷ xs
    → scan u l ≡ scan_word u l
unfolding scan
scan-starts u c xs l h e =
    let t₁ : (c == b'\n') ≡ false = ground (arith, h) in
    let t₂ : is_operator c ≡ false = ground (arith, h) in
    let t₃ : (c == b'/') ≡ false = ground (arith, h) in
    let t₄ : (c == b'|') ≡ false = ground (arith, h) in
    let t₅ : (c == b'_') ≡ false = ground (arith, h) in
    let t₆ : (c == b'.') ≡ false = ground (arith, h) in
    let t₇ : (c == b'?') ≡ false = ground (arith, h) in
    let t₈ : (c == b'{') ≡ false = ground (arith, h) in
    let t₉ : (c == b'}') ≡ false = ground (arith, h) in
    let t₁₀ : is_delimiter c ≡ false = ground (arith, h) in
    let t₁₁ : (c == b'"') ≡ false = ground (arith, h) in
    let t₁₂ : (c == b'\'') ≡ false = ground (arith, h) in
    let t₁₃ : (c == 0) ≡ false = ground (arith, h) in
    rw (ap first e, t₁, t₂, t₃, t₄, t₅, t₆, t₇, t₈, t₉, t₁₀, t₁₁, t₁₂, t₁₃) refl

skip_whitespace-starts :
    (c : ℕ) (xs : Text) (f : ℕ) (l : Lexer)
    → starts c ≡ true
    → l.ahead ≡ c ∷ xs
    → skip_whitespace (suc f) l ≡ l
unfolding skip_whitespace
skip_whitespace-starts c xs f l h e =
    let blank? : is_blank c ≡ false = ground (arith, h) in
    let comment? : (c == b'#' || c == b'/' && first xs == b'/') ≡ false = ground (arith, h) in
    rw (e, blank?, comment?) refl

skip_whitespace-underscore :
    (xs : Text) (f : ℕ) (l : Lexer) → l.ahead ≡ b'_' ∷ xs → skip_whitespace (suc f) l ≡ l
unfolding skip_whitespace
skip_whitespace-underscore xs f l e = rw e refl

scan-underscore :
    (u : UnicodeTables) (xs : Text) (l : Lexer)
    → l.ahead ≡ b'_' ∷ xs
    → is_letter u (first xs) ≡ true
    → scan u l ≡ word l (read_identifier u l)
unfolding scan scan_underscore
scan-underscore u xs l e letter = rw (ap first e, ap (λ t. first (tail t)) e, letter) refl

abbrev word_token : UnicodeTables → Lexer → Token
word_token u l = token (lookup_ident (read_identifier u l).1) (read_identifier u l).1 l.position

next_token-letter :
    (u : UnicodeTables) (c : ℕ) (xs : Text) (l : Lexer)
    → l.current_mode ≡ general
    → l.ahead ≡ c ∷ xs
    → starts c ≡ true
    → is_letter u c ≡ true
    → (next_token u l).1 ≡ word_token u l
unfolding next_token general_token scan_word
next_token-letter u c xs l mode e h letter =
    ap (λ m. (token_in u m l).1) mode
    ∙ (rw
        (
          general_token,
          skip_whitespace-starts c xs (length l.ahead) l h e,
          scan-starts u c xs l h e,
          ap first e,
          letter,
        )
        refl)

next_token-underscore :
    (u : UnicodeTables) (xs : Text) (l : Lexer)
    → l.current_mode ≡ general
    → l.ahead ≡ b'_' ∷ xs
    → is_letter u (first xs) ≡ true
    → (next_token u l).1 ≡ word_token u l
unfolding next_token general_token
next_token-underscore u xs l mode e letter =
    ap (λ m. (token_in u m l).1) mode
    ∙ (rw
        (
          general_token,
          skip_whitespace-underscore xs (length l.ahead) l e,
          scan-underscore u xs l e letter,
        )
        refl)

-- Where the lexer takes the label for one word.
abbrev pub is_word : UnicodeTables → Text → Bool
is_word u [] = false
is_word u (c ∷ cs) = if c == b'_' then is_letter u (first cs) else true

pub next_token-word :
    (u : UnicodeTables) (c : ℕ) (cs : Text) (l : Lexer)
    → IsAscii u
    → l.current_mode ≡ general
    → l.ahead ≡ c ∷ cs
    → is_letter u c ≡ true
    → is_word u (c ∷ cs) ≡ true
    → (next_token u l).1 ≡ word_token u l
next_token-word u c cs l a mode e letter is_one = elim (Bool-cases (c == b'_')) [
  | inr n ↦ next_token-letter u c cs l mode e (is_letter-starts u c a letter n) letter
  | inl y ↦
      next_token-underscore u cs l mode (e ∙ ap (λ d. d ∷ cs) ((==_iff c b'_').0 y))
        (ground (arith, is_one, y))
]

pub not_plus : (u : UnicodeTables) (c : ℕ) → IsAscii u → is_letter u c ≡ true → (c == b'+') ≡ false
not_plus u c a letter = elim (Bool-cases (c == b'_')) [
  | inl y ↦ ground (arith, y)
  | inr n ↦ ground (arith, is_letter-starts u c a letter n)
]

pub parse_word :
    (name : Text) (t : Token) (start : ℕ)
    → t ≡ token (lookup_ident name) name start
    → text_eq (codes "select") name ≡ false
    → parse_symbol_literal_from_colon t ≡ some name
unfolding parse_symbol_literal_from_colon
parse_word name t start e other = rw (e, lookup_ident-names name other) refl
