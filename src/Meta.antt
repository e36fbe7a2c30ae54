-- ===== src/Meta.antt =====
-- internal/foreign/slug_meta.go: how the default value of a parameter is described.
use slug.Prelude.{
  ℕ, ◌≡◌, refl, sym, ap, Bool, true, false, not, ◌&&◌, ◌||◌, ◌==◌, ==_iff, if◌then◌else◌, [], ◌∷◌,
  ◌++◌, Bool-cases, inl, inr, arith,
}
use slug.Prelude.Text.{Text, codes}
use slug.Token.{string_token, token}
use slug.Lexer.{UnicodeTables, new_lexer, read_char}
use slug.Lexer.Strings.{escape_of}
use slug.Lexer.General.{next_token}
use slug.Lexer.RoundTrip.{
  Spelling, plain, escape, Spells, spelling, opens_no_braces, next_token-spelling,
}

-- The cases of escapeStringLiteral, and its loop.
unfoldable pub escape_string : ℕ → Text
escape_string c =
    if c == b'\\'
    then codes "\\\\"
    else (if c == b'"'
        then codes "\\\""
        else (if c == b'\n'
            then codes "\\n"
            else (if c == b'\r'
                then codes "\\r"
                else (if c == b'\t'
                    then codes "\\t"
                    else (if c == 8
                        then codes "\\b"
                        else (if c == 12 then codes "\\f" else c ∷ []))))))

unfoldable pub escape_string_literal : Text → Text
escape_string_literal [] = []
escape_string_literal (c ∷ cs) = escape_string c ++ escape_string_literal cs

-- What the default's expression is: none, a string, or another one, with its own print.
pub data DefaultValue : Type 0 where
  no_default : DefaultValue
  string_literal : Text → DefaultValue
  other_expression : Text → DefaultValue

unfoldable pub describe_default_value : DefaultValue → Text
describe_default_value no_default = []
describe_default_value (string_literal value) = b'"' ∷ (escape_string_literal value ++ (b'"' ∷ []))
describe_default_value (other_expression printed) = printed

escape_string-Spelling :
    (c : ℕ) → not (c == 0 || c == 8 || c == 12) ≡ true → Spelling c (escape_string c)
unfolding escape_string escape_of
escape_string-Spelling c h = elim (Bool-cases (c == b'\\')) [
  | inl y ↦ rw y (escape b'\\' refl (sym ((==_iff c b'\\').0 y)))
  | inr slash? ↦ elim (Bool-cases (c == b'"')) [
    | inl y ↦ rw (slash?, y) (escape b'"' refl (sym ((==_iff c b'"').0 y)))
    | inr quote? ↦ elim (Bool-cases (c == b'\n')) [
      | inl y ↦ rw (slash?, quote?, y) (escape b'n' refl (sym ((==_iff c b'\n').0 y)))
      | inr n ↦ elim (Bool-cases (c == b'\r')) [
        | inl y ↦ rw (slash?, quote?, n, y) (escape b'r' refl (sym ((==_iff c b'\r').0 y)))
        | inr m ↦ elim (Bool-cases (c == b'\t')) [
          | inl y ↦ rw (slash?, quote?, n, m, y) (escape b't' refl (sym ((==_iff c b'\t').0 y)))
          | inr o ↦
              let back : (c == 8) ≡ false = ground (arith, h) in
              let feed : (c == 12) ≡ false = ground (arith, h) in
              rw (slash?, quote?, n, m, o, back, feed) (plain (ground (arith, h)) quote? slash?)
        ]
      ]
    ]
  ]
]

-- No code point 0, backspace or form feed.
abbrev pub is_plain : Text → Bool
is_plain [] = true
is_plain (c ∷ cs) = not (c == 0 || c == 8 || c == 12) && is_plain cs

escape_string-Spells : (value : Text) → is_plain value ≡ true → Spells escape_string value
escape_string-Spells [] h = tt
escape_string-Spells (c ∷ cs) h =
    (escape_string-Spelling c (ground (arith, h)), escape_string-Spells cs (ground (arith, h)))

escape_string_literal-spelling :
    (value : Text) → escape_string_literal value ≡ spelling escape_string value
unfolding escape_string_literal
escape_string_literal-spelling [] = refl
escape_string_literal-spelling (c ∷ cs) =
    ap (λ t. escape_string c ++ t) (escape_string_literal-spelling cs)

-- The description of a default that is a string is read by the lexer as a string token with the
-- same value, where the value has no code point 0, no backspace, no form feed and no two opening
-- braces in a row.
pub next_token-describe_default_value :
    (u : UnicodeTables) (value : Text)
    → is_plain value ≡ true
    → opens_no_braces value ≡ true
    → (next_token u (new_lexer (describe_default_value (string_literal value)))).1
      ≡ token string_token value 1
unfolding describe_default_value new_lexer read_char
next_token-describe_default_value u value plain? braces =
    let l = new_lexer (describe_default_value (string_literal value)) in
    let e : l.ahead ≡ b'"' ∷ (spelling escape_string value ++ (b'"' ∷ [])) =
      ap (λ t. b'"' ∷ (t ++ (b'"' ∷ []))) (escape_string_literal-spelling value) in
    (next_token-spelling escape_string u value [] l refl e (escape_string-Spells value plain?)
      braces refl).0
