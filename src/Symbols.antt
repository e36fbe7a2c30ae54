-- ===== src/Symbols.antt =====
-- internal/object/symbol.go: symbols, the table that interns them and how they are printed; and the
-- parser's function for a symbol, in internal/parser/parser.go. The table is a state that is passed on
-- (the source holds a lock over all of `InternSymbol`).
pub mod Interning
pub mod Words
pub mod Parsing
use slug.Prelude.{
  ℕ, zero, suc, ◌+◌, ◌%◌, ◌^◌, Bool, true, false, not, ◌&&◌, ◌||◌, ◌==◌, if◌then◌else◌, Option,
  none, some, List, [], ◌∷◌, ◌++◌,
}
use slug.Prelude.Text.{Text, codes, text_eq}
use slug.Token.{
  TokenType, Token, ident, nil_token, true_token, false_token, foreign_token, function, val_token,
  var_token, if_token, else_token, match_token, return_token, recur, throw, defer, struct, copy,
  nursery, spawn, string_token, colon,
}
use slug.Lexer.{UnicodeTables}
use slug.Lexer.Literals.{is_letter, is_digit}

pub record Symbol : Type 0 where
  pub name : Text
  pub id : ℕ

pub record SymbolTable : Type 0 where
  pub symbols : List Symbol
  pub next_symbol : ℕ

abbrev pub empty_table : SymbolTable
empty_table = record { symbols = []; next_symbol = 0 }

unfoldable pub find_symbol : Text → List Symbol → Option Symbol
find_symbol name [] = none
find_symbol name (s ∷ symbols) = if text_eq s.name name then some s else find_symbol name symbols

abbrev pub added : Text → SymbolTable → SymbolTable × Symbol
added name table =
    let next = (table.next_symbol + 1) % 2 ^ 64 in
    let s : Symbol = record { name = name; id = next } in
    (record { symbols = s ∷ table.symbols; next_symbol = next }, s)

unfoldable pub intern_symbol : Text → SymbolTable → SymbolTable × Symbol
intern_symbol name table = elim (find_symbol name table.symbols) [
  | some s ↦ (table, s)
  | none ↦ added name table
]

unfoldable pub is_symbol_rest : UnicodeTables → Text → Bool
is_symbol_rest u [] = true
is_symbol_rest u (c ∷ cs) = (is_letter u c || is_digit u c) && is_symbol_rest u cs

unfoldable pub is_symbol_ident : UnicodeTables → Text → Bool
is_symbol_ident u [] = false
is_symbol_ident u (c ∷ cs) = is_letter u c && is_symbol_rest u cs

-- The cases of escapeSymbolLabel, and its loop.
unfoldable pub escape_symbol : ℕ → Text
escape_symbol c =
    if c == b'\\'
    then codes "\\\\"
    else (if c == b'"'
        then codes "\\\""
        else (if c == b'\n'
            then codes "\\n"
            else (if c == b'\r'
                then codes "\\r"
                else (if c == b'\t' then codes "\\t" else c ∷ []))))

unfoldable pub escape_symbol_label : Text → Text
escape_symbol_label [] = []
escape_symbol_label (c ∷ cs) = escape_symbol c ++ escape_symbol_label cs

unfoldable pub inspect : UnicodeTables → Text → Text
inspect u name =
    if is_symbol_ident u name
    then b':' ∷ name
    else b':' ∷ b'"' ∷ (escape_symbol_label name ++ (b'"' ∷ []))

-- tokenIsSymbolName
unfoldable pub token_is_symbol_name : TokenType → Bool
token_is_symbol_name ident = true
token_is_symbol_name nil_token = true
token_is_symbol_name true_token = true
token_is_symbol_name false_token = true
token_is_symbol_name foreign_token = true
token_is_symbol_name function = true
token_is_symbol_name val_token = true
token_is_symbol_name var_token = true
token_is_symbol_name if_token = true
token_is_symbol_name else_token = true
token_is_symbol_name match_token = true
token_is_symbol_name return_token = true
token_is_symbol_name recur = true
token_is_symbol_name throw = true
token_is_symbol_name defer = true
token_is_symbol_name struct = true
token_is_symbol_name copy = true
token_is_symbol_name nursery = true
token_is_symbol_name spawn = true
token_is_symbol_name _ = false

abbrev pub is_string_kind : TokenType → Bool
is_string_kind string_token = true
is_string_kind _ = false

-- parseSymbolLiteralFromColon, given the token behind the colon.
unfoldable pub parse_symbol_literal_from_colon : Token → Option Text
parse_symbol_literal_from_colon peek =
    if not (token_is_symbol_name peek.kind) && not (is_string_kind peek.kind)
    then none
    else some peek.literal
