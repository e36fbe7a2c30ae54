-- ===== src/Tests/Symbols.antt =====
-- Symbols, and the texts that are printed for them and for a parameter's default.
use slug.Prelude.{◌≡◌, ◌↔◌, refl, true, some, [], ◌∷◌, arith}
use slug.Prelude.Text.{Text, codes}
use slug.Token.{string_token, token}
use slug.Lexer.{new_lexer}
use slug.Lexer.General.{next_token}
use slug.Lexer.Literals.{is_letter}
use slug.Symbols.{
  SymbolTable, empty_table, find_symbol, intern_symbol, inspect, is_symbol_ident, is_symbol_rest,
  escape_symbol, escape_symbol_label,
}
use slug.Symbols.Interning.{
  IsNumbered, empty_table-IsNumbered, intern_symbol-IsNumbered, intern_all, intern_symbol-again,
  intern_symbol-id,
}
use slug.Symbols.Words.{IsAscii}
use slug.Symbols.Parsing.{is_readable, read_symbol, read_symbol-inspect}
use slug.Meta.{describe_default_value, string_literal, next_token-describe_default_value}
use slug.Tests.Lexing.{ascii}

ascii-IsAscii : IsAscii ascii
ascii-IsAscii = record { letters = λ c h. refl; marks = λ c h. refl; digits = λ c h. refl }

unfoldable printed : Text → Text
unfolding inspect is_symbol_ident is_symbol_rest is_letter escape_symbol escape_symbol_label
printed name = inspect ascii name

quoted_label : printed (codes "a \"b\"") ≡ codes ":\"a \\\"b\\\"\""
unfolding printed
quoted_label = refl

bare_label : printed (codes "_1") ≡ codes ":_1"
unfolding printed
bare_label = refl

abbrev label : Text
label = codes "two words\n"

label-readable : is_readable ascii label ≡ true
unfolding is_symbol_ident is_symbol_rest is_letter
label-readable = refl

read_symbol-inspect_example : read_symbol ascii (inspect ascii label) ≡ some label
read_symbol-inspect_example = read_symbol-inspect ascii label ascii-IsAscii label-readable

abbrev table : SymbolTable
table = (intern_symbol (codes "ok") empty_table).0

table-IsNumbered : IsNumbered table
unfolding intern_symbol find_symbol
table-IsNumbered =
    intern_symbol-IsNumbered (codes "ok") empty_table empty_table-IsNumbered (omega arith)

intern_symbol-IsNumbered_example : IsNumbered (intern_symbol (codes "ok") empty_table).0
intern_symbol-IsNumbered_example =
    intern_symbol-IsNumbered (codes "ok") empty_table empty_table-IsNumbered (omega arith)

intern_symbol-again_example :
    intern_symbol
      (codes "a")
      (intern_all (codes "b" ∷ codes "a" ∷ []) (intern_symbol (codes "a") table).0)
    ≡ (
      intern_all (codes "b" ∷ codes "a" ∷ []) (intern_symbol (codes "a") table).0,
      (intern_symbol (codes "a") table).1,
    )
intern_symbol-again_example = intern_symbol-again (codes "a") (codes "b" ∷ codes "a" ∷ []) table

intern_symbol-id_example :
    ((intern_symbol (codes "a") empty_table).1.id
      ≡ (intern_symbol (codes "b") (intern_symbol (codes "a") empty_table).0).1.id)
    ↔ (codes "a" ≡ codes "b")
intern_symbol-id_example =
    intern_symbol-id (codes "a") (codes "b") empty_table empty_table-IsNumbered (omega arith)

next_token-describe_default_value_example :
    (next_token ascii (new_lexer (describe_default_value (string_literal (codes "a\t\"b"))))).1
    ≡ token string_token (codes "a\t\"b") 1
next_token-describe_default_value_example =
    next_token-describe_default_value ascii (codes "a\t\"b") refl refl
