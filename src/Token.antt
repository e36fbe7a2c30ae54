-- ===== src/Token.antt =====
-- internal/token/token.go: kinds of tokens, tokens and keywords. A literal is the list of its code points.
use Prim.Native.String.{String}
use slug.Prelude.{ℕ, List, [], ◌∷◌, if◌then◌else◌}
use slug.Prelude.Text.{Text, codes, text_eq}

pub data TokenType : Type 0 where
  illegal eof newline doc_comment : TokenType
  ident symbol number string_token bytes : TokenType
  assign plus minus bang asterisk slash percent underscore at_sign : TokenType
  append_item prepend_item interpolation_start interpolation_end : TokenType
  match_keys_exact match_keys_close lt lt_eq gt gt_eq : TokenType
  complement bitwise_and bitwise_or bitwise_xor shift_left shift_right : TokenType
  logical_and logical_or eq not_eq rocket ellipsis not_implemented call_chain : TokenType
  period comma semicolon colon lparen rparen lbrace rbrace lbracket rbracket : TokenType
  foreign_token function val_token var_token true_token false_token nil_token : TokenType
  if_token else_token match_token return_token recur throw defer : TokenType
  struct copy nursery spawn select : TokenType
  -- No kind of the code: what a loop that has no round left returns here.
  out_of_rounds : TokenType

pub record Token : Type 0 where
  pub kind : TokenType
  pub literal : Text
  pub position : ℕ

abbrev pub token : TokenType → Text → ℕ → Token
token kind literal position = record { kind = kind; literal = literal; position = position }

abbrev pub keywords : List (String × TokenType)
keywords =
    ("nil", nil_token)
    ∷ ("true", true_token)
    ∷ ("false", false_token)
    ∷ ("fn", function)
    ∷ ("foreign", foreign_token)
    ∷ ("val", val_token)
    ∷ ("var", var_token)
    ∷ ("struct", struct)
    ∷ ("copy", copy)
    ∷ ("if", if_token)
    ∷ ("else", else_token)
    ∷ ("match", match_token)
    ∷ ("return", return_token)
    ∷ ("recur", recur)
    ∷ ("throw", throw)
    ∷ ("defer", defer)
    ∷ ("nursery", nursery)
    ∷ ("spawn", spawn)
    ∷ ("select", select)
    ∷ []

unfoldable pub lookup_in : List (String × TokenType) → Text → TokenType
unfolding text_eq
lookup_in [] word = ident
lookup_in ((key, kind) ∷ words) word =
    if text_eq (codes key) word then kind else lookup_in words word

unfoldable pub lookup_ident : Text → TokenType
unfolding lookup_in
lookup_ident word = lookup_in keywords word
