-- ===== src/Lexer.antt =====
-- internal/lexer/lexer.go: the state of the lexer and its moves. The input is valid UTF-8, and is held
-- as its code points: those behind the current one, the last first, and the current one with those
-- ahead. Positions count bytes. The code point 0 stands for the end of the input too, as in the code.
pub mod Skip
pub mod Literals
pub mod Strings
pub mod General
pub mod Cursor
pub mod Reading
pub mod Bounds
pub mod Progress
pub mod RoundTrip
pub mod Stopping
pub mod Spelling
use slug.Prelude.{
  ℕ, zero, suc, ◌+◌, ◌-◌, ◌%◌, Bool, true, false, not, ◌&&◌, ◌||◌, ltb, ◌==◌, if◌then◌else◌, Option,
  none, some, List, [], ◌∷◌, length,
}
use slug.Prelude.Text.{Text, utf8_len}
use slug.Token.{Token, TokenType, token}

-- What the lexer asks of the packages unicode and strings: letters, the marks Mn and Mc, decimal
-- digits and white space.
pub record UnicodeTables : Type 0 where
  pub letter : ℕ → Bool
  pub mark : ℕ → Bool
  pub decimal_digit : ℕ → Bool
  pub white_space : ℕ → Bool

-- The tokenizers; the flag says whether a string is raw.
pub data Tokenizer : Type 0 where
  general : Tokenizer
  single_line multi_line : Bool → Tokenizer

pub record Lexer : Type 0 where
  pub behind : Text
  pub ahead : Text
  pub position : ℕ
  pub prev_mode : Option Tokenizer
  pub current_mode : Tokenizer
  pub paren_depth : ℕ
  pub bracket_depth : ℕ
  pub brace_depth : ℕ
  pub delimiter_brace_baselines : List ℕ
  pub interpolation_stack : List Tokenizer

-- The last of a code point's bytes, for `l.input[l.position-1]`.
abbrev pub last_byte : ℕ → ℕ
last_byte c = if ltb c 0x80 then c else 0x80 + c % 0x40

abbrev pub first : Text → ℕ
first [] = 0
first (c ∷ cs) = c

abbrev pub tail : Text → Text
tail [] = []
tail (c ∷ cs) = cs

abbrev pub ch : Lexer → ℕ
ch l = first l.ahead

abbrev pub peek_char : Lexer → ℕ
peek_char l = first (tail l.ahead)

abbrev pub peek_two_chars : Lexer → ℕ
peek_two_chars l = first (tail (tail l.ahead))

unfoldable pub advance : Text → Lexer → Lexer
advance [] l = l
advance (c ∷ cs) l = record l {
  behind = c ∷ l.behind;
  ahead = cs;
  position = l.position + utf8_len c;
}

unfoldable pub read_char : Lexer → Lexer
unfolding advance
read_char l = advance l.ahead l

-- `New`, with both calls in it.
unfoldable pub new_lexer : Text → Lexer
new_lexer input = record {
  behind = [];
  ahead = input;
  position = 0;
  prev_mode = none;
  current_mode = general;
  paren_depth = 0;
  bracket_depth = 0;
  brace_depth = 0;
  delimiter_brace_baselines = [];
  interpolation_stack = [];
}

abbrev pub switch_mode : Lexer → Tokenizer → Lexer
switch_mode l mode = record l { prev_mode = some l.current_mode; current_mode = mode }

abbrev pub set_mode : Lexer → Tokenizer → Lexer
set_mode l mode = record l { prev_mode = none; current_mode = mode }

abbrev pub push_interpolation_return_mode : Lexer → Option Tokenizer → Lexer
push_interpolation_return_mode l none = l
push_interpolation_return_mode l (some mode) = record l {
  interpolation_stack = mode ∷ l.interpolation_stack;
}

abbrev pub popped_modes : List Tokenizer → List Tokenizer × Option Tokenizer
popped_modes [] = ([], none)
popped_modes (mode ∷ modes) = (modes, some mode)

abbrev pub pop_interpolation_return_mode : Lexer → Lexer × Option Tokenizer
pop_interpolation_return_mode l =
    let (modes, mode) = popped_modes l.interpolation_stack in
    (record l { interpolation_stack = modes }, mode)

abbrev pub has_any {ℓ} : {A : Type ℓ} → List A → Bool
has_any [] = false
has_any (x ∷ xs) = true

abbrev pub has_interpolation_return_mode : Lexer → Bool
has_interpolation_return_mode l = has_any l.interpolation_stack

abbrev pub is_string_mode : Option Tokenizer → Bool
is_string_mode none = false
is_string_mode (some general) = false
is_string_mode (some (single_line raw)) = true
is_string_mode (some (multi_line raw)) = true

abbrev pub can_start_interpolation : Lexer → Bool
can_start_interpolation l = is_string_mode l.prev_mode

abbrev pub push_delimiter_baseline : Lexer → Lexer
push_delimiter_baseline l = record l {
  delimiter_brace_baselines = l.brace_depth ∷ l.delimiter_brace_baselines;
}

abbrev pub without_first {ℓ} : {A : Type ℓ} → List A → List A
without_first [] = []
without_first (x ∷ xs) = xs

abbrev pub pop_delimiter_baseline : Lexer → Lexer
pop_delimiter_baseline l = record l {
  delimiter_brace_baselines = without_first l.delimiter_brace_baselines;
}

-- The test of the newline case: in a delimiter, and no deeper in braces than at its start.
abbrev pub within_baseline : List ℕ → ℕ → Bool
within_baseline [] depth = false
within_baseline (baseline ∷ baselines) depth = not (ltb baseline depth)

-- A loop over the input takes a round for each code point ahead, and one to stop.
abbrev pub rounds : Lexer → ℕ
rounds l = suc (length l.ahead)

abbrev pub here : TokenType → Lexer → Token
here kind l = token kind (ch l ∷ []) l.position

-- handleCompoundToken and handleCompoundToken2
abbrev pub handle_compound_token : Lexer → TokenType → ℕ → TokenType → Lexer × Token
handle_compound_token l t ch₁ t₁ =
    if peek_char l == ch₁
    then (read_char l, token t₁ (ch l ∷ peek_char l ∷ []) l.position)
    else (l, here t l)

abbrev pub handle_compound_token2 :
    Lexer → TokenType → ℕ → TokenType → ℕ → TokenType → Lexer × Token
handle_compound_token2 l t ch₁ t₁ ch₂ t₂ =
    if peek_char l == ch₁
    then (read_char l, token t₁ (ch l ∷ peek_char l ∷ []) l.position)
    else (if peek_char l == ch₂
        then (read_char l, token t₂ (ch l ∷ peek_char l ∷ []) l.position)
        else (l, here t l))
