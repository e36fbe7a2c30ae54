-- ===== src/Lexer/Bounds/Cases.antt =====
-- The cases of internal/lexer/general_tokenizer.go.
use slug.Prelude.{
  ℕ, zero, suc, refl, Bool, ◌&&◌, ◌||◌, ◌==◌, Option, none, some, [], Bool-cases, inl, inr,
}
use slug.Prelude.Text.{Text}
use slug.Token.{Token, TokenType, illegal}
use slug.Lexer.{
  UnicodeTables, Lexer, Tokenizer, general, single_line, multi_line, ch, peek_char, peek_two_chars,
  read_char, rounds, within_baseline, has_interpolation_return_mode, can_start_interpolation,
  pop_interpolation_return_mode, push_interpolation_return_mode,
}
use slug.Lexer.Skip.{
  Scanned, scanned, malformed, read_chars, skip_block_comment, skip_whitespace, is_blank,
}
use slug.Lexer.Literals.{is_letter, is_digit, read_identifier}
use slug.Lexer.General.{
  Outcome, consume, emit, again, collapse, scan_newline, error_or, scan_slash, scan_bar, word,
  scan_underscore, tripled, scan_dots, scan_question, scan_lbrace, resumed, scan_rbrace,
  scan_delimiter, past_newline, scan_quote, bytes_or, scan_digit, scan_word,
}
use slug.Lexer.Cursor.{After, After-refl, After-trans, read_char-After, read-After, same-After}
use slug.Lexer.Reading.{
  skip_whitespace-After, read_chars-After, skip_block_comment-After, read_doc_comment-After,
  read_while-After, read_number-After, read_hex_literal-After, read_byte_array_literal-After,
}
use slug.Lexer.Bounds.{Fits, starting, moved-Fits, single_line_token-Fits, multi_line_token-Fits}

unfoldable pub FitsOutcome : Lexer → Outcome → Type 0
FitsOutcome l (consume out) = Fits l out
FitsOutcome l (emit out) = Fits l out
FitsOutcome l (again k) = After l k

pub consumed-Fits : (l : Lexer) (out : Lexer × Token) → Fits l out → FitsOutcome l (consume out)
unfolding FitsOutcome
consumed-Fits l out fits = fits

pub collapse-After : (f : ℕ) (l : Lexer) (count : ℕ) → After l (collapse f l count).0
unfolding collapse
collapse-After zero l count = After-refl l
collapse-After (suc f) l count =
    let next = read_char l in
    let k = skip_whitespace (rounds next) next in
    let a = read-After l k (skip_whitespace-After (rounds next) next) in
    elim (Bool-cases (ch l == b'\n')) [
      | inl y ↦ rw y (After-trans l k _ a (collapse-After f k (suc count)))
      | inr n ↦ elim (Bool-cases (is_blank (ch l))) [
        | inl y ↦ rw (n, y) (After-trans l k _ a (collapse-After f k count))
        | inr m ↦ rw (n, m) (After-refl l)
      ]
    ]

pub scan_newline-Fits : (l : Lexer) → FitsOutcome l (scan_newline l)
unfolding scan_newline FitsOutcome
scan_newline-Fits l =
    elim (Bool-cases (within_baseline l.delimiter_brace_baselines l.brace_depth)) [
      | inl y ↦ rw y (read_char-After l)
      | inr n ↦ rw n (starting l _ _ _ (collapse-After (rounds l) l 0))
    ]

pub error_or-Fits :
    (l : Lexer) (kind : TokenType) (out : Lexer × Scanned)
    → After l out.0
    → FitsOutcome l (error_or l kind out)
unfolding FitsOutcome
error_or-Fits l kind (k, scanned text) a = starting l k kind text a
error_or-Fits l kind (k, malformed message) a = starting l k illegal message a

pub scan_slash-Fits : (u : UnicodeTables) (l : Lexer) → FitsOutcome l (scan_slash u l)
unfolding scan_slash FitsOutcome
scan_slash-Fits u l = elim (Bool-cases (peek_char l == b'>')) [
  | inl y ↦ rw y (starting l _ _ _ (read_char-After l))
  | inr n ↦ elim (Bool-cases (peek_char l == b'*')) [
    | inr m ↦ rw (n, m) (starting l _ _ _ (After-refl l))
    | inl y ↦ elim (Bool-cases (peek_two_chars l == b'*')) [
      | inl z ↦ rw (n, y, z) (error_or-Fits l _ _ (read_doc_comment-After u l))
      | inr z ↦ elim (Bool-cases (skip_block_comment l).1) [
        | inl w ↦ rw (n, y, z, w) (skip_block_comment-After l)
        | inr w ↦ rw (n, y, z, w) (starting l _ _ _ (skip_block_comment-After l))
      ]
    ]
  ]
]

pub scan_bar-Fits : (l : Lexer) → FitsOutcome l (scan_bar l)
unfolding scan_bar FitsOutcome
scan_bar-Fits l = elim (Bool-cases (peek_char l == b'|')) [
  | inl y ↦ rw y (starting l _ _ _ (read_char-After l))
  | inr n ↦ elim (Bool-cases (peek_char l == b'}')) [
    | inl y ↦ rw (n, y) (starting l _ _ _ (same-After l (read_char l) _ refl (read_char-After l)))
    | inr m ↦ rw (n, m) (starting l _ _ _ (After-refl l))
  ]
]

read_identifier-After : (u : UnicodeTables) (l : Lexer) → After l (read_identifier u l).0
unfolding read_identifier
read_identifier-After u l = read_while-After (λ c. is_letter u c || is_digit u c) (rounds l) l []

pub word-Fits : (u : UnicodeTables) (l : Lexer) → FitsOutcome l (word l (read_identifier u l))
unfolding FitsOutcome
word-Fits u l = starting l _ _ _ (read_identifier-After u l)

pub scan_underscore-Fits : (u : UnicodeTables) (l : Lexer) → FitsOutcome l (scan_underscore u l)
unfolding scan_underscore FitsOutcome
scan_underscore-Fits u l = elim (Bool-cases (is_letter u (peek_char l))) [
  | inl y ↦ rw y (word-Fits u l)
  | inr n ↦ rw n (starting l _ _ _ (After-refl l))
]

pub scan_dots-Fits : (l : Lexer) → FitsOutcome l (scan_dots l)
unfolding scan_dots FitsOutcome
scan_dots-Fits l = elim (Bool-cases (tripled l)) [
  | inl y ↦ rw y (starting l _ _ _ (read_chars-After 2 l))
  | inr n ↦ rw n (starting l _ _ _ (After-refl l))
]

pub scan_question-Fits : (l : Lexer) → FitsOutcome l (scan_question l)
unfolding scan_question FitsOutcome
scan_question-Fits l = elim (Bool-cases (tripled l)) [
  | inl y ↦ rw y (starting l _ _ _ (read_chars-After 2 l))
  | inr n ↦ rw n (starting l _ _ _ (After-refl l))
]

push-After :
    (l k : Lexer) (mode : Option Tokenizer)
    → After l k
    → After l (push_interpolation_return_mode k mode)
push-After l k none a = a
push-After l k (some mode) a = same-After l k _ refl a

pub scan_lbrace-Fits : (l : Lexer) → FitsOutcome l (scan_lbrace l)
unfolding scan_lbrace FitsOutcome
scan_lbrace-Fits l =
    let next = read_char l in
    elim (Bool-cases (peek_char l == b'{' && can_start_interpolation l)) [
      | inl y ↦ rw y (starting l _ _ _ (push-After l next next.prev_mode (read_char-After l)))
      | inr n ↦ elim (Bool-cases (peek_char l == b'|')) [
        | inl y ↦ rw (n, y) (starting l _ _ _ (same-After l next _ refl (read_char-After l)))
        | inr m ↦ rw (n, m) (starting l _ _ _ (same-After l l _ refl (After-refl l)))
      ]
    ]

resumed-After : (l : Lexer) (mode : Option Tokenizer) → After l (resumed l mode)
resumed-After l none = After-refl l
resumed-After l (some general) = same-After l l _ refl (After-refl l)
resumed-After l (some (single_line raw)) = elim (Bool-cases (peek_char l == b'"')) [
  | inl y ↦ rw y (same-After l (read_char l) _ refl (read_char-After l))
  | inr n ↦ rw n (same-After l l _ refl (After-refl l))
]
resumed-After l (some (multi_line raw)) = same-After l l _ refl (After-refl l)

pub scan_rbrace-Fits : (l : Lexer) → FitsOutcome l (scan_rbrace l)
unfolding scan_rbrace FitsOutcome
scan_rbrace-Fits l =
    let next = read_char l in
    let (popped, mode) = pop_interpolation_return_mode next in
    elim (Bool-cases (has_interpolation_return_mode l && peek_char l == b'}')) [
      | inl y ↦ rw y (
          starting l _ _ _ (
            After-trans l popped _ (same-After l next popped refl (read_char-After l))
              (resumed-After popped mode)))
      | inr n ↦ rw n (starting l _ _ _ (same-After l l _ refl (After-refl l)))
    ]

pub scan_delimiter-Fits : (l : Lexer) → FitsOutcome l (scan_delimiter l)
unfolding scan_delimiter FitsOutcome
scan_delimiter-Fits l = elim (Bool-cases (ch l == b'(')) [
  | inl y ↦ rw y (starting l _ _ _ (same-After l l _ refl (After-refl l)))
  | inr n ↦ elim (Bool-cases (ch l == b')')) [
    | inl y ↦ rw (n, y) (starting l _ _ _ (same-After l l _ refl (After-refl l)))
    | inr m ↦ elim (Bool-cases (ch l == b'[')) [
      | inl y ↦ rw (n, m, y) (starting l _ _ _ (same-After l l _ refl (After-refl l)))
      | inr o ↦ rw (n, m, o) (starting l _ _ _ (same-After l l _ refl (After-refl l)))
    ]
  ]
]

pub past_newline-After : (l : Lexer) → After l (past_newline l)
past_newline-After l = elim (Bool-cases (ch l == b'\n')) [
  | inl y ↦ rw y (read_char-After l)
  | inr n ↦ rw n (After-refl l)
]

pub scan_quote-Fits : (raw : Bool) (l : Lexer) → FitsOutcome l (scan_quote raw l)
unfolding scan_quote FitsOutcome
scan_quote-Fits raw l =
    let opened = past_newline (read_chars 3 l) in
    let before =
      After-trans l (read_chars 3 l) opened (read_chars-After 3 l)
        (past_newline-After (read_chars 3 l)) in
    elim (Bool-cases (tripled l)) [
      | inl y ↦
          rw y (moved-Fits l _ _ (same-After l opened _ refl before) (multi_line_token-Fits raw _))
      | inr n ↦ rw n (
          moved-Fits l _ _ (same-After l (read_char l) _ refl (read_char-After l))
            (single_line_token-Fits raw _))
    ]

pub bytes_or-Fits :
    (l : Lexer) (out : Lexer × Option Text) → After l out.0 → FitsOutcome l (bytes_or l out)
unfolding FitsOutcome
bytes_or-Fits l (k, some text) a = starting l k _ _ a
bytes_or-Fits l (k, none) a = starting l k _ _ a

pub scan_digit-Fits : (u : UnicodeTables) (l : Lexer) → FitsOutcome l (scan_digit u l)
unfolding scan_digit FitsOutcome
scan_digit-Fits u l =
    elim (Bool-cases (ch l == b'0' && peek_char l == b'x' && peek_two_chars l == b'"')) [
      | inl y ↦ rw y (bytes_or-Fits l _ (read-After l _ (read_byte_array_literal-After l)))
      | inr n ↦ elim (Bool-cases (ch l == b'0' && peek_char l == b'x')) [
        | inl y ↦ rw (n, y) (error_or-Fits l _ _ (read-After l _ (read_hex_literal-After l)))
        | inr m ↦ rw (n, m) (error_or-Fits l _ _ (read_number-After u l))
      ]
    ]

pub scan_word-Fits : (u : UnicodeTables) (l : Lexer) → FitsOutcome l (scan_word u l)
unfolding scan_word FitsOutcome
scan_word-Fits u l = elim (Bool-cases (is_letter u (ch l))) [
  | inl y ↦ rw y (word-Fits u l)
  | inr n ↦ elim (Bool-cases (is_digit u (ch l))) [
    | inl y ↦ rw (n, y) (scan_digit-Fits u l)
    | inr m ↦ rw (n, m) (starting l _ _ _ (After-refl l))
  ]
]
