-- ===== src/Lexer/Reading.antt =====
-- Where the readers of internal/lexer/lexer.go stop.
use slug.Prelude.{
  ℕ, zero, suc, ◌+◌, ◌-◌, ◌%◌, Bool, true, not, ◌&&◌, ◌||◌, ◌==◌, if◌then◌else◌, none, [], ◌∷◌,
  ◌++◌, length, Bool-cases, Option-cases, inl, inr,
}
use slug.Prelude.Text.{Text, size}
use slug.Lexer.{UnicodeTables, Lexer, ch, peek_char, peek_two_chars, read_char, rounds}
use slug.Lexer.Skip.{
  skip_to_line_end, skip_whitespace, is_blank, starts_line_comment, skip_nested, skip_block_comment,
  read_chars, read_doc_content, doc_comment_closing_offset, read_doc_comment,
}
use slug.Lexer.Literals.{
  is_digit, is_hex_digit, between, read_while, read_digits, read_fraction, read_sign, read_exponent,
  read_number, read_hex_digits, read_hex_rest, read_hex_literal, read_byte_digits, bytes_from,
  read_byte_array_literal,
}
use slug.Lexer.Cursor.{After, After-refl, After-trans, read_char-After, read-After}

pub skip_to_line_end-After : (f : ℕ) (l : Lexer) → After l (skip_to_line_end f l)
unfolding skip_to_line_end
skip_to_line_end-After zero l = After-refl l
skip_to_line_end-After (suc f) l = elim (Bool-cases (ch l == b'\n' || ch l == 0)) [
  | inl y ↦ rw y (After-refl l)
  | inr n ↦ rw n (read-After l _ (skip_to_line_end-After f (read_char l)))
]

pub skip_whitespace-After : (f : ℕ) (l : Lexer) → After l (skip_whitespace f l)
unfolding skip_whitespace
skip_whitespace-After zero l = After-refl l
skip_whitespace-After (suc f) l = elim (Bool-cases (is_blank (ch l))) [
  | inl y ↦ rw y (read-After l _ (skip_whitespace-After f (read_char l)))
  | inr n ↦ elim (Bool-cases (starts_line_comment l)) [
    | inl y ↦
        let k = skip_to_line_end (rounds l) l in
        rw (n, y)
          (After-trans l k _ (skip_to_line_end-After (rounds l) l) (skip_whitespace-After f k))
    | inr m ↦ rw (n, m) (After-refl l)
  ]
]

pub skip_nested-After : (f depth : ℕ) (l : Lexer) → After l (skip_nested f depth l).0
unfolding skip_nested
skip_nested-After zero depth l = After-refl l
skip_nested-After (suc f) depth l =
    let next = read_char l in
    let twice = read_char next in
    let two = read-After l twice (read_char-After next) in
    elim (Bool-cases (ch l == 0)) [
      | inl y ↦ rw y (After-refl l)
      | inr n ↦ elim (Bool-cases (ch l == b'/' && peek_char l == b'*')) [
        | inl y ↦ rw (n, y) (After-trans l twice _ two (skip_nested-After f (depth + 1) twice))
        | inr m ↦ elim (Bool-cases (ch l == b'*' && peek_char l == b'/')) [
          | inr o ↦ rw (n, m, o) (read-After l _ (skip_nested-After f depth next))
          | inl y ↦ elim (Bool-cases (depth - 1 == 0)) [
            | inl z ↦ rw (n, m, y, z) two
            | inr z ↦
                rw (n, m, y, z) (After-trans l twice _ two (skip_nested-After f (depth - 1) twice))
          ]
        ]
      ]
    ]

pub read_chars-After : (n : ℕ) (l : Lexer) → After l (read_chars n l)
unfolding read_chars
read_chars-After zero l = After-refl l
read_chars-After (suc n) l = read-After l _ (read_chars-After n (read_char l))

pub skip_block_comment-After : (l : Lexer) → After l (skip_block_comment l).0
unfolding skip_block_comment
skip_block_comment-After l = elim (Bool-cases (not (ch l == b'/') || not (peek_char l == b'*'))) [
  | inl y ↦ rw y (After-refl l)
  | inr n ↦
      let next = read_char l in
      rw n (read-After l _ (read-After next _ (skip_nested-After (rounds l) 1 (read_char next))))
]

pub read_doc_content-After :
    (f : ℕ) (at_line_start : Bool) (content : Text) (l : Lexer)
    → After l (read_doc_content f at_line_start content l).0
unfolding read_doc_content
read_doc_content-After zero s content l = After-refl l
read_doc_content-After (suc f) s content l =
    let closing = if s then doc_comment_closing_offset l.ahead else none in
    elim (Bool-cases (ch l == 0)) [
      | inl y ↦ rw y (After-refl l)
      | inr n ↦ elim (Option-cases closing) [
        | inl e ↦ rw (n, e) (read-After l _ (read_doc_content-After f _ _ (read_char l)))
        | inr (offset, e) ↦ rw (n, e) (read_chars-After (offset + 2) l)
      ]
    ]

pub read_doc_comment-After : (u : UnicodeTables) (l : Lexer) → After l (read_doc_comment u l).0
unfolding read_doc_comment
read_doc_comment-After u l =
    elim (Bool-cases
      (not (ch l == b'/') || not (peek_char l == b'*') || not (peek_two_chars l == b'*'))) [
        | inl y ↦ rw y (After-refl l)
        | inr n ↦
            let k = read_chars 3 l in
            rw n (
              After-trans l k _ (read_chars-After 3 l)
                (read_doc_content-After (rounds l) true [] k))
      ]

pub read_while-After :
    (test : ℕ → Bool) (f : ℕ) (l : Lexer) (text : Text) → After l (read_while test f l text).0
unfolding read_while
read_while-After test zero l text = After-refl l
read_while-After test (suc f) l text = elim (Bool-cases (test (ch l))) [
  | inl y ↦ rw y (read-After l _ (read_while-After test f (read_char l) _))
  | inr n ↦ rw n (After-refl l)
]

pub read_digits-After :
    (u : UnicodeTables) (f : ℕ) (l : Lexer) (text : Text) → After l (read_digits u f l text).0
unfolding read_digits
read_digits-After u zero l text = After-refl l
read_digits-After u (suc f) l text = elim (Bool-cases (not (is_digit u (ch l) || ch l == b'_'))) [
  | inl y ↦ rw y (After-refl l)
  | inr n ↦ elim (Bool-cases (ch l == b'_')) [
    | inr m ↦ rw (n, m) (read-After l _ (read_digits-After u f (read_char l) _))
    | inl y ↦ elim (Bool-cases (between u.decimal_digit l)) [
      | inl b ↦ rw (n, y, b) (read-After l _ (read_digits-After u f (read_char l) text))
      | inr b ↦ rw (n, y, b) (After-refl l)
    ]
  ]
]

pub read_fraction-After :
    (u : UnicodeTables) (l : Lexer) (text : Text) → After l (read_fraction u l text).0
unfolding read_fraction
read_fraction-After u l text = elim (Bool-cases (ch l == b'.' && is_digit u (peek_char l))) [
  | inl y ↦ rw y (read-After l _ (read_digits-After u (rounds l) (read_char l) _))
  | inr n ↦ rw n (After-refl l)
]

read_sign-After : (l : Lexer) (text : Text) → After l (read_sign (l, text)).0
read_sign-After l text = elim (Bool-cases (ch l == b'+' || ch l == b'-')) [
  | inl y ↦ rw y (read_char-After l)
  | inr n ↦ rw n (After-refl l)
]

pub read_exponent-After :
    (u : UnicodeTables) (l : Lexer) (text : Text) → After l (read_exponent u l text).0
unfolding read_exponent
read_exponent-After u l text = elim (Bool-cases (ch l == b'e' || ch l == b'E')) [
  | inr n ↦ rw n (After-refl l)
  | inl y ↦
      let next = read_char l in
      let (k, signed) = read_sign (next, text ++ (ch l ∷ [])) in
      rw y (
        read-After l _ (
          After-trans next k _ (read_sign-After next _)
            (read_while-After (is_digit u) (rounds k) k signed)))
]

pub read_number-After : (u : UnicodeTables) (l : Lexer) → After l (read_number u l).0
unfolding read_number
read_number-After u l =
    let (l₁, digits, ok₁) = read_digits u (rounds l) l [] in
    let (l₂, fraction, ok₂) = read_fraction u l₁ digits in
    let a = read_digits-After u (rounds l) l [] in
    let b = After-trans l l₁ l₂ a (read_fraction-After u l₁ digits) in
    elim (Bool-cases ok₁) [
      | inr n ↦ rw n a
      | inl y ↦ elim (Bool-cases ok₂) [
        | inr n ↦ rw (y, n) b
        | inl z ↦ rw (y, z) (After-trans l l₂ _ b (read_exponent-After u l₂ fraction))
      ]
    ]

read_hex_digits-After : (f : ℕ) (l : Lexer) (text : Text) → After l (read_hex_digits f l text).0
unfolding read_hex_digits
read_hex_digits-After zero l text = After-refl l
read_hex_digits-After (suc f) l text =
    elim (Bool-cases (not (is_hex_digit (ch l) || ch l == b'_'))) [
      | inl y ↦ rw y (After-refl l)
      | inr n ↦ elim (Bool-cases (ch l == b'_')) [
        | inr m ↦ rw (n, m) (read-After l _ (read_hex_digits-After f (read_char l) _))
        | inl y ↦ elim (Bool-cases (between is_hex_digit l)) [
          | inl b ↦ rw (n, y, b) (read-After l _ (read_hex_digits-After f (read_char l) text))
          | inr b ↦ rw (n, y, b) (After-refl l)
        ]
      ]
    ]

read_hex_rest-After : (l : Lexer) (text : Text) → After l (read_hex_rest l text).0
unfolding read_hex_rest
read_hex_rest-After l text =
    let (k, hex) = read_hex_digits (rounds l) l text in
    let a = read_hex_digits-After (rounds l) l text in
    elim (Bool-cases (not (is_hex_digit (ch l)))) [
      | inl y ↦ rw y (After-refl l)
      | inr n ↦ elim (Bool-cases (length hex % 2 == 0)) [
        | inl y ↦ rw (n, y) a
        | inr m ↦ rw (n, m) a
      ]
    ]

pub read_hex_literal-After : (l : Lexer) → After (read_char l) (read_hex_literal l).0
unfolding read_hex_literal
read_hex_literal-After l =
    let l₁ = read_char l in
    let l₂ = read_char l₁ in
    let text = ch l ∷ ch l₁ ∷ [] in
    elim (Bool-cases (not (ch l₁ == b'x'))) [
      | inl y ↦ rw y (After-refl l₁)
      | inr n ↦ elim (Bool-cases (ch l₂ == b'_')) [
        | inr m ↦ rw (n, m) (read-After l₁ _ (read_hex_rest-After l₂ text))
        | inl y ↦ elim (Bool-cases (is_hex_digit (peek_char l₂))) [
          | inl z ↦
              rw (n, y, z)
                (read-After l₁ _ (read-After l₂ _ (read_hex_rest-After (read_char l₂) text)))
          | inr z ↦ rw (n, y, z) (read_char-After l₁)
        ]
      ]
    ]

read_byte_digits-After : (f : ℕ) (l : Lexer) (text : Text) → After l (read_byte_digits f l text).0
unfolding read_byte_digits
read_byte_digits-After zero l text = After-refl l
read_byte_digits-After (suc f) l text =
    let next = read_char l in
    elim (Bool-cases (ch next == b'"' || ch next == 0)) [
      | inl y ↦ rw y (read_char-After l)
      | inr n ↦ elim (Bool-cases (is_hex_digit (ch next))) [
        | inl y ↦ rw (n, y) (read-After l _ (read_byte_digits-After f next _))
        | inr m ↦ rw (n, m) (read_char-After l)
      ]
    ]

bytes_from-After : (l : Lexer) → After l (bytes_from l).0
unfolding bytes_from
bytes_from-After l = elim (Bool-cases (ch l == b'"')) [
  | inl y ↦ rw y (After-refl l)
  | inr n ↦ rw n (read_byte_digits-After (rounds l) l [])
]

pub read_byte_array_literal-After : (l : Lexer) → After (read_char l) (read_byte_array_literal l).0
unfolding read_byte_array_literal
read_byte_array_literal-After l =
    let l₁ = read_char l in
    let start = read_char (read_char l₁) in
    let before = read-After l₁ start (read_char-After (read_char l₁)) in
    let (k, hex, ok) = bytes_from start in
    let a = After-trans l₁ start k before (bytes_from-After start) in
    elim (Bool-cases (not ok || not (ch k == b'"'))) [
      | inl y ↦ rw y a
      | inr n ↦ elim (Bool-cases (size hex % 2 == 0)) [
        | inl y ↦ rw (n, y) (After-trans l₁ k _ a (read_char-After k))
        | inr m ↦ rw (n, m) a
      ]
    ]
