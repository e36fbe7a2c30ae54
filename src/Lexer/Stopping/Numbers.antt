-- ===== src/Lexer/Stopping/Numbers.antt =====
-- The loops of internal/lexer/lexer.go over numbers and bytes, and all of its loops together.
use slug.Prelude.{
  ℕ, zero, suc, ◌<◌, ◌≡◌, refl, Bool, true, false, not, ◌||◌, ◌&&◌, ◌==◌, if◌then◌else◌, [], ◌∷◌,
  ◌++◌, Bool-cases, inl, inr, arith,
}
use slug.Prelude.Text.{Text}
use slug.Lexer.{UnicodeTables, Lexer, ch, read_char, rounds}
use slug.Lexer.Skip.{
  skip_whitespace, is_blank, starts_line_comment, skip_to_line_end, skip_nested, read_doc_content,
}
use slug.Lexer.Literals.{
  is_letter, is_digit, is_hex_digit, between, read_identifier, read_digits, read_hex_digits,
  read_byte_digits,
}
use slug.Lexer.General.{collapse}
use slug.Lexer.Cursor.{left, read_char-lt, ch_pos, read_char-After}
use slug.Lexer.Spelling.Cases.{HasNoZero}
use slug.Lexer.Stopping.{
  skip_whitespace-stops, skip_to_line_end-stops, collapse-stops, inside_of, read_while-stops,
  skip_nested-stops, is_found, read_doc_content-stops,
}

-- Where the loop over digits stops: behind them, or at an underscore that is misplaced.
abbrev pub digits_end : UnicodeTables → Lexer → Bool → Bool
digits_end u k fine =
    if fine
    then not (is_digit u (ch k) || ch k == b'_')
    else ch k == b'_' && not (between u.decimal_digit k)

digit_inside :
    (u : UnicodeTables) (l : Lexer)
    → HasNoZero u
    → not (is_digit u (ch l) || ch l == b'_') ≡ false
    → (ch l == 0) ≡ false
digit_inside u l z h =
    inside_of (λ c. is_digit u c || c == b'_') (ch l) (rw z.no_digit refl) (ground (arith, h))

read_digits-stops :
    (u : UnicodeTables) (f : ℕ) (l : Lexer) (text : Text)
    → HasNoZero u
    → left l < f
    → digits_end u (read_digits u f l text).0 (read_digits u f l text).2 ≡ true
unfolding read_digits
read_digits-stops u zero l text z h = absurd (omega (arith, h))
read_digits-stops u (suc f) l text z h =
    elim (Bool-cases (not (is_digit u (ch l) || ch l == b'_'))) [
      | inl y ↦ rw y y
      | inr n ↦
          let shorter : left (read_char l) < f =
            omega (arith, h, read_char-lt l (ch_pos l (digit_inside u l z n))) in
          elim (Bool-cases (ch l == b'_')) [
            | inr m ↦ rw (n, m) (read_digits-stops u f (read_char l) _ z shorter)
            | inl y ↦ elim (Bool-cases (between u.decimal_digit l)) [
              | inl b ↦ rw (n, y, b) (read_digits-stops u f (read_char l) text z shorter)
              | inr b ↦ rw (n, y, b) (rw (y, b) refl)
            ]
          ]
    ]

-- The loop over hexadecimal digits does not tell the two apart.
abbrev pub hex_digits_end : Lexer → Bool
hex_digits_end k =
    not (is_hex_digit (ch k) || ch k == b'_') || ch k == b'_' && not (between is_hex_digit k)

hex_inside : (c : ℕ) → not (is_hex_digit c || c == b'_') ≡ false → (c == 0) ≡ false
unfolding is_hex_digit
hex_inside c h = ground arith

read_hex_digits-stops :
    (f : ℕ) (l : Lexer) (text : Text)
    → left l < f
    → hex_digits_end (read_hex_digits f l text).0 ≡ true
unfolding read_hex_digits
read_hex_digits-stops zero l text h = absurd (omega (arith, h))
read_hex_digits-stops (suc f) l text h =
    elim (Bool-cases (not (is_hex_digit (ch l) || ch l == b'_'))) [
      | inl y ↦ rw y (rw y refl)
      | inr n ↦
          let shorter : left (read_char l) < f =
            omega (arith, h, read_char-lt l (ch_pos l (hex_inside (ch l) n))) in
          elim (Bool-cases (ch l == b'_')) [
            | inr m ↦ rw (n, m) (read_hex_digits-stops f (read_char l) _ shorter)
            | inl y ↦ elim (Bool-cases (between is_hex_digit l)) [
              | inl b ↦ rw (n, y, b) (read_hex_digits-stops f (read_char l) text shorter)
              | inr b ↦ rw (n, y, b) (rw (n, y, b) refl)
            ]
          ]
    ]

-- The loop over bytes: at a quote or the end, or else at a code point that is no hex digit.
abbrev pub bytes_end : Lexer → Bool → Bool
bytes_end k fine = if fine then ch k == b'"' || ch k == 0 else not (is_hex_digit (ch k))

byte_inside : (c : ℕ) → (c == b'"' || c == 0) ≡ false → (c == 0) ≡ false
byte_inside c h = ground arith

-- A code point that is not 0 after the move: there was one to move past.
moved_lt : (l : Lexer) → (ch (read_char l) == 0) ≡ false → left (read_char l) < left l
moved_lt l n = elim (Bool-cases (ch l == 0)) [
  | inr m ↦ read_char-lt l (ch_pos l m)
  | inl e ↦ read_char-lt l (omega (arith, (read_char-After l).shorter, ch_pos (read_char l) n))
]

read_byte_digits-stops :
    (f : ℕ) (l : Lexer) (text : Text)
    → left l < f
    → bytes_end (read_byte_digits f l text).0 (read_byte_digits f l text).2 ≡ true
unfolding read_byte_digits
read_byte_digits-stops zero l text h = absurd (omega (arith, h))
read_byte_digits-stops (suc f) l text h =
    let next = read_char l in
    elim (Bool-cases (ch next == b'"' || ch next == 0)) [
      | inl y ↦ rw y y
      | inr n ↦ elim (Bool-cases (is_hex_digit (ch next))) [
        | inl y ↦
            rw (n, y)
              (read_byte_digits-stops f next (text ++ (ch l ∷ []))
                (omega (arith, h, moved_lt l (byte_inside (ch next) n))))
        | inr m ↦ rw (n, m) (rw m refl)
      ]
    ]

-- Where the code point 0 is no letter, mark or digit, each of these loops stops by a condition of
-- its own, with the rounds that it is given. White space ends at neither a blank nor the start of
-- a line comment, a line comment at a newline or at the end, a run of newlines at neither a
-- newline nor a blank, and a word at neither a letter nor a digit; the loops over comments find
-- the end of the comment or read on to the end of the input; those over digits and bytes stop
-- behind them, at an underscore that is misplaced or at a code point that is no hex digit.
pub scanning_loops_stop :
    (u : UnicodeTables) (l : Lexer) (depth : ℕ) (at_line_start : Bool) (text : Text)
    → HasNoZero u
    → let blanks = skip_whitespace (rounds l) l in
      let line = skip_to_line_end (rounds l) l in
      let lines = (collapse (rounds l) l depth).0 in
      let comment = skip_nested (rounds l) depth l in
      let doc = read_doc_content (rounds l) at_line_start text l in
      let digits = read_digits u (rounds l) l text in
      let hex = (read_hex_digits (rounds l) l text).0 in
      let bytes = read_byte_digits (rounds l) l text in
      (((is_blank (ch blanks) ≡ false) × (starts_line_comment blanks ≡ false))
        × ((ch line == b'\n' || ch line == 0) ≡ true)
        × ((ch lines == b'\n' || is_blank (ch lines)) ≡ false)
        × ((is_letter u (ch (read_identifier u l).0) || is_digit u (ch (read_identifier u l).0))
            ≡ false))
      × (((comment.1 || ch comment.0 == 0) ≡ true) × ((is_found doc.1 || ch doc.0 == 0) ≡ true))
      × ((digits_end u digits.0 digits.2 ≡ true)
          × (hex_digits_end hex ≡ true)
          × (bytes_end bytes.0 bytes.2 ≡ true))
unfolding read_identifier is_letter
scanning_loops_stop u l depth at_line_start text z = (
  (
    skip_whitespace-stops (rounds l) l (omega arith),
    skip_to_line_end-stops (rounds l) l (omega arith),
    collapse-stops (rounds l) l depth (omega arith),
    read_while-stops (λ c. is_letter u c || is_digit u c) (rounds l) l []
        (rw (z.no_letter, z.no_mark, z.no_digit) refl) (omega arith),
  ),
  (
    skip_nested-stops (rounds l) depth l (omega arith),
    read_doc_content-stops (rounds l) at_line_start text l (omega arith),
  ),
  (
    read_digits-stops u (rounds l) l text z (omega arith),
    read_hex_digits-stops (rounds l) l text (omega arith),
    read_byte_digits-stops (rounds l) l text (omega arith),
  ),
)
