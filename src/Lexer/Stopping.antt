-- ===== src/Lexer/Stopping.antt =====
-- The loops of internal/lexer/lexer.go over white space, comments, words and numbers: where they stop.
pub mod Numbers
pub mod Kinds
pub mod Rounds
use slug.Prelude.{
  ℕ, zero, suc, ◌+◌, ◌-◌, ◌<◌, ◌≡◌, refl, sym, ◌∙◌, ap, Bool, true, false, not, ◌||◌, ◌&&◌, ◌==◌,
  ==_iff, if◌then◌else◌, Option, none, some, [], ◌∷◌, ◌++◌, Bool-cases, Option-cases, inl, inr,
  arith,
}
use mathlib.Core.Bool.{true≢false}
use slug.Prelude.Text.{Text}
use slug.Lexer.{UnicodeTables, Lexer, ch, peek_char, read_char, rounds}
use slug.Lexer.Skip.{
  skip_whitespace, is_blank, starts_line_comment, skip_to_line_end, skip_nested, skip_block_comment,
  doc_comment_closing_offset, read_chars, read_doc_content,
}
use slug.Lexer.Literals.{
  is_letter, is_digit, is_hex_digit, between, read_while, read_identifier, read_digits,
  read_hex_digits, read_byte_digits,
}
use slug.Lexer.General.{collapse}
use slug.Lexer.Cursor.{left, read_char-lt, ch_pos, read_char-After}
use slug.Lexer.Reading.{skip_whitespace-After, skip_to_line_end-After}
use slug.Lexer.Spelling.Cases.{HasNoZero}

comment_start :
    (c d : ℕ) → (c == b'#' || c == b'/' && d == b'/') ≡ true → (c == b'\n' || c == 0) ≡ false
comment_start c d h = ground arith

-- A comment's first code point is read.
line_end-lt :
    (l : Lexer) → starts_line_comment l ≡ true → left (skip_to_line_end (rounds l) l) < left l
unfolding skip_to_line_end
line_end-lt l h =
    let go_on : (ch l == b'\n' || ch l == 0) ≡ false = comment_start (ch l) (peek_char l) h in
    let inside : (ch l == 0) ≡ false = ground (arith, go_on) in
    rw go_on (
      omega (
        arith,
        (skip_to_line_end-After (left l) (read_char l)).shorter,
        read_char-lt l (ch_pos l inside),
      ))

skip_whitespace-stops :
    (f : ℕ) (l : Lexer)
    → left l < f
    → (is_blank (ch (skip_whitespace f l)) ≡ false)
      × (starts_line_comment (skip_whitespace f l) ≡ false)
unfolding skip_whitespace
skip_whitespace-stops zero l h = absurd (omega (arith, h))
skip_whitespace-stops (suc f) l h = elim (Bool-cases (is_blank (ch l))) [
  | inl y ↦
      let inside : (ch l == 0) ≡ false = ground (arith, y) in
      rw y
        (skip_whitespace-stops f (read_char l) (omega (arith, h, read_char-lt l (ch_pos l inside))))
  | inr n ↦ elim (Bool-cases (starts_line_comment l)) [
    | inl y ↦
        rw (n, y)
          (skip_whitespace-stops f (skip_to_line_end (rounds l) l)
            (omega (arith, h, line_end-lt l y)))
    | inr m ↦ rw (n, m) (n, m)
  ]
]

skip_to_line_end-stops :
    (f : ℕ) (l : Lexer)
    → left l < f
    → (ch (skip_to_line_end f l) == b'\n' || ch (skip_to_line_end f l) == 0) ≡ true
unfolding skip_to_line_end
skip_to_line_end-stops zero l h = absurd (omega (arith, h))
skip_to_line_end-stops (suc f) l h = elim (Bool-cases (ch l == b'\n' || ch l == 0)) [
  | inl y ↦ rw y y
  | inr n ↦
      let inside : (ch l == 0) ≡ false = ground (arith, n) in
      rw n (
        skip_to_line_end-stops f (read_char l) (omega (arith, h, read_char-lt l (ch_pos l inside))))
]

collapse-stops :
    (f : ℕ) (l : Lexer) (count : ℕ)
    → left l < f
    → (ch (collapse f l count).0 == b'\n' || is_blank (ch (collapse f l count).0)) ≡ false
unfolding collapse
collapse-stops zero l count h = absurd (omega (arith, h))
collapse-stops (suc f) l count h =
    let next = read_char l in
    let k = skip_whitespace (rounds next) next in
    let shorter = (skip_whitespace-After (rounds next) next).shorter in
    elim (Bool-cases (ch l == b'\n')) [
      | inl y ↦
          let inside : (ch l == 0) ≡ false = ground (arith, y) in
          rw y (
            collapse-stops f k (suc count)
              (omega (arith, h, shorter, read_char-lt l (ch_pos l inside))))
      | inr n ↦ elim (Bool-cases (is_blank (ch l))) [
        | inl y ↦
            let inside : (ch l == 0) ≡ false = ground (arith, y) in
            rw (n, y)
              (collapse-stops f k count
                (omega (arith, h, shorter, read_char-lt l (ch_pos l inside))))
        | inr m ↦ rw (n, m) (rw (n, m) refl)
      ]
    ]

-- A test that does not hold of the code point 0 does not hold at the end of the input.
inside_of : (test : ℕ → Bool) (c : ℕ) → test 0 ≡ false → test c ≡ true → (c == 0) ≡ false
inside_of test c z h = elim (Bool-cases (c == 0)) [
  | inl e ↦ absurd (true≢false (sym h ∙ ap test ((==_iff c 0).0 e) ∙ z))
  | inr n ↦ n
]

read_while-stops :
    (test : ℕ → Bool) (f : ℕ) (l : Lexer) (text : Text)
    → test 0 ≡ false
    → left l < f
    → test (ch (read_while test f l text).0) ≡ false
unfolding read_while
read_while-stops test zero l text z h = absurd (omega (arith, h))
read_while-stops test (suc f) l text z h = elim (Bool-cases (test (ch l))) [
  | inl y ↦ rw y (
      read_while-stops test f (read_char l) _ z
        (omega (arith, h, read_char-lt l (ch_pos l (inside_of test (ch l) z y)))))
  | inr n ↦ rw n n
]

skip_nested-stops :
    (f depth : ℕ) (l : Lexer)
    → left l < f
    → ((skip_nested f depth l).1 || ch (skip_nested f depth l).0 == 0) ≡ true
unfolding skip_nested
skip_nested-stops zero depth l h = absurd (omega (arith, h))
skip_nested-stops (suc f) depth l h =
    let next = read_char l in
    let twice = read_char next in
    elim (Bool-cases (ch l == 0)) [
      | inl y ↦ rw y (rw y refl)
      | inr n ↦
          let shorter : left next < f = omega (arith, h, read_char-lt l (ch_pos l n)) in
          let both : left twice < f = omega (arith, shorter, (read_char-After next).shorter) in
          elim (Bool-cases (ch l == b'/' && peek_char l == b'*')) [
            | inl y ↦ rw (n, y) (skip_nested-stops f (depth + 1) twice both)
            | inr m ↦ elim (Bool-cases (ch l == b'*' && peek_char l == b'/')) [
              | inr o ↦ rw (n, m, o) (skip_nested-stops f depth next shorter)
              | inl y ↦ elim (Bool-cases (depth - 1 == 0)) [
                | inl z ↦ rw (n, m, y, z) refl
                | inr z ↦ rw (n, m, y, z) (skip_nested-stops f (depth - 1) twice both)
              ]
            ]
          ]
    ]

abbrev pub is_found : Option Text → Bool
is_found none = false
is_found (some text) = true

read_doc_content-stops :
    (f : ℕ) (s : Bool) (content : Text) (l : Lexer)
    → left l < f
    → (is_found (read_doc_content f s content l).1 || ch (read_doc_content f s content l).0 == 0)
      ≡ true
unfolding read_doc_content
read_doc_content-stops zero s content l h = absurd (omega (arith, h))
read_doc_content-stops (suc f) s content l h =
    let closing = if s then doc_comment_closing_offset l.ahead else none in
    elim (Bool-cases (ch l == 0)) [
      | inl y ↦ rw y (rw y refl)
      | inr n ↦ elim (Option-cases closing) [
        | inr (offset, e) ↦ rw (n, e) refl
        | inl e ↦
            rw (n, e)
              (read_doc_content-stops f _ _ (read_char l)
                (omega (arith, h, read_char-lt l (ch_pos l n))))
      ]
    ]
