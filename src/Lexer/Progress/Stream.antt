-- ===== src/Lexer/Progress/Stream.antt =====
-- How far NextToken of internal/lexer/lexer.go reads, and the stream of its tokens.
use slug.Prelude.{
  ℕ, zero, suc, ◌+◌, ◌*◌, ◌≤◌, ◌<◌, ◌≡◌, refl, ◌⊎◌, ap, Bool, false, ◌==◌, ==_iff, List, [], ◌∷◌,
  Bool-cases, inl, inr, arith,
}
use slug.Prelude.Text.{Text}
use slug.Token.{Token, eof, token}
use slug.Lexer.{
  UnicodeTables, Lexer, Tokenizer, general, single_line, multi_line, ch, read_char, rounds,
}
use slug.Lexer.Skip.{skip_whitespace}
use slug.Lexer.Strings.{
  quote_of, starts_interpolation, single_line_loop, single_line_token, closes, multi_line_loop,
  multi_line_token,
}
use slug.Lexer.General.{
  Outcome, consume, emit, again, scan, general_token, token_in, next_token, tokens,
}
use slug.Lexer.Cursor.{After, left, read_char-After, read_char-lt, ch_pos}
use slug.Lexer.Reading.{skip_whitespace-After}
use slug.Lexer.Bounds.{read_piece-lt, single_line_token-Fits, multi_line_token-Fits}
use slug.Lexer.Bounds.Tokens.{scan-Fits}
use slug.Lexer.Bounds.Cases.{FitsOutcome}
use slug.Lexer.Progress.{Stops, Falls, FallsOutcome}
use slug.Lexer.Progress.Cases.{scan-Falls}

pub scan-at_end :
    (u : UnicodeTables) (l : Lexer) → ch l ≡ 0 → scan u l ≡ consume (l, token eof [] l.position)
unfolding scan
scan-at_end u l e = rw e refl

pos_of : (n : ℕ) → (0 == n) ≡ false → 0 < n
pos_of n h = ground arith

next_char-lt : (l k : Lexer) → 0 < left l → After l k → left (read_char k) < left l
next_char-lt l k h a = elim (Bool-cases (0 == left k)) [
  | inl y ↦ omega (arith, h, (==_iff 0 (left k)).0 y, (read_char-After k).shorter)
  | inr n ↦ omega (arith, a.shorter, read_char-lt k (pos_of (left k) n))
]

within-Falls : (l k : Lexer) (out : Lexer × Token) → left k ≤ left l → Falls k out → Falls l out
within-Falls l k out h (inl s) = inl s
within-Falls l k out h (inr d) = inr (omega (arith, h, d))

outcome-Falls :
    (u : UnicodeTables) (f : ℕ) (step : (l : Lexer) → left l < f → Falls l (general_token u f l))
    (l : Lexer) (o : Outcome)
    → left l < suc f
    → 0 < left l
    → FitsOutcome l o
    → FallsOutcome l o
    → Falls l (elim o [
      | consume out ↦ (read_char out.0, out.1)
      | emit out ↦ out
      | again next ↦ general_token u f next
    ])
unfolding FallsOutcome FitsOutcome
outcome-Falls u f step l (consume out) enough h fits falls =
    inr (next_char-lt l out.0 h fits.forward)
outcome-Falls u f step l (emit out) enough h fits falls = falls
outcome-Falls u f step l (again next) enough h fits falls =
    within-Falls l next (general_token u f next) (omega (arith, falls))
      (step next (omega (arith, enough, falls)))

general_token-Falls :
    (u : UnicodeTables) (f : ℕ) (l : Lexer) → left l < f → Falls l (general_token u f l)
unfolding general_token
general_token-Falls u zero l enough = absurd (omega (arith, enough))
general_token-Falls u (suc f) l enough =
    let k = skip_whitespace (rounds l) l in
    let a = skip_whitespace-After (rounds l) l in
    elim (Bool-cases (ch k == 0)) [
      | inl y ↦ rw (general_token, scan-at_end u k ((==_iff (ch k) 0).0 y)) (inl (inl refl))
      | inr n ↦ within-Falls l k (general_token u (suc f) l) a.shorter (
          outcome-Falls u f (general_token-Falls u f) k (scan u k)
            (omega (arith, enough, a.shorter)) (ch_pos k n) (scan-Fits u k)
            (scan-Falls u k (ch_pos k n)))
    ]

-- A string's token leaves the string, or stops.
abbrev Leaves : Lexer × Token → Type 0
Leaves (k, t) = Stops t ⊎ (k.current_mode ≡ general)

single_line_loop-Leaves :
    (raw : Bool) (f : ℕ) (l : Lexer) (text : Text) (start : ℕ)
    → left l < f
    → Leaves (single_line_loop raw f l text start)
unfolding single_line_loop
single_line_loop-Leaves raw zero l text start h = absurd (omega (arith, h))
single_line_loop-Leaves raw (suc f) l text start h = elim (Bool-cases (ch l == 0)) [
  | inl y ↦ rw y (inl (inr refl))
  | inr n ↦ elim (Bool-cases (starts_interpolation raw l)) [
    | inl y ↦ rw (n, y) (inr refl)
    | inr m ↦ elim (Bool-cases (ch l == quote_of raw)) [
      | inl y ↦ rw (n, m, y) (inr refl)
      | inr o ↦
          rw (n, m, o)
            (single_line_loop-Leaves raw f _ _ start (omega (arith, h, read_piece-lt raw l n)))
    ]
  ]
]

multi_line_loop-Leaves :
    (raw : Bool) (f : ℕ) (l : Lexer) (text : Text) (start : ℕ)
    → left l < f
    → Leaves (multi_line_loop raw f l text start)
unfolding multi_line_loop
multi_line_loop-Leaves raw zero l text start h = absurd (omega (arith, h))
multi_line_loop-Leaves raw (suc f) l text start h = elim (Bool-cases (ch l == 0)) [
  | inl y ↦ rw y (inl (inr refl))
  | inr n ↦ elim (Bool-cases (starts_interpolation raw l)) [
    | inl y ↦ rw (n, y) (inr refl)
    | inr m ↦ elim (Bool-cases (closes (quote_of raw) l)) [
      | inl y ↦ rw (n, m, y) (inr refl)
      | inr o ↦
          rw (n, m, o)
            (multi_line_loop-Leaves raw f _ _ start (omega (arith, h, read_piece-lt raw l n)))
    ]
  ]
]

-- A round for each code point left before a token and one for a string that is left.
abbrev mode_size : Tokenizer → ℕ
mode_size general = 0
mode_size (single_line raw) = 1
mode_size (multi_line raw) = 1

abbrev pub tokens_left : Lexer → ℕ
tokens_left l = 2 * left l + mode_size l.current_mode

mode_size-le : (m : Tokenizer) → mode_size m ≤ 1
mode_size-le general = omega arith
mode_size-le (single_line raw) = omega arith
mode_size-le (multi_line raw) = omega arith

leaving :
    (l : Lexer) (out : Lexer × Token)
    → After l out.0
    → Leaves out
    → Stops out.1 ⊎ (tokens_left out.0 < 2 * left l + 1)
leaving l out a (inl s) = inl s
leaving l out a (inr e) = inr (omega (arith, a.shorter, ap mode_size e))

next_in :
    (u : UnicodeTables) (mode : Tokenizer) (l : Lexer)
    → Stops (token_in u mode l).1
      ⊎ (tokens_left (token_in u mode l).0 < 2 * left l + mode_size mode)
unfolding single_line_token multi_line_token
next_in u general l = elim (general_token-Falls u (rounds l) l (omega arith)) [
  | inl s ↦ inl s
  | inr d ↦ inr (omega (arith, d, mode_size-le (general_token u (rounds l) l).0.current_mode))
]
next_in u (single_line raw) l =
    leaving l (single_line_token raw l) (single_line_token-Fits raw l).forward
      (single_line_loop-Leaves raw (rounds l) l [] l.position (omega arith))
next_in u (multi_line raw) l =
    leaving l (multi_line_token raw l) (multi_line_token-Fits raw l).forward
      (multi_line_loop-Leaves raw (rounds l) l [] l.position (omega arith))

pub next_token-progress :
    (u : UnicodeTables) (l : Lexer)
    → Stops (next_token u l).1 ⊎ (tokens_left (next_token u l).0 < tokens_left l)
unfolding next_token
next_token-progress u l = next_in u l.current_mode l

-- One of the tokens is the end or an error.
abbrev pub Ends : List Token → Type 0
Ends [] = ⊥
Ends (t ∷ ts) = Stops t ⊎ Ends ts

pub tokens-Ends : (u : UnicodeTables) (n : ℕ) (l : Lexer) → tokens_left l < n → Ends (tokens u n l)
unfolding tokens
tokens-Ends u zero l h = omega (arith, h)
tokens-Ends u (suc n) l h = elim (next_token-progress u l) [
  | inl s ↦ inl s
  | inr d ↦ inr (tokens-Ends u n (next_token u l).0 (omega (arith, h, d)))
]
