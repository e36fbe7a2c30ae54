-- ===== src/Lexer/Cursor.antt =====
-- The place of the lexer in its input, internal/lexer/lexer.go.
use slug.Prelude.{ℕ, ◌+◌, ◌≤◌, ◌<◌, ◌≡◌, refl, sym, ◌∙◌, ap, false, ◌==◌, [], ◌∷◌, length, arith}
use slug.Prelude.Text.{Text, size}
use slug.Lexer.{Lexer, first, ch, advance, read_char}

-- The whole input.
abbrev pub spelled : Text → Text → Text
spelled [] ahead = ahead
spelled (c ∷ behind) ahead = spelled behind (c ∷ ahead)

abbrev pub left : Lexer → ℕ
left l = length l.ahead

-- The lexer `k` stands where `l` stood, or further on in the same input.
pub record After (l k : Lexer) : Type 0 where
  pub spells : spelled k.behind k.ahead ≡ spelled l.behind l.ahead
  pub counts : k.position + size l.behind ≡ l.position + size k.behind
  pub shorter : left k ≤ left l
  pub moves : l.position ≤ k.position

pub After-refl : (l : Lexer) → After l l
After-refl l = record { spells = refl; counts = refl; shorter = omega arith; moves = omega arith }

pub After-trans : (l k m : Lexer) → After l k → After k m → After l m
After-trans l k m a b = record {
  spells = b.spells ∙ a.spells;
  counts = omega (arith, a.counts, b.counts);
  shorter = omega (arith, a.shorter, b.shorter);
  moves = omega (arith, a.moves, b.moves);
}

advance-After : (t : Text) (l : Lexer) → l.ahead ≡ t → After l (advance t l)
unfolding advance
advance-After [] l e = After-refl l
advance-After (c ∷ cs) l e = record {
  spells = ap (spelled l.behind) (sym e);
  counts = omega arith;
  shorter = rw e (omega arith);
  moves = omega arith;
}

pub read_char-After : (l : Lexer) → After l (read_char l)
unfolding read_char
read_char-After l = advance-After l.ahead l refl

-- A code point more was read.
pub read-After : (l k : Lexer) → After (read_char l) k → After l k
read-After l k a = After-trans l (read_char l) k (read_char-After l) a

advance-lt : (t : Text) (l : Lexer) → l.ahead ≡ t → 0 < left l → left (advance t l) < left l
unfolding advance
advance-lt [] l e h = absurd (omega (arith, ap (λ (t : Text). length t) e))
advance-lt (c ∷ cs) l e h = rw e (omega arith)

pub read_char-lt : (l : Lexer) → 0 < left l → left (read_char l) < left l
unfolding read_char
read_char-lt l h = advance-lt l.ahead l refl h

first_pos : (t : Text) → (first t == 0) ≡ false → 0 < length t
first_pos [] h = ground arith
first_pos (c ∷ cs) h = omega arith

-- Where the current code point is not 0, the input has not ended.
pub ch_pos : (l : Lexer) → (ch l == 0) ≡ false → 0 < left l
ch_pos l h = first_pos l.ahead h

abbrev pub place : Lexer → Text × Text × ℕ
place l = (l.behind, l.ahead, l.position)

-- A change of the lexer's other fields leaves it where it stands.
pub same-After : (l k m : Lexer) → place m ≡ place k → After l k → After l m
same-After l k m e a = record {
  spells = ap (λ (c : Text × Text × ℕ). spelled c.0 c.1) e ∙ a.spells;
  counts = omega (
    arith,
    a.counts,
    ap (λ (c : Text × Text × ℕ). size c.0) e,
    ap (λ (c : Text × Text × ℕ). c.2) e,
  );
  shorter = omega (arith, a.shorter, ap (λ (c : Text × Text × ℕ). length c.1) e);
  moves = omega (arith, a.moves, ap (λ (c : Text × Text × ℕ). c.2) e);
}
