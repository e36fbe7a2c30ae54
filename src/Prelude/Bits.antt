-- ===== src/Prelude/Bits.antt =====
-- The bits of a machine word held as a native number: `word & (1 << i)`, `word | (1 << i)`,
-- `word &^ (1 << i)` and `word & (word - 1)`, with the laws that hold at variables.
use Prim.Native.Nat.{
  ℕ, zero, suc, ◌+◌, ◌-◌, ◌*◌, ◌/◌, ◌%◌, ◌^◌, ◌≤◌, ◌<◌, min, max, bit_and, bit_or, digits,
  bit_and-bitwise, bit_or-bitwise,
}
use mathlib.Core.Path.{◌≡◌, refl, sym, ap, ◌∙◌}
use mathlib.Core.Logic.{◌⊎◌, inl, inr}
use mathlib.Core.Bool.{Bool, true, false, not}
use native.Mathlib.Nat.{pow-suc, one-le-pow, eq-or-lt_of_le}
use native.Mathlib.Numerals.{add-one}
use native.Mathlib.Omega.{arith}
use slug.Prelude.Tests.{◌==◌, Bool-cases, if◌then◌else◌}

-- The recursion on binary digits that the native operations stand for: `base` is what is left when
-- the first word has run out, `op` joins two digits. More rounds than the word is large change nothing.
module _ (base : ℕ → ℕ) (op : ℕ → ℕ → ℕ) where
  one_more_round : (n a b : ℕ) → a ≤ n → digits base op (suc n) a b ≡ digits base op n a b
  one_more_round zero zero b h = refl
  one_more_round (suc n) zero b h = refl
  one_more_round zero (suc a) b h = absurd (omega arith)
  one_more_round (suc n) (suc a) b h =
      ap (λ t. t * 2 + op (suc a % 2) (b % 2)) (one_more_round n (suc a / 2) (b / 2) (omega arith))

  enough_rounds : (n a b : ℕ) → a ≤ n → digits base op n a b ≡ digits base op a a b
  enough_rounds zero a b h = let none_left : a ≡ 0 = omega arith in rw none_left
  enough_rounds (suc n) a b h = elim (eq-or-lt_of_le h) [
    | inl e ↦ rw e
    | inr lt ↦ let k : a ≤ n = omega arith in one_more_round n a b k ∙ enough_rounds n a b k
  ]

  -- The lowest digit apart.
  digits-suc :
      (a b : ℕ)
      → digits base op (suc a) (suc a) b
        ≡ digits base op (suc a / 2) (suc a / 2) (b / 2) * 2 + op (suc a % 2) (b % 2)
  digits-suc a b =
      ap (λ t. t * 2 + op (suc a % 2) (b % 2)) (enough_rounds a (suc a / 2) (b / 2) (omega arith))

bit_and_zero_left : (w : ℕ) → bit_and 0 w ≡ 0
bit_and_zero_left w = bit_and-bitwise 0 w

bit_or_zero_left : (w : ℕ) → bit_or 0 w ≡ w
bit_or_zero_left w = bit_or-bitwise 0 w

pub bit_and_halves : (v w : ℕ) → bit_and v w ≡ bit_and (v / 2) (w / 2) * 2 + min (v % 2) (w % 2)
bit_and_halves zero w = rw (bit_and_zero_left w) (omega (arith, bit_and_zero_left (w / 2)))
bit_and_halves (suc v) w =
    bit_and-bitwise (suc v) w
    ∙ digits-suc (λ b. zero) min v w
    ∙ ap (λ t. t * 2 + min (suc v % 2) (w % 2)) (sym (bit_and-bitwise (suc v / 2) (w / 2)))

pub bit_or_halves : (v w : ℕ) → bit_or v w ≡ bit_or (v / 2) (w / 2) * 2 + max (v % 2) (w % 2)
bit_or_halves zero w = rw (bit_or_zero_left w) (omega (arith, bit_or_zero_left (w / 2)))
bit_or_halves (suc v) w =
    bit_or-bitwise (suc v) w
    ∙ digits-suc (λ b. b) max v w
    ∙ ap (λ t. t * 2 + max (suc v % 2) (w % 2)) (sym (bit_or-bitwise (suc v / 2) (w / 2)))

-- With 0 on the right, by recursion on a bound of the word.
bit_and_zero_right : (n w : ℕ) → w ≤ n → bit_and w 0 ≡ 0
bit_and_zero_right zero w h = let e : w ≡ 0 = omega arith in rw e (bit_and_zero_left 0)
bit_and_zero_right (suc n) w h =
    omega (arith, bit_and_halves w 0, bit_and_zero_right n (w / 2) (omega arith))

bit_or_zero_right : (n w : ℕ) → w ≤ n → bit_or w 0 ≡ w
bit_or_zero_right zero w h = let e : w ≡ 0 = omega arith in rw e (bit_or_zero_left 0)
bit_or_zero_right (suc n) w h =
    omega (arith, bit_or_halves w 0, bit_or_zero_right n (w / 2) (omega arith))

-- Bit `i` of a word, by halving: the reference that the machine operations are read against.
pub bit : ℕ → ℕ → ℕ
bit zero w = w % 2
bit (suc i) w = bit i (w / 2)

pub bit_bound : (i w : ℕ) → bit i w ≤ 1
unfolding bit
bit_bound zero w = omega arith
bit_bound (suc i) w = bit_bound i (w / 2)

pub Bit-cases : (i w : ℕ) → (bit i w ≡ 0) ⊎ (bit i w ≡ 1)
Bit-cases i w = elim (eq-or-lt_of_le (bit_bound i w)) [ inl e ↦ inr e | inr h ↦ inl (omega arith) ]

-- `word & (1 << i) != 0`
unfoldable pub has_bit : ℕ → ℕ → Bool
has_bit w i = not (bit_and w (2 ^ i) == 0)

-- `word | (1 << i)`
unfoldable pub set_bit : ℕ → ℕ → ℕ
set_bit w i = bit_or w (2 ^ i)

-- `word &^ (1 << i)`
unfoldable pub clear_bit : ℕ → ℕ → ℕ
clear_bit w i = w - bit_and w (2 ^ i)

two_pow_half : (i : ℕ) → (2 ^ suc i / 2 ≡ 2 ^ i) × (2 ^ suc i % 2 ≡ 0)
two_pow_half i = (omega (arith, pow-suc 2 i), omega (arith, pow-suc 2 i))

bit_and-two_pow : (i w : ℕ) → bit_and w (2 ^ i) ≡ bit i w * 2 ^ i
unfolding bit
bit_and-two_pow zero w =
    omega (arith, bit_and_halves w 1, bit_and_zero_right (w / 2) (w / 2) (omega arith))
bit_and-two_pow (suc i) w =
    let (h, m) = two_pow_half i in
    bit_and_halves w (2 ^ suc i)
    ∙ rw (h, m, bit_and-two_pow i (w / 2))
        (omega (arith, ap (λ (t : ℕ). bit i (w / 2) * t) (pow-suc 2 i)))

pub has_bit_lem : (w i : ℕ) → has_bit w i ≡ (bit i w == 1)
unfolding has_bit
has_bit_lem w i =
    let p : 1 ≤ 2 ^ i = one-le-pow i 2 (omega arith) in
    elim (Bit-cases i w) [
      | inl e ↦ rw (bit_and-two_pow i w, e) (ground arith)
      | inr e ↦ rw (bit_and-two_pow i w, e) (ground arith)
    ]

set_bit_step : (i w : ℕ) → set_bit w (suc i) ≡ set_bit (w / 2) i * 2 + w % 2
unfolding set_bit
set_bit_step i w =
    let (h, m) = two_pow_half i in bit_or_halves w (2 ^ suc i) ∙ rw (h, m) (omega arith)

set_bit_lowest : (w : ℕ) → set_bit w 0 ≡ w / 2 * 2 + 1
unfolding set_bit
set_bit_lowest w = omega (arith, bit_or_halves w 1, bit_or_zero_right (w / 2) (w / 2) (omega arith))

pub bit-set_bit : (i j w : ℕ) → bit j (set_bit w i) ≡ (if i == j then 1 else bit j w)
unfolding bit
bit-set_bit zero zero w = omega (arith, set_bit_lowest w)
bit-set_bit zero (suc j) w =
    let e : set_bit w 0 / 2 ≡ w / 2 = omega (arith, set_bit_lowest w) in rw e (ground arith)
bit-set_bit (suc i) zero w = ground (arith, set_bit_step i w)
bit-set_bit (suc i) (suc j) w =
    let e : set_bit w (suc i) / 2 ≡ set_bit (w / 2) i = omega (arith, set_bit_step i w) in
    rw e (bit-set_bit i j (w / 2) ∙ ground arith)

bit_mul-le : (i w : ℕ) → bit i w * 2 ^ i ≤ w
unfolding bit
bit_mul-le zero w = omega arith
bit_mul-le (suc i) w =
    omega (arith, bit_mul-le i (w / 2), ap (λ (t : ℕ). bit i (w / 2) * t) (pow-suc 2 i))

clear_bit_step : (i w : ℕ) → clear_bit w (suc i) ≡ clear_bit (w / 2) i * 2 + w % 2
unfolding clear_bit
clear_bit_step i w =
    let (h, m) = two_pow_half i in
    let e : bit_and w (2 ^ suc i) ≡ bit_and (w / 2) (2 ^ i) * 2 =
      bit_and_halves w (2 ^ suc i) ∙ rw (h, m) (omega arith) in
    rw e (omega (arith, bit_and-two_pow i (w / 2), bit_mul-le i (w / 2)))

clear_bit_lowest : (w : ℕ) → clear_bit w 0 ≡ w / 2 * 2
unfolding clear_bit
clear_bit_lowest w =
    omega (arith, bit_and_halves w 1, bit_and_zero_right (w / 2) (w / 2) (omega arith))

pub bit-clear_bit : (i j w : ℕ) → bit j (clear_bit w i) ≡ (if i == j then 0 else bit j w)
unfolding bit
bit-clear_bit zero zero w = omega (arith, clear_bit_lowest w)
bit-clear_bit zero (suc j) w =
    let e : clear_bit w 0 / 2 ≡ w / 2 = omega (arith, clear_bit_lowest w) in rw e (ground arith)
bit-clear_bit (suc i) zero w = ground (arith, clear_bit_step i w)
bit-clear_bit (suc i) (suc j) w =
    let e : clear_bit w (suc i) / 2 ≡ clear_bit (w / 2) i = omega (arith, clear_bit_step i w) in
    rw e (bit-clear_bit i j (w / 2) ∙ ground arith)

pub bit_zero : (i : ℕ) → bit i 0 ≡ 0
unfolding bit
bit_zero zero = refl
bit_zero (suc i) = bit_zero i

pub has_bit-set_bit : (i j w : ℕ) → has_bit (set_bit w i) j ≡ (if i == j then true else has_bit w j)
has_bit-set_bit i j w =
    rw (has_bit_lem (set_bit w i) j, has_bit_lem w j, bit-set_bit i j w) (ground arith)

pub has_bit-clear_bit :
    (i j w : ℕ) → has_bit (clear_bit w i) j ≡ (if i == j then false else has_bit w j)
has_bit-clear_bit i j w =
    rw (has_bit_lem (clear_bit w i) j, has_bit_lem w j, bit-clear_bit i j w) (ground arith)

pub has_bit-zero : (i : ℕ) → has_bit 0 i ≡ false
has_bit-zero i = rw (has_bit_lem 0 i, bit_zero i) (refl)

pub set_bit-lt : (n i w : ℕ) → i < n → w < 2 ^ n → set_bit w i < 2 ^ n
set_bit-lt zero i w h b = absurd (omega arith)
set_bit-lt (suc n) zero w h b = omega (arith, set_bit_lowest w, pow-suc 2 n)
set_bit-lt (suc n) (suc i) w h b = omega (
  arith,
  set_bit_step i w,
  set_bit-lt n i (w / 2) (omega arith) (omega (arith, pow-suc 2 n)),
  pow-suc 2 n,
)

pub clear_bit-le : (i w : ℕ) → clear_bit w i ≤ w
unfolding clear_bit
clear_bit-le i w = omega arith

-- A word with no bit among the first `n`, and below `2 ^ n`, is 0.
pub no_bit : (n w : ℕ) → w < 2 ^ n → ((i : ℕ) → i < n → bit i w ≡ 0) → w ≡ 0
unfolding bit
no_bit zero w h z = omega arith
no_bit (suc n) w h z =
    let half : w / 2 ≡ 0 =
      no_bit n (w / 2) (omega (arith, pow-suc 2 n)) (λ i p. z (suc i) (omega arith)) in
    omega (arith, z 0 (omega arith))

-- `word & (word - 1)`
unfoldable pub drop_lowest : ℕ → ℕ
drop_lowest w = bit_and w (w - 1)

-- The count of trailing zero bits of an `n`-bit word, and `n` for the word 0.
pub trailing_zeros : ℕ → ℕ → ℕ
trailing_zeros zero w = 0
trailing_zeros (suc n) w = if w % 2 == 1 then 0 else trailing_zeros n (w / 2) + 1

pub bit-trailing_zeros : (n w : ℕ) → 0 < w → w < 2 ^ n → bit (trailing_zeros n w) w ≡ 1
unfolding bit trailing_zeros
bit-trailing_zeros zero w p h = absurd (omega arith)
bit-trailing_zeros (suc n) w p h = elim (Bool-cases (w % 2 == 1)) [
  | inl e ↦ rw e (ground arith)
  | inr e ↦
      rw e (rw add-one (bit-trailing_zeros n (w / 2) (ground arith) (omega (arith, pow-suc 2 n))))
]

pub trailing_zeros-lt : (n w : ℕ) → 0 < w → w < 2 ^ n → trailing_zeros n w < n
unfolding trailing_zeros
trailing_zeros-lt zero w p h = absurd (omega arith)
trailing_zeros-lt (suc n) w p h = ground (arith, pow-suc 2 n, trailing_zeros-lt n (w / 2))

bit_and_idem : (n w : ℕ) → w ≤ n → bit_and w w ≡ w
bit_and_idem n zero h = bit_and_zero_left 0
bit_and_idem zero (suc w) h = absurd (omega arith)
bit_and_idem (suc n) (suc w) h =
    omega (arith, bit_and_halves (suc w) (suc w), bit_and_idem n (suc w / 2) (omega arith))

-- Dropping the lowest set bit, digit by digit.
pub drop_lowest_step :
    (w : ℕ) → 0 < w → drop_lowest w ≡ (if w % 2 == 1 then w / 2 * 2 else drop_lowest (w / 2) * 2)
unfolding drop_lowest
drop_lowest_step w p = elim (Bool-cases (w % 2 == 1)) [
  | inl e ↦
      let odd : w % 2 ≡ 1 = ground arith in
      let half : (w - 1) / 2 ≡ w / 2 = omega arith in
      rw e (
        bit_and_halves w (w - 1)
        ∙ rw half (omega (arith, bit_and_idem (w / 2) (w / 2) (omega arith))))
  | inr e ↦
      let even : w % 2 ≡ 0 = ground arith in
      let half : (w - 1) / 2 ≡ w / 2 - 1 = omega arith in
      rw e (bit_and_halves w (w - 1) ∙ rw half (omega arith))
]

-- The loop `bm &= bm - 1` clears the bit that `TrailingZeros32` reports.
pub drop_lowest-clear_bit :
    (n w : ℕ) → 0 < w → w < 2 ^ n → drop_lowest w ≡ clear_bit w (trailing_zeros n w)
unfolding trailing_zeros
drop_lowest-clear_bit zero w p h = absurd (omega arith)
drop_lowest-clear_bit (suc n) w p h = elim (Bool-cases (w % 2 == 1)) [
  | inl e ↦ rw e (drop_lowest_step w p ∙ rw e (sym (clear_bit_lowest w)))
  | inr e ↦
      rw (e, add-one)
        (drop_lowest_step w p
          ∙ rw e (
              rw
                (
                  clear_bit_step (trailing_zeros n (w / 2)) w,
                  drop_lowest-clear_bit n (w / 2) (ground arith) (omega (arith, pow-suc 2 n)),
                )
                (ground arith)))
]

-- Where `word & (word - 1)` is 0, the lowest set bit is the only one.
pub only_bit :
    (n w i : ℕ)
    → 0 < w
    → w < 2 ^ n
    → drop_lowest w ≡ 0
    → has_bit w i ≡ true
    → trailing_zeros n w ≡ i
only_bit n w i p h d b =
    let low = trailing_zeros n w in
    let e : clear_bit w low ≡ 0 = sym (drop_lowest-clear_bit n w p h) ∙ d in
    let gone : has_bit (clear_bit w low) i ≡ false = rw e (has_bit-zero i) in
    ground (arith, has_bit-clear_bit low i w)

pub has_bit-trailing_zeros : (n w : ℕ) → 0 < w → w < 2 ^ n → has_bit w (trailing_zeros n w) ≡ true
has_bit-trailing_zeros n w p h =
    rw (has_bit_lem w (trailing_zeros n w), bit-trailing_zeros n w p h) refl

pub no_bit_set : (n w : ℕ) → w < 2 ^ n → ((i : ℕ) → i < n → has_bit w i ≡ false) → w ≡ 0
no_bit_set n w h z = no_bit n w h (λ i p. ground (arith, has_bit_lem w i, z i p, bit_bound i w))

bit-trailing_zeros-le : (n i w : ℕ) → bit i w ≡ 1 → trailing_zeros n w ≤ i
unfolding bit trailing_zeros
bit-trailing_zeros-le zero i w b = omega arith
bit-trailing_zeros-le (suc n) zero w b = ground arith
bit-trailing_zeros-le (suc n) (suc i) w b = ground (arith, bit-trailing_zeros-le n i (w / 2) b)

pub trailing_zeros-le : (n i w : ℕ) → has_bit w i ≡ true → trailing_zeros n w ≤ i
trailing_zeros-le n i w b = bit-trailing_zeros-le n i w (ground (arith, has_bit_lem w i))

pub drop_lowest-le : (n w : ℕ) → 0 < w → w < 2 ^ n → drop_lowest w ≤ w
drop_lowest-le n w p h = rw (drop_lowest-clear_bit n w p h) (clear_bit-le (trailing_zeros n w) w)
