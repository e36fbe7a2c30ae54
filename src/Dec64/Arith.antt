-- ===== src/Dec64/Arith.antt =====
-- internal/dec64/dec64.go: products, quotients, remainders, extremes and conversions from integers.
use slug.Prelude.{
  ℕ, zero, suc, ◌+◌, ◌-◌, ◌*◌, ◌/◌, ◌^◌, Bool, true, false, not, ◌&&◌, ◌||◌, ltb, leb, ◌==◌,
  if◌then◌else◌, Option, none, some, List, [], ◌∷◌,
}
use slug.Prelude.Int.{ℤ, pos, pos_part, ◌+ℤ◌, ◌-ℤ◌}
use slug.Prelude.Machine.{int64, int8, mag, is_neg, neg, quot, rem, with_sign, xor, ◌<?◌, ◌==ℤ◌}
use slug.Dec64.{
  Dec64, max_coeff, zero_dec, nan, coefficient, exponent, is_nan, is_zero, pow10,
  normalize_toward_zero, normalize_pair, shrink, digit_fuel, gt, lt,
}

unfoldable pub from_int64 : ℤ → Dec64
from_int64 coef =
    let small = shrink digit_fuel coef (pos 0) in
    if coef ==ℤ pos 0 then zero_dec else normalize_toward_zero small.coef small.exp

abbrev pub max_int64 : ℕ
max_int64 = 2 ^ 63 - 1

-- The magnitudes of the factors and the exponent, in the loop of Mul.
pub record Factors : Type 0 where
  pub ua : ℕ
  pub ub : ℕ
  pub exp : ℤ

-- `for ua > maxInt64/ub`: each round drops a digit of the larger factor, and a coefficient has 17.
-- Both magnitudes are positive, and a dropped digit leaves them so.
unfoldable pub drop_digits : ℕ → ℕ → ℕ → ℤ → Factors
drop_digits zero ua ub exp = record { ua = ua; ub = ub; exp = exp }
drop_digits (suc f) ua ub exp =
    let rest =
      drop_digits f (if leb ub ua then ua / 10 else ua) (if leb ub ua then ub else ub / 10)
        (exp +ℤ pos 1) in
    if ltb (max_int64 / ub) ua then rest else record { ua = ua; ub = ub; exp = exp }

unfoldable pub mul : Dec64 → Dec64 → Dec64
mul a b =
    let ca = coefficient a in
    let cb = coefficient b in
    let p = drop_digits 40 (mag ca) (mag cb) (int8 (exponent a +ℤ exponent b)) in
    if ca ==ℤ pos 0 || cb ==ℤ pos 0
    then zero_dec
    else normalize_toward_zero (int64 (with_sign (xor (is_neg ca) (is_neg cb)) (p.ua * p.ub)))
        (int8 p.exp)

pub data RoundingMode : Type 0 where
  round_half_up round_half_even round_down round_up : RoundingMode

-- The loop of scaleForDiv, by the rounds left of `requestedP`: the scaled magnitude and `p`.
unfoldable pub scale_steps : ℕ → ℕ → ℕ → ℕ → ℕ × ℕ
scale_steps zero acb cur p = (cur, p)
scale_steps (suc rounds) acb cur p =
    let rest = scale_steps rounds acb (cur * 10) (p + 1) in
    if ltb (max_int64 / 10) cur || ltb (mag max_coeff) (cur * 10 / acb) then (cur, p) else rest

-- The divisor of scaleForDiv is not 0, and the magnitude of a coefficient is no negative int64.
unfoldable pub scale_for_div : ℤ → ℤ → ℕ → ℤ × ℕ
unfolding scale_steps
scale_for_div ca cb requested =
    let (cur, p) = scale_steps requested (mag cb) (mag ca) 0 in
    if ca ==ℤ pos 0 || requested == 0
    then (ca, 0)
    else (with_sign (xor (is_neg ca) (is_neg cb)) cur, p)

-- Whether the quotient moves away from zero, for a remainder that is not 0.
unfoldable pub rounds_away : RoundingMode → ℤ → ℤ → ℤ → Bool
unfolding rem
rounds_away RoundingMode.round_half_up quotient remainder cb = leb (mag cb) (mag remainder * 2)
rounds_away RoundingMode.round_half_even quotient remainder cb =
    ltb (mag cb) (mag remainder * 2)
    || (mag remainder * 2 == mag cb && not (rem quotient (pos 2) ==ℤ pos 0))
rounds_away RoundingMode.round_down quotient remainder cb = false
rounds_away RoundingMode.round_up quotient remainder cb = true

-- `(caScaled > 0) == (cb > 0)` picks `quotient++` or `quotient--`.
unfoldable pub round_quotient : RoundingMode → ℤ → ℤ → ℤ
unfolding rounds_away quot rem
round_quotient rounding scaled cb =
    let quotient = quot scaled cb in
    let remainder = rem scaled cb in
    if not (remainder ==ℤ pos 0) && rounds_away rounding quotient remainder cb
    then (if xor (pos 0 <? scaled) (pos 0 <? cb) then quotient -ℤ pos 1 else quotient +ℤ pos 1)
    else quotient

-- The precision is a natural number: the code raises a negative one to 0.
unfoldable pub div : Dec64 → Dec64 → ℕ → RoundingMode → Dec64
div a b precision rounding =
    let ca = coefficient a in
    let cb = coefficient b in
    let (scaled, used) = scale_for_div ca cb precision in
    if cb ==ℤ pos 0
    then nan
    else normalize_toward_zero (round_quotient rounding scaled cb)
        (int8 (exponent a -ℤ exponent b -ℤ int8 (pos used)))

-- `none` is the run-time panic of an integer division by zero.
unfoldable pub modulo : Dec64 → Dec64 → Option Dec64
modulo a b =
    let p = normalize_pair a b in
    if is_zero b
    then some nan
    else (if p.right ==ℤ pos 0
        then none
        else some (normalize_toward_zero (rem p.left p.right) p.exp))

-- `none` is the panic of `coef%divisor` with a divisor that wrapped to 0.
unfoldable pub is_float : Dec64 → Option Bool
unfolding coefficient exponent is_nan is_zero pow10 rem int8
is_float a =
    let exp = exponent a in
    let divisor = pow10 (pos_part (int8 (neg exp))) in
    if is_nan a || is_zero a
    then some false
    else (if not (exp <? pos 0)
        then some false
        else (if divisor ==ℤ pos 0
            then none
            else some (not (rem (coefficient a) divisor ==ℤ pos 0))))

-- The loop over `values[1:]`, with the test that the caller uses to prefer a new value.
unfoldable pub extreme : (Dec64 → Dec64 → Bool) → Dec64 → List Dec64 → Dec64
unfolding is_nan
extreme better best [] = best
extreme better best (v ∷ values) =
    let rest = extreme better (if better v best then v else best) values in
    if is_nan v then nan else rest

unfoldable pub max : List Dec64 → Dec64
unfolding extreme gt
max [] = nan
max (v ∷ values) = extreme gt v values

unfoldable pub min : List Dec64 → Dec64
unfolding extreme lt
min [] = nan
min (v ∷ values) = extreme lt v values
