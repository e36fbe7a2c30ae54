-- ===== src/Dec64.antt =====
-- internal/dec64/dec64.go, the format and the sums: decimal floats in 64 bits, a signed coefficient of 56 bits above a signed
-- exponent of 8. A value is its bit pattern, a number below 2 ^ 64; the machine integers of the code
-- are integers, wrapped where the code can overflow. A loop takes fuel that its comment accounts for.
pub mod Arith
pub mod Bitwise
pub mod Symmetry
pub mod Value
use slug.Prelude.{
  ℕ, zero, suc, ◌+◌, ◌-◌, ◌*◌, ◌/◌, ◌%◌, ◌^◌, Bool, true, false, not, ◌&&◌, ◌||◌, ltb, leb, ◌==◌,
  if◌then◌else◌,
}
use slug.Prelude.Int.{ℤ, pos, negsuc, pos_part, ◌+ℤ◌, ◌-ℤ◌, ◌*ℤ◌}
use slug.Prelude.Machine.{
  residue, signed, int64, int8, mag, is_neg, neg, quot, rem, minus, xor, ◌<?◌, ◌==ℤ◌,
}

abbrev pub Dec64 : Type 0
Dec64 = ℕ

abbrev pub max_coeff : ℤ
max_coeff = pos 0x7f_ffff_ffff_ffff

abbrev pub min_coeff : ℤ
min_coeff = neg max_coeff

abbrev pub zero_dec : Dec64
zero_dec = 0

abbrev pub nan : Dec64
nan = 0x80

-- `(coef << 8) | int64(uint8(exp))`: the low 8 bits of the left part are 0.
unfoldable pub new : ℤ → ℤ → Dec64
new coef exp = residue (2 ^ 56) coef * 256 + residue 256 exp

-- `int64(a) >> 8`
unfoldable pub coefficient : Dec64 → ℤ
coefficient a = signed (2 ^ 56) (a / 256)

-- `int8(a & 0xFF)`
unfoldable pub exponent : Dec64 → ℤ
exponent a = signed 256 (a % 256)

unfoldable pub is_nan : Dec64 → Bool
unfolding exponent
is_nan a = exponent a ==ℤ negsuc 127

unfoldable pub is_zero : Dec64 → Bool
unfolding coefficient is_nan
is_zero a = coefficient a ==ℤ pos 0 && not (is_nan a)

unfoldable pub abs64 : ℤ → ℤ
unfolding int64
abs64 v = if v <? pos 0 then int64 (neg v) else v

-- The product wraps from n = 19 on.
unfoldable pub pow10 : ℕ → ℤ
unfolding int64
pow10 zero = pos 1
pow10 (suc n) = int64 (pow10 n *ℤ pos 10)

-- `coef > MAX_COEFF || coef < MIN_COEFF`
unfoldable pub out_of_range : ℤ → Bool
out_of_range coef = max_coeff <? coef || coef <? min_coeff

-- A coefficient with its exponent, between two loops of normalizeTowardZero.
pub record Parts : Type 0 where
  pub coef : ℤ
  pub exp : ℤ

abbrev pub parts : ℤ → ℤ → Parts
parts c e = record { coef = c; exp = e }

-- `for (coef > MAX_COEFF || coef < MIN_COEFF) && exp < 127`: an int64 has 19 digits.
unfoldable pub shrink : ℕ → ℤ → ℤ → Parts
shrink zero coef exp = parts coef exp
shrink (suc f) coef exp =
    let rest = shrink f (quot coef (pos 10)) (int8 (exp +ℤ pos 1)) in
    if out_of_range coef && exp <? pos 127 then rest else parts coef exp

-- `for coef%10 == 0`, on a coefficient that is not 0 and has 17 digits at most.
unfoldable pub strip : ℕ → ℤ → ℤ → Parts
unfolding quot rem int8
strip zero coef exp = parts coef exp
strip (suc f) coef exp =
    let rest = strip f (quot coef (pos 10)) (int8 (exp +ℤ pos 1)) in
    if rem coef (pos 10) ==ℤ pos 0 then rest else parts coef exp

-- `for exp < 0 && coef%10 == 0`
unfoldable pub strip_fraction : ℕ → ℤ → ℤ → Parts
unfolding quot rem int8
strip_fraction zero coef exp = parts coef exp
strip_fraction (suc f) coef exp =
    let rest = strip_fraction f (quot coef (pos 10)) (int8 (exp +ℤ pos 1)) in
    if exp <? pos 0 && rem coef (pos 10) ==ℤ pos 0 then rest else parts coef exp

-- `for exp > 0 && coef < MAX_COEFF/10`, entered with an exponent below 16.
unfoldable pub grow : ℕ → ℤ → ℤ → Parts
unfolding int64 int8 quot
grow zero coef exp = parts coef exp
grow (suc f) coef exp =
    let rest = grow f (int64 (coef *ℤ pos 10)) (int8 (exp -ℤ pos 1)) in
    if pos 0 <? exp && coef <? quot max_coeff (pos 10) then rest else parts coef exp

-- The rounds that the loops may take.
abbrev pub digit_fuel : ℕ
digit_fuel = 20

-- The `if` over `maxDigits`.
unfoldable pub strip_large : Parts → Parts
strip_large p = if not (abs64 p.coef <? pow10 16) then strip digit_fuel p.coef p.exp else p

-- The last `if` of normalizeTowardZero.
unfoldable pub balance : Parts → Parts
balance p =
    if p.exp <? pos 0
    then strip_fraction digit_fuel p.coef p.exp
    else (if pos 0 <? p.exp && p.exp <? pos 16 then grow digit_fuel p.coef p.exp else p)

unfoldable pub normalize_toward_zero : ℤ → ℤ → Dec64
normalize_toward_zero coef exp =
    let small = shrink digit_fuel coef exp in
    let out = balance (strip_large small) in
    if coef ==ℤ pos 0
    then zero_dec
    else (if out_of_range small.coef then nan else new out.coef out.exp)

unfoldable pub normalize : Dec64 → Dec64
normalize a = normalize_toward_zero (coefficient a) (exponent a)

-- The loop `for i := 0; i < shift; i++ { c *= 10 }`; a negative shift makes no round.
unfoldable pub scale_up : ℕ → ℤ → ℤ
unfolding int64
scale_up zero c = c
scale_up (suc n) c = scale_up n (int64 (c *ℤ pos 10))

-- The rounds of `shift := int(ea - eb)`: the difference of two int8 is an int8.
unfoldable pub shift_rounds : ℤ → ℤ → ℕ
unfolding int8
shift_rounds ea eb = pos_part (int8 (ea -ℤ eb))

pub record Aligned : Type 0 where
  pub left : ℤ
  pub right : ℤ
  pub exp : ℤ

unfoldable pub normalize_pair : Dec64 → Dec64 → Aligned
normalize_pair a b =
    let ea = exponent a in
    let eb = exponent b in
    let ca = coefficient a in
    let cb = coefficient b in
    if eb <? ea
    then record { left = scale_up (shift_rounds ea eb) ca; right = cb; exp = eb }
    else (if ea <? eb
        then record { left = ca; right = scale_up (shift_rounds eb ea) cb; exp = ea }
        else record { left = ca; right = cb; exp = ea })

unfoldable pub add : Dec64 → Dec64 → Dec64
add a b = let p = normalize_pair a b in normalize_toward_zero (int64 (p.left +ℤ p.right)) p.exp

unfoldable pub negate : Dec64 → Dec64
negate a = new (int64 (neg (coefficient a))) (exponent a)

unfoldable pub sub : Dec64 → Dec64 → Dec64
sub a b = add a (negate b)

-- -1, 0 or 1.
unfoldable pub cmp : Dec64 → Dec64 → ℤ
unfolding normalize_pair
cmp a b =
    let p = normalize_pair a b in
    if p.left <? p.right then negsuc 0 else (if p.right <? p.left then pos 1 else pos 0)

unfoldable pub eq : Dec64 → Dec64 → Bool
unfolding cmp
eq a b = cmp a b ==ℤ pos 0

unfoldable pub neq : Dec64 → Dec64 → Bool
unfolding cmp
neq a b = not (cmp a b ==ℤ pos 0)

unfoldable pub lt : Dec64 → Dec64 → Bool
unfolding cmp
lt a b = cmp a b ==ℤ negsuc 0

unfoldable pub lte : Dec64 → Dec64 → Bool
unfolding cmp
lte a b = not (pos 0 <? cmp a b)

unfoldable pub gt : Dec64 → Dec64 → Bool
unfolding cmp
gt a b = cmp a b ==ℤ pos 1

unfoldable pub gte : Dec64 → Dec64 → Bool
unfolding cmp
gte a b = not (cmp a b <? pos 0)

unfoldable pub abs : Dec64 → Dec64
unfolding coefficient exponent new int64
abs a =
    let coef = coefficient a in new (if coef <? pos 0 then int64 (neg coef) else coef) (exponent a)
