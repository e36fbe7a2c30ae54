-- ===== src/Dec64/Bitwise.antt =====
-- internal/dec64/dec64.go: the bitwise operations, on integers with exponent 0. A coefficient is
-- taken by its two's complement pattern of 64 bits, and a result outside the coefficients is NaN.
use Prim.Native.Nat.{bit_and, bit_or, bit_xor}
use slug.Prelude.{ℕ, suc, ◌-◌, ◌*◌, ◌/◌, ◌^◌, Bool, not, ◌&&◌, ◌||◌, if◌then◌else◌}
use slug.Prelude.Int.{ℤ, pos, negsuc}
use slug.Prelude.Machine.{residue, signed, int64, mag, ◌<?◌, ◌==ℤ◌}
use slug.Dec64.{Dec64, nan, new, coefficient, exponent, is_nan, out_of_range}

-- Not a NaN, and of exponent 0.
unfoldable pub is_integer : Dec64 → Bool
unfolding is_nan exponent
is_integer a = not (is_nan a || not (exponent a ==ℤ pos 0))

-- `if c > MAX_COEFF || c < MIN_COEFF { return NAN }; return New(c, 0)`
unfoldable pub checked : ℤ → Dec64
unfolding out_of_range
checked c = if out_of_range c then nan else new c (pos 0)

-- A bit operation on two int64.
abbrev pub on_patterns : (ℕ → ℕ → ℕ) → ℤ → ℤ → ℤ
on_patterns op a b = signed (2 ^ 64) (op (residue (2 ^ 64) a) (residue (2 ^ 64) b))

abbrev pub bitwise : (ℕ → ℕ → ℕ) → Dec64 → Dec64 → Dec64
bitwise op a b =
    if is_integer a && is_integer b
    then checked (on_patterns op (coefficient a) (coefficient b))
    else nan

unfoldable pub and : Dec64 → Dec64 → Dec64
unfolding is_integer checked coefficient
and = bitwise bit_and

unfoldable pub or : Dec64 → Dec64 → Dec64
unfolding is_integer checked coefficient
or = bitwise bit_or

unfoldable pub xor : Dec64 → Dec64 → Dec64
unfolding is_integer checked coefficient
xor = bitwise bit_xor

-- `^c` is `-c - 1`.
abbrev pub complement : ℤ → ℤ
complement (pos n) = negsuc n
complement (negsuc n) = pos n

unfoldable pub not_dec : Dec64 → Dec64
unfolding is_integer checked coefficient
not_dec a = if is_integer a then checked (complement (coefficient a)) else nan

-- `c << shift` and `c >> shift` on an int64: the first wraps, the second rounds down.
abbrev pub shl : ℤ → ℕ → ℤ
shl (pos n) k = int64 (pos (n * 2 ^ k))
shl (negsuc n) k = int64 (negsuc (suc n * 2 ^ k - 1))

abbrev pub shr : ℤ → ℕ → ℤ
shr (pos n) k = pos (n / 2 ^ k)
shr (negsuc n) k = negsuc (n / 2 ^ k)

-- A shift count below 0 or above 62 gives NaN.
abbrev pub shifted : (ℤ → ℕ → ℤ) → Dec64 → Dec64 → Dec64
shifted op a n =
    let shift = coefficient n in
    if is_integer a && is_integer n
    then (if shift <? pos 0 || pos 62 <? shift
        then nan
        else checked (op (coefficient a) (mag shift)))
    else nan

unfoldable pub shift_left : Dec64 → Dec64 → Dec64
unfolding is_integer checked coefficient int64
shift_left = shifted shl

unfoldable pub shift_right : Dec64 → Dec64 → Dec64
unfolding is_integer checked coefficient
shift_right = shifted shr
