-- ===== src/Prelude/Machine.antt =====
-- Go's signed integers of a width of `w` bits: `m` is 2 ^ w. An integer operation of Go is the
-- operation on ℤ followed by `wrap m`.
use Prim.Native.Nat.{ℕ, zero, suc, ◌+◌, ◌-◌, ◌/◌, ◌%◌, ◌^◌, ◌≤◌, ◌<◌}
use mathlib.Core.Path.{◌≡◌}
use mathlib.Core.Bool.{Bool, true, false, not}
use native.Mathlib.Omega.{arith}
use slug.Prelude.Tests.{ltb, ◌==◌, if◌then◌else◌}
use slug.Prelude.Int.{ℤ, pos, negsuc, pos_part, neg_part}

-- The bit pattern of an integer, as a number below `m`.
abbrev pub residue : ℕ → ℤ → ℕ
residue m (pos n) = n % m
residue m (negsuc n) = m - 1 - n % m

-- The integer that a bit pattern stands for.
abbrev pub signed : ℕ → ℕ → ℤ
signed m r = if ltb r (m / 2) then pos r else negsuc (m - r - 1)

abbrev pub wrap : ℕ → ℤ → ℤ
wrap m z = signed m (residue m z)

unfoldable pub int64 : ℤ → ℤ
int64 z = wrap (2 ^ 64) z

unfoldable pub int8 : ℤ → ℤ
int8 z = wrap 256 z

abbrev pub Fits64 : ℤ → Type 0
Fits64 z = (pos_part z < 2 ^ 63) × (neg_part z ≤ 2 ^ 63)

abbrev pub Fits8 : ℤ → Type 0
Fits8 z = (pos_part z < 128) × (neg_part z ≤ 128)

pub int64_id : (z : ℤ) → Fits64 z → int64 z ≡ z
unfolding int64
int64_id (pos n) h = ground arith
int64_id (negsuc n) h = ground arith

pub int8_id : (z : ℤ) → Fits8 z → int8 z ≡ z
unfolding int8
int8_id (pos n) h = ground arith
int8_id (negsuc n) h = ground arith

pub int64-Fits64 : (z : ℤ) → Fits64 (int64 z)
unfolding int64
int64-Fits64 (pos n) = ground arith
int64-Fits64 (negsuc n) = ground arith

pub int8-Fits8 : (z : ℤ) → Fits8 (int8 z)
unfolding int8
int8-Fits8 (pos n) = ground arith
int8-Fits8 (negsuc n) = ground arith

-- The magnitude and the sign, and an integer with these.
abbrev pub mag : ℤ → ℕ
mag (pos n) = n
mag (negsuc n) = suc n

abbrev pub is_neg : ℤ → Bool
is_neg (pos n) = false
is_neg (negsuc n) = true

abbrev pub minus : ℕ → ℤ
minus zero = pos 0
minus (suc n) = negsuc n

abbrev pub with_sign : Bool → ℕ → ℤ
with_sign true n = minus n
with_sign false n = pos n

-- `-z`, before wrapping.
abbrev pub neg : ℤ → ℤ
neg (pos n) = minus n
neg (negsuc n) = pos (suc n)

abbrev pub xor : Bool → Bool → Bool
xor true b = not b
xor false b = b

-- Division and remainder of Go: toward zero, the remainder with the sign of the dividend.
unfoldable pub quot : ℤ → ℤ → ℤ
quot a b = with_sign (xor (is_neg a) (is_neg b)) (mag a / mag b)

unfoldable pub rem : ℤ → ℤ → ℤ
rem a b = with_sign (is_neg a) (mag a % mag b)

infix 50 ◌<?◌ ◌==ℤ◌
abbrev pub ◌<?◌ : ℤ → ℤ → Bool
a <? b = ltb (pos_part a + neg_part b) (pos_part b + neg_part a)

abbrev pub ◌==ℤ◌ : ℤ → ℤ → Bool
a ==ℤ b = pos_part a + neg_part b == pos_part b + neg_part a
