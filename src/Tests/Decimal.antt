-- ===== src/Tests/Decimal.antt =====
-- Decimals at fixed inputs: the laws at inputs that meet their hypotheses.
use slug.Prelude.{◌≡◌, refl, true, arith, inr, none}
use slug.Prelude.Int.{negsuc, ◌*ℤ◌, ◌+ℤ◌, ◌-ℤ◌}
use slug.Prelude.Machine.{is_neg, int64, int8, quot, rem}
use slug.Dec64.{
  Dec64, new, coefficient, exponent, normalize_toward_zero, add, shrink, strip, strip_fraction,
  grow, strip_large, balance, out_of_range, abs64, pow10, normalize_pair, scale_up, shift_rounds,
  nan, is_zero, is_nan,
}
use slug.Dec64.Arith.{
  mul, drop_digits, div, modulo, RoundingMode, scale_for_div, scale_steps, round_quotient,
  rounds_away,
}
use slug.Dec64.Symmetry.{add_comm, mul_commutes, AreConsistent, comparisons-AreConsistent}
use slug.Dec64.Value.{scaled, normalize_exact}

abbrev twelve_tenths : Dec64
twelve_tenths = 0xcff

abbrev three : Dec64
three = 0x300

sum : add twelve_tenths three ≡ 0x2aff
unfolding add normalize_pair exponent coefficient scale_up shift_rounds int8 int64
    normalize_toward_zero shrink out_of_range strip_large strip abs64 pow10 balance strip_fraction
    grow quot rem new ◌*ℤ◌ ◌+ℤ◌ ◌-ℤ◌
sum = refl

product : mul twelve_tenths three ≡ 0x24ff
unfolding mul drop_digits exponent coefficient int8 int64 normalize_toward_zero shrink out_of_range
    strip_large strip abs64 pow10 balance strip_fraction grow quot rem new ◌*ℤ◌ ◌+ℤ◌ ◌-ℤ◌
product = refl

-- 6 / -2 at precision 2 is 3.
sign_of_quotient : div 0x600 0xffff_ffff_ffff_fe00 2 RoundingMode.round_half_up ≡ 0x300
unfolding div scale_for_div scale_steps round_quotient rounds_away exponent coefficient int8 int64
    normalize_toward_zero shrink out_of_range strip_large strip abs64 pow10 balance strip_fraction
    grow quot rem new ◌*ℤ◌ ◌+ℤ◌ ◌-ℤ◌
sign_of_quotient = refl

-- 1 % NaN divides by the coefficient of NaN.
remainder_by_nan : modulo 0x100 nan ≡ none
unfolding modulo is_zero is_nan exponent coefficient normalize_pair scale_up shift_rounds int8 int64
    rem ◌*ℤ◌ ◌-ℤ◌
remainder_by_nan = refl

add_comm_example : add twelve_tenths three ≡ add three twelve_tenths
add_comm_example = add_comm twelve_tenths three

mul_commutes_example : mul twelve_tenths three ≡ mul three twelve_tenths
mul_commutes_example = mul_commutes twelve_tenths three

comparisons-AreConsistent_example : AreConsistent twelve_tenths three
comparisons-AreConsistent_example = comparisons-AreConsistent twelve_tenths three

normalize_exact_example :
    let w = normalize_toward_zero (negsuc 1199) (negsuc 2) in
    (scaled (coefficient w) (exponent w) ≡ scaled (negsuc 1199) (negsuc 2))
    × (is_neg (coefficient w) ≡ true)
normalize_exact_example =
    normalize_exact (negsuc 1199) (negsuc 2) (omega arith, omega arith) (omega arith) (omega arith)
      (inr (omega arith, omega arith))
