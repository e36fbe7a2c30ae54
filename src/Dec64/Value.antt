-- ===== src/Dec64/Value.antt =====
-- The number that coefficient and exponent stand for, and that normalizeTowardZero keeps it: the
-- sign, and the magnitude times a power of ten, with the exponents counted from -128.
use slug.Prelude.{
  ℕ, zero, suc, ◌+◌, ◌-◌, ◌*◌, ◌/◌, ◌%◌, ◌^◌, ◌<◌, ◌≤◌, ◌≡◌, ◌⊎◌, refl, sym, ◌∙◌, ap, true, false,
  not, ◌&&◌, arith, Bool-cases, inl, inr,
}
use native.Mathlib.Nat.{mod-lt, pow-suc, mul_comm, mul_assoc}
use slug.Prelude.Int.{ℤ, pos, negsuc, ◌+ℤ◌, ◌-ℤ◌, ◌*ℤ◌}
use slug.Prelude.Machine.{
  minus, int64, int8, mag, is_neg, quot, rem, ◌<?◌, ◌==ℤ◌, Fits8, residue, signed,
}
use slug.Dec64.{
  new, coefficient, exponent, Parts, parts, shrink, strip, strip_fraction, grow, strip_large,
  balance, normalize_toward_zero, out_of_range, max_coeff, digit_fuel, abs64, pow10,
}

-- The exponent, counted from the least one.
abbrev pub offset : ℤ → ℕ
offset (pos n) = n + 128
offset (negsuc n) = 127 - n

-- The magnitude of coef × 10^exp, times 10^128.
abbrev pub scaled : ℤ → ℤ → ℕ
scaled coef exp = mag coef * 10 ^ offset exp

-- A coefficient fits the 56 bits, without the least pattern.
abbrev pub IsCoefficient : ℤ → Type 0
IsCoefficient c = mag c < 2 ^ 55

residue-lt : (m : ℕ) (z : ℤ) → 0 < m → residue m z < m
residue-lt m (pos n) h = mod-lt n h
residue-lt m (negsuc n) h = omega arith

signed-residue : (c : ℤ) → IsCoefficient c → signed (2 ^ 56) (residue (2 ^ 56) c) ≡ c
signed-residue (pos n) h = ground arith
signed-residue (negsuc n) h = ground arith

signed-residue8 : (e : ℤ) → Fits8 e → signed 256 (residue 256 e) ≡ e
signed-residue8 (pos n) h = ground arith
signed-residue8 (negsuc n) h = ground arith

pub coefficient-new : (c e : ℤ) → IsCoefficient c → coefficient (new c e) ≡ c
unfolding coefficient new
coefficient-new c e h =
    let high : (residue (2 ^ 56) c * 256 + residue 256 e) / 256 ≡ residue (2 ^ 56) c =
      omega (arith, residue-lt 256 e (omega arith)) in
    rw high (signed-residue c h)

pub exponent-new : (c e : ℤ) → Fits8 e → exponent (new c e) ≡ e
unfolding exponent new
exponent-new c e h =
    let low : (residue (2 ^ 56) c * 256 + residue 256 e) % 256 ≡ residue 256 e =
      omega (arith, residue-lt 256 e (omega arith)) in
    rw low (signed-residue8 e h)

next_exp :
    (e : ℤ)
    → Fits8 e
    → offset e < 255
    → (offset (int8 (e +ℤ pos 1)) ≡ suc (offset e)) × Fits8 (int8 (e +ℤ pos 1))
unfolding int8 ◌+ℤ◌
next_exp e f l = ground arith

previous_exp :
    (e : ℤ)
    → Fits8 e
    → (pos 0 <? e) ≡ true
    → (suc (offset (int8 (e -ℤ pos 1))) ≡ offset e) × Fits8 (int8 (e -ℤ pos 1))
unfolding int8 ◌-ℤ◌
previous_exp e f l = ground arith

minus_parts : (k : ℕ) → 0 < k → (mag (minus k) ≡ k) × (is_neg (minus k) ≡ true)
minus_parts zero h = absurd (omega arith)
minus_parts (suc k) h = (refl, refl)

minus_zero : (k : ℕ) → (minus k ==ℤ pos 0) ≡ true → k ≡ 0
minus_zero zero h = refl
minus_zero (suc k) h = ground arith

tenth :
    (c : ℤ)
    → (rem c (pos 10) ==ℤ pos 0) ≡ true
    → (mag (quot c (pos 10)) * 10 ≡ mag c) × (is_neg (quot c (pos 10)) ≡ is_neg c)
unfolding quot rem
tenth (pos n) h = (ground arith, refl)
tenth (negsuc n) h =
    let none_left : suc n % 10 ≡ 0 = minus_zero (suc n % 10) h in
    let k = minus_parts (suc n / 10) (omega arith) in (rw k.0 (omega arith), k.1)

-- What a loop keeps of the number that it was given.
pub record IsSame (c e : ℤ) (p : Parts) : Type 0 where
  pub value : scaled p.coef p.exp ≡ scaled c e
  pub sign : is_neg p.coef ≡ is_neg c
  pub exp_fits : Fits8 p.exp
  pub coef_fits : IsCoefficient p.coef

power_shift : (m k : ℕ) → m * 10 ^ suc k ≡ m * 10 * 10 ^ k
power_shift m k =
    ap (λ t. m * t) (pow-suc 10 k ∙ mul_comm (10 ^ k) 10) ∙ sym (mul_assoc m 10 (10 ^ k))

-- One round of a loop that drops a zero digit.
tenth-IsSame :
    (c e c₀ e₀ : ℤ)
    → offset e < 255
    → (rem c (pos 10) ==ℤ pos 0) ≡ true
    → IsSame c₀ e₀ (parts c e)
    → IsSame c₀ e₀ (parts (quot c (pos 10)) (int8 (e +ℤ pos 1)))
tenth-IsSame c e c₀ e₀ l h s =
    let (m, g) = tenth c h in
    let (o, f) = next_exp e s.exp_fits l in
    record {
      value =
          rw o (power_shift (mag (quot c (pos 10))) (offset e))
          ∙ ap (λ t. t * 10 ^ offset e) m
          ∙ s.value;
      sign = g ∙ s.sign;
      exp_fits = f;
      coef_fits = omega (arith, s.coef_fits, m);
    }

strip_fraction-IsSame :
    (f : ℕ) (c e c₀ e₀ : ℤ) → IsSame c₀ e₀ (parts c e) → IsSame c₀ e₀ (strip_fraction f c e)
unfolding strip_fraction
strip_fraction-IsSame zero c e c₀ e₀ s = s
strip_fraction-IsSame (suc f) c e c₀ e₀ s = elim (Bool-cases (e <? pos 0)) [
  | inr n ↦ rw n s
  | inl n ↦ elim (Bool-cases (rem c (pos 10) ==ℤ pos 0)) [
    | inr k ↦ rw (n, k) s
    | inl k ↦
        rw (n, k) (strip_fraction-IsSame f _ _ c₀ e₀ (tenth-IsSame c e c₀ e₀ (ground arith) k s))
  ]
]

strip-IsSame :
    (f : ℕ) (c e c₀ e₀ : ℤ)
    → offset e + f ≤ 255
    → IsSame c₀ e₀ (parts c e)
    → IsSame c₀ e₀ (strip f c e)
unfolding strip
strip-IsSame zero c e c₀ e₀ l s = s
strip-IsSame (suc f) c e c₀ e₀ l s = elim (Bool-cases (rem c (pos 10) ==ℤ pos 0)) [
  | inr k ↦ rw k s
  | inl k ↦ rw k (
      strip-IsSame f _ _ c₀ e₀ (rw (next_exp e s.exp_fits (omega arith)).0 (omega arith))
        (tenth-IsSame c e c₀ e₀ (omega arith) k s))
]

-- A coefficient below the bound of the loop that grows, times ten.
tenfold :
    (c : ℤ)
    → is_neg c ≡ false
    → (c <? quot max_coeff (pos 10)) ≡ true
    → (mag (int64 (c *ℤ pos 10)) ≡ mag c * 10)
      × (is_neg (int64 (c *ℤ pos 10)) ≡ false)
      × IsCoefficient (int64 (c *ℤ pos 10))
unfolding quot int64 ◌*ℤ◌
tenfold (pos n) p h = ground arith
tenfold (negsuc n) p h = cc (p)

grow-IsSame :
    (f : ℕ) (c e c₀ e₀ : ℤ)
    → is_neg c₀ ≡ false
    → IsSame c₀ e₀ (parts c e)
    → IsSame c₀ e₀ (grow f c e)
unfolding grow
grow-IsSame zero c e c₀ e₀ p s = s
grow-IsSame (suc f) c e c₀ e₀ p s = elim (Bool-cases (pos 0 <? e)) [
  | inr n ↦ rw n s
  | inl n ↦ elim (Bool-cases (c <? quot max_coeff (pos 10))) [
    | inr k ↦ rw (n, k) s
    | inl k ↦
        let (m, g, b) = tenfold c (s.sign ∙ p) k in
        let (o, fits) = previous_exp e s.exp_fits n in
        rw (n, k)
          (grow-IsSame f _ _ c₀ e₀ p (record {
            value = rw m (sym (power_shift (mag c) _) ∙ ap (λ t. mag c * 10 ^ t) o ∙ s.value);
            sign = g ∙ sym p;
            exp_fits = fits;
            coef_fits = b;
          }))
  ]
]

in_range : (c : ℤ) → IsCoefficient c → out_of_range c ≡ false
unfolding out_of_range
in_range (pos n) h = ground arith
in_range (negsuc n) h = ground arith

shrink_in_range : (f : ℕ) (c e : ℤ) → IsCoefficient c → shrink f c e ≡ parts c e
unfolding shrink
shrink_in_range zero c e h = refl
shrink_in_range (suc f) c e h = rw (in_range c h) refl

abs64-mag : (c : ℤ) → IsCoefficient c → abs64 c ≡ pos (mag c)
unfolding abs64
abs64-mag (pos n) h = ground arith
abs64-mag (negsuc n) h = ground arith

pow10_sixteen : pow10 16 ≡ pos (10 ^ 16)
unfolding pow10 int64 ◌*ℤ◌
pow10_sixteen = refl

-- The inputs on which the loop that multiplies cannot leave the coefficients.
abbrev pub IsBalanced : ℤ → ℤ → Type 0
IsBalanced c e = (is_neg c ≡ false) ⊎ ((mag c < 10 ^ 16) × (offset e ≤ 128))

balance-IsSame :
    (c e : ℤ) (p : Parts)
    → (is_neg c ≡ false) ⊎ (offset p.exp ≤ 128)
    → IsSame c e p
    → IsSame c e (balance p)
unfolding balance
balance-IsSame c e p b s = elim (Bool-cases (p.exp <? pos 0)) [
  | inl n ↦ rw n (strip_fraction-IsSame digit_fuel p.coef p.exp c e s)
  | inr n ↦ elim (Bool-cases ((pos 0 <? p.exp) && (p.exp <? pos 16))) [
    | inr k ↦ rw (n, k) s
    | inl k ↦
        rw (n, k)
          (elim b [
            | inl g ↦ grow-IsSame digit_fuel p.coef p.exp c e g s
            | inr l ↦ absurd (ground arith)
          ])
  ]
]

strip_large-IsSame :
    (c e : ℤ) → Fits8 e → IsCoefficient c → offset e ≤ 235 → IsSame c e (strip_large (parts c e))
unfolding strip_large
strip_large-IsSame c e f h l =
    let start : IsSame c e (parts c e) = record {
      value = refl;
      sign = refl;
      exp_fits = f;
      coef_fits = h;
    } in
    elim (Bool-cases (not (abs64 c <? pow10 16))) [
      | inl k ↦ rw k (strip-IsSame digit_fuel c e c e (omega arith) start)
      | inr k ↦ rw k start
    ]

strip_large_small : (c e : ℤ) → mag c < 10 ^ 16 → strip_large (parts c e) ≡ parts c e
unfolding strip_large
strip_large_small c e h = rw (abs64-mag c (omega arith), pow10_sixteen) (ground arith)

normalize_parts :
    (c e : ℤ)
    → Fits8 e
    → IsCoefficient c
    → offset e ≤ 235
    → IsBalanced c e
    → IsSame c e (balance (strip_large (parts c e)))
normalize_parts c e f h l b =
    let s = strip_large-IsSame c e f h l in
    balance-IsSame c e (strip_large (parts c e))
      (elim b [ inl p ↦ inl p | inr q ↦ inr (rw (strip_large_small c e q.0) q.1) ]) s

zero_scaled : (d e : ℤ) → 0 * 10 ^ offset d ≡ 0 * 10 ^ offset e
zero_scaled d e = omega arith

-- Normalising a coefficient of 56 bits with an exponent up to 107, that is non-negative or has at
-- most 16 digits and no positive exponent, gives a decimal of the same sign and value, the value
-- being the magnitude of the coefficient times ten to the exponent.
pub normalize_exact :
    (c e : ℤ)
    → Fits8 e
    → IsCoefficient c
    → offset e ≤ 235
    → IsBalanced c e
    → let w = normalize_toward_zero c e in
      (scaled (coefficient w) (exponent w) ≡ scaled c e) × (is_neg (coefficient w) ≡ is_neg c)
unfolding normalize_toward_zero coefficient
normalize_exact c e f h l b =
    let s = normalize_parts c e f h l b in
    elim (Bool-cases (c ==ℤ pos 0)) [
      | inl z ↦ let none_left : c ≡ pos 0 = ground arith in rw none_left (zero_scaled _ e, refl)
      | inr z ↦
          rw (z, shrink_in_range digit_fuel c e h, in_range c h)
            (rw (coefficient-new _ _ s.coef_fits, exponent-new _ _ s.exp_fits) (s.value, s.sign))
    ]
