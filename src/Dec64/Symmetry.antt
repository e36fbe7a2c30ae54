-- ===== src/Dec64/Symmetry.antt =====
-- What the operations of dec64.go give when their operands change places. These hold of all bit
-- patterns, those whose alignment overflows among them.
use slug.Prelude.{
  ℕ, zero, suc, ◌*◌, ◌/◌, ◌≡◌, refl, ◌∙◌, ap, Bool, true, false, not, ◌||◌, arith, if◌then◌else◌,
  leb, ltb, Bool-cases, ◌⊎◌, ◌<◌, ◌≤◌, inl, inr,
}
use slug.Prelude.Int.{ℤ, pos, negsuc, ◌+ℤ◌, +ℤ_comm}
use slug.Prelude.Machine.{neg, int64, int8, mag, is_neg, xor, ◌<?◌, ◌==ℤ◌}
use native.Mathlib.Nat.{mul_comm}
use slug.Dec64.Arith.{Factors, drop_digits, max_int64, mul}
use slug.Dec64.{
  Dec64, Aligned, normalize_pair, normalize_toward_zero, coefficient, exponent, add, cmp, eq, neq,
  lt, gt, lte, gte,
}

abbrev swapped : Aligned → Aligned
swapped p = record { left = p.right; right = p.left; exp = p.exp }

-- Two exponents of which neither is below the other are one.
<?_antisym : (a b : ℤ) → (a <? b) ≡ false → (b <? a) ≡ false → a ≡ b
<?_antisym a b h k = ground arith

<?_asym : (a b : ℤ) → (a <? b) ≡ true → (b <? a) ≡ false
<?_asym a b h = ground arith

normalize_pair-swapped : (a b : Dec64) → normalize_pair b a ≡ swapped (normalize_pair a b)
unfolding normalize_pair
normalize_pair-swapped a b = elim (Bool-cases (exponent b <? exponent a)) [
  | inl p ↦ rw (p, <?_asym (exponent b) (exponent a) p) refl
  | inr p ↦ elim (Bool-cases (exponent a <? exponent b)) [
    | inl q ↦ rw (p, q) refl
    | inr q ↦ rw (p, q, <?_antisym (exponent a) (exponent b) q p) refl
  ]
]

-- A sum does not depend on the order of its terms, for any two bit patterns.
pub add_comm : (a b : Dec64) → add a b ≡ add b a
unfolding add
add_comm a b =
    let p = normalize_pair a b in
    rw (normalize_pair-swapped a b)
      (ap (λ c. normalize_toward_zero (int64 c) p.exp) (+ℤ_comm p.left p.right))

-- The three results of Cmp on aligned coefficients.
abbrev three_way : ℤ → ℤ → ℤ
three_way x y = if x <? y then negsuc 0 else (if y <? x then pos 1 else pos 0)

neg-three_way : (x y : ℤ) → three_way y x ≡ neg (three_way x y)
neg-three_way x y = ground arith

cmp_antisym : (a b : Dec64) → cmp b a ≡ neg (cmp a b)
unfolding cmp
cmp_antisym a b =
    let p = normalize_pair a b in rw (normalize_pair-swapped a b) (neg-three_way p.left p.right)

-- The six comparisons of one pair.
pub record AreConsistent (a b : Dec64) : Type 0 where
  pub gt_of_lt : gt b a ≡ lt a b
  pub gte_of_lte : gte b a ≡ lte a b
  pub eq_comm : eq b a ≡ eq a b
  pub neq_not : neq a b ≡ not (eq a b)
  pub gte_not : gte a b ≡ not (lt a b)
  pub lte_not : lte a b ≡ not (gt a b)
  pub lte_or : lte a b ≡ lt a b || eq a b

sign_of_cmp : (a b : Dec64) → (cmp a b ≡ negsuc 0) ⊎ ((cmp a b ≡ pos 0) ⊎ (cmp a b ≡ pos 1))
unfolding cmp
sign_of_cmp a b = ground arith

-- On every pair of bit patterns the six comparisons agree: the flipped ones are each other with
-- the operands in the other order, equality is symmetric, and each is the negation or the
-- disjunction of the others that it should be.
pub comparisons-AreConsistent : (a b : Dec64) → AreConsistent a b
unfolding lt gt lte gte eq neq
comparisons-AreConsistent a b = elim (sign_of_cmp a b) [
  | inl e ↦ consistent (negsuc 0) e (inl refl)
  | inr (inl e) ↦ consistent (pos 0) e (inr (inl refl))
  | inr (inr e) ↦ consistent (pos 1) e (inr (inr refl))
]
  where
    consistent :
        (c : ℤ) → cmp a b ≡ c → (c ≡ negsuc 0) ⊎ ((c ≡ pos 0) ⊎ (c ≡ pos 1)) → AreConsistent a b
    consistent c e s =
        let back : cmp b a ≡ neg c = cmp_antisym a b ∙ ap neg e in
        record {
          gt_of_lt = rw (e, back) (ground arith);
          gte_of_lte = rw (e, back) (ground arith);
          eq_comm = rw (e, back) (ground arith);
          neq_not = refl;
          gte_not = rw e (ground arith);
          lte_not = rw e (ground arith);
          lte_or = rw e (ground arith);
        }

-- The test of the loop of Mul as a bound on the product.
div-lt_iff : (m a b : ℕ) → 0 < b → ltb (m / b) a ≡ ltb m (a * b)
div-lt_iff m a b h = grind arith

-- The three ways on of the loop of Mul.
drop_digits_end :
    (f ua ub : ℕ) (exp : ℤ)
    → 0 < ub
    → ltb max_int64 (ua * ub) ≡ false
    → drop_digits (suc f) ua ub exp ≡ record { ua = ua; ub = ub; exp = exp }
unfolding drop_digits
drop_digits_end f ua ub exp h e = rw (div-lt_iff max_int64 ua ub h, e) refl

drop_digits_left :
    (f ua ub : ℕ) (exp : ℤ)
    → 0 < ub
    → ltb max_int64 (ua * ub) ≡ true
    → leb ub ua ≡ true
    → drop_digits (suc f) ua ub exp ≡ drop_digits f (ua / 10) ub (exp +ℤ pos 1)
unfolding drop_digits
drop_digits_left f ua ub exp h e l = rw (div-lt_iff max_int64 ua ub h, e, l) refl

drop_digits_right :
    (f ua ub : ℕ) (exp : ℤ)
    → 0 < ub
    → ltb max_int64 (ua * ub) ≡ true
    → leb ub ua ≡ false
    → drop_digits (suc f) ua ub exp ≡ drop_digits f ua (ub / 10) (exp +ℤ pos 1)
unfolding drop_digits
drop_digits_right f ua ub exp h e l = rw (div-lt_iff max_int64 ua ub h, e, l) refl

-- The larger factor of a large product has a digit to drop.
larger_pos : (ua ub : ℕ) → ub ≤ ua → max_int64 < ua * ub → 0 < ua / 10
larger_pos ua ub h l = grind arith

abbrev product : Factors → ℕ
product p = p.ua * p.ub

-- The product and the exponent after the loop do not depend on the order of the factors.
drop_digits-flipped :
    (f ua ub : ℕ) (exp : ℤ)
    → 0 < ua
    → 0 < ub
    → (product (drop_digits f ub ua exp) ≡ product (drop_digits f ua ub exp))
      × ((drop_digits f ub ua exp).exp ≡ (drop_digits f ua ub exp).exp)
drop_digits-flipped zero ua ub exp p q = unfold drop_digits in (mul_comm ub ua, refl)
drop_digits-flipped (suc f) ua ub exp p q =
    let same = mul_comm ub ua in
    elim (Bool-cases (ltb max_int64 (ua * ub))) [
      | inr small ↦
          rw (drop_digits_end f ua ub exp q small, drop_digits_end f ub ua exp p (rw same small))
            (same, refl)
      | inl large ↦
          let large' : ltb max_int64 (ub * ua) ≡ true = rw same large in
          elim (Bool-cases (leb ub ua)) [
            | inl l ↦ elim (Bool-cases (leb ua ub)) [
              | inl both ↦ let e : ua ≡ ub = ground arith in rw e (refl, refl)
              | inr r ↦
                  rw
                    (
                      drop_digits_left f ua ub exp q large l,
                      drop_digits_right f ub ua exp p large' r,
                    )
                    (drop_digits-flipped f (ua / 10) ub (exp +ℤ pos 1)
                      (larger_pos ua ub (ground arith) (ground arith)) q)
            ]
            | inr r ↦
                rw
                  (
                    drop_digits_right f ua ub exp q large r,
                    drop_digits_left f ub ua exp p large' (ground arith),
                  )
                  (drop_digits-flipped f ua (ub / 10) (exp +ℤ pos 1) p
                    (larger_pos ub ua (ground arith) (ground arith)))
          ]
    ]

mag_pos : (z : ℤ) → (z ==ℤ pos 0) ≡ false → 0 < mag z
mag_pos z h = ground arith

xor_comm : (x y : Bool) → xor x y ≡ xor y x
xor_comm true true = refl
xor_comm true false = refl
xor_comm false true = refl
xor_comm false false = refl

-- A product does not depend on the order of its factors, the loop that drops digits of the larger
-- one included.
pub mul_commutes : (a b : Dec64) → mul a b ≡ mul b a
unfolding mul
mul_commutes a b =
    let ca = coefficient a in
    let cb = coefficient b in
    elim (Bool-cases (ca ==ℤ pos 0)) [
      | inl e ↦ rw e (ground arith)
      | inr n ↦ elim (Bool-cases (cb ==ℤ pos 0)) [
        | inl e ↦ rw (n, e) refl
        | inr k ↦
            let e = exponent a +ℤ exponent b in
            let f =
              drop_digits-flipped 40 (mag ca) (mag cb) (int8 e) (mag_pos ca n) (mag_pos cb k) in
            rw (n, k, +ℤ_comm (exponent b) (exponent a), xor_comm (is_neg cb) (is_neg ca))
              (rw (f.0, f.1) refl)
      ]
    ]
