-- ===== src/Hamt/Size.antt =====
-- The number of leaves that a traversal meets, as a sum over the children of a branch.
use slug.Prelude.{
  ℕ, zero, suc, ◌+◌, ◌^◌, ◌<◌, ◌≡◌, ◌≢◌, refl, sym, ◌∙◌, List, arith, ◌==◌, ==_iff, if◌then◌else◌,
  length, length-append, Bool-cases, inl, inr, ap,
}
use slug.Prelude.Bits.{
  has_bit, clear_bit, has_bit-clear_bit, has_bit-zero, no_bit_set, drop_lowest,
  has_bit-trailing_zeros, trailing_zeros-lt, drop_lowest-clear_bit,
}
use slug.MapKey.{MapKey}
use slug.Hamt.{HamtLeaf, HamtNode, nil, branch, trailing_segment, with_child}
use slug.Hamt.Shape.{IsShaped}
use slug.Hamt.Traverse.{segments, concat_at, leaves_of, NoBitBelow, drop-NoBitBelow, drop-lt}

-- f 0 + … + f (n - 1)
pub range_sum : ℕ → (ℕ → ℕ) → ℕ
range_sum zero f = 0
range_sum (suc n) f = range_sum n f + f n

range_sum_same :
    (n : ℕ) (f g : ℕ → ℕ) → ((i : ℕ) → i < n → f i ≡ g i) → range_sum n f ≡ range_sum n g
unfolding range_sum
range_sum_same zero f g h = refl
range_sum_same (suc n) f g h =
    omega (arith, range_sum_same n f g (λ i lt. h i (omega arith)), h n (omega arith))

pub range_sum_zero : (n : ℕ) (f : ℕ → ℕ) → ((i : ℕ) → f i ≡ 0) → range_sum n f ≡ 0
unfolding range_sum
range_sum_zero zero f h = refl
range_sum_zero (suc n) f h = omega (arith, range_sum_zero n f h, h n)

-- Two sums whose terms agree but at `s`.
pub range_sum_change :
    (n s : ℕ) (f g : ℕ → ℕ)
    → s < n
    → ((i : ℕ) → i ≢ s → f i ≡ g i)
    → range_sum n f + g s ≡ range_sum n g + f s
unfolding range_sum
range_sum_change zero s f g lt h = absurd (omega arith)
range_sum_change (suc n) s f g lt h = elim (Bool-cases (n == s)) [
  | inl e ↦
      let here : n ≡ s = (==_iff n s).0 e in
      let same = range_sum_same n f g (λ i below. h i (omega arith)) in
      rw (← here) (omega (arith, same))
  | inr e ↦
      let away : n ≢ s = λ p. cc ((==_iff n s).1 p) in
      omega (arith, range_sum_change n s f g (omega arith) h, h n away)
]

module _ {V : Type 0} where
  abbrev masked : ℕ → (ℕ → List (HamtLeaf V)) → ℕ → ℕ
  masked bm g i = if has_bit bm i then length (g i) else 0

  masked_zero : (g : ℕ → List (HamtLeaf V)) → range_sum 32 (masked 0 g) ≡ 0
  masked_zero g = range_sum_zero 32 (masked 0 g) (λ i. rw (has_bit-zero i) refl)

  -- The lists at the set bits, counted by index.
  length-concat_at :
      (g : ℕ → List (HamtLeaf V)) (n low bm : ℕ)
      → low + n ≡ 32
      → bm < 2 ^ 32
      → NoBitBelow low bm
      → length (concat_at g (segments n bm)) ≡ range_sum 32 (masked bm g)
  unfolding concat_at segments
  length-concat_at g zero low bm e h z =
      let bm_is_zero : bm ≡ 0 = no_bit_set 32 bm h (λ i lt. z i (omega arith)) in
      rw bm_is_zero (sym (masked_zero g))
  length-concat_at g (suc n) low bm e h z = elim (Bool-cases (bm == 0)) [
    | inl o ↦ let bm_is_zero : bm ≡ 0 = (==_iff bm 0).0 o in rw bm_is_zero (sym (masked_zero g))
    | inr o ↦
        let p : 0 < bm = ground arith in
        let t = trailing_segment bm in
        let ih =
          length-concat_at g n (low + 1) (drop_lowest bm) (omega arith) (drop-lt bm p h)
            (drop-NoBitBelow low bm p h z) in
        let set = has_bit-trailing_zeros 32 bm p h in
        let rest = drop_lowest-clear_bit 32 bm p h in
        let change =
          range_sum_change 32 t (masked bm g) (masked (clear_bit bm t) g)
            (trailing_zeros-lt 32 bm p h) (λ i away. ground (arith, has_bit-clear_bit t i bm)) in
        let here : masked bm g t ≡ length (g t) = rw set refl in
        let gone : masked (clear_bit bm t) g t ≡ 0 = ground (arith, has_bit-clear_bit t t bm) in
        let below = ih ∙ ap (λ w. range_sum 32 (masked w g)) rest in
        rw o (
          omega (
            arith,
            length-append (g t) (concat_at g (segments n (drop_lowest bm))),
            below,
            change,
            here,
            gone,
          ))
  ]

  -- The number of leaves that the traversal meets.
  abbrev pub size : HamtNode V → ℕ
  size node = length (leaves_of node)

  -- Over a trie that keeps the invariant, the sum over all the children.
  pub size_branch :
      (P : MapKey → Type 0) (depth bitmap : ℕ) (children : ℕ → HamtNode V)
      → IsShaped P depth (branch bitmap children)
      → size (branch bitmap children) ≡ range_sum 32 (λ i. size (children i))
  unfolding leaves_of
  size_branch P depth bitmap children (d, b, empty, kids) =
      length-concat_at (λ i. leaves_of (children i)) 32 0 bitmap refl b
        (λ i lt. absurd (omega arith))
      ∙ range_sum_same 32 _ _ (λ i _. elim (Bool-cases (has_bit bitmap i)) [
        | inl s ↦ rw s refl
        | inr c ↦ rw (c, empty i c) refl
      ])

  -- Another child, another size.
  pub size_change :
      (P : MapKey → Type 0) (depth seg bitmap bitmap' : ℕ) (children : ℕ → HamtNode V)
      (node : HamtNode V)
      → seg < 32
      → IsShaped P depth (branch bitmap children)
      → IsShaped P depth (branch bitmap' (with_child children seg node))
      → size (branch bitmap' (with_child children seg node)) + size (children seg)
        ≡ size (branch bitmap children) + size node
  size_change P depth seg bitmap bitmap' children node lt h h' =
      let new = with_child children seg node in
      let here : size (new seg) ≡ size node = ground arith in
      let change =
        range_sum_change 32 seg (λ i. size (new i)) (λ i. size (children i)) lt
          (λ i away. ground arith) in
      omega (
        arith,
        size_branch P depth bitmap children h,
        size_branch P depth bitmap' new h',
        change,
        here,
      )

pub size_empty : (V : Type 0) → size {V = V} (branch 0 (λ i. nil)) ≡ 0
unfolding leaves_of segments
size_empty V = refl
