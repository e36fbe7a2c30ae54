-- ===== src/Hamt/Traverse.antt =====
-- hamtForEach: a callback that always goes on is folded over the leaves, child by child, and the
-- leaves hold each key of the trie once, with the pair that hamtGet returns.
use slug.Prelude.{
  ℕ, zero, suc, ◌+◌, ◌^◌, ◌<◌, ◌≡◌, ◌≢◌, refl, sym, ◌∙◌, Bool, true, false, none, List, [], ◌∷◌,
  ◌++◌, arith, ◌==◌, ==_iff, if◌then◌else◌, ◌||◌, Bool-cases, inl, inr, ap, foldl,
}
use slug.Prelude.Bits.{
  has_bit, has_bit-clear_bit, has_bit-zero, no_bit_set, trailing_zeros-le, drop_lowest-le,
  drop_lowest, has_bit-trailing_zeros, drop_lowest-clear_bit,
}
use mathlib.Core.List.{foldl-append}
use slug.MapKey.{MapKey}
use slug.Hamt.{
  HamtLeaf, HamtNode, nil, bucket, branch, trailing_segment, find_leaf, hamt_get, for_each_leaf,
  for_each_bit, hamt_for_each,
}
use slug.Hamt.Leaves.{find-append_list}
use slug.Hamt.Shape.{IsShaped, Under, segment_of}
use slug.Hamt.Lookup.{read, read_outside}

-- The segments of a bitmap in the order of the loop.
unfoldable pub segments : ℕ → ℕ → List ℕ
segments zero bm = []
segments (suc n) bm =
    let rest = segments n (drop_lowest bm) in if bm == 0 then [] else trailing_segment bm ∷ rest

abbrev pub elem : ℕ → List ℕ → Bool
elem s [] = false
elem s (i ∷ is) = i == s || elem s is

module _ {V : Type 0} where
  unfoldable pub concat_at : (ℕ → List (HamtLeaf V)) → List ℕ → List (HamtLeaf V)
  concat_at g [] = []
  concat_at g (i ∷ is) = g i ++ concat_at g is

  -- The leaves in the order of the traversal.
  unfoldable pub leaves_of : HamtNode V → List (HamtLeaf V)
  unfolding concat_at
  leaves_of nil = []
  leaves_of (bucket leaves) = leaves
  leaves_of (branch bitmap children) = concat_at (λ i. leaves_of (children i)) (segments 32 bitmap)

module _ {V S : Type 0} (step : S → MapKey → V → S) where
  abbrev pub on_leaf : S → HamtLeaf V → S
  on_leaf s leaf = step s leaf.key leaf.pair

  for_each_leaf-fold :
      (leaves : List (HamtLeaf V)) (s : S)
      → for_each_leaf (λ s k v. (step s k v, true)) leaves s ≡ (foldl on_leaf s leaves, true)
  unfolding for_each_leaf
  for_each_leaf-fold [] s = refl
  for_each_leaf-fold (leaf ∷ leaves) s = for_each_leaf-fold leaves (step s leaf.key leaf.pair)

  for_each_bit-fold :
      (visit : ℕ → S → S × Bool) (g : ℕ → List (HamtLeaf V))
      → ((i : ℕ) (s : S) → visit i s ≡ (foldl on_leaf s (g i), true))
      → (n bm : ℕ) (s : S)
      → for_each_bit n visit bm s ≡ (foldl on_leaf s (concat_at g (segments n bm)), true)
  unfolding for_each_bit segments concat_at
  for_each_bit-fold visit g h zero bm s = refl
  for_each_bit-fold visit g h (suc n) bm s = elim (Bool-cases (bm == 0)) [
    | inl e ↦ rw e refl
    | inr e ↦
        rw (e, h (trailing_segment bm) s)
          (for_each_bit-fold visit g h n (drop_lowest bm) _
            ∙ ap (λ t. (t, true))
                (sym (
                  foldl-append on_leaf s (g (trailing_segment bm))
                    (concat_at g (segments n (drop_lowest bm))))))
  ]

  -- A traversal with a callback that never stops, through the list of the leaves.
  pub for_each-fold :
      (node : HamtNode V) (s : S)
      → hamt_for_each (λ s k v. (step s k v, true)) node s
        ≡ (foldl on_leaf s (leaves_of node), true)
  unfolding hamt_for_each leaves_of
  for_each-fold nil s = refl
  for_each-fold (bucket leaves) s = for_each_leaf-fold leaves s
  for_each-fold (branch bitmap children) s =
      for_each_bit-fold _ (λ i. leaves_of (children i)) (λ i s. for_each-fold (children i) s) 32
        bitmap s

module _ {V : Type 0} where
  -- A key is looked up in the one list that can hold it.
  find-concat_at :
      (g : ℕ → List (HamtLeaf V)) (q : MapKey) (s : ℕ)
      → ((i : ℕ) → i ≢ s → find_leaf q (g i) ≡ none)
      → (is : List ℕ)
      → find_leaf q (concat_at g is) ≡ (if elem s is then find_leaf q (g s) else none)
  unfolding concat_at find_leaf
  find-concat_at g q s other [] = refl
  find-concat_at g q s other (i ∷ is) =
      find-append_list (g i) (concat_at g is) q ∙ elim (Bool-cases (i == s)) [
        | inl e ↦
            let i_is_s : i ≡ s = (==_iff i s).0 e in
            ground (arith, find-concat_at g q s other is, ap g i_is_s)
        | inr e ↦
            ground (arith, find-concat_at g q s other is, other i (λ h. cc ((==_iff i s).1 h)))
      ]

-- No bit below `low` is set.
abbrev pub NoBitBelow : ℕ → ℕ → Type 0
NoBitBelow low bm = (i : ℕ) → i < low → has_bit bm i ≡ false

-- What one round of the loop does to the bitmap.
pub drop-NoBitBelow :
    (low bm : ℕ) → 0 < bm → bm < 2 ^ 32 → NoBitBelow low bm → NoBitBelow (low + 1) (drop_lowest bm)
drop-NoBitBelow low bm p h none_below i lt =
    let t = trailing_segment bm in
    let set = has_bit-trailing_zeros 32 bm p h in
    rw (drop_lowest-clear_bit 32 bm p h) (
      ground
        (arith, has_bit-clear_bit t i bm, none_below i, none_below t, trailing_zeros-le 32 i bm))

pub drop-lt : (bm : ℕ) → 0 < bm → bm < 2 ^ 32 → drop_lowest bm < 2 ^ 32
drop-lt bm p h = omega (arith, drop_lowest-le 32 bm p h)

elem-segments :
    (n low s bm : ℕ)
    → low + n ≡ 32
    → bm < 2 ^ 32
    → NoBitBelow low bm
    → elem s (segments n bm) ≡ has_bit bm s
unfolding segments
elem-segments zero low s bm e h z =
    let bm_is_zero : bm ≡ 0 = no_bit_set 32 bm h (λ i lt. z i (omega arith)) in
    rw (bm_is_zero, has_bit-zero s)
elem-segments (suc n) low s bm e h z = elim (Bool-cases (bm == 0)) [
  | inl o ↦ let bm_is_zero : bm ≡ 0 = (==_iff bm 0).0 o in rw bm_is_zero (sym (has_bit-zero s))
  | inr o ↦
      let p : 0 < bm = ground arith in
      let t = trailing_segment bm in
      let ih =
        elem-segments n (low + 1) s (drop_lowest bm) (omega arith) (drop-lt bm p h)
          (drop-NoBitBelow low bm p h z) in
      let cleared =
        ap (λ w. has_bit w s) (drop_lowest-clear_bit 32 bm p h) ∙ has_bit-clear_bit t s bm in
      let set = has_bit-trailing_zeros 32 bm p h in
      rw o (elim (Bool-cases (t == s)) [
        | inl here ↦ rw here (cc ((==_iff t s).0 here))
        | inr there ↦ rw there (ih ∙ cleared ∙ rw there refl)
      ])
]

module _ {V : Type 0} where
  -- The traversal meets each key of the trie, with the pair that hamtGet returns for it.
  pub find-leaves_of :
      (node : HamtNode V) (depth : ℕ) (P : MapKey → Type 0) (q : MapKey)
      → IsShaped P depth node
      → find_leaf q (leaves_of node) ≡ read node depth q
  unfolding leaves_of hamt_get find_leaf
  find-leaves_of nil depth P q h = refl
  find-leaves_of (bucket leaves) depth P q h = refl
  find-leaves_of (branch bitmap children) depth P q (d, b, empty, kids) =
      let s = segment_of q depth in
      let ih = find-leaves_of (children s) (depth + 1) (Under P depth s) q (kids s) in
      find-concat_at (λ i. leaves_of (children i)) q s
        (λ i n.
          find-leaves_of (children i) (depth + 1) (Under P depth i) q (kids i)
          ∙ read_outside (children i) (depth + 1) (Under P depth i) q (λ u. n (sym u.1)) (kids i))
        (segments 32 bitmap)
      ∙ rw (elem-segments 32 0 s bitmap refl b (λ i lt. absurd (omega arith)), ih) refl
