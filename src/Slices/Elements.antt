-- ===== src/Slices/Elements.antt =====
-- What a slice holds, in internal/vm/executor.go.
use slug.Prelude.{
  ℕ, zero, suc, ◌+◌, ◌-◌, ◌^◌, ◌≤◌, ◌<◌, ◌≡◌, refl, sym, ap, ◌∙◌, true, false, ◌==◌, ==_iff,
  if◌then◌else◌, Option, some, List, [], ◌∷◌, length, get_elem?, take, drop, Bool-cases, inl, inr,
  arith,
}
use slug.Prelude.Int.{ℤ, pos, negsuc, pos_part, ◌+ℤ◌, ◌-ℤ◌, ltb_ℤ}
use slug.Prelude.Machine.{int64, int64_id, is_neg}
use slug.Slices.{
  given, from_end, at_least_0, at_most, positive_step, compute_slice_indices, sequence_slice_len,
  slice_loop, rounds, sequence_slice, list_slice,
}

nothing_left : (k : ℕ) → zero - suc k ≡ zero
nothing_left k = omega arith

next_index : (n t e : ℕ) → n < e → e + t < 2 ^ 63 → int64 (pos n +ℤ pos t) ≡ pos (n + t)
unfolding ◌+ℤ◌ int64
next_index n t e h room = ground arith

past_end : (n e : ℕ) → ltb_ℤ (pos n) (pos e) ≡ false → e - n ≡ 0
past_end n e h = ground (arith, h)

minus_suc : (n e : ℕ) → n < e → e - n ≡ suc (e - suc n)
minus_suc n e h = omega (arith, h)

below_end : (n e : ℕ) → ltb_ℤ (pos n) (pos e) ≡ true → n < e
below_end n e h = ground (arith, h)

nothing_below : (n m : ℕ) → ltb_ℤ (pos n) (negsuc m) ≡ false
nothing_below n m = ground arith

nothing_before : (n : ℕ) → 0 - n ≡ 0
nothing_before n = omega arith

at_least_0-pos : (z : ℤ) → at_least_0 z ≡ pos (pos_part (at_least_0 z))
at_least_0-pos (pos n) = refl
at_least_0-pos (negsuc n) = refl

positive_step-pos : (z : ℤ) → positive_step z ≡ pos (pos_part (positive_step z))
positive_step-pos (pos n) = ground arith
positive_step-pos (negsuc n) = ground arith

positive_step-gt : (z : ℤ) → 0 < pos_part (positive_step z)
positive_step-gt (pos n) = ground arith
positive_step-gt (negsuc n) = ground arith

at_most-le : (len : ℕ) (z : ℤ) → pos_part (at_most len z) ≤ len
at_most-le len (pos n) = ground arith
at_most-le len (negsuc n) = ground arith

int64-pos : (n : ℕ) → n < 2 ^ 63 → int64 (pos n) ≡ pos n
int64-pos n h = int64_id (pos n) (omega (arith, h), omega arith)

pos_minus : (a b : ℕ) → b ≤ a → pos a -ℤ pos b ≡ pos (a - b)
unfolding ◌-ℤ◌
pos_minus a b h = ground arith

pos_plus : (a b : ℕ) → pos a +ℤ pos b ≡ pos (a + b)
unfolding ◌+ℤ◌
pos_plus a b = ground arith

nothing_left_of : (n : ℕ) (end : ℤ) → ltb_ℤ (pos n) end ≡ false → pos_part end - n ≡ 0
nothing_left_of n (pos e) h = ground (arith, h)
nothing_left_of n (negsuc m) h = omega arith

-- The capacity of a new list is not negative.
is_neg-sequence_slice_len :
    (n : ℕ) (end : ℤ) (t : ℕ)
    → pos_part end + t < 2 ^ 63
    → is_neg (sequence_slice_len (pos n) end (pos t)) ≡ false
unfolding sequence_slice_len
is_neg-sequence_slice_len n (negsuc m) t room = elim (Bool-cases (ltb_ℤ (pos 0) (pos t))) [
  | inl y ↦ rw (y, nothing_below n m) refl
  | inr k ↦ rw k refl
]
is_neg-sequence_slice_len n (pos e) t room = elim (Bool-cases (ltb_ℤ (pos 0) (pos t))) [
  | inr k ↦ rw k refl
  | inl y ↦ elim (Bool-cases (ltb_ℤ (pos n) (pos e))) [
    | inr k ↦ rw (y, k) refl
    | inl z ↦
        let below = below_end n e z in
        rw
          (
            y,
            z,
            pos_minus e n (omega (arith, below)),
            int64-pos (e - n) (omega (arith, room)),
            pos_plus (e - n) t,
            int64-pos (e - n + t) (omega (arith, room)),
            pos_minus (e - n + t) 1 (omega (arith, below)),
            int64-pos (e - n + t - 1) (omega (arith, room)),
          )
          refl
  ]
]

-- Every so many elements of a list, the first `skipped` left out.
module _ {ℓ} {A : Type ℓ} where
  abbrev pub every : ℕ → ℕ → List A → List A
  every skipped step [] = []
  every zero step (x ∷ xs) = x ∷ every (step - 1) step xs
  every (suc skipped) step (x ∷ xs) = every skipped step xs

  take-nil : (n : ℕ) → take {A = A} n [] ≡ []
  take-nil zero = refl
  take-nil (suc n) = refl

  drop-nil : (n : ℕ) → drop {A = A} n [] ≡ []
  drop-nil zero = refl
  drop-nil (suc n) = refl

  every-take :
      (k t m : ℕ) (zs : List A) → every k t (take m zs) ≡ every 0 t (take (m - k) (drop k zs))
  every-take zero t m zs = ap (λ m. every 0 t (take m zs)) (omega arith)
  every-take (suc k) t zero zs =
      sym (ap (λ m. every 0 t (take m (drop (suc k) zs))) (nothing_left k))
  every-take (suc k) t (suc m) [] = sym (ap (every 0 t) (take-nil (suc m - suc k)))
  every-take (suc k) t (suc m) (z ∷ zs) =
      every-take k t m zs ∙ ap (λ m. every 0 t (take m (drop k zs))) (omega arith)

  drop-drop : (k n m : ℕ) (xs : List A) → m ≡ n + k → drop k (drop n xs) ≡ drop m xs
  drop-drop k zero m xs e = ap (λ m. drop m xs) (omega (arith, e))
  drop-drop k (suc n) zero xs e = absurd (omega (arith, e))
  drop-drop k (suc n) (suc m) [] e = drop-nil k
  drop-drop k (suc n) (suc m) (x ∷ xs) e = drop-drop k n m xs (omega (arith, e))

  drop-head :
      (n : ℕ) (xs : List A)
      → n < length xs
      → (x : A) × (get_elem? xs n ≡ some x) × (drop n xs ≡ x ∷ drop (suc n) xs)
  drop-head n [] h = absurd (omega (arith, h))
  drop-head zero (x ∷ xs) h = (x, refl, refl)
  drop-head (suc n) (x ∷ xs) h = drop-head n xs (omega (arith, h))

  -- After one element, the next is `t` places on.
  skip :
      (xs : List A) (n e t : ℕ)
      → 0 < t
      → n < e
      → every (t - 1) t (take (e - suc n) (drop (suc n) xs))
        ≡ every 0 t (take (e - (n + t)) (drop (n + t) xs))
  skip xs n e t h below =
      every-take (t - 1) t (e - suc n) (drop (suc n) xs)
      ∙ ap (λ m. every 0 t (take m (drop (t - 1) (drop (suc n) xs)))) (omega (arith, h))
      ∙ ap (λ ys. every 0 t (take (e - (n + t)) ys))
          (drop-drop (t - 1) (suc n) (n + t) xs (omega (arith, h)))

  every-next :
      (xs : List A) (n e t : ℕ) (x : A)
      → drop n xs ≡ x ∷ drop (suc n) xs
      → 0 < t
      → n < e
      → every 0 t (take (e - n) (drop n xs)) ≡ x ∷ every 0 t (take (e - (n + t)) (drop (n + t) xs))
  every-next xs n e t x split h below =
      rw (minus_suc n e below, split) (ap (λ ys. x ∷ ys) (skip xs n e t h below))

  loop_lem :
      (f : ℕ) (xs : List A) (n e t : ℕ)
      → e ≤ length xs
      → e - n < f
      → 0 < t
      → e + t < 2 ^ 63
      → slice_loop f xs (pos n) (pos e) (pos t) ≡ some (every 0 t (take (e - n) (drop n xs)))
  unfolding slice_loop
  loop_lem zero xs n e t inside enough h room = absurd (omega (arith, enough))
  loop_lem (suc f) xs n e t inside enough h room = elim (Bool-cases (ltb_ℤ (pos n) (pos e))) [
    | inr m ↦ rw (m, past_end n e m) refl
    | inl y ↦
        let below = below_end n e y in
        let (x, there, split) = drop-head n xs (omega (arith, below, inside)) in
        let next = loop_lem f xs (n + t) e t inside (omega (arith, enough, below, h)) h room in
        rw (y, there, next_index n t e below room, next)
          (ap some (sym (every-next xs n e t x split h below)))
  ]

  -- The slice by the bounds that computeSliceIndices gives.
  abbrev pub sliced : List A → ℤ × ℤ × ℤ → List A
  sliced xs (start, end, step) =
      every 0 (pos_part step) (take (pos_part end - pos_part start) (drop (pos_part start) xs))

  slice_of :
      (xs : List A) (n t : ℕ) (end : ℤ)
      → pos_part end ≤ length xs
      → 0 < t
      → length xs + t < 2 ^ 63
      → slice_loop (rounds xs) xs (pos n) end (pos t)
        ≡ some (every 0 t (take (pos_part end - n) (drop n xs)))
  unfolding slice_loop
  slice_of xs n t (pos e) inside h room =
      loop_lem (rounds xs) xs n e t inside (omega (arith, inside)) h (omega (arith, inside, room))
  slice_of xs n t (negsuc m) inside h room = rw (nothing_below n m, nothing_before n) refl

  every-one : (ys : List A) → every 0 1 ys ≡ ys
  every-one [] = refl
  every-one (y ∷ ys) = ap (λ zs. y ∷ zs) (every-one ys)

  whole_part :
      (xs : List A) (n : ℕ) (end : ℤ)
      → (if ltb_ℤ (pos n) end then some (take (pos_part end - n) (drop n xs)) else some [])
        ≡ some (take (pos_part end - n) (drop n xs))
  whole_part xs n end = elim (Bool-cases (ltb_ℤ (pos n) end)) [
    | inl y ↦ rw y refl
    | inr m ↦ rw (m, nothing_left_of n end m) refl
  ]

  list_slice_of :
      (xs : List A) (n t : ℕ) (end : ℤ)
      → pos_part end ≤ length xs
      → 0 < t
      → length xs + t < 2 ^ 63
      → list_slice xs (pos n, end, pos t) ≡ some (every 0 t (take (pos_part end - n) (drop n xs)))
  unfolding list_slice
  list_slice_of xs n t end inside h room = elim (Bool-cases (t == 1)) [
    | inl y ↦
        let one = (==_iff t 1).0 y in
        rw (y, one, every-one (take (pos_part end - n) (drop n xs))) (whole_part xs n end)
    | inr m ↦
        rw (m, is_neg-sequence_slice_len n end t (omega (arith, inside, room)))
          (slice_of xs n t end inside h room)
  ]

  -- Where the length and the step sum to less than 2 ^ 63, a slice reads no element out of range:
  -- it gives every step-th element from the computed start up to the computed end, whatever
  -- numbers were given, for lists (with the shortcut of step 1 and the capacity of the copy) as
  -- for strings and bytes.
  pub list_slice-sliced :
      (xs : List A) (start end step : Option ℤ)
      → length xs + pos_part (positive_step (given step (pos 1))) < 2 ^ 63
      → (sequence_slice xs (compute_slice_indices (length xs) start end step)
          ≡ some (sliced xs (compute_slice_indices (length xs) start end step)))
        × (list_slice xs (compute_slice_indices (length xs) start end step)
            ≡ some (sliced xs (compute_slice_indices (length xs) start end step)))
  unfolding compute_slice_indices sequence_slice
  list_slice-sliced xs start end step room =
      let z = from_end (length xs) (given start (pos 0)) in
      let w = from_end (length xs) (given end (pos (length xs))) in
      let p = given step (pos 1) in
      let n = pos_part (at_least_0 z) in
      let t = pos_part (positive_step p) in
      let inside = at_most-le (length xs) w in
      rw (at_least_0-pos z, positive_step-pos p)
        (
          slice_of xs n t (at_most (length xs) w) inside (positive_step-gt p) room,
          list_slice_of xs n t (at_most (length xs) w) inside (positive_step-gt p) room,
        )
