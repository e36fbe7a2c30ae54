-- ===== src/Slices.antt =====
-- Slices of lists, strings and bytes in internal/vm/executor.go: computeSliceIndices, sequenceSliceLen and the
-- slice cases of evalIndex. The numbers of a slice are integers of 64 bits, and a panic is `none`.
pub mod Elements
use slug.Prelude.{
  ℕ, zero, suc, ◌+◌, ◌-◌, ◌/◌, Bool, true, false, not, ◌&&◌, ◌||◌, ltb, leb, ◌==◌, if◌then◌else◌,
  Option, none, some, List, [], ◌∷◌, length, get_elem?, take, drop,
}
use slug.Prelude.Int.{ℤ, pos, negsuc, pos_part, neg_part, ◌+ℤ◌, ◌-ℤ◌, ltb_ℤ}
use slug.Prelude.Machine.{int64, is_neg, mag, with_sign}

abbrev pub given : Option ℤ → ℤ → ℤ
given none default = default
given (some z) default = z

-- A number of the slice that counts from the end.
abbrev pub from_end : ℕ → ℤ → ℤ
from_end len z = if is_neg z then z +ℤ pos len else z

abbrev pub at_least_0 : ℤ → ℤ
at_least_0 z = if is_neg z then pos 0 else z

abbrev pub at_most : ℕ → ℤ → ℤ
at_most len z = if ltb_ℤ (pos len) z then pos len else z

abbrev pub positive_step : ℤ → ℤ
positive_step z = if ltb_ℤ (pos 0) z then z else pos 1

unfoldable pub compute_slice_indices : ℕ → Option ℤ → Option ℤ → Option ℤ → ℤ × ℤ × ℤ
compute_slice_indices len start end step = (
  at_least_0 (from_end len (given start (pos 0))),
  at_most len (from_end len (given end (pos len))),
  positive_step (given step (pos 1)),
)

-- The division of Go by a positive number.
abbrev pub quot : ℤ → ℤ → ℤ
quot a b = with_sign (is_neg a) (mag a / mag b)

unfoldable pub sequence_slice_len : ℤ → ℤ → ℤ → ℤ
sequence_slice_len start end step =
    if not (ltb_ℤ (pos 0) step) || not (ltb_ℤ start end)
    then pos 0
    else quot (int64 (int64 (int64 (end -ℤ start) +ℤ step) -ℤ pos 1)) step

abbrev pub is_one : ℤ → Bool
is_one (pos n) = n == 1
is_one (negsuc n) = false

module _ {ℓ} {A : Type ℓ} where
  abbrev pub element_at : List A → ℤ → Option A
  element_at xs (pos n) = get_elem? xs n
  element_at xs (negsuc n) = none

  abbrev pub found : Option A → Option (List A) → Option (List A)
  found none rest = none
  found (some x) none = none
  found (some x) (some others) = some (x ∷ others)

  -- The loop with `i += step`.
  unfoldable pub slice_loop : ℕ → List A → ℤ → ℤ → ℤ → Option (List A)
  slice_loop zero xs i end step = none
  slice_loop (suc f) xs i end step =
      let rest = slice_loop f xs (int64 (i +ℤ step)) end step in
      if ltb_ℤ i end then found (element_at xs i) rest else some []

  abbrev pub rounds : List A → ℕ
  rounds xs = suc (length xs)

  -- The slice of a string or of bytes.
  unfoldable pub sequence_slice : List A → ℤ × ℤ × ℤ → Option (List A)
  sequence_slice xs (start, end, step) = slice_loop (rounds xs) xs start end step

  -- The slice of a list: a part of the same array for step 1, or a new one with a capacity.
  unfoldable pub list_slice : List A → ℤ × ℤ × ℤ → Option (List A)
  list_slice xs (start, end, step) =
      if is_one step
      then (if ltb_ℤ start end
          then some (take (pos_part end - pos_part start) (drop (pos_part start) xs))
          else some [])
      else (if is_neg (sequence_slice_len start end step)
          then none
          else slice_loop (rounds xs) xs start end step)
