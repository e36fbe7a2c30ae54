-- ===== src/Tests/Slicing.antt =====
-- Slices of a short list, and the inference of a type parameter.
use slug.Prelude.{ℕ, ◌≡◌, refl, none, some, List, [], ◌∷◌, ◌++◌, arith, true, false}
use slug.Prelude.Int.{pos, negsuc, ◌+ℤ◌, ◌-ℤ◌}
use slug.Prelude.Machine.{int64}
use slug.Prelude.Text.{codes, text_eq}
use slug.Slices.{compute_slice_indices, sequence_slice_len, slice_loop, sequence_slice, list_slice}
use slug.Slices.Elements.{sliced, list_slice-sliced}
use slug.DeclaredTypes.{
  RtType, basic, num_kind, str_kind, type_param, list_type, map_type, union_type, type_and,
  no_types, compatible, infer, substitute, lookup, bind_param, bindings_from_call,
}
use slug.DeclaredTypes.Inference.{has_no_union, bindings_from_call-compatible}

abbrev five : List ℕ
five = 10 ∷ 20 ∷ 30 ∷ 40 ∷ 50 ∷ []

odd_places :
    list_slice five (compute_slice_indices 5 (some (pos 1)) none (some (pos 2)))
    ≡ some (20 ∷ 40 ∷ [])
unfolding list_slice compute_slice_indices sequence_slice_len slice_loop int64 ◌+ℤ◌ ◌-ℤ◌
odd_places = refl

last_two :
    list_slice five (compute_slice_indices 5 (some (negsuc 1)) none none) ≡ some (40 ∷ 50 ∷ [])
unfolding list_slice compute_slice_indices ◌+ℤ◌
last_two = refl

-- With a step near the largest integer the index wraps, and is negative.
wide_step :
    list_slice five
      (compute_slice_indices 5 (some (pos 1)) none (some (pos 9_223_372_036_854_775_807)))
    ≡ none
unfolding list_slice compute_slice_indices sequence_slice_len slice_loop int64 ◌+ℤ◌ ◌-ℤ◌
wide_step = refl

list_slice-sliced_example :
    (sequence_slice five (compute_slice_indices 5 (some (pos 1)) (some (negsuc 0)) (some (pos 2)))
      ≡ some
          (sliced five (compute_slice_indices 5 (some (pos 1)) (some (negsuc 0)) (some (pos 2)))))
    × (list_slice five (compute_slice_indices 5 (some (pos 1)) (some (negsuc 0)) (some (pos 2)))
        ≡ some
            (sliced five (compute_slice_indices 5 (some (pos 1)) (some (negsuc 0)) (some (pos 2)))))
list_slice-sliced_example =
    list_slice-sliced five (some (pos 1)) (some (negsuc 0)) (some (pos 2)) (omega arith)

abbrev parameter : RtType
parameter = type_param (codes "T")

abbrev pairs : List (RtType × RtType)
pairs = (list_type parameter, list_type (basic num_kind)) ∷ []

inferred : substitute parameter (bindings_from_call pairs []) ≡ basic num_kind
unfolding substitute bindings_from_call infer bind_param lookup text_eq
inferred = refl

-- A union is not compatible with itself.
union_irreflexive :
    compatible
      (union_type (type_and (basic num_kind) (type_and (basic str_kind) no_types)))
      (union_type (type_and (basic num_kind) (type_and (basic str_kind) no_types)))
    ≡ false
unfolding compatible
union_irreflexive = refl

bindings_from_call-compatible_example :
    compatible (map_type (basic str_kind) (basic num_kind)) (
      substitute (map_type (basic str_kind) parameter) (
        bindings_from_call
          (pairs
            ++ ((map_type (basic str_kind) parameter, map_type (basic str_kind) (basic num_kind))
                ∷ []))
          []))
    ≡ true
unfolding has_no_union bindings_from_call infer bind_param lookup text_eq compatible
bindings_from_call-compatible_example =
    bindings_from_call-compatible pairs [] (map_type (basic str_kind) parameter)
      (map_type (basic str_kind) (basic num_kind)) refl refl refl
