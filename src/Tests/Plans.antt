-- ===== src/Tests/Plans.antt =====
-- The arguments of f(1, ...[2, 3], k = 4) on a stack, at fixed inputs.
use slug.Prelude.{ℕ, ◌≡◌, refl, none, some, List, [], ◌∷◌, Option, ◌==◌, if◌then◌else◌}
use slug.Arguments.Plan.{
  CallArgKind, CallArgSpec, planned, rejected, stack_underflow, all_positional, pop_args, has_name,
  sort_args, pop_call_arguments, pop_call_arguments_lem,
}

-- The object 9 is the list of 2 and 3.
abbrev elements : ℕ → Option (List ℕ)
elements v = if v == 9 then some (2 ∷ 3 ∷ []) else none

abbrev spec : CallArgKind → ℕ → CallArgSpec
spec kind name = record { kind = kind; name = name }

abbrev plan : List CallArgSpec
plan =
    spec CallArgKind.positional_arg 0
    ∷ spec CallArgKind.spread_arg 0
    ∷ spec CallArgKind.named_arg 5
    ∷ []

mixed_call :
    pop_call_arguments elements 3 plan (4 ∷ 9 ∷ 1 ∷ 8 ∷ [])
    ≡ (8 ∷ [], planned (1 ∷ 2 ∷ 3 ∷ [], (5, 4) ∷ []))
unfolding pop_call_arguments pop_args all_positional sort_args has_name
mixed_call = refl

pop_call_arguments_lem_example :
    pop_call_arguments elements 3 plan (4 ∷ 9 ∷ 1 ∷ 8 ∷ [])
    ≡ elim (pop_args {V = ℕ} 3 (4 ∷ 9 ∷ 1 ∷ 8 ∷ [])) [
      | none ↦ ([], rejected stack_underflow)
      | some out ↦ (out.1, sort_args elements plan out.0 [] [])
    ]
pop_call_arguments_lem_example = pop_call_arguments_lem elements 3 plan (4 ∷ 9 ∷ 1 ∷ 8 ∷ []) refl
