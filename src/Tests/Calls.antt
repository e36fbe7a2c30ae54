-- ===== src/Tests/Calls.antt =====
-- Calls at fixed inputs: f(1, 2), and g(a, rest...) with three arguments. An object is a list here.
use slug.Prelude.{ℕ, suc, ◌≡◌, refl, true, false, none, some, List, [], ◌∷◌, ◌++◌, Bool, Option}
use slug.Arguments.{
  VmParam, ok, failed, too_many_arguments, bind_arguments, has_variadic, bind_named, bind_named_at,
  param_index, is_variadic_at, bind_positional, fill, bind_defaults, missing_value, default_value,
}
use slug.Arguments.Complete.{
  bind_arguments_positional, bind_arguments_variadic, bind_arguments_too_many,
}

abbrev Obj : Type 0
Obj = List ℕ

abbrev number : ℕ → Obj
number n = n ∷ []

abbrev list_of : List Obj → Obj
list_of [] = []
list_of (x ∷ xs) = x ++ list_of xs

abbrev is_list : Obj → Bool
is_list x = true

abbrev run_default : ℕ → ℕ → ℕ × Option Obj
run_default chunk w = (suc w, some (number chunk))

abbrev a : VmParam
a = record { name = 1; is_variadic = false; default = none }

abbrev b : VmParam
b = record { name = 2; is_variadic = false; default = some 40 }

abbrev rest : VmParam
rest = record { name = 3; is_variadic = true; default = none }

-- f(b = 5, 1), and f(1), which runs the default of b.
named_first :
    bind_arguments list_of is_list run_default (a ∷ b ∷ []) (number 1 ∷ []) ((2, number 5) ∷ []) 0
    ≡ (0, ok (number 1 ∷ number 5 ∷ []))
unfolding bind_arguments bind_named bind_named_at param_index is_variadic_at bind_positional
    has_variadic fill bind_defaults
named_first = refl

default_runs :
    bind_arguments list_of is_list run_default (a ∷ b ∷ []) (number 1 ∷ []) [] 0
    ≡ (1, ok (number 1 ∷ number 40 ∷ []))
unfolding bind_arguments bind_named bind_positional has_variadic fill bind_defaults missing_value
    default_value
default_runs = refl

bind_arguments_positional_example :
    bind_arguments list_of is_list run_default (a ∷ b ∷ []) (number 1 ∷ number 2 ∷ []) [] 0
    ≡ (0, ok (number 1 ∷ number 2 ∷ []))
unfolding has_variadic
bind_arguments_positional_example =
    bind_arguments_positional list_of is_list run_default (a ∷ b ∷ []) (number 1 ∷ number 2 ∷ []) 0
      refl refl

bind_arguments_variadic_example :
    bind_arguments list_of is_list run_default
      (a ∷ rest ∷ [])
      (number 1 ∷ number 2 ∷ number 3 ∷ [])
      []
      0
    ≡ (0, ok (number 1 ∷ (2 ∷ 3 ∷ []) ∷ []))
unfolding has_variadic
bind_arguments_variadic_example =
    bind_arguments_variadic list_of is_list run_default a (rest ∷ []) (number 1 ∷ [])
      (number 2 ∷ number 3 ∷ []) 0 refl refl

bind_arguments_too_many_example :
    bind_arguments list_of is_list run_default (a ∷ []) (number 1 ∷ number 2 ∷ []) [] 0
    ≡ (0, failed too_many_arguments)
unfolding has_variadic
bind_arguments_too_many_example =
    bind_arguments_too_many list_of is_list run_default (a ∷ []) (number 1 ∷ []) (number 2) [] 0
      refl refl
