-- ===== src/Arguments/Complete.antt =====
-- Which values the parameters of a call get in bindVMArgumentsInto of internal/vm/executor.go.
use slug.Prelude.{
  ℕ, ◌≡◌, refl, Bool, true, false, Option, some, List, [], ◌∷◌, ◌++◌, length, arith, map, subst,
  append-nil, length-append,
}
use slug.Arguments.{
  VmParam, too_many_arguments, ok, failed, bind_named, fill, fill_variadic, has_variadic,
  bind_positional, bind_defaults, no_values, bind_arguments,
}

module _ {V : Type 0} (list_of : List V → V) (is_list : V → Bool) {W : Type 0}
    (run_default : ℕ → W → W × Option V) where
  -- Slots that all have a value keep their values.
  bind_defaults_full :
      (params : List VmParam) (vs : List V) (w : W)
      → length vs ≡ length params
      → bind_defaults list_of is_list run_default params (map some vs) w ≡ (w, ok vs)
  unfolding bind_defaults
  bind_defaults_full [] [] w e = refl
  bind_defaults_full [] (v ∷ vs) w e = absurd (omega arith)
  bind_defaults_full (p ∷ params) [] w e = absurd (omega arith)
  bind_defaults_full (p ∷ params) (v ∷ vs) w e =
      rw (bind_defaults, bind_defaults_full params vs w (omega arith)) refl

  fill_all :
      (params : List VmParam) (args left : List V)
      → length args ≡ length params
      → fill list_of is_list (no_values list_of is_list run_default params) (args ++ left)
        ≡ (map some args, left)
  unfolding fill
  fill_all [] [] [] e = refl
  fill_all [] [] (v ∷ left) e = refl
  fill_all [] (v ∷ vs) left e = absurd (omega arith)
  fill_all (p ∷ params) [] left e = absurd (omega arith)
  fill_all (p ∷ params) (v ∷ vs) left e = rw (fill, fill_all params vs left (omega arith)) refl

  fill_variadic_all :
      (p : VmParam) (params : List VmParam) (args left : List V)
      → length args ≡ length params
      → fill_variadic list_of is_list
          (no_values list_of is_list run_default (p ∷ params))
          (args ++ left)
        ≡ ok (map some (args ++ (list_of left ∷ [])))
  unfolding fill_variadic
  fill_variadic_all p [] [] left e = refl
  fill_variadic_all p [] (v ∷ vs) left e = absurd (omega arith)
  fill_variadic_all p (q ∷ params) [] left e = absurd (omega arith)
  fill_variadic_all p (q ∷ params) (v ∷ vs) left e =
      rw (fill_variadic, fill_variadic_all q params vs left (omega arith)) refl

  -- A call without named arguments of a function with no variadic parameter, with as many
  -- arguments as parameters, gives the parameters the arguments in order and runs no default.
  pub bind_arguments_positional :
      (params : List VmParam) (args : List V) (w : W)
      → has_variadic list_of is_list params ≡ false
      → length args ≡ length params
      → bind_arguments list_of is_list run_default params args [] w ≡ (w, ok args)
  unfolding bind_arguments bind_named bind_positional
  bind_arguments_positional params args w v e =
      let slots = no_values list_of is_list run_default params in
      let filled =
        subst (λ t. fill list_of is_list slots t ≡ (map some args, [])) (append-nil args)
          (fill_all params args [] e) in
      rw (bind_arguments, v, filled, filled) (bind_defaults_full params args w e)

  -- A call without named arguments of a function with a variadic parameter, with at least as many
  -- arguments as it has other parameters, gives these the first arguments and the variadic one
  -- the list of the others.
  pub bind_arguments_variadic :
      (p : VmParam) (params : List VmParam) (args left : List V) (w : W)
      → has_variadic list_of is_list (p ∷ params) ≡ true
      → length args ≡ length params
      → bind_arguments list_of is_list run_default (p ∷ params) (args ++ left) [] w
        ≡ (w, ok (args ++ (list_of left ∷ [])))
  unfolding bind_arguments bind_named bind_positional
  bind_arguments_variadic p params args left w v e =
      rw (bind_arguments, v, fill_variadic_all p params args left e)
        (bind_defaults_full (p ∷ params) (args ++ (list_of left ∷ [])) w
          (omega (arith, length-append args (list_of left ∷ []))))

  -- A call without named arguments of a function with no variadic parameter fails with too many
  -- arguments where there are more arguments than parameters, and runs no default.
  pub bind_arguments_too_many :
      (params : List VmParam) (args : List V) (extra : V) (left : List V) (w : W)
      → has_variadic list_of is_list params ≡ false
      → length args ≡ length params
      → bind_arguments list_of is_list run_default params (args ++ (extra ∷ left)) [] w
        ≡ (w, failed too_many_arguments)
  unfolding bind_arguments bind_named bind_positional
  bind_arguments_too_many params args extra left w v e =
      rw (bind_arguments, v, fill_all params args (extra ∷ left) e) refl
