-- ===== src/Arguments/Plan.antt =====
-- popCallArguments of internal/vm/executor.go: the arguments of a call are taken from the stack, and
-- the plan of the call tells the positional, spread and named ones apart. The stack is a list with
-- its top first. The number of arguments is an operand of the instruction and not negative.
use slug.Prelude.{
  ℕ, zero, suc, ◌≡◌, refl, sym, ◌∙◌, ap, Bool, true, false, ◌&&◌, ◌||◌, ◌==◌, if◌then◌else◌, Option,
  none, some, List, [], ◌∷◌, ◌++◌, length, append-nil, append_assoc, length-append, arith,
  Bool-cases, inl, inr, ◌⊎◌,
}

pub data CallArgKind : Type 0 where
  positional_arg named_arg spread_arg : CallArgKind

pub record CallArgSpec : Type 0 where
  pub kind : CallArgKind
  pub name : ℕ

pub data PlanError : Type 0 where
  invalid_metadata stack_underflow spread_not_list duplicate_named : PlanError

pub data Planned (A : Type 0) : Type 0 where
  planned : A → Planned A
  rejected : PlanError → Planned A

abbrev pub is_positional : CallArgKind → Bool
is_positional CallArgKind.positional_arg = true
is_positional CallArgKind.named_arg = false
is_positional CallArgKind.spread_arg = false

unfoldable pub all_positional : List CallArgSpec → Bool
all_positional [] = true
all_positional (spec ∷ plan) = is_positional spec.kind && all_positional plan

module _ {V : Type 0} where
  -- The arguments in order, and the stack under them: the top is the last argument.
  unfoldable pub pop_args : ℕ → List V → Option (List V × List V)
  pop_args zero stack = some ([], stack)
  pop_args (suc n) [] = none
  pop_args (suc n) (top ∷ stack) = elim (pop_args n stack) [
    | some out ↦ some (out.0 ++ (top ∷ []), out.1)
    | none ↦ none
  ]

  unfoldable pub has_name : ℕ → List (ℕ × V) → Bool
  has_name name [] = false
  has_name name ((other, val) ∷ named) = other == name || has_name name named

  -- The loop over the plan; `elements` gives those of an object that is a list.
  unfoldable pub sort_args :
      (V → Option (List V))
      → List CallArgSpec
      → List V
      → List V
      → List (ℕ × V)
      → Planned (List V × List (ℕ × V))
  unfolding has_name
  sort_args elements [] args pos named = planned (pos, named)
  sort_args elements (spec ∷ plan) [] pos named = rejected invalid_metadata
  sort_args elements (spec ∷ plan) (val ∷ args) pos named = elim (spec.kind) [
    | CallArgKind.positional_arg ↦ sort_args elements plan args (pos ++ (val ∷ [])) named
    | CallArgKind.spread_arg ↦ elim (elements val) [
      | some vals ↦ sort_args elements plan args (pos ++ vals) named
      | none ↦ rejected spread_not_list
    ]
    | CallArgKind.named_arg ↦
        let rest = sort_args elements plan args pos (named ++ ((spec.name, val) ∷ [])) in
        if has_name spec.name named then rejected duplicate_named else rest
  ]

  -- With the stack after the call.
  unfoldable pub pop_call_arguments :
      (V → Option (List V))
      → ℕ
      → List CallArgSpec
      → List V
      → List V × Planned (List V × List (ℕ × V))
  unfolding all_positional pop_args sort_args
  pop_call_arguments elements count plan stack =
      if length plan == count
      then elim (pop_args count stack) [
        | none ↦ ([], rejected stack_underflow)
        | some out ↦ (
          out.1,
          if all_positional plan then planned (out.0, []) else sort_args elements plan out.0 [] [],
        )
      ]
      else (stack, rejected invalid_metadata)

  sort_args-all_positional :
      (elements : V → Option (List V)) (plan : List CallArgSpec) (args pos : List V)
      (named : List (ℕ × V))
      → length plan ≡ length args
      → all_positional plan ≡ true
      → sort_args elements plan args pos named ≡ planned (pos ++ args, named)
  unfolding sort_args all_positional
  sort_args-all_positional elements [] [] pos named e h =
      ap (λ t. planned (t, named)) (sym (append-nil pos))
  sort_args-all_positional elements [] (val ∷ args) pos named e h = absurd (omega arith)
  sort_args-all_positional elements (spec ∷ plan) [] pos named e h = absurd (omega arith)
  sort_args-all_positional elements (spec ∷ plan) (val ∷ args) pos named e h =
      let (first, others) = both (is_positional spec.kind) (all_positional plan) h in
      rw (kind_of spec.kind first) (
        sort_args-all_positional elements plan args (pos ++ (val ∷ [])) named (omega arith) others
        ∙ ap (λ t. planned (t, named)) (append_assoc pos (val ∷ []) args))
    where
      both : (x y : Bool) → (x && y) ≡ true → (x ≡ true) × (y ≡ true)
      both x y p = ground arith

      kind_of : (k : CallArgKind) → is_positional k ≡ true → k ≡ CallArgKind.positional_arg
      kind_of CallArgKind.positional_arg p = refl
      kind_of CallArgKind.named_arg p = cc (p)
      kind_of CallArgKind.spread_arg p = cc (p)

  -- Either the stack is too short or there are as many arguments as were asked for.
  popped :
      (count : ℕ) (stack : List V)
      → (pop_args count stack ≡ none)
        ⊎ ((out : List V × List V) × (pop_args count stack ≡ some out) × (length out.0 ≡ count))
  unfolding pop_args
  popped zero stack = inr (([], stack), refl, refl)
  popped (suc n) [] = inl refl
  popped (suc n) (top ∷ stack) = elim (popped n stack) [
    | inl e ↦ inl (rw (pop_args, e) refl)
    | inr (out, e, l) ↦ inr (
      (out.0 ++ (top ∷ []), out.1),
      rw (pop_args, e) refl,
      omega (arith, length-append out.0 (top ∷ []), l),
    )
  ]

  -- With a plan for each argument, the arguments are those that the loop over the plan gives, or
  -- a stack underflow: the short way for positional arguments gives the same.
  pub pop_call_arguments_lem :
      (elements : V → Option (List V)) (count : ℕ) (plan : List CallArgSpec) (stack : List V)
      → length plan ≡ count
      → pop_call_arguments elements count plan stack ≡ elim (pop_args count stack) [
        | none ↦ ([], rejected stack_underflow)
        | some out ↦ (out.1, sort_args elements plan out.0 [] [])
      ]
  unfolding pop_call_arguments
  pop_call_arguments_lem elements count plan stack l =
      let right_count : (length plan == count) ≡ true = ground arith in
      elim (popped count stack) [
        | inl e ↦ rw (pop_call_arguments, right_count, e) refl
        | inr (out, e, m) ↦ elim (Bool-cases (all_positional plan)) [
          | inr n ↦ rw (pop_call_arguments, right_count, e, n) refl
          | inl y ↦
              let same = sort_args-all_positional elements plan out.0 [] [] (l ∙ sym m) y in
              rw (pop_call_arguments, right_count, e, y, same) refl
        ]
      ]
