-- ===== src/Arguments.antt =====
-- internal/vm/executor.go: the binding of arguments to the parameters of a function
-- (bindVMArgumentsInto). A slot of the two buffers `values` and `provided` is an option. Named
-- arguments are a list in the order in which the range loop over the Go map runs.
pub mod Complete
pub mod Plan
use slug.Prelude.{
  ℕ, zero, suc, ◌+◌, Bool, true, false, not, ◌&&◌, ◌||◌, ◌==◌, if◌then◌else◌, Option, none, some,
  List, [], ◌∷◌, length, get_elem?, set,
}

pub record VmParam : Type 0 where
  pub name : ℕ
  pub is_variadic : Bool
  pub default : Option ℕ

pub data BindError : Type 0 where
  unknown_named_parameter duplicate_assignment variadic_not_list : BindError
  too_many_arguments missing_parameter default_failed : BindError

pub data Bound (A : Type 0) : Type 0 where
  ok : A → Bound A
  failed : BindError → Bound A

abbrev pub then_bound : {A B : Type 0} → Bound A → (A → Bound B) → Bound B
then_bound (ok a) f = f a
then_bound (failed err) f = failed err

-- `index[p.Name] = i`, in order: the last parameter of a name counts. `i` is the next index.
unfoldable pub param_index : ℕ → List VmParam → ℕ → Option ℕ
param_index i [] name = none
param_index i (p ∷ params) name = elim (param_index (suc i) params name) [
  | some j ↦ some j
  | none ↦ if p.name == name then some i else none
]

unfoldable pub is_variadic_at : List VmParam → ℕ → Bool
is_variadic_at params i = elim (get_elem? params i) [ some p ↦ p.is_variadic | none ↦ false ]

-- The arguments are objects, of which some are lists.
module _ {V : Type 0} (list_of : List V → V) (is_list : V → Bool) where
  abbrev pub Slots : Type 0
  Slots = List (Option V)

  abbrev pub is_provided : Slots → ℕ → Bool
  is_provided slots i = elim (get_elem? slots i) [
    | some (some v) ↦ true
    | some none ↦ false
    | none ↦ false
  ]

  unfoldable pub bind_named_at : List VmParam → ℕ → V → Slots → Bound Slots
  unfolding is_variadic_at
  bind_named_at params i val slots =
      if is_provided slots i
      then failed duplicate_assignment
      else (if is_variadic_at params i && not (is_list val)
          then failed variadic_not_list
          else ok (set slots i (some val)))

  unfoldable pub bind_named : List VmParam → List (ℕ × V) → Slots → Bound Slots
  unfolding bind_named_at
  bind_named params [] slots = ok slots
  bind_named params ((name, val) ∷ named) slots = elim (param_index 0 params name) [
    | none ↦ failed unknown_named_parameter
    | some i ↦ then_bound (bind_named_at params i val slots) (bind_named params named)
  ]

  -- The loop that gives positional arguments to the slots without a value, and what it leaves.
  unfoldable pub fill : Slots → List V → Slots × List V
  fill [] args = ([], args)
  fill (slot ∷ slots) [] = (slot ∷ slots, [])
  fill (some v ∷ slots) (arg ∷ args) =
      let (rest, left) = fill slots (arg ∷ args) in (some v ∷ rest, left)
  fill (none ∷ slots) (arg ∷ args) = let (rest, left) = fill slots args in (some arg ∷ rest, left)

  -- Positional arguments over slots of which the last is for the variadic parameter.
  unfoldable pub fill_variadic : Slots → List V → Bound Slots
  fill_variadic [] args = ok []
  fill_variadic (some v ∷ []) [] = ok (some v ∷ [])
  fill_variadic (some v ∷ []) (arg ∷ args) = failed too_many_arguments
  fill_variadic (none ∷ []) args = ok (some (list_of args) ∷ [])
  fill_variadic (some v ∷ next ∷ slots) args =
      then_bound (fill_variadic (next ∷ slots) args) (λ rest. ok (some v ∷ rest))
  fill_variadic (none ∷ next ∷ slots) [] =
      then_bound (fill_variadic (next ∷ slots) []) (λ rest. ok (none ∷ rest))
  fill_variadic (none ∷ next ∷ slots) (arg ∷ args) =
      then_bound (fill_variadic (next ∷ slots) args) (λ rest. ok (some arg ∷ rest))

  abbrev pub nothing_left : Slots × List V → Bound Slots
  nothing_left (slots, []) = ok slots
  nothing_left (slots, arg ∷ args) = failed too_many_arguments

  unfoldable pub has_variadic : List VmParam → Bool
  has_variadic [] = false
  has_variadic (p ∷ []) = p.is_variadic
  has_variadic (p ∷ q ∷ params) = has_variadic (q ∷ params)

  unfoldable pub bind_positional : List VmParam → List V → Slots → Bound Slots
  unfolding fill fill_variadic has_variadic
  bind_positional params args slots =
      if has_variadic params then fill_variadic slots args else nothing_left (fill slots args)

  -- Defaults run on a state, in the order of the parameters; `none` is a default that failed.
  module _ {W : Type 0} (run_default : ℕ → W → W × Option V) where
    unfoldable pub default_value : VmParam → W → W × Bound V
    default_value p w = elim (p.default) [
      | none ↦ (w, failed missing_parameter)
      | some chunk ↦
          let (w', value) = run_default chunk w in
          (w', elim value [ some v ↦ ok v | none ↦ failed default_failed ])
    ]

    unfoldable pub missing_value : VmParam → W → W × Bound V
    unfolding default_value
    missing_value p w = if p.is_variadic then (w, ok (list_of [])) else default_value p w

    unfoldable pub bind_defaults : List VmParam → Slots → W → W × Bound (List V)
    unfolding missing_value
    bind_defaults [] slots w = (w, ok [])
    bind_defaults (p ∷ params) [] w = (w, failed missing_parameter)
    bind_defaults (p ∷ params) (some v ∷ slots) w =
        let (w', rest) = bind_defaults params slots w in (w', then_bound rest (λ vs. ok (v ∷ vs)))
    bind_defaults (p ∷ params) (none ∷ slots) w =
        let (w', value) = missing_value p w in
        elim value [
          | failed err ↦ (w', failed err)
          | ok v ↦
              let (w'', rest) = bind_defaults params slots w' in
              (w'', then_bound rest (λ vs. ok (v ∷ vs)))
        ]

    abbrev pub no_values : List VmParam → Slots
    no_values [] = []
    no_values (p ∷ params) = none ∷ no_values params

    -- The values of the parameters, in their order.
    unfoldable pub bind_arguments : List VmParam → List V → List (ℕ × V) → W → W × Bound (List V)
    bind_arguments params positional named w =
        elim (then_bound (bind_named params named (no_values params))
          (bind_positional params positional)) [
            | ok slots ↦ bind_defaults params slots w
            | failed err ↦ (w, failed err)
          ]
