-- ===== src/Environment.antt =====
-- internal/object/environment.go: scopes and their bindings. The code shares both by pointers: a
-- closure keeps its scope, ShallowCopy shares bindings between two scopes, and a binding can hold
-- the function group of another. So the state is a heap with an address for each scope, binding and
-- function group; an operation takes a heap and returns the next one. Addresses are handed out in
-- order. Names and signatures are numbers, of which the code uses equality only.

pub mod Define
pub mod Scoping
pub mod Resolution
pub mod Steps
pub mod Invariant
use slug.Prelude.{
  ℕ, zero, suc, ◌+◌, Bool, true, false, not, ◌&&◌, ◌||◌, ◌==◌, if◌then◌else◌, Option, none, some,
  List, [], ◌∷◌, ◌++◌,
}

-- The objects as far as this file tells them apart: Go's nil, BINDING_UNINITIALIZED, an object with
-- a signature, a *FunctionGroup, and any other object.
pub data Object : Type 0 where
  nil_object uninitialized : Object
  callable : ℕ → ℕ → Object
  group : ℕ → Object
  plain : ℕ → Object

abbrev pub Text : Type 0
Text = List ℕ

pub record Meta : Type 0 where
  pub is_import : Bool
  pub is_export : Bool
  pub doc : Text
  pub has_doc : Bool

pub record Binding : Type 0 where
  pub value : Object
  pub meta : Meta
  pub is_mutable : Bool

-- A nil map of bindings reads as an empty one.
pub record Environment : Type 0 where
  pub bindings : ℕ → Option ℕ
  pub outer : Option ℕ

pub record FunctionGroup : Type 0 where
  pub functions : List (ℕ × Object)
  pub doc : Text
  pub has_doc : Bool

pub record Heap : Type 0 where
  pub scopes : ℕ → Environment
  pub bindings : ℕ → Binding
  pub groups : ℕ → FunctionGroup
  pub scope_count : ℕ
  pub binding_count : ℕ
  pub group_count : ℕ

-- A map after `m[a] = v`.
abbrev pub set_at : {A : Type 0} → (ℕ → A) → ℕ → A → ℕ → A
set_at m a v i = if a == i then v else m i

abbrev pub with_binding : Heap → ℕ → Binding → Heap
with_binding h b v = record h { bindings = set_at h.bindings b v }

abbrev pub with_group : Heap → ℕ → FunctionGroup → Heap
with_group h g v = record h { groups = set_at h.groups g v }

abbrev pub with_scope : Heap → ℕ → Environment → Heap
with_scope h e v = record h { scopes = set_at h.scopes e v }

abbrev pub empty_group : FunctionGroup
empty_group = record { functions = []; doc = []; has_doc = false }

abbrev pub no_meta : Meta
no_meta = record { is_import = false; is_export = false; doc = []; has_doc = false }

-- Allocation, with the new address.
abbrev pub new_group : Heap → Heap × ℕ
new_group h = (
  record h { groups = set_at h.groups h.group_count empty_group; group_count = suc h.group_count },
  h.group_count,
)

abbrev pub new_scope : Heap → Environment → Heap × ℕ
new_scope h v = (
  record h { scopes = set_at h.scopes h.scope_count v; scope_count = suc h.scope_count },
  h.scope_count,
)

abbrev pub new_binding : Heap → Binding → Heap × ℕ
new_binding h v = (
  record h { bindings = set_at h.bindings h.binding_count v; binding_count = suc h.binding_count },
  h.binding_count,
)

-- The errors of this file.
pub data EnvError : Type 0 where
  duplicate_signature already_defined immutable_value undefined_name : EnvError

pub data Outcome : Type 0 where
  done : Object → Outcome
  failed : EnvError → Outcome

unfoldable pub is_callable_object : Object → Bool
is_callable_object nil_object = false
is_callable_object uninitialized = false
is_callable_object (callable sig id) = true
is_callable_object (group g) = true
is_callable_object (plain id) = false

abbrev pub is_group : Object → Bool
is_group nil_object = false
is_group uninitialized = false
is_group (callable sig id) = false
is_group (group g) = true
is_group (plain id) = false

abbrev pub is_uninitialized : Object → Bool
is_uninitialized nil_object = false
is_uninitialized uninitialized = true
is_uninitialized (callable sig id) = false
is_uninitialized (group g) = false
is_uninitialized (plain id) = false

unfoldable pub new_environment : Heap → Heap × ℕ
new_environment h = new_scope h (record { bindings = λ name. none; outer = none })

unfoldable pub new_enclosed_environment : Heap → ℕ → Heap × ℕ
new_enclosed_environment h outer =
    new_scope h (record { bindings = λ name. none; outer = some outer })

unfoldable pub reset_for_tco : Heap → ℕ → Heap
reset_for_tco h e = with_scope h e (record { bindings = λ name. none; outer = (h.scopes e).outer })

-- The copy has its own map, with the same bindings in it.
unfoldable pub shallow_copy : Heap → ℕ → Heap × ℕ
shallow_copy h e =
    new_scope h (record { bindings = (h.scopes e).bindings; outer = (h.scopes e).outer })

-- The walk along the outer scopes; each unit of fuel is one scope.
unfoldable pub get_binding : ℕ → Heap → ℕ → ℕ → Option ℕ
get_binding zero h e name = none
get_binding (suc f) h e name = elim ((h.scopes e).bindings name) [
  | some b ↦ some b
  | none ↦ elim ((h.scopes e).outer) [ some o ↦ get_binding f h o name | none ↦ none ]
]

-- An outer scope has a lower address, so that a walk from `e` meets `e + 1` scopes at most.
abbrev pub chain_fuel : ℕ → ℕ
chain_fuel e = suc e

unfoldable pub get_local_binding_value : Heap → ℕ → ℕ → Option (Object × ℕ)
get_local_binding_value h e name = elim ((h.scopes e).bindings name) [
  | some b ↦ some ((h.bindings b).value, b)
  | none ↦ none
]

unfoldable pub get : Heap → ℕ → ℕ → Option Object
get h e name = elim (get_binding (chain_fuel e) h e name) [
  | some b ↦ some (h.bindings b).value
  | none ↦ none
]

unfoldable pub has_signature : ℕ → List (ℕ × Object) → Bool
has_signature sig [] = false
has_signature sig ((s, fn) ∷ functions) = s == sig || has_signature sig functions

-- The functions of the group after the call, and whether it returned an error.
unfoldable pub add_function_with_signature :
    List (ℕ × Object) → ℕ → Object → List (ℕ × Object) × Bool
unfolding has_signature
add_function_with_signature functions sig fn =
    if has_signature sig functions
    then (functions, true)
    else (functions ++ ((sig, fn) ∷ []), false)

-- The range loop over another group; what was added before an error stays.
unfoldable pub add_functions : List (ℕ × Object) → List (ℕ × Object) → List (ℕ × Object) × Bool
unfolding add_function_with_signature
add_functions functions [] = (functions, false)
add_functions functions ((sig, fn) ∷ more) =
    let (next, bad) = add_function_with_signature functions sig fn in
    let rest = add_functions next more in if bad then (functions, true) else rest
