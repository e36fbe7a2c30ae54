-- ===== src/Tests/Scopes.antt =====
-- Scopes at fixed inputs: a module scope with a `val` and a `var`, and a function's scope in it.
use slug.Prelude.{◌≡◌, ◌↔◌, refl, true, false, none, some, ◌==◌, if◌then◌else◌, arith}
use slug.Environment.{
  plain, callable, Heap, done, failed, undefined_name, get_binding, get, new_environment,
  new_enclosed_environment, empty_group, no_meta, is_callable_object, add_function_with_signature,
  has_signature, duplicate_signature, already_defined, nil_object,
}
use slug.Environment.Define.{
  define, define_into, may_define, merge_callable_into_binding, group_of, merged_functions, assign,
  assign_binding, assigned,
}
use slug.Environment.Scoping.{IsWellFormed, assign-get_binding, get-assign}
use slug.Environment.Resolution.{Resolves, get_binding-Resolves}
use slug.Environment.Steps.{
  Steps, stop, next, new_step, define_step, enclosed_step, KeepsConstant, Steps-KeepsConstant,
}
use slug.Environment.Invariant.{Steps-IsWellFormed}

abbrev start : Heap
start = record {
  scopes = λ e. record { bindings = λ name. none; outer = none };
  bindings = λ b. record { value = nil_object; meta = no_meta; is_mutable = false };
  groups = λ g. empty_group;
  scope_count = 0;
  binding_count = 0;
  group_count = 0;
}

abbrev declared : Heap
unfolding new_environment define define_into
declared =
    (define (define (new_environment start).0 0 7 (plain 5) false false false).0 0 8 (plain 6) true
      false false).0

-- Scope 1 is in scope 0; the name 7 is the `val`, the name 8 the `var`.
abbrev nested : Heap
unfolding new_enclosed_environment
nested = (new_enclosed_environment declared 0).0

shadowed : get (assign 2 nested 1 8 (plain 9)).0 1 8 ≡ some (plain 9)
unfolding nested declared new_environment new_enclosed_environment define define_into may_define
    is_callable_object assign assign_binding assigned get get_binding
shadowed = refl

val_is_fixed : (define declared 0 7 (plain 1) true false false).1 ≡ failed already_defined
unfolding declared new_environment define define_into may_define is_callable_object
val_is_fixed = refl

overload_twice :
    (define
      (define declared 0 9 (callable 3 0) false false false).0
      0
      9
      (callable 3 1)
      false
      false
      false).1
    ≡ failed duplicate_signature
unfolding declared new_environment define define_into may_define is_callable_object
    merge_callable_into_binding group_of merged_functions add_function_with_signature has_signature
overload_twice = refl

start-IsWellFormed : IsWellFormed start
start-IsWellFormed = record {
  outer_is_older = λ e o p. ground arith;
  bindings_exist = λ e name b p. ground arith;
}

to_declared : Steps start declared
unfolding declared
to_declared = next _ _ _ (new_step start) (
    next _ _ _ (define_step _ 0 7 (plain 5) false false false)
      (next _ _ _ (define_step _ 0 8 (plain 6) true false false) (stop _)))

to_nested : Steps declared nested
unfolding declared nested new_environment define define_into is_callable_object
to_nested = next _ _ _ (enclosed_step declared 0 (omega arith)) (stop _)

Steps-IsWellFormed_example : IsWellFormed declared
Steps-IsWellFormed_example = Steps-IsWellFormed start declared to_declared start-IsWellFormed

nested-IsWellFormed : IsWellFormed nested
nested-IsWellFormed =
    Steps-IsWellFormed declared nested to_nested
      (Steps-IsWellFormed start declared to_declared start-IsWellFormed)

Steps-KeepsConstant_example : KeepsConstant 0 declared nested
unfolding declared nested new_environment define define_into is_callable_object
Steps-KeepsConstant_example = Steps-KeepsConstant declared nested 0 to_nested (omega arith) refl

get_binding-Resolves_example : (get_binding 2 nested 1 8 ≡ some 1) ↔ Resolves nested 8 1 (some 1)
get_binding-Resolves_example = get_binding-Resolves nested 8 1 (some 1) nested-IsWellFormed

assign-get_binding_example : assign 2 nested 1 8 (plain 9) ≡ elim (get_binding 2 nested 1 8) [
  | some b ↦ assign_binding nested b (plain 9)
  | none ↦ (nested, failed undefined_name)
]
assign-get_binding_example = assign-get_binding 2 nested 1 8 (plain 9)

get-assign_example :
    let out = assign 2 nested 1 8 (plain 9) in
    (out.1 ≡ done (plain 9)) × (get out.0 0 7 ≡ (if 1 == 0 then some (plain 9) else get nested 0 7))
unfolding nested declared new_environment new_enclosed_environment define define_into may_define
    is_callable_object get_binding get assign
get-assign_example = get-assign nested 1 8 1 (plain 9) 0 7 0 refl refl refl refl
