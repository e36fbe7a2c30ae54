-- ===== src/Environment/Define.antt =====
-- internal/object/environment.go: define, Assign and SetLocalDoc, which change bindings.
use slug.Prelude.{
  ℕ, zero, suc, Bool, true, false, ◌&&◌, ◌||◌, ◌==◌, if◌then◌else◌, none, some, List, [], ◌∷◌,
}
use slug.Environment.{
  Object, nil_object, uninitialized, callable, group, plain, Meta, Binding, Heap, Text,
  duplicate_signature, already_defined, immutable_value, undefined_name, Outcome, done, failed,
  is_callable_object, is_group, is_uninitialized, add_functions, add_function_with_signature,
  with_binding, with_group, with_scope, new_group, new_binding, set_at, no_meta,
}

-- The group that a binding holds, or a new one.
unfoldable pub group_of : Heap → Object → Heap × ℕ
group_of h nil_object = new_group h
group_of h uninitialized = new_group h
group_of h (callable sig id) = new_group h
group_of h (group g) = (h, g)
group_of h (plain id) = new_group h

-- The functions that a callable adds to those of a group, with whether an error stopped it. The
-- objects that are not callable give the internal error of the code.
unfoldable pub merged_functions : Heap → List (ℕ × Object) → Object → List (ℕ × Object) × Bool
unfolding add_functions add_function_with_signature
merged_functions h functions nil_object = (functions, true)
merged_functions h functions uninitialized = (functions, true)
merged_functions h functions (callable sig id) =
    add_function_with_signature functions sig (callable sig id)
merged_functions h functions (group g) = add_functions functions (h.groups g).functions
merged_functions h functions (plain id) = (functions, true)

abbrev pub with_functions : Heap → ℕ → List (ℕ × Object) → Heap
with_functions h g functions = with_group h g (record (h.groups g) { functions = functions })

abbrev pub with_value : Heap → ℕ → Object → Heap
with_value h b v = with_binding h b (record (h.bindings b) { value = v })

unfoldable pub merge_callable_into_binding : Heap → ℕ → Object → Heap × Bool
unfolding group_of merged_functions
merge_callable_into_binding h b val =
    let (h', g) = group_of h (h.bindings b).value in
    let (functions, bad) = merged_functions h' (h'.groups g).functions val in
    let changed = with_functions h' g functions in
    if bad then (changed, true) else (with_value changed b (group g), false)

-- Whether `define` goes on with a binding that exists.
unfoldable pub may_define : Binding → Object → Bool
unfolding is_callable_object
may_define binding val =
    binding.is_mutable
    || is_uninitialized binding.value
    || binding.meta.is_import
    || (is_callable_object val && is_group binding.value)

abbrev pub redefined : Meta → Bool → Bool → Meta
redefined m is_exported is_import = record {
  is_import = is_import;
  is_export = is_exported;
  doc = m.doc;
  has_doc = m.has_doc;
}

abbrev pub bound : Heap → ℕ → ℕ → ℕ → Heap
bound h e name b =
    with_scope h e (record (h.scopes e) { bindings = set_at (h.scopes e).bindings name (some b) })

-- The second half of `define`, on the binding that it found or made.
unfoldable pub define_into : Heap → ℕ → ℕ → ℕ → Object → Bool → Bool → Heap × Outcome
unfolding merge_callable_into_binding is_callable_object
define_into h e name b val is_exported is_import =
    let old = h.bindings b in
    let h₁ = with_binding h b (record old { meta = redefined old.meta is_exported is_import }) in
    let (h₂, bad) = merge_callable_into_binding h₁ b val in
    if is_callable_object val
    then (if bad then (h₂, failed duplicate_signature) else (bound h₂ e name b, done val))
    else (bound (with_value h₁ b val) e name b, done val)

unfoldable pub define : Heap → ℕ → ℕ → Object → Bool → Bool → Bool → Heap × Outcome
unfolding may_define define_into
define h e name val is_mutable is_exported is_import = elim ((h.scopes e).bindings name) [
  | some b ↦
      if may_define (h.bindings b) val
      then define_into h e name b val is_exported is_import
      else (h, failed already_defined)
  | none ↦
      let fresh =
        new_binding h (record { value = nil_object; meta = no_meta; is_mutable = is_mutable }) in
      define_into fresh.0 e name fresh.1 val is_exported is_import
]

-- `fg.Functions[sig] = val`
unfoldable pub put_function : ℕ → Object → List (ℕ × Object) → List (ℕ × Object)
put_function sig val [] = (sig, val) ∷ []
put_function sig val ((s, fn) ∷ functions) =
    let rest = put_function sig val functions in
    if s == sig then (sig, val) ∷ functions else (s, fn) ∷ rest

-- The heap after the value switch of Assign.
unfoldable pub assigned : Heap → ℕ → Object → Heap
unfolding group_of put_function
assigned h b (callable sig id) =
    let (h', g) = group_of h (h.bindings b).value in
    with_value (with_functions h' g (put_function sig (callable sig id) (h'.groups g).functions)) b
      (group g)
assigned h b nil_object = with_value h b nil_object
assigned h b uninitialized = with_value h b uninitialized
assigned h b (group g) = with_value h b (group g)
assigned h b (plain id) = with_value h b (plain id)

-- Assign, on the binding of the name.
unfoldable pub assign_binding : Heap → ℕ → Object → Heap × Outcome
unfolding assigned
assign_binding h b val =
    let old = h.bindings b in
    let h₁ = with_binding h b (record old { meta = record (old.meta) { is_import = false } }) in
    if old.is_mutable then (assigned h₁ b val, done val) else (h, failed immutable_value)

-- With one unit of fuel for each scope on the way out.
unfoldable pub assign : ℕ → Heap → ℕ → ℕ → Object → Heap × Outcome
unfolding assign_binding
assign zero h e name val = (h, failed undefined_name)
assign (suc f) h e name val = elim ((h.scopes e).bindings name) [
  | some b ↦ assign_binding h b val
  | none ↦ elim ((h.scopes e).outer) [
    | some o ↦ assign f h o name val
    | none ↦ (h, failed undefined_name)
  ]
]

-- The documentation of a binding, and of its function group.
unfoldable pub documented : Heap → ℕ → Text → Object → Heap
documented h b doc (group g) = with_group h g (record (h.groups g) { doc = doc; has_doc = true })
documented h b doc nil_object = h
documented h b doc uninitialized = h
documented h b doc (callable sig id) = h
documented h b doc (plain id) = h

abbrev pub described : Heap → ℕ → Text → Heap
described h b doc =
    let old = h.bindings b in
    with_binding h b (record old { meta = record (old.meta) { doc = doc; has_doc = true } })

unfoldable pub set_local_doc : Heap → ℕ → ℕ → Text → Heap
unfolding documented
set_local_doc h e name doc = elim ((h.scopes e).bindings name) [
  | none ↦ h
  | some b ↦ documented (described h b doc) b doc (h.bindings b).value
]
