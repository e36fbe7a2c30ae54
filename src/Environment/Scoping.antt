-- ===== src/Environment/Scoping.antt =====
-- Lookup along the scopes of internal/object/environment.go, and what it reads after Assign.
use slug.Prelude.{
  ℕ, zero, suc, ◌<◌, ◌≡◌, refl, sym, ◌∙◌, ap, Bool, true, false, ◌==◌, if◌then◌else◌, none, some,
  arith, Option-cases, inl, inr,
}
use slug.Environment.{
  Object, Heap, done, failed, undefined_name, get_binding, chain_fuel, get, is_callable_object,
  nil_object, uninitialized, callable, group, plain,
}
use slug.Environment.Define.{assign, assign_binding, assigned}

-- Addresses in the heap have been handed out, and an outer scope is older than its inner one.
pub record IsWellFormed (h : Heap) : Type 0 where
  pub outer_is_older : (e o : ℕ) → (h.scopes e).outer ≡ some o → o < e
  pub bindings_exist : (e name b : ℕ) → (h.scopes e).bindings name ≡ some b → b < h.binding_count

-- A round of each of the two walks.
get_binding-suc :
    (f : ℕ) (h : Heap) (e name : ℕ)
    → get_binding (suc f) h e name ≡ elim ((h.scopes e).bindings name) [
      | some b ↦ some b
      | none ↦ elim ((h.scopes e).outer) [ some o ↦ get_binding f h o name | none ↦ none ]
    ]
unfolding get_binding
get_binding-suc f h e name = refl

assign-suc :
    (f : ℕ) (h : Heap) (e name : ℕ) (val : Object)
    → assign (suc f) h e name val ≡ elim ((h.scopes e).bindings name) [
      | some b ↦ assign_binding h b val
      | none ↦ elim ((h.scopes e).outer) [
        | some o ↦ assign f h o name val
        | none ↦ (h, failed undefined_name)
      ]
    ]
unfolding assign
assign-suc f h e name val = refl

-- Fuel above a scope's address is enough, since an outer scope is older.
enough_fuel :
    (f g : ℕ) (h : Heap) (e name : ℕ)
    → IsWellFormed h
    → e < f
    → e < g
    → get_binding f h e name ≡ get_binding g h e name
enough_fuel zero g h e name w p q = absurd (omega arith)
enough_fuel (suc f) zero h e name w p q = absurd (omega arith)
enough_fuel (suc f) (suc g) h e name w p q = elim (Option-cases ((h.scopes e).bindings name)) [
  | inr (b, k) ↦ rw (get_binding-suc f h e name, get_binding-suc g h e name, k) refl
  | inl k ↦ elim (Option-cases ((h.scopes e).outer)) [
    | inl n ↦ rw (get_binding-suc f h e name, get_binding-suc g h e name, k, n) refl
    | inr (o, n) ↦
        let older = w.outer_is_older e o n in
        rw (get_binding-suc f h e name, get_binding-suc g h e name, k, n)
          (enough_fuel f g h o name w (omega arith) (omega arith))
  ]
]

pub get_binding-step :
    (h : Heap) (e name : ℕ)
    → IsWellFormed h
    → get_binding (chain_fuel e) h e name ≡ elim ((h.scopes e).bindings name) [
      | some b ↦ some b
      | none ↦ elim ((h.scopes e).outer) [
        | some o ↦ get_binding (chain_fuel o) h o name
        | none ↦ none
      ]
    ]
get_binding-step h e name w = elim (Option-cases ((h.scopes e).bindings name)) [
  | inr (b, k) ↦ rw (get_binding-suc e h e name, k) refl
  | inl k ↦ elim (Option-cases ((h.scopes e).outer)) [
    | inl n ↦ rw (get_binding-suc e h e name, k, n) refl
    | inr (o, n) ↦
        let older = w.outer_is_older e o n in
        rw (get_binding-suc e h e name, k, n)
          (enough_fuel e (chain_fuel o) h o name w older (omega arith))
  ]
]

-- With any fuel, the walk of Assign changes the binding that the walk of GetBinding finds, and
-- fails where that finds none.
pub assign-get_binding :
    (f : ℕ) (h : Heap) (e name : ℕ) (val : Object)
    → assign f h e name val ≡ elim (get_binding f h e name) [
      | some b ↦ assign_binding h b val
      | none ↦ (h, failed undefined_name)
    ]
assign-get_binding zero h e name val = unfold assign in unfold get_binding in refl
assign-get_binding (suc f) h e name val = elim (Option-cases ((h.scopes e).bindings name)) [
  | inr (b, k) ↦ rw (assign-suc f h e name val, get_binding-suc f h e name, k) refl
  | inl k ↦ elim (Option-cases ((h.scopes e).outer)) [
    | inl n ↦ rw (assign-suc f h e name val, get_binding-suc f h e name, k, n) refl
    | inr (o, n) ↦
        rw (assign-suc f h e name val, get_binding-suc f h e name, k, n)
          (assign-get_binding f h o name val)
  ]
]

-- A lookup reads the scopes only.
get_binding-scopes :
    (f : ℕ) (h k : Heap) (e name : ℕ)
    → h.scopes ≡ k.scopes
    → get_binding f h e name ≡ get_binding f k e name
get_binding-scopes zero h k e name s = unfold get_binding in refl
get_binding-scopes (suc f) h k e name s = elim (Option-cases ((k.scopes e).bindings name)) [
  | inr (b, p) ↦ rw (get_binding-suc f h e name, get_binding-suc f k e name, s, p) refl
  | inl p ↦ elim (Option-cases ((k.scopes e).outer)) [
    | inl n ↦ rw (get_binding-suc f h e name, get_binding-suc f k e name, s, p, s, n) refl
    | inr (o, n) ↦
        rw (get_binding-suc f h e name, get_binding-suc f k e name, s, p, s, n)
          (get_binding-scopes f h k o name s)
  ]
]

-- The heap after assigning an object that is not callable.
assign_binding_plain :
    (h : Heap) (b : ℕ) (val : Object)
    → is_callable_object val ≡ false
    → (h.bindings b).is_mutable ≡ true
    → ((assign_binding h b val).1 ≡ done val)
      × (((assign_binding h b val).0.scopes ≡ h.scopes)
          × ((c : ℕ)
              → ((assign_binding h b val).0.bindings c).value
                ≡ (if b == c then val else (h.bindings c).value)))
unfolding assign_binding assigned is_callable_object
assign_binding_plain h b nil_object p m = rw m (refl, (refl, λ c. ground arith))
assign_binding_plain h b uninitialized p m = rw m (refl, (refl, λ c. ground arith))
assign_binding_plain h b (plain id) p m = rw m (refl, (refl, λ c. ground arith))
assign_binding_plain h b (callable sig id) p m = cc (p)
assign_binding_plain h b (group g) p m = cc (p)

get_read :
    (k h : Heap) (e name c : ℕ)
    → k.scopes ≡ h.scopes
    → get_binding (chain_fuel e) h e name ≡ some c
    → get k e name ≡ some (k.bindings c).value
unfolding get get_binding
get_read k h e name c s at = rw (get_binding-scopes (chain_fuel e) k h e name s, at) refl

-- Assigning an object that is not callable to a name whose binding is mutable succeeds, and then
-- a name in any scope that leads to that binding reads the object, and one that leads to another
-- binding reads what it read before.
pub get-assign :
    (h : Heap) (e name b : ℕ) (val : Object) (e' name' c : ℕ)
    → get_binding (chain_fuel e) h e name ≡ some b
    → (h.bindings b).is_mutable ≡ true
    → is_callable_object val ≡ false
    → get_binding (chain_fuel e') h e' name' ≡ some c
    → let out = assign (chain_fuel e) h e name val in
      (out.1 ≡ done val) × (get out.0 e' name' ≡ (if b == c then some val else get h e' name'))
get-assign h e name b val e' name' c found m p at =
    let (ok, (scopes, values)) = assign_binding_plain h b val p m in
    rw (assign-get_binding (chain_fuel e) h e name val, found)
      (
        ok,
        get_read ((assign_binding h b val).0) h e' name' c scopes at
            ∙ ap some (values c)
            ∙ either_value (b == c),
      )
  where
    either_value :
        (t : Bool)
        → some (if t then val else (h.bindings c).value) ≡ (if t then some val else get h e' name')
    either_value true = refl
    either_value false = sym (get_read h h e' name' c refl at)
