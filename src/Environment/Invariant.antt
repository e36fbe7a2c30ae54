-- ===== src/Environment/Invariant.antt =====
-- The heap of internal/object/environment.go stays well formed over every run.
use slug.Prelude.{
  ℕ, ◌<◌, ◌≤◌, ◌≡◌, refl, sym, ◌∙◌, ap, Bool, true, false, ◌==◌, if◌then◌else◌, some, arith,
  Option-cases, Bool-cases, inl, inr,
}
use slug.Environment.{
  Object, Environment, Heap, Text, is_callable_object, get_binding, chain_fuel, with_binding,
  new_environment, new_enclosed_environment, reset_for_tco, shallow_copy, new_binding, set_at,
  no_meta, nil_object, uninitialized, callable, group, plain,
}
use slug.Environment.Define.{
  assign, assign_binding, assigned, merge_callable_into_binding, may_define, define_into, define,
  documented, described, set_local_doc, redefined, bound, with_value,
}
use slug.Environment.Scoping.{assign-get_binding, IsWellFormed}
use slug.Environment.Steps.{
  Step, new_step, enclosed_step, copy_step, reset_step, define_step, assign_step, doc_step, Steps,
  stop, next, merge-OnlyBinding, assigned-OnlyBinding, define_on, set_local_doc_on,
}

-- A heap with the same scopes, and no fewer bindings.
same_scopes :
    (h k : Heap)
    → IsWellFormed h
    → k.scopes ≡ h.scopes
    → k.binding_count ≡ h.binding_count
    → IsWellFormed k
same_scopes h k w s n = record {
  outer_is_older =
      λ e o p. w.outer_is_older e o (ap (λ (f : ℕ → Environment). (f e).outer) (sym s) ∙ p);
  bindings_exist = λ e name b p.
      rw n
        (w.bindings_exist e name b (ap (λ (f : ℕ → Environment). (f e).bindings name) (sym s) ∙ p));
}

-- A heap with one scope more, or another in the place of one.
placed_scope :
    (h k : Heap) (at : ℕ) (v : Environment)
    → IsWellFormed h
    → ((e : ℕ) → k.scopes e ≡ (if at == e then v else h.scopes e))
    → h.binding_count ≤ k.binding_count
    → ((o : ℕ) → v.outer ≡ some o → o < at)
    → ((name b : ℕ) → v.bindings name ≡ some b → b < k.binding_count)
    → IsWellFormed k
placed_scope h k at v w s n o b = record {
  outer_is_older = λ e out p. elim (Bool-cases (at == e)) [
    | inl y ↦
        let is_new : k.scopes e ≡ v = s e ∙ rw y refl in
        let q = o out (ap (λ (x : Environment). x.outer) (sym is_new) ∙ p) in ground arith
    | inr y ↦
        let is_old : k.scopes e ≡ h.scopes e = s e ∙ rw y refl in
        w.outer_is_older e out (ap (λ (x : Environment). x.outer) (sym is_old) ∙ p)
  ];
  bindings_exist = λ e name c p. elim (Bool-cases (at == e)) [
    | inl y ↦
        let is_new : k.scopes e ≡ v = s e ∙ rw y refl in
        b name c (ap (λ (x : Environment). x.bindings name) (sym is_new) ∙ p)
    | inr y ↦
        let is_old : k.scopes e ≡ h.scopes e = s e ∙ rw y refl in
        let q =
          w.bindings_exist e name c (ap (λ (x : Environment). x.bindings name) (sym is_old) ∙ p) in
        omega arith
  ];
}

bound-IsWellFormed :
    (h k : Heap) (e name b : ℕ)
    → IsWellFormed h
    → k.scopes ≡ h.scopes
    → k.binding_count ≡ h.binding_count
    → b < h.binding_count
    → IsWellFormed (bound k e name b)
bound-IsWellFormed h k e name b w s n l =
    let v = same_scopes h k w s n in
    placed_scope k (bound k e name b) e
      (record (k.scopes e) { bindings = set_at (k.scopes e).bindings name (some b) }) v (λ i. refl)
      (omega arith) (λ o p. v.outer_is_older e o p)
      (λ m c p. elim (Bool-cases (name == m)) [
        | inl y ↦ let q : some b ≡ some c = sym (rw y refl) ∙ p in ground arith
        | inr y ↦ v.bindings_exist e m c (sym (rw y refl) ∙ p)
      ])

define_into-IsWellFormed :
    (h : Heap) (e name b : ℕ) (val : Object) (x i : Bool)
    → IsWellFormed h
    → b < h.binding_count
    → IsWellFormed (define_into h e name b val x i).0
unfolding define_into
define_into-IsWellFormed h e name b val x i w l =
    let k = with_binding h b (record (h.bindings b) { meta = redefined (h.bindings b).meta x i }) in
    let o = merge-OnlyBinding k b val in
    let m = (merge_callable_into_binding k b val).0 in
    elim (Bool-cases (is_callable_object val)) [
      | inr p ↦ rw p (bound-IsWellFormed h (with_value k b val) e name b w refl refl l)
      | inl p ↦ elim (Bool-cases (merge_callable_into_binding k b val).1) [
        | inl q ↦ rw (p, q) (same_scopes h m w o.scopes o.binding_count)
        | inr q ↦ rw (p, q) (bound-IsWellFormed h m e name b w o.scopes o.binding_count l)
      ]
    ]

define-IsWellFormed :
    (h : Heap) (e name : ℕ) (val : Object) (v x i : Bool)
    → IsWellFormed h
    → IsWellFormed (define h e name val v x i).0
define-IsWellFormed h e name val v x i w = elim (Option-cases ((h.scopes e).bindings name)) [
  | inl k ↦
      let fresh =
        (new_binding h (record { value = nil_object; meta = no_meta; is_mutable = v })).0 in
      let grown : IsWellFormed fresh = record {
        outer_is_older = w.outer_is_older;
        bindings_exist = λ e' m c p. let q = w.bindings_exist e' m c p in omega arith;
      } in
      rw (define_on h e name val v x i, k)
        (define_into-IsWellFormed fresh e name h.binding_count val x i grown (omega arith))
  | inr (c, k) ↦ elim (Bool-cases (may_define (h.bindings c) val)) [
    | inr q ↦ rw (define_on h e name val v x i, k, q) w
    | inl q ↦
        rw (define_on h e name val v x i, k, q)
          (define_into-IsWellFormed h e name c val x i w (w.bindings_exist e name c k))
  ]
]

assign_binding-IsWellFormed :
    (h : Heap) (b : ℕ) (val : Object) → IsWellFormed h → IsWellFormed (assign_binding h b val).0
unfolding assign_binding
assign_binding-IsWellFormed h b val w = elim (Bool-cases (h.bindings b).is_mutable) [
  | inr q ↦ rw q w
  | inl q ↦
      let m = with_binding h b (record (h.bindings b) {
        meta = record ((h.bindings b).meta) { is_import = false };
        is_mutable = true;
      }) in
      let o = assigned-OnlyBinding m b val in
      rw q (same_scopes h (assigned m b val) w o.scopes o.binding_count)
]

assign-IsWellFormed :
    (h : Heap) (e name : ℕ) (val : Object)
    → IsWellFormed h
    → IsWellFormed (assign (chain_fuel e) h e name val).0
assign-IsWellFormed h e name val w = elim (Option-cases (get_binding (chain_fuel e) h e name)) [
  | inl k ↦ rw (assign-get_binding (chain_fuel e) h e name val, k) w
  | inr (c, k) ↦
      rw (assign-get_binding (chain_fuel e) h e name val, k) (assign_binding-IsWellFormed h c val w)
]

documented-IsWellFormed :
    (h : Heap) (b : ℕ) (doc : Text) (val : Object)
    → IsWellFormed h
    → IsWellFormed (documented h b doc val)
unfolding documented
documented-IsWellFormed h b doc (group g) w = same_scopes h _ w refl refl
documented-IsWellFormed h b doc nil_object w = w
documented-IsWellFormed h b doc uninitialized w = w
documented-IsWellFormed h b doc (callable sig id) w = w
documented-IsWellFormed h b doc (plain id) w = w

doc-IsWellFormed :
    (h : Heap) (e name : ℕ) (doc : Text)
    → IsWellFormed h
    → IsWellFormed (set_local_doc h e name doc)
doc-IsWellFormed h e name doc w = elim (Option-cases ((h.scopes e).bindings name)) [
  | inl k ↦ rw (set_local_doc_on h e name doc, k) w
  | inr (c, k) ↦
      rw (set_local_doc_on h e name doc, k)
        (documented-IsWellFormed (described h c doc) c doc (h.bindings c).value
          (same_scopes h (described h c doc) w refl refl))
]

pub Step-IsWellFormed : (h k : Heap) → Step h k → IsWellFormed h → IsWellFormed k
unfolding new_environment new_enclosed_environment shallow_copy reset_for_tco
Step-IsWellFormed h k (new_step _) w =
    placed_scope h k h.scope_count _ w (λ e. refl) (omega arith) (λ o p. ground arith)
      (λ m b p. ground arith)
Step-IsWellFormed h k (enclosed_step _ outer q) w =
    placed_scope h k h.scope_count _ w (λ e. refl) (omega arith) (λ o p. ground arith)
      (λ m b p. ground arith)
Step-IsWellFormed h k (copy_step _ e q) w =
    placed_scope h k h.scope_count _ w (λ e. refl) (omega arith)
      (λ o p. let r = w.outer_is_older e o p in omega arith) (λ m b p. w.bindings_exist e m b p)
Step-IsWellFormed h k (reset_step _ e) w =
    placed_scope h k e _ w (λ e. refl) (omega arith) (λ o p. w.outer_is_older e o p)
      (λ m b p. ground arith)
Step-IsWellFormed h _ (define_step _ e name val v x i) w = define-IsWellFormed h e name val v x i w
Step-IsWellFormed h _ (assign_step _ e name val) w = assign-IsWellFormed h e name val w
Step-IsWellFormed h _ (doc_step _ e name doc) w = doc-IsWellFormed h e name doc w

-- Over every run of the operations on scopes, an outer scope has a lower address than its inner
-- ones, and a scope holds only bindings that exist.
pub Steps-IsWellFormed : (h k : Heap) → Steps h k → IsWellFormed h → IsWellFormed k
Steps-IsWellFormed h _ (stop _) w = w
Steps-IsWellFormed h _ (next _ m k s t) w = Steps-IsWellFormed m k t (Step-IsWellFormed h m s w)
