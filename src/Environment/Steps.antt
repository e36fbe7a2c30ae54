-- ===== src/Environment/Steps.antt =====
-- The operations of internal/object/environment.go as steps between heaps, what each step leaves
-- alone, and the invariants of every run.
use slug.Prelude.{
  ℕ, ◌<◌, ◌≡◌, refl, sym, ◌∙◌, ap, Bool, true, false, not, ◌&&◌, ◌==◌, if◌then◌else◌, none, some,
  arith, Option-cases, Bool-cases, inl, inr,
}
use slug.Environment.{
  Object, Binding, Heap, failed, already_defined, get_binding, chain_fuel, Text, is_callable_object,
  is_group, is_uninitialized, with_binding, nil_object, uninitialized, callable, group, plain,
  new_environment, new_enclosed_environment, reset_for_tco, shallow_copy, new_binding, no_meta,
}
use slug.Environment.Define.{
  assign, assign_binding, assigned, with_value, group_of, merged_functions,
  merge_callable_into_binding, may_define, define_into, define, documented, described,
  set_local_doc, redefined,
}
use slug.Environment.Scoping.{assign-get_binding}

-- One operation of the code.
pub data Step : Heap → Heap → Type 0 where
  new_step : (h : Heap) → Step h (new_environment h).0
  enclosed_step : (h : Heap) (o : ℕ) → o < h.scope_count → Step h (new_enclosed_environment h o).0
  copy_step : (h : Heap) (e : ℕ) → e < h.scope_count → Step h (shallow_copy h e).0
  reset_step : (h : Heap) (e : ℕ) → Step h (reset_for_tco h e)
  define_step :
      (h : Heap) (e name : ℕ) (val : Object) (is_mutable is_exported is_import : Bool)
      → Step h (define h e name val is_mutable is_exported is_import).0
  assign_step :
      (h : Heap) (e name : ℕ) (val : Object) → Step h (assign (chain_fuel e) h e name val).0
  doc_step : (h : Heap) (e name : ℕ) (doc : Text) → Step h (set_local_doc h e name doc)

pub data Steps : Heap → Heap → Type 0 where
  stop : (h : Heap) → Steps h h
  next : (h k l : Heap) → Step h k → Steps k l → Steps h l

-- What a change of one binding, and of groups, leaves alone.
pub record OnlyBinding (b : ℕ) (h k : Heap) : Type 0 where
  pub scopes : k.scopes ≡ h.scopes
  pub binding_count : k.binding_count ≡ h.binding_count
  pub others : (c : ℕ) → (b == c) ≡ false → k.bindings c ≡ h.bindings c

with_value-OnlyBinding : (h : Heap) (b : ℕ) (val : Object) → OnlyBinding b h (with_value h b val)
with_value-OnlyBinding h b val = record {
  scopes = refl;
  binding_count = refl;
  others = λ c n. rw n refl;
}

group_of_bindings :
    (h : Heap) (val : Object)
    → ((group_of h val).0.scopes ≡ h.scopes)
      × (((group_of h val).0.binding_count ≡ h.binding_count)
          × ((group_of h val).0.bindings ≡ h.bindings))
unfolding group_of
group_of_bindings h nil_object = (refl, (refl, refl))
group_of_bindings h uninitialized = (refl, (refl, refl))
group_of_bindings h (callable sig id) = (refl, (refl, refl))
group_of_bindings h (group g) = (refl, (refl, refl))
group_of_bindings h (plain id) = (refl, (refl, refl))

pub merge-OnlyBinding :
    (h : Heap) (b : ℕ) (val : Object) → OnlyBinding b h (merge_callable_into_binding h b val).0
unfolding merge_callable_into_binding
merge-OnlyBinding h b val =
    let (s, (n, m)) = group_of_bindings h (h.bindings b).value in
    let (k, g) = group_of h (h.bindings b).value in
    elim (Bool-cases (merged_functions k (k.groups g).functions val).1) [
      | inl bad ↦ rw bad (record { scopes = s; binding_count = n; others = λ c q. ap (λ f. f c) m })
      | inr good ↦
          rw good (record { scopes = s; binding_count = n; others = λ c q. rw q (ap (λ f. f c) m) })
    ]

pub assigned-OnlyBinding : (h : Heap) (b : ℕ) (val : Object) → OnlyBinding b h (assigned h b val)
unfolding assigned
assigned-OnlyBinding h b nil_object = with_value-OnlyBinding h b _
assigned-OnlyBinding h b uninitialized = with_value-OnlyBinding h b _
assigned-OnlyBinding h b (group g) = with_value-OnlyBinding h b _
assigned-OnlyBinding h b (plain id) = with_value-OnlyBinding h b _
assigned-OnlyBinding h b (callable sig id) =
    let (s, (n, m)) = group_of_bindings h (h.bindings b).value in
    record { scopes = s; binding_count = n; others = λ c k. rw k (ap (λ f. f c) m) }

-- A binding that a `val` made, with a value that is no group of functions.
abbrev pub is_constant : Binding → Bool
is_constant v =
    not v.is_mutable
    && not v.meta.is_import
    && not (is_uninitialized v.value)
    && not (is_group v.value)

-- Bindings of which a test tells different things are at different addresses.
told_apart :
    (test : Binding → Bool) (h : Heap) (b c : ℕ) (t : Bool)
    → test (h.bindings b) ≡ t
    → test (h.bindings c) ≡ not t
    → (b == c) ≡ false
told_apart test h b c t p q = elim (Bool-cases (b == c)) [
  | inr n ↦ n
  | inl y ↦
      let same : b ≡ c = ground arith in
      absurd (Bool-not t (sym p ∙ ap (λ a. test (h.bindings a)) same ∙ q))
]
  where
    Bool-not : (u : Bool) → u ≡ not u → ⊥
    Bool-not u e = ground arith

constant_is_closed : (v : Binding) (val : Object) → is_constant v ≡ true → may_define v val ≡ false
unfolding may_define is_callable_object
constant_is_closed v val h = ground arith

-- What a step keeps of a constant.
pub record KeepsConstant (b : ℕ) (h k : Heap) : Type 0 where
  pub value : (k.bindings b).value ≡ (h.bindings b).value
  pub constant : is_constant (k.bindings b) ≡ true
  pub exists : b < k.binding_count

untouched :
    (b : ℕ) (h k : Heap)
    → b < h.binding_count
    → is_constant (h.bindings b) ≡ true
    → k.bindings b ≡ h.bindings b
    → k.binding_count ≡ h.binding_count
    → KeepsConstant b h k
untouched b h k l c same n = record {
  value = ap (λ (v : Binding). v.value) same;
  constant = rw same c;
  exists = rw n l;
}

define_into_others :
    (h : Heap) (e name b : ℕ) (val : Object) (x i : Bool) (c : ℕ)
    → (b == c) ≡ false
    → let k = (define_into h e name b val x i).0 in
      (k.bindings c ≡ h.bindings c) × (k.binding_count ≡ h.binding_count)
unfolding define_into
define_into_others h e name b val x i c n =
    let k = with_binding h b (record (h.bindings b) { meta = redefined (h.bindings b).meta x i }) in
    let o = merge-OnlyBinding k b val in
    elim (Bool-cases (is_callable_object val)) [
      | inr p ↦ rw (p, n) (refl, refl)
      | inl p ↦ elim (Bool-cases (merge_callable_into_binding k b val).1) [
        | inl q ↦ rw (p, q) (o.others c n ∙ rw n refl, o.binding_count)
        | inr q ↦ rw (p, q) (o.others c n ∙ rw n refl, o.binding_count)
      ]
    ]

assign_binding_others :
    (h : Heap) (b : ℕ) (val : Object) (c : ℕ)
    → is_constant (h.bindings c) ≡ true
    → let k = (assign_binding h b val).0 in
      (k.bindings c ≡ h.bindings c) × (k.binding_count ≡ h.binding_count)
unfolding assign_binding
assign_binding_others h b val c p = elim (Bool-cases (h.bindings b).is_mutable) [
  | inr q ↦ rw q (refl, refl)
  | inl q ↦
      let m = with_binding h b (record (h.bindings b) {
        meta = record ((h.bindings b).meta) { is_import = false };
        is_mutable = true;
      }) in
      let o = assigned-OnlyBinding m b val in
      let apart = told_apart (λ v. v.is_mutable) h b c true q (ground arith) in
      rw q (o.others c apart ∙ rw apart refl, o.binding_count)
]

documented_bindings :
    (h : Heap) (b : ℕ) (doc : Text) (val : Object)
    → ((documented h b doc val).bindings ≡ h.bindings)
      × ((documented h b doc val).binding_count ≡ h.binding_count)
unfolding documented
documented_bindings h b doc nil_object = (refl, refl)
documented_bindings h b doc uninitialized = (refl, refl)
documented_bindings h b doc (callable sig id) = (refl, refl)
documented_bindings h b doc (group g) = (refl, refl)
documented_bindings h b doc (plain id) = (refl, refl)

pub define_on :
    (h : Heap) (e name : ℕ) (val : Object) (v x i : Bool)
    → define h e name val v x i ≡ elim ((h.scopes e).bindings name) [
      | some b ↦
          if may_define (h.bindings b) val
          then define_into h e name b val x i
          else (h, failed already_defined)
      | none ↦
          let fresh =
            new_binding h (record { value = nil_object; meta = no_meta; is_mutable = v }) in
          define_into fresh.0 e name fresh.1 val x i
    ]
unfolding define
define_on h e name val v x i = refl

define-KeepsConstant :
    (h : Heap) (e name b : ℕ) (val : Object) (v x i : Bool)
    → b < h.binding_count
    → is_constant (h.bindings b) ≡ true
    → KeepsConstant b h (define h e name val v x i).0
define-KeepsConstant h e name b val v x i l p = elim (Option-cases ((h.scopes e).bindings name)) [
  | inl k ↦
      let fresh =
        (new_binding h (record { value = nil_object; meta = no_meta; is_mutable = v })).0 in
      let apart : (h.binding_count == b) ≡ false = ground arith in
      let old : fresh.bindings b ≡ h.bindings b = rw apart refl in
      let (same, n) = define_into_others fresh e name h.binding_count val x i b apart in
      let all = same ∙ old in
      rw (define_on h e name val v x i, k)
        (record {
          value = ap (λ (v : Binding). v.value) all;
          constant = rw all p;
          exists = rw n (omega arith);
        })
  | inr (c, k) ↦ elim (Bool-cases (may_define (h.bindings c) val)) [
    | inr q ↦ rw (define_on h e name val v x i, k, q) (untouched b h h l p refl refl)
    | inl q ↦
        let apart =
          told_apart (λ v. may_define v val) h c b true q
            (constant_is_closed (h.bindings b) val p) in
        let (same, n) = define_into_others h e name c val x i b apart in
        rw (define_on h e name val v x i, k, q)
          (untouched b h ((define_into h e name c val x i).0) l p same n)
  ]
]

assign-KeepsConstant :
    (h : Heap) (e name b : ℕ) (val : Object)
    → b < h.binding_count
    → is_constant (h.bindings b) ≡ true
    → KeepsConstant b h (assign (chain_fuel e) h e name val).0
assign-KeepsConstant h e name b val l p =
    elim (Option-cases (get_binding (chain_fuel e) h e name)) [
      | inl k ↦
          rw (assign-get_binding (chain_fuel e) h e name val, k) (untouched b h h l p refl refl)
      | inr (c, k) ↦
          let (same, n) = assign_binding_others h c val b p in
          rw (assign-get_binding (chain_fuel e) h e name val, k)
            (untouched b h ((assign_binding h c val).0) l p same n)
    ]

pub set_local_doc_on :
    (h : Heap) (e name : ℕ) (doc : Text)
    → set_local_doc h e name doc ≡ elim ((h.scopes e).bindings name) [
      | none ↦ h
      | some b ↦ documented (described h b doc) b doc (h.bindings b).value
    ]
unfolding set_local_doc
set_local_doc_on h e name doc = refl

doc-KeepsConstant :
    (h : Heap) (e name b : ℕ) (doc : Text)
    → b < h.binding_count
    → is_constant (h.bindings b) ≡ true
    → KeepsConstant b h (set_local_doc h e name doc)
doc-KeepsConstant h e name b doc l p = elim (Option-cases ((h.scopes e).bindings name)) [
  | inl k ↦ rw (set_local_doc_on h e name doc, k) (untouched b h h l p refl refl)
  | inr (c, k) ↦
      let (same, n) = documented_bindings (described h c doc) c doc (h.bindings c).value in
      let here = ap (λ (f : ℕ → Binding). f b) same in
      elim (Bool-cases (c == b)) [
        | inr q ↦
            rw (set_local_doc_on h e name doc, k)
              (untouched b h (documented (described h c doc) c doc (h.bindings c).value) l p
                (here ∙ rw q refl) n)
        | inl q ↦
            let at : c ≡ b = ground arith in
            rw (set_local_doc_on h e name doc, k)
              (record {
                value = ap (λ (v : Binding). v.value) here ∙ rw (q, at) refl;
                constant = rw (here, q, at) (ground (arith, p));
                exists = rw n l;
              })
      ]
]

pub Step-KeepsConstant :
    (h k : Heap) (b : ℕ)
    → Step h k
    → b < h.binding_count
    → is_constant (h.bindings b) ≡ true
    → KeepsConstant b h k
unfolding new_environment new_enclosed_environment shallow_copy reset_for_tco
Step-KeepsConstant h _ b (new_step _) l p = record { value = refl; constant = p; exists = l }
Step-KeepsConstant h _ b (enclosed_step _ o q) l p = record {
  value = refl;
  constant = p;
  exists = l;
}
Step-KeepsConstant h _ b (copy_step _ e q) l p = record { value = refl; constant = p; exists = l }
Step-KeepsConstant h _ b (reset_step _ e) l p = record { value = refl; constant = p; exists = l }
Step-KeepsConstant h _ b (define_step _ e name val v x i) l p =
    define-KeepsConstant h e name b val v x i l p
Step-KeepsConstant h _ b (assign_step _ e name val) l p = assign-KeepsConstant h e name b val l p
Step-KeepsConstant h _ b (doc_step _ e name doc) l p = doc-KeepsConstant h e name b doc l p

-- Over every run of the operations on scopes, an immutable binding that is neither imported nor
-- uninitialized and holds no function group keeps its value and stays so.
pub Steps-KeepsConstant :
    (h k : Heap) (b : ℕ)
    → Steps h k
    → b < h.binding_count
    → is_constant (h.bindings b) ≡ true
    → KeepsConstant b h k
Steps-KeepsConstant h _ b (stop _) l p = record { value = refl; constant = p; exists = l }
Steps-KeepsConstant h _ b (next _ m k s t) l p =
    let one = Step-KeepsConstant h m b s l p in
    let rest = Steps-KeepsConstant m k b t one.exists one.constant in
    record { value = rest.value ∙ one.value; constant = rest.constant; exists = rest.exists }
