-- ===== src/DeclaredTypes/Inference.antt =====
-- inferRuntimeTypeBindings, internal/vm/declared_type_runtime.go: what the inferred bindings make of a type.
use slug.Prelude.{
  ℕ, suc, ◌≡◌, refl, sym, ap, subst, ◌∙◌, Bool, true, false, ◌&&◌, ◌==◌, if◌then◌else◌, none, some,
  List, [], ◌∷◌, ◌++◌, Bool-cases, Option-cases, inl, inr, arith,
}
use mathlib.Core.Bool.{true≢false}
use mathlib.Core.Option.{none-ne-some}
use slug.Prelude.Text.{Text, text_eq, text_eq_iff}
use slug.DeclaredTypes.{
  BasicKind, RtType, absent, any, basic, type_param, struct_type, list_type, tuple_type, map_type,
  fn_type, union_type, RtTypes, no_types, type_and, same_kind, type_count, no_bool_difference,
  struct_names_match, compatible, all_compatible, Bindings, lookup, is_open, is_absent, bind_param,
  infer_param, infer, infer_all, infer_some, present_or, bound_or, substitute, substitute_all,
  bindings_from_call,
}

-- No union stands in a type.
unfoldable mutual
  pub has_no_union : RtType → Bool
  has_no_union absent = true
  has_no_union any = true
  has_no_union (basic k) = true
  has_no_union (type_param n) = true
  has_no_union (struct_type n) = true
  has_no_union (list_type e) = has_no_union e
  has_no_union (tuple_type es) = have_no_union es
  has_no_union (map_type k v) = has_no_union k && has_no_union v
  has_no_union (fn_type r ps variadic) = has_no_union r && have_no_union ps
  has_no_union (union_type os) = false

  pub have_no_union : RtTypes → Bool
  have_no_union no_types = true
  have_no_union (type_and t ts) = has_no_union t && have_no_union ts

same_kind_refl : (k : BasicKind) → same_kind k k ≡ true
same_kind_refl k = ground arith

both : (a b : Bool) → a ≡ true → b ≡ true → (a && b) ≡ true
both a b h k = ground (arith, h, k)

struct_names_match_refl : (n : Text) → struct_names_match n n ≡ true
struct_names_match_refl n = let same = (text_eq_iff n n).1 refl in ground (arith, same)

same_length : (n : ℕ) → (n == n) ≡ true
same_length n = ground arith

mutual
  unfolding compatible has_no_union

  pub compatible_refl : (t : RtType) → has_no_union t ≡ true → compatible t t ≡ true
  compatible_refl absent h = refl
  compatible_refl any h = refl
  compatible_refl (basic k) h = ground arith
  compatible_refl (type_param n) h = refl
  compatible_refl (struct_type n) h = struct_names_match_refl n
  compatible_refl (list_type e) h = compatible_refl e h
  compatible_refl (tuple_type es) h =
      both _ _ (same_length (type_count es)) (all_compatible_refl es h)
  compatible_refl (map_type k v) h =
      both _ _ (compatible_refl k (ground (arith, h))) (compatible_refl v (ground (arith, h)))
  compatible_refl (fn_type r ps variadic) h =
      let result = compatible_refl r (ground (arith, h)) in
      let params = all_compatible_refl ps (ground (arith, h)) in
      let count = same_length (type_count ps) in ground (arith, result, params, count)
  compatible_refl (union_type os) h = absurd (true≢false (sym h))

  all_compatible_refl : (ts : RtTypes) → have_no_union ts ≡ true → all_compatible ts ts ≡ true
  all_compatible_refl no_types h = refl
  all_compatible_refl (type_and t ts) h =
      both _ _ (compatible_refl t (ground (arith, h))) (all_compatible_refl ts (ground (arith, h)))

-- A parameter that has a binding keeps it.
abbrev pub Extends : Bindings → Bindings → Type 0
Extends b c = (n : Text) (t : RtType) → lookup n b ≡ some t → lookup n c ≡ some t

Extends-trans : (b c d : Bindings) → Extends b c → Extends c d → Extends b d
Extends-trans b c d f g n t e = g n t (f n t e)

added-Extends : (n : Text) (a : RtType) (b : Bindings) → lookup n b ≡ none → Extends b ((n, a) ∷ b)
unfolding lookup
added-Extends n a b e m t f = elim (Bool-cases (text_eq n m)) [
  | inr k ↦ rw k f
  | inl y ↦
      absurd (none-ne-some t (sym e ∙ ap (λ (m : Text). lookup m b) ((text_eq_iff n m).0 y) ∙ f))
]

Extends-refl : (b : Bindings) → Extends b b
Extends-refl b n t e = e

bind_param-Extends : (n : Text) (a : RtType) (b : Bindings) → Extends b (bind_param n a b).0
unfolding bind_param
bind_param-Extends n a b = elim (Option-cases (lookup n b)) [
  | inr (t, e) ↦ rw (bind_param, e) (Extends-refl b)
  | inl e ↦ rw (bind_param, e) (added-Extends n a b e)
]

-- The bindings of a call that goes on only where the first part succeeds.
then-Extends :
    (b : Bindings) (first : Bindings × Bool) (next : Bindings × Bool)
    → Extends b first.0
    → Extends first.0 next.0
    → Extends b (if first.1 then next else (first.0, false)).0
then-Extends b (c, true) next f g = Extends-trans b c next.0 f g
then-Extends b (c, false) next f g = f

if-Extends :
    (b : Bindings) (test : Bool) (x y : Bindings × Bool)
    → Extends b x.0
    → Extends b y.0
    → Extends b (if test then x else y).0
if-Extends b true x y f g = f
if-Extends b false x y f g = g

mutual
  unfolding infer

  pub infer-Extends : (e a : RtType) (b : Bindings) → Extends b (infer e a b).0
  infer-Extends absent a b = Extends-refl b
  infer-Extends any a b = elim a as (λ a. Extends b (infer any a b).0) [
    | absent ↦ Extends-refl b
    | _ ↦ Extends-refl b
  ]
  infer-Extends (basic k) a b = elim a as (λ a. Extends b (infer (basic k) a b).0) [
    | absent ↦ Extends-refl b
    | _ ↦ Extends-refl b
  ]
  infer-Extends (type_param n) a b =
      if-Extends b (is_absent a) (b, true) (bind_param n a b) (Extends-refl b)
        (bind_param-Extends n a b)
  infer-Extends (struct_type n) a b = elim a as (λ a. Extends b (infer (struct_type n) a b).0) [
    | absent ↦ Extends-refl b
    | _ ↦ Extends-refl b
  ]
  infer-Extends (list_type e) a b = elim a as (λ a. Extends b (infer (list_type e) a b).0) [
    | list_type c ↦ infer-Extends e c b
    | _ ↦ Extends-refl b
  ]
  infer-Extends (tuple_type es) a b = elim a as (λ a. Extends b (infer (tuple_type es) a b).0) [
    | tuple_type cs ↦
        if-Extends b (type_count es == type_count cs) (infer_all es cs b) (b, false)
          (infer_all-Extends es cs b) (Extends-refl b)
    | _ ↦ Extends-refl b
  ]
  infer-Extends (map_type k v) a b = elim a as (λ a. Extends b (infer (map_type k v) a b).0) [
    | map_type j w ↦
        then-Extends b (infer k j b) (infer v w (infer k j b).0) (infer-Extends k j b)
          (infer-Extends v w (infer k j b).0)
    | _ ↦ Extends-refl b
  ]
  infer-Extends (fn_type r ps variadic) a b =
      elim a as (λ a. Extends b (infer (fn_type r ps variadic) a b).0) [
        | fn_type q cs other ↦
            let params = infer_all ps cs b in
            let result = infer r q params.0 in
            if-Extends b (no_bool_difference other variadic && type_count cs == type_count ps)
              (if params.1 then result else (params.0, false)) (b, false)
              (then-Extends b params result (infer_all-Extends ps cs b)
                (infer-Extends r q params.0))
              (Extends-refl b)
        | _ ↦ Extends-refl b
      ]
  infer-Extends (union_type os) a b =
      if-Extends b (is_open a) (b, true) (infer_some os a b) (Extends-refl b)
        (infer_some-Extends os a b)

  infer_all-Extends : (es cs : RtTypes) (b : Bindings) → Extends b (infer_all es cs b).0
  infer_all-Extends no_types cs b = Extends-refl b
  infer_all-Extends (type_and e es) cs b =
      elim cs as (λ cs. Extends b (infer_all (type_and e es) cs b).0) [
        | no_types ↦ Extends-refl b
        | type_and c rest ↦
            then-Extends b (infer e c b) (infer_all es rest (infer e c b).0) (infer-Extends e c b)
              (infer_all-Extends es rest (infer e c b).0)
      ]

  infer_some-Extends : (os : RtTypes) (a : RtType) (b : Bindings) → Extends b (infer_some os a b).0
  infer_some-Extends no_types a b = Extends-refl b
  infer_some-Extends (type_and e es) a b =
      if-Extends b (infer e a b).1 ((infer e a b).0, true) (infer_some es a b) (infer-Extends e a b)
        (infer_some-Extends es a b)

compatible-absent : (e : RtType) → compatible absent e ≡ true
unfolding compatible
compatible-absent e = elim e as (λ e. compatible absent e ≡ true) [ absent ↦ refl | _ ↦ refl ]

compatible-type_param : (m : Text) (e : RtType) → compatible (type_param m) e ≡ true
unfolding compatible
compatible-type_param m e = elim e as (λ e. compatible (type_param m) e ≡ true) [
  | absent ↦ refl
  | _ ↦ refl
]

present_or-compatible :
    (a t : RtType) (n : Text)
    → compatible a t ≡ true
    → compatible a (present_or t (type_param n)) ≡ true
unfolding compatible
present_or-compatible a t n h =
    elim t as (λ t. compatible a t ≡ true → compatible a (present_or t (type_param n)) ≡ true) [
      | absent ↦ λ h. refl
      | _ ↦ λ h. h
    ]
      h

type_count-substitute_all :
    (ts : RtTypes) (c : Bindings) → type_count (substitute_all ts c) ≡ type_count ts
unfolding type_count substitute_all
type_count-substitute_all no_types c = refl
type_count-substitute_all (type_and t ts) c = ap suc (type_count-substitute_all ts c)

substitute-bound :
    (a : RtType) (n : Text) (t : RtType) (c : Bindings)
    → lookup n c ≡ some t
    → compatible a t ≡ true
    → compatible a (substitute (type_param n) c) ≡ true
unfolding substitute
substitute-bound a n t c e h =
    subst (λ o. compatible a (bound_or o (type_param n)) ≡ true) (sym e)
      (present_or-compatible a t n h)

bind_param-compatible :
    (n : Text) (a : RtType) (b c : Bindings)
    → has_no_union a ≡ true
    → (bind_param n a b).1 ≡ true
    → Extends (bind_param n a b).0 c
    → compatible a (substitute (type_param n) c) ≡ true
unfolding bind_param substitute lookup
bind_param-compatible n a b c h = elim (Option-cases (lookup n b)) [
  | inr (t, e) ↦
      rw (bind_param, e) (λ ok f. substitute-bound a n t c (f n t e) (ground (arith, ok)))
  | inl e ↦
      rw (bind_param, e)
        (λ ok f.
          substitute-bound a n a c (f n a (rw ((text_eq_iff n n).1 refl) refl))
            (compatible_refl a h))
]

absent_lem : (a e : RtType) → is_absent a ≡ true → compatible a e ≡ true
absent_lem a e h =
    elim a as (λ a. is_absent a ≡ true → compatible a e ≡ true) [
      | absent ↦ λ h. compatible-absent e
      | _ ↦ λ h. absurd (true≢false (sym h))
    ]
      h

param-compatible :
    (n : Text) (a : RtType) (b c : Bindings)
    → has_no_union a ≡ true
    → (infer_param n a b).1 ≡ true
    → Extends (infer_param n a b).0 c
    → compatible a (substitute (type_param n) c) ≡ true
param-compatible n a b c ha = elim (Bool-cases (is_absent a)) [
  | inr m ↦ rw m (bind_param-compatible n a b c ha)
  | inl y ↦ λ ok f. absent_lem a (substitute (type_param n) c) y
]

-- What a success says of its parts.
if-split :
    (test : Bool) (x : Bindings × Bool) (b c : Bindings)
    → (if test then x else (b, false)).1 ≡ true
    → Extends (if test then x else (b, false)).0 c
    → (test ≡ true) × (x.1 ≡ true) × Extends x.0 c
if-split true x b c ok f = (refl, ok, f)
if-split false x b c ok f = absurd (true≢false (sym ok))

then-split :
    (x y : Bindings × Bool) (c : Bindings)
    → (if x.1 then y else (x.0, false)).1 ≡ true
    → Extends (if x.1 then y else (x.0, false)).0 c
    → (x.1 ≡ true) × (y.1 ≡ true) × Extends y.0 c
then-split (b, ok) y c h f = if-split ok y b c h f

mutual
  unfolding infer compatible has_no_union substitute type_count

  pub infer-compatible :
      (e a : RtType) (b c : Bindings)
      → has_no_union e ≡ true
      → has_no_union a ≡ true
      → (infer e a b).1 ≡ true
      → Extends (infer e a b).0 c
      → compatible a (substitute e c) ≡ true
  infer-compatible absent a b c he ha ok f = refl
  infer-compatible any a b c he ha ok f = refl
  infer-compatible (basic k) a b c he ha ok f =
      elim a as (λ a. (infer (basic k) a b).1 ≡ true → compatible a (basic k) ≡ true) [
        | absent ↦ λ ok. refl
        | type_param m ↦ λ ok. refl
        | basic j ↦ λ ok. ground (arith, ok)
        | _ ↦ λ ok. absurd (true≢false (sym ok))
      ]
        ok
  infer-compatible (type_param n) a b c he ha ok f = param-compatible n a b c ha ok f
  infer-compatible (struct_type n) a b c he ha ok f =
      elim a as (λ a. (infer (struct_type n) a b).1 ≡ true → compatible a (struct_type n) ≡ true) [
        | absent ↦ λ ok. refl
        | type_param m ↦ λ ok. refl
        | struct_type m ↦ λ ok. ok
        | _ ↦ λ ok. absurd (true≢false (sym ok))
      ]
        ok
  infer-compatible (list_type e) a b c he ha ok f =
      elim a
          as (λ a.
            has_no_union a ≡ true
            → (infer (list_type e) a b).1 ≡ true
            → Extends (infer (list_type e) a b).0 c
            → compatible a (list_type (substitute e c)) ≡ true) [
              | absent ↦ λ ha ok f. refl
              | type_param m ↦ λ ha ok f. refl
              | list_type d ↦ λ ha ok f. infer-compatible e d b c he ha ok f
              | _ ↦ λ ha ok f. absurd (true≢false (sym ok))
            ]
        ha ok f
  infer-compatible (tuple_type es) a b c he ha ok f =
      elim a
          as (λ a.
            has_no_union a ≡ true
            → (infer (tuple_type es) a b).1 ≡ true
            → Extends (infer (tuple_type es) a b).0 c
            → compatible a (tuple_type (substitute_all es c)) ≡ true) [
              | absent ↦ λ ha ok f. refl
              | type_param m ↦ λ ha ok f. refl
              | tuple_type cs ↦ λ ha ok f.
                  let (count, ok', f') =
                    if-split (type_count es == type_count cs) (infer_all es cs b) b c ok f in
                  let all = infer_all-compatible es cs b c he ha ok' f' in
                  ground (arith, count, type_count-substitute_all es c, all)
              | _ ↦ λ ha ok f. absurd (true≢false (sym ok))
            ]
        ha ok f
  infer-compatible (map_type k v) a b c he ha ok f =
      elim a
          as (λ a.
            has_no_union a ≡ true
            → (infer (map_type k v) a b).1 ≡ true
            → Extends (infer (map_type k v) a b).0 c
            → compatible a (map_type (substitute k c) (substitute v c)) ≡ true) [
              | absent ↦ λ ha ok f. refl
              | type_param m ↦ λ ha ok f. refl
              | map_type j w ↦ λ ha ok f.
                  let keys = infer k j b in
                  let (ok₁, ok₂, f₂) = then-split keys (infer v w keys.0) c ok f in
                  let f₁ =
                    Extends-trans keys.0 (infer v w keys.0).0 c (infer-Extends v w keys.0) f₂ in
                  both _ _
                    (infer-compatible k j b c (ground (arith, he)) (ground (arith, ha)) ok₁ f₁)
                    (infer-compatible v w keys.0 c (ground (arith, he)) (ground (arith, ha)) ok₂ f₂)
              | _ ↦ λ ha ok f. absurd (true≢false (sym ok))
            ]
        ha ok f
  infer-compatible (fn_type r ps variadic) a b c he ha ok f =
      elim a
          as (λ a.
            has_no_union a ≡ true
            → (infer (fn_type r ps variadic) a b).1 ≡ true
            → Extends (infer (fn_type r ps variadic) a b).0 c
            → compatible a (fn_type (substitute r c) (substitute_all ps c) variadic) ≡ true) [
              | absent ↦ λ ha ok f. refl
              | type_param m ↦ λ ha ok f. refl
              | fn_type q cs other ↦ λ ha ok f.
                  let params = infer_all ps cs b in
                  let result = infer r q params.0 in
                  let (shape, ok', f') =
                    if-split (no_bool_difference other variadic && type_count cs == type_count ps)
                      (if params.1 then result else (params.0, false)) b c ok f in
                  let (ok₁, ok₂, f₂) = then-split params result c ok' f' in
                  let f₁ = Extends-trans params.0 result.0 c (infer-Extends r q params.0) f₂ in
                  let all =
                    infer_all-compatible ps cs b c (ground (arith, he)) (ground (arith, ha)) ok₁
                      f₁ in
                  let one =
                    infer-compatible r q params.0 c (ground (arith, he)) (ground (arith, ha)) ok₂
                      f₂ in
                  ground (arith, shape, type_count-substitute_all ps c, all, one)
              | _ ↦ λ ha ok f. absurd (true≢false (sym ok))
            ]
        ha ok f
  infer-compatible (union_type os) a b c he ha ok f = absurd (true≢false (sym he))

  infer_all-compatible :
      (es cs : RtTypes) (b c : Bindings)
      → have_no_union es ≡ true
      → have_no_union cs ≡ true
      → (infer_all es cs b).1 ≡ true
      → Extends (infer_all es cs b).0 c
      → all_compatible cs (substitute_all es c) ≡ true
  infer_all-compatible no_types cs b c he ha ok f = refl
  infer_all-compatible (type_and e es) cs b c he ha ok f =
      elim cs
          as (λ cs.
            have_no_union cs ≡ true
            → (infer_all (type_and e es) cs b).1 ≡ true
            → Extends (infer_all (type_and e es) cs b).0 c
            → all_compatible cs (type_and (substitute e c) (substitute_all es c)) ≡ true) [
              | no_types ↦ λ ha ok f. refl
              | type_and d rest ↦ λ ha ok f.
                  let head = infer e d b in
                  let others = infer_all es rest head.0 in
                  let (ok₁, ok₂, f₂) = then-split head others c ok f in
                  let f₁ = Extends-trans head.0 others.0 c (infer_all-Extends es rest head.0) f₂ in
                  both _ _
                    (infer-compatible e d b c (ground (arith, he)) (ground (arith, ha)) ok₁ f₁)
                    (infer_all-compatible es rest head.0 c (ground (arith, he)) (ground (arith, ha))
                      ok₂ f₂)
            ]
        ha ok f

kept-Extends :
    (b : Bindings) (out : Bindings × Bool)
    → Extends b out.0
    → Extends b (if out.1 then out.0 else b)
kept-Extends b (c, true) f = f
kept-Extends b (c, false) f = Extends-refl b

bindings_from_call-Extends :
    (pairs : List (RtType × RtType)) (b : Bindings) → Extends b (bindings_from_call pairs b)
unfolding bindings_from_call
bindings_from_call-Extends [] b = Extends-refl b
bindings_from_call-Extends ((e, a) ∷ rest) b =
    let (trial, ok) = infer e a b in
    let next = if ok then trial else b in
    Extends-trans b next _ (kept-Extends b (infer e a b) (infer-Extends e a b))
      (bindings_from_call-Extends rest next)

bindings_from_call-append :
    (xs ys : List (RtType × RtType)) (b : Bindings)
    → bindings_from_call (xs ++ ys) b ≡ bindings_from_call ys (bindings_from_call xs b)
unfolding bindings_from_call
bindings_from_call-append [] ys b = refl
bindings_from_call-append ((e, a) ∷ xs) ys b =
    bindings_from_call-append xs ys (if (infer e a b).1 then (infer e a b).0 else b)

-- Where the type of a value fits the declared type of its parameter, as inferRuntimeTypeBindings
-- finds it at that place of a call, the type of the value is compatible with what the bindings of
-- the whole call make of the declared type, for types with no union in them.
pub bindings_from_call-compatible :
    (before rest : List (RtType × RtType)) (e a : RtType)
    → has_no_union e ≡ true
    → has_no_union a ≡ true
    → (infer e a (bindings_from_call before [])).1 ≡ true
    → compatible a (substitute e (bindings_from_call (before ++ ((e, a) ∷ rest)) [])) ≡ true
unfolding bindings_from_call
bindings_from_call-compatible before rest e a he ha ok =
    let b = bindings_from_call before [] in
    let (trial, done) = infer e a b in
    rw (bindings_from_call-append before ((e, a) ∷ rest) [], ok)
      (infer-compatible e a b (bindings_from_call rest trial) he ha ok
        (bindings_from_call-Extends rest trial))
