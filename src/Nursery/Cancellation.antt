-- ===== src/Nursery/Cancellation.antt =====
-- Which tasks CancelChildren and NoteChildFailure of internal/vm/nursery_scope.go end.
use slug.Prelude.{
  ℕ, ◌≡◌, refl, sym, ◌∙◌, ap, Bool, true, false, ◌||◌, ◌==◌, if◌then◌else◌, Option, none, some,
  List, [], ◌∷◌, Bool-cases, inl, inr, arith, ◌⊎◌,
}
use slug.Unwind.{Result}
use slug.Nursery.{
  NurseryScope, as_runtime_error, complete_context, cancel_context, is_except, cancel_each,
  cancel_children, note_child_failure,
}

-- A task among the children.
abbrev pub is_child : ℕ → List ℕ → Bool
is_child c [] = false
is_child c (child ∷ children) = child == c || is_child c children

cancel_context_ends :
    (n : NurseryScope) (c : ℕ) (cause : Option ℕ)
    → ((cancel_context n c cause).contexts c).is_finished ≡ true
unfolding cancel_context complete_context
cancel_context_ends n c cause = elim (Bool-cases (n.contexts c).is_finished) [
  | inl y ↦ rw (y, y) refl
  | inr q ↦ let same : (c == c) ≡ true = ground arith in rw (q, same) refl
]

cancel_context_kept :
    (n : NurseryScope) (c d : ℕ) (cause : Option ℕ)
    → ((c == d) ≡ false) ⊎ ((n.contexts d).is_finished ≡ true)
    → (cancel_context n c cause).contexts d ≡ n.contexts d
unfolding cancel_context complete_context
cancel_context_kept n c d cause h = elim (Bool-cases (n.contexts c).is_finished) [
  | inl y ↦ rw y refl
  | inr q ↦ elim (Bool-cases (c == d)) [
    | inr apart ↦ rw (q, apart) refl
    | inl y ↦ elim h [
      | inl apart ↦ rw (q, apart) refl
      | inr done ↦
          let same : c ≡ d = ground arith in
          absurd (unfinished (sym q ∙ ap (λ i. (n.contexts i).is_finished) same ∙ done))
    ]
  ]
]
  where
    unfinished : false ≡ true → ⊥
    unfinished e = ground arith

-- Cancelling a list of tasks leaves a finished task as it is, and also the task that is to be
-- left out.
pub cancel_each_kept :
    (children : List ℕ) (except cause : Option ℕ) (n : NurseryScope) (d : ℕ)
    → (is_except except d ≡ true) ⊎ ((n.contexts d).is_finished ≡ true)
    → (cancel_each children except cause n).contexts d ≡ n.contexts d
unfolding cancel_each
cancel_each_kept [] except cause n d h = refl
cancel_each_kept (c ∷ children) except cause n d h = elim (Bool-cases (is_except except c)) [
  | inl y ↦ rw (cancel_each, y) (cancel_each_kept children except cause n d h)
  | inr q ↦
      let one = cancel_context_kept n c d cause (apart except h q) in
      rw (cancel_each, q)
        (cancel_each_kept children except cause (cancel_context n c cause) d (still h one) ∙ one)
]
  where
    apart :
        (x : Option ℕ)
        → (is_except x d ≡ true) ⊎ ((n.contexts d).is_finished ≡ true)
        → is_except x c ≡ false
        → ((c == d) ≡ false) ⊎ ((n.contexts d).is_finished ≡ true)
    apart x (inr done) q = inr done
    apart none (inl e) q = inl (ground arith)
    apart (some x) (inl e) q = inl (ground arith)

    still :
        (is_except except d ≡ true) ⊎ ((n.contexts d).is_finished ≡ true)
        → (cancel_context n c cause).contexts d ≡ n.contexts d
        → (is_except except d ≡ true) ⊎ (((cancel_context n c cause).contexts d).is_finished ≡ true)
    still (inl e) same = inl e
    still (inr done) same = inr (rw same done)

cancel_each_ends :
    (children : List ℕ) (except cause : Option ℕ) (n : NurseryScope) (d : ℕ)
    → is_child d children ≡ true
    → is_except except d ≡ false
    → ((cancel_each children except cause n).contexts d).is_finished ≡ true
unfolding cancel_each
cancel_each_ends [] except cause n d h p = cc (h)
cancel_each_ends (c ∷ children) except cause n d h p = elim (Bool-cases (c == d)) [
  | inl y ↦
      let same : c ≡ d = ground arith in
      let left : is_except except c ≡ false = rw same p in
      let done : ((cancel_context n c cause).contexts d).is_finished ≡ true =
        ap (λ i. ((cancel_context n c cause).contexts i).is_finished) (sym same)
        ∙ cancel_context_ends n c cause in
      rw
        (
          cancel_each,
          left,
          cancel_each_kept children except cause (cancel_context n c cause) d (inr done),
        )
        done
  | inr q ↦
      cancel_each_ends children except cause
        (if is_except except c then n else cancel_context n c cause) d (ground arith) p
]

-- The first failure that a nursery scope notes leaves the task that failed as it is and ends any
-- other child of the scope.
pub note_child_failure_lem :
    (n : NurseryScope) (c d : ℕ) (err : Result)
    → n.nursery_err ≡ none
    → is_child d n.children ≡ true
    → (d == c) ≡ false
    → let k = note_child_failure n c err in
      (k.contexts c ≡ n.contexts c) × ((k.contexts d).is_finished ≡ true)
unfolding note_child_failure cancel_children
note_child_failure_lem n c d err e m p =
    let itself : (c == c) ≡ true = ground arith in
    let noted = record n { nursery_err = some err } in
    rw e (
      cancel_each_kept n.children (some c) (as_runtime_error err) noted c (inl itself),
      cancel_each_ends n.children (some c) (as_runtime_error err) noted d m p,
    )
