-- ===== src/Unwind/Termination.antt =====
-- unwindDeferredScopes of internal/vm/executor.go ends with every scope ended.
use slug.Prelude.{
  ℕ, zero, suc, ◌-◌, ◌≤◌, ◌<◌, ◌≡◌, refl, ◌∙◌, true, false, not, ◌&&◌, ◌||◌, ltb, none, some, List,
  [], ◌∷◌, Bool-cases, Option-cases, inl, inr, arith, length, ◌⊎◌,
}
use slug.Unwind.{
  Result, Executor, Shared, is_error, is_return_value, complete, cancel, cancel_all, settle,
  execute_handles, has_scopes, unwind, unwind_round, unwind_deferred_scopes, drop_limit,
  execute_task_handles_in_current_scope, execute_deferred_in_current_scope,
}

List-cases : {A : Type 0} (xs : List A) → (xs ≡ []) ⊎ ((x : A) × (ys : List A) × (xs ≡ x ∷ ys))
List-cases [] = inl refl
List-cases (x ∷ xs) = inr (x, xs, refl)

abbrev depth : Shared → ℕ
depth s = length s.task_scopes

depth-cancel_all : (handles : List ℕ) (s : Shared) → depth (cancel_all handles s) ≡ depth s
unfolding cancel_all cancel complete
depth-cancel_all [] s = refl
depth-cancel_all (h ∷ handles) s = depth-cancel_all handles _ ∙ ground arith

module _ (invoke : ℕ → Shared → Shared × Result) (wait : ℕ → Shared → Shared)
    (wait_depth : (h : ℕ) (s : Shared) → depth (wait h s) ≤ depth s) where
  depth-settle :
      (h : ℕ) (later : List ℕ) (s : Shared) (current : Result)
      → depth (settle invoke wait h later s current).0 ≡ depth s
  unfolding settle
  depth-settle h later s current = elim (Option-cases ((s.tasks h).result)) [
    | inl n ↦ rw (settle, n) refl
    | inr (r, n) ↦
        elim (Bool-cases (is_error r && not (is_error current || is_return_value current))) [
          | inl y ↦ rw (settle, n, y) (depth-cancel_all later s)
          | inr y ↦ rw (settle, n, y) refl
        ]
  ]

  depth-execute_handles :
      (handles : List ℕ) (s : Shared) (current : Result)
      → depth (execute_handles invoke wait handles (s, current)).0 ≤ depth s
  unfolding execute_handles
  depth-execute_handles [] s current = omega arith
  depth-execute_handles (h ∷ later) s current =
      let t = wait h s in
      let out = settle invoke wait h later t current in
      let a = depth-execute_handles later out.0 out.1 in
      let b = depth-settle h later t current in let c = wait_depth h s in omega arith

  -- Waiting for the tasks of a scope ends the scope and no deferred one.
  join_scopes :
      (e : Executor) (current : Result)
      → let k = (execute_task_handles_in_current_scope invoke wait e current).0 in
        (length k.defer_scopes ≡ length e.defer_scopes)
        × (k.borrowed_task_depth ≡ e.borrowed_task_depth)
        × (0 < depth e.shared → depth k.shared < depth e.shared)
  unfolding execute_task_handles_in_current_scope
  join_scopes e current = elim (List-cases e.shared.task_scopes) [
    | inl n ↦ rw (execute_task_handles_in_current_scope, n) (refl, refl, λ l. omega arith)
    | inr (none, scopes, n) ↦
        rw (execute_task_handles_in_current_scope, n) (refl, refl, λ l. omega arith)
    | inr (some handles, scopes, n) ↦
        let rest = record (e.shared) { task_scopes = scopes } in
        let less = depth-execute_handles handles rest current in
        rw (execute_task_handles_in_current_scope, n) (refl, refl, λ l. omega arith)
  ]

  -- Running the deferred functions of a scope ends it; where there is none, nothing changes.
  defer_scopes_less :
      (e : Executor) (current : Result)
      → let k = (execute_deferred_in_current_scope invoke wait e current).0 in
        (length k.defer_scopes ≡ length e.defer_scopes - 1)
        × (length e.defer_scopes ≡ 0 → depth k.shared ≡ depth e.shared)
  unfolding execute_deferred_in_current_scope
  defer_scopes_less e current = elim (List-cases e.defer_scopes) [
    | inl n ↦ rw (execute_deferred_in_current_scope, n) (rw n (omega arith), λ l. refl)
    | inr (entries, scopes, n) ↦
        rw (execute_deferred_in_current_scope, n) (omega arith, λ l. absurd (omega arith))
  ]

  drop_limit_kept :
      (e : Executor)
      → ((drop_limit invoke wait e).defer_scopes ≡ e.defer_scopes)
        × (depth (drop_limit invoke wait e).shared ≡ depth e.shared)
  unfolding drop_limit
  drop_limit_kept e = elim (Bool-cases (ltb e.borrowed_limit_depth (length e.shared.task_limits))) [
    | inl y ↦ rw y (refl, refl)
    | inr n ↦ rw n (refl, refl)
  ]

  unwind_round_less :
      (e : Executor) (current : Result)
      → let k = (unwind_round invoke wait e current).0 in
        (length k.defer_scopes ≡ length e.defer_scopes - 1)
        × (length e.defer_scopes ≡ 0
            → has_scopes invoke wait e ≡ true
            → depth k.shared < depth e.shared)
  unfolding unwind_round
  unwind_round_less e current = elim (Bool-cases (ltb e.borrowed_task_depth (depth e.shared))) [
    | inl y ↦
        let (same, _, less) = join_scopes e current in
        let out = execute_task_handles_in_current_scope invoke wait e current in
        let (fewer, kept) = defer_scopes_less out.0 out.1 in
        let (d, k) =
          drop_limit_kept (execute_deferred_in_current_scope invoke wait out.0 out.1).0 in
        let strict = less (ground arith) in
        rw (y, d, k)
          (
            omega (arith, fewer, same),
            λ none_left h. let q = kept (same ∙ none_left) in omega (arith, q, strict),
          )
    | inr n ↦
        let (fewer, kept) = defer_scopes_less e current in
        let (d, k) = drop_limit_kept (execute_deferred_in_current_scope invoke wait e current).0 in
        rw (n, d, k) (fewer, λ none_left h. absurd (ground arith))
  ]

  -- As many rounds as there are deferred scopes leave none of them.
  unwind_defers :
      (f : ℕ) (e : Executor) (current : Result)
      → length e.defer_scopes ≤ f
      → (length (unwind invoke wait f e current).0.defer_scopes ≡ 0)
  unfolding unwind
  unwind_defers zero e current l = omega arith
  unwind_defers (suc f) e current l = elim (Bool-cases (has_scopes invoke wait e)) [
    | inr n ↦ rw (unwind, n) (ground arith)
    | inl y ↦
        let next = unwind_round invoke wait e current in
        let less = (unwind_round_less e current).0 in
        rw (unwind, y) (unwind_defers f next.0 next.1 (omega arith))
  ]

  unwind_tasks :
      (f : ℕ) (e : Executor) (current : Result)
      → length e.defer_scopes ≡ 0
      → depth e.shared ≤ f
      → has_scopes invoke wait (unwind invoke wait f e current).0 ≡ false
  unfolding unwind
  unwind_tasks zero e current n l = ground arith
  unwind_tasks (suc f) e current n l = elim (Bool-cases (has_scopes invoke wait e)) [
    | inr q ↦ rw (unwind, q) q
    | inl y ↦
        let next = unwind_round invoke wait e current in
        let (fewer, less) = unwind_round_less e current in
        let strict = less n y in
        rw (unwind, y) (unwind_tasks f next.0 next.1 (omega arith) (omega arith))
  ]

  -- For deferred functions that do anything and waits that add no task scope, the loop of
  -- unwindDeferredScopes stops, with no deferred scope left and no more task scopes than were
  -- borrowed.
  pub unwind_deferred_scopes_ends :
      (e : Executor) (current : Result)
      → has_scopes invoke wait (unwind_deferred_scopes invoke wait e current).0 ≡ false
  unfolding unwind_deferred_scopes
  unwind_deferred_scopes_ends e current =
      let first = unwind invoke wait (length e.defer_scopes) e current in
      unwind_tasks (depth first.0.shared) first.0 first.1
        (unwind_defers (length e.defer_scopes) e current (omega arith)) (omega arith)
