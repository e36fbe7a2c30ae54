-- ===== src/Unwind/Handlers.antt =====
-- What the deferred functions and the tasks of a scope make of its result: internal/vm/executor.go and
-- internal/vm/task.go.
use slug.Prelude.{
  ℕ, ◌≡◌, refl, ◌∙◌, Bool, true, false, not, ◌==◌, if◌then◌else◌, Option, none, some, List, [], ◌∷◌,
  Bool-cases, inl, inr, arith, All,
}
use slug.Unwind.{
  Result, nil_result, cancellation, runtime_error, error_object, recur_signal, plain_result,
  return_value, is_error, DeferMode, is_on_error, VmDeferEntry, Shared, with_cancellation, complete,
  cancel, cancel_all, recovered, after_handler, should_run, bind_error, execute_entry,
  execute_deferred_entries,
}

abbrev pub is_runtime_error : Result → Bool
is_runtime_error nil_result = false
is_runtime_error cancellation = false
is_runtime_error (runtime_error a) = true
is_runtime_error (error_object a) = false
is_runtime_error (recur_signal a) = false
is_runtime_error (plain_result a) = false
is_runtime_error (return_value r) = false

-- A handler that may not recover leaves an error an error.
after_handler_error :
    (current : Result) (s : Shared) (out : Result)
    → is_error current ≡ true
    → is_error (after_handler false current (s, out)).1 ≡ true
unfolding after_handler recovered is_error
after_handler_error current s nil_result e = e
after_handler_error current s cancellation e = e
after_handler_error current s (runtime_error a) e = refl
after_handler_error current s (error_object a) e = e
after_handler_error current s (recur_signal a) e = e
after_handler_error current s (plain_result a) e = e
after_handler_error current s (return_value r) e = e

-- A handler that throws no runtime error and may not recover leaves the result.
after_handler_quiet :
    (current : Result) (s : Shared) (out : Result)
    → is_runtime_error out ≡ false
    → after_handler false current (s, out) ≡ (s, current)
unfolding after_handler recovered
after_handler_quiet current s nil_result e = refl
after_handler_quiet current s cancellation e = refl
after_handler_quiet current s (runtime_error a) e = cc (e)
after_handler_quiet current s (error_object a) e = refl
after_handler_quiet current s (recur_signal a) e = refl
after_handler_quiet current s (plain_result a) e = refl
after_handler_quiet current s (return_value r) e = refl

module _ (invoke : ℕ → Shared → Shared × Result) (wait : ℕ → Shared → Shared) where
  -- Deferred functions of which none is for errors only leave an error an error.
  pub execute_deferred_entries_error :
      (entries : List VmDeferEntry) (s : Shared) (current : Result)
      → All (λ ds. is_on_error (ds.mode) ≡ false) entries
      → is_error current ≡ true
      → is_error (execute_deferred_entries invoke wait entries (s, current)).1 ≡ true
  unfolding execute_deferred_entries execute_entry
  execute_deferred_entries_error [] s current h e = e
  execute_deferred_entries_error (ds ∷ later) s current (p, h) e =
      let out = execute_deferred_entries invoke wait later (s, current) in
      let failing = execute_deferred_entries_error later s current h e in
      elim (Bool-cases (should_run ds.mode (is_error out.1))) [
        | inr q ↦ rw q failing
        | inl q ↦ rw (q, failing, p) (after_handler_error out.1 _ _ failing)
      ]

  -- The functions of a list of entries, the last first, for what they do to the state.
  pub run_handlers : List VmDeferEntry → Shared → Shared
  run_handlers [] s = s
  run_handlers (ds ∷ later) s =
      let s' = run_handlers later s in if is_on_error ds.mode then s' else (invoke ds.fn s').0

  bind_error_quiet :
      (s : Shared) (name : Option ℕ) (current : Result)
      → is_error current ≡ false
      → bind_error s name current ≡ s
  unfolding bind_error
  bind_error_quiet s none current e = refl
  bind_error_quiet s (some n) current e = rw e refl

  runs_without_error : (m : DeferMode) → should_run m false ≡ not (is_on_error m)
  unfolding should_run
  runs_without_error DeferMode.defer_always = refl
  runs_without_error DeferMode.defer_on_success = refl
  runs_without_error DeferMode.defer_on_error = refl

  -- Where the result is no error and no deferred function ends in a runtime error, the deferred
  -- functions leave the result as it is, and those that are not for errors only run, the last
  -- registered first.
  pub execute_deferred_entries_quiet :
      (entries : List VmDeferEntry) (s : Shared) (current : Result)
      → ((fn : ℕ) (t : Shared) → is_runtime_error (invoke fn t).1 ≡ false)
      → is_error current ≡ false
      → execute_deferred_entries invoke wait entries (s, current)
        ≡ (run_handlers entries s, current)
  unfolding execute_deferred_entries execute_entry run_handlers
  execute_deferred_entries_quiet [] s current quiet e = refl
  execute_deferred_entries_quiet (ds ∷ later) s current quiet e =
      let rest = execute_deferred_entries_quiet later s current quiet e in
      let t = run_handlers later s in
      elim (Bool-cases (is_on_error ds.mode)) [
        | inl q ↦ rw (rest, e, runs_without_error ds.mode, q) refl
        | inr q ↦
            rw (rest, e, runs_without_error ds.mode, q, bind_error_quiet t ds.error_name current e)
              (after_handler_quiet current (invoke ds.fn t).0 (invoke ds.fn t).1 (quiet ds.fn t))
      ]

-- A task that has ended keeps its result, whatever task is completed or cancelled.
pub complete_kept :
    (s : Shared) (h g : ℕ) (r : Result)
    → (s.tasks h).closed ≡ true
    → (complete s g r).tasks h ≡ s.tasks h
unfolding complete
complete_kept s h g r e = elim (Bool-cases (g == h)) [
  | inl y ↦
      let same : g ≡ h = ground arith in
      let ended : (s.tasks g).closed ≡ true = rw same e in rw ended refl
  | inr n ↦ elim (Bool-cases (s.tasks g).closed) [ inl c ↦ rw c refl | inr c ↦ rw (c, n) refl ]
]

-- Cancelling any tasks leaves a task that has ended as it is.
pub cancel_all_kept :
    (handles : List ℕ) (s : Shared) (h : ℕ)
    → (s.tasks h).closed ≡ true
    → (cancel_all handles s).tasks h ≡ s.tasks h
unfolding cancel_all cancel
cancel_all_kept [] s h e = refl
cancel_all_kept (g ∷ handles) s h e =
    let one : (cancel s g).tasks h ≡ s.tasks h =
      complete_kept (with_cancellation s) h g (runtime_error s.error_count) e in
    cancel_all_kept handles (cancel s g) h (rw one e) ∙ one
