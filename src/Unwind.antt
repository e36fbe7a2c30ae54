-- ===== src/Unwind.antt =====
-- internal/vm/executor.go, the end of a scope: deferred functions, and the tasks of internal/vm/task.go
-- that a scope owns. A slice that is used as a stack is a list with its last element first. Running a
-- function of the program and waiting for a task are parameters: each is a function on the state that
-- executors share. Positions in the text are left out.
pub mod Handlers
pub mod Failures
pub mod Termination
use slug.Prelude.{
  ℕ, zero, suc, ◌+◌, Bool, true, false, not, ◌&&◌, ◌||◌, ◌==◌, ltb, if◌then◌else◌, Option, none,
  some, List, [], ◌∷◌, length,
}

-- The results that this code tells apart: a *RuntimeError by its address, an *Error, a ReturnValue,
-- a recur signal, the payload that Cancel builds, and any other object.
pub data Result : Type 0 where
  nil_result cancellation : Result
  runtime_error error_object recur_signal plain_result : ℕ → Result
  return_value : Result → Result

-- `Type() == ERROR_OBJ`
unfoldable pub is_error : Result → Bool
is_error nil_result = false
is_error cancellation = false
is_error (runtime_error a) = true
is_error (error_object a) = true
is_error (recur_signal a) = false
is_error (plain_result a) = false
is_error (return_value r) = false

abbrev pub is_return_value : Result → Bool
is_return_value nil_result = false
is_return_value cancellation = false
is_return_value (runtime_error a) = false
is_return_value (error_object a) = false
is_return_value (recur_signal a) = false
is_return_value (plain_result a) = false
is_return_value (return_value r) = true

pub data DeferMode : Type 0 where
  defer_always defer_on_success defer_on_error : DeferMode

pub record VmDeferEntry : Type 0 where
  pub fn : ℕ
  pub mode : DeferMode
  pub error_name : Option ℕ

pub record VmTaskHandle : Type 0 where
  pub result : Option Result
  pub closed : Bool

-- What a called function and its caller share: task scopes (nil unless a nursery) and limits, the
-- bindings of errors in the current scope, runtime errors by address, and tasks.
pub record Shared : Type 0 where
  pub task_scopes : List (Option (List ℕ))
  pub task_limits : List (Option ℕ)
  pub error_bindings : ℕ → Option (Result × Option ℕ)
  pub payload : ℕ → Result
  pub cause : ℕ → Option ℕ
  pub error_count : ℕ
  pub tasks : ℕ → VmTaskHandle

pub record Executor : Type 0 where
  pub defer_scopes : List (List VmDeferEntry)
  pub shared : Shared
  pub borrowed_task_depth : ℕ
  pub borrowed_limit_depth : ℕ

-- VMTaskHandle.Complete: the first result stands.
unfoldable pub complete : Shared → ℕ → Result → Shared
complete s h r = if (s.tasks h).closed then s else record s {
  tasks = λ i. if h == i then record { result = some r; closed = true } else s.tasks i;
}

-- The error that Cancel makes, at a new address.
abbrev pub with_cancellation : Shared → Shared
with_cancellation s = record s {
  payload = λ a. if s.error_count == a then cancellation else s.payload a;
  cause = λ a. if s.error_count == a then none else s.cause a;
  error_count = suc s.error_count;
}

-- VMTaskHandle.Cancel
unfoldable pub cancel : Shared → ℕ → Shared
unfolding complete
cancel s h = complete (with_cancellation s) h (runtime_error s.error_count)

unfoldable pub cancel_all : List ℕ → Shared → Shared
unfolding cancel
cancel_all [] s = s
cancel_all (h ∷ handles) s = cancel_all handles (cancel s h)

-- `newRtErr.Cause = activeRuntimeErr`, if there is one.
unfoldable pub chained : ℕ → Result → Shared → Shared
chained a (runtime_error active) s = record s {
  cause = λ b. if a == b then some active else s.cause b;
}
chained a nil_result s = s
chained a cancellation s = s
chained a (error_object e) s = s
chained a (recur_signal r) s = s
chained a (plain_result v) s = s
chained a (return_value r) s = s

-- The result after a deferred function that did not throw a runtime error.
unfoldable pub recovered : Bool → Result → Result → Result
recovered false current out = current
recovered true current nil_result = nil_result
recovered true current cancellation = cancellation
recovered true current (runtime_error a) = runtime_error a
recovered true current (error_object a) = error_object a
recovered true current (recur_signal a) = recur_signal a
recovered true current (plain_result a) = plain_result a
recovered true current (return_value r) = r

unfoldable pub after_handler : Bool → Result → Shared × Result → Shared × Result
unfolding chained recovered
after_handler recovers current (s, runtime_error a) = (chained a current s, runtime_error a)
after_handler recovers current (s, nil_result) = (s, recovered recovers current nil_result)
after_handler recovers current (s, cancellation) = (s, recovered recovers current cancellation)
after_handler recovers current (s, error_object a) =
    (s, recovered recovers current (error_object a))
after_handler recovers current (s, recur_signal a) =
    (s, recovered recovers current (recur_signal a))
after_handler recovers current (s, plain_result a) =
    (s, recovered recovers current (plain_result a))
after_handler recovers current (s, return_value r) =
    (s, recovered recovers current (return_value r))

unfoldable pub should_run : DeferMode → Bool → Bool
should_run DeferMode.defer_always failing = true
should_run DeferMode.defer_on_success failing = not failing
should_run DeferMode.defer_on_error failing = failing

abbrev pub is_on_error : DeferMode → Bool
is_on_error DeferMode.defer_always = false
is_on_error DeferMode.defer_on_success = false
is_on_error DeferMode.defer_on_error = true

-- The new binding of an error name: its payload and the error, or an *Error itself.
unfoldable pub bound_error : Shared → Result → Result × Option ℕ
bound_error s (runtime_error a) = (s.payload a, some a)
bound_error s nil_result = (nil_result, none)
bound_error s cancellation = (nil_result, none)
bound_error s (error_object e) = (error_object e, none)
bound_error s (recur_signal r) = (nil_result, none)
bound_error s (plain_result v) = (nil_result, none)
bound_error s (return_value r) = (nil_result, none)

unfoldable pub bind_error : Shared → Option ℕ → Result → Shared
unfolding bound_error is_error
bind_error s none current = s
bind_error s (some name) current =
    if is_error current
    then record s {
      error_bindings = λ n. if name == n then some (bound_error s current) else s.error_bindings n;
    }
    else s

module _ (invoke : ℕ → Shared → Shared × Result) (wait : ℕ → Shared → Shared) where
  -- One round of the loop of executeDeferredEntries.
  unfoldable pub execute_entry : VmDeferEntry → Shared × Result → Shared × Result
  unfolding should_run is_error bind_error after_handler
  execute_entry ds (s, current) =
      let out = invoke ds.fn (bind_error s ds.error_name current) in
      if should_run ds.mode (is_error current)
      then after_handler (is_error current && is_on_error ds.mode) current out
      else (s, current)

  -- The loop runs from the last entry to the first.
  unfoldable pub execute_deferred_entries : List VmDeferEntry → Shared × Result → Shared × Result
  unfolding execute_entry
  execute_deferred_entries [] out = out
  execute_deferred_entries (ds ∷ later) out = execute_entry ds (execute_deferred_entries later out)

  -- A task that failed ends the scope with its error and cancels the tasks after it, unless the
  -- scope ends with an error or a return value already.
  unfoldable pub settle : ℕ → List ℕ → Shared → Result → Shared × Result
  unfolding cancel_all is_error
  settle h later s current = elim ((s.tasks h).result) [
    | none ↦ (s, current)
    | some res ↦
        if is_error res && not (is_error current || is_return_value current)
        then (cancel_all later s, res)
        else (s, current)
  ]

  unfoldable pub execute_handles : List ℕ → Shared × Result → Shared × Result
  unfolding settle
  execute_handles [] out = out
  execute_handles (h ∷ later) (s, current) =
      execute_handles later (settle h later (wait h s) current)

  abbrev pub with_outcome :
      Executor → List (List VmDeferEntry) → Shared × Result → Executor × Result
  with_outcome e scopes (s, current) = (record e { defer_scopes = scopes; shared = s }, current)

  unfoldable pub execute_task_handles_in_current_scope : Executor → Result → Executor × Result
  unfolding execute_handles
  execute_task_handles_in_current_scope e current = elim (e.shared.task_scopes) [
    | [] ↦ (e, current)
    | none ∷ scopes ↦ (record e { shared = record (e.shared) { task_scopes = scopes } }, current)
    | some handles ∷ scopes ↦
        with_outcome e e.defer_scopes
          (execute_handles handles (record (e.shared) { task_scopes = scopes }, current))
  ]

  unfoldable pub execute_deferred_in_current_scope : Executor → Result → Executor × Result
  unfolding execute_deferred_entries
  execute_deferred_in_current_scope e current = elim (e.defer_scopes) [
    | [] ↦ (e, current)
    | entries ∷ scopes ↦
        with_outcome e scopes (execute_deferred_entries entries (e.shared, current))
  ]

  -- The test of the loop of unwindDeferredScopes.
  abbrev pub has_scopes : Executor → Bool
  has_scopes e =
      ltb 0 (length e.defer_scopes) || ltb e.borrowed_task_depth (length e.shared.task_scopes)

  abbrev pub drop_first {ℓ} : {A : Type ℓ} → List A → List A
  drop_first [] = []
  drop_first (x ∷ xs) = xs

  unfoldable pub drop_limit : Executor → Executor
  drop_limit e =
      if ltb e.borrowed_limit_depth (length e.shared.task_limits)
      then record e { shared = record (e.shared) { task_limits = drop_first e.shared.task_limits } }
      else e

  -- One round of that loop; with no deferred scope left, the second call changes nothing.
  unfoldable pub unwind_round : Executor → Result → Executor × Result
  unfolding drop_limit
  unwind_round e current =
      let (e₁, joined) =
        if ltb e.borrowed_task_depth (length e.shared.task_scopes)
        then execute_task_handles_in_current_scope e current
        else (e, current) in
      let (e₂, out) = execute_deferred_in_current_scope e₁ joined in (drop_limit e₂, out)

  unfoldable pub unwind : ℕ → Executor → Result → Executor × Result
  unwind zero e current = (e, current)
  unwind (suc f) e current =
      let (e', out) = unwind_round e current in
      let rest = unwind f e' out in if has_scopes e then rest else (e, current)

  -- The loop: a round for each deferred scope, and then one for each task scope that is left. A
  -- deferred function may leave task scopes of its own.
  unfoldable pub unwind_deferred_scopes : Executor → Result → Executor × Result
  unwind_deferred_scopes e current =
      let (e', out) = unwind (length e.defer_scopes) e current in
      unwind (length e'.shared.task_scopes) e' out
