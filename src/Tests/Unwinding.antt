-- ===== src/Tests/Unwinding.antt =====
-- The end of a scope at fixed inputs: three deferred functions, of which function 1 throws, and
-- two tasks, of which task 0 failed.
use slug.Prelude.{ℕ, ◌≡◌, refl, true, false, none, some, List, [], ◌∷◌, ◌==◌, if◌then◌else◌, arith}
use slug.Unwind.{
  Result, nil_result, runtime_error, plain_result, is_error, DeferMode, VmDeferEntry, Shared,
  Executor, complete, cancel, cancel_all, chained, after_handler, recovered, should_run, bind_error,
  bound_error, execute_entry, execute_deferred_entries, execute_handles, settle,
  unwind_deferred_scopes, has_scopes,
}
use slug.Unwind.Handlers.{
  run_handlers, execute_deferred_entries_error, execute_deferred_entries_quiet, cancel_all_kept,
}
use slug.Unwind.Termination.{unwind_deferred_scopes_ends}

abbrev state : Shared
state = record {
  task_scopes = some (0 ∷ 1 ∷ []) ∷ none ∷ [];
  task_limits = none ∷ none ∷ [];
  error_bindings = λ n. none;
  payload = λ a. plain_result a;
  cause = λ a. none;
  error_count = 10;
  tasks = λ h.
      if h == 0
      then record { result = some (runtime_error 5); closed = true }
      else record { result = none; closed = false };
}

abbrev calls : ℕ → Shared → Shared × Result
calls fn s = (s, if fn == 1 then runtime_error 4 else plain_result fn)

abbrev silent : ℕ → Shared → Shared × Result
silent fn s = (s, plain_result fn)

abbrev waits : ℕ → Shared → Shared
waits h s = s

abbrev entry : ℕ → DeferMode → VmDeferEntry
entry fn mode = record { fn = fn; mode = mode; error_name = some 0 }

abbrev cleanup : List VmDeferEntry
cleanup = entry 1 DeferMode.defer_always ∷ entry 2 DeferMode.defer_on_success ∷ []

abbrev with_recovery : List VmDeferEntry
with_recovery = entry 3 DeferMode.defer_on_error ∷ cleanup

thrown : (execute_deferred_entries calls waits cleanup (state, plain_result 0)).1 ≡ runtime_error 4
unfolding execute_deferred_entries execute_entry should_run is_error bind_error after_handler
    recovered chained
thrown = refl

recovers :
    (execute_deferred_entries calls waits with_recovery (state, plain_result 0)).1 ≡ plain_result 3
unfolding execute_deferred_entries execute_entry should_run is_error bind_error after_handler
    recovered chained bound_error
recovers = refl

fails_fast :
    let out = execute_handles calls waits (0 ∷ 1 ∷ []) (state, nil_result) in
    (out.1 ≡ runtime_error 5) × ((out.0.tasks 1).result ≡ some (runtime_error 10))
unfolding execute_handles settle is_error cancel_all cancel complete
fails_fast = (refl, refl)

execute_deferred_entries_error_example :
    is_error (execute_deferred_entries calls waits cleanup (state, runtime_error 9)).1 ≡ true
unfolding is_error
execute_deferred_entries_error_example =
    execute_deferred_entries_error calls waits cleanup state (runtime_error 9) (refl, (refl, tt))
      refl

execute_deferred_entries_quiet_example :
    execute_deferred_entries silent waits with_recovery (state, plain_result 0)
    ≡ (run_handlers silent waits with_recovery state, plain_result 0)
unfolding is_error
execute_deferred_entries_quiet_example =
    execute_deferred_entries_quiet silent waits with_recovery state (plain_result 0) (λ fn t. refl)
      refl

cancel_all_kept_example : (cancel_all (1 ∷ 0 ∷ []) state).tasks 0 ≡ state.tasks 0
cancel_all_kept_example = cancel_all_kept (1 ∷ 0 ∷ []) state 0 refl

abbrev executor : Executor
executor = record {
  defer_scopes = cleanup ∷ with_recovery ∷ [];
  shared = state;
  borrowed_task_depth = 0;
  borrowed_limit_depth = 0;
}

unwind_deferred_scopes_ends_example :
    has_scopes calls waits (unwind_deferred_scopes calls waits executor nil_result).0 ≡ false
unwind_deferred_scopes_ends_example =
    unwind_deferred_scopes_ends calls waits (λ h s. omega arith) executor nil_result
