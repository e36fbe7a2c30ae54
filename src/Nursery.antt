-- ===== src/Nursery.antt =====
-- internal/vm/nursery_scope.go, with Complete and Cancel of internal/vm/call_context.go: a scope that
-- owns tasks and ends them when one fails. A task and an error are addresses. A method holds the
-- lock of its receiver while it reads and writes it, so its steps are one step here; NoteChildFailure
-- lets go of the lock before it cancels. The owner that a task points to is left out.
pub mod Cancellation
use slug.Prelude.{
  ℕ, suc, Bool, true, false, not, ◌||◌, ◌==◌, if◌then◌else◌, Option, none, some, List, [], ◌∷◌,
  ◌++◌,
}
use slug.Unwind.{
  Result, nil_result, cancellation, runtime_error, error_object, recur_signal, plain_result,
  return_value, is_error, is_return_value,
}

pub record CallContext : Type 0 where
  pub result : Option Result
  pub err : Option ℕ
  pub is_finished : Bool

-- A nursery scope, with the tasks and the errors by address.
pub record NurseryScope : Type 0 where
  pub children : List ℕ
  pub nursery_err : Option Result
  pub contexts : ℕ → CallContext
  pub cause : ℕ → Option ℕ
  pub error_count : ℕ

-- `res.(*object.RuntimeError)`
unfoldable pub as_runtime_error : Result → Option ℕ
as_runtime_error nil_result = none
as_runtime_error cancellation = none
as_runtime_error (runtime_error a) = some a
as_runtime_error (error_object a) = none
as_runtime_error (recur_signal a) = none
as_runtime_error (plain_result a) = none
as_runtime_error (return_value r) = none

abbrev pub finished : CallContext → Result → CallContext
finished c res = record {
  result = some res;
  err = elim (as_runtime_error res) [ some a ↦ some a | none ↦ c.err ];
  is_finished = true;
}

-- VMCallContext.Complete
unfoldable pub complete_context : NurseryScope → ℕ → Result → NurseryScope
unfolding as_runtime_error
complete_context n c res =
    if (n.contexts c).is_finished
    then n
    else record n { contexts = λ i. if c == i then finished (n.contexts c) res else n.contexts i }

-- VMCallContext.Cancel
unfoldable pub cancel_context : NurseryScope → ℕ → Option ℕ → NurseryScope
unfolding complete_context
cancel_context n c cause =
    complete_context
      (record n {
        cause = λ a. if n.error_count == a then cause else n.cause a;
        error_count = suc n.error_count;
      })
      c (runtime_error n.error_count)

unfoldable pub add_child : NurseryScope → ℕ → NurseryScope
add_child n c = record n { children = n.children ++ (c ∷ []) }

-- The loop of RemoveChild: the first entry of the task goes.
unfoldable pub without_child : ℕ → List ℕ → List ℕ
without_child c [] = []
without_child c (child ∷ children) =
    let rest = without_child c children in if child == c then children else child ∷ rest

unfoldable pub remove_child : NurseryScope → ℕ → NurseryScope
unfolding without_child
remove_child n c = record n { children = without_child c n.children }

abbrev pub is_except : Option ℕ → ℕ → Bool
is_except none c = false
is_except (some x) c = c == x

-- The loop of CancelChildren, over a copy of the children.
unfoldable pub cancel_each : List ℕ → Option ℕ → Option ℕ → NurseryScope → NurseryScope
unfolding cancel_context
cancel_each [] except cause n = n
cancel_each (c ∷ children) except cause n =
    cancel_each children except cause (if is_except except c then n else cancel_context n c cause)

unfoldable pub cancel_children : NurseryScope → Option ℕ → Option ℕ → NurseryScope
unfolding cancel_each
cancel_children n except cause = cancel_each n.children except cause n

unfoldable pub note_child_failure : NurseryScope → ℕ → Result → NurseryScope
unfolding cancel_children as_runtime_error
note_child_failure n c err = elim (n.nursery_err) [
  | some old ↦ n
  | none ↦ cancel_children (record n { nursery_err = some err }) (some c) (as_runtime_error err)
]
