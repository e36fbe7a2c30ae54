-- ===== src/Tests/Siblings.antt =====
-- A nursery with three tasks, of which task 0 has ended.
use slug.Prelude.{◌≡◌, refl, true, false, none, some, [], ◌∷◌, ◌==◌, if◌then◌else◌, inr}
use slug.Unwind.{plain_result, runtime_error, error_object}
use slug.Nursery.{
  NurseryScope, note_child_failure, cancel_children, cancel_each, cancel_context, complete_context,
  as_runtime_error, remove_child, without_child, add_child,
}
use slug.Nursery.Cancellation.{note_child_failure_lem, cancel_each_kept}

abbrev nursery : NurseryScope
nursery = record {
  children = 0 ∷ 1 ∷ 2 ∷ [];
  nursery_err = none;
  contexts = λ c.
      if c == 0
      then record { result = some (plain_result 7); err = none; is_finished = true }
      else record { result = none; err = none; is_finished = false };
  cause = λ a. none;
  error_count = 10;
}

siblings_end :
    ((note_child_failure nursery 1 (runtime_error 3)).contexts 2).result ≡ some (runtime_error 11)
unfolding note_child_failure cancel_children cancel_each cancel_context complete_context
    as_runtime_error
siblings_end = refl

removed : (remove_child (add_child nursery 1) 1).children ≡ 0 ∷ 2 ∷ 1 ∷ []
unfolding remove_child without_child add_child
removed = refl

note_child_failure_lem_example :
    let k = note_child_failure nursery 1 (error_object 3) in
    (k.contexts 1 ≡ nursery.contexts 1) × ((k.contexts 2).is_finished ≡ true)
note_child_failure_lem_example = note_child_failure_lem nursery 1 2 (error_object 3) refl refl refl

cancel_each_kept_example :
    (cancel_each (2 ∷ 0 ∷ []) none (some 4) nursery).contexts 0 ≡ nursery.contexts 0
cancel_each_kept_example = cancel_each_kept (2 ∷ 0 ∷ []) none (some 4) nursery 0 (inr refl)
