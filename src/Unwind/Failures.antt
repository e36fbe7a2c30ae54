-- ===== src/Unwind/Failures.antt =====
-- What the tasks of a scope make of its result: executeTaskHandlesInCurrentScope of
-- internal/vm/executor.go.
use slug.Prelude.{ℕ, if◌then◌else◌, Option, none, some, List, [], ◌∷◌}
use slug.Unwind.{Result, is_error, Shared}

module _ (wait : ℕ → Shared → Shared) where
  -- The error of the first of the tasks that has ended with one once it has been waited for.
  unfoldable pub first_failure : List ℕ → Shared → Option Result
  first_failure [] s = none
  first_failure (h ∷ later) s =
      let waited = wait h s in
      elim ((waited.tasks h).result) [
        | none ↦ first_failure later waited
        | some res ↦ if is_error res then some res else first_failure later waited
      ]

abbrev pub failure_or : Option Result → Result → Result
failure_or none current = current
failure_or (some res) current = res
