-- ===== src/Tests/Dispatching.antt =====
-- A choice among three functions.
use slug.Prelude.{ℕ, ◌≡◌, refl, none, some, [], ◌∷◌, true, false}
use slug.Prelude.Text.{codes, text_eq}
use slug.Dispatch.{
  max_int, text_ltb, Candidate, no_match, is_better, is_better_vm, consider, dispatch, consider_vm,
  select_vm_function_from_group,
}
use slug.Dispatch.Choice.{
  Reordered, exchange, behind, again, select-Reordered, dispatch-select_vm_function_from_group,
}

abbrev exact : Candidate ℕ
exact = record {
  sig = record {
    min = 1;
    max = 1;
    is_variadic = false;
    tags = codes "@num|";
    key = codes "1|1|false|@num|";
  };
  fn = 10;
  score = some 2;
}

abbrev fewer : Candidate ℕ
fewer = record {
  sig = record {
    min = 0;
    max = 1;
    is_variadic = false;
    tags = codes "|";
    key = codes "0|1|false||";
  };
  fn = 20;
  score = some 1;
}

abbrev variadic : Candidate ℕ
variadic = record {
  sig = record {
    min = 0;
    max = max_int;
    is_variadic = true;
    tags = codes "@str|";
    key = codes "0|9|true|@str|";
  };
  fn = 30;
  score = some 0;
}

by_score :
    (select_vm_function_from_group 1 (variadic ∷ fewer ∷ exact ∷ []) (no_match ℕ)).best_match
    ≡ some 10
unfolding select_vm_function_from_group consider_vm is_better_vm text_ltb
by_score = refl

-- A variadic function whose tags do not match is taken by one loop and left by the other.
unmatched : (dispatch 1 (variadic ∷ []) (no_match ℕ)).best_match ≡ some 30
unfolding dispatch consider is_better text_ltb
unmatched = refl

unmatched_vm : (select_vm_function_from_group 1 (variadic ∷ []) (no_match ℕ)).best_match ≡ none
unfolding select_vm_function_from_group consider_vm
unmatched_vm = refl

rotated : Reordered (variadic ∷ fewer ∷ exact ∷ []) (fewer ∷ exact ∷ variadic ∷ [])
unfolding text_eq
rotated =
    again _ (fewer ∷ variadic ∷ exact ∷ []) _ (exchange variadic fewer (exact ∷ []) refl refl refl)
      (behind fewer _ _ (exchange variadic exact [] refl refl refl))

select-Reordered_example :
    select_vm_function_from_group 1 (variadic ∷ fewer ∷ exact ∷ []) (no_match ℕ)
    ≡ select_vm_function_from_group 1 (fewer ∷ exact ∷ variadic ∷ []) (no_match ℕ)
select-Reordered_example =
    select-Reordered 1 (no_match ℕ) (variadic ∷ fewer ∷ exact ∷ []) (fewer ∷ exact ∷ variadic ∷ [])
      rotated

dispatch-select_vm_function_from_group_example :
    dispatch 1 (fewer ∷ exact ∷ []) (no_match ℕ)
    ≡ select_vm_function_from_group 1 (fewer ∷ exact ∷ []) (no_match ℕ)
dispatch-select_vm_function_from_group_example =
    dispatch-select_vm_function_from_group 1 (no_match ℕ) (fewer ∷ exact ∷ []) refl
