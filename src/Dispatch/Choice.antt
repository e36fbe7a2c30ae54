-- ===== src/Dispatch/Choice.antt =====
-- The loops of DispatchToFunction, internal/object/object.go, and of selectVMFunctionFromGroup,
-- internal/vm/executor.go.
use slug.Prelude.{
  ℕ, zero, suc, ◌≡◌, refl, sym, ap, ◌∙◌, Bool, true, false, not, ◌&&◌, ◌||◌, ltb, leb, ◌==◌,
  if◌then◌else◌, Option, none, some, List, [], ◌∷◌, Bool-cases, inl, inr, arith,
}
use slug.Prelude.Text.{text_eq}
use mathlib.Core.Bool.{true≢false}
use slug.Dispatch.{
  FSig, text_ltb, same_bool, is_empty_text, Candidate, Best, is_better, is_better_vm, better_of,
  better_of_vm, chosen_vm, vm_signature_specificity, consider, dispatch, consider_vm,
  select_vm_function_from_group, eligible,
}
use slug.Dispatch.Order.{better_of_vm_swap}

-- The two conditions, on the numbers and what the keys' comparison gives.
conditions_agree :
    (m m' s s' p p' : ℕ) (b v key : Bool)
    → (leb 1 s && ltb m m'
        || m == m' && ltb s' s
        || (m == m' && s == s') && not b && not v
        || ((m == m' && s == s') && same_bool b (not v)) && ltb p' p
        || ((m == m' && s == s') && same_bool b (not v)) && p == p' && key)
      ≡ (leb 1 s && ltb m m'
          || m == m' && ltb s' s
          || m == m' && s == s' && not b && not v
          || m == m' && s == s' && same_bool b (not v) && ltb p' p
          || m == m' && s == s' && same_bool b (not v) && p == p' && key)
conditions_agree m m' s s' p p' true true key = ground arith
conditions_agree m m' s s' p p' true false key = ground arith
conditions_agree m m' s s' p p' false true key = ground arith
conditions_agree m m' s s' p p' false false key = ground arith

in_range : (n low high : ℕ) → (leb low n && leb n high) ≡ not (ltb n low || ltb high n)
in_range n low high = ground arith

eligible_lem :
    (o : Option ℕ)
    → elim o as (λ o. Bool) [ none ↦ true | some score ↦ ltb 0 score ] ≡ true
    → eligible o ≡ o
eligible_lem none h = refl
eligible_lem (some zero) h = absurd (true≢false (sym h))
eligible_lem (some (suc s)) h = refl

module _ {ℓ} {F : Type ℓ} where
  better_of_vm_some :
      (best : Best F) (c d : Candidate F) (o p : Option ℕ)
      → is_empty_text c.sig.key ≡ false
      → is_empty_text d.sig.key ≡ false
      → text_eq d.sig.key c.sig.key ≡ false
      → better_of_vm (better_of_vm best c (eligible o)) d (eligible p)
        ≡ better_of_vm (better_of_vm best d (eligible p)) c (eligible o)
  better_of_vm_some best c d none p nc nd other = refl
  better_of_vm_some best c d (some zero) p nc nd other = refl
  better_of_vm_some best c d (some (suc s)) none nc nd other = refl
  better_of_vm_some best c d (some (suc s)) (some zero) nc nd other = refl
  better_of_vm_some best c d (some (suc s)) (some (suc t)) nc nd other =
      better_of_vm_swap best c d s t nc nd other

  -- A candidate that the call's number of arguments does not fit is as good as one with no score.
  abbrev offer : ℕ → Candidate F → Option ℕ
  offer n c = if ltb n c.sig.min || ltb c.sig.max n then none else c.score

  consider_vm-offer :
      (n : ℕ) (best : Best F) (c : Candidate F)
      → consider_vm n best c ≡ better_of_vm best c (eligible (offer n c))
  unfolding consider_vm
  consider_vm-offer n best c = elim (Bool-cases (ltb n c.sig.min || ltb c.sig.max n)) [
    | inl y ↦ rw y refl
    | inr m ↦ rw m refl
  ]

  consider_vm_swap :
      (n : ℕ) (best : Best F) (c d : Candidate F)
      → is_empty_text c.sig.key ≡ false
      → is_empty_text d.sig.key ≡ false
      → text_eq d.sig.key c.sig.key ≡ false
      → consider_vm n (consider_vm n best c) d ≡ consider_vm n (consider_vm n best d) c
  consider_vm_swap n best c d nc nd other =
      consider_vm-offer n (consider_vm n best c) d
      ∙ ap (λ b. better_of_vm b d (eligible (offer n d))) (consider_vm-offer n best c)
      ∙ better_of_vm_some best c d (offer n c) (offer n d) nc nd other
      ∙ sym (ap (λ b. better_of_vm b c (eligible (offer n c))) (consider_vm-offer n best d))
      ∙ sym (consider_vm-offer n (consider_vm n best d) c)

  -- Another order of the same candidates, by exchanges of neighbours whose signatures have different keys.
  pub data Reordered : List (Candidate F) → List (Candidate F) → Type ℓ where
    same : (cs : List (Candidate F)) → Reordered cs cs
    exchange :
        (c d : Candidate F) (cs : List (Candidate F))
        → is_empty_text c.sig.key ≡ false
        → is_empty_text d.sig.key ≡ false
        → text_eq d.sig.key c.sig.key ≡ false
        → Reordered (c ∷ d ∷ cs) (d ∷ c ∷ cs)
    behind :
        (c : Candidate F) (cs ds : List (Candidate F))
        → Reordered cs ds
        → Reordered (c ∷ cs) (c ∷ ds)
    again : (cs ds es : List (Candidate F)) → Reordered cs ds → Reordered ds es → Reordered cs es

  -- The function that selectVMFunctionFromGroup chooses does not depend on the order of the
  -- candidates: any number of exchanges of neighbours whose signatures have different keys, none
  -- of them empty, leaves the choice as it is, from any best match so far.
  pub select-Reordered :
      (n : ℕ) (best : Best F) (cs ds : List (Candidate F))
      → Reordered cs ds
      → select_vm_function_from_group n cs best ≡ select_vm_function_from_group n ds best
  unfolding select_vm_function_from_group
  select-Reordered n best _ _ (same cs) = refl
  select-Reordered n best _ _ (exchange c d cs nc nd other) =
      ap (λ b. select_vm_function_from_group n cs b) (consider_vm_swap n best c d nc nd other)
  select-Reordered n best _ _ (behind c cs ds r) = select-Reordered n (consider_vm n best c) cs ds r
  select-Reordered n best _ _ (again cs ds es r s) =
      select-Reordered n best cs ds r ∙ select-Reordered n best ds es s

  -- The candidate binds its arguments, and its tags match, or it does not bind.
  abbrev pub is_matching : Candidate F → Bool
  is_matching c = elim c.score [ none ↦ true | some score ↦ ltb 0 score ]

  abbrev pub all_matching : List (Candidate F) → Bool
  all_matching [] = true
  all_matching (c ∷ cs) = is_matching c && all_matching cs

  is_better-is_better_vm :
      (sig : FSig) (score : ℕ) (best : Best F)
      → is_better sig score best ≡ is_better_vm sig score best
  unfolding is_better is_better_vm
  is_better-is_better_vm sig score best =
      conditions_agree sig.max best.best_max score best.best_score (vm_signature_specificity sig)
        best.best_specificity best.found_non_variadic sig.is_variadic
        (is_empty_text best.best_sig_key || text_ltb sig.key best.best_sig_key)

  better_of-better_of_vm :
      (best : Best F) (c : Candidate F) (o : Option ℕ) → better_of best c o ≡ better_of_vm best c o
  better_of-better_of_vm best c none = refl
  better_of-better_of_vm best c (some score) =
      ap (λ b. if b then chosen_vm c.sig c.fn score else best)
        (is_better-is_better_vm c.sig score best)

  consider-consider_vm :
      (n : ℕ) (best : Best F) (c : Candidate F)
      → is_matching c ≡ true
      → consider n best c ≡ consider_vm n best c
  unfolding consider consider_vm
  consider-consider_vm n best c h = elim (Bool-cases (ltb n c.sig.min || ltb c.sig.max n)) [
    | inl y ↦ rw (in_range n c.sig.min c.sig.max, y) refl
    | inr m ↦
        rw (in_range n c.sig.min c.sig.max, m, eligible_lem c.score h)
          (better_of-better_of_vm best c c.score)
  ]

  -- DispatchToFunction and selectVMFunctionFromGroup, given the same candidates with the same
  -- scores, choose the same function where no candidate that binds its arguments has the score
  -- -1.
  pub dispatch-select_vm_function_from_group :
      (n : ℕ) (best : Best F) (cs : List (Candidate F))
      → all_matching cs ≡ true
      → dispatch n cs best ≡ select_vm_function_from_group n cs best
  unfolding dispatch select_vm_function_from_group
  dispatch-select_vm_function_from_group n best [] h = refl
  dispatch-select_vm_function_from_group n best (c ∷ cs) h =
      ap (λ b. dispatch n cs b) (consider-consider_vm n best c (ground (arith, h)))
      ∙ dispatch-select_vm_function_from_group n (consider_vm n best c) cs (ground (arith, h))
