-- ===== src/Dispatch.antt =====
-- DispatchToFunction of internal/object/object.go: the choice among the functions of a group and its
-- delegates. A candidate comes with its score, or none where its arguments do not bind; scores and
-- specificities are one higher than in the code, so that 0 stands for -1. The signature's key is the
-- text that the package fmt prints for it.
pub mod Order
pub mod Choice
use slug.Prelude.{
  ℕ, zero, suc, ◌+◌, ◌-◌, ◌^◌, Bool, true, false, not, ◌&&◌, ◌||◌, ltb, leb, ◌==◌, if◌then◌else◌,
  Option, none, some, List, [], ◌∷◌, length,
}
use slug.Prelude.Text.{Text, size}

pub record FSig : Type 0 where
  pub min : ℕ
  pub max : ℕ
  pub is_variadic : Bool
  pub tags : Text
  pub key : Text

abbrev pub max_int : ℕ
max_int = 2 ^ 63 - 1

-- The order of texts in Go.
unfoldable pub text_ltb : Text → Text → Bool
text_ltb a [] = false
text_ltb [] (d ∷ ds) = true
text_ltb (c ∷ cs) (d ∷ ds) = ltb c d || c == d && text_ltb cs ds

abbrev pub is_empty_text : Text → Bool
is_empty_text [] = true
is_empty_text (c ∷ cs) = false

-- The length of the tags in bytes.
abbrev pub signature_specificity : FSig → ℕ
signature_specificity sig = suc (size sig.tags)

module _ {ℓ} (F : Type ℓ) where
  pub record Candidate : Type ℓ where
    pub sig : FSig
    pub fn : F
    pub score : Option ℕ

  -- The variables of the loops.
  pub record Best : Type ℓ where
    pub best_match : Option F
    pub best_max : ℕ
    pub best_score : ℕ
    pub best_specificity : ℕ
    pub best_sig_key : Text
    pub found_non_variadic : Bool

  abbrev pub no_match : Best
  no_match = record {
    best_match = none;
    best_max = max_int;
    best_score = 0;
    best_specificity = 0;
    best_sig_key = [];
    found_non_variadic = false;
  }

abbrev pub same_bool : Bool → Bool → Bool
same_bool true b = b
same_bool false b = not b

-- The condition under which a candidate replaces the best one.
unfoldable pub is_better {ℓ} : {F : Type ℓ} → FSig → ℕ → Best F → Bool
is_better sig score best =
    let same = sig.max == best.best_max && score == best.best_score in
    let alike = same && same_bool best.found_non_variadic (not sig.is_variadic) in
    let specificity = signature_specificity sig in
    leb 1 score && ltb sig.max best.best_max
    || sig.max == best.best_max && ltb best.best_score score
    || same && not best.found_non_variadic && not sig.is_variadic
    || alike && ltb best.best_specificity specificity
    || alike
      && specificity == best.best_specificity
      && (is_empty_text best.best_sig_key || text_ltb sig.key best.best_sig_key)

abbrev pub chosen {ℓ} : {F : Type ℓ} → FSig → F → ℕ → Best F
chosen sig fn score = record {
  best_match = some fn;
  best_max = sig.max;
  best_score = score;
  best_specificity = signature_specificity sig;
  best_sig_key = sig.key;
  found_non_variadic = not sig.is_variadic;
}

-- One round of the loops of DispatchToFunction, for a call with `n` arguments.
abbrev pub better_of {ℓ} : {F : Type ℓ} → Best F → Candidate F → Option ℕ → Best F
better_of best c none = best
better_of best c (some score) = if is_better c.sig score best then chosen c.sig c.fn score else best

unfoldable pub consider {ℓ} : {F : Type ℓ} → ℕ → Best F → Candidate F → Best F
consider n best c = if leb c.sig.min n && leb n c.sig.max then better_of best c c.score else best

unfoldable pub dispatch {ℓ} : {F : Type ℓ} → ℕ → List (Candidate F) → Best F → Best F
dispatch n [] best = best
dispatch n (c ∷ cs) best = dispatch n cs (consider n best c)

-- selectVMFunctionFromGroup of internal/vm/executor.go, which skips a candidate with a score of -1 (0 here).
abbrev pub eligible : Option ℕ → Option ℕ
eligible none = none
eligible (some zero) = none
eligible (some (suc score)) = some (suc score)

abbrev pub vm_signature_specificity : FSig → ℕ
vm_signature_specificity sig = suc (size sig.tags)

-- The condition of selectVMFunctionFromGroup, and its assignments.
unfoldable pub is_better_vm {ℓ} : {F : Type ℓ} → FSig → ℕ → Best F → Bool
is_better_vm sig score best =
    let specificity = vm_signature_specificity sig in
    leb 1 score && ltb sig.max best.best_max
    || sig.max == best.best_max && ltb best.best_score score
    || sig.max == best.best_max
      && score == best.best_score
      && not best.found_non_variadic
      && not sig.is_variadic
    || sig.max == best.best_max
      && score == best.best_score
      && same_bool best.found_non_variadic (not sig.is_variadic)
      && ltb best.best_specificity specificity
    || sig.max == best.best_max
      && score == best.best_score
      && same_bool best.found_non_variadic (not sig.is_variadic)
      && specificity == best.best_specificity
      && (is_empty_text best.best_sig_key || text_ltb sig.key best.best_sig_key)

abbrev pub chosen_vm {ℓ} : {F : Type ℓ} → FSig → F → ℕ → Best F
chosen_vm sig fn score = record {
  best_match = some fn;
  best_max = sig.max;
  best_score = score;
  best_specificity = vm_signature_specificity sig;
  best_sig_key = sig.key;
  found_non_variadic = not sig.is_variadic;
}

abbrev pub better_of_vm {ℓ} : {F : Type ℓ} → Best F → Candidate F → Option ℕ → Best F
better_of_vm best c none = best
better_of_vm best c (some score) =
    if is_better_vm c.sig score best then chosen_vm c.sig c.fn score else best

unfoldable pub consider_vm {ℓ} : {F : Type ℓ} → ℕ → Best F → Candidate F → Best F
consider_vm n best c =
    if ltb n c.sig.min || ltb c.sig.max n then best else better_of_vm best c (eligible c.score)

unfoldable pub select_vm_function_from_group {ℓ} :
    {F : Type ℓ} → ℕ → List (Candidate F) → Best F → Best F
select_vm_function_from_group n [] best = best
select_vm_function_from_group n (c ∷ cs) best =
    select_vm_function_from_group n cs (consider_vm n best c)
