-- ===== src/Dispatch/Order.antt =====
-- The order that the condition of selectVMFunctionFromGroup, internal/vm/executor.go, puts on candidates.
use slug.Prelude.{
  ℕ, suc, ◌≡◌, refl, sym, ap, ◌∙◌, Bool, true, false, not, ◌&&◌, ◌||◌, ltb, leb, ◌==◌,
  if◌then◌else◌, some, [], ◌∷◌, Bool-cases, inl, inr, arith,
}
use slug.Prelude.Text.{Text, text_eq}
use mathlib.Core.Bool.{true≢false}
use slug.Dispatch.{
  FSig, text_ltb, is_empty_text, vm_signature_specificity, Candidate, Best, same_bool, is_better_vm,
  chosen_vm, better_of_vm,
}

-- The condition on the numbers, with the comparison of the keys.
abbrev beats : ℕ → ℕ → Bool → ℕ → Bool → ℕ → ℕ → Bool → ℕ → Bool
beats m s v p k m' s' v' p' =
    ltb m m'
    || m == m'
      && (ltb s' s || s == s' && (not v' && v || same_bool v v' && (ltb p' p || p == p' && k)))

beats_trans :
    (m s : ℕ) (v : Bool) (p : ℕ) (m' s' : ℕ) (v' : Bool) (p' : ℕ) (m″ s″ : ℕ) (v″ : Bool) (p″ : ℕ)
    (k k' k″ : Bool)
    → (k && k' && not k″) ≡ false
    → beats m s v p k m' s' v' p' ≡ true
    → beats m' s' v' p' k' m″ s″ v″ p″ ≡ true
    → beats m s v p k″ m″ s″ v″ p″ ≡ true
beats_trans m s true p m' s' true p' m″ s″ true p″ k k' k″ hk h h' = ground arith
beats_trans m s true p m' s' true p' m″ s″ false p″ k k' k″ hk h h' = ground arith
beats_trans m s true p m' s' false p' m″ s″ true p″ k k' k″ hk h h' = ground arith
beats_trans m s true p m' s' false p' m″ s″ false p″ k k' k″ hk h h' = ground arith
beats_trans m s false p m' s' true p' m″ s″ true p″ k k' k″ hk h h' = ground arith
beats_trans m s false p m' s' true p' m″ s″ false p″ k k' k″ hk h h' = ground arith
beats_trans m s false p m' s' false p' m″ s″ true p″ k k' k″ hk h h' = ground arith
beats_trans m s false p m' s' false p' m″ s″ false p″ k k' k″ hk h h' = ground arith

-- Of two candidates with different keys one beats the other, and only one.
beats_total :
    (m s : ℕ) (v : Bool) (p m' s' : ℕ) (v' : Bool) (p' : ℕ) (k k' : Bool)
    → k ≡ not k'
    → beats m s v p k m' s' v' p' ≡ not (beats m' s' v' p' k' m s v p)
beats_total m s true p m' s' true p' k k' hk = ground arith
beats_total m s true p m' s' false p' k k' hk = ground arith
beats_total m s false p m' s' true p' k k' hk = ground arith
beats_total m s false p m' s' false p' k k' hk = ground arith

flat_beats :
    (m s : ℕ) (v : Bool) (p : ℕ) (k : Bool) (m' s' : ℕ) (v' : Bool) (p' : ℕ)
    → (leb 1 (suc s) && ltb m m'
        || m == m' && ltb s' (suc s)
        || m == m' && suc s == s' && not v' && not v
        || m == m' && suc s == s' && same_bool v' (not v) && ltb p' p
        || m == m' && suc s == s' && same_bool v' (not v) && p == p' && k)
      ≡ beats m (suc s) (not v) p k m' s' v' p'
flat_beats m s true p k m' s' true p' = ground arith
flat_beats m s true p k m' s' false p' = ground arith
flat_beats m s false p k m' s' true p' = ground arith
flat_beats m s false p k m' s' false p' = ground arith

-- The comparison of a signature's key with the best one.
abbrev key_less {ℓ} : {F : Type ℓ} → FSig → Best F → Bool
key_less sig best = is_empty_text best.best_sig_key || text_ltb sig.key best.best_sig_key

is_better_vm-beats {ℓ} :
    {F : Type ℓ} (sig : FSig) (score : ℕ) (best : Best F)
    → is_better_vm sig (suc score) best
      ≡ beats sig.max
          (suc score)
          (not sig.is_variadic)
          (vm_signature_specificity sig)
          (key_less sig best)
          best.best_max
          best.best_score
          best.found_non_variadic
          best.best_specificity
unfolding is_better_vm
is_better_vm-beats sig score best =
    flat_beats sig.max score sig.is_variadic (vm_signature_specificity sig) (key_less sig best)
      best.best_max best.best_score best.found_non_variadic best.best_specificity

text_ltb_trans : (a b c : Text) → text_ltb a b ≡ true → text_ltb b c ≡ true → text_ltb a c ≡ true
unfolding text_ltb
text_ltb_trans a [] c h k = absurd (true≢false (sym h))
text_ltb_trans a (y ∷ b) [] h k = absurd (true≢false (sym k))
text_ltb_trans [] (y ∷ b) (z ∷ c) h k = refl
text_ltb_trans (x ∷ a) (y ∷ b) (z ∷ c) h k = elim (Bool-cases (text_ltb a b)) [
  | inr n ↦ ground (arith, h, k, n)
  | inl y ↦ elim (Bool-cases (text_ltb b c)) [
    | inr n ↦ ground (arith, h, k, n)
    | inl z ↦ let rest = text_ltb_trans a b c y z in ground (arith, h, k, rest)
  ]
]

text_ltb_total : (a b : Text) → text_eq a b ≡ false → text_ltb a b ≡ not (text_ltb b a)
unfolding text_ltb text_eq
text_ltb_total [] [] h = ground arith
text_ltb_total [] (y ∷ b) h = refl
text_ltb_total (x ∷ a) [] h = refl
text_ltb_total (x ∷ a) (y ∷ b) h = elim (Bool-cases (x == y)) [
  | inl e ↦
      let other : text_eq a b ≡ false = ground (arith, h, e) in
      let rest = text_ltb_total a b other in ground (arith, e, rest)
  | inr n ↦ ground (arith, n)
]

keys_trans {ℓ} :
    {F : Type ℓ} (best : Best F) (c d : FSig) (fc : F) (sc : ℕ)
    → is_empty_text c.key ≡ false
    → (key_less d (chosen_vm c fc sc) && key_less c best && not (key_less d best)) ≡ false
keys_trans best c d fc sc named = elim (Bool-cases (text_ltb d.key c.key)) [
  | inr n ↦ ground (arith, named, n)
  | inl y ↦ elim (Bool-cases (text_ltb c.key best.best_sig_key)) [
    | inr n ↦ ground (arith, n)
    | inl z ↦ let rest = text_ltb_trans d.key c.key best.best_sig_key y z in ground (arith, rest)
  ]
]

keys_total :
    (c d : FSig)
    → is_empty_text c.key ≡ false
    → is_empty_text d.key ≡ false
    → text_eq d.key c.key ≡ false
    → (is_empty_text c.key || text_ltb d.key c.key)
      ≡ not (is_empty_text d.key || text_ltb c.key d.key)
keys_total c d nc nd other =
    let total = text_ltb_total d.key c.key other in ground (arith, nc, nd, total)

module _ {ℓ} {A : Type ℓ} where
  -- To put `c` in the place of what it is better than.
  pick : (A → Bool) → A → A → A
  pick better c a = if better a then c else a

  pick_yes : (better : A → Bool) (c a : A) → better a ≡ true → pick better c a ≡ c
  unfolding pick
  pick_yes better c a h = rw h refl

  pick_no : (better : A → Bool) (c a : A) → better a ≡ false → pick better c a ≡ a
  unfolding pick
  pick_no better c a h = rw h refl

  pick_swap :
      (f g : A → Bool) (c d b : A)
      → g c ≡ not (f d)
      → (f b ≡ true → g c ≡ true → g b ≡ true)
      → (g b ≡ true → f d ≡ true → f b ≡ true)
      → pick g d (pick f c b) ≡ pick f c (pick g d b)
  pick_swap f g c d b total up down = elim (Bool-cases (f b)) [
    | inl x ↦ elim (Bool-cases (g b)) [
      | inl y ↦
          rw (pick_yes f c b x, pick_yes g d b y)
            (elim (Bool-cases (f d)) [
              | inl w ↦ pick_no g d c (total ∙ ap not w) ∙ sym (pick_yes f c d w)
              | inr w ↦ pick_yes g d c (total ∙ ap not w) ∙ sym (pick_no f c d w)
            ])
      | inr y ↦
          rw (pick_yes f c b x, pick_no g d b y)
            (elim (Bool-cases (g c)) [
              | inl z ↦ absurd (true≢false (sym (up x z) ∙ y))
              | inr z ↦ pick_no g d c z ∙ sym (pick_yes f c b x)
            ])
    ]
    | inr x ↦ elim (Bool-cases (g b)) [
      | inl y ↦
          rw (pick_no f c b x, pick_yes g d b y)
            (elim (Bool-cases (f d)) [
              | inl w ↦ absurd (true≢false (sym (down y w) ∙ x))
              | inr w ↦ sym (pick_no f c d w)
            ])
      | inr y ↦ rw (pick_no f c b x, pick_no g d b y) (sym (pick_no f c b x))
    ]
  ]

module _ {ℓ} {F : Type ℓ} where
  -- A candidate that beats another that beats the best one beats the best one.
  is_better_vm_trans :
      (best : Best F) (c d : FSig) (fc : F) (sc sd : ℕ)
      → is_empty_text c.key ≡ false
      → is_better_vm c (suc sc) best ≡ true
      → is_better_vm d (suc sd) (chosen_vm c fc (suc sc)) ≡ true
      → is_better_vm d (suc sd) best ≡ true
  is_better_vm_trans best c d fc sc sd named h k =
      is_better_vm-beats d sd best
      ∙ beats_trans d.max (suc sd) (not d.is_variadic) (vm_signature_specificity d) c.max (suc sc)
          (not c.is_variadic) (vm_signature_specificity c) best.best_max best.best_score
          best.found_non_variadic best.best_specificity (key_less d (chosen_vm c fc (suc sc)))
          (key_less c best) (key_less d best) (keys_trans best c d fc (suc sc) named)
          (sym (is_better_vm-beats d sd (chosen_vm c fc (suc sc))) ∙ k)
          (sym (is_better_vm-beats c sc best) ∙ h)

  is_better_vm_total :
      (c d : FSig) (fc fd : F) (sc sd : ℕ)
      → is_empty_text c.key ≡ false
      → is_empty_text d.key ≡ false
      → text_eq d.key c.key ≡ false
      → is_better_vm d (suc sd) (chosen_vm c fc (suc sc))
        ≡ not (is_better_vm c (suc sc) (chosen_vm d fd (suc sd)))
  is_better_vm_total c d fc fd sc sd nc nd other =
      is_better_vm-beats d sd (chosen_vm c fc (suc sc))
      ∙ beats_total d.max (suc sd) (not d.is_variadic) (vm_signature_specificity d) c.max (suc sc)
          (not c.is_variadic) (vm_signature_specificity c) _ _ (keys_total c d nc nd other)
      ∙ ap not (sym (is_better_vm-beats c sc (chosen_vm d fd (suc sd))))

  pub better_of_vm_swap :
      (best : Best F) (c d : Candidate F) (sc sd : ℕ)
      → is_empty_text c.sig.key ≡ false
      → is_empty_text d.sig.key ≡ false
      → text_eq d.sig.key c.sig.key ≡ false
      → better_of_vm (better_of_vm best c (some (suc sc))) d (some (suc sd))
        ≡ better_of_vm (better_of_vm best d (some (suc sd))) c (some (suc sc))
  unfolding pick
  better_of_vm_swap best c d sc sd nc nd other =
      pick_swap (is_better_vm c.sig (suc sc)) (is_better_vm d.sig (suc sd))
        (chosen_vm c.sig c.fn (suc sc)) (chosen_vm d.sig d.fn (suc sd)) best
        (is_better_vm_total c.sig d.sig c.fn d.fn sc sd nc nd other)
        (is_better_vm_trans best c.sig d.sig c.fn sc sd nc)
        (is_better_vm_trans best d.sig c.sig d.fn sd sc nd)
