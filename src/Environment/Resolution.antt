-- ===== src/Environment/Resolution.antt =====
-- The lookup of a name along the scopes, GetBinding of internal/object/environment.go.
use slug.Prelude.{
  ℕ, zero, suc, ◌<◌, ◌≡◌, ◌↔◌, refl, ◌∙◌, Option, none, some, arith, Option-cases, inl, inr, subst,
}
use slug.Environment.{Heap, get_binding, chain_fuel}
use slug.Environment.Scoping.{IsWellFormed, get_binding-step}

-- What a name means in a scope: its own binding comes first, then what the name means in the outer
-- scope; with neither it means nothing. A derivation is finite, so an endless walk has none.
pub data Resolves (h : Heap) (name : ℕ) : ℕ → Option ℕ → Type 0 where
  own : (e b : ℕ) → (h.scopes e).bindings name ≡ some b → Resolves h name e (some b)
  outward :
      (e o : ℕ) (r : Option ℕ)
      → (h.scopes e).bindings name ≡ none
      → (h.scopes e).outer ≡ some o
      → Resolves h name o r
      → Resolves h name e r
  nowhere :
      (e : ℕ)
      → (h.scopes e).bindings name ≡ none
      → (h.scopes e).outer ≡ none
      → Resolves h name e none

get_binding-of :
    (h : Heap) (name e : ℕ) (r : Option ℕ)
    → IsWellFormed h
    → Resolves h name e r
    → get_binding (chain_fuel e) h e name ≡ r
get_binding-of h name _ _ w (own e b k) = get_binding-step h e name w ∙ rw k refl
get_binding-of h name _ _ w (outward e o r k n d) =
    get_binding-step h e name w ∙ rw (k, n) (get_binding-of h name o r w d)
get_binding-of h name _ _ w (nowhere e k n) = get_binding-step h e name w ∙ rw (k, n) refl

-- Every scope leads somewhere, by descent along the outer scopes.
resolved :
    (f : ℕ) (h : Heap) (name e : ℕ)
    → IsWellFormed h
    → e < f
    → Resolves h name e (get_binding (chain_fuel e) h e name)
resolved zero h name e w p = absurd (omega (arith, p))
resolved (suc f) h name e w p =
    rw (get_binding-step h e name w) (elim (Option-cases ((h.scopes e).bindings name)) [
      | inr (b, k) ↦ rw k (own e b k)
      | inl k ↦ elim (Option-cases ((h.scopes e).outer)) [
        | inl n ↦ rw (k, n) (nowhere e k n)
        | inr (o, n) ↦
            rw (k, n)
              (outward e o _ k n (resolved f h name o w (omega (arith, p, w.outer_is_older e o n))))
      ]
    ])

-- In a well-formed heap, GetBinding returns a result in a scope exactly where the name resolves
-- to that result there: to the binding of its own, else to what it resolves to in the outer
-- scope, else to none. Each scope has such a result, so the walk ends.
pub get_binding-Resolves :
    (h : Heap) (name e : ℕ) (r : Option ℕ)
    → IsWellFormed h
    → (get_binding (chain_fuel e) h e name ≡ r) ↔ Resolves h name e r
get_binding-Resolves h name e r w = (
  λ found. subst (λ r. Resolves h name e r) found (resolved (suc e) h name e w (omega arith)),
  get_binding-of h name e r w,
)
