-- ===== src/Hamt/Leaves.antt =====
-- The leaves of one bucket as a list of entries with distinct keys: finding, replacing, adding and
-- removing one.
use slug.Prelude.{
  ◌≡◌, refl, true, false, none, some, List, [], ◌∷◌, ◌++◌, arith, is_some, length, if◌then◌else◌,
  All, Bool-cases, inl, inr, subst,
}
use slug.MapKey.{MapKey, key_eq, key_eq_iff}
use slug.Hamt.{HamtLeaf, find_leaf, replace_leaf, remove_leaf}

module _ {V : Type 0} where
  -- No two leaves have the same key.
  abbrev pub Distinct : List (HamtLeaf V) → Type 0
  Distinct [] = Unit
  Distinct (leaf ∷ leaves) = (find_leaf leaf.key leaves ≡ none) × Distinct leaves

  pub find-replace :
      (leaves : List (HamtLeaf V)) (k q : MapKey) (v : V)
      → (replace_leaf k v leaves).1 ≡ true
      → find_leaf q (replace_leaf k v leaves).0
        ≡ (if key_eq k q then some v else find_leaf q leaves)
  unfolding find_leaf replace_leaf
  find-replace [] k q v h = ground arith
  find-replace (leaf ∷ leaves) k q v h = ground (
    arith,
    key_eq_iff leaf.key k,
    key_eq_iff k q,
    key_eq_iff leaf.key q,
    find-replace leaves k q v,
  )

  pub find_of_not-replaced :
      (leaves : List (HamtLeaf V)) (k : MapKey) (v : V)
      → (replace_leaf k v leaves).1 ≡ false
      → find_leaf k leaves ≡ none
  unfolding find_leaf replace_leaf
  find_of_not-replaced [] k v h = refl
  find_of_not-replaced (leaf ∷ leaves) k v h = ground (arith, find_of_not-replaced leaves k v)

  not-replaced :
      (leaves : List (HamtLeaf V)) (k : MapKey) (v : V)
      → (replace_leaf k v leaves).1 ≡ false
      → (replace_leaf k v leaves).0 ≡ leaves
  unfolding replace_leaf
  not-replaced [] k v h = refl
  not-replaced (leaf ∷ leaves) k v h = ground (arith, not-replaced leaves k v)

  pub find-append_list :
      (leaves more : List (HamtLeaf V)) (q : MapKey)
      → find_leaf q (leaves ++ more)
        ≡ elim (find_leaf q leaves) [ some v ↦ some v | none ↦ find_leaf q more ]
  unfolding find_leaf
  find-append_list [] more q = refl
  find-append_list (l ∷ leaves) more q = ground (arith, find-append_list leaves more q)

  pub find-append :
      (leaves : List (HamtLeaf V)) (leaf : HamtLeaf V) (q : MapKey)
      → find_leaf q (leaves ++ leaf ∷ [])
        ≡ elim (find_leaf q leaves) [ some v ↦ some v | none ↦ find_leaf q (leaf ∷ []) ]
  unfolding find_leaf
  find-append leaves leaf q = find-append_list leaves (leaf ∷ []) q

  pub replace-Distinct :
      (leaves : List (HamtLeaf V)) (k : MapKey) (v : V)
      → Distinct leaves
      → Distinct (replace_leaf k v leaves).0
  unfolding replace_leaf find_leaf
  replace-Distinct [] k v h = tt
  replace-Distinct (leaf ∷ leaves) k v h = ground (
    arith,
    replace-Distinct leaves k v,
    find-replace leaves k leaf.key v,
    not-replaced leaves k v,
    key_eq_iff leaf.key k,
    key_eq_iff k leaf.key,
  )

  pub append-Distinct :
      (leaves : List (HamtLeaf V)) (leaf : HamtLeaf V)
      → find_leaf leaf.key leaves ≡ none
      → Distinct leaves
      → Distinct (leaves ++ leaf ∷ [])
  unfolding find_leaf
  append-Distinct [] leaf n h = (refl, tt)
  append-Distinct (l ∷ leaves) leaf n h = ground (
    arith,
    append-Distinct leaves leaf,
    find-append leaves leaf l.key,
    key_eq_iff leaf.key l.key,
    key_eq_iff l.key leaf.key,
  )

  pub find-remove :
      (leaves : List (HamtLeaf V)) (k q : MapKey)
      → Distinct leaves
      → find_leaf q (remove_leaf k leaves).0 ≡ (if key_eq k q then none else find_leaf q leaves)
  unfolding find_leaf remove_leaf
  find-remove [] k q h = ground arith
  find-remove (leaf ∷ leaves) k q h =
      ground (
        arith,
        find-remove leaves k q,
        key_eq_iff leaf.key k,
        key_eq_iff k q,
        key_eq_iff leaf.key q,
      )

  pub removed_lem :
      (leaves : List (HamtLeaf V)) (k : MapKey)
      → (remove_leaf k leaves).1 ≡ is_some (find_leaf k leaves)
  unfolding find_leaf remove_leaf
  removed_lem [] k = refl
  removed_lem (leaf ∷ leaves) k = ground (arith, removed_lem leaves k)

  pub replaced_lem :
      (leaves : List (HamtLeaf V)) (k : MapKey) (v : V)
      → (replace_leaf k v leaves).1 ≡ is_some (find_leaf k leaves)
  unfolding find_leaf replace_leaf
  replaced_lem [] k v = refl
  replaced_lem (leaf ∷ leaves) k v = ground (arith, replaced_lem leaves k v)

  -- What is left of a bucket of one leaf that held the key.
  pub removed_last :
      (leaves : List (HamtLeaf V)) (k q : MapKey)
      → length leaves ≡ 1
      → (remove_leaf k leaves).1 ≡ true
      → find_leaf q (remove_leaf k leaves).0 ≡ none
  unfolding find_leaf remove_leaf
  removed_last [] k q h e = refl
  removed_last (leaf ∷ []) k q h e = ground arith
  removed_last (leaf ∷ l ∷ leaves) k q h e = absurd (omega arith)

  pub remove-Distinct :
      (leaves : List (HamtLeaf V)) (k : MapKey)
      → Distinct leaves
      → Distinct (remove_leaf k leaves).0
  unfolding find_leaf remove_leaf
  remove-Distinct [] k h = tt
  remove-Distinct (leaf ∷ leaves) k h =
      ground (arith, remove-Distinct leaves k, find-remove leaves k leaf.key, key_eq_iff k leaf.key)

  -- Every key of the leaves satisfies `P`.
  abbrev pub AllLeaves {κ} : (MapKey → Type κ) → List (HamtLeaf V) → Type κ
  AllLeaves P leaves = All (λ leaf. P leaf.key) leaves

  pub replace-AllLeaves {κ} :
      (P : MapKey → Type κ) (leaves : List (HamtLeaf V)) (k : MapKey) (v : V)
      → AllLeaves P leaves
      → AllLeaves P (replace_leaf k v leaves).0
  unfolding replace_leaf
  replace-AllLeaves P [] k v h = tt
  replace-AllLeaves P (leaf ∷ leaves) k v h =
      let ih = replace-AllLeaves P leaves k v h.1 in
      elim (Bool-cases (key_eq leaf.key k)) [ inl e ↦ rw e h | inr e ↦ rw e (h.0, ih) ]

  pub remove-AllLeaves {κ} :
      (P : MapKey → Type κ) (leaves : List (HamtLeaf V)) (k : MapKey)
      → AllLeaves P leaves
      → AllLeaves P (remove_leaf k leaves).0
  unfolding remove_leaf
  remove-AllLeaves P [] k h = tt
  remove-AllLeaves P (leaf ∷ leaves) k h =
      let ih = remove-AllLeaves P leaves k h.1 in
      elim (Bool-cases (key_eq leaf.key k)) [ inl e ↦ rw e h.1 | inr e ↦ rw e (h.0, ih) ]

  pub find-AllLeaves {κ} :
      (P : MapKey → Type κ) (leaves : List (HamtLeaf V)) (q : MapKey)
      → AllLeaves P leaves
      → ¬ P q
      → find_leaf q leaves ≡ none
  unfolding find_leaf
  find-AllLeaves P [] q h n = refl
  find-AllLeaves P (leaf ∷ leaves) q h n = elim (Bool-cases (key_eq leaf.key q)) [
    | inl e ↦ absurd (n (subst P ((key_eq_iff leaf.key q).0 e) h.0))
    | inr e ↦ rw e (find-AllLeaves P leaves q h.1 n)
  ]
