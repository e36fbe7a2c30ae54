-- ===== src/Hamt/Count.antt =====
-- hamtInsert adds one leaf for a new key and hamtDelete takes one for a key that was there.
use slug.Prelude.{
  ℕ, zero, suc, ◌+◌, ◌<◌, ◌≡◌, refl, sym, ◌∙◌, true, false, none, some, List, [], ◌∷◌, ◌++◌, arith,
  ◌==◌, ==_iff, is_some, ◌||◌, length, length-append, Bool-cases, inl, inr, leb, Option, ap, ◌&&◌,
  All-append,
}
use slug.Prelude.Bits.{
  has_bit, has_bit-zero, trailing_zeros-lt, has_bit-trailing_zeros, only_bit, set_bit, clear_bit,
  drop_lowest,
}
use slug.MapKey.{MapKey, map_key_hash, key_eq_iff}
use slug.Hamt.{
  HamtLeaf, HamtNode, nil, bucket, branch, Slots, Insert, trailing_segment, with_child,
  hamt_max_depth, find_leaf, hamt_get, hamt_insert, hamt_delete, insert_bucket, insert_branch,
  promote, replace_leaf, remove_leaf, delete_child, lift_bucket,
}
use slug.Hamt.Leaves.{
  AllLeaves, Distinct, replaced_lem, removed_lem, find_of_not-replaced, append-Distinct,
}
use slug.Hamt.Shape.{
  IsShaped, Under, segment_of, segment-lt, Keeps, insert_branch-IsShaped, insert-IsShaped,
  empty-IsShaped, with_child-IsShaped,
}
use slug.Hamt.Lookup.{read, Writes, read-insert_branch, read_empty, read-insert}
use slug.Hamt.Delete.{cleared-IsShaped, delete-IsShaped, delete_removed}
use slug.Hamt.Traverse.{leaves_of}
use slug.Hamt.Size.{size, size_branch, size_change, size_empty, range_sum_change, range_sum_zero}

abbrev pub found {ℓ} : {A : Type ℓ} → Option A → ℕ
found none = 0
found (some a) = 1

module _ {V : Type 0} where
  length-replace :
      (leaves : List (HamtLeaf V)) (k : MapKey) (v : V)
      → length (replace_leaf k v leaves).0 ≡ length leaves
  unfolding replace_leaf
  length-replace [] k v = refl
  length-replace (leaf ∷ leaves) k v = ground (arith, length-replace leaves k v)

  length-remove :
      (leaves : List (HamtLeaf V)) (k : MapKey)
      → length (remove_leaf k leaves).0 + found (find_leaf k leaves) ≡ length leaves
  unfolding remove_leaf find_leaf
  length-remove [] k = refl
  length-remove (leaf ∷ leaves) k = ground (arith, length-remove leaves k)

  module _ (insert : Insert V) (depth : ℕ) where
    abbrev Counts : Type 1
    Counts =
        (P : MapKey → Type 0) (node : HamtNode V) (k : MapKey) (v : V)
        → depth < hamt_max_depth
        → P k
        → IsShaped P (depth + 1) node
        → size (insert node (map_key_hash k) (depth + 1) k v).0 + found (read node (depth + 1) k)
          ≡ size node + 1

  module _ (insert : Insert V) (depth : ℕ) (keeps : Keeps insert depth)
      (writes : Writes insert depth) (counts : Counts insert depth) where
    size-insert_branch :
        (P : MapKey → Type 0) (bitmap : ℕ) (children : ℕ → HamtNode V) (k : MapKey) (v : V)
        → P k
        → IsShaped P depth (branch bitmap children)
        → let slots = (insert_branch insert (bitmap, children) (map_key_hash k) depth k v).0 in
          size (branch slots.0 slots.1) + found (read (branch bitmap children) depth k)
          ≡ size (branch bitmap children) + 1
    unfolding insert_branch hamt_get leaves_of
    size-insert_branch P bitmap children k v p h =
        let seg = segment_of k depth in
        let child = insert (children seg) (map_key_hash k) (depth + 1) k v in
        let leaf : HamtLeaf V = record { key = k; pair = v } in
        let shaped = insert_branch-IsShaped insert depth keeps P bitmap children k v p h in
        let ih = counts (Under P depth seg) (children seg) k v h.0 (p, refl) (h.3 seg) in
        elim (Bool-cases (has_bit bitmap seg)) [
          | inl e ↦ rw e (
              omega (
                arith,
                ih,
                size_change P depth seg bitmap bitmap children child.0 (segment-lt _ depth) h
                    (rw e at shaped),
              ))
          | inr e ↦
              let gone : size (children seg) ≡ 0 = rw (h.2 seg e) refl in
              rw e (
                omega (
                  arith,
                  gone,
                  size_change P depth seg bitmap (set_bit bitmap seg) children (bucket (leaf ∷ []))
                      (segment-lt _ depth) h (rw e at shaped),
                ))
        ]

    -- No key of the leaves is in the branch under construction.
    abbrev Fresh : List (HamtLeaf V) → Slots V → Type 0
    Fresh leaves slots =
        (q : MapKey)
        → is_some (find_leaf q leaves) ≡ true
        → read (branch slots.0 slots.1) depth q ≡ none

    size-promote :
        (P : MapKey → Type 0) (leaves : List (HamtLeaf V)) (slots : Slots V)
        → AllLeaves P leaves
        → Distinct leaves
        → Fresh leaves slots
        → IsShaped P depth (branch slots.0 slots.1)
        → let out = promote insert depth leaves slots in
          size (branch out.0 out.1) ≡ size (branch slots.0 slots.1) + length leaves
    unfolding promote find_leaf
    size-promote P [] slots a d fresh h = omega arith
    size-promote P (leaf ∷ leaves) slots a d fresh h =
        let next =
          (insert_branch insert slots (map_key_hash leaf.key) depth leaf.key leaf.pair).0 in
        let one = size-insert_branch P slots.0 slots.1 leaf.key leaf.pair a.0 h in
        let absent = fresh leaf.key (ground (arith, key_eq_iff leaf.key leaf.key)) in
        let still : Fresh leaves next = λ q e. ground (
          arith,
          fresh q,
          read-insert_branch insert depth keeps writes P slots.0 slots.1 leaf.key q leaf.pair a.0 h,
          key_eq_iff leaf.key q,
        ) in
        let ih =
          size-promote P leaves next a.1 d.1 still (
            insert_branch-IsShaped insert depth keeps P slots.0 slots.1 leaf.key leaf.pair a.0 h) in
        ground (arith, ih, one, absent)

    size-insert_bucket :
        (P : MapKey → Type 0) (leaves : List (HamtLeaf V)) (k : MapKey) (v : V)
        → P k
        → IsShaped P depth (bucket leaves)
        → size (insert_bucket insert leaves depth k v).0 + found (find_leaf k leaves)
          ≡ length leaves + 1
    unfolding insert_bucket leaves_of
    size-insert_bucket P leaves k v p (a, d) =
        let leaf : HamtLeaf V = record { key = k; pair = v } in
        let out = leaves ++ leaf ∷ [] in
        let all = All-append (λ (l : HamtLeaf V). P l.key) leaves (leaf ∷ []) a (p, tt) in
        let more = length-append leaves (leaf ∷ []) in
        elim (Bool-cases (replace_leaf k v leaves).1) [
          | inl e ↦ rw e (ground (arith, length-replace leaves k v, replaced_lem leaves k v))
          | inr e ↦
              let fresh = find_of_not-replaced leaves k v e in
              elim (Bool-cases (leb (length out) 4 || leb hamt_max_depth depth)) [
                | inl full ↦ rw (e, full) (rw fresh (omega (arith, more)))
                | inr deep ↦
                    rw (e, deep)
                      (rw fresh (
                        omega (
                          arith,
                          more,
                          size-promote P out (0, λ i. nil) all (append-Distinct leaves leaf fresh d)
                              (λ q _. read_empty depth q) (empty-IsShaped P depth (ground arith)),
                          size_empty V,
                        )))
              ]
        ]

  pub size-insert :
      (f depth : ℕ) (P : MapKey → Type 0) (node : HamtNode V) (k : MapKey) (v : V)
      → depth + f ≡ 14
      → depth < 14
      → P k
      → IsShaped P depth node
      → size (hamt_insert f node (map_key_hash k) depth k v).0 + found (read node depth k)
        ≡ size node + 1
  unfolding hamt_insert hamt_get leaves_of
  size-insert zero depth P node k v e d p h = absurd (omega arith)
  size-insert (suc f) depth P nil k v e d p h = refl
  size-insert (suc f) depth P (bucket leaves) k v e d p h =
      size-insert_bucket (hamt_insert f) depth (insert-IsShaped f (depth + 1))
        (λ Q node k' q' v' below.
          read-insert f (depth + 1) Q node k' q' v' (omega arith) (omega arith))
        (λ Q node k' v' below. size-insert f (depth + 1) Q node k' v' (omega arith) (omega arith)) P
        leaves k v p h
  size-insert (suc f) depth P (branch bitmap children) k v e d p h =
      size-insert_branch (hamt_insert f) depth (insert-IsShaped f (depth + 1))
        (λ Q node k' q' v' below.
          read-insert f (depth + 1) Q node k' q' v' (omega arith) (omega arith))
        (λ Q node k' v' below. size-insert f (depth + 1) Q node k' v' (omega arith) (omega arith)) P
        bitmap children k v p h

  size-lift_bucket :
      (P : MapKey → Type 0) (depth i bitmap : ℕ) (children : ℕ → HamtNode V) (child : HamtNode V)
      → i < 32
      → children i ≡ child
      → has_bit bitmap i ≡ true
      → ((j : ℕ) → has_bit bitmap j ≡ true → i ≡ j)
      → IsShaped P depth (branch bitmap children)
      → size (lift_bucket child (bitmap, children)) ≡ size (branch bitmap children)
  unfolding lift_bucket leaves_of
  size-lift_bucket P depth i bitmap children nil lt e b only h = refl
  size-lift_bucket P depth i bitmap children (bucket leaves) lt e b only h =
      let alone =
        range_sum_change 32 i (λ j. size (children j)) (λ j. 0) lt
          (λ j away. elim (Bool-cases (has_bit bitmap j)) [
            | inl s ↦ absurd (away (sym (only j s)))
            | inr c ↦ rw (h.2 j c) refl
          ]) in
      omega (
        arith,
        size_branch P depth bitmap children h,
        alone,
        range_sum_zero 32 (λ j. 0) (λ j. refl),
        ap size e,
      )
  size-lift_bucket P depth i bitmap children (branch b' c') lt e b only h = refl

  -- A branch with no bit set holds nothing.
  size_bare :
      (P : MapKey → Type 0) (depth bitmap : ℕ) (children : ℕ → HamtNode V)
      → bitmap ≡ 0
      → IsShaped P depth (branch bitmap children)
      → size (branch bitmap children) ≡ 0
  unfolding leaves_of
  size_bare P depth bitmap children z h =
      size_branch P depth bitmap children h
      ∙ range_sum_zero 32 (λ i. size (children i))
          (λ i.
            let none_set : has_bit bitmap i ≡ false = rw z (has_bit-zero i) in
            ap size (h.2 i none_set))

  size-delete_child :
      (P : MapKey → Type 0) (depth seg bitmap : ℕ) (children : ℕ → HamtNode V) (next : HamtNode V)
      → seg < 32
      → has_bit bitmap seg ≡ true
      → IsShaped P depth (branch bitmap children)
      → IsShaped (Under P depth seg) (depth + 1) next
      → size next + 1 ≡ size (children seg)
      → size (delete_child (bitmap, children) seg next) + 1 ≡ size (branch bitmap children)
  unfolding delete_child leaves_of
  size-delete_child P depth seg bitmap children nil lt s h n e =
      let left = clear_bit bitmap seg in
      let rest = with_child children seg nil in
      let low = trailing_segment left in
      let c = cleared-IsShaped P depth seg bitmap children h in
      let change = size_change P depth seg bitmap left children nil lt h c in
      elim (Bool-cases (left == 0)) [
        | inl z ↦
            rw z (omega (arith, change, e, size_bare P depth left rest ((==_iff left 0).0 z) c))
        | inr z ↦
            let p : 0 < left = ground arith in
            elim (Bool-cases (drop_lowest left == 0)) [
              | inl o ↦
                  rw (z, o)
                    (omega (
                      arith,
                      change,
                      e,
                      size-lift_bucket P depth low left rest (rest low)
                          (trailing_zeros-lt 32 left p c.1) refl
                          (has_bit-trailing_zeros 32 left p c.1)
                          (λ j b. only_bit 32 left j p c.1 ((==_iff (drop_lowest left) 0).0 o) b) c,
                    ))
              | inr o ↦ rw (z, o) (omega (arith, change, e))
            ]
      ]
  size-delete_child P depth seg bitmap children (bucket leaves) lt s h n e = omega (
    arith,
    e,
    size_change P depth seg bitmap bitmap children (bucket leaves) lt h
        (with_child-IsShaped P depth seg bitmap children (bucket leaves) s h n),
  )
  size-delete_child P depth seg bitmap children (branch b' c') lt s h n e = omega (
    arith,
    e,
    size_change P depth seg bitmap bitmap children (branch b' c') lt h
        (with_child-IsShaped P depth seg bitmap children (branch b' c') s h n),
  )

  pub size-delete :
      (node : HamtNode V) (depth : ℕ) (P : MapKey → Type 0) (k : MapKey)
      → IsShaped P depth node
      → size (hamt_delete node (map_key_hash k) depth k).0 + found (read node depth k) ≡ size node
  unfolding hamt_delete hamt_get leaves_of
  size-delete nil depth P k h = refl
  size-delete (bucket leaves) depth P k h =
      ground (arith, length-remove leaves k, removed_lem leaves k)
  size-delete (branch bitmap children) depth P k h =
      let seg = segment_of k depth in
      let child = hamt_delete (children seg) (map_key_hash k) (depth + 1) k in
      let ih = size-delete (children seg) (depth + 1) (Under P depth seg) k (h.3 seg) in
      let flag = delete_removed (children seg) (depth + 1) k in
      elim (Bool-cases (has_bit bitmap seg && child.1)) [
        | inl e ↦ rw e (
            ground (
              arith,
              ih,
              flag,
              size-delete_child P depth seg bitmap children child.0
                  (segment-lt (map_key_hash k) depth) (ground arith) h
                  (delete-IsShaped (children seg) (depth + 1) (Under P depth seg) k (h.3 seg)),
            ))
        | inr e ↦ rw e (ground (arith, flag))
      ]
