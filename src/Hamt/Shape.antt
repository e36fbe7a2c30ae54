-- ===== src/Hamt/Shape.antt =====
-- The invariant of the trie, which says what keys a child may hold, how deep a branch may stand
-- and that a bucket holds a key once; and that hamtInsert keeps it.
use slug.Prelude.{
  ℕ, zero, suc, ◌+◌, ◌^◌, ◌<◌, ◌≡◌, refl, true, false, List, [], ◌∷◌, arith, ◌==◌, ==_iff,
  All-append, ◌++◌, length, ◌||◌, Bool-cases, inl, inr, subst, leb,
}
use slug.Prelude.Bits.{has_bit, set_bit, has_bit-set_bit, set_bit-lt}
use slug.MapKey.{MapKey, map_key_hash}
use slug.Hamt.{
  HamtLeaf, HamtNode, nil, bucket, branch, Slots, Insert, segment, with_child, hamt_max_depth,
  insert_branch, promote, insert_bucket, hamt_insert, replace_leaf, find_leaf,
}
use slug.Hamt.Leaves.{
  AllLeaves, Distinct, replace-AllLeaves, replace-Distinct, append-Distinct, find_of_not-replaced,
}

-- The segment of the key's hash at a depth.
abbrev pub segment_of : MapKey → ℕ → ℕ
segment_of k depth = segment (map_key_hash k) depth

-- The keys below child `i` of a branch at `depth`.
abbrev pub Under : (MapKey → Type 0) → ℕ → ℕ → MapKey → Type 0
Under P depth i k = P k × (segment_of k depth ≡ i)

pub segment-lt : (hash depth : ℕ) → segment hash depth < 32
unfolding segment
segment-lt hash depth = omega arith

module _ {V : Type 0} where
  -- The node stands at `depth` and its keys satisfy `P`.
  abbrev pub IsShaped : (MapKey → Type 0) → ℕ → HamtNode V → Type 0
  IsShaped P depth nil = Unit
  IsShaped P depth (bucket leaves) = AllLeaves P leaves × Distinct leaves
  IsShaped P depth (branch bitmap children) =
      (depth < hamt_max_depth)
      × (bitmap < 2 ^ 32)
      × ((i : ℕ) → has_bit bitmap i ≡ false → children i ≡ nil)
      × ((i : ℕ) → IsShaped (Under P depth i) (depth + 1) (children i))

  module _ (insert : Insert V) (depth : ℕ) where
    abbrev pub Keeps : Type 1
    Keeps =
        (P : MapKey → Type 0) (node : HamtNode V) (k : MapKey) (v : V)
        → P k
        → IsShaped P (depth + 1) node
        → IsShaped P (depth + 1) (insert node (map_key_hash k) (depth + 1) k v).0

  -- What holds of the new child and of the other children holds of every child.
  pub with_child-all {κ} :
      (R : ℕ → HamtNode V → Type κ) (children : ℕ → HamtNode V) (seg : ℕ) (node : HamtNode V)
      → R seg node
      → ((i : ℕ) → (seg == i) ≡ false → R i (children i))
      → (i : ℕ) → R i (with_child children seg node i)
  with_child-all R children seg node new old i = elim (Bool-cases (seg == i)) [
    | inl e ↦ rw e (subst (λ j. R j node) ((==_iff seg i).0 e) new)
    | inr e ↦ rw e (old i e)
  ]

  -- A branch whose child, at a set bit, is another node.
  pub with_child-IsShaped :
      (P : MapKey → Type 0) (depth seg bitmap : ℕ) (children : ℕ → HamtNode V) (next : HamtNode V)
      → has_bit bitmap seg ≡ true
      → IsShaped P depth (branch bitmap children)
      → IsShaped (Under P depth seg) (depth + 1) next
      → IsShaped P depth (branch bitmap (with_child children seg next))
  with_child-IsShaped P depth seg bitmap children next e (d, b, empty, kids) n = (
    d,
    b,
    with_child-all (λ i node. has_bit bitmap i ≡ false → node ≡ nil) children seg next
        (λ h. absurd (ground arith)) (λ i _. empty i),
    with_child-all (λ i node. IsShaped (Under P depth i) (depth + 1) node) children seg next n
        (λ i _. kids i),
  )

  pub one_leaf-IsShaped :
      (P : MapKey → Type 0) (depth : ℕ) (k : MapKey) (v : V)
      → P k
      → IsShaped P depth (bucket (record { key = k; pair = v } ∷ []))
  unfolding find_leaf
  one_leaf-IsShaped P depth k v p = ((p, tt), (refl, tt))

  pub empty-IsShaped :
      (P : MapKey → Type 0) (depth : ℕ)
      → depth < hamt_max_depth
      → IsShaped P depth (branch 0 (λ i. nil))
  empty-IsShaped P depth h = (h, omega arith, λ i _. refl, λ i. tt)

  module _ (insert : Insert V) (depth : ℕ) (keeps : Keeps insert depth) where
    pub insert_branch-IsShaped :
        (P : MapKey → Type 0) (bitmap : ℕ) (children : ℕ → HamtNode V) (k : MapKey) (v : V)
        → P k
        → IsShaped P depth (branch bitmap children)
        → let slots = (insert_branch insert (bitmap, children) (map_key_hash k) depth k v).0 in
          IsShaped P depth (branch slots.0 slots.1)
    unfolding insert_branch
    insert_branch-IsShaped P bitmap children k v p (d, b, empty, kids) =
        let seg = segment_of k depth in
        elim (Bool-cases (has_bit bitmap seg)) [
          | inl e ↦ rw e (
              with_child-IsShaped P depth seg bitmap children _ e (d, b, empty, kids)
                (keeps (Under P depth seg) (children seg) k v (p, refl) (kids seg)))
          | inr e ↦ rw e (
            d,
            set_bit-lt 32 seg bitmap (segment-lt _ depth) b,
            with_child-all (λ i node. has_bit (set_bit bitmap seg) i ≡ false → node ≡ nil) children
                seg _ (λ h. absurd (ground (arith, has_bit-set_bit seg seg bitmap)))
                (λ i n h. empty i (ground (arith, has_bit-set_bit seg i bitmap))),
            with_child-all (λ i node. IsShaped (Under P depth i) (depth + 1) node) children seg _
                (one_leaf-IsShaped (Under P depth seg) (depth + 1) k v (p, refl)) (λ i _. kids i),
          )
        ]

    pub promote-IsShaped :
        (P : MapKey → Type 0) (leaves : List (HamtLeaf V)) (slots : Slots V)
        → AllLeaves P leaves
        → IsShaped P depth (branch slots.0 slots.1)
        → let out = promote insert depth leaves slots in IsShaped P depth (branch out.0 out.1)
    unfolding promote
    promote-IsShaped P [] slots a h = h
    promote-IsShaped P (leaf ∷ leaves) slots a h =
        promote-IsShaped P leaves
          (insert_branch insert slots (map_key_hash leaf.key) depth leaf.key leaf.pair).0 a.1
          (insert_branch-IsShaped P slots.0 slots.1 leaf.key leaf.pair a.0 h)

    pub insert_bucket-IsShaped :
        (P : MapKey → Type 0) (leaves : List (HamtLeaf V)) (k : MapKey) (v : V)
        → P k
        → IsShaped P depth (bucket leaves)
        → IsShaped P depth (insert_bucket insert leaves depth k v).0
    unfolding insert_bucket
    insert_bucket-IsShaped P leaves k v p (a, d) =
        let leaf : HamtLeaf V = record { key = k; pair = v } in
        let out = leaves ++ leaf ∷ [] in
        let all = All-append (λ (l : HamtLeaf V). P l.key) leaves (leaf ∷ []) a (p, tt) in
        elim (Bool-cases (replace_leaf k v leaves).1) [
          | inl e ↦ rw e (replace-AllLeaves P leaves k v a, replace-Distinct leaves k v d)
          | inr e ↦ elim (Bool-cases (leb (length out) 4 || leb hamt_max_depth depth)) [
            | inl full ↦
                rw (e, full)
                  (all, append-Distinct leaves leaf (find_of_not-replaced leaves k v e) d)
            | inr deep ↦
                rw (e, deep)
                  (promote-IsShaped P out (0, λ i. nil) all (empty-IsShaped P depth (ground arith)))
          ]
        ]

  pub insert-IsShaped :
      (f depth : ℕ) (P : MapKey → Type 0) (node : HamtNode V) (k : MapKey) (v : V)
      → P k
      → IsShaped P depth node
      → IsShaped P depth (hamt_insert f node (map_key_hash k) depth k v).0
  unfolding hamt_insert
  insert-IsShaped zero depth P node k v p h = h
  insert-IsShaped (suc f) depth P nil k v p h = one_leaf-IsShaped P depth k v p
  insert-IsShaped (suc f) depth P (bucket leaves) k v p h =
      insert_bucket-IsShaped (hamt_insert f) depth (insert-IsShaped f (depth + 1)) P leaves k v p h
  insert-IsShaped (suc f) depth P (branch bitmap children) k v p h =
      insert_branch-IsShaped (hamt_insert f) depth (insert-IsShaped f (depth + 1)) P bitmap children
        k v p h
