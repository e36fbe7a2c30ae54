-- ===== src/Hamt/Lookup.antt =====
-- hamtGet after hamtInsert: the trie reads as a finite map.
use slug.Prelude.{
  ℕ, zero, suc, ◌+◌, ◌<◌, ◌≡◌, refl, ◌∙◌, none, some, List, [], ◌∷◌, ◌++◌, arith, is_some,
  if◌then◌else◌, ◌||◌, length, All-append, Bool-cases, inl, inr, leb, Option,
}
use slug.Prelude.Bits.{has_bit-set_bit, has_bit-zero}
use slug.MapKey.{MapKey, map_key_hash, key_eq, key_eq_iff}
use slug.Hamt.{
  HamtLeaf, HamtNode, nil, bucket, branch, Slots, Insert, hamt_max_depth, insert_branch, promote,
  insert_bucket, hamt_insert, replace_leaf, find_leaf, hamt_get,
}
use slug.Hamt.Leaves.{
  AllLeaves, Distinct, find-replace, find-append, append-Distinct, find_of_not-replaced,
  find-AllLeaves, replaced_lem,
}
use slug.Hamt.Shape.{
  IsShaped, Under, segment_of, insert_branch-IsShaped, empty-IsShaped, insert-IsShaped, Keeps,
}

module _ {V : Type 0} where
  -- Reading a key at the depth where the node stands.
  abbrev pub read : HamtNode V → ℕ → MapKey → Option V
  read node depth q = hamt_get node (map_key_hash q) depth q

  -- What a recursive call of hamtInsert does to the readings at one depth.
  module _ (insert : Insert V) (depth : ℕ) where
    abbrev pub Writes : Type 1
    Writes =
        (P : MapKey → Type 0) (node : HamtNode V) (k q : MapKey) (v : V)
        → depth < hamt_max_depth
        → P k
        → IsShaped P (depth + 1) node
        → read (insert node (map_key_hash k) (depth + 1) k v).0 (depth + 1) q
          ≡ (if key_eq k q then some v else read node (depth + 1) q)

  pub read_empty :
      (depth : ℕ) (q : MapKey) → read (let b : HamtNode V = branch 0 (λ i. nil) in b) depth q ≡ none
  unfolding hamt_get
  read_empty depth q = rw (has_bit-zero (segment_of q depth))

  module _ (insert : Insert V) (depth : ℕ) (keeps : Keeps insert depth)
      (writes : Writes insert depth) where
    pub read-insert_branch :
        (P : MapKey → Type 0) (bitmap : ℕ) (children : ℕ → HamtNode V) (k q : MapKey) (v : V)
        → P k
        → IsShaped P depth (branch bitmap children)
        → let slots = (insert_branch insert (bitmap, children) (map_key_hash k) depth k v).0 in
          read (branch slots.0 slots.1) depth q
          ≡ (if key_eq k q then some v else read (branch bitmap children) depth q)
    unfolding insert_branch hamt_get
    read-insert_branch P bitmap children k q v p h = ground (
      arith,
      writes (Under P depth (segment_of k depth)) (children (segment_of k depth)) k q v h.0
          (p, refl) (h.3 (segment_of k depth)),
      key_eq_iff k q,
      has_bit-set_bit (segment_of k depth) (segment_of q depth) bitmap,
    )

    -- A promoted bucket reads as its list of leaves, then as what was there before.
    read-promote :
        (P : MapKey → Type 0) (leaves : List (HamtLeaf V)) (slots : Slots V) (q : MapKey)
        → AllLeaves P leaves
        → Distinct leaves
        → IsShaped P depth (branch slots.0 slots.1)
        → let out = promote insert depth leaves slots in
          read (branch out.0 out.1) depth q ≡ elim (find_leaf q leaves) [
            | some v ↦ some v
            | none ↦ read (branch slots.0 slots.1) depth q
          ]
    unfolding promote find_leaf
    read-promote P [] slots q a d h = refl
    read-promote P (leaf ∷ leaves) slots q a d h =
        let next =
          (insert_branch insert slots (map_key_hash leaf.key) depth leaf.key leaf.pair).0 in
        let ih =
          read-promote P leaves next q a.1 d.1 (
            insert_branch-IsShaped insert depth keeps P slots.0 slots.1 leaf.key leaf.pair a.0 h) in
        ground (
          arith,
          ih,
          read-insert_branch P slots.0 slots.1 leaf.key q leaf.pair a.0 h,
          key_eq_iff leaf.key q,
        )

    read-insert_bucket :
        (P : MapKey → Type 0) (leaves : List (HamtLeaf V)) (k q : MapKey) (v : V)
        → P k
        → IsShaped P depth (bucket leaves)
        → read (insert_bucket insert leaves depth k v).0 depth q
          ≡ (if key_eq k q then some v else find_leaf q leaves)
    unfolding insert_bucket hamt_get find_leaf
    read-insert_bucket P leaves k q v p (a, d) =
        let leaf : HamtLeaf V = record { key = k; pair = v } in
        let out = leaves ++ leaf ∷ [] in
        let all = All-append (λ (l : HamtLeaf V). P l.key) leaves (leaf ∷ []) a (p, tt) in
        elim (Bool-cases (replace_leaf k v leaves).1) [
          | inl e ↦ rw e (find-replace leaves k q v e)
          | inr e ↦
              let fresh = find_of_not-replaced leaves k v e in
              let added : find_leaf q out ≡ (if key_eq k q then some v else find_leaf q leaves) =
                ground (arith, find-append leaves leaf q, key_eq_iff k q) in
              elim (Bool-cases (leb (length out) 4 || leb hamt_max_depth depth)) [
                | inl full ↦ rw (e, full) added
                | inr deep ↦
                    rw (e, deep)
                      (read-promote P out (0, λ i. nil) q all (append-Distinct leaves leaf fresh d)
                          (empty-IsShaped P depth (ground arith))
                        ∙ ground (arith, read_empty depth q, added))
              ]
        ]

  -- Reading after an insert, with the fuel that is left at this depth.
  pub read-insert :
      (f depth : ℕ) (P : MapKey → Type 0) (node : HamtNode V) (k q : MapKey) (v : V)
      → depth + f ≡ 14
      → depth < 14
      → P k
      → IsShaped P depth node
      → read (hamt_insert f node (map_key_hash k) depth k v).0 depth q
        ≡ (if key_eq k q then some v else read node depth q)
  unfolding hamt_insert hamt_get find_leaf
  read-insert zero depth P node k q v e d p h = absurd (omega arith)
  read-insert (suc f) depth P nil k q v e d p h = refl
  read-insert (suc f) depth P (bucket leaves) k q v e d p h =
      read-insert_bucket (hamt_insert f) depth (insert-IsShaped f (depth + 1))
        (λ Q node k' q' v' below.
          read-insert f (depth + 1) Q node k' q' v' (omega arith) (omega arith))
        P leaves k q v p h
  read-insert (suc f) depth P (branch bitmap children) k q v e d p h =
      read-insert_branch (hamt_insert f) depth (insert-IsShaped f (depth + 1))
        (λ Q node k' q' v' below.
          read-insert f (depth + 1) Q node k' q' v' (omega arith) (omega arith))
        P bitmap children k q v p h

  -- A key that the invariant rules out is not found.
  pub read_outside :
      (node : HamtNode V) (depth : ℕ) (P : MapKey → Type 0) (q : MapKey)
      → ¬ P q
      → IsShaped P depth node
      → read node depth q ≡ none
  unfolding hamt_get
  read_outside nil depth P q n h = refl
  read_outside (bucket leaves) depth P q n h = find-AllLeaves P leaves q h.0 n
  read_outside (branch bitmap children) depth P q n h =
      let s = segment_of q depth in
      ground (arith, read_outside (children s) (depth + 1) (Under P depth s) q (λ u. n u.0) (h.3 s))

  -- The flag of hamtInsert tells whether the key was there.
  pub insert_replaced :
      (f depth : ℕ) (P : MapKey → Type 0) (node : HamtNode V) (k : MapKey) (v : V)
      → depth + f ≡ 14
      → depth < 14
      → IsShaped P depth node
      → (hamt_insert f node (map_key_hash k) depth k v).1 ≡ is_some (read node depth k)
  unfolding hamt_insert hamt_get insert_bucket insert_branch
  insert_replaced zero depth P node k v e d h = absurd (omega arith)
  insert_replaced (suc f) depth P nil k v e d h = refl
  insert_replaced (suc f) depth P (bucket leaves) k v e d h =
      ground (arith, replaced_lem leaves k v)
  insert_replaced (suc f) depth P (branch bitmap children) k v e d h =
      let s = segment_of k depth in
      ground (
        arith,
        insert_replaced f (depth + 1) (Under P depth s) (children s) k v (omega arith) (omega arith)
            (h.3 s),
      )
