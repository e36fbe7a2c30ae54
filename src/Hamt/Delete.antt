-- ===== src/Hamt/Delete.antt =====
-- hamtDelete: it keeps the invariant, removes the key and no other, and reports whether it did.
use slug.Prelude.{
  ℕ, ◌+◌, ◌≡◌, refl, sym, ◌∙◌, true, false, none, arith, ◌==◌, ==_iff, is_some, if◌then◌else◌,
  length, All-imp, Bool-cases, inl, inr, subst, ◌&&◌,
}
use slug.Prelude.Bits.{
  has_bit, clear_bit, has_bit-clear_bit, has_bit-zero, clear_bit-le, only_bit, drop_lowest,
  has_bit-trailing_zeros,
}
use slug.MapKey.{MapKey, map_key_hash, key_eq, key_eq_iff}
use slug.Hamt.{
  HamtLeaf, HamtNode, nil, bucket, branch, Slots, with_child, trailing_segment, hamt_get,
  remove_leaf, lift_bucket, delete_child, hamt_delete,
}
use slug.Hamt.Leaves.{
  find-remove, removed_lem, removed_last, remove-Distinct, remove-AllLeaves, find-AllLeaves,
}
use slug.Hamt.Shape.{IsShaped, Under, segment_of, with_child-all, with_child-IsShaped}
use slug.Hamt.Lookup.{read}

module _ {V : Type 0} where
  pub lift_bucket-IsShaped :
      (P : MapKey → Type 0) (depth i : ℕ) (child : HamtNode V) (slots : Slots V)
      → IsShaped (Under P depth i) (depth + 1) child
      → IsShaped P depth (branch slots.0 slots.1)
      → IsShaped P depth (lift_bucket child slots)
  unfolding lift_bucket
  lift_bucket-IsShaped P depth i nil slots c h = h
  lift_bucket-IsShaped P depth i (bucket leaves) slots (a, d) h =
      (All-imp (λ (l : HamtLeaf V). Under P depth i l.key) (λ l. P l.key) (λ l u. u.0) leaves a, d)
  lift_bucket-IsShaped P depth i (branch b c) slots k h = h

  -- A branch whose child is gone, with its bit cleared.
  pub cleared-IsShaped :
      (P : MapKey → Type 0) (depth seg bitmap : ℕ) (children : ℕ → HamtNode V)
      → IsShaped P depth (branch bitmap children)
      → IsShaped P depth (branch (clear_bit bitmap seg) (with_child children seg nil))
  cleared-IsShaped P depth seg bitmap children (d, b, empty, kids) = (
    d,
    omega (arith, clear_bit-le seg bitmap),
    with_child-all (λ i node. has_bit (clear_bit bitmap seg) i ≡ false → node ≡ nil) children seg
        nil (λ h. refl) (λ i n h. empty i (ground (arith, has_bit-clear_bit seg i bitmap))),
    with_child-all (λ i node. IsShaped (Under P depth i) (depth + 1) node) children seg nil tt
        (λ i _. kids i),
  )

  delete_child-IsShaped :
      (P : MapKey → Type 0) (depth seg bitmap : ℕ) (children : ℕ → HamtNode V) (next : HamtNode V)
      → has_bit bitmap seg ≡ true
      → IsShaped P depth (branch bitmap children)
      → IsShaped (Under P depth seg) (depth + 1) next
      → IsShaped P depth (delete_child (bitmap, children) seg next)
  unfolding delete_child
  delete_child-IsShaped P depth seg bitmap children nil s h n =
      let left = clear_bit bitmap seg in
      let rest = with_child children seg nil in
      let c = cleared-IsShaped P depth seg bitmap children h in
      elim (Bool-cases (left == 0)) [
        | inl z ↦ rw z tt
        | inr z ↦ elim (Bool-cases (drop_lowest left == 0)) [
          | inl o ↦
              rw (z, o)
                (lift_bucket-IsShaped P depth (trailing_segment left) (rest (trailing_segment left))
                  (left, rest) (c.3 (trailing_segment left)) c)
          | inr o ↦ rw (z, o) c
        ]
      ]
  delete_child-IsShaped P depth seg bitmap children (bucket leaves) s h n =
      with_child-IsShaped P depth seg bitmap children (bucket leaves) s h n
  delete_child-IsShaped P depth seg bitmap children (branch b' c') s h n =
      with_child-IsShaped P depth seg bitmap children (branch b' c') s h n

  pub delete-IsShaped :
      (node : HamtNode V) (depth : ℕ) (P : MapKey → Type 0) (k : MapKey)
      → IsShaped P depth node
      → IsShaped P depth (hamt_delete node (map_key_hash k) depth k).0
  unfolding hamt_delete
  delete-IsShaped nil depth P k h = tt
  delete-IsShaped (bucket leaves) depth P k (a, d) = elim (Bool-cases (remove_leaf k leaves).1) [
    | inl e ↦ elim (Bool-cases (length leaves == 1)) [
      | inl o ↦ rw (e, o) tt
      | inr o ↦ rw (e, o) (remove-AllLeaves P leaves k a, remove-Distinct leaves k d)
    ]
    | inr e ↦ rw e (a, d)
  ]
  delete-IsShaped (branch bitmap children) depth P k h =
      let seg = segment_of k depth in
      let ih = delete-IsShaped (children seg) (depth + 1) (Under P depth seg) k (h.3 seg) in
      let removed = (hamt_delete (children seg) (map_key_hash k) (depth + 1) k).1 in
      elim (Bool-cases (has_bit bitmap seg && removed)) [
        | inl e ↦ rw e (delete_child-IsShaped P depth seg bitmap children _ (ground arith) h ih)
        | inr e ↦ rw e h
      ]

  read_cleared :
      (depth bitmap : ℕ) (children : ℕ → HamtNode V) (k q : MapKey)
      → none ≡ (if key_eq k q then none else read (children (segment_of k depth)) (depth + 1) q)
      → read
          (branch
            (clear_bit bitmap (segment_of k depth))
            (with_child children (segment_of k depth) nil))
          depth
          q
        ≡ (if key_eq k q then none else read (branch bitmap children) depth q)
  unfolding hamt_get
  read_cleared depth bitmap children k q ih =
      ground
        (arith, key_eq_iff k q, has_bit-clear_bit (segment_of k depth) (segment_of q depth) bitmap)

  -- Lifting an only child changes no reading.
  read-lift_bucket :
      (P : MapKey → Type 0) (depth i bitmap : ℕ) (children : ℕ → HamtNode V) (child : HamtNode V)
      (q : MapKey)
      → children i ≡ child
      → IsShaped (Under P depth i) (depth + 1) child
      → has_bit bitmap i ≡ true
      → (has_bit bitmap (segment_of q depth) ≡ true → i ≡ segment_of q depth)
      → read (lift_bucket child (bitmap, children)) depth q ≡ read (branch bitmap children) depth q
  unfolding lift_bucket hamt_get
  read-lift_bucket P depth i bitmap children nil q e c b only = refl
  read-lift_bucket P depth i bitmap children (bucket leaves) q e c b only =
      let s = segment_of q depth in
      elim (Bool-cases (has_bit bitmap s)) [
        | inl t ↦ rw (t, subst (λ j. children j ≡ bucket leaves) (only t) e) refl
        | inr t ↦ rw t (find-AllLeaves (Under P depth i) leaves q c.0 (λ u. cc (u.1)))
      ]
  read-lift_bucket P depth i bitmap children (branch b' c') q e c b only = refl

  -- A deletion in a child, seen from its parent.
  read-delete_child :
      (P : MapKey → Type 0) (depth bitmap : ℕ) (children : ℕ → HamtNode V) (next : HamtNode V)
      (k q : MapKey)
      → has_bit bitmap (segment_of k depth) ≡ true
      → IsShaped P depth (branch bitmap children)
      → read next (depth + 1) q
        ≡ (if key_eq k q then none else read (children (segment_of k depth)) (depth + 1) q)
      → read (delete_child (bitmap, children) (segment_of k depth) next) depth q
        ≡ (if key_eq k q then none else read (branch bitmap children) depth q)
  unfolding delete_child hamt_get
  read-delete_child P depth bitmap children nil k q b h ih =
      let seg = segment_of k depth in
      let left = clear_bit bitmap seg in
      let rest = with_child children seg nil in
      let low = trailing_segment left in
      let cleared = read_cleared depth bitmap children k q ih in
      let c = cleared-IsShaped P depth seg bitmap children h in
      elim (Bool-cases (left == 0)) [
        | inl z ↦
            let w : left ≡ 0 = (==_iff left 0).0 z in
            rw z (
              sym (
                subst (λ w. read (branch w rest) depth q ≡ none) (sym w)
                  (rw (has_bit-zero (segment_of q depth))))
              ∙ cleared)
        | inr z ↦ elim (Bool-cases (drop_lowest left == 0)) [
          | inl o ↦
              rw (z, o)
                (read-lift_bucket P depth low left rest (rest low) q refl (c.3 low)
                    (has_bit-trailing_zeros 32 left (ground arith) c.1)
                    (only_bit 32 left _ (ground arith) c.1 (ground arith))
                  ∙ cleared)
          | inr o ↦ rw (z, o) cleared
        ]
      ]
  read-delete_child P depth bitmap children (bucket leaves) k q b h ih =
      ground (arith, key_eq_iff k q, ih)
  read-delete_child P depth bitmap children (branch b' c') k q b h ih =
      ground (arith, key_eq_iff k q, ih)

  -- The flag tells whether the key was there.
  pub delete_removed :
      (node : HamtNode V) (depth : ℕ) (k : MapKey)
      → (hamt_delete node (map_key_hash k) depth k).1 ≡ is_some (read node depth k)
  unfolding hamt_delete hamt_get
  delete_removed nil depth k = refl
  delete_removed (bucket leaves) depth k = ground (arith, removed_lem leaves k)
  delete_removed (branch bitmap children) depth k =
      ground (arith, delete_removed (children (segment_of k depth)) (depth + 1) k)

  pub read-delete :
      (node : HamtNode V) (depth : ℕ) (P : MapKey → Type 0) (k q : MapKey)
      → IsShaped P depth node
      → read (hamt_delete node (map_key_hash k) depth k).0 depth q
        ≡ (if key_eq k q then none else read node depth q)
  unfolding hamt_delete hamt_get
  read-delete nil depth P k q h = ground arith
  read-delete (bucket leaves) depth P k q h = ground (
    arith,
    find-remove leaves k q h.1,
    removed_last leaves k q,
    removed_lem leaves k,
    key_eq_iff k q,
  )
  read-delete (branch bitmap children) depth P k q h =
      let seg = segment_of k depth in
      let ih = read-delete (children seg) (depth + 1) (Under P depth seg) k q (h.3 seg) in
      let removed = (hamt_delete (children seg) (map_key_hash k) (depth + 1) k).1 in
      elim (Bool-cases (has_bit bitmap seg && removed)) [
        | inl e ↦ rw e (read-delete_child P depth bitmap children _ k q (ground arith) h ih)
        | inr e ↦ rw e (ground (arith, delete_removed (children seg) (depth + 1) k, key_eq_iff k q))
      ]
