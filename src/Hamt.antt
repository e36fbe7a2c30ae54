-- ===== src/Hamt.antt =====
-- internal/object/hamt.go: the persistent hash trie that holds a slug map. A nil pointer, a bucket
-- and a branch of the Go node are three constructors (a bucket has no bitmap and no children, a
-- branch no leaves); the array of 32 children is a function of the index. Nodes are never changed
-- in place, so sharing between versions leaves no trace.
pub mod Leaves
pub mod Shape
pub mod Lookup
pub mod Delete
pub mod Traverse
pub mod Size
pub mod Count
use slug.Prelude.{
  ℕ, zero, suc, ◌+◌, ◌*◌, ◌/◌, ◌%◌, ◌^◌, Bool, true, false, Option, none, some, List, [], ◌∷◌, ◌++◌,
  ◌||◌, ◌&&◌, ◌==◌, leb, if◌then◌else◌, length,
}
use slug.Prelude.Bits.{has_bit, set_bit, clear_bit, drop_lowest, trailing_zeros}
use slug.MapKey.{MapKey, key_eq, map_key_hash}

abbrev pub hamt_bits_per_level : ℕ
hamt_bits_per_level = 5

abbrev pub hamt_max_depth : ℕ
hamt_max_depth = 13

module _ (V : Type 0) where
  pub record HamtLeaf : Type 0 where
    pub key : MapKey
    pub pair : V

  pub data HamtNode : Type 0 where
    nil : HamtNode
    bucket : List HamtLeaf → HamtNode
    branch : ℕ → (ℕ → HamtNode) → HamtNode

  -- A bitmap with its children: a branch under construction.
  abbrev pub Slots : Type 0
  Slots = ℕ × (ℕ → HamtNode)

  -- The recursive call of hamtInsert, handed on.
  abbrev pub Insert : Type 0
  Insert = HamtNode → ℕ → ℕ → MapKey → V → HamtNode × Bool

-- `int((hash >> (depth * hamtBitsPerLevel)) & hamtMask)`
unfoldable pub segment : ℕ → ℕ → ℕ
segment hash depth = hash / 2 ^ (depth * hamt_bits_per_level) % 2 ^ hamt_bits_per_level

abbrev pub trailing_segment : ℕ → ℕ
trailing_segment bitmap = trailing_zeros 32 bitmap

module _ {V : Type 0} where
  -- `children[seg] = node`, on a copy
  abbrev pub with_child : (ℕ → HamtNode V) → ℕ → HamtNode V → ℕ → HamtNode V
  with_child children seg node i = if seg == i then node else children i

  -- The loop over the leaves of a bucket in hamtGet.
  unfoldable pub find_leaf : MapKey → List (HamtLeaf V) → Option V
  find_leaf key [] = none
  find_leaf key (leaf ∷ leaves) =
      if key_eq leaf.key key then some leaf.pair else find_leaf key leaves

  unfoldable pub hamt_get : HamtNode V → ℕ → ℕ → MapKey → Option V
  unfolding find_leaf segment
  hamt_get nil hash depth key = none
  hamt_get (bucket leaves) hash depth key = find_leaf key leaves
  hamt_get (branch bitmap children) hash depth key =
      let seg = segment hash depth in
      let found = hamt_get (children seg) hash (depth + 1) key in
      if has_bit bitmap seg then found else none

module _ {V : Type 0} where
  -- The first leaf with the key gets the new pair; the flag tells whether one has it.
  unfoldable pub replace_leaf : MapKey → V → List (HamtLeaf V) → List (HamtLeaf V) × Bool
  replace_leaf key pair [] = ([], false)
  replace_leaf key pair (leaf ∷ leaves) =
      let (rest, found) = replace_leaf key pair leaves in
      if key_eq leaf.key key
      then (record { key = leaf.key; pair = pair } ∷ leaves, true)
      else (leaf ∷ rest, found)

  -- The last part of hamtInsert, on a branch.
  unfoldable pub insert_branch : Insert V → Slots V → ℕ → ℕ → MapKey → V → Slots V × Bool
  unfolding segment
  insert_branch insert (bitmap, children) hash depth key pair =
      let seg = segment hash depth in
      let (child, replaced) = insert (children seg) hash (depth + 1) key pair in
      if has_bit bitmap seg then ((bitmap, with_child children seg child), replaced) else (
        (
          set_bit bitmap seg,
          with_child children seg (bucket (record { key = key; pair = pair } ∷ [])),
        ),
        false,
      )

  -- The loop that promotes a bucket to a branch: each leaf is inserted at the same depth.
  unfoldable pub promote : Insert V → ℕ → List (HamtLeaf V) → Slots V → Slots V
  unfolding insert_branch
  promote insert depth [] slots = slots
  promote insert depth (leaf ∷ leaves) slots =
      promote insert depth leaves
        (insert_branch insert slots (map_key_hash leaf.key) depth leaf.key leaf.pair).0

  -- hamtInsert on a bucket; `out` is the bucket with its new leaf at the end.
  unfoldable pub insert_bucket : Insert V → List (HamtLeaf V) → ℕ → MapKey → V → HamtNode V × Bool
  unfolding replace_leaf promote
  insert_bucket insert leaves depth key pair =
      let (changed, replaced) = replace_leaf key pair leaves in
      let out = leaves ++ (record { key = key; pair = pair } ∷ []) in
      let slots = promote insert depth out (0, λ i. nil) in
      if replaced
      then (bucket changed, true)
      else (if leb (length out) 4 || leb hamt_max_depth depth
          then (bucket out, false)
          else (branch slots.0 slots.1, false))

  -- hamtInsert, with the final value of `*replaced`. The fuel counts levels: a call at depth `d`
  -- is made with 14 - d, which no trie of the program exhausts.
  unfoldable pub hamt_insert : ℕ → Insert V
  unfolding insert_bucket
  hamt_insert zero node hash depth key pair = (node, false)
  hamt_insert (suc f) nil hash depth key pair =
      (bucket (record { key = key; pair = pair } ∷ []), false)
  hamt_insert (suc f) (bucket leaves) hash depth key pair =
      insert_bucket (hamt_insert f) leaves depth key pair
  hamt_insert (suc f) (branch bitmap children) hash depth key pair =
      let (slots, replaced) =
        insert_branch (hamt_insert f) (bitmap, children) hash depth key pair in
      (branch slots.0 slots.1, replaced)

  -- The leaves without the first one that has the key; the flag tells whether one has it.
  unfoldable pub remove_leaf : MapKey → List (HamtLeaf V) → List (HamtLeaf V) × Bool
  remove_leaf key [] = ([], false)
  remove_leaf key (leaf ∷ leaves) =
      let (rest, found) = remove_leaf key leaves in
      if key_eq leaf.key key then (leaves, true) else (leaf ∷ rest, found)

  -- hamtDelete on a bucket: the last leaf takes its bucket with it.
  unfoldable pub delete_bucket : MapKey → List (HamtLeaf V) → HamtNode V × Bool
  unfolding remove_leaf
  delete_bucket key leaves =
      let (out, found) = remove_leaf key leaves in
      if found
      then (if length leaves == 1 then (nil, true) else (bucket out, true))
      else (bucket leaves, false)

  -- An only child that is a bucket takes its parent's place.
  unfoldable pub lift_bucket : HamtNode V → Slots V → HamtNode V
  lift_bucket nil slots = branch slots.0 slots.1
  lift_bucket (bucket leaves) slots = bucket leaves
  lift_bucket (branch bitmap children) slots = branch slots.0 slots.1

  -- hamtDelete on a branch, once the call for the child has removed the key.
  unfoldable pub delete_child : Slots V → ℕ → HamtNode V → HamtNode V
  unfolding lift_bucket
  delete_child (bitmap, children) seg nil =
      let left = clear_bit bitmap seg in
      let rest = with_child children seg nil in
      if left == 0
      then nil
      else (if drop_lowest left == 0
          then lift_bucket (rest (trailing_segment left)) (left, rest)
          else branch left rest)
  delete_child (bitmap, children) seg (bucket leaves) =
      branch bitmap (with_child children seg (bucket leaves))
  delete_child (bitmap, children) seg (branch b c) =
      branch bitmap (with_child children seg (branch b c))

  -- hamtDelete, with the final value of `*removed`, which its callers set to false.
  unfoldable pub hamt_delete : HamtNode V → ℕ → ℕ → MapKey → HamtNode V × Bool
  unfolding delete_bucket delete_child segment
  hamt_delete nil hash depth key = (nil, false)
  hamt_delete (bucket leaves) hash depth key = delete_bucket key leaves
  hamt_delete (branch bitmap children) hash depth key =
      let seg = segment hash depth in
      let (next, removed) = hamt_delete (children seg) hash (depth + 1) key in
      if has_bit bitmap seg && removed
      then (delete_child (bitmap, children) seg next, true)
      else (branch bitmap children, false)

module _ {S : Type 0} where
  -- The loop `for bm != 0 { …; bm &= bm - 1 }` of hamtForEach. A 32-bit word has 32 rounds at most.
  unfoldable pub for_each_bit : ℕ → (ℕ → S → S × Bool) → ℕ → S → S × Bool
  for_each_bit zero visit bm s = (s, true)
  for_each_bit (suc n) visit bm s =
      let (s', more) = visit (trailing_segment bm) s in
      let rest = for_each_bit n visit (drop_lowest bm) s' in
      if bm == 0 then (s, true) else (if more then rest else (s', false))

module _ {V S : Type 0} where
  -- `fn(leaf.key, leaf.pair)` on a state that the callback closes over; false stops the traversal.
  unfoldable pub for_each_leaf : (S → MapKey → V → S × Bool) → List (HamtLeaf V) → S → S × Bool
  for_each_leaf fn [] s = (s, true)
  for_each_leaf fn (leaf ∷ leaves) s =
      let (s', more) = fn s leaf.key leaf.pair in
      let rest = for_each_leaf fn leaves s' in if more then rest else (s', false)

  unfoldable pub hamt_for_each : (S → MapKey → V → S × Bool) → HamtNode V → S → S × Bool
  unfolding for_each_leaf for_each_bit
  hamt_for_each fn nil s = (s, true)
  hamt_for_each fn (bucket leaves) s = for_each_leaf fn leaves s
  hamt_for_each fn (branch bitmap children) s =
      for_each_bit 32 (λ seg. hamt_for_each fn (children seg)) bitmap s
