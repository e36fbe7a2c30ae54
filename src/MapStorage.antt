-- ===== src/MapStorage.antt =====
-- internal/object/map_storage.go, and the methods of Map in internal/object/object.go: a map is a
-- trie with its size, made on first use from the pairs that the map was built with.
pub mod Laws
pub mod Run
use slug.Prelude.{
  ℕ, ◌+◌, ◌-◌, Bool, true, false, Option, none, some, List, [], ◌∷◌, ◌++◌, if◌then◌else◌,
}
use slug.MapKey.{MapKey, map_key_hash}
use slug.Hamt.{HamtLeaf, HamtNode, nil, hamt_get, hamt_insert, hamt_delete, hamt_for_each}

module _ (V : Type 0) where
  pub record HamtMapStorage : Type 0 where
    pub root : HamtNode V
    pub size : ℕ

  -- `Pairs` as the order in which the range loop over it runs; the tags of a map are left out.
  pub record SlugMap : Type 0 where
    pub pairs : List (HamtLeaf V)
    pub storage : Option HamtMapStorage

-- The levels that a call at the root may go down: 14 - 0.
abbrev pub insert_fuel : ℕ
insert_fuel = 14

module _ {V : Type 0} where
  abbrev pub empty_storage : HamtMapStorage V
  empty_storage = record { root = nil; size = 0 }

  unfoldable pub put : HamtMapStorage V → MapKey → V → HamtMapStorage V
  put s k v =
      let (root, replaced) = hamt_insert insert_fuel s.root (map_key_hash k) 0 k v in
      record { root = root; size = if replaced then s.size else s.size + 1 }

  unfoldable pub get : HamtMapStorage V → MapKey → Option V
  get s k = hamt_get s.root (map_key_hash k) 0 k

  -- With the final value of `*removed`.
  unfoldable pub del : HamtMapStorage V → MapKey → HamtMapStorage V × Bool
  del s k =
      let (root, removed) = hamt_delete s.root (map_key_hash k) 0 k in
      (record { root = root; size = if removed then s.size - 1 else s.size }, removed)

  -- The leaves that a callback which never stops is given, in order.
  unfoldable pub entries : HamtMapStorage V → List (HamtLeaf V)
  entries s =
      (hamt_for_each (λ out k v. (out ++ (record { key = k; pair = v } ∷ []), true)) s.root []).0

  unfoldable pub put_all : List (HamtLeaf V) → HamtMapStorage V → HamtMapStorage V
  unfolding put
  put_all [] s = s
  put_all (leaf ∷ leaves) s = put_all leaves (put s leaf.key leaf.pair)

  unfoldable pub ensure_storage : SlugMap V → HamtMapStorage V
  unfolding put_all
  ensure_storage m = elim m.storage [ some s ↦ s | none ↦ put_all m.pairs empty_storage ]

  -- The map after a method: the legacy pairs are dropped.
  abbrev pub stored : HamtMapStorage V → SlugMap V
  stored s = record { pairs = []; storage = some s }

  -- Put and PutPair differ in who computes the key.
  unfoldable pub put_pair : SlugMap V → MapKey → V → SlugMap V
  unfolding ensure_storage
  put_pair m k v = stored (put (ensure_storage m) k v)

  unfoldable pub delete_key : SlugMap V → MapKey → SlugMap V
  unfolding ensure_storage del
  delete_key m k = stored (del (ensure_storage m) k).0

  -- The lookup also leaves the storage in the map.
  unfoldable pub get_pair : SlugMap V → MapKey → SlugMap V × Option V
  unfolding ensure_storage get
  get_pair m k = (stored (ensure_storage m), get (ensure_storage m) k)

  unfoldable pub len : SlugMap V → ℕ
  unfolding ensure_storage
  len m = (ensure_storage m).size

  -- The new map has its own storage; the old one keeps what `ensureStorage` made.
  unfoldable pub clone : SlugMap V → SlugMap V × SlugMap V
  unfolding ensure_storage
  clone m = (stored (ensure_storage m), stored (ensure_storage m))
