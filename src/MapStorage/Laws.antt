-- ===== src/MapStorage/Laws.antt =====
-- The storage of a map as a finite map from keys to pairs, with an exact size.
use slug.Prelude.{
  ◌≡◌, refl, sym, ◌∙◌, ap, none, some, List, [], ◌∷◌, ◌++◌, if◌then◌else◌, length, arith, foldl,
  append-nil, append_assoc,
}
use slug.MapKey.{MapKey, key_eq}
use slug.Hamt.{HamtLeaf, find_leaf}
use slug.Hamt.Shape.{IsShaped, insert-IsShaped}
use slug.Hamt.Lookup.{read-insert, insert_replaced}
use slug.Hamt.Delete.{read-delete, delete-IsShaped, delete_removed}
use slug.Hamt.Traverse.{leaves_of, for_each-fold, find-leaves_of}
use slug.Hamt.Size.{size}
use slug.Hamt.Count.{size-insert, size-delete}
use slug.MapStorage.{HamtMapStorage, empty_storage, put, get, del, entries}

-- Any key may stand at the root.
abbrev pub AnyKey : MapKey → Type 0
AnyKey k = Unit

module _ {V : Type 0} where
  -- The trie keeps its invariant and the size is the number of its leaves.
  pub record IsValid (s : HamtMapStorage V) : Type 0 where
    pub shaped : IsShaped AnyKey 0 s.root
    pub counted : s.size ≡ size s.root

  pub empty-IsValid : IsValid empty_storage
  unfolding leaves_of
  empty-IsValid = record { shaped = tt; counted = refl }

  -- A put keeps the trie invariant and the size equal to the number of leaves.
  pub put-IsValid : (s : HamtMapStorage V) (k : MapKey) (v : V) → IsValid s → IsValid (put s k v)
  unfolding put
  put-IsValid s k v h = record {
    shaped = insert-IsShaped 14 0 AnyKey s.root k v tt h.shaped;
    counted = ground (
      arith,
      h.counted,
      size-insert 14 0 AnyKey s.root k v refl (omega arith) tt h.shaped,
      insert_replaced 14 0 AnyKey s.root k v refl (omega arith) h.shaped,
    );
  }

  -- After a put of a key, a lookup gives the new pair at that key and what it gave before at
  -- every other.
  pub get-put :
      (s : HamtMapStorage V) (k q : MapKey) (v : V)
      → IsValid s
      → get (put s k v) q ≡ (if key_eq k q then some v else get s q)
  unfolding put get
  get-put s k q v h = read-insert 14 0 AnyKey s.root k q v refl (omega arith) tt h.shaped

  -- A delete keeps the trie invariant and the size equal to the number of leaves.
  pub del-IsValid : (s : HamtMapStorage V) (k : MapKey) → IsValid s → IsValid (del s k).0
  unfolding del
  del-IsValid s k h = record {
    shaped = delete-IsShaped s.root 0 AnyKey k h.shaped;
    counted =
        ground
          (arith, h.counted, size-delete s.root 0 AnyKey k h.shaped, delete_removed s.root 0 k);
  }

  -- After a delete of a key, a lookup gives nothing at that key and what it gave before at every
  -- other.
  pub get-del :
      (s : HamtMapStorage V) (k q : MapKey)
      → IsValid s
      → get (del s k).0 q ≡ (if key_eq k q then none else get s q)
  unfolding del get
  get-del s k q h = read-delete s.root 0 AnyKey k q h.shaped

  entries-leaves : (s : HamtMapStorage V) → entries s ≡ leaves_of s.root
  unfolding entries
  entries-leaves s =
      ap (λ t. t.0)
        (for_each-fold (λ out k v. out ++ (record { key = k; pair = v } ∷ [])) s.root [])
      ∙ collect (leaves_of s.root) []
    where
      collect :
          (leaves out : List (HamtLeaf V))
          → foldl (λ out leaf. out ++ leaf ∷ []) out leaves ≡ out ++ leaves
      collect [] out = sym (append-nil out)
      collect (leaf ∷ leaves) out =
          collect leaves (out ++ leaf ∷ []) ∙ append_assoc out (leaf ∷ []) leaves

  -- The traversal yields, for every key, the pair that a lookup gives, and as many leaves as the
  -- size.
  pub entries_complete :
      (s : HamtMapStorage V) (q : MapKey)
      → IsValid s
      → (find_leaf q (entries s) ≡ get s q) × (length (entries s) ≡ s.size)
  unfolding get
  entries_complete s q h =
      rw (entries-leaves s) (find-leaves_of s.root 0 AnyKey q h.shaped, sym h.counted)
