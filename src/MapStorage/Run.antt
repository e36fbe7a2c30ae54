-- ===== src/MapStorage/Run.antt =====
-- What a client of a map observes over any sequence of its methods.
use slug.Prelude.{◌≡◌, refl, Option, none, some, List, [], ◌∷◌, if◌then◌else◌, arith}
use slug.MapKey.{MapKey, key_eq}
use slug.Hamt.{HamtLeaf, hamt_get}
use slug.MapStorage.{
  HamtMapStorage, SlugMap, empty_storage, put, get, put_all, ensure_storage, stored, put_pair,
  delete_key, get_pair, clone,
}
use slug.MapStorage.Laws.{IsValid, empty-IsValid, put-IsValid, get-put, del-IsValid, get-del}

module _ (V : Type 0) where
  pub data MapOp : Type 0 where
    put_op : MapKey → V → MapOp
    delete_op : MapKey → MapOp
    get_op : MapKey → MapOp
    clone_op : MapOp

module _ {V : Type 0} where
  -- `clone_op` goes on with the new map.
  unfoldable pub run : List (MapOp V) → SlugMap V → SlugMap V
  unfolding put_pair delete_key get_pair clone
  run [] m = m
  run (put_op k v ∷ ops) m = run ops (put_pair m k v)
  run (delete_op k ∷ ops) m = run ops (delete_key m k)
  run (get_op k ∷ ops) m = run ops (get_pair m k).0
  run (clone_op ∷ ops) m = run ops (clone m).1

  -- The same methods on a function from keys to pairs.
  pub replay : List (MapOp V) → (MapKey → Option V) → MapKey → Option V
  replay [] f = f
  replay (put_op k v ∷ ops) f = replay ops (λ q. if key_eq k q then some v else f q)
  replay (delete_op k ∷ ops) f = replay ops (λ q. if key_eq k q then none else f q)
  replay (get_op k ∷ ops) f = replay ops f
  replay (clone_op ∷ ops) f = replay ops f

  -- The reading of the pairs that a map was built with: the last pair of a key counts.
  pub initial : List (HamtLeaf V) → (MapKey → Option V) → MapKey → Option V
  initial [] f = f
  initial (leaf ∷ leaves) f =
      initial leaves (λ q. if key_eq leaf.key q then some leaf.pair else f q)

  pub put_all_refines :
      (leaves : List (HamtLeaf V)) (s : HamtMapStorage V) (f : MapKey → Option V)
      → IsValid s
      → ((q : MapKey) → get s q ≡ f q)
      → IsValid (put_all leaves s) × ((q : MapKey) → get (put_all leaves s) q ≡ initial leaves f q)
  unfolding put_all initial
  put_all_refines [] s f h e = (h, e)
  put_all_refines (leaf ∷ leaves) s f h e =
      put_all_refines leaves (put s leaf.key leaf.pair) _ (put-IsValid s leaf.key leaf.pair h)
        (λ q. ground (arith, get-put s leaf.key q leaf.pair h, e q))

  -- Where the methods keep the storage, any run keeps it valid and reads as the replay.
  stored_refines :
      (ops : List (MapOp V)) (s : HamtMapStorage V) (f : MapKey → Option V)
      → IsValid s
      → ((q : MapKey) → get s q ≡ f q)
      → let m = run ops (stored s) in
        IsValid (ensure_storage m) × ((q : MapKey) → (get_pair m q).1 ≡ replay ops f q)
  unfolding run replay get_pair
  stored_refines [] s f h e = (h, e)
  stored_refines (put_op k v ∷ ops) s f h e =
      stored_refines ops (put s k v) _ (put-IsValid s k v h)
        (λ q. ground (arith, get-put s k q v h, e q))
  stored_refines (delete_op k ∷ ops) s f h e =
      stored_refines ops _ _ (del-IsValid s k h) (λ q. ground (arith, get-del s k q h, e q))
  stored_refines (get_op k ∷ ops) s f h e = stored_refines ops s f h e
  stored_refines (clone_op ∷ ops) s f h e = stored_refines ops s f h e

  -- From a freshly built map, every run of puts, deletes, lookups and clones keeps the storage
  -- valid and reads like the same operations on a function from keys to pairs, the legacy pairs
  -- being put first.
  pub run_refines :
      (ops : List (MapOp V)) (pairs : List (HamtLeaf V))
      → let m = run ops (record { pairs = pairs; storage = none }) in
        IsValid (ensure_storage m)
        × ((q : MapKey) → (get_pair m q).1 ≡ replay ops (initial pairs (λ q. none)) q)
  unfolding run replay get_pair hamt_get
  run_refines ops pairs =
      let (valid, reads) =
        put_all_refines pairs empty_storage (λ q. none) empty-IsValid (λ q. refl) in
      from_built ops (stored_refines ops (put_all pairs empty_storage) _ valid reads)
    where
      built : SlugMap V
      built = record { pairs = pairs; storage = none }

      from_built :
          (ops : List (MapOp V))
          → (let m = run ops (stored (put_all pairs empty_storage)) in
              IsValid (ensure_storage m)
              × ((q : MapKey) → (get_pair m q).1 ≡ replay ops (initial pairs (λ q. none)) q))
          → let m = run ops built in
            IsValid (ensure_storage m)
            × ((q : MapKey) → (get_pair m q).1 ≡ replay ops (initial pairs (λ q. none)) q)
      from_built [] h = h
      from_built (put_op k v ∷ ops) h = h
      from_built (delete_op k ∷ ops) h = h
      from_built (get_op k ∷ ops) h = h
      from_built (clone_op ∷ ops) h = h
