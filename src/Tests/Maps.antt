-- ===== src/Tests/Maps.antt =====
-- Maps with number values: enough keys to promote a bucket, and keys that share a hash.
use slug.Prelude.{ℕ, ◌≡◌, refl, none, some, List, [], ◌∷◌, if◌then◌else◌, length}
use slug.MapKey.{MapKey, ObjectType, key_eq, map_key_hash}
use mathlib.Core.Bool.{decide}
use slug.Prelude.Bits.{has_bit, set_bit, clear_bit, drop_lowest}
use slug.Hamt.{HamtLeaf, find_leaf, hamt_get, hamt_insert, hamt_delete}
use slug.MapStorage.{
  HamtMapStorage, empty_storage, put, get, del, entries, put_all, ensure_storage, get_pair,
}
use slug.MapStorage.Laws.{
  IsValid, empty-IsValid, put-IsValid, get-put, del-IsValid, get-del, entries_complete,
}
use slug.MapStorage.Run.{MapOp, run, replay, initial, put_all_refines, run_refines}

abbrev key : ℕ → MapKey
key n = record { kind = ObjectType.number_obj; value = n }

abbrev leaf : ℕ → HamtLeaf ℕ
leaf n = record { key = key n; pair = n }

-- The keys 3, 35, 67, 99 and 131 share the first segment of their hashes.
abbrev six : List (HamtLeaf ℕ)
six = leaf 3 ∷ leaf 35 ∷ leaf 67 ∷ leaf 99 ∷ leaf 131 ∷ leaf 8 ∷ []

storage : HamtMapStorage ℕ
unfolding put_all put
storage = put_all six empty_storage

storage_size : storage.size ≡ 6
unfolding storage hamt_insert key_eq decide has_bit map_key_hash set_bit
storage_size = refl

storage_get : get storage (key 99) ≡ some 99
unfolding storage get hamt_insert hamt_get key_eq decide has_bit map_key_hash set_bit
storage_get = refl

storage_del : get (del storage (key 99)).0 (key 99) ≡ none
unfolding storage get del hamt_insert hamt_get hamt_delete key_eq decide has_bit map_key_hash
    set_bit clear_bit drop_lowest
storage_del = refl

valid : IsValid storage
unfolding storage get hamt_get
valid = (put_all_refines six empty_storage (λ q. none) empty-IsValid (λ q. refl)).0

get-put_example :
    get (put storage (key 35) 7) (key 67)
    ≡ (if key_eq (key 35) (key 67) then some 7 else get storage (key 67))
get-put_example = get-put storage (key 35) (key 67) 7 valid

get-del_example :
    get (del storage (key 35)).0 (key 35)
    ≡ (if key_eq (key 35) (key 35) then none else get storage (key 35))
get-del_example = get-del storage (key 35) (key 35) valid

put-IsValid_example : IsValid (put storage (key 163) 1)
put-IsValid_example = put-IsValid storage (key 163) 1 valid

del-IsValid_example : IsValid (del storage (key 8)).0
del-IsValid_example = del-IsValid storage (key 8) valid

entries_complete_example :
    (find_leaf (key 8) (entries storage) ≡ get storage (key 8))
    × (length (entries storage) ≡ storage.size)
entries_complete_example = entries_complete storage (key 8) valid

abbrev ops : List (MapOp ℕ)
ops =
    MapOp.put_op (key 3) 30 ∷ MapOp.delete_op (key 99) ∷ MapOp.clone_op ∷ MapOp.get_op (key 3) ∷ []

run_refines_example :
    let m = run ops (record { pairs = six; storage = none }) in
    IsValid (ensure_storage m)
    × ((q : MapKey) → (get_pair m q).1 ≡ replay ops (initial six (λ q. none)) q)
run_refines_example = run_refines ops six
