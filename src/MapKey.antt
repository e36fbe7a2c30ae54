-- ===== src/MapKey.antt =====
-- internal/object/object.go: the object types and the keys of slug maps; internal/object/hamt.go:
-- the hash of a key.
use Prim.Native.Nat.{bit_xor}
use mathlib.Core.Bool.{decide, decide_iff}
use slug.Prelude.{ℕ, ◌*◌, ◌^◌, ◌%◌, ◌≡◌, ◌↔◌, Bool, true, ◌&&◌, arith, ◌==◌}

-- The constants of the type `ObjectType`; no other value of it is made.
pub data ObjectType : Type 0 where
  nil_obj boolean_obj number_obj string_obj byte_obj symbol_obj : ObjectType
  list_obj map_obj struct_schema_obj struct_obj channel_obj : ObjectType
  module_obj function_obj function_group_obj foreign_obj error_obj : ObjectType
  tail_call_obj return_value_obj task_handle_obj binding_ref_obj uninitialized_obj : ObjectType

-- The first byte of the constant's text, `k.Type[0]`.
unfoldable pub first_byte : ObjectType → ℕ
first_byte ObjectType.nil_obj = b'N'
first_byte ObjectType.boolean_obj = b'B'
first_byte ObjectType.number_obj = b'N'
first_byte ObjectType.string_obj = b'S'
first_byte ObjectType.byte_obj = b'B'
first_byte ObjectType.symbol_obj = b'S'
first_byte ObjectType.list_obj = b'L'
first_byte ObjectType.map_obj = b'M'
first_byte ObjectType.struct_schema_obj = b'S'
first_byte ObjectType.struct_obj = b'S'
first_byte ObjectType.channel_obj = b'C'
first_byte ObjectType.module_obj = b'M'
first_byte ObjectType.function_obj = b'F'
first_byte ObjectType.function_group_obj = b'F'
first_byte ObjectType.foreign_obj = b'F'
first_byte ObjectType.error_obj = b'E'
first_byte ObjectType.tail_call_obj = b'T'
first_byte ObjectType.return_value_obj = b'R'
first_byte ObjectType.task_handle_obj = b'T'
first_byte ObjectType.binding_ref_obj = b'B'
first_byte ObjectType.uninitialized_obj = b'U'

unfoldable pub ObjectType-discrete : Discrete ObjectType
ObjectType-discrete = hlevel

pub record MapKey : Type 0 where
  pub kind : ObjectType
  pub value : ℕ

-- `a == b` on two keys.
unfoldable pub key_eq : MapKey → MapKey → Bool
unfolding ObjectType-discrete
key_eq a b = decide (ObjectType-discrete a.kind b.kind) && a.value == b.value

pub key_eq_iff : (a b : MapKey) → (key_eq a b ≡ true) ↔ (a ≡ b)
unfolding key_eq
key_eq_iff a b = ground (arith, decide_iff (ObjectType-discrete a.kind b.kind))

-- `(uint64(k.Type[0]) << 56) ^ k.Value`
unfoldable pub map_key_hash : MapKey → ℕ
unfolding first_byte
map_key_hash k = bit_xor (first_byte k.kind * 2 ^ 56 % 2 ^ 64) k.value
