-- ===== src/Message/Pack/Lengths.antt =====
-- The room that `repeated_field_pack` leaves for the length of a packed payload.
use protobuf_c.Base.{
  ℕ, ◌+◌, ◌*◌, ◌≡◌, ◌≤◌, List, [], ◌∷◌, true, length, length-append, concat_map, IsU32, arith, ◌⊎◌,
}
use protobuf_c.Scalar.Size.{uint32_size}
use protobuf_c.Scalar.Base128.{varint, length-groups}
use protobuf_c.Message.{
  FieldType, int32, sint32, int64, sint64, uint32, uint64, enum, string, bytes, message, Value,
  is_packable_type,
}
use protobuf_c.Message.Encode.{encode_value}
use protobuf_c.Message.Pack.{get_type_min_size, length_size_min}

length-varint : (v : ℕ) → (1 ≤ length (varint v)) × (length (varint v) ≤ 10)
unfolding varint
length-varint v = length-groups 9 v

module _ {X : Type 0} (sub : X → List ℕ) where
  -- A packable value takes its type's least size, and no more than ten times that.
  value_bounds :
      (type : FieldType) (v : Value X)
      → is_packable_type type ≡ true
      → (get_type_min_size type ≤ length (encode_value sub type v))
        × (length (encode_value sub type v) ≤ 10 * get_type_min_size type)
  unfolding encode_value
  value_bounds int32 v h = length-varint _
  value_bounds sint32 v h = length-varint _
  value_bounds uint32 v h = length-varint _
  value_bounds enum v h = length-varint _
  value_bounds int64 v h = length-varint _
  value_bounds sint64 v h = length-varint _
  value_bounds uint64 v h = length-varint _
  value_bounds string v h = cc
  value_bounds bytes v h = cc
  value_bounds message v h = cc
  value_bounds _ v h = omega arith

  pub payload_bounds :
      (type : FieldType) (vs : List (Value X))
      → is_packable_type type ≡ true
      → (get_type_min_size type * length vs ≤ length (concat_map (encode_value sub type) vs))
        × (length (concat_map (encode_value sub type) vs)
            ≤ 10 * (get_type_min_size type * length vs))
  payload_bounds type [] h = omega arith
  payload_bounds type (v ∷ vs) h = omega (
    arith,
    value_bounds type v h,
    payload_bounds type vs h,
    length-append (encode_value sub type v) (concat_map (encode_value sub type) vs),
  )

-- Ten times the bytes need at most one byte more of length: 10 < 128.
size_grows :
    (m n : ℕ)
    → m ≤ n
    → n ≤ 10 * m
    → IsU32 n
    → (uint32_size n ≡ uint32_size m) ⊎ (uint32_size n ≡ uint32_size m + 1)
unfolding uint32_size
size_grows m n lo hi h = ground arith

-- The condition of the `assert` in `repeated_field_pack`: for a packable type and a payload below
-- 2 ^ 32 bytes, the length takes the room left for it or exactly one byte more.
pub length_size_min-payload :
    {X : Type 0} (sub : X → List ℕ) (type : FieldType) (vs : List (Value X))
    → is_packable_type type ≡ true
    → IsU32 (length (concat_map (encode_value sub type) vs))
    → let actual = uint32_size (length (concat_map (encode_value sub type) vs)) in
      (actual ≡ length_size_min type (length vs)) ⊎ (actual ≡ length_size_min type (length vs) + 1)
unfolding length_size_min
length_size_min-payload sub type vs packable fits = ground (
  arith,
  payload_bounds sub type vs packable,
  size_grows (get_type_min_size type * length vs) (length (concat_map (encode_value sub type) vs)),
)
