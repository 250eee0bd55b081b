-- ===== src/Message/SizeLaws.antt =====
-- The size routines compute the length of the encoding, as a `size_t`.
use protobuf_c.Base.{ℕ, ◌+◌, ◌≡◌, List, u32, u64, length, length-append, concat_map, IsU32, arith}
use protobuf_c.Scalar.Size.{get_tag_size, uint32_size}
use protobuf_c.Scalar.Length.{get_tag_size-length, uint32_size-length}
use protobuf_c.Scalar.Base128.{varint}
use protobuf_c.Message.{wire_code-lt, FieldType, Value, Message, WireType, wire_code}
use protobuf_c.Message.Encode.{key, prefixed, encode_value}

pub length-key : (id : ℕ) (w : WireType) → IsU32 id → length (key id w) ≡ get_tag_size id
length-key id w h = get_tag_size-length id (wire_code w) h (wire_code-lt w)

pub length-prefixed :
    (bs : List ℕ) → length (prefixed bs) ≡ uint32_size (u32 (length bs)) + length bs
length-prefixed bs = omega (
  arith,
  length-append (varint (u32 (length bs))) bs,
  uint32_size-length (u32 (length bs)) (omega arith),
)

module _ {X : Type 0} (sub_size : X → ℕ) (sub : X → List ℕ) where
  -- The recursive call is right at `x`.
  abbrev pub IsSized : X → Type 0
  IsSized x = sub_size x ≡ u64 (length (sub x))

  abbrev payload : FieldType → List (Value X) → List ℕ
  payload type = concat_map (encode_value sub type)
