-- ===== src/Message/EncodeLaws.antt =====
-- Lengths of parts of the encoding.
use protobuf_c.Base.{ℕ, ◌*◌, ◌≡◌, List, [], ◌∷◌, length, length-append, concat_map, arith}
use protobuf_c.Message.{FieldType, Value}
use protobuf_c.Message.Encode.{encode_value}

-- The payload of an array whose elements all take `width` bytes.
pub length-payload_fixed :
    {X : Type 0} (sub : X → List ℕ) (type : FieldType) (width : ℕ)
    → ((v : Value X) → length (encode_value sub type v) ≡ width)
    → (vs : List (Value X)) → length (concat_map (encode_value sub type) vs) ≡ width * length vs
length-payload_fixed sub type width each [] = omega arith
length-payload_fixed sub type width each (v ∷ vs) = grind (
  arith,
  each v,
  length-payload_fixed sub type width each vs,
  length-append (encode_value sub type v) (concat_map (encode_value sub type) vs),
)
