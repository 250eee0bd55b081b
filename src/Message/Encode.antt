-- ===== src/Message/Encode.antt =====
-- The encoding of a message, as a list of bytes: the specification that the size, `pack` and
-- `pack_to_buffer` routines are held to. It is the wire format of protobuf, but for two things that
-- the program does in another way: an enum is a varint of 32 bits, so that a negative one takes five
-- bytes and not the ten of its sign-extended value, and a length is taken in 32 bits.
use protobuf_c.Base.{
  ℕ, zero, suc, ◌+◌, ◌*◌, ◌==◌, ◌++◌, List, [], ◌∷◌, u32, if◌then◌else◌, length, concat_map,
}
use protobuf_c.Scalar.Size.{zigzag32, zigzag64}
use protobuf_c.Scalar.Base128.{varint, sign_extend}
use protobuf_c.Scalar.Pack.{object32, object64}
use protobuf_c.Message.{
  required, optional, repeated, FieldType, int32, sint32, sfixed32, int64, sint64, sfixed64, uint32,
  fixed32, uint64, fixed64, float, double, bool, enum, string, bytes, message, FieldDescriptor,
  Pointer, null, to, Value, Slot, UnknownField, MessageOf, Message, as_word32, as_word64,
  as_boolean, as_string, as_binary, as_submessage, member_of, has_of, elements_of, is_absent,
  WireType, wire_code, wire_type_of, length_prefixed,
}

-- The tag of a field: its number and wire type in one varint.
abbrev pub key : ℕ → WireType → List ℕ
key id wire_type = varint (id * 8 + wire_code wire_type)

-- A length, and as many bytes. The program keeps lengths in 32 bits.
abbrev pub prefixed : List ℕ → List ℕ
prefixed bs = varint (u32 (length bs)) ++ bs

abbrev pub pointee : Pointer (List ℕ) → List ℕ
pointee null = []
pointee (to address bs) = bs

unfoldable pub encode_unknown : UnknownField → List ℕ
encode_unknown field = key field.tag field.wire_type ++ field.content

-- `sub` encodes a submessage.
module _ {X : Type 0} (sub : X → List ℕ) where
  abbrev pub encode_pointer : Pointer X → List ℕ
  encode_pointer null = []
  encode_pointer (to address m) = sub m

  -- A value without its tag.
  unfoldable pub encode_value : FieldType → Value X → List ℕ
  encode_value int32 member = varint (sign_extend (as_word32 member))
  encode_value sint32 member = varint (zigzag32 (as_word32 member))
  encode_value uint32 member = varint (as_word32 member)
  encode_value enum member = varint (as_word32 member)
  encode_value int64 member = varint (as_word64 member)
  encode_value sint64 member = varint (zigzag64 (as_word64 member))
  encode_value uint64 member = varint (as_word64 member)
  encode_value sfixed32 member = object32 (as_word32 member)
  encode_value fixed32 member = object32 (as_word32 member)
  encode_value float member = object32 (as_word32 member)
  encode_value sfixed64 member = object64 (as_word64 member)
  encode_value fixed64 member = object64 (as_word64 member)
  encode_value double member = object64 (as_word64 member)
  encode_value bool member = (if as_boolean member == 0 then 0 else 1) ∷ []
  encode_value string member = prefixed (pointee (as_string member))
  encode_value bytes member = prefixed (as_binary member)
  encode_value message member = prefixed (encode_pointer (as_submessage member))

  unfoldable pub encode_required : FieldDescriptor → Value X → List ℕ
  encode_required field member =
      key field.id (wire_type_of field.type) ++ encode_value field.type member

  unfoldable pub encode_optional : FieldDescriptor → ℕ → Value X → List ℕ
  encode_optional field has member =
      if is_absent field has member then [] else encode_required field member

  abbrev pub encode_packed : FieldDescriptor → List (Value X) → List ℕ
  encode_packed field [] = []
  encode_packed field (v ∷ vs) =
      key field.id length_prefixed ++ prefixed (concat_map (encode_value field.type) (v ∷ vs))

  unfoldable pub encode_repeated : FieldDescriptor → List (Value X) → List ℕ
  encode_repeated field members =
      if field.packed
      then encode_packed field members
      else concat_map (encode_required field) members

  unfoldable pub encode_field : FieldDescriptor → Slot X → List ℕ
  encode_field field slot = elim field.label [
    | required ↦ encode_required field (member_of slot)
    | optional ↦ encode_optional field (has_of slot) (member_of slot)
    | repeated ↦ encode_repeated field (elements_of slot)
  ]

  unfoldable pub encode_fields : List FieldDescriptor → List (Slot X) → List ℕ
  encode_fields [] slots = []
  encode_fields (field ∷ fields) [] = []
  encode_fields (field ∷ fields) (slot ∷ slots) =
      encode_field field slot ++ encode_fields fields slots

  unfoldable pub encode_body : MessageOf X → List ℕ
  encode_body msg =
      encode_fields msg.descriptor.fields msg.slots ++ concat_map encode_unknown msg.unknown_fields

-- The fields in the order of the descriptor, and then the unknown ones.
unfoldable pub encode : (d : ℕ) → Message d → List ℕ
encode zero msg = absurd msg
encode (suc d) msg = encode_body (encode d) msg
