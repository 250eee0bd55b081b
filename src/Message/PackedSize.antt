-- ===== src/Message/PackedSize.antt =====
-- `protobuf_c_message_get_packed_size` and its parts: src/google/protobuf-c/protobuf-c.c. A sum of
-- `size_t` is taken modulo 2 ^ 64, and a `size_t` passed to `uint32_size` modulo 2 ^ 32.
use protobuf_c.Base.{ℕ, zero, suc, ◌+◌, ◌*◌, List, [], ◌∷◌, u32, u64, ◌==◌, if◌then◌else◌, length}
use protobuf_c.Scalar.Size.{
  get_tag_size, uint32_size, int32_size, sint32_size, uint64_size, sint64_size,
}
use protobuf_c.Message.{
  required, optional, repeated, FieldType, int32, sint32, sfixed32, int64, sint64, sfixed64, uint32,
  fixed32, uint64, fixed64, float, double, bool, enum, string, bytes, message, FieldDescriptor,
  Pointer, null, to, Value, Slot, UnknownField, MessageOf, Message, as_word32, as_word64, as_string,
  as_binary, as_submessage, member_of, has_of, elements_of, is_absent,
}

-- `str ? strlen (str) : 0`
abbrev pub string_length : Pointer (List ℕ) → ℕ
string_length null = 0
string_length (to address cs) = length cs

unfoldable pub unknown_field_get_packed_size : UnknownField → ℕ
unknown_field_get_packed_size field = u64 (get_tag_size field.tag + length field.content)

-- `for (i = 0; i < n_unknown_fields; i++) rv += …;`
unfoldable pub unknown_fields_loop : ℕ → List UnknownField → ℕ
unknown_fields_loop rv [] = rv
unknown_fields_loop rv (field ∷ rest) =
    unknown_fields_loop (u64 (rv + unknown_field_get_packed_size field)) rest

-- `sub_size` is the recursive call, `protobuf_c_message_get_packed_size`.
module _ {X : Type 0} (sub_size : X → ℕ) where
  -- `msg ? protobuf_c_message_get_packed_size (msg) : 0`
  abbrev pub submessage_size : Pointer X → ℕ
  submessage_size null = 0
  submessage_size (to address m) = sub_size m

  -- What the `switch` on the type adds to the size of the tag.
  unfoldable pub value_packed_size : FieldType → Value X → ℕ
  value_packed_size sint32 member = sint32_size (as_word32 member)
  value_packed_size int32 member = int32_size (as_word32 member)
  value_packed_size uint32 member = uint32_size (as_word32 member)
  value_packed_size sint64 member = sint64_size (as_word64 member)
  value_packed_size int64 member = uint64_size (as_word64 member)
  value_packed_size uint64 member = uint64_size (as_word64 member)
  value_packed_size sfixed32 member = 4
  value_packed_size fixed32 member = 4
  value_packed_size sfixed64 member = 8
  value_packed_size fixed64 member = 8
  value_packed_size bool member = 1
  value_packed_size float member = 4
  value_packed_size double member = 8
  value_packed_size enum member = uint32_size (as_word32 member)
  value_packed_size string member =
      let len = string_length (as_string member) in uint32_size (u32 len) + len
  value_packed_size bytes member =
      let len = length (as_binary member) in uint32_size (u32 len) + len
  value_packed_size message member =
      let subrv = submessage_size (as_submessage member) in uint32_size (u32 subrv) + subrv

  unfoldable pub required_field_get_packed_size : FieldDescriptor → Value X → ℕ
  required_field_get_packed_size field member =
      let rv = get_tag_size field.id in u64 (rv + value_packed_size field.type member)

  unfoldable pub optional_field_get_packed_size : FieldDescriptor → ℕ → Value X → ℕ
  optional_field_get_packed_size field has member =
      if is_absent field has member then 0 else required_field_get_packed_size field member

  -- `for (i = 0; i < count; i++) rv += …;` over an array of the given type.
  unfoldable pub elements_loop : FieldType → ℕ → List (Value X) → ℕ
  elements_loop type rv [] = rv
  elements_loop type rv (member ∷ rest) =
      elements_loop type (u64 (rv + value_packed_size type member)) rest

  -- The `switch` of `repeated_field_get_packed_size`: types of fixed size are multiplied.
  unfoldable pub elements_packed_size : FieldType → List (Value X) → ℕ
  elements_packed_size sfixed32 elements = u64 (4 * length elements)
  elements_packed_size fixed32 elements = u64 (4 * length elements)
  elements_packed_size float elements = u64 (4 * length elements)
  elements_packed_size sfixed64 elements = u64 (8 * length elements)
  elements_packed_size fixed64 elements = u64 (8 * length elements)
  elements_packed_size double elements = u64 (8 * length elements)
  elements_packed_size bool elements = u64 (length elements)
  elements_packed_size type elements = elements_loop type 0 elements

  unfoldable pub repeated_field_get_packed_size : FieldDescriptor → List (Value X) → ℕ
  repeated_field_get_packed_size field elements =
      let count = length elements in
      let rv = elements_packed_size field.type elements in
      let header_size =
        if field.packed
        then get_tag_size field.id + uint32_size (u32 rv)
        else u64 (get_tag_size field.id * count) in
      if count == 0 then 0 else u64 (header_size + rv)

  unfoldable pub field_get_packed_size : FieldDescriptor → Slot X → ℕ
  field_get_packed_size field slot = elim field.label [
    | required ↦ required_field_get_packed_size field (member_of slot)
    | optional ↦ optional_field_get_packed_size field (has_of slot) (member_of slot)
    | repeated ↦ repeated_field_get_packed_size field (elements_of slot)
  ]

  -- `for (i = 0; i < n_fields; i++) rv += …;`
  unfoldable pub fields_loop : ℕ → List FieldDescriptor → List (Slot X) → ℕ
  fields_loop rv [] slots = rv
  fields_loop rv (field ∷ fields) [] = rv
  fields_loop rv (field ∷ fields) (slot ∷ slots) =
      fields_loop (u64 (rv + field_get_packed_size field slot)) fields slots

  unfoldable pub packed_size_body : MessageOf X → ℕ
  packed_size_body msg =
      unknown_fields_loop (fields_loop 0 msg.descriptor.fields msg.slots) msg.unknown_fields

unfoldable pub message_get_packed_size : (d : ℕ) → Message d → ℕ
message_get_packed_size zero msg = absurd msg
message_get_packed_size (suc d) msg = packed_size_body (message_get_packed_size d) msg
