-- ===== src/Message/Init.antt =====
-- A new message: src/google/protobuf-c/protobuf-c.c, `protobuf_c_message_init_generic`.
use protobuf_c.Base.{◌==◌, if◌then◌else◌, [], map}
use protobuf_c.Message.{
  required, optional, repeated, FieldType, int32, sint32, sfixed32, int64, sint64, sfixed64, uint32,
  fixed32, uint64, fixed64, float, double, bool, enum, string, bytes, message, FieldDescriptor,
  MessageDescriptor, null, Value, word32, word64, boolean, chars, binary, submessage, Slot, single,
  array, MessageOf,
}

module _ {X : Type 0} where
  -- What a member reads as when its bytes are 0.
  abbrev pub zero_value : FieldType → Value X
  zero_value int32 = word32 0
  zero_value sint32 = word32 0
  zero_value sfixed32 = word32 0
  zero_value uint32 = word32 0
  zero_value fixed32 = word32 0
  zero_value float = word32 0
  zero_value enum = word32 0
  zero_value int64 = word64 0
  zero_value sint64 = word64 0
  zero_value sfixed64 = word64 0
  zero_value uint64 = word64 0
  zero_value fixed64 = word64 0
  zero_value double = word64 0
  zero_value bool = boolean 0
  zero_value string = chars null
  zero_value bytes = binary 0 []
  zero_value message = submessage null

  -- `default_member` has what is stored for a field with a default: a copy of what `default_value`
  -- points at, or that pointer itself.
  module _ (default_member : FieldDescriptor → Value X) where
    abbrev pub initial_member : FieldDescriptor → Value X
    initial_member field =
        if field.default_value == 0 then zero_value field.type else default_member field

    unfoldable pub initial_slot : FieldDescriptor → Slot X
    initial_slot field = elim field.label [
      | required ↦ single 0 (initial_member field)
      | optional ↦ single 0 (initial_member field)
      | repeated ↦ array []
    ]

    unfoldable pub message_init_generic : MessageDescriptor → MessageOf X
    message_init_generic desc = record {
      descriptor = desc;
      slots = map initial_slot desc.fields;
      unknown_fields = [];
    }
