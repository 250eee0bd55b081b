-- ===== src/Examples/Nested.antt =====
-- A submessage with an unknown field, and the theorem on reading it back.
use protobuf_c.Base.{false, some, none, [], ◌∷◌}
use protobuf_c.Message.{
  FieldDescriptor, MessageDescriptor, Message, Value, submessage, to, boolean, required, message,
  varint,
}
use protobuf_c.Scalar.Base128
use protobuf_c.Unpack.Value.{ScannedMember}
use protobuf_c.Unpack.Whole.{Generated}
use protobuf_c.Examples.Parsing.{from_list}

abbrev no_fields : MessageDescriptor
no_fields = record {
  fields = [];
  fields_sorted_by_name = [];
  n_field_ranges = 0;
  field_ranges = record { start_value = 0; orig_index = 0 } ∷ [];
}

abbrev generated : Generated
generated = record {
  submessage_descriptor = λ field. no_fields;
  default_member = λ d field. boolean 0;
  message_init = λ d desc. none;
}

abbrev inner : Message 1
inner = record {
  descriptor = no_fields;
  slots = [];
  unknown_fields = record { tag = 1; wire_type = varint; content = 1 ∷ [] } ∷ [];
}

abbrev field_m : FieldDescriptor
field_m = record {
  name = 109 ∷ [];
  id = 2;
  label = required;
  type = message;
  packed = false;
  default_value = 0;
}

abbrev outer_value : Value (Message 1)
outer_value = submessage (to 9 inner)

abbrev carrier : ScannedMember
carrier = record {
  tag = 2;
  wire_type = 2;
  length_prefix_len = 1;
  field = some (0, field_m);
  len = 3;
  input = from_list (2 ∷ 8 ∷ 1 ∷ []);
}
