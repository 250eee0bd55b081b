-- ===== src/Unpack/Fields.antt =====
-- Where the members go in the new message: src/google/protobuf-c/protobuf-c.c, `parse_member` and the
-- routines for each label, and the loop over the scanned members.
use protobuf_c.Base.{
  ℕ, ◌+◌, ◌-◌, ◌^◌, u64, ◌==◌, if◌then◌else◌, List, [], ◌∷◌, ◌++◌, Bool, true, false, ◌&&◌, ◌||◌,
  Option, none, some, get_elem?, set,
}
use protobuf_c.Memory.Input.{Input, advance}
use protobuf_c.Message.{
  Label, required, optional, repeated, FieldDescriptor, MessageDescriptor, Value, Slot, single,
  array, elements_of, has_of, MessageOf, WireType, varint, bits64, length_prefixed, start_group,
  end_group, bits32, is_packable_type, is_pointer_type,
}
use protobuf_c.Unpack.Packed.{parse_packed_repeated_member}
use protobuf_c.Unpack.Outcome.{Action, ◌>>=◌, pure, fail, fault, do_alloc}
use protobuf_c.Unpack.Value.{ScannedMember, read_bytes, parse_required_member}

-- The wire type of a code. The scan lets only 0, 1, 2 and 5 pass.
abbrev pub wire_type_of_code : ℕ → WireType
wire_type_of_code code =
    if code == 0
    then varint
    else if code == 1
    then bits64
    else if code == 2
    then length_prefixed
    else if code == 3
    then start_group
    else if code == 4
    then end_group
    else bits32

-- `wire_type == LENGTH_PREFIXED && (field->packed || is_packable_type (field->type))`
abbrev pub is_packed_member : FieldDescriptor → ℕ → Bool
is_packed_member field wire_type = wire_type == 2 && (field.packed || is_packable_type field.type)

-- The packed bytes of a member, and how many there are: the difference of two `size_t`.
abbrev pub packed_len : ScannedMember → ℕ
packed_len m = u64 (m.len + 2 ^ 64 - m.length_prefix_len)

abbrev pub packed_input : ScannedMember → Input
packed_input m = advance m.input m.length_prefix_len

module _ (answers : ℕ → ℕ) {X : Type 0} (unpack : MessageDescriptor → ℕ → Input → Action (ℕ × X))
    (submessage_descriptor : FieldDescriptor → MessageDescriptor) where
  -- The flag is there where the member is no pointer.
  unfoldable pub parse_optional_member : FieldDescriptor → ScannedMember → Slot X → Action (Slot X)
  parse_optional_member field m slot = do
    v ← parse_required_member answers unpack submessage_descriptor field m
    pure (single (if is_pointer_type field.type then has_of slot else 1) v)

  unfoldable pub parse_repeated_member : FieldDescriptor → ScannedMember → Slot X → Action (Slot X)
  parse_repeated_member field m slot = do
    v ← parse_required_member answers unpack submessage_descriptor field m
    pure (array (elements_of slot ++ v ∷ []))

  -- The elements behind those that the array has.
  abbrev pub appended : Slot X → List (Value X) × Bool → Action (Slot X)
  appended slot (vs, true) = pure (array (elements_of slot ++ vs))
  appended slot (vs, false) = fail

  unfoldable pub parse_array : FieldDescriptor → ScannedMember → Slot X → Action (Slot X)
  parse_array field m slot =
      if is_packed_member field m.wire_type
      then appended slot (parse_packed_repeated_member field.type (packed_len m) (packed_input m))
      else parse_repeated_member field m slot

  unfoldable pub parse_labelled : Label → FieldDescriptor → ScannedMember → Slot X → Action (Slot X)
  parse_labelled required field m slot = do
    v ← parse_required_member answers unpack submessage_descriptor field m
    pure (single (has_of slot) v)
  parse_labelled optional field m slot = parse_optional_member field m slot
  parse_labelled repeated field m slot = parse_array field m slot

  -- The slot of the field after `m`, by the label.
  unfoldable pub parse_slot : FieldDescriptor → ScannedMember → Slot X → Action (Slot X)
  parse_slot field m slot = parse_labelled field.label field m slot

  abbrev pub slot_at : MessageOf X → ℕ → Action (Slot X)
  slot_at message i = elim (get_elem? message.slots i) [ none ↦ fault | some slot ↦ pure slot ]

  unfoldable pub parse_unknown : ScannedMember → MessageOf X → Action (MessageOf X)
  parse_unknown m message = do
    block ← do_alloc answers m.len
    pure (record message {
      unknown_fields =
          message.unknown_fields
          ++ record {
            tag = m.tag;
            wire_type = wire_type_of_code m.wire_type;
            content = read_bytes m.len m.input;
          }
            ∷ [];
    })

  unfoldable pub parse_into :
      Option (ℕ × FieldDescriptor) → ScannedMember → MessageOf X → Action (MessageOf X)
  parse_into none m message = parse_unknown m message
  parse_into (some (i, field)) m message = do
    slot ← slot_at message i
    slot' ← parse_slot field m slot
    pure (record message { slots = set message.slots i slot' })

  unfoldable pub parse_member : ScannedMember → MessageOf X → Action (MessageOf X)
  parse_member m message = parse_into m.field m message

  -- `for (i_slab …) for (j …)`: the slabs one after another.
  unfoldable pub parse_members : List ScannedMember → MessageOf X → Action (MessageOf X)
  parse_members [] message = pure message
  parse_members (m ∷ ms) message = do message' ← parse_member m message; parse_members ms message'
