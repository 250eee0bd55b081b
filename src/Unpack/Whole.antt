-- ===== src/Unpack/Whole.antt =====
-- src/google/protobuf-c/protobuf-c.c, `protobuf_c_message_unpack`: the scan, the arrays and the check
-- of the required fields, and the members. What is freed is left out: `answers` is any sequence of
-- addresses.
pub mod Required
pub mod Stored
pub mod Counted
use protobuf_c.Base.{
  ℕ, zero, suc, ◌+◌, ◌*◌, u32, u64, ◌==◌, if◌then◌else◌, List, [], ◌∷◌, Bool, true, false, not,
  ◌&&◌, Option, none, some, set,
}
use protobuf_c.Memory.Input.{Input}
use protobuf_c.Message.{
  Label, required, optional, repeated, FieldType, int32, sint32, sfixed32, int64, sint64, sfixed64,
  uint32, fixed32, uint64, fixed64, float, double, bool, enum, string, bytes, message,
  FieldDescriptor, MessageDescriptor, Value, Slot, array, MessageOf, Message,
}
use protobuf_c.Message.Init.{message_init_generic}
use protobuf_c.Unpack.Outcome.{
  Outcome, out_of_fuel, Action, ◌>>=◌, ◌>>◌, pure, fail, alloc, do_alloc,
}
use protobuf_c.Unpack.Fields.{parse_members}
use protobuf_c.Unpack.Loop.{Scan, start, scan_loop, bitmap_is_set}

-- With pointers of 64 bits; a `protobuf_c_boolean` is an `int`.
abbrev pub sizeof_elt_in_repeated_array : FieldType → ℕ
sizeof_elt_in_repeated_array int64 = 8
sizeof_elt_in_repeated_array sint64 = 8
sizeof_elt_in_repeated_array sfixed64 = 8
sizeof_elt_in_repeated_array uint64 = 8
sizeof_elt_in_repeated_array fixed64 = 8
sizeof_elt_in_repeated_array double = 8
sizeof_elt_in_repeated_array string = 8
sizeof_elt_in_repeated_array message = 8
sizeof_elt_in_repeated_array bytes = 16
sizeof_elt_in_repeated_array type = 4

-- `sizeof (ProtobufCMessageUnknownField)`
abbrev pub sizeof_unknown_field : ℕ
sizeof_unknown_field = 24

-- `field->default_value == NULL && !REQUIRED_FIELD_BITMAP_IS_SET (f)`
abbrev pub is_missing : Scan → ℕ → FieldDescriptor → Bool
is_missing st f field = field.default_value == 0 && not (bitmap_is_set st.bitmap f)

module _ (answers : ℕ → ℕ) {X : Type 0} where
  abbrev pub new_array : Scan → ℕ → FieldDescriptor → MessageOf X → Action (MessageOf X)
  new_array st f field msg = do
    block ← do_alloc answers (u64 (sizeof_elt_in_repeated_array field.type * u32 (st.counts f)))
    pure (record msg { slots = set msg.slots f (array []) })

  -- The array of a field that has elements to come; its quantifier starts from 0 again.
  unfoldable pub allocate_array : Scan → ℕ → FieldDescriptor → MessageOf X → Action (MessageOf X)
  allocate_array st f field msg = if st.counts f == 0 then pure msg else new_array st f field msg

  unfoldable pub prepare_labelled :
      Label → Scan → ℕ → FieldDescriptor → MessageOf X → Action (MessageOf X)
  prepare_labelled required st f field msg = if is_missing st f field then fail else pure msg
  prepare_labelled optional st f field msg = pure msg
  prepare_labelled repeated st f field msg = allocate_array st f field msg

  unfoldable pub prepare_field : Scan → ℕ → FieldDescriptor → MessageOf X → Action (MessageOf X)
  prepare_field st f field msg = prepare_labelled field.label st f field msg

  -- `for (f = 0; f < desc->n_fields; f++)`, from the field `f` on.
  unfoldable pub prepare_fields :
      Scan → ℕ → List FieldDescriptor → MessageOf X → Action (MessageOf X)
  prepare_fields st f [] msg = pure msg
  prepare_fields st f (field ∷ fields) msg = do
    msg' ← prepare_field st f field msg
    prepare_fields st (f + 1) fields msg'

  module _ (unpack : MessageDescriptor → ℕ → Input → Action (ℕ × X))
      (submessage_descriptor : FieldDescriptor → MessageDescriptor) where
    -- What follows the scan.
    unfoldable pub build_message : MessageDescriptor → Scan → MessageOf X → Action (MessageOf X)
    build_message desc st msg = do
      msg' ← prepare_fields st 0 desc.fields msg
      block ← do_alloc answers (u64 (st.n_unknown * sizeof_unknown_field))
      parse_members answers unpack submessage_descriptor st.members msg'

    -- The address of the new message, with its content.
    unfoldable pub unpack_message :
        (MessageDescriptor → MessageOf X) → MessageDescriptor → ℕ → Input → Action (ℕ × MessageOf X)
    unpack_message initial desc len input = do
      rv ← alloc answers
      st ← scan_loop answers desc len len input (start desc)
      msg ← build_message desc st (initial desc)
      pure (rv, msg)

-- What stands in generated code and in the descriptors: the descriptor that a field of type MESSAGE
-- points at, what the default of a field is, and the function `message_init`, if it is there.
pub record Generated : Type 0 where
  pub submessage_descriptor : FieldDescriptor → MessageDescriptor
  pub default_member : (d : ℕ) → FieldDescriptor → Value (Message d)
  pub message_init : (d : ℕ) → MessageDescriptor → Option (MessageOf (Message d))

abbrev pub initial_message : Generated → (d : ℕ) → MessageDescriptor → MessageOf (Message d)
initial_message generated d desc = elim (generated.message_init d desc) [
  | none ↦ message_init_generic (generated.default_member d) desc
  | some msg ↦ msg
]

-- Submessages nest less than `d` deep; `out_of_fuel` if the input nests deeper.
unfoldable pub message_unpack :
    (ℕ → ℕ) → Generated → (d : ℕ) → MessageDescriptor → ℕ → Input → Action (ℕ × Message d)
message_unpack answers generated zero desc len input = λ calls. out_of_fuel
message_unpack answers generated (suc d) desc len input =
    unpack_message answers (message_unpack answers generated d) generated.submessage_descriptor
      (initial_message generated d) desc len input
