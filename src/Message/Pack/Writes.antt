-- ===== src/Message/Pack/Writes.antt =====
-- `protobuf_c_message_pack` writes the encoding of a valid message, and nothing else.
use protobuf_c.Base.{
  ℕ, zero, suc, ◌+◌, ◌≡◌, List, [], ◌∷◌, length, length-append, concat_map, All, IsU32, arith, refl,
  Bool-cases, inl, inr,
}
use protobuf_c.Memory.{Memory, Writer, Writes, memcpy}
use protobuf_c.Memory.Laws.{memcpy-append}
use protobuf_c.Message.{
  Value, Slot, UnknownField, FieldDescriptor, MessageOf, Message, as_submessage, member_of, has_of,
  elements_of, is_absent,
}
use protobuf_c.Message.Encode.{
  encode, encode_body, encode_fields, encode_field, encode_optional, encode_unknown,
}
use protobuf_c.Message.Valid.{
  AtPointer, IsValidField, InSlot, AllFields, IsValid, InSlot-map, AllFields-map,
}
use protobuf_c.Message.Pack.{
  optional_field_pack, field_pack, fields_pack, pack_body, message_pack, unknown_field_pack,
}
use protobuf_c.Message.Pack.Values.{
  IsPacked, pack_loop-Writes, required_field_pack-Writes, unknown_field_pack-Writes,
}
use protobuf_c.Message.Pack.Repeated.{repeated_field_pack-Writes}

module _ {X : Type 0} (sub_pack : X → Writer) (sub : X → List ℕ) where
  optional_field_pack-Writes :
      (field : FieldDescriptor) (has : ℕ) (v : Value X)
      → IsU32 field.id
      → AtPointer (IsPacked sub_pack sub) (as_submessage v)
      → Writes (optional_field_pack sub_pack field has v) (encode_optional sub field has v)
  unfolding optional_field_pack encode_optional
  optional_field_pack-Writes field has v hid h out memory =
      elim (Bool-cases (is_absent field has v)) [
        | inl absent ↦ rw absent (unfold memcpy in refl)
        | inr present ↦
            rw present (required_field_pack-Writes sub_pack sub field v hid h out memory)
      ]

  field_pack-Writes :
      (field : FieldDescriptor) (slot : Slot X)
      → IsValidField sub field slot
      → InSlot (IsPacked sub_pack sub) slot
      → Writes (field_pack sub_pack field slot) (encode_field sub field slot)
  unfolding field_pack encode_field
  field_pack-Writes field slot valid packed out memory = ground (
    arith,
    required_field_pack-Writes sub_pack sub field (member_of slot) valid.id_fits packed.0 out
        memory,
    optional_field_pack-Writes field (has_of slot) (member_of slot) valid.id_fits packed.0 out
        memory,
    repeated_field_pack-Writes sub_pack sub field (elements_of slot) valid.id_fits valid.packable
        valid.elements_fit packed.1 out memory,
  )

  fields_pack-Writes :
      (fields : List FieldDescriptor) (slots : List (Slot X)) (rv out : ℕ) (memory : Memory)
      → AllFields
          (λ field slot. IsValidField sub field slot × InSlot (IsPacked sub_pack sub) slot)
          fields
          slots
      → fields_pack sub_pack rv fields slots out memory ≡ (
        rv + length (encode_fields sub fields slots),
        memcpy memory (out + rv) (encode_fields sub fields slots),
      )
  unfolding fields_pack encode_fields
  fields_pack-Writes [] slots rv out memory h = unfold memcpy in ground arith
  fields_pack-Writes (field ∷ fields) [] rv out memory h = unfold memcpy in ground arith
  fields_pack-Writes (field ∷ fields) (slot ∷ slots) rv out memory ((valid, packed), rest) =
      let xs = encode_field sub field slot in
      let ys = encode_fields sub fields slots in
      ground (
        arith,
        field_pack-Writes field slot valid packed (out + rv) memory,
        fields_pack-Writes fields slots (rv + length xs) out (memcpy memory (out + rv) xs) rest,
        memcpy-append memory (out + rv) xs ys,
        length-append xs ys,
      )

  unknowns_Writes :
      (fields : List UnknownField)
      → All (λ (field : UnknownField). IsU32 field.tag) fields
      → All (λ field. Writes (unknown_field_pack field) (encode_unknown field)) fields
  unknowns_Writes [] h = tt
  unknowns_Writes (field ∷ fields) (hf, hfs) =
      (unknown_field_pack-Writes field hf, unknowns_Writes fields hfs)

  pack_body-Writes :
      (msg : MessageOf X)
      → AllFields
          (λ field slot. IsValidField sub field slot × InSlot (IsPacked sub_pack sub) slot)
          msg.descriptor.fields
          msg.slots
      → All (λ (field : UnknownField). IsU32 field.tag) msg.unknown_fields
      → Writes (pack_body sub_pack msg) (encode_body sub msg)
  unfolding pack_body encode_body
  pack_body-Writes msg fields_valid unknown_valid out memory =
      let xs = encode_fields sub msg.descriptor.fields msg.slots in
      let ys = concat_map encode_unknown msg.unknown_fields in
      ground (
        arith,
        fields_pack-Writes msg.descriptor.fields msg.slots 0 out memory fields_valid,
        pack_loop-Writes unknown_field_pack encode_unknown msg.unknown_fields (length xs) out
            (memcpy memory out xs) (unknowns_Writes msg.unknown_fields unknown_valid),
        memcpy-append memory out xs ys,
        length-append xs ys,
      )

-- On a valid message `protobuf_c_message_pack` returns the length of the encoding, leaves the
-- encoding at `out`, and leaves every other byte of the memory as it was. The encoding is that of the
-- program: a negative enum is a varint of 32 bits, and a length is taken in 32 bits. In a valid message
-- field numbers and counts fit 32 bits, a repeated field takes less than 2 ^ 32 bytes, and only packable
-- types are packed.
pub message_pack-Writes :
    (d : ℕ) (msg : Message d) → IsValid d msg → Writes (message_pack d msg) (encode d msg)
unfolding message_pack encode
message_pack-Writes zero msg valid = absurd valid
message_pack-Writes (suc d) msg (fields_valid, unknown_valid) =
    pack_body-Writes (message_pack d) (encode d) msg
      (AllFields-map (λ field slot h. (h.0, InSlot-map (λ x. message_pack-Writes d x) slot h.1))
        msg.descriptor.fields msg.slots fields_valid)
      unknown_valid
