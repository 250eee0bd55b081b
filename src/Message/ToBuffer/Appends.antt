-- ===== src/Message/ToBuffer/Appends.antt =====
-- `protobuf_c_message_pack_to_buffer` appends the encoding of a valid message.
use protobuf_c.Base.{
  ℕ, ◌≡◌, List, [], ◌∷◌, ◌++◌, true, u32, length, take_all, concat_map, All, IsU32, arith, refl,
  sym, Bool-cases, inl, inr, append_assoc, append-nil,
}
use protobuf_c.Memory.{Writer, Writes}
use protobuf_c.Scalar.Base128.{varint}
use protobuf_c.Scalar.Pack.{uint32_pack}
use protobuf_c.Scalar.Pack.Writes.{uint32_pack-Writes}
use protobuf_c.Message.{
  FieldType, int32, sfixed32, sfixed64, fixed32, fixed64, float, double, string, bytes, message,
  FieldDescriptor, Pointer, null, to, Value, as_string, as_binary, as_submessage, is_absent,
  is_packable_type, wire_type_of,
}
use protobuf_c.Message.Encode.{
  key, prefixed, pointee, encode_optional, encode_required, encode_value, encode_pointer,
}
use protobuf_c.Message.Valid.{AtPointer-map, AtPointer}
use protobuf_c.Message.Pack.{◌then_write◌, tag_and_type_pack, value_pack}
use protobuf_c.Message.Pack.Values.{Writes-then, tag_and_type_pack-Writes, value_pack-Writes}
use protobuf_c.Message.ToBuffer.{
  Buffer, append_packed, append_header, string_bytes, submessage_bytes, append_value,
  required_field_pack_to_buffer, optional_field_pack_to_buffer, pack_buffer_packed_payload,
}
use protobuf_c.Message.Pack.Values.{IsPacked}
use protobuf_c.Message.ToBuffer.Laws.{
  Appends, append_packed-Appends, append_header-Appends, buffer_loop-Appends,
}

string_bytes-pointee : (p : Pointer (List ℕ)) → string_bytes p ≡ pointee p
string_bytes-pointee null = refl
string_bytes-pointee (to a str) = refl

-- A tag, a length, and as many bytes.
pub header-Writes :
    (tag : Writer) (xs block : List ℕ)
    → Writes tag xs
    → Writes (tag then_write uint32_pack (u32 (length block))) (xs ++ varint (u32 (length block)))
header-Writes tag xs block h =
    Writes-then xs (varint (u32 (length block))) h
      (uint32_pack-Writes (u32 (length block)) (omega arith))

module _ {X : Type 0} (sub_pack : X → Writer) (sub_append : X → ℕ × List ℕ) (sub : X → List ℕ)
    (buffer : Buffer) where
  open buffer use {State, contents}

  -- The recursive call packs the encoding of `x` to a buffer of its own.
  abbrev pub IsAppended : X → Type 0
  IsAppended x = ((sub_append x).0 ≡ length (sub x)) × ((sub_append x).1 ≡ sub x)

  -- Both recursive calls are right at `x`.
  abbrev pub IsBoth : X → Type 0
  IsBoth x = IsPacked sub_pack sub x × IsAppended x

  submessage_bytes-encode :
      (p : Pointer X)
      → AtPointer IsAppended p
      → ((submessage_bytes sub_pack sub_append buffer p).0 ≡ length (encode_pointer sub p))
        × ((submessage_bytes sub_pack sub_append buffer p).1 ≡ encode_pointer sub p)
  submessage_bytes-encode null h = (refl, refl)
  submessage_bytes-encode (to a x) h = h

  scalar-Appends :
      (type : FieldType) (tag : Writer) (xs : List ℕ) (v : Value X)
      → Writes tag xs
      → Writes (value_pack sub_pack type v) (encode_value sub type v)
      → Appends buffer
          (append_packed buffer (tag then_write value_pack sub_pack type v))
          (xs ++ encode_value sub type v)
  scalar-Appends type tag xs v ht hv =
      append_packed-Appends buffer (tag then_write value_pack sub_pack type v)
        (xs ++ encode_value sub type v) (Writes-then xs (encode_value sub type v) ht hv)

  block-Appends :
      (tag : Writer) (xs block : List ℕ)
      → Writes tag xs
      → Appends buffer
          (append_header buffer (tag then_write uint32_pack (u32 (length block))) block)
          (xs ++ prefixed block)
  block-Appends tag xs block h s = rw (← append_assoc xs (varint (u32 (length block))) block) (
      append_header-Appends buffer (tag then_write uint32_pack (u32 (length block)))
        (xs ++ varint (u32 (length block))) block (header-Writes tag xs block h) s)

  append_value-Appends :
      (type : FieldType) (tag : Writer) (xs : List ℕ) (v : Value X)
      → Writes tag xs
      → AtPointer IsBoth (as_submessage v)
      → Appends buffer
          (append_value sub_pack sub_append buffer type tag v)
          (xs ++ encode_value sub type v)
  unfolding append_value
  append_value-Appends string tag xs v ht h s =
      unfold encode_value in
      rw (string_bytes-pointee (as_string v)) (block-Appends tag xs (pointee (as_string v)) ht s)
  append_value-Appends bytes tag xs v ht h s =
      unfold encode_value in block-Appends tag xs (as_binary v) ht s
  append_value-Appends message tag xs v ht h s =
      let L = encode_pointer sub (as_submessage v) in
      let (count, held) =
        submessage_bytes-encode (as_submessage v)
          (AtPointer-map (λ x b. b.1) (as_submessage v) h) in
      unfold encode_value in
      rw (count, held, take_all (length L) L (omega arith))
        (unfold append_header in block-Appends tag xs L ht s)
  append_value-Appends int32 tag xs v ht h s =
      scalar-Appends int32 tag xs v ht
        (value_pack-Writes sub_pack sub int32 v (AtPointer-map (λ x b. b.0) (as_submessage v) h)) s
  append_value-Appends type tag xs v ht h s =
      scalar-Appends type tag xs v ht
        (value_pack-Writes sub_pack sub type v (AtPointer-map (λ x b. b.0) (as_submessage v) h)) s

  pub required-Appends :
      (field : FieldDescriptor) (v : Value X)
      → IsU32 field.id
      → AtPointer IsBoth (as_submessage v)
      → Appends buffer
          (required_field_pack_to_buffer sub_pack sub_append buffer field v)
          (encode_required sub field v)
  unfolding required_field_pack_to_buffer encode_required
  required-Appends field v hid h =
      append_value-Appends field.type (tag_and_type_pack field.id (wire_type_of field.type))
        (key field.id (wire_type_of field.type)) v
        (tag_and_type_pack-Writes field.id (wire_type_of field.type) hid) h

  pub optional-Appends :
      (field : FieldDescriptor) (has : ℕ) (v : Value X)
      → IsU32 field.id
      → AtPointer IsBoth (as_submessage v)
      → Appends buffer
          (optional_field_pack_to_buffer sub_pack sub_append buffer field has v)
          (encode_optional sub field has v)
  unfolding optional_field_pack_to_buffer encode_optional
  optional-Appends field has v hid h s = elim (Bool-cases (is_absent field has v)) [
    | inl absent ↦ rw absent (refl, sym (append-nil (contents s)))
    | inr present ↦ rw present (required-Appends field v hid h s)
  ]

  abbrev pub AllBoth : List (Value X) → Type 0
  AllBoth = All (λ v. AtPointer IsBoth (as_submessage v))

  pub requireds_Appends :
      (field : FieldDescriptor) (vs : List (Value X))
      → IsU32 field.id
      → AllBoth vs
      → All
          (λ v.
            Appends buffer
              (required_field_pack_to_buffer sub_pack sub_append buffer field v)
              (encode_required sub field v))
          vs
  requireds_Appends field [] hid h = tt
  requireds_Appends field (v ∷ vs) hid (hv, hvs) =
      (required-Appends field v hid hv, requireds_Appends field vs hid hvs)

  values_Appends :
      (type : FieldType) (vs : List (Value X))
      → AllBoth vs
      → All
          (λ v.
            Appends buffer
              (append_packed buffer (value_pack sub_pack type v))
              (encode_value sub type v))
          vs
  values_Appends type [] h = tt
  values_Appends type (v ∷ vs) (hv, hvs) = (
    append_packed-Appends buffer (value_pack sub_pack type v) (encode_value sub type v)
        (value_pack-Writes sub_pack sub type v (AtPointer-map (λ x b. b.0) (as_submessage v) hv)),
    values_Appends type vs hvs,
  )

  pub payload_held :
      (type : FieldType) (vs : List (Value X)) (s : State)
      → is_packable_type type ≡ true
      → AllBoth vs
      → contents (pack_buffer_packed_payload sub_pack sub_append buffer type vs s).1
        ≡ contents s ++ concat_map (encode_value sub type) vs
  unfolding pack_buffer_packed_payload
  payload_held sfixed32 vs s p h = unfold encode_value in buffer.contents-append s _
  payload_held fixed32 vs s p h = unfold encode_value in buffer.contents-append s _
  payload_held float vs s p h = unfold encode_value in buffer.contents-append s _
  payload_held sfixed64 vs s p h = unfold encode_value in buffer.contents-append s _
  payload_held fixed64 vs s p h = unfold encode_value in buffer.contents-append s _
  payload_held double vs s p h = unfold encode_value in buffer.contents-append s _
  payload_held string vs s p h = cc
  payload_held bytes vs s p h = cc
  payload_held message vs s p h = cc
  payload_held int32 vs s p h =
      (buffer_loop-Appends buffer _ (encode_value sub int32) vs 0 s (values_Appends int32 vs h)).1
  payload_held type vs s p h =
      (buffer_loop-Appends buffer _ (encode_value sub type) vs 0 s (values_Appends type vs h)).1
