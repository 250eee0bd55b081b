-- ===== src/Unpack/Value/RoundTrip.antt =====
-- A value that was encoded is restored by `parse_required_member`.
use protobuf_c.Base.{ℕ, ◌≡◌, ◌≢◌, ap, arith, u32, IsU32, ◌==◌, if◌then◌else◌, List, length}
use protobuf_c.Base.Bits.{bit_and_7f}
use protobuf_c.Memory.Input.{Input, HoldsAt}
use protobuf_c.Message.{
  FieldType, int32, sint32, sfixed32, int64, sint64, sfixed64, uint32, fixed32, uint64, fixed64,
  float, double, bool, enum, string, bytes, message, FieldDescriptor, MessageDescriptor, Value,
  word32, word64, boolean, as_word32, as_word64, as_boolean, as_string, as_binary, as_submessage,
  as_word32-IsU32, as_word64-IsU64, wire_type_of, WireType,
}
use protobuf_c.Message.Encode.{encode_value, pointee}
use protobuf_c.Scalar.Parse.{parse_boolean, parse_boolean_loop}
use protobuf_c.Scalar.Parse.RoundTrip.{parse_uint64-varint}
use protobuf_c.Scalar.Parse.Values.{parse_fixed_uint32-object32, parse_fixed_uint64-object64}
use protobuf_c.Scalar.Parse.Signed.{
  parse_int32-varint, parse_uint32-varint_u32, unzigzag32-varint, unzigzag64-varint,
}
use protobuf_c.Unpack.Member.Laws.{prefix_len}
use protobuf_c.Unpack.Packed.RoundTrip.{canonical}
use protobuf_c.Unpack.Outcome.{Action, Gives}
use protobuf_c.Unpack.Value.{ScannedMember, parse_value, parse_required_member}
use protobuf_c.Unpack.Value.Laws.{
  Carries, Storable, Restored, scalar-Gives, parse_string-Gives, parse_bytes-Gives,
  parse_submessage-Gives,
}

whole_len :
    (bs : List ℕ) (pref_len : ℕ) (wire_type : WireType) (m : ScannedMember)
    → Carries bs pref_len wire_type m
    → IsU32 (length bs)
    → u32 m.len ≡ length bs
whole_len bs pref_len wire_type m c fits = omega (arith, c.len)

parse_boolean-byte :
    (b : ℕ) (input : Input) (len : ℕ)
    → len ≡ 1
    → input 0 ≡ (if b == 0 then 0 else 1)
    → parse_boolean len input ≡ (if b == 0 then 0 else 1)
unfolding parse_boolean parse_boolean_loop
parse_boolean-byte b input len one e = rw one (ground (arith, bit_and_7f (input 0)))

module _ (answers : ℕ → ℕ) (answered : (k : ℕ) → answers k ≢ 0) {X : Type 0}
    (unpack : MessageDescriptor → ℕ → Input → Action (ℕ × X))
    (submessage_descriptor : FieldDescriptor → MessageDescriptor) (sub : X → List ℕ)
    (P : FieldDescriptor → X → Type 0) (R : X → X → Type 0)
    (reads : (field : FieldDescriptor) (x : X) (input : Input) (calls : ℕ)
      → P field x
      → HoldsAt input 0 (sub x)
      → Gives
          (unpack (submessage_descriptor field) (length (sub x)) input calls)
          (λ r. R x r.1)) where
  parse_value-encode :
      (type : FieldType) (field : FieldDescriptor) (v : Value X) (m : ScannedMember) (calls : ℕ)
      → Storable (P field) type v
      → IsU32 (length (encode_value sub type v))
      → Carries (encode_value sub type v) (prefix_len sub type v) (wire_type_of type) m
      → Gives
          (parse_value answers unpack submessage_descriptor type field m calls)
          (Restored R type v)
  unfolding parse_value encode_value canonical
  parse_value-encode int32 field v m calls s fits c =
      scalar-Gives answers answered unpack submessage_descriptor 0 _ _ m calls c.wired (
        rw (whole_len _ _ _ m c fits) (
          ap (λ (w : ℕ). word32 w)
            (parse_int32-varint (as_word32 v) m.input (as_word32-IsU32 v) c.holds)))
  parse_value-encode uint32 field v m calls s fits c =
      scalar-Gives answers answered unpack submessage_descriptor 0 _ _ m calls c.wired (
        rw (whole_len _ _ _ m c fits) (
          ap (λ (w : ℕ). word32 w)
            (parse_uint32-varint_u32 (as_word32 v) m.input (as_word32-IsU32 v) c.holds)))
  parse_value-encode enum field v m calls s fits c =
      scalar-Gives answers answered unpack submessage_descriptor 0 _ _ m calls c.wired (
        rw (whole_len _ _ _ m c fits) (
          ap (λ (w : ℕ). word32 w)
            (parse_uint32-varint_u32 (as_word32 v) m.input (as_word32-IsU32 v) c.holds)))
  parse_value-encode sint32 field v m calls s fits c =
      scalar-Gives answers answered unpack submessage_descriptor 0 _ _ m calls c.wired (
        rw (whole_len _ _ _ m c fits) (
          ap (λ (w : ℕ). word32 w)
            (unzigzag32-varint (as_word32 v) m.input (as_word32-IsU32 v) c.holds)))
  parse_value-encode int64 field v m calls s fits c =
      scalar-Gives answers answered unpack submessage_descriptor 0 _ _ m calls c.wired (
        rw (whole_len _ _ _ m c fits) (
          ap (λ (w : ℕ). word64 w)
            (parse_uint64-varint (as_word64 v) m.input (as_word64-IsU64 v) c.holds)))
  parse_value-encode uint64 field v m calls s fits c =
      scalar-Gives answers answered unpack submessage_descriptor 0 _ _ m calls c.wired (
        rw (whole_len _ _ _ m c fits) (
          ap (λ (w : ℕ). word64 w)
            (parse_uint64-varint (as_word64 v) m.input (as_word64-IsU64 v) c.holds)))
  parse_value-encode sint64 field v m calls s fits c =
      scalar-Gives answers answered unpack submessage_descriptor 0 _ _ m calls c.wired (
        rw (whole_len _ _ _ m c fits) (
          ap (λ (w : ℕ). word64 w)
            (unzigzag64-varint (as_word64 v) m.input (as_word64-IsU64 v) c.holds)))
  parse_value-encode sfixed32 field v m calls s fits c =
      scalar-Gives answers answered unpack submessage_descriptor 5 _ _ m calls c.wired (
        ap (λ (w : ℕ). word32 w)
          (parse_fixed_uint32-object32 (as_word32 v) m.input (as_word32-IsU32 v) c.holds))
  parse_value-encode fixed32 field v m calls s fits c =
      scalar-Gives answers answered unpack submessage_descriptor 5 _ _ m calls c.wired (
        ap (λ (w : ℕ). word32 w)
          (parse_fixed_uint32-object32 (as_word32 v) m.input (as_word32-IsU32 v) c.holds))
  parse_value-encode float field v m calls s fits c =
      scalar-Gives answers answered unpack submessage_descriptor 5 _ _ m calls c.wired (
        ap (λ (w : ℕ). word32 w)
          (parse_fixed_uint32-object32 (as_word32 v) m.input (as_word32-IsU32 v) c.holds))
  parse_value-encode sfixed64 field v m calls s fits c =
      scalar-Gives answers answered unpack submessage_descriptor 1 _ _ m calls c.wired (
        ap (λ (w : ℕ). word64 w)
          (parse_fixed_uint64-object64 (as_word64 v) m.input (as_word64-IsU64 v) c.holds))
  parse_value-encode fixed64 field v m calls s fits c =
      scalar-Gives answers answered unpack submessage_descriptor 1 _ _ m calls c.wired (
        ap (λ (w : ℕ). word64 w)
          (parse_fixed_uint64-object64 (as_word64 v) m.input (as_word64-IsU64 v) c.holds))
  parse_value-encode double field v m calls s fits c =
      scalar-Gives answers answered unpack submessage_descriptor 1 _ _ m calls c.wired (
        ap (λ (w : ℕ). word64 w)
          (parse_fixed_uint64-object64 (as_word64 v) m.input (as_word64-IsU64 v) c.holds))
  parse_value-encode bool field v m calls s fits c =
      ap (λ (b : ℕ). boolean b)
        (parse_boolean-byte (as_boolean v) m.input (u32 m.len) (omega (arith, c.len)) c.holds.0)
  parse_value-encode string field v m calls s fits c =
      parse_string-Gives answers answered unpack submessage_descriptor (pointee (as_string v)) m
        calls fits s c
  parse_value-encode bytes field v m calls s fits c =
      parse_bytes-Gives answers answered unpack submessage_descriptor (as_binary v) m calls fits c
  parse_value-encode message field v m calls s fits c =
      parse_submessage-Gives answers answered unpack submessage_descriptor sub P R reads field
        (as_submessage v) m calls s fits c

  -- A member that carries an encoded value, as the scan delivers it, is stored by
  -- `parse_required_member`, which returns 1: a scalar as much of it as its type holds, a string, the
  -- bytes of a `ProtobufCBinaryData` and a submessage in a new block. The encoding takes less than
  -- 2 ^ 32 bytes, the allocator does not return NULL, a string has no NUL inside, a pointer to a
  -- submessage is not NULL, and the submessages are read back.
  pub parse_required_member-encode :
      (field : FieldDescriptor) (v : Value X) (m : ScannedMember) (calls : ℕ)
      → Storable (P field) field.type v
      → IsU32 (length (encode_value sub field.type v))
      → Carries
          (encode_value sub field.type v)
          (prefix_len sub field.type v)
          (wire_type_of field.type)
          m
      → Gives
          (parse_required_member answers unpack submessage_descriptor field m calls)
          (Restored R field.type v)
  unfolding parse_required_member
  parse_required_member-encode field v m calls s fits c =
      parse_value-encode field.type field v m calls s fits c
