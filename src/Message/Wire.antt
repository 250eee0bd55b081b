-- ===== src/Message/Wire.antt =====
-- The wire format of protobuf, and the messages on which the encoding of the program is the same.
use protobuf_c.Base.{
  ℕ, zero, suc, ◌^◌, ◌<◌, ◌≡◌, refl, ap, ◌∙◌, arith, List, [], ◌∷◌, ◌++◌, if◌then◌else◌, length,
  concat_map, All, IsU32,
}
use mathlib.Core.Path.{subst, ap₂}
use protobuf_c.Memory.{Writes}
use protobuf_c.Scalar.Base128.{varint, sign_extend}
use protobuf_c.Message.{
  Label, required, optional, repeated, FieldType, enum, string, bytes, message, FieldDescriptor,
  Pointer, null, to, Value, Slot, Message, as_word32, as_string, as_binary, as_submessage,
  member_of, has_of, elements_of, is_absent, wire_type_of, length_prefixed,
}
use protobuf_c.Message.Encode.{
  key, prefixed, pointee, encode_unknown, encode_pointer, encode_value, encode_required,
  encode_optional, encode_packed, encode_repeated, encode_field, encode_fields, encode_body, encode,
}
use protobuf_c.Message.Valid.{AtPointer, InSlot, InSlot-map, AllFields, AllFields-map, IsValid}
use protobuf_c.Message.Pack.{message_pack}
use protobuf_c.Message.Pack.Writes.{message_pack-Writes}

-- A length of any size, and as many bytes.
abbrev wire_prefixed : List ℕ → List ℕ
wire_prefixed bs = varint (length bs) ++ bs

module _ {X : Type 0} (sub : X → List ℕ) where
  -- An enum is sign-extended to 64 bits, as an int32 is.
  abbrev wire_value : FieldType → Value X → List ℕ
  wire_value enum v = varint (sign_extend (as_word32 v))
  wire_value string v = wire_prefixed (pointee (as_string v))
  wire_value bytes v = wire_prefixed (as_binary v)
  wire_value message v = wire_prefixed (encode_pointer sub (as_submessage v))
  wire_value type v = encode_value sub type v

  abbrev wire_required : FieldDescriptor → Value X → List ℕ
  wire_required field v = key field.id (wire_type_of field.type) ++ wire_value field.type v

  abbrev wire_packed : FieldDescriptor → List (Value X) → List ℕ
  wire_packed field [] = []
  wire_packed field (v ∷ vs) =
      key field.id length_prefixed ++ wire_prefixed (concat_map (wire_value field.type) (v ∷ vs))

  abbrev wire_by : Label → FieldDescriptor → Slot X → List ℕ
  wire_by required field slot = wire_required field (member_of slot)
  wire_by optional field slot =
      if is_absent field (has_of slot) (member_of slot)
      then []
      else wire_required field (member_of slot)
  wire_by repeated field slot =
      if field.packed
      then wire_packed field (elements_of slot)
      else concat_map (wire_required field) (elements_of slot)

  abbrev wire_fields : List FieldDescriptor → List (Slot X) → List ℕ
  wire_fields [] slots = []
  wire_fields (field ∷ fields) [] = []
  wire_fields (field ∷ fields) (slot ∷ slots) =
      wire_by field.label field slot ++ wire_fields fields slots

  -- What the program encodes as the wire format does: enums that are not negative, and lengths of 32
  -- bits.
  abbrev IsStandardValue : FieldType → Value X → Type 0
  IsStandardValue enum v = as_word32 v < 2 ^ 31
  IsStandardValue string v = IsU32 (length (pointee (as_string v)))
  IsStandardValue bytes v = IsU32 (length (as_binary v))
  IsStandardValue message v = IsU32 (length (encode_pointer sub (as_submessage v)))
  IsStandardValue type v = Unit {0}

  abbrev IsStandardField : FieldDescriptor → Slot X → Type 0
  IsStandardField field slot =
      IsStandardValue field.type (member_of slot)
      × All (IsStandardValue field.type) (elements_of slot)
      × IsU32 (length (concat_map (wire_value field.type) (elements_of slot)))

abbrev pub wire : (d : ℕ) → Message d → List ℕ
wire zero msg = absurd msg
wire (suc d) msg =
    wire_fields (wire d) msg.descriptor.fields msg.slots
    ++ concat_map encode_unknown msg.unknown_fields

abbrev pub IsStandard : (d : ℕ) → Message d → Type 0
IsStandard zero msg = ⊥
IsStandard (suc d) msg =
    AllFields (λ field slot. IsStandardField (wire d) field slot × InSlot (IsStandard d) slot)
      msg.descriptor.fields msg.slots

module _ {X : Type 0} (sub wired : X → List ℕ) where
  abbrev IsWired : X → Type 0
  IsWired x = sub x ≡ wired x

  pointer-wire :
      (p : Pointer X) → AtPointer IsWired p → encode_pointer sub p ≡ encode_pointer wired p
  pointer-wire null h = refl
  pointer-wire (to a x) h = h

  prefixed-wire : (bs : List ℕ) → IsU32 (length bs) → prefixed bs ≡ wire_prefixed bs
  prefixed-wire bs fits = ap (λ (n : ℕ). varint n ++ bs) (omega (arith, fits))

  value-wire :
      (type : FieldType) (v : Value X)
      → IsStandardValue wired type v
      → AtPointer IsWired (as_submessage v)
      → encode_value sub type v ≡ wire_value wired type v
  unfolding encode_value
  value-wire enum v h p = ap (λ (n : ℕ). varint n) (ground (arith, h))
  value-wire string v h p = prefixed-wire (pointee (as_string v)) h
  value-wire bytes v h p = prefixed-wire (as_binary v) h
  value-wire message v h p =
      ap prefixed (pointer-wire (as_submessage v) p)
      ∙ prefixed-wire (encode_pointer wired (as_submessage v)) h
  value-wire type v h p = refl

  required-wire :
      (field : FieldDescriptor) (v : Value X)
      → IsStandardValue wired field.type v
      → AtPointer IsWired (as_submessage v)
      → encode_required sub field v ≡ wire_required wired field v
  unfolding encode_required
  required-wire field v h p =
      ap (λ (bs : List ℕ). key field.id (wire_type_of field.type) ++ bs)
        (value-wire field.type v h p)

  concat-wire :
      (type : FieldType) (f g : Value X → List ℕ) (vs : List (Value X))
      → ((v : Value X)
          → IsStandardValue wired type v
          → AtPointer IsWired (as_submessage v)
          → f v ≡ g v)
      → All (IsStandardValue wired type) vs
      → All (λ v. AtPointer IsWired (as_submessage v)) vs
      → concat_map f vs ≡ concat_map g vs
  concat-wire type f g [] same h p = refl
  concat-wire type f g (v ∷ vs) same (h, hs) (p, ps) =
      ap₂ ◌++◌ (same v h p) (concat-wire type f g vs same hs ps)

  packed-wire :
      (field : FieldDescriptor) (vs : List (Value X))
      → All (IsStandardValue wired field.type) vs
      → IsU32 (length (concat_map (wire_value wired field.type) vs))
      → All (λ v. AtPointer IsWired (as_submessage v)) vs
      → encode_packed sub field vs ≡ wire_packed wired field vs
  packed-wire field [] h fits p = refl
  packed-wire field (v ∷ vs) h fits p =
      ap (λ (bs : List ℕ). key field.id length_prefixed ++ bs)
        (ap prefixed (
            concat-wire field.type (encode_value sub field.type) (wire_value wired field.type)
              (v ∷ vs) (value-wire field.type) h p)
          ∙ prefixed-wire (concat_map (wire_value wired field.type) (v ∷ vs)) fits)

  field-wire :
      (field : FieldDescriptor) (slot : Slot X)
      → IsStandardField wired field slot
      → InSlot IsWired slot
      → encode_field sub field slot ≡ wire_by wired field.label field slot
  unfolding encode_field encode_optional encode_repeated
  field-wire field slot (one, all, fits) (p, ps) = ground (
    arith,
    required-wire field (member_of slot) one p,
    packed-wire field (elements_of slot) all fits ps,
    concat-wire field.type (encode_required sub field) (wire_required wired field)
        (elements_of slot) (required-wire field) all ps,
  )

  fields-wire :
      (fields : List FieldDescriptor) (slots : List (Slot X))
      → AllFields
          (λ field slot. IsStandardField wired field slot × InSlot IsWired slot)
          fields
          slots
      → encode_fields sub fields slots ≡ wire_fields wired fields slots
  unfolding encode_fields
  fields-wire [] slots h = refl
  fields-wire (field ∷ fields) [] h = refl
  fields-wire (field ∷ fields) (slot ∷ slots) ((h, p), rest) =
      ap₂ ◌++◌ (field-wire field slot h p) (fields-wire fields slots rest)

encode-wire : (d : ℕ) (msg : Message d) → IsStandard d msg → encode d msg ≡ wire d msg
unfolding encode encode_body
encode-wire zero msg h = absurd h
encode-wire (suc d) msg h =
    ap (λ (bs : List ℕ). bs ++ concat_map encode_unknown msg.unknown_fields)
      (fields-wire (encode d) (wire d) msg.descriptor.fields msg.slots (
        AllFields-map (λ field slot k. (k.0, InSlot-map (encode-wire d) slot k.1))
          msg.descriptor.fields msg.slots h))

-- On a valid message without negative enums and with lengths of 32 bits, `protobuf_c_message_pack`
-- writes the wire format of protobuf, in which an enum is sign-extended to 64 bits and a length has any
-- size, returns its length, and leaves every other byte of the memory as it was.
pub message_pack-wire :
    (d : ℕ) (msg : Message d)
    → IsValid d msg
    → IsStandard d msg
    → Writes (message_pack d msg) (wire d msg)
message_pack-wire d msg valid standard =
    subst (λ bs. Writes (message_pack d msg) bs) (encode-wire d msg standard)
      (message_pack-Writes d msg valid)
