-- ===== src/Examples/Messages.antt =====
-- A message with a number, a string, a submessage, a packed array and an unknown field.
use protobuf_c.Base.{
  ◌-◌, ℕ, ◌+◌, ◌^◌, ◌≡◌, ◌⊎◌, ◌<◌, List, [], ◌∷◌, ◌++◌, true, false, length, concat_map, arith,
  refl,
}
use protobuf_c.Memory.{Memory, Writes, memcpy}
use protobuf_c.Scalar.Size.{uint32_size}
use protobuf_c.Scalar.Base128.{varint, groups}
use protobuf_c.Message.{
  required, optional, repeated, int32, uint32, string, message, FieldDescriptor, to, Value, word32,
  chars, submessage, single, array, UnknownField, Message, WireType,
}
use protobuf_c.Message.Encode.{encode, encode_repeated, encode_value}
use protobuf_c.Message.Wire.{wire, IsStandard, message_pack-wire}
use protobuf_c.Message.Valid.{IsValidField, IsValid}
use protobuf_c.Message.Pack.{message_pack, length_size_min}
use protobuf_c.Message.Pack.Lengths.{length_size_min-payload}
use protobuf_c.Message.ToBuffer.{Buffer}
use protobuf_c.Message.Pack.Writes.{message_pack-Writes}

abbrev field_a : FieldDescriptor
field_a = record {
  name = b'a' ∷ [];
  id = 1;
  label = required;
  type = int32;
  default_value = 0;
  packed = false;
}

abbrev field_b : FieldDescriptor
field_b = record {
  name = b'b' ∷ [];
  id = 2;
  label = optional;
  type = string;
  default_value = 0;
  packed = false;
}

abbrev field_c : FieldDescriptor
field_c = record {
  name = b'c' ∷ [];
  id = 3;
  label = required;
  type = message;
  default_value = 0;
  packed = false;
}

abbrev field_d : FieldDescriptor
field_d = record {
  name = b'd' ∷ [];
  id = 4;
  label = repeated;
  type = uint32;
  default_value = 0;
  packed = true;
}

abbrev inner : Message 1
inner = record {
  descriptor = record {
    fields = field_a ∷ [];
    fields_sorted_by_name = 0 ∷ [];
    n_field_ranges = 1;
    field_ranges =
        record { start_value = 1; orig_index = 0 }
        ∷ record { start_value = 0; orig_index = 1 }
        ∷ [];
  };
  slots = single 0 (word32 150) ∷ [];
  unknown_fields = [];
}

abbrev unknown : UnknownField
unknown = record { tag = 100; wire_type = WireType.varint; content = 5 ∷ [] }

abbrev pub outer : Message 2
outer = record {
  descriptor = record {
    fields = field_a ∷ field_b ∷ field_c ∷ field_d ∷ [];
    fields_sorted_by_name = 0 ∷ 1 ∷ 2 ∷ 3 ∷ [];
    n_field_ranges = 1;
    field_ranges =
        record { start_value = 1; orig_index = 0 }
        ∷ record { start_value = 0; orig_index = 4 }
        ∷ [];
  };
  slots =
      single 0 (word32 (2 ^ 32 - 1))
      ∷ single 0 (chars (to 1000 (b'h' ∷ b'i' ∷ [])))
      ∷ single 0 (submessage (to 2000 inner))
      ∷ array (word32 3 ∷ word32 270 ∷ word32 86942 ∷ [])
      ∷ [];
  unknown_fields = unknown ∷ [];
}

-- The documented bytes: -1 as ten bytes, the string, the submessage 08 96 01, the packed array
-- 03 8e 02 9e a7 05.
abbrev outer_bytes : List ℕ
outer_bytes =
    0x08 ∷ 0xff ∷ 0xff ∷ 0xff ∷ 0xff ∷ 0xff ∷ 0xff ∷ 0xff ∷ 0xff ∷ 0xff ∷ 0x01 ∷ 0x12 ∷ 0x02 ∷ b'h'
    ∷ b'i' ∷ 0x1a ∷ 0x03 ∷ 0x08 ∷ 0x96 ∷ 0x01 ∷ 0x22 ∷ 0x06 ∷ 0x03 ∷ 0x8e ∷ 0x02 ∷ 0x9e ∷ 0xa7
    ∷ 0x05 ∷ 0xa0 ∷ 0x06 ∷ 0x05 ∷ []

plain :
    {X : Type 0} (sub : X → List ℕ) (field : FieldDescriptor) (v : Value X)
    → field.id < 5
    → field.packed ≡ false
    → IsValidField sub field (single 0 v)
unfolding encode_repeated
plain sub field v h p = record {
  id_fits = omega arith;
  packable = λ q. cc;
  count_fits = omega arith;
  elements_fit = rw p (omega arith);
}

inner-IsValid : IsValid 1 inner
inner-IsValid = (((plain (encode 0) field_a (word32 150) (omega arith) refl, (tt, tt)), tt), tt)

ints-IsValid : IsValidField (encode 1) field_d (array (word32 3 ∷ word32 270 ∷ word32 86942 ∷ []))
unfolding encode_repeated encode_value varint
ints-IsValid = record {
  id_fits = omega arith;
  packable = λ q. refl;
  count_fits = omega arith;
  elements_fit = omega arith;
}

outer-IsValid : IsValid 2 outer
outer-IsValid = (
  (
    (plain (encode 1) field_a (word32 (2 ^ 32 - 1)) (omega arith) refl, (tt, tt)),
    (
      (plain (encode 1) field_b (chars (to 1000 (b'h' ∷ b'i' ∷ []))) (omega arith) refl, (tt, tt)),
      (
        (
          plain (encode 1) field_c (submessage (to 2000 inner)) (omega arith) refl,
          (inner-IsValid, tt),
        ),
        ((ints-IsValid, (tt, (tt, (tt, (tt, tt))))), tt),
      ),
    ),
  ),
  (omega arith, tt),
)

blank : Memory
blank i = 0

message_pack-Writes_example :
    message_pack 2 outer 100 blank ≡ (length (encode 2 outer), memcpy blank 100 (encode 2 outer))
message_pack-Writes_example = message_pack-Writes 2 outer outer-IsValid 100 blank

length_size_min-payload_example :
    let actual =
      uint32_size (length (concat_map (encode_value (encode 1) uint32) (word32 300 ∷ []))) in
    (actual ≡ length_size_min uint32 1) ⊎ (actual ≡ length_size_min uint32 1 + 1)
length_size_min-payload_example =
    length_size_min-payload (encode 1) uint32 (word32 300 ∷ []) refl
      (unfold encode_value varint groups in omega arith)

-- A buffer that is its contents.
abbrev list_buffer : Buffer
list_buffer = record {
  State = List ℕ;
  append = λ s bs. s ++ bs;
  contents = λ s. s;
  contents-append = λ s bs. refl;
}

outer-IsStandard : IsStandard 2 outer
unfolding encode_value varint groups
outer-IsStandard = (
  ((tt, tt, omega arith), (tt, tt)),
  (
    ((omega arith, tt, omega arith), (tt, tt)),
    (
      ((omega arith, tt, omega arith), ((((tt, tt, omega arith), (tt, tt)), tt), tt)),
      (((tt, (tt, (tt, (tt, tt))), omega arith), (tt, (tt, (tt, (tt, tt))))), tt),
    ),
  ),
)

message_pack-wire_example : Writes (message_pack 2 outer) (wire 2 outer)
message_pack-wire_example = message_pack-wire 2 outer outer-IsValid outer-IsStandard
