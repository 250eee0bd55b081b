-- ===== src/Message.antt =====
-- Descriptors and messages: src/google/protobuf-c/protobuf-c.h.
-- A message struct is its descriptor, a slot for each field of the descriptor (the member at
-- `offset` and, where there is one, the quantifier at `quantifier_offset`) and the unknown fields.
-- `Message d` is a message whose submessages nest less than `d` deep.
pub mod PackedSize
pub mod Encode
pub mod Valid
pub mod Wire
pub mod EncodeLaws
pub mod SizeLaws
pub mod Pack
pub mod ToBuffer
pub mod Init
use protobuf_c.Base.{
  ◌<◌, IsU32, IsU64, arith, ℕ, zero, suc, List, [], Bool, true, false, u32, u64, ◌==◌,
  if◌then◌else◌,
}

-- `ProtobufCLabel`
pub data Label : Type 0 where
  required optional repeated : Label

-- `ProtobufCType`
pub data FieldType : Type 0 where
  int32 sint32 sfixed32 int64 sint64 sfixed64 uint32 fixed32 uint64 fixed64 : FieldType
  float double bool enum string bytes message : FieldType

-- `ProtobufCWireType`
pub data WireType : Type 0 where
  varint bits64 length_prefixed start_group end_group bits32 : WireType

-- `ProtobufCFieldDescriptor`. Names are bytes; `default_value` is an address, 0 for NULL.
pub record FieldDescriptor : Type 0 where
  pub name : List ℕ
  pub id : ℕ
  pub label : Label
  pub type : FieldType
  pub default_value : ℕ
  pub packed : Bool

-- `ProtobufCIntRange`: the values from `start_value` on, as many as there are up to the `orig_index`
-- of the next element.
pub record IntRange : Type 0 where
  pub start_value : ℕ
  pub orig_index : ℕ

-- `ProtobufCMessageDescriptor`, as far as packing, unpacking and the lookups read it; `n_fields` is
-- the length of `fields`.
pub record MessageDescriptor : Type 0 where
  pub fields : List FieldDescriptor
  pub fields_sorted_by_name : List ℕ
  pub n_field_ranges : ℕ
  pub field_ranges : List IntRange

-- A pointer that may be NULL: its address and what it points at.
pub data Pointer (A : Type 0) : Type 0 where
  null : Pointer A
  to : ℕ → A → Pointer A

-- What a struct member or an array element holds; `string` holds the bytes before the NUL, `binary`
-- is a `ProtobufCBinaryData`, and `X` is the type of submessages.
pub data Value (X : Type 0) : Type 0 where
  word32 : ℕ → Value X
  word64 : ℕ → Value X
  boolean : ℕ → Value X
  chars : Pointer (List ℕ) → Value X
  binary : ℕ → List ℕ → Value X
  submessage : Pointer X → Value X

-- A single member with its `has_` flag, or an array; the quantifier of an array is its length.
pub data Slot (X : Type 0) : Type 0 where
  single : ℕ → Value X → Slot X
  array : List (Value X) → Slot X

-- `ProtobufCMessageUnknownField`
pub record UnknownField : Type 0 where
  pub tag : ℕ
  pub wire_type : WireType
  pub content : List ℕ

pub record MessageOf (X : Type 0) : Type 0 where
  pub descriptor : MessageDescriptor
  pub slots : List (Slot X)
  pub unknown_fields : List UnknownField

abbrev pub Message : ℕ → Type 0
Message zero = ⊥
Message (suc d) = MessageOf (Message d)

-- A read through a cast pointer. Generated code keeps each member's type in its descriptor, so the
-- last clause of each is not reached.
module _ {X : Type 0} where
  abbrev pub as_word32 : Value X → ℕ
  as_word32 (word32 w) = u32 w
  as_word32 _ = 0

  abbrev pub as_word64 : Value X → ℕ
  as_word64 (word64 w) = u64 w
  as_word64 _ = 0

  abbrev pub as_boolean : Value X → ℕ
  as_boolean (boolean b) = b
  as_boolean _ = 0

  abbrev pub as_string : Value X → Pointer (List ℕ)
  as_string (chars p) = p
  as_string _ = null

  abbrev pub as_binary : Value X → List ℕ
  as_binary (binary at bs) = bs
  as_binary _ = []

  abbrev pub as_submessage : Value X → Pointer X
  as_submessage (submessage p) = p
  as_submessage _ = null

  abbrev pub member_of : Slot X → Value X
  member_of (single has v) = v
  member_of (array vs) = word32 0

  abbrev pub has_of : Slot X → ℕ
  has_of (single has v) = has
  has_of (array vs) = 0

  abbrev pub elements_of : Slot X → List (Value X)
  elements_of (single has v) = []
  elements_of (array vs) = vs

-- The value of `PROTOBUF_C_WIRE_TYPE_…`.
abbrev pub wire_code : WireType → ℕ
wire_code varint = 0
wire_code bits64 = 1
wire_code length_prefixed = 2
wire_code start_group = 3
wire_code end_group = 4
wire_code bits32 = 5

-- The wire type that the `switch` of `required_field_pack` sets for each type.
abbrev pub wire_type_of : FieldType → WireType
wire_type_of int32 = varint
wire_type_of sint32 = varint
wire_type_of uint32 = varint
wire_type_of enum = varint
wire_type_of int64 = varint
wire_type_of sint64 = varint
wire_type_of uint64 = varint
wire_type_of bool = varint
wire_type_of sfixed32 = bits32
wire_type_of fixed32 = bits32
wire_type_of float = bits32
wire_type_of sfixed64 = bits64
wire_type_of fixed64 = bits64
wire_type_of double = bits64
wire_type_of string = length_prefixed
wire_type_of bytes = length_prefixed
wire_type_of message = length_prefixed

-- `field->type == PROTOBUF_C_TYPE_MESSAGE || field->type == PROTOBUF_C_TYPE_STRING`
abbrev pub is_pointer_type : FieldType → Bool
is_pointer_type string = true
is_pointer_type message = true
is_pointer_type _ = false

abbrev pub is_packable_type : FieldType → Bool
is_packable_type string = false
is_packable_type bytes = false
is_packable_type message = false
is_packable_type _ = true

-- `ptr == NULL || ptr == field->default_value`, or `!*has` where the member is no pointer.
abbrev pub is_unset : {A : Type 0} → Pointer A → ℕ → Bool
is_unset null default = true
is_unset (to address a) default = address == default

module _ {X : Type 0} where
  abbrev pub is_absent : FieldDescriptor → ℕ → Value X → Bool
  is_absent field has (chars p) =
      if is_pointer_type field.type then is_unset p field.default_value else has == 0
  is_absent field has (submessage p) =
      if is_pointer_type field.type then is_unset p field.default_value else has == 0
  is_absent field has v = if is_pointer_type field.type then true else has == 0

module _ {X : Type 0} where
  pub as_word32-IsU32 : (v : Value X) → IsU32 (as_word32 v)
  as_word32-IsU32 (word32 w) = omega arith
  as_word32-IsU32 _ = omega arith

  pub as_word64-IsU64 : (v : Value X) → IsU64 (as_word64 v)
  as_word64-IsU64 (word64 w) = omega arith
  as_word64-IsU64 _ = omega arith

pub wire_code-lt : (w : WireType) → wire_code w < 8
wire_code-lt varint = omega arith
wire_code-lt _ = omega arith
