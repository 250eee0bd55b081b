-- ===== src/Message/Pack/Values.antt =====
-- What the tag and value routines of `Pack` write.
use protobuf_c.Base.{
  ℕ, ◌+◌, ◌*◌, ◌/◌, ◌%◌, ◌==◌, ◌≡◌, ◌<◌, ◌++◌, List, [], ◌∷◌, u8, u32, if◌then◌else◌, length,
  length-append, concat_map, All, IsU32, refl, arith, Bool-cases, ==_iff, inl, inr, bit_or,
}
use protobuf_c.Base.Bits.{bit_or_high}
use protobuf_c.Memory.{Memory, Writer, Writes, memcpy, memmove}
use protobuf_c.Memory.Laws.{memcpy-append, memcpy_first, store_first, memcpy_front, memmove_front}
use protobuf_c.Scalar.Size.{uint32_size}
use protobuf_c.Scalar.Base128.{groups, varint, varint_round, varint_end, length-groups}
use protobuf_c.Scalar.Length.{uint32_size-length}
use protobuf_c.Scalar.Pack.Writes.{
  uint32_pack-Writes, int32_pack-Writes, sint32_pack-Writes, uint64_pack-Writes, sint64_pack-Writes,
  fixed32_pack-Writes, fixed64_pack-Writes, boolean_pack-Writes, tag_pack-Writes,
}
use protobuf_c.Message.{
  FieldType, int32, sint32, sfixed32, int64, sint64, sfixed64, uint32, fixed32, uint64, fixed64,
  float, double, bool, enum, string, bytes, message, FieldDescriptor, Pointer, null, to, Value,
  UnknownField, as_word32, as_word64, as_word32-IsU32, as_word64-IsU64, as_boolean, as_string,
  as_binary, as_submessage, WireType, wire_code, wire_type_of, wire_code-lt,
}
use protobuf_c.Message.Encode.{
  key, prefixed, encode_unknown, encode_value, encode_required, pointee, encode_pointer,
}
use protobuf_c.Message.Valid.{AtPointer}
use protobuf_c.Message.Pack.{
  or_byte, ◌then_write◌, tag_and_type_pack, binary_data_pack, string_pack, unknown_field_pack,
  pack_loop, prefixed_message_pack, value_pack, required_field_pack,
}
use native.Mathlib.Decide.{dec_lt}

-- The wire type only changes the first byte of the tag.
varint_tag :
    (id c : ℕ)
    → c < 8
    → (b : ℕ) × (bs : List ℕ) × (varint (id * 8) ≡ b ∷ bs)
      × (varint (id * 8 + c) ≡ u8 (bit_or b c) ∷ bs)
unfolding varint
varint_tag id c h = elim (dec_lt (id * 8) 128) [
  | yes small ↦ (
    id * 8,
    [],
    varint_end 9 (id * 8) small,
    ground (arith, varint_end 9 (id * 8 + c), bit_or_high 3 id c),
  )
  | no large ↦ (
    id * 8 % 128 + 128,
    groups 8 (id * 8 / 128),
    varint_round 8 (id * 8) (omega arith),
    ground (arith, varint_round 8 (id * 8 + c), bit_or_high 3 (id % 16 + 16) c),
  )
]

pub tag_and_type_pack-Writes :
    (id : ℕ) (w : WireType) → IsU32 id → Writes (tag_and_type_pack id w) (key id w)
tag_and_type_pack-Writes id w h out memory =
    let (b, bs, plain, tagged) = varint_tag id (wire_code w) (wire_code-lt w) in
    unfold tag_and_type_pack or_byte in
    ground (
      arith,
      tag_pack-Writes id h out memory,
      plain,
      tagged,
      memcpy_first memory out b bs,
      store_first memory out b (u8 (bit_or b (wire_code w))) bs,
    )

pub Writes-then :
    {f g : Writer} (xs ys : List ℕ) → Writes f xs → Writes g ys → Writes (f then_write g) (xs ++ ys)
unfolding ◌then_write◌
Writes-then xs ys hf hg out memory = rw (
  hf out memory,
  hg (out + length xs) (memcpy memory out xs),
  memcpy-append memory out xs ys,
  length-append xs ys,
)

-- A length and a block copied behind it.
prefix_then_copy :
    (bs : List ℕ) (out : ℕ) (memory : Memory)
    → binary_data_pack bs out memory ≡ (length (prefixed bs), memcpy memory out (prefixed bs))
unfolding binary_data_pack
prefix_then_copy bs out memory = rw (
  uint32_pack-Writes (u32 (length bs)) (omega arith) out memory,
  memcpy-append memory out (varint (u32 (length bs))) bs,
  length-append (varint (u32 (length bs))) bs,
)

string_pack-Writes : (p : Pointer (List ℕ)) → Writes (string_pack p) (prefixed (pointee p))
string_pack-Writes null out memory = unfold string_pack memcpy varint groups in refl
string_pack-Writes (to a str) out memory =
    unfold string_pack in (unfold binary_data_pack in prefix_then_copy str out memory)

pub unknown_field_pack-Writes :
    (field : UnknownField)
    → IsU32 field.tag
    → Writes (unknown_field_pack field) (encode_unknown field)
unfolding unknown_field_pack encode_unknown
unknown_field_pack-Writes field h out memory = rw (
  tag_and_type_pack-Writes field.tag field.wire_type h out memory,
  memcpy-append memory out (key field.tag field.wire_type) field.content,
  length-append (key field.tag field.wire_type) field.content,
)

-- A loop writes the concatenation of what its rounds write.
pub pack_loop-Writes :
    {A : Type 0} (f : A → Writer) (g : A → List ℕ) (members : List A) (rv out : ℕ) (memory : Memory)
    → All (λ a. Writes (f a) (g a)) members
    → pack_loop f rv members out memory
      ≡ (rv + length (concat_map g members), memcpy memory (out + rv) (concat_map g members))
unfolding pack_loop
pack_loop-Writes f g [] rv out memory h = unfold memcpy in ground arith
pack_loop-Writes f g (a ∷ rest) rv out memory (ha, hs) = ground (
  arith,
  ha (out + rv) memory,
  pack_loop-Writes f g rest (rv + length (g a)) out (memcpy memory (out + rv) (g a)) hs,
  memcpy-append memory (out + rv) (g a) (concat_map g rest),
  length-append (g a) (concat_map g rest),
)

-- A block written one byte in, moved up if its length takes more than a byte, and its length.
prefix_front :
    (bs : List ℕ) (out : ℕ) (memory : Memory)
    → let size = uint32_size (u32 (length bs)) in
      let block = memcpy memory (out + 1) bs in
      memcpy
        (if size == 1 then block else memmove block (out + size) (out + 1) (length bs))
        out
        (varint (u32 (length bs)))
      ≡ memcpy memory out (prefixed bs)
unfolding varint
prefix_front bs out memory =
    let V : List ℕ = varint (u32 (length bs)) in
    rw (uint32_size-length (u32 (length bs)) (omega arith)) (elim (Bool-cases (length V == 1)) [
      | inl one ↦ rw (one, ← memcpy_front memory out V bs, (==_iff (length V) 1).0 one)
      | inr more ↦
          rw more
            (memmove_front memory out 1 V bs (omega (arith, length-groups 9 (u32 (length bs)))))
    ])

module _ {X : Type 0} (sub_pack : X → Writer) (sub : X → List ℕ) where
  -- The recursive call writes the encoding of `x`.
  abbrev pub IsPacked : X → Type 0
  IsPacked x = Writes (sub_pack x) (sub x)

  prefixed_message_pack-Writes :
      (p : Pointer X)
      → AtPointer IsPacked p
      → Writes (prefixed_message_pack sub_pack p) (prefixed (encode_pointer sub p))
  prefixed_message_pack-Writes null h out memory =
      unfold prefixed_message_pack memcpy varint groups in refl
  prefixed_message_pack-Writes (to a x) h out memory =
      unfold prefixed_message_pack in
      rw (
        h (out + 1) memory,
        uint32_pack-Writes (u32 (length (sub x))) (omega arith),
        prefix_front (sub x) out memory,
        length-append (varint (u32 (length (sub x)))) (sub x),
      )

  pub value_pack-Writes :
      (type : FieldType) (v : Value X)
      → AtPointer IsPacked (as_submessage v)
      → Writes (value_pack sub_pack type v) (encode_value sub type v)
  unfolding value_pack encode_value
  value_pack-Writes int32 v h = int32_pack-Writes (as_word32 v) (as_word32-IsU32 v)
  value_pack-Writes sint32 v h = sint32_pack-Writes (as_word32 v)
  value_pack-Writes uint32 v h = uint32_pack-Writes (as_word32 v) (as_word32-IsU32 v)
  value_pack-Writes enum v h = uint32_pack-Writes (as_word32 v) (as_word32-IsU32 v)
  value_pack-Writes int64 v h = uint64_pack-Writes (as_word64 v) (as_word64-IsU64 v)
  value_pack-Writes sint64 v h = sint64_pack-Writes (as_word64 v)
  value_pack-Writes uint64 v h = uint64_pack-Writes (as_word64 v) (as_word64-IsU64 v)
  value_pack-Writes sfixed32 v h = fixed32_pack-Writes (as_word32 v)
  value_pack-Writes fixed32 v h = fixed32_pack-Writes (as_word32 v)
  value_pack-Writes float v h = fixed32_pack-Writes (as_word32 v)
  value_pack-Writes sfixed64 v h = fixed64_pack-Writes (as_word64 v)
  value_pack-Writes fixed64 v h = fixed64_pack-Writes (as_word64 v)
  value_pack-Writes double v h = fixed64_pack-Writes (as_word64 v)
  value_pack-Writes bool v h = boolean_pack-Writes (as_boolean v)
  value_pack-Writes string v h = string_pack-Writes (as_string v)
  value_pack-Writes bytes v h = prefix_then_copy (as_binary v)
  value_pack-Writes message v h = prefixed_message_pack-Writes (as_submessage v) h

  pub required_field_pack-Writes :
      (field : FieldDescriptor) (v : Value X)
      → IsU32 field.id
      → AtPointer IsPacked (as_submessage v)
      → Writes (required_field_pack sub_pack field v) (encode_required sub field v)
  unfolding required_field_pack encode_required
  required_field_pack-Writes field v hid h =
      Writes-then _ _ (tag_and_type_pack-Writes field.id (wire_type_of field.type) hid)
        (value_pack-Writes field.type v h)
