-- ===== src/Message/Pack.antt =====
-- `protobuf_c_message_pack` and its parts: src/google/protobuf-c/protobuf-c.c, "pack()". Each routine
-- writes at `out` in the memory and returns the bytes written. A `size_t` count of bytes in memory does
-- not wrap; what `repeated_field_pack` returns for a packed array is a sum in `unsigned`, which does. The machine is little-endian, and `assert` is off (`NDEBUG`).
pub mod Lengths
pub mod Values
pub mod Repeated
pub mod Writes
use protobuf_c.Base.{
  not, ℕ, zero, suc, ◌+◌, ◌-◌, ◌*◌, ◌≡◌, List, [], ◌∷◌, Bool, true, false, u8, u32, ◌==◌,
  if◌then◌else◌, length, bit_or, concat_map,
}
use protobuf_c.Memory.{Memory, Writer, store, memcpy, memmove}
use protobuf_c.Scalar.Size.{uint32_size}
use protobuf_c.Scalar.Pack.{
  uint32_pack, int32_pack, sint32_pack, uint64_pack, sint64_pack, fixed32_pack, fixed64_pack,
  boolean_pack, tag_pack, object32, object64,
}
use protobuf_c.Message.{
  Label, required, optional, repeated, FieldType, int32, sint32, sfixed32, int64, sint64, sfixed64,
  uint32, fixed32, uint64, fixed64, float, double, bool, enum, string, bytes, message,
  FieldDescriptor, Pointer, null, to, Value, Slot, UnknownField, MessageOf, Message, as_word32,
  as_word64, as_boolean, as_string, as_binary, as_submessage, member_of, has_of, elements_of,
  is_absent, WireType, wire_code, wire_type_of, length_prefixed,
}

-- `*at |= bits`
unfoldable pub or_byte : Memory → ℕ → ℕ → Memory
or_byte memory at bits = store memory at (u8 (bit_or (memory at) bits))

-- `f (…, out)` and then `g (…, out + rv)`, where `rv` is what `f` returned; the sum is returned.
infixl 5 ◌then_write◌
unfoldable pub ◌then_write◌ : Writer → Writer → Writer
(f then_write g) out memory =
    let (rv, memory) = f out memory in let (n, memory) = g (out + rv) memory in (rv + n, memory)

-- `rv = tag_pack (id, out); out[0] |= wire_type; return rv;`
unfoldable pub tag_and_type_pack : ℕ → WireType → Writer
tag_and_type_pack id wire_type out memory =
    let (rv, memory) = tag_pack id out memory in (rv, or_byte memory out (wire_code wire_type))

unfoldable pub binary_data_pack : List ℕ → Writer
binary_data_pack bd out memory =
    let (rv, memory) = uint32_pack (u32 (length bd)) out memory in
    (rv + length bd, memcpy memory (out + rv) bd)

unfoldable pub string_pack : Pointer (List ℕ) → Writer
string_pack null out memory = (1, store memory out 0)
string_pack (to address str) out memory =
    let len = length str in
    let (rv, memory) = uint32_pack (u32 len) out memory in (rv + len, memcpy memory (out + rv) str)

unfoldable pub unknown_field_pack : UnknownField → Writer
unknown_field_pack field out memory =
    let (rv, memory) = tag_and_type_pack field.tag field.wire_type out memory in
    (rv + length field.content, memcpy memory (out + rv) field.content)

-- `for (…) rv += pack (…, out + rv);` from a given `rv`.
unfoldable pub pack_loop : {A : Type 0} → (A → Writer) → ℕ → List A → Writer
pack_loop f rv [] out memory = (rv, memory)
pack_loop f rv (a ∷ rest) out memory =
    let (n, memory) = f a (out + rv) memory in pack_loop f (rv + n) rest out memory

abbrev pub get_type_min_size : FieldType → ℕ
get_type_min_size sfixed32 = 4
get_type_min_size fixed32 = 4
get_type_min_size float = 4
get_type_min_size sfixed64 = 8
get_type_min_size fixed64 = 8
get_type_min_size double = 8
get_type_min_size _ = 1

-- `length_size_min`, the room left for the length before the payload is written.
unfoldable pub length_size_min : FieldType → ℕ → ℕ
length_size_min type count = uint32_size (u32 (get_type_min_size type * count))

-- The end of the packed case: the payload is moved up where its length takes another size than the
-- room left for it, and the length is written at `len_start`. `header_len + payload_len` is `unsigned`.
unfoldable pub place_length : ℕ → ℕ → ℕ → Writer
place_length len_start size_min payload_len out memory =
    let header_len = len_start + size_min in
    let actual_length_size = uint32_size payload_len in
    let fits = size_min == actual_length_size in
    let memory =
      if fits
      then memory
      else memmove memory (out + header_len + 1) (out + header_len) payload_len in
    let header_len = if fits then header_len else header_len + 1 in
    let (_, memory) = uint32_pack payload_len (out + len_start) memory in
    (u32 (header_len + payload_len), memory)

-- `sub_pack` is the recursive call, `protobuf_c_message_pack`.
module _ {X : Type 0} (sub_pack : X → Writer) where
  -- The submessage is packed one byte in, and moved up if its length takes more than that byte.
  unfoldable pub prefixed_message_pack : Pointer X → Writer
  prefixed_message_pack null out memory = (1, store memory out 0)
  prefixed_message_pack (to address m) out memory =
      let (rv, memory) = sub_pack m (out + 1) memory in
      let rv_packed_size = uint32_size (u32 rv) in
      let memory =
        if rv_packed_size == 1
        then memory
        else memmove memory (out + rv_packed_size) (out + 1) rv in
      let (n, memory) = uint32_pack (u32 rv) out memory in (n + rv, memory)

  -- What the `switch` on the type writes behind the tag.
  unfoldable pub value_pack : FieldType → Value X → Writer
  value_pack sint32 member = sint32_pack (as_word32 member)
  value_pack int32 member = int32_pack (as_word32 member)
  value_pack uint32 member = uint32_pack (as_word32 member)
  value_pack enum member = uint32_pack (as_word32 member)
  value_pack sint64 member = sint64_pack (as_word64 member)
  value_pack int64 member = uint64_pack (as_word64 member)
  value_pack uint64 member = uint64_pack (as_word64 member)
  value_pack sfixed32 member = fixed32_pack (as_word32 member)
  value_pack fixed32 member = fixed32_pack (as_word32 member)
  value_pack float member = fixed32_pack (as_word32 member)
  value_pack sfixed64 member = fixed64_pack (as_word64 member)
  value_pack fixed64 member = fixed64_pack (as_word64 member)
  value_pack double member = fixed64_pack (as_word64 member)
  value_pack bool member = boolean_pack (as_boolean member)
  value_pack string member = string_pack (as_string member)
  value_pack bytes member = binary_data_pack (as_binary member)
  value_pack message member = prefixed_message_pack (as_submessage member)

  unfoldable pub required_field_pack : FieldDescriptor → Value X → Writer
  required_field_pack field member =
      tag_and_type_pack field.id (wire_type_of field.type) then_write value_pack field.type member

  unfoldable pub optional_field_pack : FieldDescriptor → ℕ → Value X → Writer
  optional_field_pack field has member out memory =
      if is_absent field has member
      then (0, memory)
      else required_field_pack field member out memory

  -- The `switch` of the packed case, at `payload_at`: the length of the payload and the memory. An
  -- array of a fixed width is copied whole. A type that is not packable reaches `assert (0)`.
  unfoldable pub payload_pack : FieldType → List (Value X) → Writer
  payload_pack sfixed32 members payload_at memory = (
    length members * 4,
    memcpy memory payload_at (concat_map (λ v. object32 (as_word32 v)) members),
  )
  payload_pack fixed32 members payload_at memory = (
    length members * 4,
    memcpy memory payload_at (concat_map (λ v. object32 (as_word32 v)) members),
  )
  payload_pack float members payload_at memory = (
    length members * 4,
    memcpy memory payload_at (concat_map (λ v. object32 (as_word32 v)) members),
  )
  payload_pack sfixed64 members payload_at memory = (
    length members * 8,
    memcpy memory payload_at (concat_map (λ v. object64 (as_word64 v)) members),
  )
  payload_pack fixed64 members payload_at memory = (
    length members * 8,
    memcpy memory payload_at (concat_map (λ v. object64 (as_word64 v)) members),
  )
  payload_pack double members payload_at memory = (
    length members * 8,
    memcpy memory payload_at (concat_map (λ v. object64 (as_word64 v)) members),
  )
  payload_pack string members payload_at memory = (0, memory)
  payload_pack bytes members payload_at memory = (0, memory)
  payload_pack message members payload_at memory = (0, memory)
  payload_pack type members payload_at memory =
      pack_loop (value_pack type) 0 members payload_at memory

  unfoldable pub packed_field_pack : FieldDescriptor → List (Value X) → Writer
  packed_field_pack field members out memory =
      let (len_start, memory) = tag_and_type_pack field.id length_prefixed out memory in
      let size_min = length_size_min field.type (length members) in
      let (payload_end, memory) =
        payload_pack field.type members (out + (len_start + size_min)) memory in
      place_length len_start size_min (u32 payload_end) out memory

  unfoldable pub repeated_field_pack : FieldDescriptor → List (Value X) → Writer
  repeated_field_pack field members out memory =
      if field.packed
      then (if length members == 0 then (0, memory) else packed_field_pack field members out memory)
      else pack_loop (required_field_pack field) 0 members out memory

  unfoldable pub field_pack : FieldDescriptor → Slot X → Writer
  field_pack field slot = elim field.label [
    | required ↦ required_field_pack field (member_of slot)
    | optional ↦ optional_field_pack field (has_of slot) (member_of slot)
    | repeated ↦ repeated_field_pack field (elements_of slot)
  ]

  -- `for (i = 0; i < n_fields; i++) rv += …;`
  unfoldable pub fields_pack : ℕ → List FieldDescriptor → List (Slot X) → Writer
  fields_pack rv [] slots out memory = (rv, memory)
  fields_pack rv (field ∷ fields) [] out memory = (rv, memory)
  fields_pack rv (field ∷ fields) (slot ∷ slots) out memory =
      let (n, memory) = field_pack field slot (out + rv) memory in
      fields_pack (rv + n) fields slots out memory

  unfoldable pub pack_body : MessageOf X → Writer
  pack_body msg out memory =
      let (rv, memory) = fields_pack 0 msg.descriptor.fields msg.slots out memory in
      pack_loop unknown_field_pack rv msg.unknown_fields out memory

unfoldable pub message_pack : (d : ℕ) → Message d → Writer
message_pack zero msg = absurd msg
message_pack (suc d) msg = pack_body (message_pack d) msg
