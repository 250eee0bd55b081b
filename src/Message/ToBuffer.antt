-- ===== src/Message/ToBuffer.antt =====
-- `protobuf_c_message_pack_to_buffer` and its parts: src/google/protobuf-c/protobuf-c.c,
-- "pack_to_buffer()". A `ProtobufCBuffer` is its virtual `append` on a state. A header is packed in
-- a local array, memory at address 0, and appended.
pub mod Laws
pub mod Appends
pub mod Whole
use protobuf_c.Base.{
  ℕ, zero, suc, ◌+◌, ◌*◌, ◌≡◌, List, [], ◌∷◌, ◌++◌, Bool, true, false, u32, ◌==◌, if◌then◌else◌,
  length, take, concat_map,
}
use protobuf_c.Memory.{Memory, Writer}
use protobuf_c.Scalar.Size.{int32_size, sint32_size, uint32_size, sint64_size, uint64_size}
use protobuf_c.Scalar.Pack.{uint32_pack, object32, object64}
use protobuf_c.Message.{
  Label, required, optional, repeated, FieldType, int32, sint32, sfixed32, int64, sint64, sfixed64,
  uint32, fixed32, uint64, fixed64, float, double, bool, enum, string, bytes, message,
  FieldDescriptor, Pointer, null, to, Value, Slot, UnknownField, MessageOf, Message, as_word32,
  as_word64, as_string, as_binary, as_submessage, member_of, has_of, elements_of, is_absent,
  wire_type_of, length_prefixed,
}
use protobuf_c.Message.PackedSize.{string_length}
use protobuf_c.Message.Pack.{message_pack, ◌then_write◌, tag_and_type_pack, value_pack}

-- A buffer whose `append` does not fail: its states, `append`, and what has been appended to it so far.
pub record Buffer : Type 1 where
  pub State : Type 0
  pub append : State → List ℕ → State
  pub contents : State → List ℕ
  pub contents-append : (s : State) (bs : List ℕ) → contents (append s bs) ≡ contents s ++ bs

-- The first `n` bytes at an address.
unfoldable pub read : Memory → ℕ → ℕ → List ℕ
read memory at zero = []
read memory at (suc n) = memory at ∷ read memory (at + 1) n

-- A local array before anything is written to it. Its bytes do not matter.
abbrev pub uninitialized : Memory
uninitialized i = 0

-- `rv = pack (…, scratch); buffer->append (buffer, rv, scratch);`
unfoldable pub append_packed : (buffer : Buffer) → Writer → buffer.State → ℕ × buffer.State
append_packed buffer pack s =
    let (rv, scratch) = pack 0 uninitialized in (rv, buffer.append s (read scratch 0 rv))

-- A header, and then a block of bytes: both are appended, and counted.
unfoldable pub append_header : (buffer : Buffer) → Writer → List ℕ → buffer.State → ℕ × buffer.State
append_header buffer header block s =
    let (rv, s) = append_packed buffer header s in (rv + length block, buffer.append s block)

unfoldable pub unknown_field_pack_to_buffer :
    (buffer : Buffer) → UnknownField → buffer.State → ℕ × buffer.State
unknown_field_pack_to_buffer buffer field =
    append_header buffer (tag_and_type_pack field.tag field.wire_type) field.content

-- `for (…) rv += …;`, each round on the state that the last one left.
unfoldable pub buffer_loop : {A S : Type 0} → (A → S → ℕ × S) → ℕ → List A → S → ℕ × S
buffer_loop f rv [] s = (rv, s)
buffer_loop f rv (a ∷ rest) s = let (n, s) = f a s in buffer_loop f (rv + n) rest s

-- The same sum in an `unsigned`.
unfoldable pub unsigned_loop : {A S : Type 0} → (A → S → ℕ × S) → ℕ → List A → S → ℕ × S
unsigned_loop f rv [] s = (rv, s)
unsigned_loop f rv (a ∷ rest) s = let (n, s) = f a s in unsigned_loop f (u32 (rv + n)) rest s

-- `str`, as many bytes as `strlen` counts.
abbrev pub string_bytes : Pointer (List ℕ) → List ℕ
string_bytes null = []
string_bytes (to address str) = str

-- The sum over an array, in an `unsigned`.
unfoldable pub payload_length_loop : {X : Type 0} → (Value X → ℕ) → ℕ → List (Value X) → ℕ
payload_length_loop f rv [] = rv
payload_length_loop f rv (v ∷ vs) = payload_length_loop f (u32 (rv + f v)) vs

-- A type that is not packable reaches `assert (0)`.
unfoldable pub get_packed_payload_length : {X : Type 0} → FieldType → List (Value X) → ℕ
get_packed_payload_length sfixed32 members = u32 (length members * 4)
get_packed_payload_length fixed32 members = u32 (length members * 4)
get_packed_payload_length float members = u32 (length members * 4)
get_packed_payload_length sfixed64 members = u32 (length members * 8)
get_packed_payload_length fixed64 members = u32 (length members * 8)
get_packed_payload_length double members = u32 (length members * 8)
get_packed_payload_length int32 members =
    payload_length_loop (λ v. int32_size (as_word32 v)) 0 members
get_packed_payload_length sint32 members =
    payload_length_loop (λ v. sint32_size (as_word32 v)) 0 members
get_packed_payload_length enum members =
    payload_length_loop (λ v. uint32_size (as_word32 v)) 0 members
get_packed_payload_length uint32 members =
    payload_length_loop (λ v. uint32_size (as_word32 v)) 0 members
get_packed_payload_length sint64 members =
    payload_length_loop (λ v. sint64_size (as_word64 v)) 0 members
get_packed_payload_length int64 members =
    payload_length_loop (λ v. uint64_size (as_word64 v)) 0 members
get_packed_payload_length uint64 members =
    payload_length_loop (λ v. uint64_size (as_word64 v)) 0 members
get_packed_payload_length bool members = length members
get_packed_payload_length type members = 0

-- `buffer` is the one that is packed to. `sub_append` is the recursive call on a submessage: it packs
-- to a simple buffer of its own, and stands for the byte count and what that buffer then holds.
module _ {X : Type 0} (sub_pack : X → Writer) (sub_append : X → ℕ × List ℕ) (buffer : Buffer) where
  open buffer use {State, append}

  -- The submessage of a member, or nothing for NULL.
  abbrev pub submessage_bytes : Pointer X → ℕ × List ℕ
  submessage_bytes null = (0, [])
  submessage_bytes (to address m) = sub_append m

  -- The cases of `required_field_pack_to_buffer`: the scalar types append the tag and the value
  -- together; the others append the tag and the length, and then the bytes.
  unfoldable pub append_value : FieldType → Writer → Value X → State → ℕ × State
  append_value string tag member s =
      append_header buffer
        (tag then_write uint32_pack (u32 (length (string_bytes (as_string member)))))
        (string_bytes (as_string member)) s
  append_value bytes tag member s =
      append_header buffer (tag then_write uint32_pack (u32 (length (as_binary member))))
        (as_binary member) s
  append_value message tag member s =
      let (sublen, block) = submessage_bytes (as_submessage member) in
      let (rv, s) = append_packed buffer (tag then_write uint32_pack (u32 sublen)) s in
      (rv + sublen, append s (take sublen block))
  append_value type tag member s =
      append_packed buffer (tag then_write value_pack sub_pack type member) s

  unfoldable pub required_field_pack_to_buffer : FieldDescriptor → Value X → State → ℕ × State
  required_field_pack_to_buffer field =
      append_value field.type (tag_and_type_pack field.id (wire_type_of field.type))

  unfoldable pub optional_field_pack_to_buffer : FieldDescriptor → ℕ → Value X → State → ℕ × State
  optional_field_pack_to_buffer field has member s =
      if is_absent field has member then (0, s) else required_field_pack_to_buffer field member s

  -- An array of a fixed width is appended whole.
  unfoldable pub pack_buffer_packed_payload : FieldType → List (Value X) → State → ℕ × State
  pack_buffer_packed_payload sfixed32 members s =
      (length members * 4, append s (concat_map (λ v. object32 (as_word32 v)) members))
  pack_buffer_packed_payload fixed32 members s =
      (length members * 4, append s (concat_map (λ v. object32 (as_word32 v)) members))
  pack_buffer_packed_payload float members s =
      (length members * 4, append s (concat_map (λ v. object32 (as_word32 v)) members))
  pack_buffer_packed_payload sfixed64 members s =
      (length members * 8, append s (concat_map (λ v. object64 (as_word64 v)) members))
  pack_buffer_packed_payload fixed64 members s =
      (length members * 8, append s (concat_map (λ v. object64 (as_word64 v)) members))
  pack_buffer_packed_payload double members s =
      (length members * 8, append s (concat_map (λ v. object64 (as_word64 v)) members))
  pack_buffer_packed_payload string members s = (0, s)
  pack_buffer_packed_payload bytes members s = (0, s)
  pack_buffer_packed_payload message members s = (0, s)
  pack_buffer_packed_payload type members s =
      buffer_loop (λ v. append_packed buffer (value_pack sub_pack type v)) 0 members s

  unfoldable pub packed_field_pack_to_buffer : FieldDescriptor → List (Value X) → State → ℕ × State
  packed_field_pack_to_buffer field members s =
      let payload_len = get_packed_payload_length field.type members in
      let (rv, s) =
        append_packed buffer
          (tag_and_type_pack field.id length_prefixed then_write uint32_pack (u32 payload_len)) s in
      let (_, s) = pack_buffer_packed_payload field.type members s in (rv + payload_len, s)

  unfoldable pub repeated_field_pack_to_buffer :
      FieldDescriptor → List (Value X) → State → ℕ × State
  repeated_field_pack_to_buffer field [] s = (0, s)
  repeated_field_pack_to_buffer field (v ∷ vs) s =
      if field.packed
      then packed_field_pack_to_buffer field (v ∷ vs) s
      else unsigned_loop (required_field_pack_to_buffer field) 0 (v ∷ vs) s

  unfoldable pub field_pack_to_buffer : FieldDescriptor → Slot X → State → ℕ × State
  field_pack_to_buffer field slot s = elim field.label [
    | required ↦ required_field_pack_to_buffer field (member_of slot) s
    | optional ↦ optional_field_pack_to_buffer field (has_of slot) (member_of slot) s
    | repeated ↦ repeated_field_pack_to_buffer field (elements_of slot) s
  ]

  unfoldable pub fields_pack_to_buffer :
      ℕ → List FieldDescriptor → List (Slot X) → State → ℕ × State
  fields_pack_to_buffer rv [] slots s = (rv, s)
  fields_pack_to_buffer rv (field ∷ fields) [] s = (rv, s)
  fields_pack_to_buffer rv (field ∷ fields) (slot ∷ slots) s =
      let (n, s) = field_pack_to_buffer field slot s in
      fields_pack_to_buffer (rv + n) fields slots s

  unfoldable pub pack_to_buffer_body : MessageOf X → State → ℕ × State
  pack_to_buffer_body msg s =
      let (rv, s) = fields_pack_to_buffer 0 msg.descriptor.fields msg.slots s in
      buffer_loop (unknown_field_pack_to_buffer buffer) rv msg.unknown_fields s

-- A submessage is packed to a simple buffer of its own, which starts as `fresh`.
module _ (simple : Buffer) (fresh : simple.State) where
  unfoldable pub message_pack_to_buffer :
      (d : ℕ) → Message d → (buffer : Buffer) → buffer.State → ℕ × buffer.State
  message_pack_to_buffer zero msg buffer s = absurd msg
  message_pack_to_buffer (suc d) msg buffer s =
      pack_to_buffer_body (message_pack d)
        (λ m. let (n, t) = message_pack_to_buffer d m simple fresh in (n, simple.contents t)) buffer
        msg s
