-- ===== src/Message/ToBuffer/Laws.antt =====
-- Whatever the buffer, `protobuf_c_message_pack_to_buffer` appends the encoding of the message.
use protobuf_c.Base.{
  ℕ, ◌+◌, ◌≡◌, ◌≤◌, List, [], ◌∷◌, ◌++◌, true, u32, length, concat_map, length-append, All, IsU32,
  arith, refl, sym, ◌∙◌, append_assoc, append-nil,
}
use mathlib.Core.Path.{ap₂}
use protobuf_c.Memory.{Memory, Writer, Writes, memcpy, store}
use protobuf_c.Memory.Laws.{memcpy_first}
use protobuf_c.Scalar.Length.{
  int32_size-length, sint32_size-length, uint32_size-length, sint64_size-length, uint64_size-length,
}
use protobuf_c.Message.{
  FieldType, int32, sint32, sfixed32, int64, sint64, sfixed64, uint32, fixed32, uint64, fixed64,
  float, double, bool, enum, string, bytes, message, Value, UnknownField, as_word32, as_word64,
  as_word32-IsU32, as_word64-IsU64, is_packable_type,
}
use protobuf_c.Message.Encode.{key, encode_value, encode_unknown}
use protobuf_c.Message.EncodeLaws.{length-payload_fixed}
use protobuf_c.Message.Pack.{tag_and_type_pack}
use protobuf_c.Message.Pack.Values.{tag_and_type_pack-Writes}
use protobuf_c.Message.ToBuffer.{
  Buffer, read, uninitialized, append_packed, append_header, unknown_field_pack_to_buffer,
  buffer_loop, unsigned_loop, payload_length_loop, get_packed_payload_length,
}

pub read-memcpy :
    (memory : Memory) (at : ℕ) (bs : List ℕ) → read (memcpy memory at bs) at (length bs) ≡ bs
unfolding read memcpy
read-memcpy memory at [] = refl
read-memcpy memory at (b ∷ bs) =
    ap₂ ◌∷◌ (memcpy_first memory at b bs) (read-memcpy (store memory at b) (at + 1) bs)

module _ (buffer : Buffer) where
  open buffer use {State, contents}

  -- The routine appends `block`, and returns the count of its bytes.
  abbrev pub Appends : (State → ℕ × State) → List ℕ → Type 0
  Appends f block =
      (s : State) → ((f s).0 ≡ length block) × (contents (f s).1 ≡ contents s ++ block)

  pub append_packed-Appends :
      (pack : Writer) (bs : List ℕ) → Writes pack bs → Appends (append_packed buffer pack) bs
  unfolding append_packed
  append_packed-Appends pack bs h s =
      rw (h 0 uninitialized, read-memcpy uninitialized 0 bs) (refl, buffer.contents-append s bs)

  pub append_header-Appends :
      (header : Writer) (xs ys : List ℕ)
      → Writes header xs
      → Appends (append_header buffer header ys) (xs ++ ys)
  unfolding append_header
  append_header-Appends header xs ys h s =
      let (count, held) = append_packed-Appends header xs h s in
      (omega (arith, count, length-append xs ys), rw (buffer.contents-append, held, append_assoc))

  pub unknown-Appends :
      (field : UnknownField)
      → IsU32 field.tag
      → Appends (unknown_field_pack_to_buffer buffer field) (encode_unknown field)
  unfolding unknown_field_pack_to_buffer encode_unknown
  unknown-Appends field h =
      append_header-Appends (tag_and_type_pack field.tag field.wire_type)
        (key field.tag field.wire_type) field.content
        (tag_and_type_pack-Writes field.tag field.wire_type h)

  pub buffer_loop-Appends :
      {A : Type 0} (f : A → State → ℕ × State) (g : A → List ℕ) (members : List A) (rv : ℕ)
      (s : State)
      → All (λ a. Appends (f a) (g a)) members
      → ((buffer_loop f rv members s).0 ≡ rv + length (concat_map g members))
        × (contents (buffer_loop f rv members s).1 ≡ contents s ++ concat_map g members)
  unfolding buffer_loop
  buffer_loop-Appends f g [] rv s h = (omega arith, sym (append-nil (contents s)))
  buffer_loop-Appends f g (a ∷ rest) rv s (ha, hs) =
      let (count, held) = ha s in
      let (total, whole) = buffer_loop-Appends f g rest (rv + (f a s).0) (f a s).1 hs in
      (
        omega (arith, total, count, length-append (g a) (concat_map g rest)),
        rw (whole, held, append_assoc),
      )

buffer_loop-ge :
    {A S : Type 0} (f : A → S → ℕ × S) (members : List A) (rv : ℕ) (s : S)
    → rv ≤ (buffer_loop f rv members s).0
unfolding buffer_loop
buffer_loop-ge f [] rv s = omega arith
buffer_loop-ge f (a ∷ rest) rv s = omega (arith, buffer_loop-ge f rest (rv + (f a s).0) (f a s).1)

-- A sum that fits an `unsigned` does not wrap.
pub unsigned_loop-buffer_loop :
    {A S : Type 0} (f : A → S → ℕ × S) (members : List A) (rv : ℕ) (s : S)
    → IsU32 (buffer_loop f rv members s).0
    → unsigned_loop f rv members s ≡ buffer_loop f rv members s
unfolding unsigned_loop buffer_loop
unsigned_loop-buffer_loop f [] rv s fits = refl
unsigned_loop-buffer_loop f (a ∷ rest) rv s fits =
    let (n, t) = f a s in
    let whole : u32 (rv + n) ≡ rv + n = omega (arith, fits, buffer_loop-ge f rest (rv + n) t) in
    rw whole (unsigned_loop-buffer_loop f rest (rv + n) t fits)

-- The sums in an `unsigned` are lengths of the payload.
module _ {X : Type 0} (sub : X → List ℕ) where
  abbrev payload : FieldType → List (Value X) → List ℕ
  payload type = concat_map (encode_value sub type)

  payload_length_loop-length :
      (type : FieldType) (f : Value X → ℕ)
      → ((v : Value X) → f v ≡ length (encode_value sub type v))
      → (vs : List (Value X)) (rv : ℕ) → IsU32 rv
      → payload_length_loop f rv vs ≡ u32 (rv + length (payload type vs))
  unfolding payload_length_loop
  payload_length_loop-length type f e [] rv h = omega arith
  payload_length_loop-length type f e (v ∷ vs) rv h = omega (
    arith,
    payload_length_loop-length type f e vs (u32 (rv + f v)) (omega arith),
    e v,
    length-append (encode_value sub type v) (payload type vs),
  )

  from_zero :
      (type : FieldType) (f : Value X → ℕ)
      → ((v : Value X) → f v ≡ length (encode_value sub type v))
      → (vs : List (Value X)) → IsU32 (length (payload type vs))
      → payload_length_loop f 0 vs ≡ length (payload type vs)
  from_zero type f e vs h = payload_length_loop-length type f e vs 0 (omega arith) ∙ omega arith

  pub get_packed_payload_length-length :
      (type : FieldType) (vs : List (Value X))
      → is_packable_type type ≡ true
      → IsU32 (length (payload type vs))
      → get_packed_payload_length type vs ≡ length (payload type vs)
  unfolding get_packed_payload_length encode_value
  get_packed_payload_length-length sfixed32 vs p h =
      omega (arith, length-payload_fixed sub sfixed32 4 (λ v. refl) vs)
  get_packed_payload_length-length fixed32 vs p h =
      omega (arith, length-payload_fixed sub fixed32 4 (λ v. refl) vs)
  get_packed_payload_length-length float vs p h =
      omega (arith, length-payload_fixed sub float 4 (λ v. refl) vs)
  get_packed_payload_length-length sfixed64 vs p h =
      omega (arith, length-payload_fixed sub sfixed64 8 (λ v. refl) vs)
  get_packed_payload_length-length fixed64 vs p h =
      omega (arith, length-payload_fixed sub fixed64 8 (λ v. refl) vs)
  get_packed_payload_length-length double vs p h =
      omega (arith, length-payload_fixed sub double 8 (λ v. refl) vs)
  get_packed_payload_length-length bool vs p h =
      omega (arith, length-payload_fixed sub bool 1 (λ v. refl) vs)
  get_packed_payload_length-length int32 vs p h =
      from_zero int32 _ (λ v. int32_size-length (as_word32 v) (as_word32-IsU32 v)) vs h
  get_packed_payload_length-length sint32 vs p h =
      from_zero sint32 _ (λ v. sint32_size-length (as_word32 v)) vs h
  get_packed_payload_length-length enum vs p h =
      from_zero enum _ (λ v. uint32_size-length (as_word32 v) (as_word32-IsU32 v)) vs h
  get_packed_payload_length-length uint32 vs p h =
      from_zero uint32 _ (λ v. uint32_size-length (as_word32 v) (as_word32-IsU32 v)) vs h
  get_packed_payload_length-length sint64 vs p h =
      from_zero sint64 _ (λ v. sint64_size-length (as_word64 v)) vs h
  get_packed_payload_length-length int64 vs p h =
      from_zero int64 _ (λ v. uint64_size-length (as_word64 v) (as_word64-IsU64 v)) vs h
  get_packed_payload_length-length uint64 vs p h =
      from_zero uint64 _ (λ v. uint64_size-length (as_word64 v) (as_word64-IsU64 v)) vs h
  get_packed_payload_length-length string vs p h = cc
  get_packed_payload_length-length bytes vs p h = cc
  get_packed_payload_length-length message vs p h = cc
