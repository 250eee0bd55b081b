-- ===== src/Message/Pack/Repeated.antt =====
-- What `repeated_field_pack` writes.
use protobuf_c.Base.{
  ℕ, ◌+◌, ◌==◌, ◌≡◌, ◌++◌, List, [], ◌∷◌, true, false, u32, length, length-append, concat_map, All,
  IsU32, arith, ◌⊎◌, inl, inr, refl, sym, ◌∙◌, Bool-cases, ==_iff, if◌then◌else◌,
}
use protobuf_c.Memory.{Memory, Writer, Writes, memcpy, memmove}
use protobuf_c.Memory.Laws.{memcpy-append, memcpy_front, memmove_front}
use protobuf_c.Scalar.Size.{uint32_size}
use protobuf_c.Scalar.Base128.{varint}
use protobuf_c.Scalar.Length.{uint32_size-length}
use protobuf_c.Scalar.Pack.Writes.{uint32_pack-Writes}
use protobuf_c.Message.{
  FieldType, int32, sfixed32, sfixed64, fixed32, fixed64, float, double, string, bytes, message,
  Value, is_packable_type, as_submessage, FieldDescriptor, length_prefixed,
}
use protobuf_c.Message.Encode.{
  encode_value, encode_packed, encode_repeated, encode_required, key, prefixed,
}
use protobuf_c.Message.EncodeLaws.{length-payload_fixed}
use protobuf_c.Message.Valid.{AtPointer}
use protobuf_c.Message.Pack.{
  length_size_min, payload_pack, place_length, packed_field_pack, repeated_field_pack, pack_loop,
  required_field_pack, value_pack,
}
use protobuf_c.Message.Pack.Lengths.{length_size_min-payload}
use protobuf_c.Message.Pack.Values.{
  IsPacked, tag_and_type_pack-Writes, pack_loop-Writes, value_pack-Writes,
  required_field_pack-Writes,
}
use native.Mathlib.Nat.{add_assoc}
use mathlib.Core.Path.{subst}

-- The tag, a payload written behind `room` bytes, the move, and the length in front.
module _ (T P V : List ℕ) (out room : ℕ) (memory : Memory) where
  abbrev block : Memory
  block = memcpy (memcpy memory out T) (out + (length T + room)) P

  packed_in_place :
      room ≡ length V → memcpy block (out + length T) V ≡ memcpy memory out (T ++ (V ++ P))
  packed_in_place e = rw (
    memcpy-append memory out T (V ++ P),
    ← memcpy_front (memcpy memory out T) (out + length T) V P,
    ← e,
    add_assoc out (length T) room,
  )

  packed_moved :
      length V ≡ room + 1
      → memcpy
          (memmove block (out + (length T + room) + 1) (out + (length T + room)) (length P))
          (out + length T)
          V
        ≡ memcpy memory out (T ++ (V ++ P))
  packed_moved e = rw (
    memcpy-append memory out T (V ++ P),
    ← memmove_front (memcpy memory out T) (out + length T) room V P (omega arith),
    e,
    ← add_assoc out (length T) room,
    ← add_assoc (out + length T) room 1,
  )

-- `place_length` behind a tag `T` and a payload `P` that stands `room` bytes further.
place_length-Writes :
    (T P : List ℕ) (room out : ℕ) (memory : Memory)
    → IsU32 (length (T ++ prefixed P))
    → (uint32_size (length P) ≡ room) ⊎ (uint32_size (length P) ≡ room + 1)
    → place_length
        (length T)
        room
        (u32 (length P))
        out
        (memcpy (memcpy memory out T) (out + (length T + room)) P)
      ≡ (length (T ++ prefixed P), memcpy memory out (T ++ prefixed P))
place_length-Writes T P room out memory all_fit sizes = elim sizes [
  | inl same ↦
      unfold place_length in
      rw (whole, same, (==_iff room room).1 refl, uint32_pack-Writes (length P) fits)
        (ground (
          arith,
          packed_in_place T P V out room memory (sym same ∙ size),
          lengths,
          same,
          size,
          unwrapped,
        ))
  | inr more ↦
      unfold place_length in
      rw (whole, more, differ, uint32_pack-Writes (length P) fits)
        (ground (
          arith,
          packed_moved T P V out room memory (sym size ∙ more),
          lengths,
          more,
          size,
          unwrapped,
        ))
]
  where
    V : List ℕ
    V = varint (length P)

    fits : IsU32 (length P)
    fits =
        omega
          (arith, length-append T (prefixed P), length-append (varint (u32 (length P))) P, all_fit)

    whole : u32 (length P) ≡ length P
    whole = omega (arith, fits)

    size : uint32_size (length P) ≡ length V
    size = uint32_size-length (length P) fits

    lengths : length (T ++ (V ++ P)) ≡ length T + (length V + length P)
    lengths = omega (arith, length-append T (V ++ P), length-append V P)

    unwrapped : IsU32 (length (T ++ (V ++ P)))
    unwrapped = subst (λ (n : ℕ). IsU32 (length (T ++ (varint n ++ P)))) whole all_fit

    differ : (room == (room + 1)) ≡ false
    differ = ground arith

module _ {X : Type 0} (sub_pack : X → Writer) (sub : X → List ℕ) where
  abbrev payload : FieldType → List (Value X) → List ℕ
  payload type = concat_map (encode_value sub type)

  abbrev AllPacked : List (Value X) → Type 0
  AllPacked = All (λ v. AtPointer (IsPacked sub_pack sub) (as_submessage v))

  values_Writes :
      (type : FieldType) (vs : List (Value X))
      → AllPacked vs
      → All (λ v. Writes (value_pack sub_pack type v) (encode_value sub type v)) vs
  values_Writes type [] h = tt
  values_Writes type (v ∷ vs) (hv, hvs) =
      (value_pack-Writes sub_pack sub type v hv, values_Writes type vs hvs)

  requireds_Writes :
      (field : FieldDescriptor) (vs : List (Value X))
      → IsU32 field.id
      → AllPacked vs
      → All (λ v. Writes (required_field_pack sub_pack field v) (encode_required sub field v)) vs
  requireds_Writes field [] hid h = tt
  requireds_Writes field (v ∷ vs) hid (hv, hvs) =
      (required_field_pack-Writes sub_pack sub field v hid hv, requireds_Writes field vs hid hvs)

  payload_loop :
      (type : FieldType) (vs : List (Value X))
      → AllPacked vs
      → Writes (pack_loop (value_pack sub_pack type) 0 vs) (payload type vs)
  payload_loop type vs h out memory =
      pack_loop-Writes (value_pack sub_pack type) (encode_value sub type) vs 0 out memory
        (values_Writes type vs h)
      ∙ ground arith

  requireds_loop :
      (field : FieldDescriptor) (vs : List (Value X))
      → IsU32 field.id
      → AllPacked vs
      → Writes
          (pack_loop (required_field_pack sub_pack field) 0 vs)
          (concat_map (encode_required sub field) vs)
  requireds_loop field vs hid h out memory =
      pack_loop-Writes (required_field_pack sub_pack field) (encode_required sub field) vs 0 out
        memory (requireds_Writes field vs hid h)
      ∙ ground arith

  payload_pack-Writes :
      (type : FieldType) (vs : List (Value X))
      → is_packable_type type ≡ true
      → AllPacked vs
      → Writes (payload_pack sub_pack type vs) (payload type vs)
  unfolding payload_pack encode_value
  payload_pack-Writes sfixed32 vs p h out memory =
      ground (arith, length-payload_fixed sub sfixed32 4 (λ v. refl) vs)
  payload_pack-Writes fixed32 vs p h out memory =
      ground (arith, length-payload_fixed sub fixed32 4 (λ v. refl) vs)
  payload_pack-Writes float vs p h out memory =
      ground (arith, length-payload_fixed sub float 4 (λ v. refl) vs)
  payload_pack-Writes sfixed64 vs p h out memory =
      ground (arith, length-payload_fixed sub sfixed64 8 (λ v. refl) vs)
  payload_pack-Writes fixed64 vs p h out memory =
      ground (arith, length-payload_fixed sub fixed64 8 (λ v. refl) vs)
  payload_pack-Writes double vs p h out memory =
      ground (arith, length-payload_fixed sub double 8 (λ v. refl) vs)
  payload_pack-Writes string vs p h out memory = cc
  payload_pack-Writes bytes vs p h out memory = cc
  payload_pack-Writes message vs p h out memory = cc
  payload_pack-Writes int32 vs p h out memory = payload_loop int32 vs h out memory
  payload_pack-Writes type vs p h out memory = payload_loop type vs h out memory

  packed_field_pack-Writes :
      (field : FieldDescriptor) (v : Value X) (vs : List (Value X))
      → IsU32 field.id
      → is_packable_type field.type ≡ true
      → IsU32 (length (encode_packed sub field (v ∷ vs)))
      → AllPacked (v ∷ vs)
      → Writes (packed_field_pack sub_pack field (v ∷ vs)) (encode_packed sub field (v ∷ vs))
  packed_field_pack-Writes field v vs hid packable all_fit h out memory =
      let P = payload field.type (v ∷ vs) in
      let T = key field.id length_prefixed in
      let room = length_size_min field.type (length (v ∷ vs)) in
      let fits : IsU32 (length P) =
        omega (
          arith,
          length-append T (prefixed P),
          length-append (varint (u32 (length P))) P,
          all_fit,
        ) in
      unfold packed_field_pack in
      rw
        (
          tag_and_type_pack-Writes field.id length_prefixed hid out memory,
          payload_pack-Writes field.type (v ∷ vs) packable h,
        )
        (place_length-Writes T P room out memory all_fit
          (length_size_min-payload sub field.type (v ∷ vs) packable fits))

  pub repeated_field_pack-Writes :
      (field : FieldDescriptor) (vs : List (Value X))
      → IsU32 field.id
      → (field.packed ≡ true → is_packable_type field.type ≡ true)
      → IsU32 (length (encode_repeated sub field vs))
      → AllPacked vs
      → Writes (repeated_field_pack sub_pack field vs) (encode_repeated sub field vs)
  unfolding repeated_field_pack encode_repeated
  repeated_field_pack-Writes field [] hid packable fits h out memory =
      unfold pack_loop memcpy in ground arith
  repeated_field_pack-Writes field (v ∷ vs) hid packable fits h out memory =
      elim (Bool-cases field.packed) [
        | inl packed ↦ ground (
          arith,
          packed_field_pack-Writes field v vs hid (packable packed)
              (subst
                (λ b. IsU32 (
                  length (
                    if b
                    then encode_packed sub field (v ∷ vs)
                    else concat_map (encode_required sub field) (v ∷ vs))))
                packed fits)
              h out memory,
        )
        | inr unpacked ↦ ground (arith, requireds_loop field (v ∷ vs) hid h out memory)
      ]
