-- ===== src/Unpack/Packed/Whole.antt =====
-- `parse_packed_repeated_member` on an encoded payload, type by type.

use protobuf_c.Base.{
  ℕ, ◌*◌, ◌/◌, ◌≡◌, refl, sym, ap, ◌∙◌, arith, true, List, map, length, concat_map,
}
use protobuf_c.Memory.Input.{Input, HoldsAt}
use protobuf_c.Message.{
  FieldType, int32, sint32, sfixed32, int64, sint64, sfixed64, uint32, fixed32, uint64, fixed64,
  float, double, bool, enum, string, bytes, message, Value, word32, word64, as_word32, as_word64,
  as_word32-IsU32, as_word64-IsU64, is_packable_type,
}
use protobuf_c.Message.Encode.{encode_value}
use protobuf_c.Message.EncodeLaws.{length-payload_fixed}
use protobuf_c.Scalar.Size.{zigzag32, zigzag64, zigzag32-IsU32, zigzag64-IsU64}
use protobuf_c.Scalar.Base128.{varint, sign_extend}
use protobuf_c.Scalar.Pack.{object32, object64}
use protobuf_c.Scalar.Parse.{parse_uint32, parse_uint64, parse_fixed_uint32, parse_fixed_uint64}
use protobuf_c.Scalar.Parse.RoundTrip.{parse_uint64-varint}
use protobuf_c.Scalar.Parse.Values.{parse_fixed_uint32-object32, parse_fixed_uint64-object64}
use protobuf_c.Unpack.Packed.{copy_loop, read_varint, parse_packed_repeated_member}
use protobuf_c.Scalar.Parse.Signed.{
  sign_extend-IsU64, parse_int32-varint, parse_uint32-varint_u32, unzigzag32-varint,
  unzigzag64-varint,
}
use protobuf_c.Unpack.Packed.RoundTrip.{
  canonical, packed_loop-varints, copy_loop-fixed, bool_loop-encode,
}

-- A type whose values are varints: `code` is the number that is encoded.
module _ {X : Type 0} (sub : X → List ℕ) (vs : List (Value X)) (input : Input) where
  abbrev Reads : FieldType → Type 0
  Reads type =
      HoldsAt input 0 (concat_map (encode_value sub type) vs)
      → parse_packed_repeated_member type (length (concat_map (encode_value sub type) vs)) input
        ≡ (map (canonical type) vs, true)

  reads_int32 : Reads int32
  unfolding parse_packed_repeated_member encode_value canonical read_varint
  reads_int32 h =
      packed_loop-varints (read_varint int32) (λ v. sign_extend (as_word32 v)) (canonical int32)
        (λ v. sign_extend-IsU64 (as_word32 v) (as_word32-IsU32 v))
        (λ v at here.
          ap (λ (w : ℕ). word32 w) (parse_int32-varint (as_word32 v) at (as_word32-IsU32 v) here))
        vs _ _ input 0 refl (omega arith) h

  reads_sint32 : Reads sint32
  unfolding parse_packed_repeated_member encode_value canonical read_varint
  reads_sint32 h =
      packed_loop-varints (read_varint sint32) (λ v. zigzag32 (as_word32 v)) (canonical sint32)
        (λ v. omega (arith, zigzag32-IsU32 (as_word32 v)))
        (λ v at here.
          ap (λ (w : ℕ). word32 w) (unzigzag32-varint (as_word32 v) at (as_word32-IsU32 v) here))
        vs _ _ input 0 refl (omega arith) h

  reads_sint64 : Reads sint64
  unfolding parse_packed_repeated_member encode_value canonical read_varint
  reads_sint64 h =
      packed_loop-varints (read_varint sint64) (λ v. zigzag64 (as_word64 v)) (canonical sint64)
        (λ v. zigzag64-IsU64 (as_word64 v))
        (λ v at here.
          ap (λ (w : ℕ). word64 w) (unzigzag64-varint (as_word64 v) at (as_word64-IsU64 v) here))
        vs _ _ input 0 refl (omega arith) h

  -- The types that are encoded as they stand.
  plain32 :
      (at : Input) (v : Value X)
      → HoldsAt at 0 (varint (as_word32 v))
      → ◌≡◌ {A = Value X}
          (word32 (parse_uint32 (length (varint (as_word32 v))) at))
          (word32 (as_word32 v))
  plain32 at v here =
      ap (λ (w : ℕ). word32 w) (parse_uint32-varint_u32 (as_word32 v) at (as_word32-IsU32 v) here)

  plain64 :
      (at : Input) (v : Value X)
      → HoldsAt at 0 (varint (as_word64 v))
      → ◌≡◌ {A = Value X}
          (word64 (parse_uint64 (length (varint (as_word64 v))) at))
          (word64 (as_word64 v))
  plain64 at v here =
      ap (λ (w : ℕ). word64 w) (parse_uint64-varint (as_word64 v) at (as_word64-IsU64 v) here)

  reads_uint32 : Reads uint32
  unfolding parse_packed_repeated_member encode_value canonical read_varint
  reads_uint32 h =
      packed_loop-varints (read_varint uint32) (λ v. as_word32 v) (canonical uint32)
        (λ v. omega (arith, as_word32-IsU32 v)) (λ v at here. plain32 at v here) vs _ _ input 0 refl
        (omega arith) h

  reads_enum : Reads enum
  unfolding parse_packed_repeated_member encode_value canonical read_varint
  reads_enum h =
      packed_loop-varints (read_varint enum) (λ v. as_word32 v) (canonical enum)
        (λ v. omega (arith, as_word32-IsU32 v)) (λ v at here. plain32 at v here) vs _ _ input 0 refl
        (omega arith) h

  reads_int64 : Reads int64
  unfolding parse_packed_repeated_member encode_value canonical read_varint
  reads_int64 h =
      packed_loop-varints (read_varint int64) (λ v. as_word64 v) (canonical int64)
        (λ v. as_word64-IsU64 v) (λ v at here. plain64 at v here) vs _ _ input 0 refl (omega arith)
        h

  reads_uint64 : Reads uint64
  unfolding parse_packed_repeated_member encode_value canonical read_varint
  reads_uint64 h =
      packed_loop-varints (read_varint uint64) (λ v. as_word64 v) (canonical uint64)
        (λ v. as_word64-IsU64 v) (λ v at here. plain64 at v here) vs _ _ input 0 refl (omega arith)
        h

  -- The arrays that are copied.
  copied32 :
      (canon : Value X → Value X)
      → ((v : Value X) → canon v ≡ word32 (as_word32 v))
      → HoldsAt input 0 (concat_map (λ v. object32 (as_word32 v)) vs)
      → copy_loop
          (λ at. word32 (parse_fixed_uint32 at))
          4
          (length (concat_map (λ v. object32 (as_word32 v)) vs) / 4)
          input
          0
        ≡ map canon vs
  unfolding encode_value
  copied32 canon e h =
      let total : length (concat_map (λ v. object32 (as_word32 v)) vs) ≡ 4 * length vs =
        length-payload_fixed sub fixed32 4 (λ v. refl) vs in
      let count : length (concat_map (λ v. object32 (as_word32 v)) vs) / 4 ≡ length vs =
        omega (arith, total) in
      rw count (
        copy_loop-fixed (λ at. word32 (parse_fixed_uint32 at)) (λ v. object32 (as_word32 v)) canon 4
          (λ v. refl)
          (λ v at here.
            ap (λ (w : ℕ). word32 w)
              (parse_fixed_uint32-object32 (as_word32 v) at (as_word32-IsU32 v) here)
            ∙ sym (e v))
          vs input 0 h)

  copied64 :
      (canon : Value X → Value X)
      → ((v : Value X) → canon v ≡ word64 (as_word64 v))
      → HoldsAt input 0 (concat_map (λ v. object64 (as_word64 v)) vs)
      → copy_loop
          (λ at. word64 (parse_fixed_uint64 at))
          8
          (length (concat_map (λ v. object64 (as_word64 v)) vs) / 8)
          input
          0
        ≡ map canon vs
  unfolding encode_value
  copied64 canon e h =
      let total : length (concat_map (λ v. object64 (as_word64 v)) vs) ≡ 8 * length vs =
        length-payload_fixed sub fixed64 8 (λ v. refl) vs in
      let count : length (concat_map (λ v. object64 (as_word64 v)) vs) / 8 ≡ length vs =
        omega (arith, total) in
      rw count (
        copy_loop-fixed (λ at. word64 (parse_fixed_uint64 at)) (λ v. object64 (as_word64 v)) canon 8
          (λ v. refl)
          (λ v at here.
            ap (λ (w : ℕ). word64 w)
              (parse_fixed_uint64-object64 (as_word64 v) at (as_word64-IsU64 v) here)
            ∙ sym (e v))
          vs input 0 h)

-- A packed payload is read back, for every packable type: `parse_packed_repeated_member` succeeds on
-- the encoded array, and stores each element as its type holds it, in order.
pub parse_packed-encode :
    {X : Type 0} (sub : X → List ℕ) (type : FieldType) (vs : List (Value X)) (input : Input)
    → is_packable_type type ≡ true
    → HoldsAt input 0 (concat_map (encode_value sub type) vs)
    → parse_packed_repeated_member type (length (concat_map (encode_value sub type) vs)) input
      ≡ (map (canonical type) vs, true)
unfolding parse_packed_repeated_member encode_value canonical
parse_packed-encode sub int32 vs input p h = reads_int32 sub vs input h
parse_packed-encode sub sint32 vs input p h = reads_sint32 sub vs input h
parse_packed-encode sub uint32 vs input p h = reads_uint32 sub vs input h
parse_packed-encode sub enum vs input p h = reads_enum sub vs input h
parse_packed-encode sub int64 vs input p h = reads_int64 sub vs input h
parse_packed-encode sub sint64 vs input p h = reads_sint64 sub vs input h
parse_packed-encode sub uint64 vs input p h = reads_uint64 sub vs input h
parse_packed-encode sub sfixed32 vs input p h =
    ap (λ stored. (stored, true)) (copied32 sub vs input (canonical sfixed32) (λ v. refl) h)
parse_packed-encode sub fixed32 vs input p h =
    ap (λ stored. (stored, true)) (copied32 sub vs input (canonical fixed32) (λ v. refl) h)
parse_packed-encode sub float vs input p h =
    ap (λ stored. (stored, true)) (copied32 sub vs input (canonical float) (λ v. refl) h)
parse_packed-encode sub sfixed64 vs input p h =
    ap (λ stored. (stored, true)) (copied64 sub vs input (canonical sfixed64) (λ v. refl) h)
parse_packed-encode sub fixed64 vs input p h =
    ap (λ stored. (stored, true)) (copied64 sub vs input (canonical fixed64) (λ v. refl) h)
parse_packed-encode sub double vs input p h =
    ap (λ stored. (stored, true)) (copied64 sub vs input (canonical double) (λ v. refl) h)
parse_packed-encode sub bool vs input p h = bool_loop-encode sub vs input 0 h
parse_packed-encode sub string vs input p h = cc
parse_packed-encode sub bytes vs input p h = cc
parse_packed-encode sub message vs input p h = cc
