-- ===== src/Examples/Parsing.antt =====
-- The parsing routines at concrete inputs.
use protobuf_c.Base.{
  ℕ, ◌+◌, ◌≤◌, ◌-◌, ◌*◌, ◌^◌, ◌≡◌, refl, arith, true, some, List, [], ◌∷◌, map, length, get_or,
  concat_map, u32, ltb, ◌==◌, if◌then◌else◌,
}
use protobuf_c.Memory.Input.{Input}
use protobuf_c.Scalar.Size.{zigzag32, zigzag64}
use protobuf_c.Scalar.Base128.{groups, varint, sign_extend}
use protobuf_c.Scalar.Parse.{
  parse_tag_and_wiretype, parse_int32, parse_uint64, unzigzag32, unzigzag64, parse_boolean,
  parse_fixed_uint32, parse_fixed_uint64, parse_fixed_uint32_portable, parse_fixed_uint64_portable,
}
use protobuf_c.Scalar.Parse.RoundTrip.{parse_uint64-varint}
use protobuf_c.Scalar.Parse.Tag.{parse_tag_and_wiretype-varint}
use protobuf_c.Scalar.Parse.Signed.{parse_int32-varint}
use protobuf_c.Scalar.Parse.Values.{
  unzigzag32-zigzag32, unzigzag64-zigzag64, parse_boolean-varint, parse_fixed_portable,
}
use protobuf_c.Message.{sint32, uint32, bytes, Value, word32, binary, wire_code, wire_type_of}
use protobuf_c.Message.Encode.{encode_value}
use protobuf_c.Unpack.Scan.{
  scan_length_prefixed_data, scan_length_loop, count_packed_elements, max_b128_numbers,
  max_b128_loop,
}
use protobuf_c.Unpack.Scan.Laws.{scan_length_prefixed_data-varint, scan_length_overflow}
use protobuf_c.Unpack.Member.{scan_member, scan_prefixed}
use protobuf_c.Unpack.Member.Laws.{prefix_len, scan_member-encode, scan_member-within}
use protobuf_c.Unpack.Packed.{parse_packed_repeated_member}
use protobuf_c.Unpack.Packed.RoundTrip.{canonical}
use protobuf_c.Unpack.Packed.Bounds.{FitsIn, parse_packed-FitsIn}
use protobuf_c.Unpack.Packed.Whole.{parse_packed-encode}

-- A pointer to the bytes of a list.
abbrev pub from_list : List ℕ → Input
from_list bs i = get_or bs i 0

parse_uint64-varint_example :
    parse_uint64 (length (varint (2 ^ 63))) (from_list (varint (2 ^ 63))) ≡ 2 ^ 63
parse_uint64-varint_example =
    parse_uint64-varint (2 ^ 63) (from_list (varint (2 ^ 63))) (omega arith)
      (unfold varint groups in omega arith)

-- -2
parse_int32-varint_example :
    parse_int32
      (length (varint (sign_extend (2 ^ 32 - 2))))
      (from_list (varint (sign_extend (2 ^ 32 - 2))))
    ≡ 2 ^ 32 - 2
parse_int32-varint_example =
    parse_int32-varint (2 ^ 32 - 2) (from_list (varint (sign_extend (2 ^ 32 - 2)))) (omega arith)
      (unfold varint groups in omega arith)

parse_tag_and_wiretype-varint_example :
    parse_tag_and_wiretype 9 (from_list (varint (1000 * 8 + 2)))
    ≡ some (length (varint (1000 * 8 + 2)), 1000, 2)
parse_tag_and_wiretype-varint_example =
    parse_tag_and_wiretype-varint 1000 2 9 (from_list (varint (1000 * 8 + 2))) (omega arith)
      (omega arith) (unfold varint groups in omega arith) (unfold varint groups in omega arith)

-- -3
unzigzag32-zigzag32_example :
    (unzigzag32 (zigzag32 (2 ^ 32 - 3)) ≡ 2 ^ 32 - 3)
    × (zigzag32 (unzigzag32 (2 ^ 32 - 3)) ≡ 2 ^ 32 - 3)
unzigzag32-zigzag32_example = unzigzag32-zigzag32 (2 ^ 32 - 3) (omega arith)

unzigzag64-zigzag64_example :
    (unzigzag64 (zigzag64 (2 ^ 64 - 3)) ≡ 2 ^ 64 - 3)
    × (zigzag64 (unzigzag64 (2 ^ 64 - 3)) ≡ 2 ^ 64 - 3)
unzigzag64-zigzag64_example = unzigzag64-zigzag64 (2 ^ 64 - 3) (omega arith)

parse_boolean-varint_example :
    parse_boolean (length (varint 512)) (from_list (varint 512)) ≡ (if 512 == 0 then 0 else 1)
parse_boolean-varint_example =
    parse_boolean-varint 512 (from_list (varint 512)) (omega arith)
      (unfold varint groups in omega arith)

abbrev all_ones : Input
all_ones i = 255

parse_fixed_portable_example :
    (parse_fixed_uint32_portable all_ones ≡ parse_fixed_uint32 all_ones)
    × (parse_fixed_uint64_portable all_ones ≡ parse_fixed_uint64 all_ones)
parse_fixed_portable_example = parse_fixed_portable all_ones (λ i. omega arith)

-- A prefix of two bytes, for 300 bytes that are not all there.
scan_length_prefixed_data-varint_example :
    scan_length_prefixed_data 100 (from_list (varint 300)) ≡ (
      let total = u32 (length (varint 300) + 300) in
      (if ltb 100 total then 0 else total, length (varint 300)))
scan_length_prefixed_data-varint_example =
    scan_length_prefixed_data-varint 300 100 (from_list (varint 300)) (omega arith)
      (unfold varint groups in omega arith) (unfold varint groups in omega arith)

scan_length_overflow_example :
    let (len, prefix_len) = scan_length_prefixed_data 20 (from_list (varint (2 ^ 32 - 2))) in
    (len ≡ 3) × (prefix_len ≡ 5)
scan_length_overflow_example =
    scan_length_overflow 3 20 (from_list (varint (2 ^ 32 - 2))) (omega arith) (omega arith)
      (unfold varint groups in omega arith)

-- Three bytes end no more than two values; the second one is cut short.
parse_packed-FitsIn_example :
    FitsIn 1 (parse_packed_repeated_member {X = Unit {0}} uint32 2 (from_list (5 ∷ 0x80 ∷ [])))
parse_packed-FitsIn_example =
    parse_packed-FitsIn (Unit {0}) uint32 2 (from_list (5 ∷ 0x80 ∷ [])) 1
      (unfold count_packed_elements max_b128_numbers max_b128_loop in refl)

abbrev two_values : List (Value (Unit {0}))
two_values = word32 1 ∷ word32 (2 ^ 32 - 300) ∷ []

abbrev payload : List ℕ
payload = concat_map (encode_value (λ (u : Unit {0}). []) sint32) two_values

parse_packed-encode_example :
    parse_packed_repeated_member sint32 (length payload) (from_list payload)
    ≡ (map (canonical sint32) two_values, true)
parse_packed-encode_example =
    parse_packed-encode (λ (u : Unit {0}). []) sint32 two_values (from_list payload) refl
      (unfold encode_value zigzag32 varint groups in omega arith)

-- Two bytes behind their length, with a byte behind them.
abbrev two_bytes : Value (Unit {0})
two_bytes = binary 2 (7 ∷ 8 ∷ [])

scan_member-encode_example :
    scan_member (wire_code (wire_type_of bytes)) 4 (from_list (2 ∷ 7 ∷ 8 ∷ 9 ∷ []))
    ≡ some (
      length (encode_value (λ (u : Unit {0}). []) bytes two_bytes),
      prefix_len (λ (u : Unit {0}). []) bytes two_bytes,
    )
scan_member-encode_example =
    scan_member-encode (λ (u : Unit {0}). []) bytes two_bytes 4 (from_list (2 ∷ 7 ∷ 8 ∷ 9 ∷ []))
      (unfold encode_value varint groups in omega arith)
      (unfold encode_value varint groups in omega arith)
      (unfold encode_value varint groups in (refl, (refl, (refl, _))))

scan_member-within_example : (1 ≤ 3) × (3 ≤ 4)
scan_member-within_example =
    scan_member-within 2 4 (from_list (2 ∷ 7 ∷ 8 ∷ 9 ∷ [])) 3 1
      (unfold scan_member scan_prefixed scan_length_prefixed_data scan_length_loop in refl)
