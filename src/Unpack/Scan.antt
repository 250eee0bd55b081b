-- ===== src/Unpack/Scan.antt =====
-- What finds where a value ends, before it is parsed: src/google/protobuf-c/protobuf-c.c,
-- `scan_length_prefixed_data`, `scan_varint`, `max_b128_numbers` and `count_packed_elements`.
pub mod Laws
use protobuf_c.Base.{
  ℕ, zero, suc, ◌+◌, ◌*◌, ◌/◌, ◌%◌, ◌^◌, u32, ◌<<<◌, bit_or, bit_and, ltb, ◌==◌, if◌then◌else◌,
  Option, none, some,
}
use protobuf_c.Message.{
  FieldType, int32, sint32, sfixed32, int64, sint64, sfixed64, uint32, fixed32, uint64, fixed64,
  float, double, bool, enum, string, bytes, message,
}
use protobuf_c.Memory.Input.{Input}

-- `for (i = 0; i < hdr_max; i++)`: `rounds` are left. The result is `i` and `val` at the `break`,
-- `none` when the loop runs out.
unfoldable pub scan_length_loop : ℕ → Input → ℕ → ℕ → ℕ → Option (ℕ × ℕ)
scan_length_loop zero input i shift val = none
scan_length_loop (suc rounds) input i shift val =
    let val = bit_or val (u32 (bit_and (input i) 0x7f <<< shift)) in
    let rest = scan_length_loop rounds input (i + 1) (shift + 7) val in
    if bit_and (input i) 0x80 == 0 then some (i, val) else rest

-- The result and `*prefix_len_out`. The sum is taken in 32 bits.
unfoldable pub scan_length_prefixed_data : ℕ → Input → ℕ × ℕ
scan_length_prefixed_data len input =
    let hdr_max = if ltb len 5 then len else 5 in
    elim (scan_length_loop hdr_max input 0 0 0) [
      | none ↦ (0, 0)
      | some (i, val) ↦
          let hdr_len = i + 1 in
          if ltb len (u32 (hdr_len + val)) then (0, hdr_len) else (u32 (hdr_len + val), hdr_len)
    ]

-- The first of the next `rounds` bytes whose top bit is clear.
unfoldable pub varint_end_loop : ℕ → Input → ℕ → Option ℕ
varint_end_loop zero input i = none
varint_end_loop (suc rounds) input i =
    let rest = varint_end_loop rounds input (i + 1) in
    if bit_and (input i) 0x80 == 0 then some i else rest

unfoldable pub scan_varint : ℕ → Input → ℕ
scan_varint len input = elim (varint_end_loop (if ltb 10 len then 10 else len) input 0) [
  | none ↦ 0
  | some i ↦ i + 1
]

unfoldable pub max_b128_loop : ℕ → Input → ℕ → ℕ → ℕ
max_b128_loop zero input i rv = rv
max_b128_loop (suc len) input i rv =
    max_b128_loop len input (i + 1) (if bit_and (input i) 0x80 == 0 then rv + 1 else rv)

unfoldable pub max_b128_numbers : ℕ → Input → ℕ
max_b128_numbers len input = max_b128_loop len input 0 0

-- `none` is `return FALSE`.
unfoldable pub count_packed_elements : FieldType → ℕ → Input → Option ℕ
count_packed_elements sfixed32 len input = if len % 4 == 0 then some (len / 4) else none
count_packed_elements fixed32 len input = if len % 4 == 0 then some (len / 4) else none
count_packed_elements float len input = if len % 4 == 0 then some (len / 4) else none
count_packed_elements sfixed64 len input = if len % 8 == 0 then some (len / 8) else none
count_packed_elements fixed64 len input = if len % 8 == 0 then some (len / 8) else none
count_packed_elements double len input = if len % 8 == 0 then some (len / 8) else none
count_packed_elements int32 len input = some (max_b128_numbers len input)
count_packed_elements sint32 len input = some (max_b128_numbers len input)
count_packed_elements enum len input = some (max_b128_numbers len input)
count_packed_elements uint32 len input = some (max_b128_numbers len input)
count_packed_elements int64 len input = some (max_b128_numbers len input)
count_packed_elements sint64 len input = some (max_b128_numbers len input)
count_packed_elements uint64 len input = some (max_b128_numbers len input)
count_packed_elements bool len input = some len
count_packed_elements string len input = none
count_packed_elements bytes len input = none
count_packed_elements message len input = none
