-- ===== src/Scalar/Parse.antt =====
-- What reads one scalar back: src/google/protobuf-c/protobuf-c.c, "unpack()". A signed integer is its
-- bit pattern, and a shift to the left of an `int` wraps as in two's complement.
pub mod Groups
pub mod RoundTrip
pub mod Tag
pub mod Values
pub mod Signed
use protobuf_c.Base.{
  ℕ, zero, suc, ◌+◌, ◌-◌, ◌*◌, ◌^◌, ◌/◌, ◌%◌, u32, u64, ◌<<<◌, ◌>>>◌, bit_or, bit_and, ltb, ◌==◌,
  if◌then◌else◌, Option, none, some,
}
use protobuf_c.Memory.Input.{Input, advance}

-- `for (rv = 1; rv < max_rv; rv++)`: `rounds` are left. The result is the byte count and the tag;
-- `none` stands for `return 0`.
unfoldable pub parse_tag_loop : ℕ → Input → ℕ → ℕ → ℕ → Option (ℕ × ℕ)
parse_tag_loop zero input rv shift tag = none
parse_tag_loop (suc rounds) input rv shift tag =
    let rest =
      parse_tag_loop rounds input (rv + 1) (shift + 7)
        (bit_or tag (u32 (bit_and (input rv) 0x7f <<< shift))) in
    if bit_and (input rv) 0x80 == 0
    then some (rv + 1, bit_or tag (u32 (input rv <<< shift)))
    else rest

-- The byte count, the tag and the code of the wire type, or `none` for `return 0`.
unfoldable pub parse_tag_and_wiretype : ℕ → Input → Option (ℕ × ℕ × ℕ)
parse_tag_and_wiretype len input =
    let max_rv = if ltb 5 len then 5 else len in
    let tag = bit_and (input 0) 0x7f >>> 3 in
    let wiretype = bit_and (input 0) 7 in
    if bit_and (input 0) 0x80 == 0
    then some (1, tag, wiretype)
    else elim (parse_tag_loop (max_rv - 1) input 1 4 tag) [
      | none ↦ none
      | some (rv, tag) ↦ some (rv, tag, wiretype)
    ]

unfoldable pub parse_uint32 : ℕ → Input → ℕ
parse_uint32 len input =
    let rv = bit_and (input 0) 0x7f in
    if ltb 1 len
    then (let rv = bit_or rv (bit_and (input 1) 0x7f <<< 7) in
        if ltb 2 len
        then (let rv = bit_or rv (bit_and (input 2) 0x7f <<< 14) in
            if ltb 3 len
            then (let rv = bit_or rv (bit_and (input 3) 0x7f <<< 21) in
                if ltb 4 len then bit_or rv (u32 (input 4 <<< 28)) else rv)
            else rv)
        else rv)
    else rv

unfoldable pub parse_int32 : ℕ → Input → ℕ
parse_int32 = parse_uint32

-- `- (v >> 1) - 1` for an odd `v`, in an `uint32_t`.
unfoldable pub unzigzag32 : ℕ → ℕ
unzigzag32 v = if bit_and v 1 == 0 then v >>> 1 else u32 (u32 (2 ^ 32 - v >>> 1) + (2 ^ 32 - 1))

-- With `IS_LITTLE_ENDIAN`, `memcpy (&t, data, 4)`.
unfoldable pub parse_fixed_uint32 : Input → ℕ
parse_fixed_uint32 input = input 0 + input 1 * 2 ^ 8 + input 2 * 2 ^ 16 + input 3 * 2 ^ 24

-- Without it.
unfoldable pub parse_fixed_uint32_portable : Input → ℕ
parse_fixed_uint32_portable input =
    bit_or (bit_or (bit_or (input 0) (input 1 <<< 8)) (input 2 <<< 16)) (u32 (input 3 <<< 24))

-- `for (i = 4; i < len; i++)`: `rounds` are left.
unfoldable pub parse_uint64_loop : ℕ → Input → ℕ → ℕ → ℕ → ℕ
parse_uint64_loop zero input i shift rv = rv
parse_uint64_loop (suc rounds) input i shift rv =
    parse_uint64_loop rounds input (i + 1) (shift + 7)
      (bit_or rv (u64 (bit_and (input i) 0x7f <<< shift)))

unfoldable pub parse_uint64 : ℕ → Input → ℕ
parse_uint64 len input =
    let rv = bit_or (bit_and (input 0) 0x7f) (bit_and (input 1) 0x7f <<< 7) in
    let rv = bit_or (bit_or rv (bit_and (input 2) 0x7f <<< 14)) (bit_and (input 3) 0x7f <<< 21) in
    if ltb len 5 then parse_uint32 len input else parse_uint64_loop (len - 4) input 4 28 rv

unfoldable pub unzigzag64 : ℕ → ℕ
unzigzag64 v = if bit_and v 1 == 0 then v >>> 1 else u64 (u64 (2 ^ 64 - v >>> 1) + (2 ^ 64 - 1))

-- With `IS_LITTLE_ENDIAN`, `memcpy (&t, data, 8)`.
unfoldable pub parse_fixed_uint64 : Input → ℕ
parse_fixed_uint64 input = parse_fixed_uint32 input + parse_fixed_uint32 (advance input 4) * 2 ^ 32

-- Without it.
unfoldable pub parse_fixed_uint64_portable : Input → ℕ
parse_fixed_uint64_portable input =
    bit_or (parse_fixed_uint32_portable input)
      (u64 (parse_fixed_uint32_portable (advance input 4) <<< 32))

-- `for (i = 0; i < len; i++)`
unfoldable pub parse_boolean_loop : ℕ → Input → ℕ → ℕ
parse_boolean_loop zero input i = 0
parse_boolean_loop (suc rounds) input i =
    if bit_and (input i) 0x7f == 0 then parse_boolean_loop rounds input (i + 1) else 1

unfoldable pub parse_boolean : ℕ → Input → ℕ
parse_boolean len input = parse_boolean_loop len input 0
