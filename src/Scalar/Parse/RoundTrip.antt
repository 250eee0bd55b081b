-- ===== src/Scalar/Parse/RoundTrip.antt =====
-- What `Parse` reads back is what stands in the encoding.
use protobuf_c.Base.{
  ◌<<<◌, ℕ, zero, suc, ◌+◌, ◌*◌, ◌/◌, ◌%◌, ◌^◌, ◌<◌, ◌≤◌, ◌≡◌, arith, ltb, u32, if◌then◌else◌,
  length, bit_or, IsU64,
}
use protobuf_c.Base.Bits.{bit_or_low, bit_and_7f}
use protobuf_c.Memory.Input.{Input, HoldsAt}
use protobuf_c.Scalar.Base128.{groups, varint, length-groups, varint_wide}
use protobuf_c.Scalar.Parse.{parse_uint64_loop, parse_uint64, parse_uint32}
use native.Mathlib.Decide.{dec_lt}
use protobuf_c.Scalar.Parse.Groups.{join_group, groups_apart, group_fits}

parse_uint64_loop-groups :
    (k w : ℕ) (input : Input) (i shift rv : ℕ)
    → w < 128 ^ suc k
    → rv < 2 ^ shift
    → IsU64 (rv + w * 2 ^ shift)
    → HoldsAt input i (groups k w)
    → parse_uint64_loop (length (groups k w)) input i shift rv ≡ rv + w * 2 ^ shift
unfolding parse_uint64_loop groups
parse_uint64_loop-groups zero w input i shift rv fits low total h =
    join_group 64 (input i) w rv shift (omega arith) low (omega arith)
parse_uint64_loop-groups (suc k) w input i shift rv fits low total h = elim (dec_lt w 128) [
  | yes small ↦ ground (arith, join_group 64 (input i) w rv shift)
  | no large ↦ ground (
    arith,
    groups_apart w shift,
    group_fits (w % 128) shift,
    join_group 64 (input i) (w % 128) rv shift,
    parse_uint64_loop-groups k (w / 128) input (i + 1) (shift + 7) (rv + w % 128 * 2 ^ shift)
        (omega arith),
  )
]

-- The groups that are read, as a sum.
group_sum : (b0 b1 b2 b3 : ℕ) → ℕ
group_sum b0 b1 b2 b3 = b0 % 128 + b1 % 128 * 2 ^ 7 + b2 % 128 * 2 ^ 14 + b3 % 128 * 2 ^ 21

two_groups : (b0 b1 : ℕ) → bit_or (b0 % 128) (b1 % 128 * 2 ^ 7) ≡ b0 % 128 + b1 % 128 * 2 ^ 7
two_groups b0 b1 = bit_or_low 7 (b1 % 128) (b0 % 128) (omega arith)

three_groups :
    (b0 b1 b2 : ℕ)
    → bit_or (b0 % 128 + b1 % 128 * 2 ^ 7) (b2 % 128 * 2 ^ 14)
      ≡ b0 % 128 + b1 % 128 * 2 ^ 7 + b2 % 128 * 2 ^ 14
three_groups b0 b1 b2 = bit_or_low 14 (b2 % 128) (b0 % 128 + b1 % 128 * 2 ^ 7) (omega arith)

four_groups :
    (b0 b1 b2 b3 : ℕ)
    → bit_or (b0 % 128 + b1 % 128 * 2 ^ 7 + b2 % 128 * 2 ^ 14) (b3 % 128 * 2 ^ 21)
      ≡ group_sum b0 b1 b2 b3
unfolding group_sum
four_groups b0 b1 b2 b3 =
    bit_or_low 21 (b3 % 128) (b0 % 128 + b1 % 128 * 2 ^ 7 + b2 % 128 * 2 ^ 14) (omega arith)

five_groups :
    (b0 b1 b2 b3 b4 : ℕ)
    → bit_or (group_sum b0 b1 b2 b3) (u32 (b4 <<< 28)) ≡ group_sum b0 b1 b2 b3 + b4 % 16 * 2 ^ 28
unfolding group_sum
five_groups b0 b1 b2 b3 b4 =
    let top : u32 (b4 <<< 28) ≡ b4 % 16 * 2 ^ 28 = omega arith in
    rw top (bit_or_low 28 (b4 % 16) (group_sum b0 b1 b2 b3) (omega arith))

-- `parse_uint32`, by the number of bytes.
parse_uint32_sum :
    (len : ℕ) (input : Input)
    → parse_uint32 len input ≡ (
        if ltb 4 len
        then group_sum (input 0) (input 1) (input 2) (input 3) + input 4 % 16 * 2 ^ 28
        else if ltb 3 len
        then group_sum (input 0) (input 1) (input 2) (input 3)
        else if ltb 2 len
        then input 0 % 128 + input 1 % 128 * 2 ^ 7 + input 2 % 128 * 2 ^ 14
        else if ltb 1 len
        then input 0 % 128 + input 1 % 128 * 2 ^ 7
        else input 0 % 128)
unfolding parse_uint32
parse_uint32_sum len input =
    rw
      (
        bit_and_7f (input 0),
        bit_and_7f (input 1),
        bit_and_7f (input 2),
        bit_and_7f (input 3),
        two_groups (input 0) (input 1),
        three_groups (input 0) (input 1) (input 2),
        four_groups (input 0) (input 1) (input 2) (input 3),
        five_groups (input 0) (input 1) (input 2) (input 3) (input 4),
      )
      (ground arith)

-- What the bytes of an encoding of more than 28 bits hold.
record HoldsWide (v : ℕ) (input : Input) : Type 0 where
  low : group_sum (input 0) (input 1) (input 2) (input 3) ≡ v % 2 ^ 28
  high : input 4 % 16 ≡ v / 2 ^ 28 % 16
  tail : HoldsAt input 4 (groups 5 (v / 2 ^ 28))
  long : length (varint v) ≡ length (groups 5 (v / 2 ^ 28)) + 4

first_group :
    (k w : ℕ) (input : Input) (i : ℕ) → HoldsAt input i (groups (suc k) w) → input i % 16 ≡ w % 16
unfolding groups
first_group k w input i h = ground arith

wide_input : (v : ℕ) (input : Input) → 2 ^ 28 ≤ v → HoldsAt input 0 (varint v) → HoldsWide v input
unfolding group_sum
wide_input v input large h =
    let (e0, (e1, (e2, (e3, rest)))) = rw (varint_wide v large) at h in
    record {
      low = rw (e0, e1, e2, e3) (omega arith);
      high = first_group 4 (v / 2 ^ 28) input 4 rest;
      tail = rest;
      long = rw (varint_wide v large) (omega arith);
    }

-- An encoding of 28 bits.
narrow_input :
    (v : ℕ) (input : Input)
    → v < 2 ^ 28
    → HoldsAt input 0 (varint v)
    → (parse_uint32 (length (varint v)) input ≡ v) × (length (varint v) < 5)
unfolding varint groups group_sum
narrow_input v input small h = ground (arith, parse_uint32_sum (length (varint v)) input)

-- `parse_uint32` reads the low 32 bits of any 64-bit value from its base-128 encoding.
pub parse_uint32-varint :
    (v : ℕ) (input : Input)
    → IsU64 v
    → HoldsAt input 0 (varint v)
    → parse_uint32 (length (varint v)) input ≡ u32 v
parse_uint32-varint v input fits h = elim (dec_lt v (2 ^ 28)) [
  | yes small ↦ omega (arith, narrow_input v input small h)
  | no large ↦ ground (
    arith,
    wide_input v input (omega arith) h,
    parse_uint32_sum (length (varint v)) input,
    length-groups 5 (v / 2 ^ 28),
  )
]

-- `parse_uint64` reads any 64-bit value back from its base-128 encoding.
pub parse_uint64-varint :
    (v : ℕ) (input : Input)
    → IsU64 v
    → HoldsAt input 0 (varint v)
    → parse_uint64 (length (varint v)) input ≡ v
unfolding parse_uint64
parse_uint64-varint v input fits h = elim (dec_lt v (2 ^ 28)) [
  | yes small ↦ ground (arith, narrow_input v input small h)
  | no large ↦
      let wide = wide_input v input (omega arith) h in
      let start : group_sum (input 0) (input 1) (input 2) (input 3) < 2 ^ 28 =
        omega (arith, wide.low) in
      rw
        (
          bit_and_7f (input 0),
          bit_and_7f (input 1),
          bit_and_7f (input 2),
          bit_and_7f (input 3),
          two_groups (input 0) (input 1),
          three_groups (input 0) (input 1) (input 2),
          four_groups (input 0) (input 1) (input 2) (input 3),
          wide.long,
        )
        (ground (
          arith,
          wide.low,
          length-groups 5 (v / 2 ^ 28),
          parse_uint64_loop-groups 5 (v / 2 ^ 28) input 4 28
              (group_sum (input 0) (input 1) (input 2) (input 3)) (omega arith) start
              (omega (arith, wide.low)) wide.tail,
        ))
]
