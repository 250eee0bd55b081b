-- ===== src/Unpack/Scan/Laws.antt =====
-- What the scans find in an encoding, and in any input.
use native.Mathlib.Decide.{dec_lt}
use protobuf_c.Base.{
  ℕ, zero, suc, ◌+◌, ◌-◌, ◌*◌, ◌/◌, ◌%◌, ◌^◌, ◌<◌, ◌≤◌, ◌≡◌, arith, u32, IsU32, IsU64, ltb,
  if◌then◌else◌, some, length,
}
use protobuf_c.Base.Bits.{bit_and_80}
use protobuf_c.Memory.Input.{Input, HoldsAt}
use protobuf_c.Scalar.Size.{uint32_size}
use protobuf_c.Scalar.Base128.{groups, varint, length-groups}
use protobuf_c.Scalar.Parse.Groups.{groups_apart, group_fits, join_group}
use protobuf_c.Scalar.Length.{uint32_size-length}
use protobuf_c.Unpack.Scan.{
  scan_length_loop, scan_length_prefixed_data, varint_end_loop, scan_varint, max_b128_loop,
}

varint_end_loop-groups :
    (k v rounds : ℕ) (input : Input) (i : ℕ)
    → v < 128 ^ suc k
    → length (groups k v) ≤ rounds
    → HoldsAt input i (groups k v)
    → varint_end_loop rounds input i ≡ some (i + length (groups k v) - 1)
unfolding varint_end_loop groups
varint_end_loop-groups k v zero input i fits long h = absurd (omega (arith, length-groups k v))
varint_end_loop-groups zero v (suc rounds) input i fits long h =
    ground (arith, bit_and_80 (input i))
varint_end_loop-groups (suc k) v (suc rounds) input i fits long h = elim (dec_lt v 128) [
  | yes small ↦ ground (arith, bit_and_80 (input i))
  | no large ↦ ground (
    arith,
    bit_and_80 (input i),
    length-groups k (v / 128),
    varint_end_loop-groups k (v / 128) rounds input (i + 1) (omega arith),
  )
]

pub varint_end_loop-varint :
    (v rounds : ℕ) (input : Input)
    → IsU64 v
    → length (varint v) ≤ rounds
    → HoldsAt input 0 (varint v)
    → varint_end_loop rounds input 0 ≡ some (length (varint v) - 1)
unfolding varint
varint_end_loop-varint v rounds input fits long h =
    ground (arith, varint_end_loop-groups 9 v rounds input 0 (omega arith))

pub length-varint : (v : ℕ) → (1 ≤ length (varint v)) × (length (varint v) ≤ 10)
unfolding varint
length-varint v = omega (arith, length-groups 9 v)

-- `scan_varint` gives the length of the base-128 encoding of a 64-bit value, whatever follows it.
pub scan_varint-varint :
    (v len : ℕ) (input : Input)
    → IsU64 v
    → length (varint v) ≤ len
    → HoldsAt input 0 (varint v)
    → scan_varint len input ≡ length (varint v)
unfolding scan_varint varint
scan_varint-varint v len input fits long h = ground (
  arith,
  length-groups 9 v,
  varint_end_loop-groups 9 v (if ltb 10 len then 10 else len) input 0 (omega arith),
)

scan_length_loop-groups :
    (k w rounds : ℕ) (input : Input) (i shift val : ℕ)
    → w < 128 ^ suc k
    → length (groups k w) ≤ rounds
    → val < 2 ^ shift
    → IsU32 (val + w * 2 ^ shift)
    → HoldsAt input i (groups k w)
    → scan_length_loop rounds input i shift val
      ≡ some (i + length (groups k w) - 1, val + w * 2 ^ shift)
unfolding scan_length_loop groups
scan_length_loop-groups k w zero input i shift val fits long low total h =
    absurd (omega (arith, length-groups k w))
scan_length_loop-groups zero w (suc rounds) input i shift val fits long low total h =
    ground (arith, bit_and_80 (input i), join_group 32 (input i) w val shift)
scan_length_loop-groups (suc k) w (suc rounds) input i shift val fits long low total h =
    elim (dec_lt w 128) [
      | yes small ↦ ground (arith, bit_and_80 (input i), join_group 32 (input i) w val shift)
      | no large ↦ ground (
        arith,
        bit_and_80 (input i),
        groups_apart w shift,
        group_fits (w % 128) shift,
        length-groups k (w / 128),
        join_group 32 (input i) (w % 128) val shift,
        scan_length_loop-groups k (w / 128) rounds input (i + 1) (shift + 7)
            (val + w % 128 * 2 ^ shift) (omega arith),
      )
    ]

pub length-varint_u32 : (v : ℕ) → IsU32 v → length (varint v) ≤ 5
unfolding uint32_size
length-varint_u32 v h = ground (arith, uint32_size-length v h)

length-varint_wide_u32 : (v : ℕ) → IsU32 v → 2 ^ 28 ≤ v → length (varint v) ≡ 5
unfolding uint32_size
length-varint_wide_u32 v h wide = ground (arith, uint32_size-length v h)

-- `scan_length_prefixed_data` on the prefix of a 32-bit length `v`: its two results are the bytes of
-- the prefix and of what it announces, summed in 32 bits, or zero where the sum is more than the
-- input has, and the bytes of the prefix.
pub scan_length_prefixed_data-varint :
    (v len : ℕ) (input : Input)
    → IsU32 v
    → length (varint v) ≤ len
    → HoldsAt input 0 (varint v)
    → scan_length_prefixed_data len input ≡ (
        let total = u32 (length (varint v) + v) in
        (if ltb len total then 0 else total, length (varint v)))
unfolding scan_length_prefixed_data varint
scan_length_prefixed_data-varint v len input fits long h = ground (
  arith,
  length-groups 9 v,
  length-varint_u32 v fits,
  scan_length_loop-groups 9 v (if ltb len 5 then len else 5) input 0 0 0 (omega arith),
)

-- On a length of `2 ^ 32 - 5 + k` for a `k` below 5, at the start of five bytes or more, the sum wraps:
-- `scan_length_prefixed_data` returns `k`, less than the five bytes of the prefix. It is the error value
-- for `k` = 0 only, and accepted for the others.
pub scan_length_overflow :
    (k len : ℕ) (input : Input)
    → k < 5
    → 5 ≤ len
    → HoldsAt input 0 (varint (2 ^ 32 - 5 + k))
    → let (total, prefix_len) = scan_length_prefixed_data len input in
      (total ≡ k) × (prefix_len ≡ 5)
scan_length_overflow k len input small enough h =
    let long = length-varint_wide_u32 (2 ^ 32 - 5 + k) (omega arith) (omega arith) in
    rw
      (
        scan_length_prefixed_data-varint (2 ^ 32 - 5 + k) len input (omega arith)
            (omega (arith, long)) h,
        long,
      )
      (ground arith)

-- The count of ends among the bytes, from any start.
max_b128_loop-add :
    (len : ℕ) (input : Input) (i rv : ℕ)
    → max_b128_loop len input i rv ≡ rv + max_b128_loop len input i 0
unfolding max_b128_loop
max_b128_loop-add zero input i rv = omega arith
max_b128_loop-add (suc len) input i rv = ground (
  arith,
  max_b128_loop-add len input (i + 1) 1,
  max_b128_loop-add len input (i + 1) rv,
  max_b128_loop-add len input (i + 1) (rv + 1),
)

-- Up to an end that was found, there is one.
pub max_b128_loop-end :
    (rounds len : ℕ) (input : Input) (i j : ℕ)
    → rounds ≤ len
    → varint_end_loop rounds input i ≡ some j
    → (i ≤ j)
      × (j < i + rounds)
      × (max_b128_loop len input i 0 ≡ 1 + max_b128_loop (len - (j + 1 - i)) input (j + 1) 0)
unfolding varint_end_loop max_b128_loop
max_b128_loop-end zero len input i j within e = cc
max_b128_loop-end (suc rounds) zero input i j within e = absurd (omega arith)
max_b128_loop-end (suc rounds) (suc len) input i j within e =
    ground
      (arith, max_b128_loop-add len input (i + 1) 1, max_b128_loop-end rounds len input (i + 1) j)
