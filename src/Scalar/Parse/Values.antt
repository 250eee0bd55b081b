-- ===== src/Scalar/Parse/Values.antt =====
-- `unzigzag32`, `unzigzag64`, the fixed widths and `parse_boolean` undo what the pack routines do.
use protobuf_c.Base.{
  ℕ, zero, suc, ◌+◌, ◌*◌, ◌/◌, ◌^◌, ◌<◌, ◌≡◌, refl, arith, ◌==◌, u32, u64, if◌then◌else◌, length,
  bit_or, IsByte, IsU32, IsU64, ◌<<<◌,
}
use native.Mathlib.Decide.{dec_lt}
use protobuf_c.Base.Bits.{bit_or_low, bit_and_7f, bit_and_1}
use protobuf_c.Memory.Input.{Input, HoldsAt, advance}
use protobuf_c.Scalar.Size.{zigzag32, zigzag64}
use protobuf_c.Scalar.Base128.{groups, varint}
use protobuf_c.Scalar.Pack.{object32, object64}
use protobuf_c.Scalar.Parse.{
  unzigzag32, unzigzag64, parse_fixed_uint32, parse_fixed_uint64, parse_fixed_uint32_portable,
  parse_fixed_uint64_portable, parse_boolean_loop, parse_boolean,
}

-- `zigzag32` and `unzigzag32` are inverse to one another on 32-bit patterns.
pub unzigzag32-zigzag32 :
    (v : ℕ) → IsU32 v → (unzigzag32 (zigzag32 v) ≡ v) × (zigzag32 (unzigzag32 v) ≡ v)
unfolding unzigzag32 zigzag32
unzigzag32-zigzag32 v h = (rw (bit_and_1) (ground arith), rw bit_and_1 (ground arith))

-- `zigzag64` and `unzigzag64` are inverse to one another on 64-bit patterns.
pub unzigzag64-zigzag64 :
    (v : ℕ) → IsU64 v → (unzigzag64 (zigzag64 v) ≡ v) × (zigzag64 (unzigzag64 v) ≡ v)
unfolding unzigzag64 zigzag64
unzigzag64-zigzag64 v h = (rw (bit_and_1) (ground arith), rw bit_and_1 (ground arith))

pub parse_fixed_uint32-object32 :
    (v : ℕ) (input : Input) → IsU32 v → HoldsAt input 0 (object32 v) → parse_fixed_uint32 input ≡ v
unfolding parse_fixed_uint32
parse_fixed_uint32-object32 v input fits h = omega arith

pub parse_fixed_uint64-object64 :
    (v : ℕ) (input : Input) → IsU64 v → HoldsAt input 0 (object64 v) → parse_fixed_uint64 input ≡ v
unfolding parse_fixed_uint64 parse_fixed_uint32
parse_fixed_uint64-object64 v input fits h = omega arith

-- Three joins of bytes.
bytes_joined :
    (b0 b1 b2 b3 : ℕ)
    → IsByte b0
    → IsByte b1
    → IsByte b2
    → IsByte b3
    → bit_or (bit_or (bit_or b0 (b1 <<< 8)) (b2 <<< 16)) (u32 (b3 <<< 24))
      ≡ b0 + b1 * 2 ^ 8 + b2 * 2 ^ 16 + b3 * 2 ^ 24
bytes_joined b0 b1 b2 b3 h0 h1 h2 h3 =
    let top : u32 (b3 <<< 24) ≡ b3 * 2 ^ 24 = omega arith in
    rw
      (
        top,
        bit_or_low 8 b1 b0 (omega arith),
        bit_or_low 16 b2 (b0 + b1 * 2 ^ 8) (omega arith),
        bit_or_low 24 b3 (b0 + b1 * 2 ^ 8 + b2 * 2 ^ 16) (omega arith),
      )
      refl

fixed_uint32_portable :
    (input : Input)
    → ((i : ℕ) → IsByte (input i))
    → (parse_fixed_uint32_portable input ≡ parse_fixed_uint32 input)
      × IsU32 (parse_fixed_uint32 input)
unfolding parse_fixed_uint32 parse_fixed_uint32_portable
fixed_uint32_portable input h = (
  bytes_joined (input 0) (input 1) (input 2) (input 3) (h 0) (h 1) (h 2) (h 3),
  omega (arith, h 0, h 1, h 2, h 3),
)

words_joined :
    (low high : ℕ) → IsU32 low → IsU32 high → bit_or low (u64 (high <<< 32)) ≡ low + high * 2 ^ 32
words_joined low high hl hh =
    let top : u64 (high <<< 32) ≡ high * 2 ^ 32 = omega arith in rw top (bit_or_low 32 high low hl)

-- On bytes, the variants of the fixed-width reads for a big-endian machine read what `memcpy` gives
-- a little-endian one.
pub parse_fixed_portable :
    (input : Input)
    → ((i : ℕ) → IsByte (input i))
    → (parse_fixed_uint32_portable input ≡ parse_fixed_uint32 input)
      × (parse_fixed_uint64_portable input ≡ parse_fixed_uint64 input)
unfolding parse_fixed_uint64 parse_fixed_uint64_portable
parse_fixed_portable input h =
    let (low, low_fits) = fixed_uint32_portable input h in
    let (high, high_fits) = fixed_uint32_portable (advance input 4) (λ i. h (4 + i)) in
    (low, rw (low, high) (words_joined _ _ low_fits high_fits))

parse_boolean_loop-groups :
    (k v : ℕ) (input : Input) (i : ℕ)
    → v < 128 ^ suc k
    → HoldsAt input i (groups k v)
    → parse_boolean_loop (length (groups k v)) input i ≡ (if v == 0 then 0 else 1)
unfolding parse_boolean_loop groups
parse_boolean_loop-groups zero v input i fits h = rw bit_and_7f (ground arith)
parse_boolean_loop-groups (suc k) v input i fits h = elim (dec_lt v 128) [
  | yes small ↦ ground (arith, bit_and_7f (input i))
  | no large ↦ ground (
    arith,
    bit_and_7f (input i),
    parse_boolean_loop-groups k (v / 128) input (i + 1) (omega arith),
  )
]

-- `parse_boolean` says of any 64-bit value, from its base-128 encoding, whether it is not zero.
pub parse_boolean-varint :
    (v : ℕ) (input : Input)
    → IsU64 v
    → HoldsAt input 0 (varint v)
    → parse_boolean (length (varint v)) input ≡ (if v == 0 then 0 else 1)
unfolding parse_boolean varint
parse_boolean-varint v input fits h = parse_boolean_loop-groups 9 v input 0 (omega arith) h
