-- ===== src/Scalar/Size.antt =====
-- Sizes of scalars on the wire, and the zigzag transforms: src/google/protobuf-c/protobuf-c.c,
-- "get_packed_size()". A signed integer is its bit pattern; `- v` is its two's complement.
use protobuf_c.Base.{
  IsU32, IsU64, arith, ℕ, ◌+◌, ◌-◌, ◌*◌, ◌^◌, u32, u64, ◌>>>◌, is_negative32, is_negative64, ltb,
  ◌==◌, if◌then◌else◌,
}

unfoldable pub get_tag_size : ℕ → ℕ
get_tag_size number =
    if ltb number (2 ^ 4)
    then 1
    else if ltb number (2 ^ 11)
    then 2
    else if ltb number (2 ^ 18)
    then 3
    else if ltb number (2 ^ 25)
    then 4
    else 5

unfoldable pub uint32_size : ℕ → ℕ
uint32_size v =
    if ltb v (2 ^ 7)
    then 1
    else if ltb v (2 ^ 14)
    then 2
    else if ltb v (2 ^ 21)
    then 3
    else if ltb v (2 ^ 28)
    then 4
    else 5

unfoldable pub int32_size : ℕ → ℕ
int32_size v =
    if is_negative32 v
    then 10
    else if ltb v (2 ^ 7)
    then 1
    else if ltb v (2 ^ 14)
    then 2
    else if ltb v (2 ^ 21)
    then 3
    else if ltb v (2 ^ 28)
    then 4
    else 5

-- `(uint32_t) (-v) * 2 - 1` for a negative `v`, else `v * 2`.
unfoldable pub zigzag32 : ℕ → ℕ
zigzag32 v =
    if is_negative32 v then u32 (u32 (u32 (2 ^ 32 - v) * 2) + (2 ^ 32 - 1)) else u32 (v * 2)

unfoldable pub sint32_size : ℕ → ℕ
sint32_size v = uint32_size (zigzag32 v)

unfoldable pub uint64_size : ℕ → ℕ
uint64_size v =
    let upper_v = u32 (v >>> 32) in
    if upper_v == 0
    then uint32_size (u32 v)
    else if ltb upper_v (2 ^ 3)
    then 5
    else if ltb upper_v (2 ^ 10)
    then 6
    else if ltb upper_v (2 ^ 17)
    then 7
    else if ltb upper_v (2 ^ 24)
    then 8
    else if ltb upper_v (2 ^ 31)
    then 9
    else 10

unfoldable pub zigzag64 : ℕ → ℕ
zigzag64 v =
    if is_negative64 v then u64 (u64 (u64 (2 ^ 64 - v) * 2) + (2 ^ 64 - 1)) else u64 (v * 2)

unfoldable pub sint64_size : ℕ → ℕ
sint64_size v = uint64_size (zigzag64 v)

pub zigzag32-IsU32 : (v : ℕ) → IsU32 (zigzag32 v)
unfolding zigzag32
zigzag32-IsU32 v = ground arith

pub zigzag64-IsU64 : (v : ℕ) → IsU64 (zigzag64 v)
unfolding zigzag64
zigzag64-IsU64 v = ground arith
