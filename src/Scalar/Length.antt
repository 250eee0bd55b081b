-- ===== src/Scalar/Length.antt =====
-- The sizes of `Size` are the lengths of the encodings, whatever the value.
use protobuf_c.Base.{◌+◌, ℕ, ◌*◌, ◌^◌, ◌<◌, ◌≡◌, arith, length, IsU32, IsU64, ltb, if◌then◌else◌}
use protobuf_c.Scalar.Size.{
  get_tag_size, uint32_size, int32_size, uint64_size, sint32_size, sint64_size, zigzag32, zigzag64,
  zigzag32-IsU32, zigzag64-IsU64,
}
use protobuf_c.Scalar.Base128.{groups, varint, sign_extend}

-- The least number of groups that hold `v`.
length-varint_below :
    (v : ℕ)
    → v < 2 ^ 64
    → length (varint v) ≡ (
        if ltb v (2 ^ 7)
        then 1
        else if ltb v (2 ^ 14)
        then 2
        else if ltb v (2 ^ 21)
        then 3
        else if ltb v (2 ^ 28)
        then 4
        else if ltb v (2 ^ 35)
        then 5
        else if ltb v (2 ^ 42)
        then 6
        else if ltb v (2 ^ 49)
        then 7
        else if ltb v (2 ^ 56)
        then 8
        else if ltb v (2 ^ 63)
        then 9
        else 10)
unfolding varint groups
length-varint_below v h = ground arith

pub uint32_size-length : (v : ℕ) → IsU32 v → uint32_size v ≡ length (varint v)
unfolding uint32_size
uint32_size-length v h = rw (length-varint_below v (omega arith)) (ground arith)

-- `uint64_size` is the length of the base-128 encoding of any 64-bit value.
pub uint64_size-length : (v : ℕ) → IsU64 v → uint64_size v ≡ length (varint v)
unfolding uint64_size uint32_size
uint64_size-length v h = rw (length-varint_below v h) (ground arith)

-- `int32_size` is the length of the encoding of the sign-extended value, for every 32-bit pattern.
pub int32_size-length : (v : ℕ) → IsU32 v → int32_size v ≡ length (varint (sign_extend v))
unfolding int32_size
int32_size-length v h = rw (length-varint_below (sign_extend v) (ground arith)) (ground arith)

-- The tag of a 32-bit field number takes `get_tag_size` bytes, whatever wire type stands in its three
-- low bits.
pub get_tag_size-length :
    (id c : ℕ) → IsU32 id → c < 8 → length (varint (id * 8 + c)) ≡ get_tag_size id
unfolding get_tag_size
get_tag_size-length id c h hc = rw (length-varint_below (id * 8 + c) (omega arith)) (ground arith)

pub sint32_size-length : (v : ℕ) → sint32_size v ≡ length (varint (zigzag32 v))
unfolding sint32_size
sint32_size-length v = uint32_size-length (zigzag32 v) (zigzag32-IsU32 v)

pub sint64_size-length : (v : ℕ) → sint64_size v ≡ length (varint (zigzag64 v))
unfolding sint64_size
sint64_size-length v = uint64_size-length (zigzag64 v) (zigzag64-IsU64 v)
