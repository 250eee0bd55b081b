-- ===== src/Scalar/Pack/Writes.antt =====
-- Each scalar routine of `Pack` writes the encoding that it should, at `out` and nowhere else, and
-- returns its length.
use protobuf_c.Base.{
  ℕ, zero, suc, ◌+◌, ◌-◌, ◌*◌, ◌/◌, ◌%◌, ◌^◌, ◌≤◌, ◌<◌, ◌≡◌, refl, arith, [], ◌∷◌, length, u8, u32,
  IsU32, IsU64, ◌<<<◌, ◌>>>◌, bit_or, bit_and, is_negative32, ltb, ◌==◌, Bool-cases, inl, inr,
  if◌then◌else◌, le→leb,
}
use protobuf_c.Base.Bits.{bit_or_80, bit_or_high, bit_and_7}
use protobuf_c.Memory.{Memory, Writes, store, memcpy}
use protobuf_c.Scalar.Size.{zigzag32, zigzag64, zigzag32-IsU32, zigzag64-IsU64}
use protobuf_c.Scalar.Base128.{
  groups, varint, varint_wide, varint_negative, sign_extend, varint_end, varint_round,
}
use protobuf_c.Scalar.Pack.{
  uint32_pack, int32_pack, sint32_pack, uint64_pack_loop, uint64_pack, sint64_pack, fixed32_pack,
  object32, object64, shift_negative, fixed64_pack, fixed32_pack_portable, fixed64_pack_portable,
  boolean_pack, tag_pack,
}
use mathlib.Core.Path.{fun_ext}
use native.Mathlib.Decide.{dec_lt}

-- Two bytes at different addresses may be written in either order.
store_comm :
    (memory : Memory) (a b x y : ℕ)
    → a < b
    → store (store memory b y) a x ≡ store (store memory a x) b y
store_comm memory a b x y h = fun_ext λ i. unfold store in ground arith

pub uint32_pack-Writes : (v : ℕ) → IsU32 v → Writes (uint32_pack v) (varint v)
unfolding uint32_pack varint memcpy
uint32_pack-Writes v h out memory = ground (
  arith,
  bit_or_80 v,
  bit_or_80 (v / 128),
  bit_or_80 (v / 128 / 128),
  bit_or_80 (v / 128 / 128 / 128),
)

-- The four bytes of `0xff` are written from the last to the first.
four_ff :
    (memory : Memory) (out : ℕ)
    → store
        (store (store (store memory (out + 8) 0xff) (out + 7) 0xff) (out + 6) 0xff)
        (out + 5)
        0xff
      ≡ store
          (store (store (store memory (out + 5) 0xff) (out + 6) 0xff) (out + 7) 0xff)
          (out + 8)
          0xff
four_ff memory out = fun_ext λ i. unfold store in ground arith

-- The five low bytes of a negative `int32_t`, by its arithmetic shifts.
low_bytes :
    (v : ℕ)
    → 2 ^ 31 ≤ v
    → v < 2 ^ 32
    → (u8 (bit_or v 0x80) ≡ v % 128 + 128)
      × (u8 (bit_or (shift_negative v 7) 0x80) ≡ v / 2 ^ 7 % 128 + 128)
      × (u8 (bit_or (shift_negative v 14) 0x80) ≡ v / 2 ^ 14 % 128 + 128)
      × (u8 (bit_or (shift_negative v 21) 0x80) ≡ v / 2 ^ 21 % 128 + 128)
      × (u8 (bit_or (shift_negative v 28) 0x80) ≡ v / 2 ^ 28 + 240)
low_bytes v lo hi = (
  bit_or_80 v,
  omega (arith, bit_or_80 (shift_negative v 7)),
  omega (arith, bit_or_80 (shift_negative v 14)),
  omega (arith, bit_or_80 (shift_negative v 21)),
  omega (arith, bit_or_80 (shift_negative v 28)),
)

int32_pack_negative :
    (v : ℕ) → 2 ^ 31 ≤ v → v < 2 ^ 32 → Writes (int32_pack v) (varint (v + (2 ^ 64 - 2 ^ 32)))
unfolding int32_pack memcpy
int32_pack_negative v lo hi out memory =
    let (b0, b1, b2, b3, b4) = low_bytes v lo hi in
    rw (varint_negative v lo hi, b0, b1, b2, b3, b4, le→leb (2 ^ 31) v lo, four_ff) (ground arith)

-- On a 32-bit pattern `int32_pack` writes the base-128 encoding of the value sign-extended to 64
-- bits, and nothing else, and returns its length.
pub int32_pack-Writes : (v : ℕ) → IsU32 v → Writes (int32_pack v) (varint (sign_extend v))
int32_pack-Writes v h out memory = elim (Bool-cases (is_negative32 v)) [
  | inl neg ↦ rw neg (int32_pack_negative v (ground arith) h out memory)
  | inr nonneg ↦ unfold int32_pack in rw (nonneg) (uint32_pack-Writes v h out memory)
]

pub uint64_pack_loop-Writes :
    (rounds hi rv out : ℕ) (memory : Memory)
    → hi < 128 ^ suc rounds
    → uint64_pack_loop rounds hi rv out memory
      ≡ (rv + length (groups rounds hi), memcpy memory (out + rv) (groups rounds hi))
unfolding uint64_pack_loop groups memcpy
uint64_pack_loop-Writes zero hi rv out memory h = ground arith
uint64_pack_loop-Writes (suc rounds) hi rv out memory h = ground (
  arith,
  bit_or_80 hi,
  uint64_pack_loop-Writes rounds (hi / 128) (rv + 1) out (store memory (out + rv) (hi % 128 + 128)),
)

pub sint32_pack-Writes : (v : ℕ) → Writes (sint32_pack v) (varint (zigzag32 v))
unfolding sint32_pack
sint32_pack-Writes v = uint32_pack-Writes (zigzag32 v) (zigzag32-IsU32 v)

-- The fifth byte, where the two halves of a 64-bit value meet.
middle_last :
    (hi lo : ℕ)
    → hi < 8
    → lo < 2 ^ 32
    → u8 (bit_or (u32 (hi <<< 4)) (lo >>> 28)) ≡ hi * 16 + lo / 2 ^ 28
middle_last hi lo h l = ground (arith, bit_or_high 4 hi (lo / 2 ^ 28))

middle :
    (hi lo : ℕ)
    → lo < 2 ^ 32
    → u8 (bit_or (bit_or ((bit_and hi 7) <<< 4) (lo >>> 28)) 0x80)
      ≡ (hi * 16 + lo / 2 ^ 28) % 128 + 128
middle hi lo l = ground (
  arith,
  bit_and_7 hi,
  bit_or_high 4 (hi % 8) (lo / 2 ^ 28),
  bit_or_80 (hi % 8 * 16 + lo / 2 ^ 28),
)

uint64_pack_wide : (v : ℕ) → v < 2 ^ 64 → 2 ^ 32 ≤ v → Writes (uint64_pack v) (varint v)
unfolding uint64_pack memcpy
uint64_pack_wide v h wide out memory = ground (
  arith,
  varint_wide v,
  bit_or_80 (v % 2 ^ 32),
  bit_or_80 (v % 2 ^ 32 / 2 ^ 7),
  bit_or_80 (v % 2 ^ 32 / 2 ^ 14),
  bit_or_80 (v % 2 ^ 32 / 2 ^ 21),
  middle_last (v / 2 ^ 32) (v % 2 ^ 32),
  middle (v / 2 ^ 32) (v % 2 ^ 32),
  varint_end 5 (v / 2 ^ 28),
  varint_round 4 (v / 2 ^ 28),
  uint64_pack_loop-Writes 4 (v / 2 ^ 28 / 128) 5 out (
      store
        (store
          (store (store (store memory out (v % 128 + 128)) (out + 1) (v / 2 ^ 7 % 128 + 128))
            (out + 2) (v / 2 ^ 14 % 128 + 128))
          (out + 3) (v / 2 ^ 21 % 128 + 128))
        (out + 4) (v / 2 ^ 28 % 128 + 128)),
)

-- `uint64_pack` writes the base-128 encoding of any 64-bit value, and nothing else, and returns its
-- length.
pub uint64_pack-Writes : (v : ℕ) → IsU64 v → Writes (uint64_pack v) (varint v)
uint64_pack-Writes v h out memory = elim (dec_lt v (2 ^ 32)) [
  | yes low ↦ unfold uint64_pack in ground (arith, uint32_pack-Writes v low out memory)
  | no high ↦ uint64_pack_wide v h (omega arith) out memory
]

pub sint64_pack-Writes : (v : ℕ) → Writes (sint64_pack v) (varint (zigzag64 v))
unfolding sint64_pack
sint64_pack-Writes v = uint64_pack-Writes (zigzag64 v) (zigzag64-IsU64 v)

pub fixed32_pack-Writes : (v : ℕ) → Writes (fixed32_pack v) (object32 v)
unfolding fixed32_pack
fixed32_pack-Writes v out memory = refl

pub fixed64_pack-Writes : (v : ℕ) → Writes (fixed64_pack v) (object64 v)
unfolding fixed64_pack
fixed64_pack-Writes v out memory = refl

-- The portable variants of `fixed32_pack` and `fixed64_pack` write the bytes that a little-endian
-- machine copies, and return 4 and 8.
pub fixed_pack_portable :
    (v : ℕ)
    → Writes (fixed32_pack_portable v) (object32 v) × Writes (fixed64_pack_portable v) (object64 v)
unfolding fixed32_pack_portable fixed64_pack_portable memcpy
fixed_pack_portable v = ((λ out memory. ground arith), (λ out memory. ground arith))

pub boolean_pack-Writes : (v : ℕ) → Writes (boolean_pack v) ((if v == 0 then 0 else 1) ∷ [])
unfolding boolean_pack memcpy
boolean_pack-Writes v out memory = refl

-- For every 32-bit field number `tag_pack` writes the base-128 encoding of eight times the number, and
-- nothing else, and returns its length.
pub tag_pack-Writes : (id : ℕ) → IsU32 id → Writes (tag_pack id) (varint (id * 8))
tag_pack-Writes id h out memory = elim (Bool-cases (ltb id (2 ^ 29))) [
  | inl small ↦
      unfold tag_pack in
      rw small (ground (arith, uint32_pack-Writes (id * 8) (ground arith) out memory))
  | inr large ↦
      unfold tag_pack in
      rw large (ground (arith, uint64_pack-Writes (id * 8) (omega arith) out memory))
]
