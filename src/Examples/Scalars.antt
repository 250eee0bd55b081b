-- ===== src/Examples/Scalars.antt =====
-- Values on either side of the sizes' thresholds, and the scalar theorems at concrete inputs.
use protobuf_c.Base.{◌+◌, ◌-◌, ◌*◌, ◌^◌, ◌≡◌, length, arith, refl}
use protobuf_c.Memory.{Memory, Writes, memcpy}
use protobuf_c.Scalar.Size.{int32_size, uint64_size, get_tag_size, zigzag32}
use protobuf_c.Scalar.Base128.{varint, sign_extend}
use protobuf_c.Scalar.Length.{int32_size-length, uint64_size-length, get_tag_size-length}
use protobuf_c.Scalar.Pack.{
  int32_pack, uint64_pack, tag_pack, fixed32_pack_portable, fixed64_pack_portable, object32,
  object64,
}
use protobuf_c.Scalar.Pack.Writes.{
  int32_pack-Writes, uint64_pack-Writes, tag_pack-Writes, fixed_pack_portable,
}

blank : Memory
blank i = 0

-- -1, 1, -2 and the least `int32_t` in zigzag.
zigzag32_runs :
    (zigzag32 (2 ^ 32 - 1) ≡ 1)
    × (zigzag32 1 ≡ 2)
    × (zigzag32 (2 ^ 32 - 2) ≡ 3)
    × (zigzag32 (2 ^ 31) ≡ 2 ^ 32 - 1)
unfolding zigzag32
zigzag32_runs = (refl, refl, refl, refl)

int32_size-length_example : int32_size (2 ^ 32 - 5) ≡ length (varint (sign_extend (2 ^ 32 - 5)))
int32_size-length_example = int32_size-length (2 ^ 32 - 5) (omega arith)

uint64_size-length_example : uint64_size (2 ^ 63) ≡ length (varint (2 ^ 63))
uint64_size-length_example = uint64_size-length (2 ^ 63) (omega arith)

get_tag_size-length_example : length (varint (16 * 8 + 2)) ≡ get_tag_size 16
get_tag_size-length_example = get_tag_size-length 16 2 (omega arith) (omega arith)

int32_pack-Writes_example : int32_pack (2 ^ 32 - 5) 7 blank ≡ (
  length (varint (sign_extend (2 ^ 32 - 5))),
  memcpy blank 7 (varint (sign_extend (2 ^ 32 - 5))),
)
int32_pack-Writes_example = int32_pack-Writes (2 ^ 32 - 5) (omega arith) 7 blank

uint64_pack-Writes_example :
    uint64_pack (2 ^ 40 + 9) 7 blank
    ≡ (length (varint (2 ^ 40 + 9)), memcpy blank 7 (varint (2 ^ 40 + 9)))
uint64_pack-Writes_example = uint64_pack-Writes (2 ^ 40 + 9) (omega arith) 7 blank

tag_pack-Writes_example :
    tag_pack (2 ^ 29) 7 blank ≡ (length (varint (2 ^ 29 * 8)), memcpy blank 7 (varint (2 ^ 29 * 8)))
tag_pack-Writes_example = tag_pack-Writes (2 ^ 29) (omega arith) 7 blank

fixed_pack_portable_example :
    Writes (fixed32_pack_portable 0x12345678) (object32 0x12345678)
    × Writes (fixed64_pack_portable 0x12345678) (object64 0x12345678)
fixed_pack_portable_example = fixed_pack_portable 0x12345678
