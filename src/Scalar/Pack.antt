-- ===== src/Scalar/Pack.antt =====
-- What writes one scalar at `out`: src/google/protobuf-c/protobuf-c.c, "pack()". The shifts of a
-- negative `int32_t` are arithmetic.
pub mod Writes
use protobuf_c.Base.{
  ℕ, zero, suc, ◌+◌, ◌-◌, ◌*◌, ◌/◌, ◌%◌, ◌^◌, u8, u32, u64, ◌<<<◌, ◌>>>◌, is_negative32, bit_or,
  bit_and, ltb, leb, ◌==◌, if◌then◌else◌, List, [], ◌∷◌,
}
use protobuf_c.Memory.{Memory, Writer, store, memcpy}
use protobuf_c.Scalar.Size.{zigzag32, zigzag64}

unfoldable pub uint32_pack : ℕ → Writer
uint32_pack value out memory =
    if leb 0x80 value
    then (let memory' = store memory out (u8 (bit_or value 0x80)) in
        let value' = value >>> 7 in
        if leb 0x80 value'
        then (let memory'' = store memory' (out + 1) (u8 (bit_or value' 0x80)) in
            let value'' = value' >>> 7 in
            if leb 0x80 value''
            then (let memory3 = store memory'' (out + 2) (u8 (bit_or value'' 0x80)) in
                let value3 = value'' >>> 7 in
                if leb 0x80 value3
                then (let memory4 = store memory3 (out + 3) (u8 (bit_or value3 0x80)) in
                    let value4 = value3 >>> 7 in (5, store memory4 (out + 4) (u8 value4)))
                else (4, store memory3 (out + 3) (u8 value3)))
            else (3, store memory'' (out + 2) (u8 value'')))
        else (2, store memory' (out + 1) (u8 value')))
    else (1, store memory out (u8 value))

-- `value >> k` for a negative `int32_t`: the sign fills the top `k` bits.
abbrev pub shift_negative : ℕ → ℕ → ℕ
shift_negative value k = value >>> k + (2 ^ 32 - 2 ^ (32 - k))

unfoldable pub int32_pack : ℕ → Writer
int32_pack value out memory =
    if is_negative32 value
    then (let memory = store memory out (u8 (bit_or value 0x80)) in
        let memory = store memory (out + 1) (u8 (bit_or (shift_negative value 7) 0x80)) in
        let memory = store memory (out + 2) (u8 (bit_or (shift_negative value 14) 0x80)) in
        let memory = store memory (out + 3) (u8 (bit_or (shift_negative value 21) 0x80)) in
        let memory = store memory (out + 4) (u8 (bit_or (shift_negative value 28) 0x80)) in
        let memory = store memory (out + 8) 0xff in
        let memory = store memory (out + 7) 0xff in
        let memory = store memory (out + 6) 0xff in
        let memory = store memory (out + 5) 0xff in (10, store memory (out + 9) 0x01))
    else uint32_pack value out memory

unfoldable pub sint32_pack : ℕ → Writer
sint32_pack value = uint32_pack (zigzag32 value)

-- `while (hi >= 128) { out[rv++] = hi | 0x80; hi >>= 7; } out[rv++] = hi; return rv;`
-- `hi` is below 2 ^ 29 here, so four rounds are enough.
unfoldable pub uint64_pack_loop : ℕ → ℕ → ℕ → Writer
uint64_pack_loop zero hi rv out memory = (rv + 1, store memory (out + rv) (u8 hi))
uint64_pack_loop (suc rounds) hi rv out memory =
    let rest =
      uint64_pack_loop rounds (hi >>> 7) (rv + 1) out
        (store memory (out + rv) (u8 (bit_or hi 0x80))) in
    if leb 128 hi then rest else (rv + 1, store memory (out + rv) (u8 hi))

unfoldable pub uint64_pack : ℕ → Writer
uint64_pack value out memory =
    let hi = u32 (value >>> 32) in
    let lo = u32 value in
    if hi == 0
    then uint32_pack lo out memory
    else (let memory = store memory out (u8 (bit_or lo 0x80)) in
        let memory = store memory (out + 1) (u8 (bit_or (lo >>> 7) 0x80)) in
        let memory = store memory (out + 2) (u8 (bit_or (lo >>> 14) 0x80)) in
        let memory = store memory (out + 3) (u8 (bit_or (lo >>> 21) 0x80)) in
        if ltb hi 8
        then (5, store memory (out + 4) (u8 (bit_or (u32 (hi <<< 4)) (lo >>> 28))))
        else (let byte = u8 (bit_or (bit_or ((bit_and hi 7) <<< 4) (lo >>> 28)) 0x80) in
            uint64_pack_loop 4 (hi >>> 3) 5 out (store memory (out + 4) byte)))

unfoldable pub sint64_pack : ℕ → Writer
sint64_pack value = uint64_pack (zigzag64 value)

-- How a little-endian machine holds a `uint32_t` and a `uint64_t`: the bytes that `memcpy` takes.
abbrev pub object32 : ℕ → List ℕ
object32 v = v % 256 ∷ v / 2 ^ 8 % 256 ∷ v / 2 ^ 16 % 256 ∷ v / 2 ^ 24 % 256 ∷ []

abbrev pub object64 : ℕ → List ℕ
object64 v =
    v % 256
    ∷ v / 2 ^ 8 % 256
    ∷ v / 2 ^ 16 % 256
    ∷ v / 2 ^ 24 % 256
    ∷ v / 2 ^ 32 % 256
    ∷ v / 2 ^ 40 % 256
    ∷ v / 2 ^ 48 % 256
    ∷ v / 2 ^ 56 % 256
    ∷ []

-- With `IS_LITTLE_ENDIAN`.
unfoldable pub fixed32_pack : ℕ → Writer
fixed32_pack value out memory = (4, memcpy memory out (object32 value))

unfoldable pub fixed64_pack : ℕ → Writer
fixed64_pack value out memory = (8, memcpy memory out (object64 value))

-- Without it.
unfoldable pub fixed32_pack_portable : ℕ → Writer
fixed32_pack_portable value buf memory =
    let memory = store memory buf (u8 value) in
    let memory = store memory (buf + 1) (u8 (value >>> 8)) in
    let memory = store memory (buf + 2) (u8 (value >>> 16)) in
    (4, store memory (buf + 3) (u8 (value >>> 24)))

unfoldable pub fixed64_pack_portable : ℕ → Writer
fixed64_pack_portable value out memory =
    let (_, memory) = fixed32_pack_portable (u32 value) out memory in
    let (_, memory) = fixed32_pack_portable (u32 (value >>> 32)) (out + 4) memory in (8, memory)

-- A `protobuf_c_boolean` is an `int`.
unfoldable pub boolean_pack : ℕ → Writer
boolean_pack value out memory = (1, store memory out (if value == 0 then 0 else 1))

unfoldable pub tag_pack : ℕ → Writer
tag_pack id out memory =
    if ltb id (2 ^ 29)
    then uint32_pack (u32 (id <<< 3)) out memory
    else uint64_pack (u64 (id <<< 3)) out memory
