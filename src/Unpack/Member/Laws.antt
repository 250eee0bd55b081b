-- ===== src/Unpack/Member/Laws.antt =====
-- A scanned member lies in the input, and a member that was encoded is scanned whole.
use protobuf_c.Base.{
  ℕ, zero, suc, ◌+◌, ◌^◌, ◌<◌, ◌≤◌, ◌≡◌, arith, u32, IsU32, IsU64, ltb, if◌then◌else◌, some, List,
  length, length-append, Option-cases, inl, inr,
}
use protobuf_c.Base.Bits.{bit_and_80}
use protobuf_c.Memory.Input.{Input, HoldsAt, HoldsAt-append}
use protobuf_c.Scalar.Size.{zigzag32, zigzag64, zigzag32-IsU32, zigzag64-IsU64}
use protobuf_c.Scalar.Base128.{varint, sign_extend}
use protobuf_c.Scalar.Parse.Signed.{sign_extend-IsU64}
use protobuf_c.Message.{
  FieldType, int32, sint32, sfixed32, int64, sint64, sfixed64, uint32, fixed32, uint64, fixed64,
  float, double, bool, enum, string, bytes, message, Value, as_word32, as_word64, as_word32-IsU32,
  as_word64-IsU64, as_string, as_binary, as_submessage, wire_type_of, wire_code,
}
use protobuf_c.Message.Encode.{encode_value, prefixed, pointee, encode_pointer}
use protobuf_c.Unpack.Scan.{scan_length_prefixed_data, varint_end_loop}
use protobuf_c.Unpack.Scan.Laws.{
  length-varint, varint_end_loop-varint, scan_length_prefixed_data-varint,
}
use protobuf_c.Unpack.Member.{scan_member, scan_prefixed, scan_varint_member}

varint_end_loop-lt :
    (rounds : ℕ) (input : Input) (i j : ℕ)
    → varint_end_loop rounds input i ≡ some j
    → j < i + rounds
unfolding varint_end_loop
varint_end_loop-lt zero input i j e = cc
varint_end_loop-lt (suc rounds) input i j e =
    ground (arith, varint_end_loop-lt rounds input (i + 1) j)

scan_varint_member-within :
    (rem : ℕ) (input : Input) (len pref_len : ℕ)
    → scan_varint_member rem input ≡ some (len, pref_len)
    → (1 ≤ len) × (len ≤ rem)
unfolding scan_varint_member
scan_varint_member-within rem input len pref_len e =
    elim (Option-cases (varint_end_loop (if ltb rem 10 then rem else 10) input 0)) [
      | inl p ↦ ground (arith, p)
      | inr (j, p) ↦
          ground (arith, p, varint_end_loop-lt (if ltb rem 10 then rem else 10) input 0 j p)
    ]

-- The sum of the prefix and the length passes the test against the bytes that there are.
scan_length_prefixed_data-le :
    (len : ℕ) (input : Input) → (scan_length_prefixed_data len input).0 ≤ len
unfolding scan_length_prefixed_data
scan_length_prefixed_data-le len input = ground arith

scan_prefixed-within :
    (rem : ℕ) (input : Input) (len pref_len : ℕ)
    → scan_prefixed rem input ≡ some (len, pref_len)
    → (1 ≤ len) × (len ≤ rem)
unfolding scan_prefixed
scan_prefixed-within rem input len pref_len e =
    ground (arith, scan_length_prefixed_data-le rem input)

-- Whatever the input holds, a member that is scanned takes a byte at least, and no more bytes than
-- there are.
pub scan_member-within :
    (wire_type rem : ℕ) (input : Input) (len pref_len : ℕ)
    → scan_member wire_type rem input ≡ some (len, pref_len)
    → (1 ≤ len) × (len ≤ rem)
unfolding scan_member
scan_member-within wire_type rem input len pref_len e = ground (
  arith,
  scan_varint_member-within rem input len pref_len,
  scan_prefixed-within rem input len pref_len,
)

scan_varint_member-varint :
    (v rem : ℕ) (input : Input)
    → IsU64 v
    → length (varint v) ≤ rem
    → HoldsAt input 0 (varint v)
    → scan_varint_member rem input ≡ some (length (varint v), 0)
unfolding scan_varint_member
scan_varint_member-varint v rem input fits long h =
    ground (arith, length-varint v, varint_end_loop-varint v (if ltb rem 10 then rem else 10) input)

pub scan_prefixed-prefixed :
    (bs : List ℕ) (rem : ℕ) (input : Input)
    → IsU32 (length (prefixed bs))
    → length (prefixed bs) ≤ rem
    → HoldsAt input 0 (prefixed bs)
    → scan_prefixed rem input ≡ some (length (prefixed bs), length (varint (u32 (length bs))))
unfolding scan_prefixed
scan_prefixed-prefixed bs rem input fits long h =
    let small : length (varint (u32 (length bs))) + length bs < 2 ^ 32 = omega (arith, total) in
    let there : length (varint (u32 (length bs))) + length bs ≤ rem = omega (arith, total) in
    let size : u32 (length bs) ≡ length bs = omega (arith, total) in
    let front = (HoldsAt-append input 0 (varint (u32 (length bs))) bs h).0 in
    rw
      (
        scan_length_prefixed_data-varint (u32 (length bs)) rem input (omega arith)
            (omega (arith, total)) front,
        total,
      )
      (ground (arith, small, there, size, length-varint (u32 (length bs))))
  where
    total : length (prefixed bs) ≡ length (varint (u32 (length bs))) + length bs
    total = length-append (varint (u32 (length bs))) bs

varint_end_loop-small :
    (rounds : ℕ) (input : Input)
    → 1 ≤ rounds
    → input 0 < 128
    → varint_end_loop rounds input 0 ≡ some 0
unfolding varint_end_loop
varint_end_loop-small zero input some_rounds small = ground arith
varint_end_loop-small (suc rounds) input some_rounds small = ground (arith, bit_and_80 (input 0))

scan_varint_member-small :
    (rem : ℕ) (input : Input) → 1 ≤ rem → input 0 < 128 → scan_varint_member rem input ≡ some (1, 0)
unfolding scan_varint_member
scan_varint_member-small rem input some_bytes small =
    ground (arith, varint_end_loop-small (if ltb rem 10 then rem else 10) input)

-- The bytes of a value's length, where there is one.
abbrev pub prefix_len : {X : Type 0} → (X → List ℕ) → FieldType → Value X → ℕ
prefix_len sub string v = length (varint (u32 (length (pointee (as_string v)))))
prefix_len sub bytes v = length (varint (u32 (length (as_binary v))))
prefix_len sub message v = length (varint (u32 (length (encode_pointer sub (as_submessage v)))))
prefix_len sub type v = 0

-- A value that was encoded, followed by anything, is scanned whole, by the wire type of its field's
-- type, with the length of its length prefix, if the encoding takes less than 2 ^ 32 bytes.
pub scan_member-encode :
    {X : Type 0} (sub : X → List ℕ) (type : FieldType) (v : Value X) (rem : ℕ) (input : Input)
    → IsU32 (length (encode_value sub type v))
    → length (encode_value sub type v) ≤ rem
    → HoldsAt input 0 (encode_value sub type v)
    → scan_member (wire_code (wire_type_of type)) rem input
      ≡ some (length (encode_value sub type v), prefix_len sub type v)
unfolding scan_member encode_value
scan_member-encode sub int32 v rem input fits long h =
    scan_varint_member-varint (sign_extend (as_word32 v)) rem input
      (sign_extend-IsU64 (as_word32 v) (as_word32-IsU32 v)) long h
scan_member-encode sub sint32 v rem input fits long h =
    scan_varint_member-varint (zigzag32 (as_word32 v)) rem input
      (omega (arith, zigzag32-IsU32 (as_word32 v))) long h
scan_member-encode sub uint32 v rem input fits long h =
    scan_varint_member-varint (as_word32 v) rem input (omega (arith, as_word32-IsU32 v)) long h
scan_member-encode sub enum v rem input fits long h =
    scan_varint_member-varint (as_word32 v) rem input (omega (arith, as_word32-IsU32 v)) long h
scan_member-encode sub int64 v rem input fits long h =
    scan_varint_member-varint (as_word64 v) rem input (as_word64-IsU64 v) long h
scan_member-encode sub sint64 v rem input fits long h =
    scan_varint_member-varint (zigzag64 (as_word64 v)) rem input (zigzag64-IsU64 (as_word64 v)) long
      h
scan_member-encode sub uint64 v rem input fits long h =
    scan_varint_member-varint (as_word64 v) rem input (as_word64-IsU64 v) long h
scan_member-encode sub sfixed32 v rem input fits long h = ground arith
scan_member-encode sub fixed32 v rem input fits long h = ground arith
scan_member-encode sub float v rem input fits long h = ground arith
scan_member-encode sub sfixed64 v rem input fits long h = ground arith
scan_member-encode sub fixed64 v rem input fits long h = ground arith
scan_member-encode sub double v rem input fits long h = ground arith
scan_member-encode sub bool v rem input fits long h =
    let small : input 0 < 128 = ground arith in scan_varint_member-small rem input long small
scan_member-encode sub string v rem input fits long h =
    scan_prefixed-prefixed _ rem input fits long h
scan_member-encode sub bytes v rem input fits long h =
    scan_prefixed-prefixed _ rem input fits long h
scan_member-encode sub message v rem input fits long h =
    scan_prefixed-prefixed _ rem input fits long h
