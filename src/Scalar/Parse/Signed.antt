-- ===== src/Scalar/Parse/Signed.antt =====
-- The signed integers and the 32-bit ones, from what the pack routines write for them.
use protobuf_c.Base.{ℕ, ◌≡◌, ◌∙◌, ap, arith, length, IsU32, IsU64, u32}
use protobuf_c.Memory.Input.{Input, HoldsAt}
use protobuf_c.Scalar.Size.{zigzag32, zigzag64, zigzag32-IsU32, zigzag64-IsU64}
use protobuf_c.Scalar.Base128.{varint, sign_extend}
use protobuf_c.Scalar.Parse.{parse_int32, parse_uint32, parse_uint64, unzigzag32, unzigzag64}
use protobuf_c.Scalar.Parse.RoundTrip.{parse_uint32-varint, parse_uint64-varint}
use protobuf_c.Scalar.Parse.Values.{unzigzag32-zigzag32, unzigzag64-zigzag64}

pub sign_extend-IsU64 : (w : ℕ) → IsU32 w → IsU64 (sign_extend w)
sign_extend-IsU64 w h = ground arith

u32-sign_extend : (w : ℕ) → IsU32 w → u32 (sign_extend w) ≡ w
u32-sign_extend w h = ground arith

u32-of_u32 : (w : ℕ) → IsU32 w → u32 w ≡ w
u32-of_u32 w h = omega arith

module _ (w : ℕ) (input : Input) where
  -- `parse_int32` reads any 32-bit pattern back from the base-128 encoding of the sign-extended value,
  -- the ten bytes of a negative number included.
  pub parse_int32-varint :
      IsU32 w
      → HoldsAt input 0 (varint (sign_extend w))
      → parse_int32 (length (varint (sign_extend w))) input ≡ w
  unfolding parse_int32
  parse_int32-varint fits h =
      parse_uint32-varint (sign_extend w) input (sign_extend-IsU64 w fits) h
      ∙ u32-sign_extend w fits

  pub parse_uint32-varint_u32 :
      IsU32 w → HoldsAt input 0 (varint w) → parse_uint32 (length (varint w)) input ≡ w
  parse_uint32-varint_u32 fits h = parse_uint32-varint w input (omega arith) h ∙ u32-of_u32 w fits

  pub unzigzag32-varint :
      IsU32 w
      → HoldsAt input 0 (varint (zigzag32 w))
      → unzigzag32 (parse_uint32 (length (varint (zigzag32 w))) input) ≡ w
  unzigzag32-varint fits h =
      ap unzigzag32 (
        parse_uint32-varint (zigzag32 w) input (omega (arith, zigzag32-IsU32 w)) h
        ∙ u32-of_u32 (zigzag32 w) (zigzag32-IsU32 w))
      ∙ (unzigzag32-zigzag32 w fits).0

  pub unzigzag64-varint :
      IsU64 w
      → HoldsAt input 0 (varint (zigzag64 w))
      → unzigzag64 (parse_uint64 (length (varint (zigzag64 w))) input) ≡ w
  unzigzag64-varint fits h =
      ap unzigzag64 (parse_uint64-varint (zigzag64 w) input (zigzag64-IsU64 w) h)
      ∙ (unzigzag64-zigzag64 w fits).0
