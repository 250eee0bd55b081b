-- ===== src/Unpack/Loop/Ends.antt =====
-- The loop of the scan ends by itself, and takes no more bytes than there are.
use protobuf_c.Base.{
  ℕ, zero, suc, ◌+◌, ◌-◌, ◌*◌, ◌/◌, ◌^◌, ◌≤◌, ◌≡◌, arith, ltb, if◌then◌else◌, some, bit_and, bit_or,
  u32, IsU32,
}
use protobuf_c.Base.Bits.{bit_or-lt, bit_and_7f}
use protobuf_c.Memory.Input.{Input}
use protobuf_c.Scalar.Parse.{parse_tag_and_wiretype, parse_tag_loop}

parse_tag_loop-within :
    (n : ℕ) (input : Input) (rv shift tag used t : ℕ)
    → parse_tag_loop n input rv shift tag ≡ some (used, t)
    → IsU32 tag
    → (1 ≤ used) × (used ≤ rv + n) × IsU32 t
unfolding parse_tag_loop
parse_tag_loop-within zero input rv shift tag used t e fits = cc
parse_tag_loop-within (suc n) input rv shift tag used t e fits = ground (
  arith,
  bit_or-lt 32 tag (u32 (input rv * 2 ^ shift)),
  bit_or-lt 32 tag (u32 (bit_and (input rv) 0x7f * 2 ^ shift)),
  parse_tag_loop-within n input (rv + 1) (shift + 7)
      (bit_or tag (u32 (bit_and (input rv) 0x7f * 2 ^ shift))) used t,
)

pub parse_tag_and_wiretype-within :
    (len : ℕ) (input : Input) (used tag wire_type : ℕ)
    → parse_tag_and_wiretype len input ≡ some (used, tag, wire_type)
    → 1 ≤ len
    → (1 ≤ used) × (used ≤ len) × IsU32 tag
unfolding parse_tag_and_wiretype
parse_tag_and_wiretype-within len input used tag wire_type e some_bytes = ground (
  arith,
  bit_and_7f (input 0),
  parse_tag_loop-within ((if ltb 5 len then 5 else len) - 1) input 1 4
      (bit_and (input 0) 0x7f / 2 ^ 3) used tag,
)
