-- ===== src/Scalar/Parse/Tag.antt =====
-- `parse_tag_and_wiretype` on the tag of a field.
use protobuf_c.Base.{
  ap, ◌∙◌, ℕ, zero, suc, ◌+◌, ◌-◌, ◌*◌, ◌/◌, ◌%◌, ◌^◌, ◌<◌, ◌≤◌, ◌≡◌, arith, ltb, u32,
  if◌then◌else◌, length, some, bit_or, IsU32, ◌<<<◌, ◌∷◌,
}
use native.Mathlib.Decide.{dec_lt}
use native.Mathlib.Nat.{mod-eq_of_lt}
use protobuf_c.Base.Bits.{bit_or_low, bit_and_7f, bit_and_80, bit_and_7}
use protobuf_c.Memory.Input.{Input, HoldsAt}
use protobuf_c.Scalar.Size.{get_tag_size}
use protobuf_c.Scalar.Base128.{groups, varint, varint_round, length-groups}
use protobuf_c.Scalar.Length.{get_tag_size-length}
use protobuf_c.Scalar.Parse.{parse_tag_loop, parse_tag_and_wiretype}
use protobuf_c.Scalar.Parse.Groups.{groups_apart, group_fits, join_group}

last_group : (w r s : ℕ) → r < 2 ^ s → w * 2 ^ s < 2 ^ 32 → bit_or r (u32 (w <<< s)) ≡ r + w * 2 ^ s
last_group w r s h fits = rw (mod-eq_of_lt fits) (bit_or_low s w r h)

parse_tag_loop-groups :
    (k w rounds : ℕ) (input : Input) (rv shift tag : ℕ)
    → w < 128 ^ suc k
    → length (groups k w) ≤ rounds
    → tag < 2 ^ shift
    → IsU32 (tag + w * 2 ^ shift)
    → HoldsAt input rv (groups k w)
    → parse_tag_loop rounds input rv shift tag
      ≡ some (rv + length (groups k w), tag + w * 2 ^ shift)
unfolding parse_tag_loop groups
parse_tag_loop-groups k w zero input rv shift tag fits long low total h =
    absurd (omega (arith, length-groups k w))
parse_tag_loop-groups zero w (suc rounds) input rv shift tag fits long low total h =
    ground (arith, bit_and_80 (input rv), last_group w tag shift)
parse_tag_loop-groups (suc k) w (suc rounds) input rv shift tag fits long low total h =
    elim (dec_lt w 128) [
      | yes small ↦ ground (arith, bit_and_80 (input rv), last_group w tag shift)
      | no large ↦ ground (
        arith,
        bit_and_80 (input rv),
        groups_apart w shift,
        group_fits (w % 128) shift,
        join_group 32 (input rv) (w % 128) tag shift,
        parse_tag_loop-groups k (w / 128) rounds input (rv + 1) (shift + 7)
            (tag + w % 128 * 2 ^ shift) (omega arith),
      )
    ]

get_tag_size-le : (id : ℕ) → get_tag_size id ≤ 5
unfolding get_tag_size
get_tag_size-le id = ground arith

varint_head : (v : ℕ) → 128 ≤ v → varint v ≡ (v % 128 + 128) ∷ groups 8 (v / 128)
unfolding varint
varint_head v h = varint_round 8 v h

-- The loop on the groups behind the first.
long_tag :
    (id code rounds : ℕ) (input : Input)
    → IsU32 id
    → code < 8
    → length (groups 8 ((id * 8 + code) / 128)) ≤ rounds
    → HoldsAt input 1 (groups 8 ((id * 8 + code) / 128))
    → parse_tag_loop rounds input 1 4 (id % 16)
      ≡ some (1 + length (groups 8 ((id * 8 + code) / 128)), id)
long_tag id code rounds input fits hc long h =
    parse_tag_loop-groups 8 ((id * 8 + code) / 128) rounds input 1 4 (id % 16) (omega arith) long
      (omega arith) (omega arith) h
    ∙ ap (λ (t : ℕ). some (1 + length (groups 8 ((id * 8 + code) / 128)), t)) (omega arith)

-- `parse_tag_and_wiretype` reads back the number and the wire type of a field from its tag, and
-- takes the bytes of the tag, however many bytes follow it.
pub parse_tag_and_wiretype-varint :
    (id code len : ℕ) (input : Input)
    → IsU32 id
    → code < 8
    → length (varint (id * 8 + code)) ≤ len
    → HoldsAt input 0 (varint (id * 8 + code))
    → parse_tag_and_wiretype len input ≡ some (length (varint (id * 8 + code)), id, code)
unfolding parse_tag_and_wiretype
parse_tag_and_wiretype-varint id code len input fits hc long h = elim (dec_lt (id * 8 + code) 128) [
  | yes small ↦
      unfold varint groups in
      ground (arith, bit_and_80 (input 0), bit_and_7f (input 0), bit_and_7 (input 0))
  | no large ↦
      let head = varint_head (id * 8 + code) (omega arith) in
      let (first, others) = rw head at h in
      let count = get_tag_size-length id code fits hc in
      let max_rv = if ltb 5 len then 5 else len in
      let enough : length (groups 8 ((id * 8 + code) / 128)) ≤ max_rv - 1 =
        ground (arith, head, count, get_tag_size-le id) in
      let loop = long_tag id code (max_rv - 1) input fits hc enough others in
      let tag : input 0 % 128 / 8 ≡ id % 16 = omega arith in
      rw (head, bit_and_80 (input 0), bit_and_7f (input 0), tag, loop, bit_and_7 (input 0))
        (ground arith)
]
