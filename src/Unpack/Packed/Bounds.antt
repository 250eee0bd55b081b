-- ===== src/Unpack/Packed/Bounds.antt =====
-- A packed array is stored within the room that `count_packed_elements` asks for.
use protobuf_c.Base.{
  Bool-cases, sym, ap, ◌⊎◌, inl, inr, ℕ, zero, suc, ◌+◌, ◌-◌, ◌/◌, ◌%◌, ◌≤◌, ◌≡◌, refl, arith, Bool,
  true, ltb, ◌==◌, if◌then◌else◌, none, some, List, length,
}
use protobuf_c.Memory.Input.{Input, advance}
use protobuf_c.Message.{
  FieldType, int32, sint32, sfixed32, int64, sint64, sfixed64, uint32, fixed32, uint64, fixed64,
  float, double, bool, enum, string, bytes, message, Value,
}
use protobuf_c.Unpack.Scan.{
  varint_end_loop, scan_varint, max_b128_loop, max_b128_numbers, count_packed_elements,
}
use protobuf_c.Unpack.Scan.Laws.{max_b128_loop-end}
use mathlib.Core.Path.{subst}
use protobuf_c.Unpack.Packed.Steps.{packed_end, packed_bad, packed_step}
use protobuf_c.Unpack.Packed.{packed_loop, bool_loop, copy_loop, parse_packed_repeated_member}

-- `n` elements are room for what is stored, and exactly that where the routine succeeds.
abbrev pub FitsIn : {X : Type 0} → ℕ → List (Value X) × Bool → Type 0
FitsIn n (vs, ok) = (length vs ≤ n) × (ok ≡ true → length vs ≡ n)

-- Scanning from an index is scanning the input that is advanced to it.
varint_end_loop-advance :
    (rounds : ℕ) (input : Input) (at i k j : ℕ)
    → k ≡ at + i
    → varint_end_loop rounds (advance input at) i ≡ some j
    → varint_end_loop rounds input k ≡ some (at + j)
unfolding varint_end_loop
varint_end_loop-advance zero input at i k j same e = cc
varint_end_loop-advance (suc rounds) input at i k j same e =
    ground (arith, varint_end_loop-advance rounds input at (i + 1) (k + 1) j)

scan_found :
    (rem : ℕ) (input : Input) (j : ℕ)
    → scan_varint rem input ≡ suc j
    → varint_end_loop (if ltb 10 rem then 10 else rem) input 0 ≡ some j
unfolding scan_varint
scan_found rem input j e = ground arith

-- A scan that succeeds passes one end, within the input.
pub scan_varint-end :
    (rem : ℕ) (input : Input) (at j : ℕ)
    → scan_varint rem (advance input at) ≡ suc j
    → (suc j ≤ rem)
      × (max_b128_loop rem input at 0 ≡ 1 + max_b128_loop (rem - suc j) input (at + suc j) 0)
scan_varint-end rem input at j found =
    let rounds = if ltb 10 rem then 10 else rem in
    let here =
      varint_end_loop-advance rounds input at 0 at j (omega arith)
        (scan_found rem (advance input at) j found) in
    let (low, high, count) = max_b128_loop-end rounds rem input at (at + j) (ground arith) here in
    let left : rem - (at + j + 1 - at) ≡ rem - suc j = omega arith in
    let next : at + j + 1 ≡ at + suc j = omega arith in (ground arith, rw (left, next) at count)

scan_cases : (s : ℕ) → (s ≡ 0) ⊎ ((j : ℕ) × (s ≡ suc j))
scan_cases zero = inl refl
scan_cases (suc j) = inr (j, refl)

module _ {X : Type 0} where
  packed_loop-FitsIn :
      (read : ℕ → Input → Value X) (fuel rem : ℕ) (input : Input) (at : ℕ)
      → rem ≤ fuel
      → FitsIn (max_b128_loop rem input at 0) (packed_loop read fuel rem input at)
  packed_loop-FitsIn read fuel zero input at enough =
      subst (FitsIn (max_b128_loop 0 input at 0)) (sym (packed_end read fuel input at))
        (unfold max_b128_loop in (omega arith, λ e. refl))
  packed_loop-FitsIn read zero (suc rem) input at enough = absurd (omega arith)
  packed_loop-FitsIn read (suc fuel) (suc rem) input at enough =
      elim (scan_cases (scan_varint (suc rem) (advance input at))) [
        | inl e ↦
            subst (FitsIn (max_b128_loop (suc rem) input at 0))
              (sym (packed_bad read fuel rem input at e)) (omega arith, λ p. cc)
        | inr (j, e) ↦
            let (within, count) = scan_varint-end (suc rem) input at j e in
            let (room, full) =
              packed_loop-FitsIn read fuel (suc rem - suc j) input (at + suc j) (omega arith) in
            subst (FitsIn (max_b128_loop (suc rem) input at 0))
              (sym (packed_step read fuel rem input at j e))
              (omega (arith, count, room), λ p. omega (arith, count, full p))
      ]

  length-copy_loop :
      (read : Input → Value X) (siz count : ℕ) (input : Input) (at : ℕ)
      → length (copy_loop read siz count input at) ≡ count
  unfolding copy_loop
  length-copy_loop read siz zero input at = refl
  length-copy_loop read siz (suc count) input at =
      ap suc (length-copy_loop read siz count input (at + siz))

bool_loop-FitsIn :
    (X : Type 0) (rounds : ℕ) (input : Input) (i : ℕ)
    → FitsIn rounds (bool_loop {X = X} rounds input i)
unfolding bool_loop
bool_loop-FitsIn X zero input i = (omega arith, λ e. refl)
bool_loop-FitsIn X (suc rounds) input i =
    let (room, full) = bool_loop-FitsIn X rounds input (i + 1) in
    elim (Bool-cases (ltb 1 (input i))) [
      | inl bad ↦ rw bad (omega arith, λ e. cc)
      | inr good ↦ rw good (omega (arith, room), λ e. omega (arith, full e))
    ]

-- The room that is counted is the room that there is.
varints :
    {X : Type 0} (read : ℕ → Input → Value X) (len : ℕ) (input : Input) (count : ℕ)
    → some (max_b128_numbers len input) ≡ some count
    → FitsIn count (packed_loop read len len input 0)
unfolding max_b128_numbers
varints read len input count e =
    let (room, full) = packed_loop-FitsIn read len len input 0 (omega arith) in
    (ground arith, λ p. ground (arith, full p))

copies :
    {X : Type 0} (read : Input → Value X) (siz len : ℕ) (input : Input) (count : ℕ)
    → (if len % siz == 0 then some (len / siz) else none) ≡ some count
    → FitsIn count (copy_loop read siz (len / siz) input 0, true)
copies read siz len input count e =
    let filled = length-copy_loop read siz (len / siz) input 0 in
    (ground (arith, filled), λ p. ground (arith, filled))

-- Whatever the input holds, the elements that `parse_packed_repeated_member` stores fit the room that
-- `count_packed_elements` has counted, and fill it where the routine succeeds.
pub parse_packed-FitsIn :
    (X : Type 0) (type : FieldType) (len : ℕ) (input : Input) (count : ℕ)
    → count_packed_elements type len input ≡ some count
    → FitsIn count (parse_packed_repeated_member {X = X} type len input)
unfolding count_packed_elements parse_packed_repeated_member
parse_packed-FitsIn X sfixed32 len input count e = copies _ 4 len input count e
parse_packed-FitsIn X fixed32 len input count e = copies _ 4 len input count e
parse_packed-FitsIn X float len input count e = copies _ 4 len input count e
parse_packed-FitsIn X sfixed64 len input count e = copies _ 8 len input count e
parse_packed-FitsIn X fixed64 len input count e = copies _ 8 len input count e
parse_packed-FitsIn X double len input count e = copies _ 8 len input count e
parse_packed-FitsIn X int32 len input count e = varints _ len input count e
parse_packed-FitsIn X sint32 len input count e = varints _ len input count e
parse_packed-FitsIn X enum len input count e = varints _ len input count e
parse_packed-FitsIn X uint32 len input count e = varints _ len input count e
parse_packed-FitsIn X int64 len input count e = varints _ len input count e
parse_packed-FitsIn X sint64 len input count e = varints _ len input count e
parse_packed-FitsIn X uint64 len input count e = varints _ len input count e
parse_packed-FitsIn X bool len input count e =
    let (room, full) = bool_loop-FitsIn X len input 0 in (ground arith, λ p. ground (arith, full p))
parse_packed-FitsIn X string len input count e = cc
parse_packed-FitsIn X bytes len input count e = cc
parse_packed-FitsIn X message len input count e = cc
