-- ===== src/Unpack/Packed.antt =====
-- A packed array, element by element: src/google/protobuf-c/protobuf-c.c,
-- `parse_packed_repeated_member`, with `IS_LITTLE_ENDIAN`. The array is what has been stored, in
-- order, beside whether the routine returns TRUE.
pub mod Steps
pub mod Bounds
pub mod RoundTrip
pub mod Whole
use protobuf_c.Base.{
  ℕ, zero, suc, ◌+◌, ◌-◌, ◌*◌, ◌/◌, Bool, true, false, ltb, ◌==◌, if◌then◌else◌, List, [], ◌∷◌,
  length,
}
use protobuf_c.Memory.Input.{Input, advance}
use protobuf_c.Scalar.Parse.{
  parse_int32, parse_uint32, parse_uint64, unzigzag32, unzigzag64, parse_fixed_uint32,
  parse_fixed_uint64,
}
use protobuf_c.Message.{
  FieldType, int32, sint32, sfixed32, int64, sint64, sfixed64, uint32, fixed32, uint64, fixed64,
  float, double, bool, enum, string, bytes, message, Value, word32, word64, boolean,
}
use protobuf_c.Unpack.Scan.{scan_varint}

module _ {X : Type 0} where
  -- `array[count++] = …`, on the result of the rest.
  abbrev pub stored : Value X → List (Value X) × Bool → List (Value X) × Bool
  stored v (vs, ok) = (v ∷ vs, ok)

  -- `while (rem > 0)`, with `at` as an index. A round takes a byte at least, so `fuel` rounds are
  -- enough for `fuel` bytes.
  unfoldable pub packed_loop : (ℕ → Input → Value X) → ℕ → ℕ → Input → ℕ → List (Value X) × Bool
  packed_loop read zero rem input at = ([], rem == 0)
  packed_loop read (suc fuel) rem input at =
      let s = scan_varint rem (advance input at) in
      let rest = packed_loop read fuel (rem - s) input (at + s) in
      if rem == 0
      then ([], true)
      else if s == 0
      then ([], false)
      else stored (read s (advance input at)) rest

  -- `for (i = 0; i < count; i++)` over the bytes of the bools: `rounds` are left.
  unfoldable pub bool_loop : ℕ → Input → ℕ → List (Value X) × Bool
  bool_loop zero input i = ([], true)
  bool_loop (suc rounds) input i =
      let rest = bool_loop rounds input (i + 1) in
      if ltb 1 (input i) then ([], false) else stored (boolean (input i)) rest

  -- `memcpy (array, at, count * siz)`, by elements.
  unfoldable pub copy_loop : (Input → Value X) → ℕ → ℕ → Input → ℕ → List (Value X)
  copy_loop read siz zero input at = []
  copy_loop read siz (suc count) input at =
      read (advance input at) ∷ copy_loop read siz count input (at + siz)

  -- What each case of the `switch` stores for one value of `s` bytes.
  unfoldable pub read_varint : FieldType → ℕ → Input → Value X
  read_varint int32 s at = word32 (parse_int32 s at)
  read_varint sint32 s at = word32 (unzigzag32 (parse_uint32 s at))
  read_varint enum s at = word32 (parse_uint32 s at)
  read_varint uint32 s at = word32 (parse_uint32 s at)
  read_varint sint64 s at = word64 (unzigzag64 (parse_uint64 s at))
  read_varint type s at = word64 (parse_uint64 s at)

  -- `rem` bytes, from `input` on. A type that is not packable reaches `assert (0)`.
  unfoldable pub parse_packed_repeated_member : FieldType → ℕ → Input → List (Value X) × Bool
  parse_packed_repeated_member sfixed32 rem input =
      (copy_loop (λ at. word32 (parse_fixed_uint32 at)) 4 (rem / 4) input 0, true)
  parse_packed_repeated_member fixed32 rem input =
      (copy_loop (λ at. word32 (parse_fixed_uint32 at)) 4 (rem / 4) input 0, true)
  parse_packed_repeated_member float rem input =
      (copy_loop (λ at. word32 (parse_fixed_uint32 at)) 4 (rem / 4) input 0, true)
  parse_packed_repeated_member sfixed64 rem input =
      (copy_loop (λ at. word64 (parse_fixed_uint64 at)) 8 (rem / 8) input 0, true)
  parse_packed_repeated_member fixed64 rem input =
      (copy_loop (λ at. word64 (parse_fixed_uint64 at)) 8 (rem / 8) input 0, true)
  parse_packed_repeated_member double rem input =
      (copy_loop (λ at. word64 (parse_fixed_uint64 at)) 8 (rem / 8) input 0, true)
  parse_packed_repeated_member bool rem input = bool_loop rem input 0
  parse_packed_repeated_member string rem input = ([], true)
  parse_packed_repeated_member bytes rem input = ([], true)
  parse_packed_repeated_member message rem input = ([], true)
  parse_packed_repeated_member type rem input = packed_loop (read_varint type) rem rem input 0
