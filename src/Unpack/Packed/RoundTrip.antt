-- ===== src/Unpack/Packed/RoundTrip.antt =====
-- A packed payload that was encoded is read back.

use protobuf_c.Base.{
  ℕ, zero, suc, ◌+◌, ◌-◌, ◌≤◌, ◌≡◌, refl, ◌∙◌, arith, true, ◌==◌, if◌then◌else◌, List, [], ◌∷◌,
  ◌++◌, map, length, length-append, concat_map, IsU64,
}
use protobuf_c.Memory.Input.{Input, advance, HoldsAt, HoldsAt-append, HoldsAt-advance, HoldsAt-eq}
use protobuf_c.Message.{
  FieldType, int64, sint64, sfixed64, uint64, fixed64, double, bool, string, bytes, message, Value,
  word32, word64, boolean, as_word32, as_word64, as_boolean,
}
use protobuf_c.Message.Encode.{encode_value}
use protobuf_c.Scalar.Base128.{varint, length-groups}
use protobuf_c.Unpack.Scan.Laws.{scan_varint-varint}
use protobuf_c.Unpack.Packed.{packed_loop, bool_loop, copy_loop}
use protobuf_c.Unpack.Packed.Steps.{packed_end, packed_step}

-- What is read back of a value: as much as its type holds.
unfoldable pub canonical : {X : Type 0} → FieldType → Value X → Value X
canonical int64 v = word64 (as_word64 v)
canonical sint64 v = word64 (as_word64 v)
canonical uint64 v = word64 (as_word64 v)
canonical sfixed64 v = word64 (as_word64 v)
canonical fixed64 v = word64 (as_word64 v)
canonical double v = word64 (as_word64 v)
canonical bool v = boolean (if as_boolean v == 0 then 0 else 1)
canonical string v = v
canonical bytes v = v
canonical message v = v
canonical type v = word32 (as_word32 v)

length-varint_pos : (v : ℕ) → 1 ≤ length (varint v)
unfolding varint
length-varint_pos v = (length-groups 9 v).0

-- Behind the bytes at an index.
next_at :
    (input : Input) (at : ℕ) (xs ys : List ℕ)
    → HoldsAt input at (xs ++ ys)
    → HoldsAt (advance input at) 0 xs × HoldsAt input (at + length xs) ys
next_at input at xs ys h =
    let (front, back) = HoldsAt-append input at xs ys h in
    (HoldsAt-advance input at 0 xs (HoldsAt-eq input xs at (at + 0) (omega arith) front), back)

-- A loop of varints: `code` is the number that is encoded for each value.
module _ {X : Type 0} (read : ℕ → Input → Value X) (code : Value X → ℕ) (canon : Value X → Value X)
    (fits : (v : Value X) → IsU64 (code v))
    (reads : (v : Value X) (input : Input)
      → HoldsAt input 0 (varint (code v))
      → read (length (varint (code v))) input ≡ canon v) where
  pub packed_loop-varints :
      (vs : List (Value X)) (fuel rem : ℕ) (input : Input) (at : ℕ)
      → rem ≡ length (concat_map (λ v. varint (code v)) vs)
      → rem ≤ fuel
      → HoldsAt input at (concat_map (λ v. varint (code v)) vs)
      → packed_loop read fuel rem input at ≡ (map canon vs, true)
  packed_loop-varints [] fuel rem input at e enough h = rw e (packed_end read fuel input at)
  packed_loop-varints (v ∷ vs) zero rem input at e enough h = absurd (
      omega (
        arith,
        length-varint_pos (code v),
        length-append (varint (code v)) (concat_map (λ v. varint (code v)) vs),
      ))
  packed_loop-varints (v ∷ vs) (suc fuel) zero input at e enough h = absurd (
      omega (
        arith,
        length-varint_pos (code v),
        length-append (varint (code v)) (concat_map (λ v. varint (code v)) vs),
      ))
  packed_loop-varints (v ∷ vs) (suc fuel) (suc rem) input at e enough h =
      let bs = varint (code v) in
      let others = concat_map (λ v. varint (code v)) vs in
      let total = length-append bs others in
      let pos = length-varint_pos (code v) in
      let (front, back) = next_at input at bs others h in
      let count : length bs ≡ suc (length bs - 1) = omega (arith, pos) in
      let scan =
        scan_varint-varint (code v) (suc rem) (advance input at) (fits v) (omega (arith, e, total))
          front in
      packed_step read fuel rem input at (length bs - 1) (scan ∙ count)
      ∙ rw (← count) (
          rw
            (
              reads v (advance input at) front,
              packed_loop-varints vs fuel (suc rem - length bs) input (at + length bs)
                  (omega (arith, e, total)) (omega (arith, pos)) back,
            )
            refl)

-- A copy of values of `siz` bytes each.
module _ {X : Type 0} (read : Input → Value X) (enc : Value X → List ℕ) (canon : Value X → Value X)
    (siz : ℕ) (sized : (v : Value X) → length (enc v) ≡ siz)
    (reads : (v : Value X) (input : Input) → HoldsAt input 0 (enc v) → read input ≡ canon v) where
  pub copy_loop-fixed :
      (vs : List (Value X)) (input : Input) (at : ℕ)
      → HoldsAt input at (concat_map enc vs)
      → copy_loop read siz (length vs) input at ≡ map canon vs
  unfolding copy_loop
  copy_loop-fixed [] input at h = refl
  copy_loop-fixed (v ∷ vs) input at h =
      let (front, back) = next_at input at (enc v) (concat_map enc vs) h in
      let next : at + length (enc v) ≡ at + siz = omega (arith, sized v) in
      rw
        (
          reads v (advance input at) front,
          copy_loop-fixed vs input (at + siz) (HoldsAt-eq input (concat_map enc vs) _ _ next back),
        )
        refl

module _ {X : Type 0} (sub : X → List ℕ) where
  pub bool_loop-encode :
      (vs : List (Value X)) (input : Input) (i : ℕ)
      → HoldsAt input i (concat_map (encode_value sub bool) vs)
      → bool_loop (length (concat_map (encode_value sub bool) vs)) input i
        ≡ (map (canonical bool) vs, true)
  unfolding bool_loop encode_value canonical
  bool_loop-encode [] input i h = refl
  bool_loop-encode (v ∷ vs) input i (hb, h) =
      rw (hb, bool_loop-encode vs input (i + 1) h) (ground arith)
