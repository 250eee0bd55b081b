-- ===== src/Unpack/Packed/Steps.antt =====
-- The rounds of the packed loop, by what the scan finds.
use protobuf_c.Base.{ℕ, zero, suc, ◌+◌, ◌-◌, ◌≡◌, refl, arith, true, false, []}
use protobuf_c.Memory.Input.{Input, advance}
use protobuf_c.Message.{Value}
use protobuf_c.Unpack.Scan.{scan_varint}
use protobuf_c.Unpack.Packed.{packed_loop, stored}

module _ {X : Type 0} (read : ℕ → Input → Value X) where
  pub packed_end :
      (fuel : ℕ) (input : Input) (at : ℕ) → packed_loop read fuel 0 input at ≡ ([], true)
  unfolding packed_loop
  packed_end zero input at = refl
  packed_end (suc fuel) input at = refl

  module _ (fuel rem : ℕ) (input : Input) (at : ℕ) where
    pub packed_bad :
        scan_varint (suc rem) (advance input at) ≡ 0
        → packed_loop read (suc fuel) (suc rem) input at ≡ ([], false)
    unfolding packed_loop
    packed_bad e = ground arith

    pub packed_step :
        (j : ℕ)
        → scan_varint (suc rem) (advance input at) ≡ suc j
        → packed_loop read (suc fuel) (suc rem) input at
          ≡ stored
              (read (suc j) (advance input at))
              (packed_loop read fuel (suc rem - suc j) input (at + suc j))
    unfolding packed_loop
    packed_step j e = ground arith
