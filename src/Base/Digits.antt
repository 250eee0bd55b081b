-- ===== src/Base/Digits.antt =====
-- The native bit operations, one binary digit at a time.
use Prim.Native.Nat.{
  ℕ, zero, suc, ◌+◌, ◌*◌, ◌/◌, ◌%◌, ◌≤◌, min, max, bit_and, bit_or, digits, bitwise,
  bit_and-bitwise, bit_or-bitwise,
}
use mathlib.Core.Path.{◌≡◌, refl, sym, ◌∙◌}
use native.Mathlib.Omega.{arith}

-- `rest` is what stands for the digits of `b` where `a` has none left, `join` works on one digit.
module _ (rest : ℕ → ℕ) (join : ℕ → ℕ → ℕ) where
  out_of_digits : (fuel b : ℕ) → digits rest join fuel zero b ≡ rest b
  out_of_digits zero b = refl
  out_of_digits (suc fuel) b = refl

  -- With fuel for all the digits of `a`, more fuel makes no difference.
  spare_fuel :
      (fuel more a b : ℕ)
      → a ≤ fuel
      → a ≤ more
      → digits rest join fuel a b ≡ digits rest join more a b
  spare_fuel fuel more zero b enough plenty = out_of_digits fuel b ∙ sym (out_of_digits more b)
  spare_fuel (suc fuel) (suc more) (suc a) b enough plenty =
      let tail = spare_fuel fuel more (suc a / 2) (b / 2) (omega arith) (omega arith) in
      omega (arith, tail)
  spare_fuel zero more (suc a) b enough plenty = absurd (omega arith)
  spare_fuel (suc fuel) zero (suc a) b enough plenty = absurd (omega arith)

  lowest_digit :
      (a b : ℕ)
      → bitwise rest join (suc a) b
        ≡ bitwise rest join (suc a / 2) (b / 2) * 2 + join (suc a % 2) (b % 2)
  lowest_digit a b =
      let half = spare_fuel a (suc a / 2) (suc a / 2) (b / 2) (omega arith) (omega arith) in
      omega (arith, half)

pub bit_or_digit : (a b : ℕ) → bit_or a b ≡ bit_or (a / 2) (b / 2) * 2 + max (a % 2) (b % 2)
bit_or_digit zero b = simp bit_or-bitwise (omega arith)
bit_or_digit (suc a) b = simp bit_or-bitwise (lowest_digit (λ y. y) max a b)

pub bit_and_digit : (a b : ℕ) → bit_and a b ≡ bit_and (a / 2) (b / 2) * 2 + min (a % 2) (b % 2)
bit_and_digit zero b = simp bit_and-bitwise (omega arith)
bit_and_digit (suc a) b = simp bit_and-bitwise (lowest_digit (λ y. 0) min a b)
