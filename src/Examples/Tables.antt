-- ===== src/Examples/Tables.antt =====
-- Two tables of ranges, and what holds of each entry of a short table.

use protobuf_c.Base.{
  ℕ, zero, suc, ◌+◌, ◌-◌, ◌^◌, ◌<◌, ◌≤◌, refl, arith, List, [], ◌∷◌, get_or, IsU32,
}
use protobuf_c.Message.{IntRange}
use protobuf_c.Lookup.Ranges.{first, size, index_at, no_range, IsValidRanges}

-- What holds of the first numbers holds of the numbers below a bound.
pub below_two : (P : ℕ → Type 0) → P 0 → P 1 → (i : ℕ) → i < 2 → P i
below_two P p q zero h = p
below_two P p q (suc zero) h = q
below_two P p q (suc (suc i)) h = absurd (omega arith)

pub below_three : (P : ℕ → Type 0) → P 0 → P 1 → P 2 → (i : ℕ) → i ≤ 2 → P i
below_three P p q r zero h = p
below_three P p q r (suc zero) h = q
below_three P p q r (suc (suc zero)) h = r
below_three P p q r (suc (suc (suc i))) h = absurd (omega arith)

-- The one pair of two numbers.
pub below_pair : (P : ℕ → ℕ → Type 0) → P 0 1 → (i j : ℕ) → i < j → j < 2 → P i j
below_pair P p zero zero h k = absurd (omega arith)
below_pair P p zero (suc zero) h k = p
below_pair P p i (suc (suc j)) h k = absurd (omega arith)
below_pair P p (suc i) zero h k = absurd (omega arith)
below_pair P p (suc i) (suc zero) h k = absurd (omega arith)

pub below_one : (P : ℕ → Type 0) → P 0 → (i : ℕ) → i < 1 → P i
below_one P p zero h = p
below_one P p (suc i) h = absurd (omega arith)

-- -3, -2 and 10.
abbrev pub signed_ranges : List IntRange
signed_ranges =
    record { start_value = 2 ^ 32 - 3; orig_index = 0 }
    ∷ record { start_value = 10; orig_index = 2 }
    ∷ record { start_value = 0; orig_index = 3 }
    ∷ []

pub signed_ranges-IsValid : IsValidRanges 2 signed_ranges
signed_ranges-IsValid = record {
  counted = refl;
  value_fits =
      below_three (λ i. IsU32 (get_or signed_ranges i no_range).start_value) (omega arith)
        (omega arith) (omega arith);
  index_fits =
      below_three (λ i. index_at signed_ranges i < 2 ^ 31) (omega arith) (omega arith)
        (omega arith);
  ascending =
      below_two (λ i. index_at signed_ranges i ≤ index_at signed_ranges (i + 1)) (omega arith)
        (omega arith);
  end_fits =
      below_two (λ i. first signed_ranges i + size signed_ranges i < 2 ^ 32) (omega arith)
        (omega arith);
  apart =
      below_pair (λ i j. first signed_ranges i + size signed_ranges i ≤ first signed_ranges j)
        (omega arith);
}

abbrev pub field_ranges : List IntRange
field_ranges =
    record { start_value = 1; orig_index = 0 }
    ∷ record { start_value = 3; orig_index = 1 }
    ∷ record { start_value = 0; orig_index = 2 }
    ∷ []

pub field_ranges-IsValid : IsValidRanges 2 field_ranges
field_ranges-IsValid = record {
  counted = refl;
  value_fits =
      below_three (λ i. IsU32 (get_or field_ranges i no_range).start_value) (omega arith)
        (omega arith) (omega arith);
  index_fits =
      below_three (λ i. index_at field_ranges i < 2 ^ 31) (omega arith) (omega arith) (omega arith);
  ascending =
      below_two (λ i. index_at field_ranges i ≤ index_at field_ranges (i + 1)) (omega arith)
        (omega arith);
  end_fits =
      below_two (λ i. first field_ranges i + size field_ranges i < 2 ^ 32) (omega arith)
        (omega arith);
  apart =
      below_pair (λ i j. first field_ranges i + size field_ranges i ≤ first field_ranges j)
        (omega arith);
}
