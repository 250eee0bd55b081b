-- ===== src/Scalar/Parse/Groups.antt =====
-- One group of seven bits after another: what a `|=` with a shifted group adds to a number that
-- fits the bits below.
use protobuf_c.Base.{ℕ, ◌+◌, ◌*◌, ◌/◌, ◌%◌, ◌^◌, ◌<◌, ◌≤◌, ◌≡◌, arith, ap, bit_or, bit_and}
use native.Mathlib.Nat.{div-add-mod, mod-eq_of_lt}
use protobuf_c.Base.Bits.{bit_or_low, bit_and_7f}
use native.Mathlib.Numerals.{towards_suc}

pub pow_seven : (s : ℕ) → 2 ^ (s + 7) ≡ 128 * 2 ^ s
pow_seven s = simp towards_suc (omega arith)

-- The lowest group and the others of `w`, from bit `s` on.
pub groups_apart : (w s : ℕ) → w * 2 ^ s ≡ w % 128 * 2 ^ s + w / 128 * 2 ^ (s + 7)
groups_apart w s =
    let above : w / 128 * 2 ^ (s + 7) ≡ w / 128 * (128 * 2 ^ s) =
      ap (◌*◌ (w / 128)) (pow_seven s) in
    let whole = ap (λ (k : ℕ). k * 2 ^ s) (div-add-mod w 128) in omega (arith, whole, above)

-- One group fits seven bits, wherever they stand.
pub group_fits : (g s : ℕ) → g < 128 → g * 2 ^ s + 2 ^ s ≤ 2 ^ (s + 7)
group_fits g s h = rw (pow_seven s) (grind arith)

-- A group read into a number that fits the bits below, in an unsigned type of `width` bits.
pub join_group :
    (width b g r s : ℕ)
    → b % 128 ≡ g
    → r < 2 ^ s
    → g * 2 ^ s < 2 ^ width
    → bit_or r (bit_and b 0x7f * 2 ^ s % 2 ^ width) ≡ r + g * 2 ^ s
join_group width b g r s e h fits = rw (bit_and_7f b, e, mod-eq_of_lt fits) (bit_or_low s g r h)
