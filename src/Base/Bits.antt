-- ===== src/Base/Bits.antt =====
-- The masks and the disjoint unions of bits that the wire format uses, as arithmetic.
use Prim.Native.Nat.{
  ℕ, zero, suc, ◌+◌, ◌*◌, ◌/◌, ◌%◌, ◌^◌, ◌<◌, ◌≤◌, bit_and, bit_or, bit_or-bitwise,
}
use mathlib.Core.Path.{◌≡◌, refl, ap}
use native.Mathlib.Nat.{pow-suc}
use native.Mathlib.Omega.{arith}
use protobuf_c.Base.Digits.{bit_or_digit, bit_and_digit}

-- The laws of zero, for numbers up to a bound.
zero_laws : (bound a : ℕ) → a ≤ bound → (bit_or a 0 ≡ a) × (bit_and a 0 ≡ 0)
zero_laws bound zero h = (refl, refl)
zero_laws zero (suc a) h = absurd (omega arith)
zero_laws (suc bound) (suc a) h =
    let (joined, met) = zero_laws bound (suc a / 2) (omega arith) in
    (omega (arith, bit_or_digit (suc a) 0, joined), omega (arith, bit_and_digit (suc a) 0, met))

pub bit_or-zero : (a : ℕ) → bit_or a 0 ≡ a
bit_or-zero a = (zero_laws a a (omega arith)).0

pub bit_and-zero : (a : ℕ) → bit_and a 0 ≡ 0
bit_and-zero a = (zero_laws a a (omega arith)).1

bit_or_zero : (a : ℕ) → bit_or 0 a ≡ a
bit_or_zero a = simp bit_or-bitwise

-- `r | (q << k)` and `(q << k) | r` are sums where `r` fits `k` bits.
pub bit_or_low : (k q r : ℕ) → r < 2 ^ k → bit_or r (q * 2 ^ k) ≡ r + q * 2 ^ k
bit_or_low zero q zero h = rw bit_or_zero (omega arith)
bit_or_low zero q (suc r) h = absurd (omega arith)
bit_or_low (suc k) q r h = ground (
  arith,
  bit_or_digit r (q * 2 ^ suc k),
  ap (λ (t : ℕ). q * t) (pow-suc 2 k),
  bit_or_low k q (r / 2) (omega arith),
)

pub bit_or_high : (k q r : ℕ) → r < 2 ^ k → bit_or (q * 2 ^ k) r ≡ q * 2 ^ k + r
bit_or_high zero q r h = ground (arith, bit_or-zero q)
bit_or_high (suc k) q r h = ground (
  arith,
  bit_or_digit (q * 2 ^ suc k) r,
  ap (λ (t : ℕ). q * t) (pow-suc 2 k),
  bit_or_high k q (r / 2) (omega arith),
)

-- A mask that is odd keeps the lowest digit.
bit_and_odd : (v m : ℕ) → bit_and v (m * 2 + 1) ≡ bit_and (v / 2) m * 2 + v % 2
bit_and_odd v m = ground (arith, bit_and_digit v (m * 2 + 1))

-- `v & 1`, `v & 7` and `v & 0x7f`.
pub bit_and_1 : (v : ℕ) → bit_and v 1 ≡ v % 2
bit_and_1 v = omega (arith, bit_and_odd v 0, bit_and-zero (v / 2))

bit_and_3 : (v : ℕ) → bit_and v 3 ≡ v % 4
bit_and_3 v = omega (arith, bit_and_odd v 1, bit_and_1 (v / 2))

pub bit_and_7 : (v : ℕ) → bit_and v 7 ≡ v % 8
bit_and_7 v = omega (arith, bit_and_odd v 3, bit_and_3 (v / 2))

bit_and_f : (v : ℕ) → bit_and v 0xf ≡ v % 16
bit_and_f v = omega (arith, bit_and_odd v 7, bit_and_7 (v / 2))

bit_and_1f : (v : ℕ) → bit_and v 0x1f ≡ v % 32
bit_and_1f v = omega (arith, bit_and_odd v 15, bit_and_f (v / 2))

bit_and_3f : (v : ℕ) → bit_and v 0x3f ≡ v % 64
bit_and_3f v = omega (arith, bit_and_odd v 31, bit_and_1f (v / 2))

pub bit_and_7f : (v : ℕ) → bit_and v 0x7f ≡ v % 128
bit_and_7f v = omega (arith, bit_and_odd v 63, bit_and_3f (v / 2))

-- A mask that is even leaves the lowest digit out.
bit_and_even : (v m : ℕ) → bit_and v (m * 2) ≡ bit_and (v / 2) m * 2
bit_and_even v m = ground (arith, bit_and_digit v (m * 2))

bit_or_even : (v m : ℕ) → bit_or v (m * 2) ≡ bit_or (v / 2) m * 2 + v % 2
bit_or_even v m = ground (arith, bit_or_digit v (m * 2))

bit_and_128 : (v : ℕ) → bit_and v 0x80 ≡ bit_and (v / 128) 1 * 128
bit_and_128 v = ground (
  arith,
  bit_and_even v 64,
  bit_and_even (v / 2) 32,
  bit_and_even (v / 4) 16,
  bit_and_even (v / 8) 8,
  bit_and_even (v / 16) 4,
  bit_and_even (v / 32) 2,
  bit_and_even (v / 64) 1,
)

pub bit_and_80 : (v : ℕ) → bit_and v 0x80 ≡ v / 128 % 2 * 128
bit_and_80 v = omega (arith, bit_and_128 v, bit_and_1 (v / 128))

bit_or_128 : (v : ℕ) → bit_or v 0x80 ≡ bit_or (v / 128) 1 * 128 + v % 128
bit_or_128 v = ground (
  arith,
  bit_or_even v 64,
  bit_or_even (v / 2) 32,
  bit_or_even (v / 4) 16,
  bit_or_even (v / 8) 8,
  bit_or_even (v / 16) 4,
  bit_or_even (v / 32) 2,
  bit_or_even (v / 64) 1,
)

-- `(uint8_t) (v | 0x80)`.
pub bit_or_80 : (v : ℕ) → bit_or v 0x80 % 256 ≡ v % 128 + 128
bit_or_80 v = omega (arith, bit_or_128 v, bit_or_digit (v / 128) 1)

pub bit_or-lt : (k a b : ℕ) → a < 2 ^ k → b < 2 ^ k → bit_or a b < 2 ^ k
bit_or-lt zero zero zero ha hb = omega arith
bit_or-lt zero (suc a) b ha hb = absurd (omega arith)
bit_or-lt zero zero (suc b) ha hb = absurd (omega arith)
bit_or-lt (suc k) a b ha hb = ground (
  arith,
  bit_or_digit a b,
  pow-suc 2 k,
  bit_or-lt k (a / 2) (b / 2) (omega (arith, pow-suc 2 k)) (omega (arith, pow-suc 2 k)),
)
