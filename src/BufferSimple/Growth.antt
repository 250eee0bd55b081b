-- ===== src/BufferSimple/Growth.antt =====
-- The growth loop ends, unless the buffer has no room at all.
use protobuf_c.Base.{ℕ, zero, suc, ◌+◌, ◌*◌, ◌^◌, ◌<◌, ◌≤◌, ◌≡◌, ap, arith, none, some, u64}
use native.Mathlib.Nat.{pow-suc}
use native.Mathlib.Decide.{dec_lt}
use protobuf_c.BufferSimple.{growth_loop}

-- With a start that `fuel` doublings bring past the length, the result is large enough.
pub growth_loop-enough :
    (fuel a n : ℕ)
    → 0 < a
    → n ≤ 2 ^ 63
    → n ≤ a * 2 ^ fuel
    → a < 2 ^ 64
    → (r : ℕ) × (growth_loop fuel a n ≡ some r) × (n ≤ r) × (a ≤ r) × (r < 2 ^ 64)
unfolding growth_loop
growth_loop-enough zero a n pos small enough fits =
    (a, ground arith, omega arith, omega arith, omega arith)
growth_loop-enough (suc fuel) a n pos small enough fits = elim (dec_lt a n) [
  | no large ↦ (a, ground arith, omega arith, omega arith, omega arith)
  | yes more ↦
      let twice : u64 (a + a) ≡ a + a = omega arith in
      let (r, e, h, k, l) =
        growth_loop-enough fuel (a + a) n (omega arith) small
          (omega (arith, ap (λ (t : ℕ). a * t) (pow-suc 2 fuel))) (omega arith) in
      (r, rw twice (ground (arith, e)), h, omega (arith, k), l)
]

-- From zero the loop goes on, whatever the fuel.
pub growth_loop_zero : (fuel n : ℕ) → 0 < n → growth_loop fuel 0 n ≡ none
unfolding growth_loop
growth_loop_zero zero n h = ground arith
growth_loop_zero (suc fuel) n h = ground (arith, growth_loop_zero fuel n h)
