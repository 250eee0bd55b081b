-- ===== src/Base/Word.antt =====
-- C's conversions to an unsigned type of fixed width, shifts, and the ranges of those types.
-- An `int32_t` or `int64_t` is its bit pattern in two's complement.
use Prim.Native.Nat.{ℕ, ◌*◌, ◌/◌, ◌%◌, ◌^◌, ◌<◌}
use mathlib.Core.Bool.{Bool}
use protobuf_c.Base.Tests.{leb}

abbrev pub u8 : ℕ → ℕ
u8 n = n % 2 ^ 8

abbrev pub u32 : ℕ → ℕ
u32 n = n % 2 ^ 32

abbrev pub u64 : ℕ → ℕ
u64 n = n % 2 ^ 64

infixl 75 ◌<<<◌ ◌>>>◌
abbrev pub ◌<<<◌ : ℕ → ℕ → ℕ
x <<< k = x * 2 ^ k

abbrev pub ◌>>>◌ : ℕ → ℕ → ℕ
x >>> k = x / 2 ^ k

abbrev pub IsByte : ℕ → Type 0
IsByte b = b < 2 ^ 8

abbrev pub IsU32 : ℕ → Type 0
IsU32 v = v < 2 ^ 32

abbrev pub IsU64 : ℕ → Type 0
IsU64 v = v < 2 ^ 64

-- `v < 0` for an `int32_t` and an `int64_t`.
abbrev pub is_negative32 : ℕ → Bool
is_negative32 v = leb (2 ^ 31) v

abbrev pub is_negative64 : ℕ → Bool
is_negative64 v = leb (2 ^ 63) v
