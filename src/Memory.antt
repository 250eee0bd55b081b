-- ===== src/Memory.antt =====
-- The bytes that the serializer of protobuf-c.c writes through a pointer: memory is a function
-- from addresses, `memcpy` and `memmove` are C's, and a routine that writes at `out` and returns a
-- byte count is a function of `out` and the memory.
pub mod Laws
pub mod Input
use protobuf_c.Base.{ℕ, ◌+◌, ◌-◌, List, [], ◌∷◌, ◌&&◌, length, ltb, leb, ◌==◌, if◌then◌else◌, ◌≡◌}

abbrev pub Memory : Type 0
Memory = ℕ → ℕ

-- `*at = byte`
unfoldable pub store : Memory → ℕ → ℕ → Memory
store memory at byte i = if i == at then byte else memory i

-- `memcpy (at, bytes, n)`, from an object that holds `bytes` and lies elsewhere.
unfoldable pub memcpy : Memory → ℕ → List ℕ → Memory
memcpy memory at [] = memory
memcpy memory at (b ∷ bs) = memcpy (store memory at b) (at + 1) bs

-- `memmove (to, from, n)`, within the memory; the two blocks may overlap.
unfoldable pub memmove : Memory → ℕ → ℕ → ℕ → Memory
memmove memory to from n i =
    if leb to i && ltb i (to + n) then memory (from + (i - to)) else memory i

-- A routine `size_t f (…, uint8_t *out)`: its result, and the memory that it leaves.
abbrev pub Writer : Type 0
Writer = ℕ → Memory → ℕ × Memory

-- The routine writes `bytes` at `out`, returns their number, and touches nothing else.
abbrev pub Writes : Writer → List ℕ → Type 0
Writes f bytes =
    (out : ℕ) (memory : Memory) → f out memory ≡ (length bytes, memcpy memory out bytes)
