-- ===== src/Memory/Laws.antt =====
-- What `memcpy` leaves at each address, and how two of them combine.
use protobuf_c.Base.{
  ℕ, zero, suc, ◌+◌, ◌-◌, ◌≤◌, ◌≡◌, refl, ap, ◌∙◌, arith, List, [], ◌∷◌, ◌++◌, length, get_or, ltb,
  leb, ◌==◌, if◌then◌else◌, ◌&&◌, length-append,
}
use protobuf_c.Memory.{Memory, store, memcpy, memmove}
use mathlib.Core.Path.{fun_ext}
use native.Mathlib.Nat.{add-zero}

get_or_cons :
    (b : ℕ) (bs : List ℕ) (j : ℕ)
    → get_or (b ∷ bs) j 0 ≡ (if j == 0 then b else get_or bs (j - 1) 0)
get_or_cons b bs zero = refl
get_or_cons b bs (suc j) = ground arith

-- The byte at address `i` afterwards.
pub memcpy_at :
    (memory : Memory) (at : ℕ) (bs : List ℕ) (i : ℕ)
    → memcpy memory at bs i
      ≡ (if leb at i && ltb i (at + length bs) then get_or bs (i - at) 0 else memory i)
unfolding memcpy store
memcpy_at memory at [] i = ground arith
memcpy_at memory at (b ∷ bs) i =
    ground (arith, memcpy_at (store memory at b) (at + 1) bs i, get_or_cons b bs (i - at))

pub memcpy-append :
    (memory : Memory) (at : ℕ) (xs ys : List ℕ)
    → memcpy memory at (xs ++ ys) ≡ memcpy (memcpy memory at xs) (at + length xs) ys
unfolding memcpy
memcpy-append memory at [] ys = rw add-zero
memcpy-append memory at (x ∷ xs) ys =
    memcpy-append (store memory at x) (at + 1) xs ys
    ∙ ap (λ (a : ℕ). memcpy (memcpy (store memory at x) (at + 1) xs) a ys) (omega arith)

pub get_or-append :
    (xs ys : List ℕ) (j : ℕ)
    → get_or (xs ++ ys) j 0
      ≡ (if ltb j (length xs) then get_or xs j 0 else get_or ys (j - length xs) 0)
get_or-append [] ys j = ground arith
get_or-append (x ∷ xs) ys zero = ground arith
get_or-append (x ∷ xs) ys (suc j) = ground (arith, get_or-append xs ys j)

-- `out[0] |= …` after `out[0]` was written: the first byte is read back, and replaced.
pub memcpy_first : (memory : Memory) (at b : ℕ) (bs : List ℕ) → memcpy memory at (b ∷ bs) at ≡ b
memcpy_first memory at b bs = ground (arith, memcpy_at memory at (b ∷ bs) at)

pub store_first :
    (memory : Memory) (at b c : ℕ) (bs : List ℕ)
    → store (memcpy memory at (b ∷ bs)) at c ≡ memcpy memory at (c ∷ bs)
store_first memory at b c bs = fun_ext λ i.
    unfold store in
    ground (
      arith,
      memcpy_at memory at (b ∷ bs) i,
      memcpy_at memory at (c ∷ bs) i,
      get_or_cons b bs (i - at),
      get_or_cons c bs (i - at),
    )

-- A block written first, and then the bytes in front of it.
pub memcpy_front :
    (memory : Memory) (at : ℕ) (xs ys : List ℕ)
    → memcpy (memcpy memory (at + length xs) ys) at xs ≡ memcpy memory at (xs ++ ys)
memcpy_front memory at xs ys = fun_ext λ i. ground (
  arith,
  memcpy_at (memcpy memory (at + length xs) ys) at xs i,
  memcpy_at memory (at + length xs) ys i,
  memcpy_at memory at (xs ++ ys) i,
  length-append xs ys,
  get_or-append xs ys (i - at),
)

-- The same, where the block first stood `k` bytes in, too near for `xs`, and is moved up.
pub memmove_front :
    (memory : Memory) (at k : ℕ) (xs ys : List ℕ)
    → k ≤ length xs
    → memcpy (memmove (memcpy memory (at + k) ys) (at + length xs) (at + k) (length ys)) at xs
      ≡ memcpy memory at (xs ++ ys)
memmove_front memory at k xs ys h = fun_ext λ i.
    unfold memmove in
    ground (
      arith,
      memcpy_at (memmove (memcpy memory (at + k) ys) (at + length xs) (at + k) (length ys)) at xs i,
      memcpy_at memory (at + k) ys i,
      memcpy_at memory (at + k) ys (at + k + (i - (at + length xs))),
      memcpy_at memory at (xs ++ ys) i,
      length-append xs ys,
      get_or-append xs ys (i - at),
    )
