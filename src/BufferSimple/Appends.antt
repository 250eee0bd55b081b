-- ===== src/BufferSimple/Appends.antt =====
-- What the simple buffer holds after an append.
use mathlib.Core.Path.{ap₂}
use native.Mathlib.Decide.{dec_lt}
use protobuf_c.Base.{
  ℕ, zero, suc, ◌+◌, ◌*◌, ◌^◌, ◌<◌, ◌≤◌, ◌≡◌, refl, sym, ap, ◌∙◌, arith, false, ltb, Option, none,
  some, List, ◌∷◌, ◌++◌, length, u64, ◌⊎◌, inl, inr, lt→ltb,
}
use protobuf_c.Memory.{Memory, memcpy}
use protobuf_c.Memory.Laws.{memcpy_at}
use protobuf_c.Message.ToBuffer.{read}
use protobuf_c.Message.ToBuffer.Laws.{read-memcpy}
use protobuf_c.BufferSimple.{
  Allocator, World, growth_loop, move_to, put, place, buffer_simple_append,
}
use protobuf_c.BufferSimple.Growth.{growth_loop-enough, growth_loop_zero}

length-read : (memory : Memory) (at n : ℕ) → length (read memory at n) ≡ n
unfolding read
length-read memory at zero = refl
length-read memory at (suc n) = ap suc (length-read memory (at + 1) n)

read-append :
    (memory : Memory) (at m n : ℕ)
    → read memory at (m + n) ≡ read memory at m ++ read memory (at + m) n
unfolding read
read-append memory at zero n =
    let none_read : 0 + n ≡ n = omega arith in
    let here : at + 0 ≡ at = omega arith in rw (none_read, here) refl
read-append memory at (suc m) n =
    let total : suc m + n ≡ suc (m + n) = omega arith in
    rw total (
      ap (◌∷◌ (memory at)) (
        read-append memory (at + 1) m n
        ∙ ap (λ (a : ℕ). read memory (at + 1) m ++ read memory a n) (omega arith)))

-- Bytes below a copy stay as they are.
read-memcpy_below :
    (memory : Memory) (at to : ℕ) (bs : List ℕ) (n : ℕ)
    → at + n ≤ to
    → read (memcpy memory to bs) at n ≡ read memory at n
unfolding read
read-memcpy_below memory at to bs zero h = refl
read-memcpy_below memory at to bs (suc n) h =
    ap₂ ◌∷◌ (ground (arith, memcpy_at memory to bs at))
      (read-memcpy_below memory (at + 1) to bs n (omega arith))

module _ (allocator : Allocator) where
  -- What has been appended to the buffer so far.
  abbrev pub contents : World allocator → List ℕ
  contents w = read w.memory w.simp.bytes_at w.simp.len

  -- A buffer that has room, and no more bytes than it has room for.
  pub record IsValid (w : World allocator) : Type 0 where
    pub room : 0 < w.simp.alloced
    pub within : w.simp.len ≤ w.simp.alloced
    pub fits : w.simp.alloced < 2 ^ 64

  contents-put :
      (w : World allocator) (block : List ℕ)
      → w.simp.len + length block < 2 ^ 64
      → contents (put allocator w block) ≡ contents w ++ block
  unfolding put
  contents-put w block fits =
      let count : u64 (w.simp.len + length block) ≡ w.simp.len + length block = omega arith in
      let memory = memcpy w.memory (w.simp.bytes_at + w.simp.len) block in
      rw count (
        read-append memory w.simp.bytes_at w.simp.len (length block)
        ∙ ap₂ ◌++◌
            (read-memcpy_below w.memory w.simp.bytes_at (w.simp.bytes_at + w.simp.len) block
              w.simp.len (omega arith))
            (read-memcpy w.memory (w.simp.bytes_at + w.simp.len) block))

  contents-move_to :
      (w : World allocator) (p new_alloced : ℕ) (heap : allocator.State)
      → contents (move_to allocator w p new_alloced heap) ≡ contents w
  unfolding move_to
  contents-move_to w p new_alloced heap =
      let held = read w.memory w.simp.bytes_at w.simp.len in
      ap (read (memcpy w.memory p held) p) (sym (length-read w.memory w.simp.bytes_at w.simp.len))
      ∙ read-memcpy w.memory p held

  -- The buffer has kept its block, or has one of `alloced` bytes that the allocator has given.
  abbrev pub IsHeld : World allocator → World allocator → Type 0
  IsHeld w w' =
      ((w'.simp.bytes_at ≡ w.simp.bytes_at) × (w'.simp.alloced ≡ w.simp.alloced))
      ⊎ ((allocator.alloc w.heap w'.simp.alloced).0 ≡ some w'.simp.bytes_at)

  -- The allocator has refused more bytes than the buffer has, and enough for `needed`.
  abbrev pub IsRefused : World allocator → ℕ → Type 0
  IsRefused w needed =
      (size : ℕ) × (w.simp.alloced < size)
      × (needed ≤ size)
      × (size < 2 ^ 64)
      × ((allocator.alloc w.heap size).0 ≡ none)

  -- Either the block stands behind what was there, in a buffer that is valid again; or the allocator
  -- has failed, and the buffer and the memory are as they were.
  abbrev pub Outcome : World allocator → List ℕ → Option (World allocator) → Type 0
  Outcome w block none = ⊥
  Outcome w block (some w') =
      ((contents w' ≡ contents w ++ block)
        × (w'.simp.len ≡ w.simp.len + length block)
        × IsValid w'
        × IsHeld w w')
      ⊎ ((w'.simp ≡ w.simp) × (w'.memory ≡ w.memory) × IsRefused w (w.simp.len + length block))

  put-IsValid :
      (w : World allocator) (block : List ℕ)
      → 0 < w.simp.alloced
      → w.simp.alloced < 2 ^ 64
      → w.simp.len + length block ≤ w.simp.alloced
      → ((put allocator w block).simp.len ≡ w.simp.len + length block)
        × IsValid (put allocator w block)
  unfolding put
  put-IsValid w block room fits within = omega arith

  move_to_fields :
      (w : World allocator) (p new_alloced : ℕ) (heap : allocator.State)
      → ((move_to allocator w p new_alloced heap).simp.len ≡ w.simp.len)
        × ((move_to allocator w p new_alloced heap).simp.alloced ≡ new_alloced)
  unfolding move_to
  move_to_fields w p new_alloced heap = (refl, refl)

  placed_at :
      (w : World allocator) (block : List ℕ) (p new_alloced : ℕ) (heap : allocator.State)
      → (allocator.alloc w.heap new_alloced).0 ≡ some p
      → let w' = put allocator (move_to allocator w p new_alloced heap) block in
        (allocator.alloc w.heap w'.simp.alloced).0 ≡ some w'.simp.bytes_at
  unfolding put move_to
  placed_at w block p new_alloced heap e = e

  put_at :
      (w : World allocator) (block : List ℕ)
      → ((put allocator w block).simp.bytes_at ≡ w.simp.bytes_at)
        × ((put allocator w block).simp.alloced ≡ w.simp.alloced)
  unfolding put
  put_at w block = (refl, refl)

  placed :
      (w : World allocator) (block : List ℕ) (new_alloced : ℕ) (new_data : Option ℕ)
      (heap : allocator.State)
      → w.simp.len + length block ≤ 2 ^ 63
      → w.simp.len + length block ≤ new_alloced
      → w.simp.alloced < new_alloced
      → new_alloced < 2 ^ 64
      → (allocator.alloc w.heap new_alloced).0 ≡ new_data
      → Outcome w block (some (place allocator w block new_alloced new_data heap))
  placed w block new_alloced none heap small large room fits e =
      inr (refl, refl, (new_alloced, room, large, fits, e))
  placed w block new_alloced (some p) heap small large room fits e =
      let moved = move_to allocator w p new_alloced heap in
      let (same_len, new_room) = move_to_fields w p new_alloced heap in
      let (count, valid) =
        put-IsValid moved block (omega (arith, new_room)) (omega (arith, new_room))
          (omega (arith, same_len, new_room)) in
      inl (
        contents-put moved block (omega (arith, same_len))
            ∙ ap (λ held. held ++ block) (contents-move_to w p new_alloced heap),
        omega (arith, count, same_len),
        valid,
        inr (placed_at w block p new_alloced heap e),
      )

ltb-false : (a b : ℕ) → ¬ (a < b) → ltb a b ≡ false
ltb-false a b h = ground arith

-- On a buffer with some room and no more bytes than it has room for, that will hold at most 2 ^ 63
-- bytes, `protobuf_c_buffer_simple_append` ends, and whatever the allocator gives, either the block then
-- stands behind what was there, in a buffer with room for it, whose block is the old one or one of the
-- recorded size that the allocator gave; or the allocator has returned NULL for a size that was more
-- than the buffer had, and enough, and the buffer and the memory are as they were.
pub buffer_simple_append-Outcome :
    (allocator : Allocator) (w : World allocator) (block : List ℕ)
    → IsValid allocator w
    → w.simp.len + length block ≤ 2 ^ 63
    → Outcome allocator w block (buffer_simple_append allocator w block)
unfolding buffer_simple_append
buffer_simple_append-Outcome allocator w block ok small =
    let count : u64 (w.simp.len + length block) ≡ w.simp.len + length block = omega arith in
    rw count (elim (dec_lt w.simp.alloced (w.simp.len + length block)) [
      | no enough ↦ rw (ltb-false w.simp.alloced (w.simp.len + length block) enough) (
          let (held, valid) = put-IsValid allocator w block ok.room ok.fits (omega arith) in
          inl (
            contents-put allocator w block (omega arith),
            held,
            valid,
            inl (put_at allocator w block),
          ))
      | yes short ↦
          let twice : u64 (w.simp.alloced * 2) ≡ w.simp.alloced * 2 = omega arith in
          let (r, e, large, more, fits) =
            growth_loop-enough 64 (w.simp.alloced * 2) (w.simp.len + length block) (omega arith)
              small (omega arith) (omega arith) in
          rw (lt→ltb w.simp.alloced (w.simp.len + length block) short, twice, e)
            (placed allocator w block r _ _ small large (omega arith) fits refl)
    ])

-- On a buffer with no room at all `protobuf_c_buffer_simple_append` does not end if the buffer is to
-- hold some bytes, less than 2 ^ 64: the loop that doubles the room has no end within any fuel.
pub buffer_simple_append_stuck :
    (allocator : Allocator) (w : World allocator) (block : List ℕ)
    → w.simp.alloced ≡ 0
    → 0 < w.simp.len + length block
    → w.simp.len + length block < 2 ^ 64
    → (buffer_simple_append allocator w block ≡ none)
      × ((fuel : ℕ)
          → growth_loop fuel (u64 (w.simp.alloced * 2)) (u64 (w.simp.len + length block)) ≡ none)
unfolding buffer_simple_append
buffer_simple_append_stuck allocator w block empty some_bytes fits =
    let count : u64 (w.simp.len + length block) ≡ w.simp.len + length block = omega arith in
    let twice : u64 (w.simp.alloced * 2) ≡ 0 = omega arith in
    (
      rw
          (
            count,
            lt→ltb w.simp.alloced (w.simp.len + length block) (omega arith),
            twice,
            growth_loop_zero 64 (w.simp.len + length block) some_bytes,
          )
          refl,
      λ fuel. rw (count, twice) (growth_loop_zero fuel (w.simp.len + length block) some_bytes),
    )
