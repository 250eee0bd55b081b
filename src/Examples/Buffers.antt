-- ===== src/Examples/Buffers.antt =====
-- Appends to a simple buffer of four bytes, with an allocator that counts upwards.
use protobuf_c.Base.{u64, ◌*◌, ℕ, ◌+◌, ◌≡◌, refl, arith, false, some, none, [], ◌∷◌}
use protobuf_c.BufferSimple.{Allocator, World, growth_loop, buffer_simple_append}
use protobuf_c.BufferSimple.Appends.{
  IsValid, Outcome, buffer_simple_append-Outcome, buffer_simple_append_stuck,
}

abbrev counting : Allocator
counting = record {
  State = ℕ;
  alloc = λ next size. (some next, next + size);
  free = λ next at. next;
}

-- Three bytes in a block of `room`, at address 100.
abbrev start : ℕ → World counting
start room = record {
  simp = record { alloced = room; len = 3; bytes_at = 100; must_free_data = false };
  memory = λ i. i;
  heap = 1000;
}

start-IsValid : IsValid counting (start 4)
start-IsValid = omega arith

buffer_simple_append-Outcome_example :
    Outcome counting
      (start 4)
      (7 ∷ 8 ∷ 9 ∷ [])
      (buffer_simple_append counting (start 4) (7 ∷ 8 ∷ 9 ∷ []))
buffer_simple_append-Outcome_example =
    buffer_simple_append-Outcome counting (start 4) (7 ∷ 8 ∷ 9 ∷ []) start-IsValid (omega arith)

buffer_simple_append_stuck_example :
    (buffer_simple_append counting (start 0) (7 ∷ []) ≡ none)
    × ((fuel : ℕ) → growth_loop fuel (u64 (0 * 2)) (u64 (3 + 1)) ≡ none)
buffer_simple_append_stuck_example =
    buffer_simple_append_stuck counting (start 0) (7 ∷ []) refl (omega arith) (omega arith)
