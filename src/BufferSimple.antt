-- ===== src/BufferSimple.antt =====
-- The growing buffer: src/google/protobuf-c/protobuf-c.c, "buffer-simple", and `ProtobufCBufferSimple`
-- of protobuf-c.h. Its bytes stand in the memory from `bytes_at` on; the allocator is a parameter.
pub mod Growth
pub mod Appends
use protobuf_c.Base.{
  ℕ, zero, suc, ◌+◌, ◌*◌, ◌^◌, Bool, true, false, ltb, if◌then◌else◌, Option, none, some, List,
  length, u64,
}
use protobuf_c.Memory.{Memory, memcpy}
use protobuf_c.Message.ToBuffer.{read}

-- `ProtobufCAllocator`, of which the default is used: `none` is NULL.
pub record Allocator : Type 1 where
  pub State : Type 0
  pub alloc : State → ℕ → Option ℕ × State
  pub free : State → ℕ → State

pub record SimpleBuffer : Type 0 where
  pub alloced : ℕ
  pub len : ℕ
  pub bytes_at : ℕ
  pub must_free_data : Bool

-- `while (new_alloced < new_len) new_alloced += new_alloced;` `none` is a loop that goes on for longer
-- than the fuel. A `size_t` has 64 bits, so 64 rounds double any number that is not zero past the
-- lengths below 2 ^ 63.
unfoldable pub growth_loop : ℕ → ℕ → ℕ → Option ℕ
growth_loop zero new_alloced new_len = if ltb new_alloced new_len then none else some new_alloced
growth_loop (suc fuel) new_alloced new_len =
    let rest = growth_loop fuel (u64 (new_alloced + new_alloced)) new_len in
    if ltb new_alloced new_len then rest else some new_alloced

module _ (allocator : Allocator) where
  open allocator use {State, alloc, free}

  -- The buffer, the memory and the allocator.
  pub record World : Type 0 where
    pub simp : SimpleBuffer
    pub memory : Memory
    pub heap : State

  -- `FREE (&protobuf_c_default_allocator, ptr)`
  abbrev pub free_unless_null : ℕ → State → State
  free_unless_null zero heap = heap
  free_unless_null (suc ptr) heap = free heap (suc ptr)

  -- The bytes that are there move to a block of `new_alloced` bytes.
  unfoldable pub move_to : World → ℕ → ℕ → State → World
  move_to w new_data new_alloced heap = record {
    simp = record w.simp { alloced = new_alloced; bytes_at = new_data; must_free_data = true };
    memory = memcpy w.memory new_data (read w.memory w.simp.bytes_at w.simp.len);
    heap = if w.simp.must_free_data then free_unless_null w.simp.bytes_at heap else heap;
  }

  -- `memcpy (simp->data + simp->len, data, len); simp->len = new_len;`
  unfoldable pub put : World → List ℕ → World
  put w block = record {
    simp = record w.simp { len = u64 (w.simp.len + length block) };
    memory = memcpy w.memory (w.simp.bytes_at + w.simp.len) block;
    heap = w.heap;
  }

  -- A failed allocation returns with the buffer as it was.
  abbrev pub place : World → List ℕ → ℕ → Option ℕ → State → World
  place w block new_alloced none heap = record w { heap = heap }
  place w block new_alloced (some p) heap = put (move_to w p new_alloced heap) block

  abbrev pub grow_to : World → List ℕ → Option ℕ → Option World
  grow_to w block none = none
  grow_to w block (some new_alloced) =
      let (new_data, heap) = alloc w.heap new_alloced in
      some (place w block new_alloced new_data heap)

  -- `none` where the loop does not end.
  unfoldable pub buffer_simple_append : World → List ℕ → Option World
  buffer_simple_append w block =
      let new_len = u64 (w.simp.len + length block) in
      if ltb w.simp.alloced new_len
      then grow_to w block (growth_loop 64 (u64 (w.simp.alloced * 2)) new_len)
      else some (put w block)
