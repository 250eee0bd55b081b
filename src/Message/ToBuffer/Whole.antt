-- ===== src/Message/ToBuffer/Whole.antt =====
-- `protobuf_c_message_pack_to_buffer` on whole messages.
use protobuf_c.Base.{ℕ, List}
use protobuf_c.Memory.{Writer}
use protobuf_c.Message.{Message}
use protobuf_c.Message.ToBuffer.{Buffer}
use protobuf_c.Message.ToBuffer.Laws.{Appends}
use protobuf_c.Message.ToBuffer.Appends.{IsBoth}

module _ {X : Type 0} (sub_pack : X → Writer) (sub_append : X → ℕ × List ℕ) (sub : X → List ℕ)
    (buffer : Buffer) where
  open buffer use {State, contents}

  abbrev Both : X → Type 0
  Both = IsBoth sub_pack sub_append sub buffer
