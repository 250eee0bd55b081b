-- ===== src/Unpack/Inverse/Nested.antt =====
-- Unpacking restores submessages, as deep as they nest.
use protobuf_c.Base.{ℕ, zero, suc, ◌≡◌, ◌≤◌, [], All, length}
use protobuf_c.Memory.Input.{Input}
use protobuf_c.Message.{FieldDescriptor, Message, MessageOf, Value}
use protobuf_c.Message.Encode.{encode}
use protobuf_c.Unpack.Loop.Steps.{IsIndexed}
use protobuf_c.Unpack.Whole.{Generated, initial_message}
use protobuf_c.Unpack.Inverse.{pieces}
use protobuf_c.Unpack.Inverse.Scanned.{Scannable, max_members}
use protobuf_c.Unpack.Inverse.Refilled.{IsReady}
use protobuf_c.Unpack.Inverse.Assembled.{Rebuilt}

-- A message, and what it is read back as: the descriptor, the unknown fields, and each slot, with its
-- submessages read back in the same sense.
abbrev pub IsBack : (d : ℕ) → Message d → Message d → Type 0
IsBack zero msg msg' = ⊥
IsBack (suc d) msg msg' = Rebuilt (IsBack d) msg msg'

-- What is needed to read back a submessage of a field: the field points at its descriptor, which has a
-- valid index; the initial message is a new one of that descriptor; each value can be carried, with
-- its submessages in the same sense; and the scan takes each piece of the encoding whole.
abbrev pub IsReadable : Generated → (d : ℕ) → FieldDescriptor → Message d → Type 0
IsReadable generated zero field msg = ⊥
IsReadable generated (suc d) field msg =
    let initial : MessageOf (Message d) = initial_message generated d msg.descriptor in
    (generated.submessage_descriptor field ≡ msg.descriptor)
    × IsIndexed msg.descriptor
    × (initial.descriptor ≡ msg.descriptor)
    × (initial.unknown_fields ≡ [])
    × IsReady (encode d) (IsReadable generated d) msg.descriptor.fields msg.slots initial.slots
    × All (Scannable (encode d) msg.descriptor) (pieces msg)
    × (length (pieces msg) ≤ max_members)
