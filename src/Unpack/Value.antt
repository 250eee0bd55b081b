-- ===== src/Unpack/Value.antt =====
-- What one scanned member stores: src/google/protobuf-c/protobuf-c.c, `parse_required_member`.
pub mod Laws
pub mod RoundTrip
use protobuf_c.Base.{
  ℕ, zero, suc, ◌+◌, ◌-◌, ◌^◌, u32, ◌==◌, if◌then◌else◌, List, [], ◌∷◌, Bool, true, false, Option,
}
use protobuf_c.Memory.Input.{Input, advance}
use protobuf_c.Message.{
  FieldType, int32, sint32, sfixed32, int64, sint64, sfixed64, uint32, fixed32, uint64, fixed64,
  float, double, bool, enum, string, bytes, message, FieldDescriptor, MessageDescriptor, to, Value,
  word32, word64, boolean, chars, binary, submessage,
}
use protobuf_c.Scalar.Parse.{
  parse_int32, parse_uint32, parse_uint64, unzigzag32, unzigzag64, parse_boolean,
  parse_fixed_uint32, parse_fixed_uint64,
}
use protobuf_c.Unpack.Outcome.{Action, ◌>>=◌, ◌>>◌, pure, fault, require, alloc, do_alloc}

-- `ScannedMember`; `field` is NULL or a field's place in the descriptor with the field.
pub record ScannedMember : Type 0 where
  pub tag : ℕ
  pub wire_type : ℕ
  pub length_prefix_len : ℕ
  pub field : Option (ℕ × FieldDescriptor)
  pub len : ℕ
  pub input : Input

-- The bytes that `memcpy` takes from `input`.
abbrev pub read_bytes : ℕ → Input → List ℕ
read_bytes zero input = []
read_bytes (suc n) input = input 0 ∷ read_bytes n (advance input 1)

-- A C string ends at its first NUL.
abbrev pub before_nul : List ℕ → List ℕ
before_nul [] = []
before_nul (b ∷ bs) = if b == 0 then [] else b ∷ before_nul bs

-- `len - pref_len`, both `unsigned`.
abbrev pub content_len : ScannedMember → ℕ
content_len m = u32 (u32 m.len + 2 ^ 32 - m.length_prefix_len)

-- The calls of the allocator, `protobuf_c_message_unpack` for a submessage, which gives the address of
-- the new message with its content, and the `descriptor` of a field.
module _ (answers : ℕ → ℕ) {X : Type 0} (unpack : MessageDescriptor → ℕ → Input → Action (ℕ × X))
    (submessage_descriptor : FieldDescriptor → MessageDescriptor) where
  -- The bytes, and the NUL that is put behind them, in a block of `len - pref_len + 1` bytes. Where
  -- this sum is 0 the block is NULL.
  unfoldable pub store_string : ℕ → Input → ℕ → Action (Value X)
  store_string len payload zero = fault
  store_string len payload (suc pstr) =
      pure (chars (to (suc pstr) (before_nul (read_bytes len payload))))

  unfoldable pub parse_string : ScannedMember → Action (Value X)
  parse_string m = do
    require (m.wire_type == 2)
    pstr ← do_alloc answers (u32 (content_len m + 1))
    store_string (content_len m) (advance m.input m.length_prefix_len) pstr

  unfoldable pub parse_bytes : ScannedMember → Action (Value X)
  parse_bytes m = do
    require (m.wire_type == 2)
    bd ← do_alloc answers (content_len m)
    pure (binary bd (read_bytes (content_len m) (advance m.input m.length_prefix_len)))

  unfoldable pub parse_submessage : FieldDescriptor → ScannedMember → Action (Value X)
  parse_submessage field m = do
    require (m.wire_type == 2)
    (address, subm) ←
        unpack (submessage_descriptor field) (content_len m) (advance m.input m.length_prefix_len)
    pure (submessage (to address subm))

  -- A scalar: the wire type that is asked for, and the value.
  abbrev pub scalar : ℕ → Value X → ScannedMember → Action (Value X)
  scalar wire_type v m = do require (m.wire_type == wire_type); pure v

  -- By the type of the field. What was stored there before is freed, where `maybe_clear` is set.
  unfoldable pub parse_value : FieldType → FieldDescriptor → ScannedMember → Action (Value X)
  parse_value int32 field m = scalar 0 (word32 (parse_int32 (u32 m.len) m.input)) m
  parse_value uint32 field m = scalar 0 (word32 (parse_uint32 (u32 m.len) m.input)) m
  parse_value sint32 field m = scalar 0 (word32 (unzigzag32 (parse_uint32 (u32 m.len) m.input))) m
  parse_value sfixed32 field m = scalar 5 (word32 (parse_fixed_uint32 m.input)) m
  parse_value fixed32 field m = scalar 5 (word32 (parse_fixed_uint32 m.input)) m
  parse_value float field m = scalar 5 (word32 (parse_fixed_uint32 m.input)) m
  parse_value int64 field m = scalar 0 (word64 (parse_uint64 (u32 m.len) m.input)) m
  parse_value uint64 field m = scalar 0 (word64 (parse_uint64 (u32 m.len) m.input)) m
  parse_value sint64 field m = scalar 0 (word64 (unzigzag64 (parse_uint64 (u32 m.len) m.input))) m
  parse_value sfixed64 field m = scalar 1 (word64 (parse_fixed_uint64 m.input)) m
  parse_value fixed64 field m = scalar 1 (word64 (parse_fixed_uint64 m.input)) m
  parse_value double field m = scalar 1 (word64 (parse_fixed_uint64 m.input)) m
  parse_value bool field m = pure (boolean (parse_boolean (u32 m.len) m.input))
  parse_value enum field m = scalar 0 (word32 (parse_uint32 (u32 m.len) m.input)) m
  parse_value string field m = parse_string m
  parse_value bytes field m = parse_bytes m
  parse_value message field m = parse_submessage field m

  -- `*member`, once the routine has returned 1.
  unfoldable pub parse_required_member : FieldDescriptor → ScannedMember → Action (Value X)
  parse_required_member field m = parse_value field.type field m
