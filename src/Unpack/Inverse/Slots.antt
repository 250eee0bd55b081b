-- ===== src/Unpack/Inverse/Slots.antt =====
-- The members that carry the pieces of one field, and its slot afterwards.
use protobuf_c.Base.{
  ℕ, ◌≡◌, ◌≢◌, refl, sym, IsU32, if◌then◌else◌, true, false, List, [], ◌∷◌, some, map, All,
  get_elem?, set, length, concat_map,
}
use mathlib.Core.Path.{subst}
use protobuf_c.Memory.Input.{Input, HoldsAt}
use protobuf_c.Message.{
  FieldType, int32, string, bytes, message, Label, required, optional, repeated, FieldDescriptor,
  MessageDescriptor, MessageOf, Slot, array, Value, member_of, has_of, elements_of,
  is_packable_type, is_absent, is_pointer_type,
}
use protobuf_c.Message.Encode.{encode_value, prefixed}
use protobuf_c.Unpack.Packed.RoundTrip.{canonical}
use protobuf_c.Unpack.Outcome.{Action, Gives, Gives-bind}
use protobuf_c.Unpack.Value.{ScannedMember}
use protobuf_c.Unpack.Value.Laws.{Storable, Restored}
use protobuf_c.Unpack.Fields.{
  parse_labelled, parse_slot, slot_at, parse_into, parse_member, parse_members,
}

-- The values of `vs`, restored one by one.
abbrev pub AllRestored :
    {X : Type 0} → (X → X → Type 0) → FieldType → List (Value X) → List (Value X) → Type 0
AllRestored R type [] [] = Unit {0}
AllRestored R type [] (w ∷ ws) = ⊥
AllRestored R type (v ∷ vs) [] = ⊥
AllRestored R type (v ∷ vs) (w ∷ ws) = Restored R type v w × AllRestored R type vs ws

-- A slot that is restored: a value is, where there is one, an absent member is absent again, and an
-- array has its elements in order. A `has_` flag is set.
abbrev pub RestoredSlot :
    {X : Type 0} → (X → X → Type 0) → Label → FieldDescriptor → Slot X → Slot X → Type 0
RestoredSlot R required field slot s = Restored R field.type (member_of slot) (member_of s)
RestoredSlot R optional field slot s =
    if is_absent field (has_of slot) (member_of slot)
    then is_absent field (has_of s) (member_of s) ≡ true
    else Restored R field.type (member_of slot) (member_of s)
      × (is_pointer_type field.type ≡ false → has_of s ≡ 1)
RestoredSlot R repeated field slot s = AllRestored R field.type (elements_of slot) (elements_of s)

-- The slot of a new message.
abbrev pub IsNew : {X : Type 0} → Label → FieldDescriptor → Slot X → Type 0
IsNew required field s = Unit {0}
IsNew optional field s = is_absent field (has_of s) (member_of s) ≡ true
IsNew repeated field s = s ≡ array []

module _ {X : Type 0} (sub : X → List ℕ) (P : FieldDescriptor → X → Type 0) where
  -- A value that the wire format can carry.
  abbrev pub IsCarriable : FieldDescriptor → Value X → Type 0
  IsCarriable field v =
      Storable (P field) field.type v × IsU32 (length (encode_value sub field.type v))

  abbrev pub IsCarriableSlot : Label → FieldDescriptor → Slot X → Type 0
  IsCarriableSlot required field slot = IsCarriable field (member_of slot)
  IsCarriableSlot optional field slot =
      is_absent field (has_of slot) (member_of slot) ≡ false → IsCarriable field (member_of slot)
  IsCarriableSlot repeated field slot =
      if field.packed
      then (is_packable_type field.type ≡ true)
        × IsU32 (length (prefixed (concat_map (encode_value sub field.type) (elements_of slot))))
      else All (IsCarriable field) (elements_of slot)

canonical-Restored :
    {X : Type 0} (R : X → X → Type 0) (type : FieldType) (v : Value X)
    → is_packable_type type ≡ true
    → Restored R type v (canonical type v)
canonical-Restored R string v packable = cc
canonical-Restored R bytes v packable = cc
canonical-Restored R message v packable = cc
canonical-Restored R int32 v packable = refl
canonical-Restored R _ v packable = refl

pub all_canonical :
    {X : Type 0} (R : X → X → Type 0) (type : FieldType) (vs : List (Value X))
    → is_packable_type type ≡ true
    → AllRestored R type vs (map (canonical type) vs)
all_canonical R type [] packable = tt
all_canonical R type (v ∷ vs) packable =
    (canonical-Restored R type v packable, all_canonical R type vs packable)

module _ (answers : ℕ → ℕ) (answered : (k : ℕ) → answers k ≢ 0) {X : Type 0}
    (unpack : MessageDescriptor → ℕ → Input → Action (ℕ × X))
    (submessage_descriptor : FieldDescriptor → MessageDescriptor) (sub : X → List ℕ)
    (P : FieldDescriptor → X → Type 0) (R : X → X → Type 0)
    (reads : (field : FieldDescriptor) (x : X) (input : Input) (calls : ℕ)
      → P field x
      → HoldsAt input 0 (sub x)
      → Gives (unpack (submessage_descriptor field) (length (sub x)) input calls) (λ r. R x r.1))
    (i : ℕ) (field : FieldDescriptor) where
  -- Only the slot number `i` has changed, to one with `Q`.
  abbrev pub Puts : (Slot X → Type 0) → MessageOf X → MessageOf X → Type 0
  Puts Q msg msg' = (s : Slot X) × (msg' ≡ record msg { slots = set msg.slots i s }) × Q s

  slot_at-Gives :
      (msg : MessageOf X) (s : Slot X) (calls : ℕ)
      → get_elem? msg.slots i ≡ some s
      → Gives (slot_at answers unpack submessage_descriptor msg i calls) (λ t. t ≡ s)
  slot_at-Gives msg s calls e = rw (e, slot_at) refl

  pub member-Gives :
      (m : ScannedMember) (msg : MessageOf X) (s : Slot X) (Q : Slot X → Type 0) (calls : ℕ)
      → m.field ≡ some (i, field)
      → get_elem? msg.slots i ≡ some s
      → ((c : ℕ)
          → Gives (parse_labelled answers unpack submessage_descriptor field.label field m s c) Q)
      → Gives (parse_member answers unpack submessage_descriptor m msg calls) (Puts Q msg)
  unfolding parse_member parse_into parse_slot
  member-Gives m msg s Q calls e there given =
      subst
        (λ at. Gives (parse_into answers unpack submessage_descriptor at m msg calls) (Puts Q msg))
        (sym e)
        (Gives-bind (λ t. t ≡ s) (Puts Q msg) _ (slot_at answers unpack submessage_descriptor msg i)
          calls (slot_at-Gives msg s calls there)
          λ t calls1 same.
            Gives-bind Q (Puts Q msg) _
              (parse_labelled answers unpack submessage_descriptor field.label field m t) calls1
              (subst
                (λ t.
                  Gives
                    (parse_labelled answers unpack submessage_descriptor field.label field m t
                      calls1)
                    Q)
                (sym same) (given calls1))
              λ s' calls2 h. (s', refl, h))

  pub single_member-Gives :
      (m : ScannedMember) (msg : MessageOf X) (s : Slot X) (Q : Slot X → Type 0) (calls : ℕ)
      → m.field ≡ some (i, field)
      → get_elem? msg.slots i ≡ some s
      → ((c : ℕ)
          → Gives (parse_labelled answers unpack submessage_descriptor field.label field m s c) Q)
      → Gives (parse_members answers unpack submessage_descriptor (m ∷ []) msg calls) (Puts Q msg)
  unfolding parse_members
  single_member-Gives m msg s Q calls e there given =
      Gives-bind (Puts Q msg) (Puts Q msg) _
        (parse_member answers unpack submessage_descriptor m msg) calls
        (member-Gives m msg s Q calls e there given) λ msg' calls' h. h
