-- ===== src/Message/Valid.antt =====
-- What generated code and the size of an address space give of each message, and the size and
-- pack routines need.
use protobuf_c.Base.{ℕ, zero, suc, ◌≡◌, List, [], ◌∷◌, true, length, All, IsU32}
use protobuf_c.Message.{
  Value, FieldDescriptor, Slot, UnknownField, Message, Pointer, null, to, as_submessage, member_of,
  elements_of, is_packable_type,
}
use protobuf_c.Message.Encode.{encode, encode_repeated}

-- A field number is a `uint32_t`; only what is packable is packed; an array is counted, and what it
-- takes in the encoding measured, in 32 bits.
pub record IsValidField {X : Type 0} (sub : X → List ℕ) (field : FieldDescriptor) (slot : Slot X)
    : Type 0 where
  pub id_fits : IsU32 field.id
  pub packable : field.packed ≡ true → is_packable_type field.type ≡ true
  pub count_fits : IsU32 (length (elements_of slot))
  pub elements_fit : IsU32 (length (encode_repeated sub field (elements_of slot)))

-- `P` of the message that a pointer leads to.
abbrev pub AtPointer : {X : Type 0} → (X → Type 0) → Pointer X → Type 0
AtPointer P null = Unit {0}
AtPointer P (to address x) = P x

-- `P` of every submessage of a slot.
abbrev pub InSlot : {X : Type 0} → (X → Type 0) → Slot X → Type 0
InSlot P slot =
    AtPointer P (as_submessage (member_of slot))
    × All (λ v. AtPointer P (as_submessage v)) (elements_of slot)

abbrev pub AllFields :
    {X : Type 0}
    → (FieldDescriptor → Slot X → Type 0)
    → List FieldDescriptor
    → List (Slot X)
    → Type 0
AllFields P [] slots = Unit {0}
AllFields P (field ∷ fields) [] = Unit {0}
AllFields P (field ∷ fields) (slot ∷ slots) = P field slot × AllFields P fields slots

abbrev pub IsValid : (d : ℕ) → Message d → Type 0
IsValid zero msg = ⊥
IsValid (suc d) msg =
    AllFields (λ field slot. IsValidField (encode d) field slot × InSlot (IsValid d) slot)
      msg.descriptor.fields msg.slots
    × All (λ (field : UnknownField). IsU32 field.tag) msg.unknown_fields

module _ {X : Type 0} {P Q : X → Type 0} (f : (x : X) → P x → Q x) where
  pub AtPointer-map : (p : Pointer X) → AtPointer P p → AtPointer Q p
  AtPointer-map null h = h
  AtPointer-map (to a x) h = f x h

  elements-map :
      (vs : List (Value X))
      → All (λ v. AtPointer P (as_submessage v)) vs
      → All (λ v. AtPointer Q (as_submessage v)) vs
  elements-map [] h = h
  elements-map (v ∷ vs) (hv, hvs) = (AtPointer-map (as_submessage v) hv, elements-map vs hvs)

  pub InSlot-map : (slot : Slot X) → InSlot P slot → InSlot Q slot
  InSlot-map slot (one, many) =
      (AtPointer-map (as_submessage (member_of slot)) one, elements-map (elements_of slot) many)

pub AllFields-map :
    {X : Type 0} {P Q : FieldDescriptor → Slot X → Type 0}
    (f : (field : FieldDescriptor) (slot : Slot X) → P field slot → Q field slot)
    (fields : List FieldDescriptor) (slots : List (Slot X))
    → AllFields P fields slots
    → AllFields Q fields slots
AllFields-map f [] slots h = h
AllFields-map f (field ∷ fields) [] h = h
AllFields-map f (field ∷ fields) (slot ∷ slots) (hd, tl) =
    (f field slot hd, AllFields-map f fields slots tl)
