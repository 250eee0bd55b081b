-- ===== src/Unpack/Inverse.antt =====
-- An encoded message as the members that the scan finds in it.
pub mod Scanned
pub mod Found
pub mod Stored
pub mod Slots
pub mod Rebuilt
pub mod Restored
pub mod Refilled
pub mod Unknown
pub mod Prepared
pub mod Marked
pub mod Assembled
pub mod Nested
use protobuf_c.Base.{
  ℕ, zero, suc, ◌+◌, ◌≡◌, refl, ap, ◌∙◌, sym, if◌then◌else◌, Bool, true, false, List, [], ◌∷◌, ◌++◌,
  append_assoc, append-nil, Option, none, some, map, length, concat_map, u32, All, Bool-cases, inl,
  inr,
}
use protobuf_c.Message.{
  Label, required, optional, repeated, FieldDescriptor, Value, Slot, UnknownField, MessageOf,
  WireType, length_prefixed, member_of, has_of, elements_of, is_absent, wire_type_of,
}
use protobuf_c.Message.Encode.{
  key, prefixed, encode_value, encode_required, encode_optional, encode_packed, encode_repeated,
  encode_field, encode_fields, encode_unknown, encode_body,
}
use protobuf_c.Scalar.Base128.{varint}
use protobuf_c.Unpack.Loop.{FieldAt}
use protobuf_c.Unpack.Member.Laws.{prefix_len}

-- A member on the wire: one value of a field, with the place of the field, a packed array, or an
-- unknown field.
pub data Piece (X : Type 0) : Type 0 where
  one : ℕ → FieldDescriptor → Value X → Piece X
  packed : ℕ → FieldDescriptor → List (Value X) → Piece X
  unknown : UnknownField → Piece X

module _ {X : Type 0} where
  abbrev pub field_of : Piece X → Option FieldAt
  field_of (one i field v) = some (i, field)
  field_of (packed i field vs) = some (i, field)
  field_of (unknown u) = none

  abbrev pub tag_of : Piece X → ℕ
  tag_of (one i field v) = field.id
  tag_of (packed i field vs) = field.id
  tag_of (unknown u) = u.tag

  abbrev pub wire_of : Piece X → WireType
  wire_of (one i field v) = wire_type_of field.type
  wire_of (packed i field vs) = length_prefixed
  wire_of (unknown u) = u.wire_type

  -- The pieces of a field, by its label.
  abbrev pub packed_piece : ℕ → FieldDescriptor → List (Value X) → List (Piece X)
  packed_piece i field [] = []
  packed_piece i field (v ∷ vs) = packed i field (v ∷ vs) ∷ []

  abbrev pub pieces_by : Label → ℕ → FieldDescriptor → Slot X → List (Piece X)
  pieces_by required i field slot = one i field (member_of slot) ∷ []
  pieces_by optional i field slot =
      if is_absent field (has_of slot) (member_of slot)
      then []
      else one i field (member_of slot) ∷ []
  pieces_by repeated i field slot =
      if field.packed
      then packed_piece i field (elements_of slot)
      else map (one i field) (elements_of slot)

  abbrev pub field_pieces : ℕ → List FieldDescriptor → List (Slot X) → List (Piece X)
  field_pieces i [] slots = []
  field_pieces i (field ∷ fields) [] = []
  field_pieces i (field ∷ fields) (slot ∷ slots) =
      pieces_by field.label i field slot ++ field_pieces (i + 1) fields slots

  abbrev pub pieces : MessageOf X → List (Piece X)
  pieces msg = field_pieces 0 msg.descriptor.fields msg.slots ++ map unknown msg.unknown_fields

module _ {X : Type 0} (sub : X → List ℕ) where
  -- What stands behind the tag, and how many of these bytes are a length.
  abbrev pub body : Piece X → List ℕ
  body (one i field v) = encode_value sub field.type v
  body (packed i field vs) = prefixed (concat_map (encode_value sub field.type) vs)
  body (unknown u) = u.content

  abbrev pub bytes_of : Piece X → List ℕ
  bytes_of p = key (tag_of p) (wire_of p) ++ body p

  concat_map-append :
      (ps qs : List (Piece X))
      → concat_map bytes_of (ps ++ qs) ≡ concat_map bytes_of ps ++ concat_map bytes_of qs
  concat_map-append [] qs = refl
  concat_map-append (p ∷ ps) qs =
      ap (λ (bs : List ℕ). bytes_of p ++ bs) (concat_map-append ps qs)
      ∙ sym (append_assoc (bytes_of p) (concat_map bytes_of ps) (concat_map bytes_of qs))

  packed_piece-bytes :
      (i : ℕ) (field : FieldDescriptor) (vs : List (Value X))
      → concat_map bytes_of (packed_piece i field vs) ≡ encode_packed sub field vs
  packed_piece-bytes i field [] = refl
  packed_piece-bytes i field (v ∷ vs) = append-nil _

  ones-bytes :
      (i : ℕ) (field : FieldDescriptor) (vs : List (Value X))
      → concat_map bytes_of (map (one i field) vs) ≡ concat_map (encode_required sub field) vs
  unfolding encode_required
  ones-bytes i field [] = refl
  ones-bytes i field (v ∷ vs) =
      ap (λ (bs : List ℕ). encode_required sub field v ++ bs) (ones-bytes i field vs)

  array_pieces-bytes :
      (i : ℕ) (field : FieldDescriptor) (vs : List (Value X)) (b : Bool)
      → concat_map bytes_of (if b then packed_piece i field vs else map (one i field) vs)
        ≡ (if b then encode_packed sub field vs else concat_map (encode_required sub field) vs)
  array_pieces-bytes i field vs true = packed_piece-bytes i field vs
  array_pieces-bytes i field vs false = ones-bytes i field vs

  abbrev encode_labelled : Label → FieldDescriptor → Slot X → List ℕ
  encode_labelled required field slot = encode_required sub field (member_of slot)
  encode_labelled optional field slot = encode_optional sub field (has_of slot) (member_of slot)
  encode_labelled repeated field slot = encode_repeated sub field (elements_of slot)

  pieces_by-bytes :
      (l : Label) (i : ℕ) (field : FieldDescriptor) (slot : Slot X)
      → concat_map bytes_of (pieces_by l i field slot) ≡ encode_labelled l field slot
  unfolding encode_required encode_optional encode_repeated
  pieces_by-bytes required i field slot = append-nil _
  pieces_by-bytes optional i field slot =
      elim (Bool-cases (is_absent field (has_of slot) (member_of slot))) [
        | inl absent ↦ rw absent refl
        | inr there ↦ rw there (append-nil _)
      ]
  pieces_by-bytes repeated i field slot = array_pieces-bytes i field (elements_of slot) field.packed

  encode_field-labelled :
      (field : FieldDescriptor) (slot : Slot X)
      → encode_field sub field slot ≡ encode_labelled field.label field slot
  unfolding encode_field
  encode_field-labelled field slot = by_label field.label
    where
      by_label :
          (l : Label)
          → (elim l as (λ (l : Label). List ℕ) [
            | required ↦ encode_required sub field (member_of slot)
            | optional ↦ encode_optional sub field (has_of slot) (member_of slot)
            | repeated ↦ encode_repeated sub field (elements_of slot)
          ])
            ≡ encode_labelled l field slot
      by_label required = refl
      by_label optional = refl
      by_label repeated = refl

  field_pieces-bytes :
      (i : ℕ) (fields : List FieldDescriptor) (slots : List (Slot X))
      → concat_map bytes_of (field_pieces i fields slots) ≡ encode_fields sub fields slots
  unfolding encode_fields
  field_pieces-bytes i [] slots = refl
  field_pieces-bytes i (field ∷ fields) [] = refl
  field_pieces-bytes i (field ∷ fields) (slot ∷ slots) =
      concat_map-append (pieces_by field.label i field slot) (field_pieces (i + 1) fields slots)
      ∙ rw
          (
            pieces_by-bytes field.label i field slot,
            encode_field-labelled field slot,
            field_pieces-bytes (i + 1) fields slots,
          )
          refl

  unknown-bytes :
      (us : List UnknownField) → concat_map bytes_of (map unknown us) ≡ concat_map encode_unknown us
  unfolding encode_unknown
  unknown-bytes [] = refl
  unknown-bytes (u ∷ us) = ap (λ (bs : List ℕ). encode_unknown u ++ bs) (unknown-bytes us)

  -- The pieces of a message, one after another, are its encoding.
  pub pieces-bytes : (msg : MessageOf X) → concat_map bytes_of (pieces msg) ≡ encode_body sub msg
  unfolding encode_body
  pieces-bytes msg =
      concat_map-append (field_pieces 0 msg.descriptor.fields msg.slots)
        (map unknown msg.unknown_fields)
      ∙ rw (field_pieces-bytes 0 msg.descriptor.fields msg.slots, unknown-bytes msg.unknown_fields)
          refl
