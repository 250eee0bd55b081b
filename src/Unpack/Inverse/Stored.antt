-- ===== src/Unpack/Inverse/Stored.antt =====
-- What the members that carry the pieces of a field leave in its slot.
use protobuf_c.Base.{
  ℕ, ◌+◌, ◌≡◌, ◌≢◌, refl, ap, ◌∙◌, arith, u32, IsU32, ◌==◌, ◌&&◌, ◌||◌, if◌then◌else◌, Bool, true,
  false, List, [], ◌∷◌, ◌++◌, map, length, length-append, concat_map,
}
use protobuf_c.Memory.Input.{Input, HoldsAt, HoldsAt-append, HoldsAt-advance, HoldsAt-eq}
use protobuf_c.Message.{
  FieldType, int32, string, bytes, message, required, optional, FieldDescriptor, MessageDescriptor,
  Slot, single, array, Value, has_of, elements_of, is_packable_type, is_pointer_type, wire_type_of,
  wire_code,
}
use protobuf_c.Message.Encode.{encode_value, prefixed}
use protobuf_c.Scalar.Base128.{varint}
use protobuf_c.Unpack.Packed.RoundTrip.{canonical}
use protobuf_c.Unpack.Packed.Whole.{parse_packed-encode}
use protobuf_c.Unpack.Outcome.{Action, Gives, Gives-bind}
use protobuf_c.Unpack.Value.{ScannedMember, parse_required_member}
use protobuf_c.Unpack.Value.Laws.{Storable, Restored}
use protobuf_c.Unpack.Value.RoundTrip.{parse_required_member-encode}
use protobuf_c.Unpack.Fields.{
  is_packed_member, packed_len, packed_input, parse_optional_member, parse_repeated_member,
  parse_array, parse_labelled,
}
use protobuf_c.Unpack.Inverse.{one, packed}
use protobuf_c.Unpack.Inverse.Scanned.{Carried}

-- A value that is not packed never looks like a packed array.
single_is_not_packed :
    (type : FieldType)
    → (wire_code (wire_type_of type) == 2 && (false || is_packable_type type)) ≡ false
single_is_not_packed string = refl
single_is_not_packed bytes = refl
single_is_not_packed message = refl
single_is_not_packed int32 = refl
single_is_not_packed _ = refl

module _ (answers : ℕ → ℕ) (answered : (k : ℕ) → answers k ≢ 0) {X : Type 0}
    (unpack : MessageDescriptor → ℕ → Input → Action (ℕ × X))
    (submessage_descriptor : FieldDescriptor → MessageDescriptor) (sub : X → List ℕ)
    (P : FieldDescriptor → X → Type 0) (R : X → X → Type 0)
    (reads : (field : FieldDescriptor) (x : X) (input : Input) (calls : ℕ)
      → P field x
      → HoldsAt input 0 (sub x)
      → Gives (unpack (submessage_descriptor field) (length (sub x)) input calls) (λ r. R x r.1))
    (i : ℕ) (field : FieldDescriptor) (m : ScannedMember) where
  module _ (v : Value X) (storable : Storable (P field) field.type v)
      (fits : IsU32 (length (encode_value sub field.type v)))
      (c : Carried sub (one i field v) m) where
    value-Gives :
        (calls : ℕ)
        → Gives
            (parse_required_member answers unpack submessage_descriptor field m calls)
            (Restored R field.type v)
    value-Gives calls =
        parse_required_member-encode answers answered unpack submessage_descriptor sub P R reads
          field v m calls storable fits
          (record {
            wired = c.carries.wired;
            len = c.carries.len;
            pref = c.prefix;
            holds = c.carries.holds;
          })

    pub required-Gives :
        (slot : Slot X) (calls : ℕ)
        → Gives
            (parse_labelled answers unpack submessage_descriptor required field m slot calls)
            (λ s. (w : Value X) × (s ≡ single (has_of slot) w) × Restored R field.type v w)
    unfolding parse_labelled
    required-Gives slot calls =
        Gives-bind (Restored R field.type v) _ _
          (parse_required_member answers unpack submessage_descriptor field m) calls
          (value-Gives calls) λ w calls' h. (w, refl, h)

    pub optional-Gives :
        (slot : Slot X) (calls : ℕ)
        → Gives
            (parse_labelled answers unpack submessage_descriptor optional field m slot calls)
            (λ s.
              (w : Value X) × (s ≡ single (if is_pointer_type field.type then has_of slot else 1) w)
              × Restored R field.type v w)
    unfolding parse_labelled parse_optional_member
    optional-Gives slot calls =
        Gives-bind (Restored R field.type v) _ _
          (parse_required_member answers unpack submessage_descriptor field m) calls
          (value-Gives calls) λ w calls' h. (w, refl, h)

    repeated_one-Gives :
        (slot : Slot X) (calls : ℕ)
        → Gives
            (parse_repeated_member answers unpack submessage_descriptor field m slot calls)
            (λ s.
              (w : Value X) × (s ≡ array (elements_of slot ++ w ∷ [])) × Restored R field.type v w)
    unfolding parse_repeated_member
    repeated_one-Gives slot calls =
        Gives-bind (Restored R field.type v) _ _
          (parse_required_member answers unpack submessage_descriptor field m) calls
          (value-Gives calls) λ w calls' h. (w, refl, h)

    pub element-Gives :
        (slot : Slot X) (calls : ℕ)
        → field.packed ≡ false
        → Gives (parse_array answers unpack submessage_descriptor field m slot calls) (λ s.
          (w : Value X) × (s ≡ array (elements_of slot ++ w ∷ [])) × Restored R field.type v w)
    unfolding parse_array
    element-Gives slot calls plain =
        let test : is_packed_member field m.wire_type ≡ false =
          ap (λ (wt : ℕ). wt == 2 && (field.packed || is_packable_type field.type)) c.carries.wired
          ∙ ap
              (λ (b : Bool).
                wire_code (wire_type_of field.type) == 2 && (b || is_packable_type field.type))
              plain
          ∙ single_is_not_packed field.type in
        rw test (repeated_one-Gives slot calls)

  pub packed-Gives :
      (vs : List (Value X)) (slot : Slot X) (calls : ℕ)
      → field.packed ≡ true
      → is_packable_type field.type ≡ true
      → IsU32 (length (prefixed (concat_map (encode_value sub field.type) vs)))
      → Carried sub (packed i field vs) m
      → Gives
          (parse_array answers unpack submessage_descriptor field m slot calls)
          (λ s. s ≡ array (elements_of slot ++ map (canonical field.type) vs))
  unfolding parse_array
  packed-Gives vs slot calls flag packable fits c =
      let bs = concat_map (encode_value sub field.type) vs in
      let head = varint (u32 (length bs)) in
      let total = length-append head bs in
      let test : is_packed_member field m.wire_type ≡ true = ground (arith, c.carries.wired) in
      let len : packed_len m ≡ length bs = omega (arith, c.carries.len, c.prefix, total) in
      let (front, back) = HoldsAt-append m.input 0 head bs c.carries.holds in
      let start : 0 + length head ≡ m.length_prefix_len + 0 = omega (arith, c.prefix) in
      let behind =
        HoldsAt-advance m.input m.length_prefix_len 0 bs (HoldsAt-eq m.input bs _ _ start back) in
      let parsed = parse_packed-encode sub field.type vs (packed_input m) packable behind in
      rw (test, len, parsed) refl
