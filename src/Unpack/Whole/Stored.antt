-- ===== src/Unpack/Whole/Stored.antt =====
-- What each member adds to an array.
use protobuf_c.Base.{
  ℕ, ◌+◌, ◌≡◌, ◌≢◌, refl, sym, ap, ◌∙◌, arith, Bool, true, false, List, [], ◌∷◌, Option, none, some,
  Bool-cases, Option-cases, inl, inr, get_elem?, set, get_elem?-set_self, get_elem?-set_ne, All,
  length, length-append,
}
use mathlib.Core.Path.{subst}
use native.Mathlib.Decide.{ℕ_discrete}
use protobuf_c.Memory.Input.{Input}
use protobuf_c.Message.{
  Label, repeated, FieldDescriptor, MessageDescriptor, MessageOf, Slot, Value, elements_of,
}
use protobuf_c.Lookup.Descriptors.{some_inj}
use protobuf_c.Unpack.Outcome.{Action, Yields, Yields-bind, Yields-all, Yields-map, do_alloc}
use protobuf_c.Unpack.Packed.Bounds.{FitsIn, parse_packed-FitsIn}
use protobuf_c.Unpack.Value.{ScannedMember, parse_required_member}
use protobuf_c.Unpack.Fields.{
  is_packed_member, packed_len, packed_input, parse_repeated_member, appended, parse_array,
  parse_labelled, parse_slot, slot_at, parse_unknown, parse_into, parse_member, parse_members,
}
use protobuf_c.Unpack.Loop.{FieldAt, count_elements}
use protobuf_c.Unpack.Loop.Tally.{FromDesc, Countable, CountableBy, brings, brings_to, total}

-- The elements of the field number `f`.
abbrev pub elements_in : {X : Type 0} → Option (Slot X) → List (Value X)
elements_in none = []
elements_in (some slot) = elements_of slot

abbrev pub elements_at : {X : Type 0} → MessageOf X → ℕ → List (Value X)
elements_at msg f = elements_in (get_elem? msg.slots f)

brings_self :
    (f : ℕ) (g : FieldDescriptor) (m : ScannedMember) (n : ℕ)
    → g.label ≡ repeated
    → count_elements g m ≡ some n
    → brings_to f (some (f, g)) m ≡ n
brings_self f g m n label counted = ground arith

brings_other :
    (f i : ℕ) (g : FieldDescriptor) (m : ScannedMember) → i ≢ f → brings_to f (some (i, g)) m ≡ 0
brings_other f i g m apart = ground arith

module _ (answers : ℕ → ℕ) {X : Type 0} (unpack : MessageDescriptor → ℕ → Input → Action (ℕ × X))
    (submessage_descriptor : FieldDescriptor → MessageDescriptor) where
  -- The slot has `n` more elements.
  abbrev Grows : Slot X → ℕ → Slot X → Type 0
  Grows slot n slot' = length (elements_of slot') ≡ length (elements_of slot) + n

  appended-Grows :
      (slot : Slot X) (n : ℕ) (r : List (Value X) × Bool) (calls : ℕ)
      → FitsIn n r
      → Yields (appended answers unpack submessage_descriptor slot r calls) (Grows slot n)
  appended-Grows slot n (vs, true) calls (room, full) =
      omega (arith, length-append (elements_of slot) vs, full refl)
  appended-Grows slot n (vs, false) calls h = tt

  parse_repeated_member-Grows :
      (field : FieldDescriptor) (m : ScannedMember) (slot : Slot X) (calls : ℕ)
      → Yields
          (parse_repeated_member answers unpack submessage_descriptor field m slot calls)
          (Grows slot 1)
  unfolding parse_repeated_member
  parse_repeated_member-Grows field m slot calls =
      Yields-bind (λ v. Unit {0}) (Grows slot 1) _
        (parse_required_member answers unpack submessage_descriptor field m) calls
        (Yields-all (λ v. Unit {0}) _ λ v. tt)
        λ v calls' h. length-append (elements_of slot) (v ∷ [])

  parse_array-Grows :
      (field : FieldDescriptor) (m : ScannedMember) (slot : Slot X) (n calls : ℕ)
      → count_elements field m ≡ some n
      → Yields (parse_array answers unpack submessage_descriptor field m slot calls) (Grows slot n)
  unfolding parse_array count_elements
  parse_array-Grows field m slot n calls counted =
      elim (Bool-cases (is_packed_member field m.wire_type)) [
        | inl packed ↦ rw packed (
            appended-Grows slot n _ calls (
              parse_packed-FitsIn X field.type (packed_len m) (packed_input m) n
                (rw packed at counted)))
        | inr one ↦
            let count : n ≡ 1 = ground arith in
            rw one (rw count (parse_repeated_member-Grows field m slot calls))
      ]

  pub parse_slot_repeated :
      (field : FieldDescriptor) (m : ScannedMember) (slot : Slot X)
      → field.label ≡ repeated
      → parse_slot answers unpack submessage_descriptor field m slot
        ≡ parse_array answers unpack submessage_descriptor field m slot
  unfolding parse_slot parse_labelled
  parse_slot_repeated field m slot r =
      ap (λ (l : Label). parse_labelled answers unpack submessage_descriptor l field m slot) r

  -- What a member of the field `f` adds to its slot, if the field is repeated.
  module _ (desc : MessageDescriptor) (f : ℕ) (field : FieldDescriptor)
      (here : get_elem? desc.fields f ≡ some field) (label : field.label ≡ repeated) where
    abbrev pub Adds : MessageOf X → ℕ → MessageOf X → Type 0
    Adds msg n msg' = length (elements_at msg' f) ≡ length (elements_at msg f) + n

    own_member :
        (m : ScannedMember) (g : FieldDescriptor) (msg : MessageOf X) (slot : Slot X) (calls : ℕ)
        → g ≡ field
        → CountableBy (some (f, g)) m
        → get_elem? msg.slots f ≡ some slot
        → Yields (parse_slot answers unpack submessage_descriptor g m slot calls) (λ slot'.
          length (elements_in (get_elem? (set msg.slots f slot') f))
          ≡ length (elements_at msg f) + brings_to f (some (f, g)) m)
    own_member m g msg slot calls same countable there =
        let gl : g.label ≡ repeated = ap (λ (h : FieldDescriptor). h.label) same ∙ label in
        let (n, counted) = countable gl in
        let count : brings_to f (some (f, g)) m ≡ n = brings_self f g m n gl counted in
        rw (parse_slot_repeated g m slot gl) (
          Yields-map (Grows slot n) _
            (parse_array answers unpack submessage_descriptor g m slot calls)
            (parse_array-Grows g m slot n calls counted)
            λ slot' grows.
              let now : get_elem? (set msg.slots f slot') f ≡ some slot' =
                get_elem?-set_self msg.slots f slot' slot there in
              let before : length (elements_at msg f) ≡ length (elements_of slot) =
                ap (λ (o : Option (Slot X)). length (elements_in o)) there in
              let after : length (elements_in (get_elem? (set msg.slots f slot') f))
                  ≡ length (elements_of slot') =
                ap (λ (o : Option (Slot X)). length (elements_in o)) now in
              omega (arith, grows, before, after, count))

    other_member :
        (m : ScannedMember) (i : ℕ) (g : FieldDescriptor) (msg : MessageOf X) (slot' : Slot X)
        → i ≢ f
        → Adds msg (brings_to f (some (i, g)) m) (record msg { slots = set msg.slots i slot' })
    other_member m i g msg slot' apart =
        let kept : length (elements_in (get_elem? (set msg.slots i slot') f))
            ≡ length (elements_at msg f) =
          ap (λ (o : Option (Slot X)). length (elements_in o))
            (get_elem?-set_ne msg.slots i f slot' apart) in
        omega (arith, kept, brings_other f i g m apart)

    slot_at-Yields :
        (msg : MessageOf X) (i calls : ℕ)
        → Yields
            (slot_at answers unpack submessage_descriptor msg i calls)
            (λ slot. get_elem? msg.slots i ≡ some slot)
    slot_at-Yields msg i calls = elim (Option-cases (get_elem? msg.slots i)) [
      | inl e ↦ rw (e, slot_at) tt
      | inr (slot, e) ↦ rw (e, slot_at) refl
    ]

    parse_own :
        (g : FieldDescriptor) (m : ScannedMember) (msg : MessageOf X) (calls : ℕ)
        → FromDesc desc (some (f, g))
        → CountableBy (some (f, g)) m
        → Yields
            (parse_into answers unpack submessage_descriptor (some (f, g)) m msg calls)
            (Adds msg (brings_to f (some (f, g)) m))
    unfolding parse_into
    parse_own g m msg calls valid countable =
        let same : g ≡ field = some_inj (sym valid ∙ here) in
        Yields-bind (λ slot. get_elem? msg.slots f ≡ some slot) _ _
          (slot_at answers unpack submessage_descriptor msg f) calls (slot_at-Yields msg f calls)
          λ slot calls1 there.
            Yields-bind
              (λ slot'.
                Adds msg (brings_to f (some (f, g)) m)
                  (record msg { slots = set msg.slots f slot' }))
              _ _ (parse_slot answers unpack submessage_descriptor g m slot) calls1
              (own_member m g msg slot calls1 same countable there) λ slot' calls2 h. h

    parse_other :
        (i : ℕ) (g : FieldDescriptor) (m : ScannedMember) (msg : MessageOf X) (calls : ℕ)
        → i ≢ f
        → Yields
            (parse_into answers unpack submessage_descriptor (some (i, g)) m msg calls)
            (Adds msg (brings_to f (some (i, g)) m))
    unfolding parse_into
    parse_other i g m msg calls apart =
        Yields-bind (λ slot. Unit {0}) _ _ (slot_at answers unpack submessage_descriptor msg i)
          calls (Yields-all (λ slot. Unit {0}) _ λ slot. tt)
          λ slot calls1 h.
            Yields-bind (λ slot'. Unit {0}) _ _
              (parse_slot answers unpack submessage_descriptor g m slot) calls1
              (Yields-all (λ slot'. Unit {0}) _ λ slot'. tt)
              λ slot' calls2 h. other_member m i g msg slot' apart

    parse_into-Adds :
        (at : Option FieldAt) (m : ScannedMember) (msg : MessageOf X) (calls : ℕ)
        → FromDesc desc at
        → CountableBy at m
        → Yields
            (parse_into answers unpack submessage_descriptor at m msg calls)
            (Adds msg (brings_to f at m))
    unfolding parse_into parse_unknown
    parse_into-Adds none m msg calls valid countable =
        Yields-bind (λ block. Unit {0}) _ _ (do_alloc answers m.len) calls
          (Yields-all (λ block. Unit {0}) _ λ block. tt) λ block calls' h. omega arith
    parse_into-Adds (some (i, g)) m msg calls valid countable = elim (ℕ_discrete i f) [
      | yes own ↦
          subst
            (λ i.
              Yields (parse_into answers unpack submessage_descriptor (some (i, g)) m msg calls)
                (Adds msg (brings_to f (some (i, g)) m)))
            (sym own)
            (parse_own g m msg calls (ap (get_elem? desc.fields) (sym own) ∙ valid) countable)
      | no apart ↦ parse_other i g m msg calls apart
    ]

    pub parse_members-Adds :
        (ms : List ScannedMember) (msg : MessageOf X) (calls : ℕ)
        → All (λ (m : ScannedMember). FromDesc desc m.field) ms
        → All Countable ms
        → Yields
            (parse_members answers unpack submessage_descriptor ms msg calls)
            (Adds msg (total (brings f) ms))
    unfolding parse_members parse_member
    parse_members-Adds [] msg calls valid countable = omega arith
    parse_members-Adds (m ∷ ms) msg calls (one, others) (c, cs) =
        Yields-bind (Adds msg (brings f m)) _ _
          (parse_member answers unpack submessage_descriptor m msg) calls
          (parse_into-Adds m.field m msg calls one c)
          λ msg' calls' h.
            Yields-map (Adds msg' (total (brings f) ms)) _ _
              (parse_members-Adds ms msg' calls' others cs) λ msg'' h'. omega (arith, h, h')
