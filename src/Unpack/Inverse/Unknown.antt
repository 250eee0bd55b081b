-- ===== src/Unpack/Inverse/Unknown.antt =====
-- The members that carry the unknown fields of a message restore them.
use protobuf_c.Base.{
  ℕ, ◌≡◌, ◌≢◌, refl, sym, ap, ◌∙◌, List, [], ◌∷◌, ◌++◌, map, append_assoc, append-nil,
}
use mathlib.Core.Path.{subst}
use protobuf_c.Memory.Input.{Input}
use protobuf_c.Message.{
  FieldDescriptor, MessageDescriptor, MessageOf, UnknownField, WireType, start_group, end_group,
  bits32, bits64, wire_code, length_prefixed,
}
use protobuf_c.Unpack.Outcome.{do_alloc, do_alloc-Gives, Action, Gives, Gives-bind, Gives-map}
use protobuf_c.Unpack.Value.{ScannedMember, read_bytes}
use protobuf_c.Unpack.Value.Laws.{read_bytes-HoldsAt}
use protobuf_c.Unpack.Fields.{
  parse_into, parse_unknown, wire_type_of_code, parse_member, parse_members,
}
use protobuf_c.Unpack.Inverse.{unknown}
use protobuf_c.Unpack.Inverse.Scanned.{Carried}
use protobuf_c.Unpack.Inverse.Found.{AllCarried}

wire_type_of_code-wire_code : (w : WireType) → wire_type_of_code (wire_code w) ≡ w
wire_type_of_code-wire_code WireType.varint = refl
wire_type_of_code-wire_code bits64 = refl
wire_type_of_code-wire_code length_prefixed = refl
wire_type_of_code-wire_code start_group = refl
wire_type_of_code-wire_code end_group = refl
wire_type_of_code-wire_code bits32 = refl

module _ (answers : ℕ → ℕ) (answered : (k : ℕ) → answers k ≢ 0) {X : Type 0}
    (unpack : MessageDescriptor → ℕ → Input → Action (ℕ × X))
    (submessage_descriptor : FieldDescriptor → MessageDescriptor) (sub : X → List ℕ) where
  -- What `parse_unknown` stores of a member.
  abbrev as_unknown : ScannedMember → UnknownField
  as_unknown m = record {
    tag = m.tag;
    wire_type = wire_type_of_code m.wire_type;
    content = read_bytes m.len m.input;
  }

  as_unknown-Carried :
      (u : UnknownField) (m : ScannedMember) → Carried sub (unknown u) m → as_unknown m ≡ u
  as_unknown-Carried u m c =
      let content : read_bytes m.len m.input ≡ u.content =
        ap (λ (n : ℕ). read_bytes n m.input) c.carries.len
        ∙ read_bytes-HoldsAt u.content m.input c.carries.holds in
      let wired : wire_type_of_code m.wire_type ≡ u.wire_type =
        ap wire_type_of_code c.carries.wired ∙ wire_type_of_code-wire_code u.wire_type in
      rw (c.tag, wired, content) refl

  parse_unknown-Gives :
      (u : UnknownField) (m : ScannedMember) (msg : MessageOf X) (calls : ℕ)
      → Carried sub (unknown u) m
      → Gives
          (parse_member answers unpack submessage_descriptor m msg calls)
          (λ msg'. msg' ≡ record msg { unknown_fields = msg.unknown_fields ++ u ∷ [] })
  unfolding parse_member parse_into parse_unknown
  parse_unknown-Gives u m msg calls c =
      subst (λ at. Gives (parse_into answers unpack submessage_descriptor at m msg calls) Goal)
        (sym c.field)
        (Gives-bind (λ p. m.len ≢ 0 → p ≢ 0) Goal _ (do_alloc answers m.len) calls
          (do_alloc-Gives answers answered m.len calls)
          λ block calls' h.
            ap (λ (u : UnknownField). record msg { unknown_fields = msg.unknown_fields ++ u ∷ [] })
              (as_unknown-Carried u m c))
    where
      Goal : MessageOf X → Type 0
      Goal msg' = msg' ≡ record msg { unknown_fields = msg.unknown_fields ++ u ∷ [] }

  pub unknown_fields-Restore :
      (us : List UnknownField) (ms : List ScannedMember) (msg : MessageOf X) (calls : ℕ)
      → AllCarried sub (map unknown us) ms
      → Gives
          (parse_members answers unpack submessage_descriptor ms msg calls)
          (λ msg'. msg' ≡ record msg { unknown_fields = msg.unknown_fields ++ us })
  unfolding parse_members
  unknown_fields-Restore [] [] msg calls c =
      ap (λ (us : List UnknownField). record msg { unknown_fields = us })
        (sym (append-nil msg.unknown_fields))
  unknown_fields-Restore [] (m ∷ ms) msg calls c = absurd c
  unknown_fields-Restore (u ∷ us) [] msg calls c = absurd c
  unknown_fields-Restore (u ∷ us) (m ∷ ms) msg calls (first, others) =
      let Goal : MessageOf X → Type 0 =
        λ msg'. msg' ≡ record msg { unknown_fields = msg.unknown_fields ++ u ∷ us } in
      Gives-bind (λ msg'. msg' ≡ record msg { unknown_fields = msg.unknown_fields ++ u ∷ [] }) Goal
        (parse_members answers unpack submessage_descriptor ms)
        (parse_member answers unpack submessage_descriptor m msg) calls
        (parse_unknown-Gives u m msg calls first)
        λ msg' calls' e.
          Gives-map _ Goal (parse_members answers unpack submessage_descriptor ms msg' calls')
            (unknown_fields-Restore us ms msg' calls' others)
            λ msg'' e'.
              e'
              ∙ ap (λ (m : MessageOf X). record m { unknown_fields = m.unknown_fields ++ us }) e
              ∙ ap (λ (us : List UnknownField). record msg { unknown_fields = us })
                  (append_assoc msg.unknown_fields (u ∷ []) us)
