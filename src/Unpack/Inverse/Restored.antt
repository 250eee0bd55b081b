-- ===== src/Unpack/Inverse/Restored.antt =====
-- The members that carry the pieces of all fields restore the slots of a message.
use protobuf_c.Base.{
  ℕ, ◌≡◌, ◌≢◌, refl, sym, ap, ◌∙◌, if◌then◌else◌, Bool, true, false, List, [], ◌∷◌, some, get_elem?,
  length,
}
use mathlib.Core.Path.{subst}
use protobuf_c.Memory.Input.{Input, HoldsAt}
use protobuf_c.Message.{
  Label, required, optional, repeated, FieldDescriptor, MessageDescriptor, MessageOf, Slot,
  member_of, has_of, elements_of, is_absent, is_pointer_type,
}
use protobuf_c.Unpack.Outcome.{Action, Gives, Gives-map}
use protobuf_c.Unpack.Value.{ScannedMember}
use protobuf_c.Unpack.Value.Laws.{Restored}
use protobuf_c.Unpack.Fields.{parse_labelled, parse_members}
use protobuf_c.Unpack.Inverse.{one, pieces_by}
use protobuf_c.Unpack.Inverse.Found.{AllCarried}
use protobuf_c.Unpack.Inverse.Rebuilt.{no_member, one_member, array-Restores}
use protobuf_c.Unpack.Inverse.Slots.{RestoredSlot, IsNew, IsCarriableSlot, Puts}
use protobuf_c.Unpack.Inverse.Stored.{required-Gives, optional-Gives}

module _ (answers : ℕ → ℕ) (answered : (k : ℕ) → answers k ≢ 0) {X : Type 0}
    (unpack : MessageDescriptor → ℕ → Input → Action (ℕ × X))
    (submessage_descriptor : FieldDescriptor → MessageDescriptor) (sub : X → List ℕ)
    (P : FieldDescriptor → X → Type 0) (R : X → X → Type 0)
    (reads : (field : FieldDescriptor) (x : X) (input : Input) (calls : ℕ)
      → P field x
      → HoldsAt input 0 (sub x)
      → Gives
          (unpack (submessage_descriptor field) (length (sub x)) input calls)
          (λ r. R x r.1)) where
  pub labelled-Restores :
      (l : Label) (i : ℕ) (field : FieldDescriptor) (slot : Slot X) (ms : List ScannedMember)
      (msg : MessageOf X) (s : Slot X) (calls : ℕ)
      → field.label ≡ l
      → AllCarried sub (pieces_by l i field slot) ms
      → IsCarriableSlot sub P l field slot
      → IsNew l field s
      → get_elem? msg.slots i ≡ some s
      → Gives (parse_members answers unpack submessage_descriptor ms msg calls) (
          Puts answers answered unpack submessage_descriptor sub P R reads i field
            (RestoredSlot R l field slot)
            msg)
  labelled-Restores required i field slot ms msg s calls label carried (storable, fits) new there =
      let Q : Slot X → Type 0 = RestoredSlot R required field slot in
      one_member answers answered unpack submessage_descriptor sub P R reads i field
        (one i field (member_of slot)) ms msg s Q calls refl carried there
        λ m c' c.
          subst
            (λ (l : Label).
              Gives (parse_labelled answers unpack submessage_descriptor l field m s c') Q)
            (sym label)
            (Gives-map _ Q
              (parse_labelled answers unpack submessage_descriptor required field m s c')
              (required-Gives answers answered unpack submessage_descriptor sub P R reads i field m
                (member_of slot) storable fits c s c')
              λ t (w, e, h).
                subst (λ (t : Slot X). Restored R field.type (member_of slot) (member_of t)) (sym e)
                  h)
  labelled-Restores optional i field slot ms msg s calls label carried ok new there =
      optional_by (is_absent field (has_of slot) (member_of slot)) refl carried
    where
      Q : Bool → Slot X → Type 0
      Q absent t =
          if absent
          then is_absent field (has_of t) (member_of t) ≡ true
          else Restored R field.type (member_of slot) (member_of t)
            × (is_pointer_type field.type ≡ false → has_of t ≡ 1)

      optional_by :
          (absent : Bool)
          → is_absent field (has_of slot) (member_of slot) ≡ absent
          → AllCarried sub (if absent then [] else one i field (member_of slot) ∷ []) ms
          → Gives (parse_members answers unpack submessage_descriptor ms msg calls) (
              Puts answers answered unpack submessage_descriptor sub P R reads i field
                (Q absent)
                msg)
      optional_by true e carried =
          no_member answers answered unpack submessage_descriptor sub P R reads i field ms msg s
            (Q true) calls carried there new
      optional_by false e carried =
          let (storable, fits) = ok e in
          one_member answers answered unpack submessage_descriptor sub P R reads i field
            (one i field (member_of slot)) ms msg s (Q false) calls refl carried there
            λ m c' c.
              subst
                (λ (l : Label).
                  Gives (parse_labelled answers unpack submessage_descriptor l field m s c')
                    (Q false))
                (sym label)
                (Gives-map _ (Q false)
                  (parse_labelled answers unpack submessage_descriptor optional field m s c')
                  (optional-Gives answers answered unpack submessage_descriptor sub P R reads i
                    field m (member_of slot) storable fits c s c')
                  λ t (w, e, h). subst (Q false) (sym e) (h, λ plain. rw plain refl))
  labelled-Restores repeated i field slot ms msg s calls label carried ok new there =
      array-Restores answers answered unpack submessage_descriptor sub P R reads i field
        field.packed (elements_of slot) ms msg calls label refl carried ok
        (there ∙ ap (λ (s : Slot X). some s) new)
