-- ===== src/Unpack/Whole/Counted.antt =====
-- What is stored in an array is what was counted for it.
use protobuf_c.Base.{
  ℕ, zero, suc, ◌+◌, ◌*◌, ◌^◌, ◌≤◌, ◌≡◌, refl, ap, ◌∙◌, arith, u32, u64, ◌==◌, List, [], ◌∷◌, some,
  Bool-cases, inl, inr, get_elem?, set, get_elem?-set_ne, length,
}
use mathlib.Core.Path.{subst}
use native.Mathlib.Decide.{ℕ_discrete}
use protobuf_c.Memory.Input.{Input}
use protobuf_c.Message.{
  Label, required, optional, repeated, FieldDescriptor, MessageDescriptor, MessageOf, Slot, array,
  Value,
}
use protobuf_c.Unpack.Outcome.{
  Outcome, returned, Action, Yields, Yields-bind, Yields-all, Yields-map, do_alloc, EndsOr,
}
use protobuf_c.Unpack.Loop.{Scan, start, scan_loop}
use protobuf_c.Unpack.Loop.Steps.{IsIndexed}
use protobuf_c.Unpack.Loop.Invariant.{IsScan}
use protobuf_c.Unpack.Loop.Rounds.{scan_loop-EndsOr}
use protobuf_c.Unpack.Whole.Stored.{elements_in, elements_at, parse_members-Adds}
use protobuf_c.Unpack.Whole.{
  allocate_array, new_array, prepare_labelled, prepare_field, prepare_fields, build_message,
  sizeof_elt_in_repeated_array, is_missing, sizeof_unknown_field,
}

-- No array of the message has elements.
abbrev pub IsEmpty : {X : Type 0} → MessageOf X → Type 0
IsEmpty msg = (f : ℕ) → elements_at msg f ≡ []

module _ (answers : ℕ → ℕ) {X : Type 0} (st : Scan) where
  emptied :
      (msg : MessageOf X) (g : ℕ)
      → IsEmpty msg
      → IsEmpty (record msg { slots = set msg.slots g (array []) })
  emptied msg g h f = elim (ℕ_discrete g f) [
    | yes own ↦
        subst (λ f. elements_in (get_elem? (set msg.slots g (array [])) f) ≡ []) own
          (at_set msg.slots g)
    | no apart ↦ ap elements_in (get_elem?-set_ne msg.slots g f (array []) apart) ∙ h f
  ]
    where
      at_set :
          (slots : List (Slot X)) (g : ℕ) → elements_in (get_elem? (set slots g (array [])) g) ≡ []
      at_set [] g = refl
      at_set (slot ∷ slots) zero = refl
      at_set (slot ∷ slots) (suc g) = at_set slots g

  new_array-IsEmpty :
      (g : ℕ) (field : FieldDescriptor) (msg : MessageOf X) (calls : ℕ)
      → IsEmpty msg
      → Yields (new_array answers st g field msg calls) IsEmpty
  new_array-IsEmpty g field msg calls h =
      Yields-bind (λ block. Unit {0}) IsEmpty _
        (do_alloc answers (u64 (sizeof_elt_in_repeated_array field.type * u32 (st.counts g)))) calls
        (Yields-all (λ block. Unit {0}) _ λ block. tt) λ block calls' _. emptied msg g h

  prepare_labelled-IsEmpty :
      (l : Label) (g : ℕ) (field : FieldDescriptor) (msg : MessageOf X) (calls : ℕ)
      → IsEmpty msg
      → Yields (prepare_labelled answers l st g field msg calls) IsEmpty
  unfolding prepare_labelled allocate_array
  prepare_labelled-IsEmpty required g field msg calls h =
      elim (Bool-cases (is_missing st g field)) [
        | inl missing ↦ rw missing tt
        | inr there ↦ rw there h
      ]
  prepare_labelled-IsEmpty optional g field msg calls h = h
  prepare_labelled-IsEmpty repeated g field msg calls h = elim (Bool-cases (st.counts g == 0)) [
    | inl none_to_come ↦ rw none_to_come h
    | inr some_to_come ↦ rw some_to_come (new_array-IsEmpty g field msg calls h)
  ]

  prepare_fields-IsEmpty :
      (fields : List FieldDescriptor) (from : ℕ) (msg : MessageOf X) (calls : ℕ)
      → IsEmpty msg
      → Yields (prepare_fields answers st from fields msg calls) IsEmpty
  unfolding prepare_fields prepare_field
  prepare_fields-IsEmpty [] from msg calls h = h
  prepare_fields-IsEmpty (field ∷ fields) from msg calls h =
      Yields-bind IsEmpty IsEmpty _ (prepare_field answers st from field msg) calls
        (prepare_labelled-IsEmpty field.label from field msg calls h)
        λ msg' calls' h'. prepare_fields-IsEmpty fields (from + 1) msg' calls' h'

  counted :
      (unpack : MessageDescriptor → ℕ → Input → Action (ℕ × X))
      (submessage_descriptor : FieldDescriptor → MessageDescriptor) (desc : MessageDescriptor)
      (f : ℕ) (field : FieldDescriptor) (msg : MessageOf X) (calls : ℕ)
      → IsScan desc st
      → IsEmpty msg
      → get_elem? desc.fields f ≡ some field
      → field.label ≡ repeated
      → Yields
          (build_message answers unpack submessage_descriptor desc st msg calls)
          (λ msg'. u64 (length (elements_at msg' f)) ≡ st.counts f)
  unfolding build_message
  counted unpack submessage_descriptor desc f field msg calls ok empty here label =
      let Counted : MessageOf X → Type 0 =
        λ msg'. u64 (length (elements_at msg' f)) ≡ st.counts f in
      Yields-bind IsEmpty Counted _ (prepare_fields answers st 0 desc.fields msg) calls
        (prepare_fields-IsEmpty desc.fields 0 msg calls empty)
        λ msg1 calls1 empty1.
          Yields-bind (λ block. Unit {0}) Counted _
            (do_alloc answers (u64 (st.n_unknown * sizeof_unknown_field))) calls1
            (Yields-all (λ block. Unit {0}) _ λ block. tt)
            λ block calls2 h.
              Yields-map _ Counted _
                (parse_members-Adds answers unpack submessage_descriptor desc f field here label
                  st.members msg1 calls2 ok.fields ok.countable)
                λ msg2 adds.
                  omega
                    (arith, adds, ap (λ (vs : List (Value X)). length vs) (empty1 f), ok.counted f)

-- If the descriptor has a valid index of its fields by number, and the arrays of the new message are
-- empty, then where `protobuf_c_message_unpack` has scanned its input and then returns a message, each
-- array has as many elements as its quantifier counted in the scan, modulo 2 ^ 64.
pub build_message-counted :
    (answers : ℕ → ℕ) {X : Type 0} (unpack : MessageDescriptor → ℕ → Input → Action (ℕ × X))
    (submessage_descriptor : FieldDescriptor → MessageDescriptor) (desc : MessageDescriptor)
    (len : ℕ) (input : Input) (calls calls' f : ℕ) (st : Scan) (field : FieldDescriptor)
    (msg : MessageOf X)
    → IsIndexed desc
    → scan_loop answers desc len len input (start desc) calls ≡ returned st calls'
    → IsEmpty msg
    → get_elem? desc.fields f ≡ some field
    → field.label ≡ repeated
    → Yields
        (build_message answers unpack submessage_descriptor desc st msg calls')
        (λ msg'. u64 (length (elements_at msg' f)) ≡ st.counts f)
build_message-counted answers unpack submessage_descriptor desc len input calls calls' f st field
      msg indexed scanned empty here label =
    let ok : IsScan desc st =
      subst (λ (o : Outcome Scan). EndsOr (2 ^ 32 ≤ len + 16) o (IsScan desc)) scanned
        (scan_loop-EndsOr answers desc indexed len input calls) in
    counted answers st unpack submessage_descriptor desc f field msg calls' ok empty here label
