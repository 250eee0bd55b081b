-- ===== src/Unpack/Whole/Required.antt =====
-- A message without a required field is refused.
use protobuf_c.Base.{
  ◌^◌, ℕ, zero, suc, ◌+◌, ◌*◌, ◌≤◌, ◌<◌, ◌≡◌, refl, ap, ◌∙◌, arith, ◌==◌, Bool, true, false, List,
  [], ◌∷◌, Option, none, some, Bool-cases, u32, u64, inl, inr, get_elem?, get_elem?-lt, All, length,
}
use protobuf_c.Memory.Input.{Input}
use protobuf_c.Message.{
  Label, required, optional, repeated, FieldDescriptor, MessageDescriptor, MessageOf,
}
use protobuf_c.Unpack.Outcome.{
  failed, Action, Ends, Ends-bind, Ends-failed, EndsOr-Ends, do_alloc, do_alloc-Ends, alloc,
  alloc-Ends,
}
use protobuf_c.Unpack.Value.{ScannedMember}
use protobuf_c.Unpack.Loop.{FieldAt, Scan, start, scan_loop}
use protobuf_c.Unpack.Loop.Tally.{FromDesc, marks, marks_by, any}
use protobuf_c.Unpack.Loop.Steps.{IsIndexed, Label-cases}
use protobuf_c.Unpack.Loop.Invariant.{IsScan}
use protobuf_c.Unpack.Loop.Rounds.{scan_loop-EndsOr}
use protobuf_c.Unpack.Whole.{
  sizeof_elt_in_repeated_array, is_missing, allocate_array, new_array, prepare_labelled,
  prepare_field, prepare_fields, build_message, unpack_message, Generated, initial_message,
  message_unpack,
}

-- A member of the field number `f` of the descriptor.
abbrev pub fills_by : ℕ → Option FieldAt → Bool
fills_by f none = false
fills_by f (some (i, field)) = f == i

abbrev pub fills : ℕ → ScannedMember → Bool
fills f m = fills_by f m.field

-- With no more fields than bits, a bit is set by its own field only.
marks-fills_by :
    (desc : MessageDescriptor) (f : ℕ) (field : Option FieldAt)
    → length desc.fields ≤ 128
    → f < length desc.fields
    → FromDesc desc field
    → fills_by f field ≡ false
    → marks_by f field ≡ false
marks-fills_by desc f none few here valid h = refl
marks-fills_by desc f (some (i, field)) few here valid h =
    let there = get_elem?-lt desc.fields i field valid in
    elim (Label-cases field.label) [
      | inl e ↦ rw e (ground arith)
      | inr (inl e) ↦ rw e refl
      | inr (inr e) ↦ rw e refl
    ]

any-marks :
    (desc : MessageDescriptor) (f : ℕ) (ms : List ScannedMember)
    → length desc.fields ≤ 128
    → f < length desc.fields
    → All (λ (m : ScannedMember). FromDesc desc m.field) ms
    → any (fills f) ms ≡ false
    → any (marks f) ms ≡ false
any-marks desc f [] few here valid h = refl
any-marks desc f (m ∷ ms) few here (one, others) h =
    ground (arith, marks-fills_by desc f m.field few here one, any-marks desc f ms few here others)

module _ (answers : ℕ → ℕ) {X : Type 0} (st : Scan) where
  new_array-Ends :
      (f : ℕ) (field : FieldDescriptor) (msg : MessageOf X) (calls : ℕ)
      → Ends (new_array answers st f field msg calls) (λ msg'. Unit {0})
  new_array-Ends f field msg calls =
      let size = u64 (sizeof_elt_in_repeated_array field.type * u32 (st.counts f)) in
      Ends-bind (λ block. Unit {0}) (λ msg'. Unit {0}) _ (do_alloc answers size) calls
        (do_alloc-Ends answers size calls) λ block calls' h. tt

  allocate_array-Ends :
      (f : ℕ) (field : FieldDescriptor) (msg : MessageOf X) (calls : ℕ)
      → Ends (allocate_array answers st f field msg calls) (λ msg'. Unit {0})
  unfolding allocate_array
  allocate_array-Ends f field msg calls = elim (Bool-cases (st.counts f == 0)) [
    | inl none_to_come ↦ rw none_to_come tt
    | inr some_to_come ↦ rw some_to_come (new_array-Ends f field msg calls)
  ]

  prepare_labelled-Ends :
      (l : Label) (f : ℕ) (field : FieldDescriptor) (msg : MessageOf X) (calls : ℕ)
      → Ends (prepare_labelled answers l st f field msg calls) (λ msg'. Unit {0})
  unfolding prepare_labelled
  prepare_labelled-Ends required f field msg calls = elim (Bool-cases (is_missing st f field)) [
    | inl missing ↦ rw missing tt
    | inr there ↦ rw there tt
  ]
  prepare_labelled-Ends optional f field msg calls = tt
  prepare_labelled-Ends repeated f field msg calls = allocate_array-Ends f field msg calls

  -- The loop over the fields stops at a required field that is missing.
  prepare_fields-missing :
      (fields : List FieldDescriptor) (from k : ℕ) (field : FieldDescriptor) (msg : MessageOf X)
      (calls : ℕ)
      → get_elem? fields k ≡ some field
      → field.label ≡ required
      → is_missing st (from + k) field ≡ true
      → Ends (prepare_fields answers st from fields msg calls) (λ msg'. ⊥)
  unfolding prepare_fields prepare_field prepare_labelled
  prepare_fields-missing [] from k field msg calls e r missing = cc
  prepare_fields-missing (g ∷ fields) from zero field msg calls e r missing =
      let same : g ≡ field = cc in
      let label : g.label ≡ required = ap (λ (h : FieldDescriptor). h.label) same ∙ r in
      let here : from ≡ from + 0 = omega arith in
      let absent : is_missing st from g ≡ true =
        ap (λ (h : FieldDescriptor). is_missing st from h) same
        ∙ ap (λ (f : ℕ). is_missing st f field) here
        ∙ missing in
      rw (label, absent) tt
  prepare_fields-missing (g ∷ fields) from (suc k) field msg calls e r missing =
      Ends-bind (λ msg'. Unit {0}) (λ msg'. ⊥) _ (prepare_field answers st from g msg) calls
        (prepare_labelled-Ends g.label from g msg calls)
        λ msg' calls' h.
          prepare_fields-missing fields (from + 1) k field msg' calls' e r
            (ap (λ (f : ℕ). is_missing st f field) (omega arith) ∙ missing)

  build_message-missing :
      (unpack : MessageDescriptor → ℕ → Input → Action (ℕ × X))
      (submessage_descriptor : FieldDescriptor → MessageDescriptor) (desc : MessageDescriptor)
      (k : ℕ) (field : FieldDescriptor) (msg : MessageOf X) (calls : ℕ)
      → get_elem? desc.fields k ≡ some field
      → field.label ≡ required
      → is_missing st k field ≡ true
      → Ends (build_message answers unpack submessage_descriptor desc st msg calls) (λ msg'. ⊥)
  unfolding build_message
  build_message-missing unpack submessage_descriptor desc k field msg calls e r missing =
      Ends-bind (λ msg'. ⊥) (λ msg'. ⊥) _ (prepare_fields answers st 0 desc.fields msg) calls
        (prepare_fields-missing desc.fields 0 k field msg calls e r
          (ap (λ (f : ℕ). is_missing st f field) (omega arith) ∙ missing))
        λ msg' calls' h. absurd h

-- A required field without a default of which the scan finds no member makes
-- `protobuf_c_message_unpack` return NULL, whatever the allocator answers, if the descriptor has a
-- valid index of its fields by number, and no more than 128 fields, as many as the bitmap has bits.
pub message_unpack-missing :
    (answers : ℕ → ℕ) (generated : Generated) (d : ℕ) (desc : MessageDescriptor) (len : ℕ)
    (input : Input) (calls f : ℕ) (field : FieldDescriptor)
    → IsIndexed desc
    → length desc.fields ≤ 128
    → get_elem? desc.fields f ≡ some field
    → field.label ≡ required
    → field.default_value ≡ 0
    → ((c : ℕ)
        → Ends
            (scan_loop answers desc len len input (start desc) c)
            (λ st. any (fills f) st.members ≡ false))
    → message_unpack answers generated (suc d) desc len input calls ≡ failed
unfolding message_unpack unpack_message
message_unpack-missing answers generated d desc len input calls f field ok few e r default absent =
    Ends-failed _ (
      Ends-bind (λ rv. Unit {0}) (λ r. ⊥) _ (alloc answers) calls (alloc-Ends answers calls)
        λ rv calls1 h.
          Ends-bind (λ st. IsScan desc st × (any (fills f) st.members ≡ false)) (λ r. ⊥) _
            (scan_loop answers desc len len input (start desc)) calls1
            (EndsOr-Ends (2 ^ 32 ≤ len + 16) (IsScan desc) (λ st. any (fills f) st.members ≡ false)
              (scan_loop answers desc len len input (start desc) calls1)
              (scan_loop-EndsOr answers desc ok len input calls1) (absent calls1))
            λ st calls2 (scanned, none_found).
              let clear : any (marks f) st.members ≡ false =
                any-marks desc f st.members few (get_elem?-lt desc.fields f field e) scanned.fields
                  none_found in
              let missing : is_missing st f field ≡ true = ground (arith, scanned.bits f, clear) in
              let initial = initial_message generated d desc in
              Ends-bind (λ msg. ⊥) (λ r. ⊥) _
                (build_message answers (message_unpack answers generated d)
                  generated.submessage_descriptor desc st initial)
                calls2
                (build_message-missing answers st (message_unpack answers generated d)
                  generated.submessage_descriptor desc f field initial calls2 e r missing)
                λ msg calls3 never. never)
