-- ===== src/Unpack/Inverse/Prepared.antt =====
-- The arrays and the check of the required fields, when every required field was found.
use protobuf_c.Base.{
  ℕ, ◌+◌, ◌≡◌, ◌≢◌, refl, sym, ap, ◌∙◌, arith, u64, ◌==◌, true, false, List, [], ◌∷◌, ◌++◌, some,
  Bool-cases, inl, inr, get_elem?, get_elem?-append, set_same, append_assoc, length, length-append,
}
use protobuf_c.Message.{
  Label, required, optional, repeated, FieldDescriptor, MessageOf, Slot, array,
}
use protobuf_c.Unpack.Outcome.{do_alloc, do_alloc-Gives, Gives, Gives-bind, Gives-map}
use protobuf_c.Unpack.Loop.{Scan, bitmap_is_set}
use protobuf_c.Unpack.Whole.{
  prepare_fields, prepare_field, prepare_labelled, allocate_array, new_array, is_missing,
}
use protobuf_c.Unpack.Inverse.Refilled.{IsReady}
use protobuf_c.Unpack.Inverse.Slots.{IsNew}

-- Every required field has its bit in the bitmap.
abbrev pub AllMarked : Scan → ℕ → List FieldDescriptor → Type 0
AllMarked st f [] = Unit {0}
AllMarked st f (field ∷ fields) =
    (field.label ≡ required → bitmap_is_set st.bitmap f ≡ true) × AllMarked st (f + 1) fields

module _ (answers : ℕ → ℕ) (answered : (k : ℕ) → answers k ≢ 0) {X : Type 0} where
  new_array-Gives :
      (st : Scan) (f : ℕ) (field : FieldDescriptor) (msg : MessageOf X) (calls : ℕ)
      → get_elem? msg.slots f ≡ some (array [])
      → Gives (new_array answers st f field msg calls) (λ msg'. msg' ≡ msg)
  new_array-Gives st f field msg calls there =
      Gives-bind (λ p. u64 _ ≢ 0 → p ≢ 0) (λ msg'. msg' ≡ msg) _ (do_alloc answers (u64 _)) calls
        (do_alloc-Gives answers answered (u64 _) calls)
        λ block calls' h.
          ap (λ (slots : List (Slot X)). record msg { slots = slots })
            (set_same msg.slots f (array []) there)

  labelled-Gives :
      (l : Label) (st : Scan) (f : ℕ) (field : FieldDescriptor) (s : Slot X) (msg : MessageOf X)
      (calls : ℕ)
      → (l ≡ required → bitmap_is_set st.bitmap f ≡ true)
      → IsNew l field s
      → get_elem? msg.slots f ≡ some s
      → Gives (prepare_labelled answers l st f field msg calls) (λ msg'. msg' ≡ msg)
  unfolding prepare_labelled allocate_array
  labelled-Gives required st f field s msg calls marked new there =
      let found : is_missing st f field ≡ false = ground (arith, marked refl) in rw found refl
  labelled-Gives optional st f field s msg calls marked new there = refl
  labelled-Gives repeated st f field s msg calls marked new there =
      elim (Bool-cases (st.counts f == 0)) [
        | inl none_left ↦ rw none_left refl
        | inr some_left ↦
            rw some_left
              (new_array-Gives st f field msg calls (there ∙ ap (λ (s : Slot X). some s) new))
      ]

  own :
      (done news : List (Slot X)) (s : Slot X) (f : ℕ) (msg : MessageOf X)
      → msg.slots ≡ done ++ s ∷ news
      → f ≡ length done
      → get_elem? msg.slots f ≡ some s
  own done news s f msg there e =
      ap (λ (xs : List (Slot X)). get_elem? xs f) there
      ∙ ap (get_elem? (done ++ s ∷ news)) e
      ∙ get_elem?-append done news s

  pub prepare_fields-Gives :
      (sub : X → List ℕ) (P : FieldDescriptor → X → Type 0) (st : Scan)
      (fields : List FieldDescriptor) (slots news done : List (Slot X)) (f : ℕ) (msg : MessageOf X)
      (calls : ℕ)
      → f ≡ length done
      → msg.slots ≡ done ++ news
      → IsReady sub P fields slots news
      → AllMarked st f fields
      → Gives (prepare_fields answers st f fields msg calls) (λ msg'. msg' ≡ msg)
  unfolding prepare_fields prepare_field
  prepare_fields-Gives sub P st [] slots news done f msg calls e there ready marked = refl
  prepare_fields-Gives sub P st (field ∷ fields) (slot ∷ slots) (s ∷ news) done f msg calls e there
        (_, new, ready) (here, marked) =
      Gives-bind (λ msg'. msg' ≡ msg) (λ msg'. msg' ≡ msg) _
        (prepare_labelled answers field.label st f field msg) calls
        (labelled-Gives field.label st f field s msg calls here new (own done news s f msg there e))
        λ msg' calls' same.
          Gives-map (λ msg''. msg'' ≡ msg') (λ msg''. msg'' ≡ msg)
            (prepare_fields answers st (f + 1) fields msg' calls')
            (prepare_fields-Gives sub P st fields slots news (done ++ s ∷ []) (f + 1) msg' calls'
              (omega (arith, e, length-append done (s ∷ [])))
              (ap (λ (m : MessageOf X). m.slots) same
                ∙ there
                ∙ sym (append_assoc done (s ∷ []) news))
              ready marked)
            λ msg'' same'. same' ∙ same
  prepare_fields-Gives sub P st (field ∷ fields) _ _ done f msg calls e there ready marked =
      absurd ready
