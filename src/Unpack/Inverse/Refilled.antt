-- ===== src/Unpack/Inverse/Refilled.antt =====
-- The members that carry the pieces of a message restore its slots and its unknown fields.
use protobuf_c.Base.{
  ℕ, ◌+◌, ◌≡◌, ◌≢◌, refl, sym, ap, ◌∙◌, arith, List, [], ◌∷◌, ◌++◌, some, get_elem?, set,
  set-append, get_elem?-append, append_assoc, length, length-append,
}
use mathlib.Core.Path.{subst}
use protobuf_c.Memory.Input.{Input, HoldsAt}
use protobuf_c.Message.{FieldDescriptor, MessageDescriptor, MessageOf, Slot}
use protobuf_c.Unpack.Outcome.{
  Outcome, returned, failed, out_of_bounds, out_of_fuel, Action, ◌>>=◌, Gives, Gives-bind,
  Gives-map,
}
use protobuf_c.Unpack.Value.{ScannedMember}
use protobuf_c.Unpack.Fields.{parse_member, parse_members}
use protobuf_c.Unpack.Inverse.{Piece, pieces_by, field_pieces}
use protobuf_c.Unpack.Inverse.Found.{AllCarried}
use protobuf_c.Unpack.Inverse.Restored.{labelled-Restores}
use protobuf_c.Unpack.Inverse.Slots.{RestoredSlot, IsNew, IsCarriableSlot, Puts}

pub carried-split :
    {X : Type 0} (sub : X → List ℕ) (ps qs : List (Piece X)) (ms : List ScannedMember)
    → AllCarried sub (ps ++ qs) ms
    → (ms1 : List ScannedMember) × (ms2 : List ScannedMember) × (ms ≡ ms1 ++ ms2)
      × AllCarried sub ps ms1
      × AllCarried sub qs ms2
carried-split sub [] qs ms h = ([], ms, refl, tt, h)
carried-split sub (p ∷ ps) qs [] h = absurd h
carried-split sub (p ∷ ps) qs (m ∷ ms) (c, h) =
    let (ms1, ms2, e, left, right) = carried-split sub ps qs ms h in
    (m ∷ ms1, ms2, ap (λ (ms : List ScannedMember). m ∷ ms) e, (c, left), right)

-- The slots of the message `slots`, and those that it is restored to, field by field.
abbrev pub RestoredAll :
    {X : Type 0} → (X → X → Type 0) → List FieldDescriptor → List (Slot X) → List (Slot X) → Type 0
RestoredAll R [] [] [] = Unit {0}
RestoredAll R (field ∷ fields) (slot ∷ slots) (s ∷ ss) =
    RestoredSlot R field.label field slot s × RestoredAll R fields slots ss
RestoredAll R _ _ _ = ⊥

-- Slots that the wire can carry, and those of a new message.
abbrev pub IsReady :
    {X : Type 0}
    → (X → List ℕ)
    → (FieldDescriptor → X → Type 0)
    → List FieldDescriptor
    → List (Slot X)
    → List (Slot X)
    → Type 0
IsReady sub P [] [] [] = Unit {0}
IsReady sub P (field ∷ fields) (slot ∷ slots) (s ∷ ss) =
    IsCarriableSlot sub P field.label field slot
    × IsNew field.label field s
    × IsReady sub P fields slots ss
IsReady sub P _ _ _ = ⊥

module _ (answers : ℕ → ℕ) (answered : (k : ℕ) → answers k ≢ 0) {X : Type 0}
    (unpack : MessageDescriptor → ℕ → Input → Action (ℕ × X))
    (submessage_descriptor : FieldDescriptor → MessageDescriptor) (sub : X → List ℕ)
    (P : FieldDescriptor → X → Type 0) (R : X → X → Type 0)
    (reads : (field : FieldDescriptor) (x : X) (input : Input) (calls : ℕ)
      → P field x
      → HoldsAt input 0 (sub x)
      → Gives
          (unpack (submessage_descriptor field) (length (sub x)) input calls)
          (λ r. R x r.1)) where
  bound-append :
      (o : Outcome (MessageOf X)) (ms1 ms2 : List ScannedMember)
      → ((msg : MessageOf X) (calls : ℕ)
          → parse_members answers unpack submessage_descriptor (ms1 ++ ms2) msg calls
            ≡ (parse_members answers unpack submessage_descriptor ms1 msg
                  >>= parse_members answers unpack submessage_descriptor ms2)
                calls)
      → ((λ (c : ℕ). o) >>= parse_members answers unpack submessage_descriptor (ms1 ++ ms2)) 0
        ≡ (((λ (c : ℕ). o) >>= parse_members answers unpack submessage_descriptor ms1)
              >>= parse_members answers unpack submessage_descriptor ms2)
            0
  bound-append (returned msg c) ms1 ms2 later = later msg c
  bound-append failed ms1 ms2 later = refl
  bound-append out_of_bounds ms1 ms2 later = refl
  bound-append out_of_fuel ms1 ms2 later = refl

  parse_members-append :
      (ms1 ms2 : List ScannedMember) (msg : MessageOf X) (calls : ℕ)
      → parse_members answers unpack submessage_descriptor (ms1 ++ ms2) msg calls
        ≡ (parse_members answers unpack submessage_descriptor ms1 msg
              >>= parse_members answers unpack submessage_descriptor ms2)
            calls
  unfolding parse_members
  parse_members-append [] ms2 msg calls = refl
  parse_members-append (m ∷ ms1) ms2 msg calls =
      bound-append (parse_member answers unpack submessage_descriptor m msg calls) ms1 ms2
        (parse_members-append ms1 ms2)

  pub append-Gives :
      (ms1 ms2 : List ScannedMember) (msg : MessageOf X) (calls : ℕ) (A B : MessageOf X → Type 0)
      → Gives (parse_members answers unpack submessage_descriptor ms1 msg calls) A
      → ((msg' : MessageOf X) (c : ℕ)
          → A msg'
          → Gives (parse_members answers unpack submessage_descriptor ms2 msg' c) B)
      → Gives (parse_members answers unpack submessage_descriptor (ms1 ++ ms2) msg calls) B
  append-Gives ms1 ms2 msg calls A B h k =
      subst (λ (o : Outcome (MessageOf X)). Gives o B)
        (sym (parse_members-append ms1 ms2 msg calls))
        (Gives-bind A B (parse_members answers unpack submessage_descriptor ms2)
          (parse_members answers unpack submessage_descriptor ms1 msg) calls h k)

  pub fields-Restore :
      (fields : List FieldDescriptor) (slots news done : List (Slot X)) (i : ℕ)
      (ms : List ScannedMember) (msg : MessageOf X) (calls : ℕ)
      → i ≡ length done
      → msg.slots ≡ done ++ news
      → IsReady sub P fields slots news
      → AllCarried sub (field_pieces i fields slots) ms
      → Gives (parse_members answers unpack submessage_descriptor ms msg calls) (λ msg'.
        (ss : List (Slot X)) × (msg' ≡ record msg { slots = done ++ ss })
        × RestoredAll R fields slots ss)
  unfolding parse_members
  fields-Restore [] [] [] done i [] msg calls e there ready carried =
      ([], ap (λ (slots : List (Slot X)). record msg { slots = slots }) there, tt)
  fields-Restore [] [] [] done i (m ∷ ms) msg calls e there ready carried = absurd carried
  fields-Restore (field ∷ fields) (slot ∷ slots) (s ∷ ss) done i ms msg calls e there
        (ok, new, ready) carried =
      let (ms1, ms2, split, left, right) =
        carried-split sub (pieces_by field.label i field slot) (field_pieces (i + 1) fields slots)
          ms carried in
      let Goal : MessageOf X → Type 0 = λ msg'.
        (ss : List (Slot X)) × (msg' ≡ record msg { slots = done ++ ss })
        × RestoredAll R (field ∷ fields) (slot ∷ slots) ss in
      let own : get_elem? msg.slots i ≡ some s =
        ap (λ (xs : List (Slot X)). get_elem? xs i) there
        ∙ ap (get_elem? (done ++ s ∷ ss)) e
        ∙ get_elem?-append done ss s in
      subst
        (λ (ms : List ScannedMember).
          Gives (parse_members answers unpack submessage_descriptor ms msg calls) Goal)
        (sym split)
        (append-Gives ms1 ms2 msg calls
          (Puts answers answered unpack submessage_descriptor sub P R reads i field
            (RestoredSlot R field.label field slot) msg)
          Goal
          (labelled-Restores answers answered unpack submessage_descriptor sub P R reads field.label
            i field slot ms1 msg s calls refl left ok new own)
          λ msg' c (t, changed, restored).
            let whole : (xs : List (Slot X)) → (done ++ t ∷ []) ++ xs ≡ done ++ t ∷ xs =
              λ xs. append_assoc done (t ∷ []) xs in
            Gives-map _ Goal (parse_members answers unpack submessage_descriptor ms2 msg' c)
              (fields-Restore fields slots ss (done ++ t ∷ []) (i + 1) ms2 msg' c
                (omega (arith, e, length-append done (t ∷ [])))
                (ap (λ (m : MessageOf X). m.slots) changed
                  ∙ refilled s t ss there e
                  ∙ sym (whole ss))
                ready right)
              λ msg'' (xs, e', rest). (
                t ∷ xs,
                e'
                    ∙ ap (λ (m : MessageOf X). record m { slots = (done ++ t ∷ []) ++ xs }) changed
                    ∙ ap (λ (slots : List (Slot X)). record msg { slots = slots }) (whole xs),
                (restored, rest),
              ))
    where
      refilled :
          (s t : Slot X) (ss : List (Slot X))
          → msg.slots ≡ done ++ s ∷ ss
          → i ≡ length done
          → set msg.slots i t ≡ done ++ t ∷ ss
      refilled s t ss there e =
          ap (λ (xs : List (Slot X)). set xs i t) there
          ∙ ap (λ (i : ℕ). set (done ++ s ∷ ss) i t) e
          ∙ set-append done ss s t
  fields-Restore _ _ _ done i ms msg calls e there ready carried = absurd ready
