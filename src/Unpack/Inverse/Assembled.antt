-- ===== src/Unpack/Inverse/Assembled.antt =====
-- Unpacking the encoding of a message restores the message, once its pieces can be scanned.
use protobuf_c.Base.{
  ℕ, suc, ◌*◌, ◌≤◌, ◌≡◌, ◌≢◌, refl, sym, ap, ◌∙◌, arith, u64, List, [], ◌∷◌, ◌++◌, map, All, length,
}
use mathlib.Core.Path.{subst}
use protobuf_c.Memory.Input.{Input, HoldsAt}
use protobuf_c.Message.{FieldDescriptor, MessageDescriptor, MessageOf, Slot, UnknownField}
use protobuf_c.Unpack.Outcome.{do_alloc, do_alloc-Gives, Action, Gives, Gives-bind, Gives-map}
use protobuf_c.Unpack.Value.{ScannedMember}
use protobuf_c.Unpack.Fields.{parse_members}
use protobuf_c.Unpack.Inverse.{field_pieces, unknown}
use protobuf_c.Unpack.Inverse.Found.{AllCarried}
use protobuf_c.Unpack.Loop.{Scan, start, scan_loop}
use protobuf_c.Unpack.Whole.{prepare_fields, build_message, unpack_message, sizeof_unknown_field}
use protobuf_c.Unpack.Inverse.Refilled.{
  IsReady, RestoredAll, carried-split, append-Gives, fields-Restore,
}
use protobuf_c.Unpack.Inverse.{pieces, pieces-bytes}
use protobuf_c.Unpack.Loop.Invariant.{IsScan}
use protobuf_c.Unpack.Inverse.Prepared.{prepare_fields-Gives}
use protobuf_c.Message.Encode.{encode_body}
use protobuf_c.Unpack.Outcome.{alloc, alloc-Gives}
use protobuf_c.Unpack.Loop.Steps.{IsIndexed}
use protobuf_c.Unpack.Loop.Rounds.{start-IsScan}
use protobuf_c.Unpack.Inverse.Scanned.{Scannable, max_members}
use protobuf_c.Unpack.Inverse.Found.{scan_loop-Gives, Holds}
use protobuf_c.Unpack.Inverse.Unknown.{unknown_fields-Restore}
use protobuf_c.Unpack.Inverse.Marked.{pieces-AllMarked}

-- What unpacking an encoding gives back: the slots as they are restored, and the unknown fields.
pub record Rebuilt {X : Type 0} (R : X → X → Type 0) (msg msg' : MessageOf X) : Type 0 where
  pub descriptor : msg'.descriptor ≡ msg.descriptor
  pub slots : RestoredAll R msg.descriptor.fields msg.slots msg'.slots
  pub unknown_fields : msg'.unknown_fields ≡ msg.unknown_fields

module _ (answers : ℕ → ℕ) (answered : (k : ℕ) → answers k ≢ 0) {X : Type 0}
    (unpack : MessageDescriptor → ℕ → Input → Action (ℕ × X))
    (submessage_descriptor : FieldDescriptor → MessageDescriptor) (sub : X → List ℕ)
    (P : FieldDescriptor → X → Type 0) (R : X → X → Type 0)
    (reads : (field : FieldDescriptor) (x : X) (input : Input) (calls : ℕ)
      → P field x
      → HoldsAt input 0 (sub x)
      → Gives
          (unpack (submessage_descriptor field) (length (sub x)) input calls)
          (λ r. R x r.1)) where
  ready-length :
      (fields : List FieldDescriptor) (slots news : List (Slot X))
      → IsReady sub P fields slots news
      → length slots ≡ length fields
  ready-length [] [] [] ready = refl
  ready-length (field ∷ fields) (slot ∷ slots) (s ∷ news) (_, _, ready) =
      ap suc (ready-length fields slots news ready)
  ready-length _ _ _ ready = absurd ready

  -- The initial message of the descriptor.
  abbrev pub IsInitial : MessageOf X → MessageOf X → Type 0
  IsInitial msg initial =
      (initial.descriptor ≡ msg.descriptor)
      × (initial.unknown_fields ≡ [])
      × IsReady sub P msg.descriptor.fields msg.slots initial.slots

  parse_members-pieces :
      (msg initial : MessageOf X) (ms : List ScannedMember) (calls : ℕ)
      → IsInitial msg initial
      → AllCarried sub (pieces msg) ms
      → Gives (parse_members answers unpack submessage_descriptor ms initial calls) (Rebuilt R msg)
  parse_members-pieces msg initial ms calls (desc, none_yet, ready) carried =
      let fields : List FieldDescriptor = msg.descriptor.fields in
      let (ms1, ms2, split, left, right) =
        carried-split sub (field_pieces 0 fields msg.slots) (map unknown msg.unknown_fields) ms
          carried in
      let Filled : MessageOf X → Type 0 = λ msg'.
        (ss : List (Slot X)) × (msg' ≡ record initial { slots = ss })
        × RestoredAll R fields msg.slots ss in
      subst
        (λ ms.
          Gives (parse_members answers unpack submessage_descriptor ms initial calls)
            (Rebuilt R msg))
        (sym split)
        (append-Gives answers answered unpack submessage_descriptor sub P R reads ms1 ms2 initial
          calls Filled (Rebuilt R msg)
          (fields-Restore answers answered unpack submessage_descriptor sub P R reads fields
            msg.slots initial.slots [] 0 ms1 initial calls refl refl ready left)
          λ msg' c (ss, e, restored).
            Gives-map _ (Rebuilt R msg)
              (parse_members answers unpack submessage_descriptor ms2 msg' c)
              (unknown_fields-Restore answers answered unpack submessage_descriptor sub
                msg.unknown_fields ms2 msg' c right)
              λ msg'' e'. record {
                descriptor =
                    ap (λ (m : MessageOf X). m.descriptor) e'
                    ∙ ap (λ (m : MessageOf X). m.descriptor) e
                    ∙ desc;
                slots =
                    subst (RestoredAll R fields msg.slots)
                      (sym (
                        ap (λ (m : MessageOf X). m.slots) e' ∙ ap (λ (m : MessageOf X). m.slots) e))
                      restored;
                unknown_fields =
                    ap (λ (m : MessageOf X). m.unknown_fields) e'
                    ∙ ap (λ (m : MessageOf X). m.unknown_fields ++ msg.unknown_fields) e
                    ∙ ap (λ (us : List UnknownField). us ++ msg.unknown_fields) none_yet;
              })

  build_message-pieces :
      (msg initial : MessageOf X) (st : Scan) (calls : ℕ)
      → IsInitial msg initial
      → IsScan msg.descriptor st
      → AllCarried sub (pieces msg) st.members
      → Gives
          (build_message answers unpack submessage_descriptor msg.descriptor st initial calls)
          (Rebuilt R msg)
  unfolding build_message
  build_message-pieces msg initial st calls (desc, none_yet, ready) scan carried =
      let marked =
        pieces-AllMarked sub msg.descriptor msg st scan carried
          (ready-length msg.descriptor.fields msg.slots initial.slots ready) in
      Gives-bind (λ msg'. msg' ≡ initial) (Rebuilt R msg) _
        (prepare_fields answers st 0 msg.descriptor.fields initial) calls
        (prepare_fields-Gives answers answered sub P st msg.descriptor.fields msg.slots
          initial.slots [] 0 initial calls refl refl ready marked)
        λ msg' calls1 e.
          Gives-bind (λ p. u64 (st.n_unknown * sizeof_unknown_field) ≢ 0 → p ≢ 0) (Rebuilt R msg) _
            (do_alloc answers (u64 (st.n_unknown * sizeof_unknown_field))) calls1
            (do_alloc-Gives answers answered (u64 (st.n_unknown * sizeof_unknown_field)) calls1)
            λ block calls2 h.
              subst
                (λ msg'.
                  Gives (parse_members answers unpack submessage_descriptor st.members msg' calls2)
                    (Rebuilt R msg))
                (sym e)
                (parse_members-pieces msg initial st.members calls2 (desc, none_yet, ready) carried)

  pub unpack_message-encode :
      (initial : MessageDescriptor → MessageOf X) (msg : MessageOf X) (input : Input) (calls : ℕ)
      → IsIndexed msg.descriptor
      → IsInitial msg (initial msg.descriptor)
      → All (Scannable sub msg.descriptor) (pieces msg)
      → length (pieces msg) ≤ max_members
      → HoldsAt input 0 (encode_body sub msg)
      → Gives
          (unpack_message answers unpack submessage_descriptor initial msg.descriptor
            (length (encode_body sub msg))
            input
            calls)
          (λ r. Rebuilt R msg r.1)
  unfolding unpack_message
  unpack_message-encode initial msg input calls indexed new ok few holds =
      let len : ℕ = length (encode_body sub msg) in
      let same = pieces-bytes sub msg in
      Gives-bind (λ rv. rv ≢ 0) (λ r. Rebuilt R msg r.1) _ (alloc answers) calls
        (alloc-Gives answers answered calls)
        λ rv calls1 _.
          Gives-bind (Holds sub answers answered msg.descriptor (pieces msg) (start msg.descriptor))
            (λ r. Rebuilt R msg r.1) _
            (scan_loop answers msg.descriptor len len input (start msg.descriptor)) calls1
            (scan_loop-Gives sub answers answered msg.descriptor (pieces msg) len len input
              (start msg.descriptor) calls1 indexed (ap length (sym same)) (omega arith) ok
              (start-IsScan answers msg.descriptor indexed) (omega (arith, few))
              (subst (HoldsAt input 0) (sym same) holds))
            λ st calls2 (scan, ms, e, carried).
              Gives-bind (Rebuilt R msg) (λ r. Rebuilt R msg r.1) _
                (build_message answers unpack submessage_descriptor msg.descriptor st
                  (initial msg.descriptor))
                calls2
                (build_message-pieces msg (initial msg.descriptor) st calls2 new scan
                  (subst (AllCarried sub (pieces msg)) (sym e) carried))
                λ msg' calls3 h. h
