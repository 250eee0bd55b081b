-- ===== src/Unpack/Inverse/Marked.antt =====
-- A required field of an encoded message has its bit in the bitmap after the scan.
use protobuf_c.Base.{
  ℕ, ◌+◌, ◌≡◌, refl, sym, ◌∙◌, arith, ◌||◌, Bool, true, List, [], ◌∷◌, ◌++◌, some, map, length,
}
use mathlib.Core.Path.{subst}
use protobuf_c.Message.{Label, required, FieldDescriptor, MessageDescriptor, MessageOf, Slot}
use protobuf_c.Unpack.Value.{ScannedMember}
use protobuf_c.Unpack.Inverse.{Piece, pieces_by, field_of, field_pieces, unknown}
use protobuf_c.Unpack.Inverse.Found.{AllCarried}
use protobuf_c.Unpack.Loop.{Scan, bitmap_is_set}
use protobuf_c.Unpack.Inverse.{pieces}
use protobuf_c.Unpack.Loop.Tally.{any, marks, marks_by}
use protobuf_c.Unpack.Loop.Invariant.{IsScan}
use protobuf_c.Unpack.Inverse.Prepared.{AllMarked}

module _ {A : Type 0} (p : A → Bool) where
  any-append : (xs ys : List A) → any p (xs ++ ys) ≡ (any p xs || any p ys)
  any-append [] ys = refl
  any-append (x ∷ xs) ys = ground (arith, any-append xs ys)

marks_self :
    (f : ℕ) (field : FieldDescriptor) → field.label ≡ required → marks_by f (some (f, field)) ≡ true
marks_self f field e = rw e (ground arith)

module _ {X : Type 0} where
  abbrev marks_piece : ℕ → Piece X → Bool
  marks_piece f p = marks_by f (field_of p)

  any-AllCarried :
      (sub : X → List ℕ) (ps : List (Piece X)) (ms : List ScannedMember) (f : ℕ)
      → AllCarried sub ps ms
      → any (marks f) ms ≡ any (marks_piece f) ps
  any-AllCarried sub [] [] f c = refl
  any-AllCarried sub [] (m ∷ ms) f c = absurd c
  any-AllCarried sub (p ∷ ps) [] f c = absurd c
  any-AllCarried sub (p ∷ ps) (m ∷ ms) f (first, others) =
      rw (first.field, any-AllCarried sub ps ms f others) refl

  by_label :
      (l : Label) (f : ℕ) (field : FieldDescriptor) (slot : Slot X)
      → field.label ≡ l
      → l ≡ required
      → any (marks_piece f) (pieces_by l f field slot) ≡ true
  by_label l f field slot e e' =
      subst (λ (l : Label). any (marks_piece f) (pieces_by l f field slot) ≡ true) (sym e')
        (ground (arith, marks_self f field (e ∙ e')))

  fields-AllMarked :
      (st : Scan) (f : ℕ) (fields : List FieldDescriptor) (slots : List (Slot X))
      → length slots ≡ length fields
      → ((g : ℕ)
          → any (marks_piece g) (field_pieces f fields slots) ≡ true
          → bitmap_is_set st.bitmap g ≡ true)
      → AllMarked st f fields
  fields-AllMarked st f [] slots long h = tt
  fields-AllMarked st f (field ∷ fields) [] long h = absurd (omega (arith, long))
  fields-AllMarked st f (field ∷ fields) (slot ∷ slots) long h = (
    λ e. h f (
        any-append (marks_piece f) (pieces_by field.label f field slot)
          (field_pieces (f + 1) fields slots)
        ∙ rw (by_label field.label f field slot refl e) refl),
    fields-AllMarked st (f + 1) fields slots (omega (arith, long)) λ g e. h g (
        any-append (marks_piece g) (pieces_by field.label f field slot)
          (field_pieces (f + 1) fields slots)
        ∙ ground (arith, e)),
  )

  pub pieces-AllMarked :
      (sub : X → List ℕ) (desc : MessageDescriptor) (msg : MessageOf X) (st : Scan)
      → IsScan desc st
      → AllCarried sub (pieces msg) st.members
      → length msg.slots ≡ length msg.descriptor.fields
      → AllMarked st 0 msg.descriptor.fields
  pieces-AllMarked sub desc msg st scan carried long =
      fields-AllMarked st 0 msg.descriptor.fields msg.slots long λ g e.
        scan.bits g
        ∙ any-AllCarried sub (pieces msg) st.members g carried
        ∙ any-append (marks_piece g) (field_pieces 0 msg.descriptor.fields msg.slots)
            (map unknown msg.unknown_fields)
        ∙ rw e refl
