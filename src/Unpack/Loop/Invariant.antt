-- ===== src/Unpack/Loop/Invariant.antt =====
-- The account that the loop of the scan keeps is true of the members, and the loop ends.
use protobuf_c.Base.{
  ℕ, ◌+◌, ◌%◌, ◌^◌, ◌<◌, ◌≤◌, ◌≡◌, refl, sym, ap, ◌∙◌, arith, u64, ◌==◌, ◌||◌, [], ◌∷◌, Option,
  none, some, inl, inr, All, length, length-append, List, ◌++◌,
}
use mathlib.Core.Path.{subst}
use protobuf_c.Message.{MessageDescriptor}
use protobuf_c.Unpack.Outcome.{Ends, EndsOr, EndsOr-bind, EndsOr-map}
use protobuf_c.Unpack.Value.{ScannedMember}
use protobuf_c.Unpack.Loop.{
  FieldAt, Bitmap, Scan, keep_member, note_field, or_fail, next_slab, add_member, count_member,
  bitmap_set, bitmap_is_set,
}
use protobuf_c.Unpack.Loop.Tally.{
  FromDesc, Countable, brings, marks_by, marks, counts_unknown, is_unknown, any, total, any_snoc,
  total_snoc, All-snoc,
}
use protobuf_c.Unpack.Loop.Steps.{
  IsSlabbed, HasRoom, next_slab-EndsOr, count_member-Ends, Label-cases,
}

-- Each field is one of the descriptor, a bit of the bitmap stands for the required fields that share
-- it, a quantifier for the elements to come, and the slabs hold the members without a gap.
pub record IsScan (desc : MessageDescriptor) (st : Scan) : Type 0 where
  pub last : FromDesc desc st.last_field
  pub fields : All (λ (m : ScannedMember). FromDesc desc m.field) st.members
  pub countable : All Countable st.members
  pub bits : (f : ℕ) → bitmap_is_set st.bitmap f ≡ any (marks f) st.members
  pub counted : (f : ℕ) → st.counts f ≡ u64 (total (brings f) st.members)
  pub unknown : st.n_unknown ≡ total is_unknown st.members
  pub slabs : IsSlabbed (length st.members) st.which_slab st.in_slab_index

-- The state after a round, with the number of its slab, the index there and the quantifiers.
abbrev pub grown : Option FieldAt → ScannedMember → ℕ → ℕ → (ℕ → ℕ) → Scan → Scan
grown field m w k c st =
    record (add_member m (record (note_field field st) { which_slab = w; in_slab_index = k })) {
      counts = c;
    }

bit-eq :
    (bitmap : Bitmap) (f i : ℕ)
    → bitmap_is_set (bitmap_set bitmap i) f ≡ ((f % 128 == i % 128) || bitmap_is_set bitmap f)
bit-eq bitmap f i = ground arith

note_field-bits :
    (field : Option FieldAt) (st : Scan) (f : ℕ)
    → bitmap_is_set (note_field field st).bitmap f ≡ (marks_by f field || bitmap_is_set st.bitmap f)
unfolding note_field
note_field-bits none st f = refl
note_field-bits (some (i, field)) st f = elim (Label-cases field.label) [
  | inl e ↦ rw e (bit-eq st.bitmap f i)
  | inr (inl e) ↦ rw e refl
  | inr (inr e) ↦ rw e refl
]

note_field-unknown :
    (field : Option FieldAt) (st : Scan)
    → (note_field field st).n_unknown ≡ st.n_unknown + counts_unknown field
unfolding note_field
note_field-unknown none st = refl
note_field-unknown (some at) st = omega arith

pub note_field-same :
    (field : Option FieldAt) (st : Scan)
    → ((note_field field st).members ≡ st.members)
      × ((note_field field st).counts ≡ st.counts)
      × ((note_field field st).which_slab ≡ st.which_slab)
      × ((note_field field st).in_slab_index ≡ st.in_slab_index)
unfolding note_field
note_field-same none st = (refl, refl, refl, refl)
note_field-same (some at) st = (refl, refl, refl, refl)

note_field-last :
    (desc : MessageDescriptor) (field : Option FieldAt) (st : Scan)
    → FromDesc desc field
    → FromDesc desc st.last_field
    → FromDesc desc (note_field field st).last_field
unfolding note_field
note_field-last desc none st h last = last
note_field-last desc (some at) st h last = h

pub or_fail-Ends :
    {A : Type 0} (o : Option A) (calls : ℕ) → Ends (or_fail o calls) (λ a. o ≡ some a)
or_fail-Ends none calls = tt
or_fail-Ends (some a) calls = refl

module _ (desc : MessageDescriptor) (m : ScannedMember) (st : Scan) (valid : FromDesc desc m.field)
    (ok : IsScan desc st) where
  -- The account is true again, and has one member more.
  abbrev pub Kept : Scan → Type 0
  Kept st' = IsScan desc st' × (length st'.members ≡ length st.members + 1)

  grown-IsScan :
      (w k : ℕ) (c : ℕ → ℕ)
      → IsSlabbed (length st.members + 1) w (k + 1)
      → ((f : ℕ) → c f ≡ u64 (st.counts f + brings f m))
      → Countable m
      → IsScan desc (grown m.field m w k c st)
  grown-IsScan w k c room counts countable =
      let (same, _, _, _) = note_field-same m.field st in
      record {
        last = note_field-last desc m.field st valid ok.last;
        fields = rw same (All-snoc (λ m'. FromDesc desc m'.field) st.members m ok.fields valid);
        countable = rw same (All-snoc Countable st.members m ok.countable countable);
        bits = λ f.
            rw (same, any_snoc (marks f) st.members m)
              (note_field-bits m.field st f ∙ ap (λ b. marks f m || b) (ok.bits f));
        counted = λ f.
            rw same (omega (arith, counts f, ok.counted f, total_snoc (brings f) st.members m));
        unknown = rw same (
            omega (
              arith,
              note_field-unknown m.field st,
              ok.unknown,
              total_snoc is_unknown st.members m,
            ));
        slabs = rw (same, length-append st.members (m ∷ [])) room;
      }

  pub keep_member-IsScan :
      (E : Type 0) (answers : ℕ → ℕ) (calls : ℕ)
      → (2 ^ 32 ≤ length st.members + 16 → E)
      → EndsOr E (keep_member answers m st calls) Kept
  unfolding keep_member
  keep_member-IsScan E answers calls overlong =
      let (same, counts, slab, index) = note_field-same m.field st in
      EndsOr-bind E (HasRoom (length st.members) (note_field m.field st)) Kept _
        (next_slab answers (note_field m.field st)) calls
        (next_slab-EndsOr answers E (length st.members) (note_field m.field st) calls
          (rw (slab, index) ok.slabs) overlong)
        λ st' calls' (w, k, e, room).
          let fits : (f : ℕ) → (add_member m st').counts f < 2 ^ 64 =
            λ f. rw (e, counts) (omega (arith, ok.counted f)) in
          EndsOr-map ⊥ E _ Kept (count_member m.field m (add_member m st') calls')
            (count_member-Ends m.field m (add_member m st') calls' fits) (λ e. absurd e)
            λ st'' (c, whole, sums, countable).
              let grows : st'' ≡ grown m.field m w k c st =
                whole ∙ ap (λ (s : Scan). record (add_member m s) { counts = c }) e in
              (
                subst (IsScan desc) (sym grows) (
                    grown-IsScan w k c room
                      (λ f.
                        sums f
                        ∙ ap (λ (g : ℕ → ℕ). u64 (g f + brings f m))
                            (ap (λ (s : Scan). s.counts) e ∙ counts))
                      countable),
                ap (λ (s : Scan). length s.members) grows
                    ∙ ap (λ (ms : List ScannedMember). length (ms ++ m ∷ [])) same
                    ∙ length-append st.members (m ∷ []),
              )
