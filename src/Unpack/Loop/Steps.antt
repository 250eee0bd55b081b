-- ===== src/Unpack/Loop/Steps.antt =====
-- What each step of a round does to the account of the members.
use protobuf_c.Base.{
  ℕ, suc, ◌+◌, ◌*◌, ◌^◌, ◌≤◌, ◌<◌, ◌-◌, ◌≡◌, ◌≢◌, ◌⊎◌, refl, ap, ◌∙◌, arith, u64, IsU32, ◌==◌, ltb,
  if◌then◌else◌, Option, none, some, Bool-cases, inl, inr, get_elem?, is_negative32, Option-cases,
}
use native.Mathlib.Nat.{pow-suc, pow-le-pow_right}
use protobuf_c.Message.{Label, required, optional, repeated, FieldDescriptor, MessageDescriptor}
use protobuf_c.Lookup.{Run, done, bias, int_range_lookup}
use protobuf_c.Lookup
use protobuf_c.Lookup.Search.{Returns}
use protobuf_c.Lookup.Ranges.{first, Locates, int_range_lookup-Locates}
use protobuf_c.Lookup.Numbers.{IsNumberIndex}
use protobuf_c.Unpack.Outcome.{alloc, alloc-Ends, EndsOr, Ends, Ends-bind, Ends-map, Ends-EndsOr}
use protobuf_c.Unpack.Value.{ScannedMember}
use protobuf_c.Unpack.Loop.{
  FieldAt, Scan, as_field, field_at, lookup_field, find_field, next_slab, slab_of, new_slab,
  max_slab, count_member, count_elements, count_repeated, bump,
}
use protobuf_c.Unpack.Loop.Tally.{FromDesc, CountableBy, brings_to, value_or_zero}

abbrev pub IsIndexed : MessageDescriptor → Type 0
IsIndexed desc = IsNumberIndex (λ f. f.id) desc.fields desc.n_field_ranges desc.field_ranges

module _ (desc : MessageDescriptor) (ok : IsIndexed desc) (tag : ℕ) (fits : IsU32 tag) where
  field_at-Ends :
      (k : ℕ) (field : FieldDescriptor) (calls : ℕ)
      → get_elem? desc.fields k ≡ some field
      → Ends (field_at desc k calls) (FromDesc desc)
  field_at-Ends k field calls e = rw (e, field_at) e

  as_field-Ends :
      (r : Run (Option ℕ)) (calls : ℕ)
      → Returns r (Locates desc.n_field_ranges desc.field_ranges tag)
      → Ends (as_field desc r calls) (FromDesc desc)
  as_field-Ends (done none) calls h = tt
  as_field-Ends (done (some k)) calls (i, hi, (above, below), e) =
      let ranges = desc.field_ranges in
      let (field, found, same) = ok.listed i (bias tag - first ranges i) hi (omega arith) in
      elim (Bool-cases (is_negative32 k)) [
        | inl negative ↦ rw negative tt
        | inr index ↦ rw index (field_at-Ends k field calls (ap (get_elem? desc.fields) e ∙ found))
      ]
  as_field-Ends Lookup.out_of_bounds calls h = h
  as_field-Ends Lookup.out_of_fuel calls h = h

  lookup_field-Ends : (calls : ℕ) → Ends (lookup_field desc tag calls) (FromDesc desc)
  unfolding lookup_field
  lookup_field-Ends calls =
      as_field-Ends _ calls
        (int_range_lookup-Locates desc.n_field_ranges desc.field_ranges tag ok.valid fits)

  pub find_field-Ends :
      (last : Option FieldAt) (calls : ℕ)
      → FromDesc desc last
      → Ends (find_field desc last tag calls) (FromDesc desc)
  unfolding find_field
  find_field-Ends none calls h = lookup_field-Ends calls
  find_field-Ends (some (i, field)) calls h = elim (Bool-cases (field.id == tag)) [
    | inl same ↦ rw same h
    | inr other ↦ rw other (lookup_field-Ends calls)
  ]

-- The slabs before the last one are full, and the last one is not fuller than it may be.
pub record IsSlabbed (members which_slab in_slab_index : ℕ) : Type 0 where
  pub slab_le : which_slab ≤ max_slab
  pub index_le : in_slab_index ≤ 2 ^ (which_slab + 4)
  pub filled : members + 16 ≡ 2 ^ (which_slab + 4) + in_slab_index

-- After the step there is room for a member.
abbrev pub HasRoom : ℕ → Scan → Scan → Type 0
HasRoom members st st' =
    (w : ℕ) × (k : ℕ) × (st' ≡ record st { which_slab = w; in_slab_index = k })
    × IsSlabbed (members + 1) w (k + 1)

module _ (answers : ℕ → ℕ) where
  new_slab-Ends :
      (members : ℕ) (st : Scan) (calls : ℕ)
      → IsSlabbed members st.which_slab st.in_slab_index
      → st.in_slab_index ≡ 2 ^ (st.which_slab + 4)
      → st.which_slab ≢ max_slab
      → Ends (new_slab answers st calls) (HasRoom members st)
  new_slab-Ends members st calls h full more =
      Ends-bind (λ slab. Unit {0}) (HasRoom members st) _ (alloc answers) calls
        (alloc-Ends answers calls) (λ slab calls' _. (st.which_slab + 1, 0, refl, grown))
    where
      grown : IsSlabbed (members + 1) (st.which_slab + 1) (0 + 1)
      grown =
          let same : st.which_slab + 1 + 4 ≡ suc (st.which_slab + 4) = omega arith in
          let double : 2 ^ (st.which_slab + 1 + 4) ≡ 2 * 2 ^ (st.which_slab + 4) =
            rw same (omega (arith, pow-suc 2 (st.which_slab + 4))) in
          omega (arith, double)

  slab_of-Ends :
      (members : ℕ) (st : Scan) (calls : ℕ)
      → IsSlabbed members st.which_slab st.in_slab_index
      → Ends (slab_of answers st (2 ^ (st.which_slab + 4)) calls) (HasRoom members st)
  slab_of-Ends members st calls h =
      elim (Bool-cases (st.in_slab_index == 2 ^ (st.which_slab + 4))) [
        | inl full ↦ elim (Bool-cases (st.which_slab == max_slab)) [
          | inl last ↦ rw (full, last) tt
          | inr more ↦
              rw (full, more) (new_slab-Ends members st calls h (ground arith) (ground arith))
        ]
        | inr room ↦ rw room (st.which_slab, st.in_slab_index, refl, ground arith)
      ]

  -- A slab whose size is shifted out of an `unsigned` is reached by 2 ^ 32 - 16 members at least.
  pub next_slab-EndsOr :
      (E : Type 0) (members : ℕ) (st : Scan) (calls : ℕ)
      → IsSlabbed members st.which_slab st.in_slab_index
      → (2 ^ 32 ≤ members + 16 → E)
      → EndsOr E (next_slab answers st calls) (HasRoom members st)
  unfolding next_slab
  next_slab-EndsOr E members st calls h overlong = elim (Bool-cases (ltb (st.which_slab + 4) 32)) [
    | inl fits ↦ rw fits (Ends-EndsOr E (HasRoom members st) _ (slab_of-Ends members st calls h))
    | inr wide ↦
        let large : 2 ^ 32 ≤ 2 ^ (st.which_slab + 4) =
          pow-le-pow_right (omega arith) {i = 32} (ground arith) in
        rw wide (overlong (omega (arith, large, h.filled)))
  ]

count_repeated-Ends :
    (i : ℕ) (field : FieldDescriptor) (m : ScannedMember) (st : Scan) (calls : ℕ)
    → ((f : ℕ) → st.counts f < 2 ^ 64)
    → Ends (count_repeated (i, field) m st calls) (λ st'.
      (c : ℕ → ℕ) × (st' ≡ record st { counts = c })
      × ((f : ℕ)
          → c f
            ≡ u64 (st.counts f + (if f == i then value_or_zero (count_elements field m) else 0)))
      × ((n : ℕ) × (count_elements field m ≡ some n)))
count_repeated-Ends i field m st calls fits = elim (Option-cases (count_elements field m)) [
  | inl e ↦ rw e tt
  | inr (n, e) ↦ rw e (bump st.counts i n, refl, (λ f. ground (arith, fits f)), (n, refl))
]

pub Label-cases : (l : Label) → (l ≡ required) ⊎ (l ≡ optional) ⊎ (l ≡ repeated)
Label-cases required = inl refl
Label-cases optional = inr (inl refl)
Label-cases repeated = inr (inr refl)

-- What a member brings is added, modulo 2 ^ 64.
pub count_member-Ends :
    (field : Option FieldAt) (m : ScannedMember) (st : Scan) (calls : ℕ)
    → ((f : ℕ) → st.counts f < 2 ^ 64)
    → Ends (count_member field m st calls) (λ st'.
      (c : ℕ → ℕ) × (st' ≡ record st { counts = c })
      × ((f : ℕ) → c f ≡ u64 (st.counts f + brings_to f field m))
      × CountableBy field m)
unfolding count_member count_elements
count_member-Ends none m st calls fits = (st.counts, refl, (λ f. omega (arith, fits f)), tt)
count_member-Ends (some (i, field)) m st calls fits = elim (Label-cases field.label) [
  | inl e ↦ rw e (st.counts, refl, (λ f. omega (arith, fits f)), λ p. cc)
  | inr (inl e) ↦ rw e (st.counts, refl, (λ f. omega (arith, fits f)), λ p. cc)
  | inr (inr e) ↦ rw e (
      Ends-map _ _ (count_repeated (i, field) m st calls)
        (count_repeated-Ends i field m st calls fits)
        λ st' (c, whole, sums, counted). (c, whole, sums, λ p. counted))
]
