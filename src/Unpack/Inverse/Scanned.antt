-- ===== src/Unpack/Inverse/Scanned.antt =====
-- The scan finds the pieces of an encoding, one member for each.
use protobuf_c.Base.{
  ℕ, ◌+◌, false, ◌-◌, ◌^◌, ◌≤◌, ◌<◌, ◌≡◌, ◌≢◌, refl, sym, ap, ◌∙◌, arith, IsU32, ◌==◌, ltb, List,
  [], ◌∷◌, ◌++◌, Option, none, some, Bool-cases, inl, inr, length, concat_map, u32,
}
use native.Mathlib.Nat.{pow-le-pow_right}
use mathlib.Core.Path.{subst}
use protobuf_c.Memory.Input.{Input, HoldsAt}
use protobuf_c.Message.{FieldDescriptor, MessageDescriptor, wire_code}
use protobuf_c.Message.Encode.{encode_value}
use protobuf_c.Scalar.Base128.{varint}
use protobuf_c.Unpack.Member.{scan_member}
use protobuf_c.Unpack.Member.Laws.{prefix_len}
use protobuf_c.Unpack.Outcome.{alloc, Gives, Gives-bind, Gives-map, alloc-Gives}
use protobuf_c.Unpack.Value.{ScannedMember}
use protobuf_c.Unpack.Value.Laws.{Carries}
use protobuf_c.Unpack.Loop.{
  FieldAt, Scan, find_field, note_field, or_fail, next_slab, slab_of, new_slab, max_slab,
  add_member, count_member, count_elements, count_repeated, keep_member, scan_field,
}
use protobuf_c.Unpack.Loop.Tally.{FromDesc, CountableBy}
use protobuf_c.Unpack.Loop.Steps.{IsSlabbed, Label-cases}
use protobuf_c.Unpack.Loop.Invariant.{IsScan, note_field-same}
use protobuf_c.Unpack.Inverse.{Piece, one, packed, unknown, field_of, tag_of, wire_of, body}

pub or_fail-Gives :
    {A : Type 0} (o : Option A) (a : A) (calls : ℕ)
    → o ≡ some a
    → Gives (or_fail o calls) (λ b. b ≡ a)
or_fail-Gives none a calls e = cc
or_fail-Gives (some b) a calls e = cc

-- Room for as many members as the slabs have whose size is an `unsigned`.
abbrev pub max_members : ℕ
max_members = 2 ^ 32 - 16

module _ (answers : ℕ → ℕ) (answered : (k : ℕ) → answers k ≢ 0) where
  new_slab-Gives :
      (st : Scan) (calls : ℕ) → Gives (new_slab answers st calls) (λ st'. st'.members ≡ st.members)
  new_slab-Gives st calls =
      Gives-bind (λ slab. slab ≢ 0) (λ st'. st'.members ≡ st.members) _ (alloc answers) calls
        (alloc-Gives answers answered calls) λ slab calls' h. refl

  slab_of-Gives :
      (st : Scan) (calls : ℕ)
      → st.which_slab + 4 < 32
      → Gives (slab_of answers st (2 ^ (st.which_slab + 4)) calls) (λ st'. st'.members ≡ st.members)
  slab_of-Gives st calls low =
      let more : (st.which_slab == max_slab) ≡ false = ground arith in
      elim (Bool-cases (st.in_slab_index == 2 ^ (st.which_slab + 4))) [
        | inl full ↦ rw (full, more) (new_slab-Gives st calls)
        | inr room ↦ rw room refl
      ]

  next_slab-Gives :
      (members : ℕ) (st : Scan) (calls : ℕ)
      → IsSlabbed members st.which_slab st.in_slab_index
      → members < max_members
      → Gives (next_slab answers st calls) (λ st'. st'.members ≡ st.members)
  unfolding next_slab
  next_slab-Gives members st calls h few = elim (Bool-cases (ltb (st.which_slab + 4) 32)) [
    | inl fits ↦ rw fits (slab_of-Gives st calls (ground arith))
    | inr wide ↦
        let large : 2 ^ 32 ≤ 2 ^ (st.which_slab + 4) =
          pow-le-pow_right (omega arith) {i = 32} (ground arith) in
        absurd (omega (arith, large, h.filled, few))
  ]

  count_repeated-Gives :
      (i : ℕ) (field : FieldDescriptor) (m : ScannedMember) (st : Scan) (n calls : ℕ)
      → count_elements field m ≡ some n
      → Gives (count_repeated (i, field) m st calls) (λ st'. st'.members ≡ st.members)
  count_repeated-Gives i field m st n calls e = rw e refl

  count_member-Gives :
      (field : Option FieldAt) (m : ScannedMember) (st : Scan) (calls : ℕ)
      → CountableBy field m
      → Gives (count_member field m st calls) (λ st'. st'.members ≡ st.members)
  unfolding count_member
  count_member-Gives none m st calls c = refl
  count_member-Gives (some (i, field)) m st calls c = elim (Label-cases field.label) [
    | inl e ↦ rw e refl
    | inr (inl e) ↦ rw e refl
    | inr (inr e) ↦
        let (n, counted) = c e in rw e (count_repeated-Gives i field m st n calls counted)
  ]

  keep_member-Gives :
      (m : ScannedMember) (st : Scan) (calls : ℕ)
      → IsSlabbed (length st.members) st.which_slab st.in_slab_index
      → length st.members < max_members
      → CountableBy m.field m
      → Gives (keep_member answers m st calls) (λ st'. st'.members ≡ st.members ++ m ∷ [])
  unfolding keep_member
  keep_member-Gives m st calls slabs few c =
      let (same, _, slab, index) = note_field-same m.field st in
      Gives-bind (λ st'. st'.members ≡ (note_field m.field st).members)
        (λ st'. st'.members ≡ st.members ++ m ∷ []) _ (next_slab answers (note_field m.field st))
        calls
        (next_slab-Gives (length st.members) (note_field m.field st) calls (rw (slab, index) slabs)
          few)
        λ st' calls' e.
          Gives-map (λ st''. st''.members ≡ st'.members ++ m ∷ [])
            (λ st''. st''.members ≡ st.members ++ m ∷ [])
            (count_member m.field m (add_member m st') calls')
            (count_member-Gives m.field m (add_member m st') calls' c)
            λ st'' e'. e' ∙ ap (λ (ms : List ScannedMember). ms ++ m ∷ []) (e ∙ same)

module _ {X : Type 0} (sub : X → List ℕ) where
  -- The length of the length, but of an unknown field.
  abbrev pub IsPrefix : Piece X → ℕ → Type 0
  IsPrefix (one i field v) n = n ≡ prefix_len sub field.type v
  IsPrefix (packed i field vs) n =
      n ≡ length (varint (u32 (length (concat_map (encode_value sub field.type) vs))))
  IsPrefix (unknown u) n = Unit {0}

  -- The member that the scan makes of a piece.
  pub record Carried (p : Piece X) (m : ScannedMember) : Type 0 where
    pub field : m.field ≡ field_of p
    pub tag : m.tag ≡ tag_of p
    pub prefix : IsPrefix p m.length_prefix_len
    pub carries : Carries (body sub p) m.length_prefix_len (wire_of p) m

  -- What lets the scan take a piece whole: its tag has 32 bits, its field is found whatever field was
  -- found before, its end is found whatever follows, and its elements are counted.
  pub record Scannable (desc : MessageDescriptor) (p : Piece X) : Type 0 where
    pub tag_fits : IsU32 (tag_of p)
    pub finds :
        (last : Option FieldAt) (calls : ℕ)
        → FromDesc desc last
        → Gives (find_field desc last (tag_of p) calls) (λ at. at ≡ field_of p)
    pub scans :
        (rem : ℕ) (input : Input)
        → length (body sub p) ≤ rem
        → HoldsAt input 0 (body sub p)
        → (n : ℕ) × (scan_member (wire_code (wire_of p)) rem input ≡ some (length (body sub p), n))
          × IsPrefix p n
    pub counts : (m : ScannedMember) → Carried p m → CountableBy (field_of p) m

  module _ (answers : ℕ → ℕ) (answered : (k : ℕ) → answers k ≢ 0) (desc : MessageDescriptor) where
    -- After a round that has taken the piece `p`, of `n` bytes.
    abbrev pub Took : Piece X → ℕ → Scan → ℕ × Scan → Type 0
    Took p n st r =
        (r.0 ≡ n) × (m : ScannedMember) × (r.1.members ≡ st.members ++ m ∷ []) × Carried p m

    pub scan_field-Gives :
        (p : Piece X) (rem : ℕ) (at : Input) (st : Scan) (calls : ℕ)
        → Scannable desc p
        → IsScan desc st
        → length st.members < max_members
        → length (body sub p) ≤ rem
        → HoldsAt at 0 (body sub p)
        → Gives
            (scan_field answers desc (tag_of p) (wire_code (wire_of p)) rem at st calls)
            (Took p (length (body sub p)) st)
    unfolding scan_field
    scan_field-Gives p rem at st calls ok scan few long holds =
        let (n, scanned, prefix) = ok.scans rem at long holds in
        Gives-bind (λ f. f ≡ field_of p) (Took p (length (body sub p)) st) _
          (find_field desc st.last_field (tag_of p)) calls (ok.finds st.last_field calls scan.last)
          λ f calls1 found.
            Gives-bind (λ r. r ≡ (length (body sub p), n)) (Took p (length (body sub p)) st) _
              (or_fail (scan_member (wire_code (wire_of p)) rem at)) calls1
              (or_fail-Gives (scan_member (wire_code (wire_of p)) rem at) (length (body sub p), n)
                calls1 scanned)
              λ (len, pref_len) calls2 e.
                let m : ScannedMember = record {
                  tag = tag_of p;
                  wire_type = wire_code (wire_of p);
                  length_prefix_len = pref_len;
                  field = f;
                  len = len;
                  input = at;
                } in
                let same_len : len ≡ length (body sub p) = ap (λ (r : ℕ × ℕ). r.0) e in
                let same_pref : pref_len ≡ n = ap (λ (r : ℕ × ℕ). r.1) e in
                let carried : Carried p m = record {
                  field = found;
                  tag = refl;
                  prefix = subst (IsPrefix p) (sym same_pref) prefix;
                  carries = record { wired = refl; len = same_len; pref = refl; holds = holds };
                } in
                let countable : CountableBy f m =
                  subst (λ f. CountableBy f m) (sym found) (ok.counts m carried) in
                Gives-bind (λ st'. st'.members ≡ st.members ++ m ∷ [])
                  (Took p (length (body sub p)) st) _ (keep_member answers m st) calls2
                  (keep_member-Gives answers answered m st calls2 scan.slabs few countable)
                  λ st' calls3 grown. (same_len, m, grown, carried)
