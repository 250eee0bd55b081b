-- ===== src/Unpack/Inverse/Rebuilt.antt =====
-- The members that carry the pieces of a field restore its slot.
use protobuf_c.Base.{
  ℕ, ◌≡◌, ◌≢◌, refl, sym, ap, ◌∙◌, IsU32, if◌then◌else◌, Bool, true, false, List, [], ◌∷◌, ◌++◌,
  some, map, All, get_elem?, set, get_elem?-set_self, set-set, set_same, append_assoc, append-nil,
  length, concat_map,
}
use mathlib.Core.Path.{subst}
use protobuf_c.Memory.Input.{Input, HoldsAt}
use protobuf_c.Message.{
  Label, repeated, FieldDescriptor, MessageDescriptor, MessageOf, Slot, array, Value, elements_of,
  is_packable_type,
}
use protobuf_c.Message.Encode.{encode_value, prefixed}
use protobuf_c.Unpack.Packed.RoundTrip.{canonical}
use protobuf_c.Unpack.Outcome.{Action, Gives, Gives-bind, Gives-map}
use protobuf_c.Unpack.Value.{ScannedMember}
use protobuf_c.Unpack.Value.Laws.{Restored}
use protobuf_c.Unpack.Fields.{parse_array, parse_labelled, parse_member, parse_members}
use protobuf_c.Unpack.Inverse.{Piece, one, packed, packed_piece, field_of}
use protobuf_c.Unpack.Inverse.Scanned.{Carried}
use protobuf_c.Unpack.Inverse.Found.{AllCarried}
use protobuf_c.Unpack.Inverse.Slots.{
  AllRestored, IsCarriable, all_canonical, Puts, member-Gives, single_member-Gives,
}
use protobuf_c.Unpack.Inverse.Stored.{element-Gives, packed-Gives}

module _ (answers : ℕ → ℕ) (answered : (k : ℕ) → answers k ≢ 0) {X : Type 0}
    (unpack : MessageDescriptor → ℕ → Input → Action (ℕ × X))
    (submessage_descriptor : FieldDescriptor → MessageDescriptor) (sub : X → List ℕ)
    (P : FieldDescriptor → X → Type 0) (R : X → X → Type 0)
    (reads : (field : FieldDescriptor) (x : X) (input : Input) (calls : ℕ)
      → P field x
      → HoldsAt input 0 (sub x)
      → Gives (unpack (submessage_descriptor field) (length (sub x)) input calls) (λ r. R x r.1))
    (i : ℕ) (field : FieldDescriptor) where
  abbrev pub PutsIn : (Slot X → Type 0) → MessageOf X → MessageOf X → Type 0
  PutsIn = Puts answers answered unpack submessage_descriptor sub P R reads i field

  -- Elements that are carried one by one are appended.
  ones-Gives :
      (vs : List (Value X)) (ms : List ScannedMember) (msg : MessageOf X) (ws : List (Value X))
      (calls : ℕ)
      → field.label ≡ repeated
      → field.packed ≡ false
      → AllCarried sub (map (one i field) vs) ms
      → All (IsCarriable sub P field) vs
      → get_elem? msg.slots i ≡ some (array ws)
      → Gives (parse_members answers unpack submessage_descriptor ms msg calls) (
          PutsIn
            (λ s. (us : List (Value X)) × (s ≡ array (ws ++ us)) × AllRestored R field.type vs us)
            msg)
  unfolding parse_members
  ones-Gives [] [] msg ws calls label plain carried ok there = (
    array ws,
    ap (λ (slots : List (Slot X)). record msg { slots = slots })
        (sym (set_same msg.slots i (array ws) there)),
    ([], ap (λ (us : List (Value X)). array us) (sym (append-nil ws)), tt),
  )
  ones-Gives [] (m ∷ ms) msg ws calls label plain carried ok there = absurd carried
  ones-Gives (v ∷ vs) [] msg ws calls label plain carried ok there = absurd carried
  ones-Gives (v ∷ vs) (m ∷ ms) msg ws calls label plain (c, cs) ((storable, fits), others) there =
      let Q : Slot X → Type 0 =
        λ s. (w : Value X) × (s ≡ array (ws ++ w ∷ [])) × Restored R field.type v w in
      Gives-bind (PutsIn Q msg) _ _ (parse_member answers unpack submessage_descriptor m msg) calls
        (member-Gives answers answered unpack submessage_descriptor sub P R reads i field m msg
          (array ws) Q calls c.field there
          (λ c'.
            subst
              (λ (l : Label).
                Gives (parse_labelled answers unpack submessage_descriptor l field m (array ws) c')
                  Q)
              (sym label)
              (unfold parse_labelled in
                element-Gives answers answered unpack submessage_descriptor sub P R reads i field m
                  v storable fits c (array ws) c' plain)))
        λ msg1 calls1 (s, whole, (w, same, restored)).
          let slots : msg1.slots ≡ set msg.slots i s =
            ap (λ (msg : MessageOf X). msg.slots) whole in
          let now : get_elem? msg1.slots i ≡ some (array (ws ++ w ∷ [])) =
            ap (λ (slots : List (Slot X)). get_elem? slots i) slots
            ∙ get_elem?-set_self msg.slots i s (array ws) there
            ∙ ap (λ (s : Slot X). some s) same in
          Gives-map _ _ (parse_members answers unpack submessage_descriptor ms msg1 calls1)
            (ones-Gives vs ms msg1 (ws ++ w ∷ []) calls1 label plain cs others now)
            λ msg2 (t, whole', (us, same', all)). (
              t,
              whole'
                  ∙ ap (λ (msg : MessageOf X). record msg { slots = set msg.slots i t }) whole
                  ∙ ap (λ (slots : List (Slot X)). record msg { slots = slots })
                      (set-set msg.slots i s t),
              (
                w ∷ us,
                same' ∙ ap (λ (us : List (Value X)). array us) (append_assoc ws (w ∷ []) us),
                (restored, all),
              ),
            )

  pub no_member :
      (ms : List ScannedMember) (msg : MessageOf X) (s : Slot X) (Q : Slot X → Type 0) (calls : ℕ)
      → AllCarried sub [] ms
      → get_elem? msg.slots i ≡ some s
      → Q s
      → Gives (parse_members answers unpack submessage_descriptor ms msg calls) (PutsIn Q msg)
  unfolding parse_members
  no_member [] msg s Q calls carried there h = (
    s,
    ap (λ (slots : List (Slot X)). record msg { slots = slots })
        (sym (set_same msg.slots i s there)),
    h,
  )
  no_member (m ∷ ms) msg s Q calls carried there h = absurd carried

  -- One member, which carries `p`.
  pub one_member :
      (p : Piece X) (ms : List ScannedMember) (msg : MessageOf X) (s : Slot X) (Q : Slot X → Type 0)
      (calls : ℕ)
      → field_of p ≡ some (i, field)
      → AllCarried sub (p ∷ []) ms
      → get_elem? msg.slots i ≡ some s
      → ((m : ScannedMember) (c : ℕ)
          → Carried sub p m
          → Gives (parse_labelled answers unpack submessage_descriptor field.label field m s c) Q)
      → Gives (parse_members answers unpack submessage_descriptor ms msg calls) (PutsIn Q msg)
  one_member p [] msg s Q calls e carried there given = absurd carried
  one_member p (m ∷ []) msg s Q calls e (c, none_left) there given =
      single_member-Gives answers answered unpack submessage_descriptor sub P R reads i field m msg
        s Q calls (c.field ∙ e) there (λ c'. given m c' c)
  one_member p (m ∷ m' ∷ ms) msg s Q calls e (c, more) there given = absurd more

  packed-Restores :
      (vs : List (Value X)) (ms : List ScannedMember) (msg : MessageOf X) (calls : ℕ)
      → field.label ≡ repeated
      → field.packed ≡ true
      → is_packable_type field.type ≡ true
      → IsU32 (length (prefixed (concat_map (encode_value sub field.type) vs)))
      → AllCarried sub (packed_piece i field vs) ms
      → get_elem? msg.slots i ≡ some (array [])
      → Gives
          (parse_members answers unpack submessage_descriptor ms msg calls)
          (PutsIn (λ s. AllRestored R field.type vs (elements_of s)) msg)
  packed-Restores [] ms msg calls label flag packable fits carried there =
      no_member ms msg (array []) _ calls carried there tt
  packed-Restores (v ∷ vs) ms msg calls label flag packable fits carried there =
      let Q : Slot X → Type 0 = λ s. AllRestored R field.type (v ∷ vs) (elements_of s) in
      one_member (packed i field (v ∷ vs)) ms msg (array []) Q calls refl carried there λ m c' c.
        subst
          (λ (l : Label).
            Gives (parse_labelled answers unpack submessage_descriptor l field m (array []) c') Q)
          (sym label)
          (unfold parse_labelled in
            Gives-map (λ s. s ≡ array (map (canonical field.type) (v ∷ vs))) Q
              (parse_array answers unpack submessage_descriptor field m (array []) c')
              (packed-Gives answers answered unpack submessage_descriptor sub P R reads i field m
                (v ∷ vs) (array []) c' flag packable fits c)
              λ s e.
                subst (λ (s : Slot X). AllRestored R field.type (v ∷ vs) (elements_of s)) (sym e)
                  (all_canonical R field.type (v ∷ vs) packable))

  pub array-Restores :
      (flag : Bool) (vs : List (Value X)) (ms : List ScannedMember) (msg : MessageOf X) (calls : ℕ)
      → field.label ≡ repeated
      → field.packed ≡ flag
      → AllCarried sub (if flag then packed_piece i field vs else map (one i field) vs) ms
      → (if flag
          then (is_packable_type field.type ≡ true)
            × IsU32 (length (prefixed (concat_map (encode_value sub field.type) vs)))
          else All (IsCarriable sub P field) vs)
      → get_elem? msg.slots i ≡ some (array [])
      → Gives
          (parse_members answers unpack submessage_descriptor ms msg calls)
          (PutsIn (λ s. AllRestored R field.type vs (elements_of s)) msg)
  array-Restores true vs ms msg calls label e carried (packable, fits) there =
      packed-Restores vs ms msg calls label e packable fits carried there
  array-Restores false vs ms msg calls label e carried ok there =
      Gives-map _ _ (parse_members answers unpack submessage_descriptor ms msg calls)
        (ones-Gives vs ms msg [] calls label e carried ok there)
        λ msg' (s, whole, (us, same, all)). (
          s,
          whole,
          subst (λ (s : Slot X). AllRestored R field.type vs (elements_of s)) (sym same) all,
        )
